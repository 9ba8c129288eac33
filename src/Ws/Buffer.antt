-- ===== src/Ws/Buffer.antt =====
-- packages/ws/src/replay-buffer.ts: an array of fixed length in which the newest items overwrite
-- the oldest. A slot is `none` where the array holds `undefined`.
pub mod Laws
pub mod History
use xmtp_broker.Base.{
  ℕ, zero, suc, ◌+◌, ◌%◌, Bool, List, [], ◌∷◌, ◌++◌, Option, none, some, ltb, get_elem?, set,
  replicate, filter, if◌then◌else◌,
}

pub record CircularBuffer (T : Type 0) : Type 0 where
  pub buffer : List (Option T)
  pub head : ℕ
  pub count : ℕ
  pub cap : ℕ

pub new_buffer : {T : Type 0} → ℕ → CircularBuffer T
new_buffer cap = record { buffer = replicate cap none; head = 0; count = 0; cap = cap }

module _ {T : Type 0} where
  pub push : CircularBuffer T → T → CircularBuffer T
  push b item = record b {
    buffer = set b.buffer b.head (some item);
    head = (b.head + 1) % b.cap;
    count = if ltb b.count b.cap then b.count + 1 else b.count;
  }

  start_of : CircularBuffer T → ℕ
  start_of b = if ltb b.count b.cap then 0 else b.head

  -- `array[i]`: undefined out of range
  abbrev slot : List (Option T) → ℕ → Option T
  slot buffer i = elim (get_elem? buffer i) [ none ↦ none | some x ↦ x ]

  pub oldest : CircularBuffer T → Option T
  unfolding start_of
  oldest b = elim b.count [ zero ↦ none | suc n ↦ slot b.buffer (start_of b) ]

  -- The loop of `toArray` from `i` on, for `n` more rounds; an undefined slot is skipped.
  gather : List (Option T) → ℕ → ℕ → ℕ → ℕ → List T
  gather buffer cap start i zero = []
  gather buffer cap start i (suc n) =
      let rest = gather buffer cap start (i + 1) n in
      elim (slot buffer ((start + i) % cap)) [ none ↦ rest | some item ↦ item ∷ rest ]

  pub to_array : CircularBuffer T → List T
  unfolding start_of gather
  to_array b = gather b.buffer b.cap (start_of b) 0 b.count

  gather_since : (T → Bool) → List (Option T) → ℕ → ℕ → ℕ → ℕ → List T
  gather_since predicate buffer cap start i zero = []
  gather_since predicate buffer cap start i (suc n) =
      let rest = gather_since predicate buffer cap start (i + 1) n in
      elim (slot buffer ((start + i) % cap)) [
        | none ↦ rest
        | some item ↦ if predicate item then item ∷ rest else rest
      ]

  pub items_since : CircularBuffer T → (T → Bool) → List T
  unfolding start_of gather_since
  items_since b predicate = gather_since predicate b.buffer b.cap (start_of b) 0 b.count

  pub clear : CircularBuffer T → CircularBuffer T
  clear b = record b { buffer = map_none b.buffer; head = 0; count = 0 }
    where
      map_none : List (Option T) → List (Option T)
      map_none [] = []
      map_none (x ∷ xs) = none ∷ map_none xs
