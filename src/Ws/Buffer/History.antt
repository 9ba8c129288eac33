-- ===== src/Ws/Buffer/History.antt =====
-- The buffer against the whole history of what was pushed to it.
use mathlib.Core.List.{append_assoc, append-nil, head?}
use xmtp_broker.Base.{
  ℕ, zero, suc, ◌-◌, ◌≤◌, ◌<◌, ◌≡◌, refl, ap, ◌∙◌, Bool, List, [], ◌∷◌, ◌++◌, ltb, filter, length,
  length-append, drop, arith, inl, inr, Bool-cases,
}
use xmtp_broker.Ws.Buffer.{CircularBuffer, new_buffer, push, oldest, to_array, items_since}
use xmtp_broker.Ws.Buffer.Laws.{
  Holds, filling, push-Holds, push_all, take_last, take_last-short, to_array-Holds, oldest-Holds,
  items_since-filter, after_push,
}

module _ {T : Type 0} where
  -- Pushing one more item before the rest leaves the same window.
  window :
      (size : ℕ) (ys : List T) (x : T) (xs : List T)
      → length ys ≤ size
      → 0 < size
      → take_last size (after_push size ys x ++ xs) ≡ take_last size (ys ++ x ∷ xs)
  window size ys x xs le pos = elim (Bool-cases (ltb (length ys) size)) [
    | inl short ↦ rw (short, append_assoc ys (x ∷ []) xs)
    | inr long ↦ rw long (slide ys (ground arith))
  ]
    where
      slide :
          (zs : List T)
          → length zs ≡ size
          → take_last size (drop 1 (zs ++ x ∷ []) ++ xs) ≡ take_last size (zs ++ x ∷ xs)
      slide [] e = absurd (omega arith)
      slide (z ∷ zs) e =
          let more : suc (length (zs ++ x ∷ xs)) - size ≡ suc (length (zs ++ x ∷ xs) - size) =
            omega (arith, length-append zs (x ∷ xs)) in
          rw (append_assoc zs (x ∷ []) xs, more)

  after_push-le :
      (size : ℕ) (ys : List T) (x : T) → length ys ≤ size → length (after_push size ys x) ≤ size
  after_push-le size ys x le = elim (Bool-cases (ltb (length ys) size)) [
    | inl short ↦ rw short (ground (arith, length-append ys (x ∷ [])))
    | inr long ↦ rw long (slide ys le)
  ]
    where
      slide : (zs : List T) → length zs ≤ size → length (drop 1 (zs ++ x ∷ [])) ≤ size
      slide [] e = omega arith
      slide (z ∷ zs) e = omega (arith, length-append zs (x ∷ []))

  push_all-Holds :
      (b : CircularBuffer T) (ys xs : List T)
      → Holds b ys
      → length ys ≤ b.cap
      → 0 < b.cap
      → Holds (push_all b xs) (take_last b.cap (ys ++ xs))
  unfolding push
  push_all-Holds b ys [] h le pos = rw (append-nil ys, take_last-short b.cap ys le) h
  push_all-Holds b ys (x ∷ xs) h le pos = rw (← window b.cap ys x xs le pos) (
      push_all-Holds (push b x) (after_push b.cap ys x) xs (push-Holds b ys x h)
        (after_push-le b.cap ys x le) pos)

  new_buffer-Holds : (size : ℕ) → 0 < size → Holds {T = T} (new_buffer size) []
  unfolding new_buffer
  new_buffer-Holds zero pos = absurd (omega arith)
  new_buffer-Holds (suc n) pos = filling n refl refl refl (omega arith)

  pub history-Holds :
      (size : ℕ) (items : List T)
      → 0 < size
      → Holds (push_all (new_buffer size) items) (take_last size items)
  unfolding new_buffer
  history-Holds size items pos =
      push_all-Holds (new_buffer size) [] items (new_buffer-Holds size pos) (omega arith) pos

  -- For a capacity above zero and any run of pushes, the array lists the last items of the run, at
  -- most as many as the capacity, in their order; the oldest item is the first of them, and the
  -- items since a test are those of them that pass it.
  pub push_all-to_array :
      (size : ℕ) (items : List T) (p : T → Bool)
      → 0 < size
      → (to_array (push_all (new_buffer size) items) ≡ take_last size items)
        × (oldest (push_all (new_buffer size) items) ≡ head? (take_last size items))
        × (items_since (push_all (new_buffer size) items) p ≡ filter p (take_last size items))
  push_all-to_array size items p pos =
      let b = push_all (new_buffer size) items in
      let held = history-Holds size items pos in
      let listed = to_array-Holds b (take_last size items) held in
      (
        listed,
        oldest-Holds b (take_last size items) held,
        items_since-filter b p ∙ ap (filter p) listed,
      )
