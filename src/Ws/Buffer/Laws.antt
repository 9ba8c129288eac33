-- ===== src/Ws/Buffer/Laws.antt =====
-- What the buffer holds after some items are pushed.
use mathlib.Core.List.{append_assoc, append-nil, head?}
use Prim.Native.Nat.add
use native.Mathlib.Nat.{add-zero, zero-add, mod_self, mod-eq_of_lt, add-mod_left}
use xmtp_broker.Base.{
  ℕ, zero, suc, ◌+◌, ◌-◌, ◌%◌, ◌≤◌, ◌<◌, ◌≡◌, refl, sym, ap, ap₂, ◌∙◌, Bool, true, false, List, [],
  ◌∷◌, ◌++◌, Option, none, some, ltb, lt→ltb, Option-cases, get_elem?, set, replicate, filter, map,
  length, length-append, drop, if◌then◌else◌, arith,
}
use xmtp_broker.Ws.Buffer.{
  CircularBuffer, push, start_of, oldest, gather, to_array, gather_since, items_since,
}

wrap_self : (h size : ℕ) → h + 1 ≡ size → (h + 1) % size ≡ 0
wrap_self h size e = rw e (mod_self size)

no_wrap : (h size : ℕ) → h + 1 < size → (h + 1) % size ≡ h + 1
no_wrap h size lt = mod-eq_of_lt lt

module _ {T : Type 0} where
  abbrev pub slots : List T → List (Option T)
  slots xs = map some xs

  get_elem?-append :
      (xs : List (Option T)) (y : Option T) (ys : List (Option T))
      → get_elem? (xs ++ y ∷ ys) (length xs) ≡ some y
  get_elem?-append [] y ys = refl
  get_elem?-append (x ∷ xs) y ys = get_elem?-append xs y ys

  set-append :
      (xs : List (Option T)) (y v : Option T) (ys : List (Option T))
      → set (xs ++ y ∷ ys) (length xs) v ≡ xs ++ v ∷ ys
  set-append [] y v ys = refl
  set-append (x ∷ xs) y v ys = ap (◌∷◌ x) (set-append xs y v ys)

  gather_step :
      (buffer : List (Option T)) (size start i n : ℕ) (x : T)
      → get_elem? buffer ((start + i) % size) ≡ some (some x)
      → gather buffer size start i (suc n) ≡ x ∷ gather buffer size start (i + 1) n
  unfolding gather
  gather_step buffer size start i n x e = rw (gather, e)

  -- The loop reads a run of full slots that begins at `length pre`.
  gather_run :
      (pre : List (Option T)) (run : List T) (post : List (Option T)) (size start i : ℕ)
      → ((k : ℕ) → k < length run → (start + (i + k)) % size ≡ length pre + k)
      → gather (pre ++ (slots run ++ post)) size start i (length run) ≡ run
  unfolding gather
  gather_run pre [] post size start i h = refl
  gather_run pre (r ∷ run) post size start i h =
      let here : (start + i) % size ≡ length pre = at_zero (h 0 (omega arith)) in
      let pre' : List (Option T) = pre ++ some r ∷ [] in
      let split : pre' ++ (slots run ++ post) ≡ pre ++ (slots (r ∷ run) ++ post) =
        append_assoc pre (some r ∷ []) (slots run ++ post) in
      let ih =
        gather_run pre' run post size start (i + 1) (λ k lt. at_suc k (h (suc k) (omega arith))) in
      gather_step (pre ++ (slots (r ∷ run) ++ post)) size start i (length run) r
        (rw here (get_elem?-append pre (some r) (slots run ++ post)))
      ∙ ap (◌∷◌ r) (rw (← split) ih)
    where
      at_zero : (start + (i + 0)) % size ≡ length pre + 0 → (start + i) % size ≡ length pre
      at_zero e = simp add-zero at e

      at_suc :
          (k : ℕ)
          → (start + (i + suc k)) % size ≡ length pre + suc k
          → (start + (i + 1 + k)) % size ≡ length (pre ++ some r ∷ []) + k
      at_suc k e =
          let same : start + (i + 1 + k) ≡ start + (i + suc k) = omega arith in
          rw (same, e) (omega (arith, length-append pre (some r ∷ [])))

  -- The array as it stands: filled up to the head, or full, with the older items from the head on.
  pub data Holds (b : CircularBuffer T) (xs : List T) : Type 0 where
    filling :
        (free : ℕ)
        → b.buffer ≡ slots xs ++ replicate (suc free) none
        → b.head ≡ length xs
        → b.count ≡ length xs
        → b.cap ≡ length xs + suc free
        → Holds b xs
    full :
        (newer older : List T)
        → xs ≡ older ++ newer
        → 0 < length older
        → b.buffer ≡ slots newer ++ slots older
        → b.head ≡ length newer
        → b.count ≡ b.cap
        → b.cap ≡ length newer + length older
        → Holds b xs

  length-slots : (xs : List T) → length (slots xs) ≡ length xs
  length-slots [] = refl
  length-slots (x ∷ xs) = ap suc (length-slots xs)

  slots-append : (xs ys : List T) → slots (xs ++ ys) ≡ slots xs ++ slots ys
  slots-append [] ys = refl
  slots-append (x ∷ xs) ys = ap (◌∷◌ (some x)) (slots-append xs ys)

  -- After a write at the end of `xs`.
  set_at :
      (xs : List T) (y : Option T) (x : T) (rest : List (Option T))
      → set (slots xs ++ y ∷ rest) (length xs) (some x) ≡ slots (xs ++ x ∷ []) ++ rest
  set_at [] y x rest = refl
  set_at (z ∷ xs) y x rest = ap (◌∷◌ (some z)) (set_at xs y x rest)

  abbrev pub after_push : ℕ → List T → T → List T
  after_push cap xs x = if ltb (length xs) cap then xs ++ x ∷ [] else drop 1 (xs ++ x ∷ [])

  push-filling :
      (b : CircularBuffer T) (xs : List T) (x : T) (free : ℕ)
      → b.buffer ≡ slots xs ++ replicate (suc free) none
      → b.head ≡ length xs
      → b.count ≡ length xs
      → b.cap ≡ length xs + suc free
      → Holds (push b x) (xs ++ x ∷ [])
  unfolding push
  push-filling b xs x zero eb eh ec ecap =
      full [] (xs ++ x ∷ []) (sym (append-nil (xs ++ x ∷ [])))
        (omega (arith, length-append xs (x ∷ [])))
        (rw (eb, eh) (set_at xs none x [] ∙ append-nil (slots (xs ++ x ∷ []))))
        (rw eh (wrap_self (length xs) b.cap (omega arith))) (ground arith)
        (omega (arith, length-append xs (x ∷ [])))
  push-filling b xs x (suc free) eb eh ec ecap =
      filling free (rw (eb, eh) (set_at xs none x (replicate (suc free) none)))
        (no_wrap b.head b.cap (omega arith) ∙ omega (arith, length-append xs (x ∷ [])))
        (ground (arith, length-append xs (x ∷ []))) (omega (arith, length-append xs (x ∷ [])))

  push-full :
      (b : CircularBuffer T) (newer older : List T) (y x : T)
      → b.buffer ≡ slots newer ++ slots (y ∷ older)
      → b.head ≡ length newer
      → b.count ≡ b.cap
      → b.cap ≡ length newer + suc (length older)
      → Holds (push b x) (older ++ (newer ++ x ∷ []))
  unfolding push
  push-full b newer [] y x eb eh ec ecap =
      full [] (newer ++ x ∷ []) (sym (append-nil (newer ++ x ∷ [])))
        (omega (arith, length-append newer (x ∷ [])))
        (rw (eb, eh) (set_at newer (some y) x [] ∙ append-nil (slots (newer ++ x ∷ []))))
        (rw eh (wrap_self (length newer) b.cap (omega arith))) (ground arith)
        (omega (arith, length-append newer (x ∷ [])))
  push-full b newer (z ∷ older) y x eb eh ec ecap =
      full (newer ++ x ∷ []) (z ∷ older) refl (omega arith)
        (rw (eb, eh) (set_at newer (some y) x (slots (z ∷ older))))
        (no_wrap b.head b.cap (omega arith) ∙ omega (arith, length-append newer (x ∷ [])))
        (ground arith) (omega (arith, length-append newer (x ∷ [])))

  pub Holds-length : (b : CircularBuffer T) (xs : List T) → Holds b xs → b.count ≡ length xs
  Holds-length b xs (filling free eb eh ec ecap) = ec
  Holds-length b xs (full newer older ex pos eb eh ec ecap) =
      rw ex (omega (arith, length-append older newer))

  pub push-Holds :
      (b : CircularBuffer T) (xs : List T) (x : T)
      → Holds b xs
      → Holds (push b x) (after_push b.cap xs x)
  push-Holds b xs x (filling free eb eh ec ecap) =
      rw (lt→ltb (length xs) b.cap (omega arith)) (push-filling b xs x free eb eh ec ecap)
  push-Holds b xs x (full newer [] ex pos eb eh ec ecap) = absurd (omega arith)
  push-Holds b xs x (full newer (y ∷ older) ex pos eb eh ec ecap) =
      let long : ltb (length xs) b.cap ≡ false =
        rw ex (ground (arith, length-append (y ∷ older) newer)) in
      rw (long, ex)
        (rw (append_assoc older newer (x ∷ [])) (push-full b newer older y x eb eh ec ecap))

  gather-append :
      (buffer : List (Option T)) (size start i m n : ℕ)
      → gather buffer size start i (m + n)
        ≡ gather buffer size start i m ++ gather buffer size start (i + m) n
  unfolding gather
  gather-append buffer size start i zero n = simp (zero-add, add-zero)
  gather-append buffer size start i (suc m) n =
      let next : i + suc m ≡ i + 1 + m = omega arith in
      rw (add.suc m n, next) (ground (arith, gather-append buffer size start (i + 1) m n))

  -- A full array is read from the head to its end, then from its beginning to the head.
  read_full :
      (newer older : List T) (size : ℕ)
      → size ≡ length older + length newer
      → gather (slots newer ++ slots older) size (length newer) 0 (length older + length newer)
        ≡ older ++ newer
  read_full newer older size e =
      gather-append (slots newer ++ slots older) size (length newer) 0 (length older) (length newer)
      ∙ ap₂ (◌++◌) first second
    where
      first : gather (slots newer ++ slots older) size (length newer) 0 (length older) ≡ older
      first = rw (append-nil (slots older)) at (
          gather_run (slots newer) older [] size (length newer) 0
            (λ k lt. rw (zero-add k, length-slots newer) (mod-eq_of_lt (omega arith))))

      turned : (k : ℕ) → k < length newer → (length newer + (0 + length older + k)) % size ≡ 0 + k
      turned k lt =
          let around : length newer + (0 + length older + k) ≡ size + k = omega arith in
          rw (around, add-mod_left size k, zero-add k) (mod-eq_of_lt (omega arith))

      second :
          gather (slots newer ++ slots older) size (length newer) (0 + length older) (length newer)
          ≡ newer
      second = gather_run [] newer (slots older) size (length newer) (0 + length older) turned

  pub to_array-Holds : (b : CircularBuffer T) (xs : List T) → Holds b xs → to_array b ≡ xs
  unfolding to_array
  to_array-Holds b xs (filling free eb eh ec ecap) =
      let short : ltb b.count b.cap ≡ true = lt→ltb _ _ (omega arith) in
      rw (start_of, short, eb, ec)
        (gather_run [] xs (replicate (suc free) none) b.cap 0 0
          (λ k lt. rw (zero-add k, zero-add k) (mod-eq_of_lt (omega arith))))
  to_array-Holds b xs (full newer older ex pos eb eh ec ecap) =
      let long : ltb b.count b.cap ≡ false = ground arith in
      let size : b.cap ≡ length older + length newer = omega arith in
      rw (start_of, long, eb, eh, ec, ex)
        (ap (gather (slots newer ++ slots older) b.cap (length newer) 0) size
          ∙ read_full newer older b.cap size)

  pub items_since-filter :
      (b : CircularBuffer T) (p : T → Bool) → items_since b p ≡ filter p (to_array b)
  unfolding items_since to_array
  items_since-filter b p = go b.count 0
    where
      go :
          (n i : ℕ)
          → gather_since p b.buffer b.cap (start_of b) i n
            ≡ filter p (gather b.buffer b.cap (start_of b) i n)
      go zero i = refl
      go (suc n) i =
          ground (arith, go n (i + 1), Option-cases (get_elem? b.buffer ((start_of b + i) % b.cap)))

  pub oldest-Holds : (b : CircularBuffer T) (xs : List T) → Holds b xs → oldest b ≡ head? xs
  unfolding oldest
  oldest-Holds b [] h = rw (Holds-length b [] h, oldest)
  oldest-Holds b (x ∷ xs) (filling free eb eh ec ecap) =
      let short : ltb b.count b.cap ≡ true = lt→ltb _ _ (omega arith) in ground (arith, short)
  oldest-Holds b (x ∷ xs) (full newer [] ex pos eb eh ec ecap) = absurd (omega arith)
  oldest-Holds b (x ∷ xs) (full newer (y ∷ older) ex pos eb eh ec ecap) =
      let found = get_elem?-append (slots newer) (some y) (slots older) in
      ground (arith, length-slots newer, found)

  -- A run of pushes, the first item first.
  abbrev pub push_all : CircularBuffer T → List T → CircularBuffer T
  push_all b [] = b
  push_all b (x ∷ xs) = push_all (push b x) xs

  push-cap : (b : CircularBuffer T) (x : T) → (push b x).cap ≡ b.cap
  unfolding push
  push-cap b x = refl

  -- The last `n` items of a list.
  abbrev pub take_last : ℕ → List T → List T
  take_last n xs = drop (length xs - n) xs

  pub take_last-short : (n : ℕ) (xs : List T) → length xs ≤ n → take_last n xs ≡ xs
  take_last-short n xs h = let e : length xs - n ≡ 0 = omega arith in rw e
