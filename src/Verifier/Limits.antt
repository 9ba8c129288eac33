-- ===== src/Verifier/Limits.antt =====
-- How many calls of one requester the rate limiter lets pass.
use xmtp_broker.Base.{
  get-put, get-delete, eq_refl, length-append, ℕ, ◌+◌, ◌≤◌, String, Bool, true, false, List, [],
  ◌∷◌, ◌++◌, Option, none, some, leb, get, put, delete, length, ◌≡◌, ◌==◌, refl, sym, ap, subst,
  ◌∙◌, arith, inl, inr, Bool-cases, Option-cases, if◌then◌else◌,
}
use xmtp_broker.Verifier.{RateLimiterConfig, Timestamps, evict_stale, check_entries, check}

-- A run of calls at times that do not go back, with the times at which `id` was let pass, from the
-- first on, and the time of the last call.
pub data Calls (config : RateLimiterConfig) (id : String) : Timestamps → List ℕ → ℕ → Type 0 where
  none_yet : Calls config id [] [] 0
  passed :
      {s : Timestamps} {times : List ℕ} {last : ℕ} (now : ℕ)
      → last ≤ now
      → (check config s id now).1 ≡ true
      → Calls config id s times last
      → Calls config id (check config s id now).0 (times ++ now ∷ []) now
  limited :
      {s : Timestamps} {times : List ℕ} {last : ℕ} (now : ℕ)
      → last ≤ now
      → (check config s id now).1 ≡ false
      → Calls config id s times last
      → Calls config id (check config s id now).0 times now
  elsewhere :
      {s : Timestamps} {times : List ℕ} {last : ℕ} (other : String) (now : ℕ)
      → last ≤ now
      → (other == id) ≡ false
      → Calls config id s times last
      → Calls config id (check config s other now).0 times now

-- How many of the times lie in the window that ends at `now`.
abbrev pub recent : ℕ → ℕ → List ℕ → ℕ
recent window now [] = 0
recent window now (t ∷ ts) =
    let rest = recent window now ts in if leb now (t + window) then rest + 1 else rest

recent-append : (w now : ℕ) (s t : List ℕ) → recent w now (s ++ t) ≡ recent w now s + recent w now t
recent-append w now [] t = omega arith
recent-append w now (x ∷ xs) t = ground (arith, recent-append w now xs t)

recent-length : (w now : ℕ) (ts : List ℕ) → recent w now ts ≤ length ts
recent-length w now [] = omega arith
recent-length w now (t ∷ ts) = ground (arith, recent-length w now ts)

evict_stale-recent :
    (config : RateLimiterConfig) (now later : ℕ) (ts : List ℕ)
    → now ≤ later
    → recent config.window_ms later (evict_stale config now ts) ≡ recent config.window_ms later ts
evict_stale-recent config now later [] h = refl
evict_stale-recent config now later (t ∷ ts) h =
    ground (arith, evict_stale-recent config now later ts h)

evict_stale-length :
    (config : RateLimiterConfig) (now : ℕ) (ts : List ℕ)
    → length (evict_stale config now ts) ≤ length ts
evict_stale-length config now [] = omega arith
evict_stale-length config now (t ∷ ts) = ground (arith, evict_stale-length config now ts)

abbrev entries_of : Option (List ℕ) → List ℕ
entries_of none = []
entries_of (some ts) = ts

entries-put : (s : Timestamps) (id : String) (ts : List ℕ) → entries_of (get (put s id ts) id) ≡ ts
entries-put s id ts =
    let found : get (put s id ts) id ≡ some ts = get-put s id ts id ∙ rw (eq_refl id) in
    ap entries_of found

-- What the entries of a requester are after a call of its own.
record IsChecked (config : RateLimiterConfig) (fresh after : List ℕ) (now : ℕ) (allowed : Bool)
    : Type 0 where
  when_passed :
      allowed ≡ true → (after ≡ fresh ++ now ∷ []) × (length fresh + 1 ≤ config.max_requests)
  when_limited : allowed ≡ false → after ≡ fresh

check_entries-IsChecked :
    (config : RateLimiterConfig) (s : Timestamps) (id : String) (now : ℕ) (fresh : List ℕ)
    → 1 ≤ config.max_requests
    → IsChecked config fresh
        (entries_of (get (check_entries config s id now fresh).0 id))
        now
        (check_entries config s id now fresh).1
unfolding check_entries
check_entries-IsChecked config s id now [] some_room = record {
  when_passed = λ h. (entries-put (delete s id) id (now ∷ []), omega arith);
  when_limited = λ h. cc h;
}
check_entries-IsChecked config s id now (t ∷ ts) some_room =
    elim (Bool-cases (leb config.max_requests (length (t ∷ ts)))) [
      | inl full ↦
          let out : check_entries config s id now (t ∷ ts) ≡ (put s id (t ∷ ts), false) =
            rw (full, check_entries) in
          subst (λ r. IsChecked config (t ∷ ts) (entries_of (get r.0 id)) now r.1) (sym out)
            (record { when_passed = λ h. cc h; when_limited = λ h. entries-put s id (t ∷ ts) })
      | inr room ↦
          let out : check_entries config s id now (t ∷ ts)
              ≡ (put s id ((t ∷ ts) ++ now ∷ []), true) =
            rw (room, check_entries) in
          subst (λ r. IsChecked config (t ∷ ts) (entries_of (get r.0 id)) now r.1) (sym out)
            (record {
              when_passed = λ h. (entries-put s id ((t ∷ ts) ++ now ∷ []), ground arith);
              when_limited = λ h. cc h;
            })
    ]

check-IsChecked :
    (config : RateLimiterConfig) (s : Timestamps) (id : String) (now : ℕ)
    → 1 ≤ config.max_requests
    → IsChecked config
        (evict_stale config now (entries_of (get s id)))
        (entries_of (get (check config s id now).0 id))
        now
        (check config s id now).1
unfolding check
check-IsChecked config s id now some_room = elim (Option-cases (get s id)) [
  | inl absent ↦
      let out : check config s id now ≡ (put s id (now ∷ []), true) = rw (absent, check) in
      let before : evict_stale config now (entries_of (get s id)) ≡ [] = rw (absent, entries_of) in
      let after : entries_of (get (check config s id now).0 id) ≡ now ∷ [] =
        ap (λ r. entries_of (get r.0 id)) out ∙ entries-put s id (now ∷ []) in
      let passes : (check config s id now).1 ≡ true = ap (λ r. r.1) out in
      record {
        when_passed = λ h. (
          after ∙ ap (λ x. x ++ now ∷ []) (sym before),
          let none_left = ap length before in omega arith,
        );
        when_limited = λ h. cc (h, passes);
      }
  | inr (ts, found) ↦
      let out : check config s id now ≡ check_entries config s id now (evict_stale config now ts) =
        rw (found, check) in
      subst
        (λ r.
          IsChecked config (evict_stale config now (entries_of (get s id)))
            (entries_of (get r.0 id)) now r.1)
        (sym out)
        (subst
          (λ o.
            IsChecked config (evict_stale config now (entries_of o))
              (entries_of (get (check_entries config s id now (evict_stale config now ts)).0 id))
              now (check_entries config s id now (evict_stale config now ts)).1)
          (sym found)
          (check_entries-IsChecked config s id now (evict_stale config now ts) some_room))
]

entries-put-other :
    (s : Timestamps) (k id : String) (ts : List ℕ)
    → (k == id) ≡ false
    → get (put s k ts) id ≡ get s id
entries-put-other s k id ts other = get-put s k ts id ∙ rw other

check_entries-other :
    (config : RateLimiterConfig) (s : Timestamps) (k id : String) (now : ℕ) (fresh : List ℕ)
    → (k == id) ≡ false
    → get (check_entries config s k now fresh).0 id ≡ get s id
unfolding check_entries
check_entries-other config s k id now [] other =
    entries-put-other (delete s k) k id (now ∷ []) other ∙ get-delete s k id ∙ rw other
check_entries-other config s k id now (t ∷ ts) other =
    elim (Bool-cases (leb config.max_requests (length (t ∷ ts)))) [
      | inl full ↦ rw (full, check_entries) (entries-put-other s k id (t ∷ ts) other)
      | inr room ↦ rw (room, check_entries) (entries-put-other s k id ((t ∷ ts) ++ now ∷ []) other)
    ]

check-other :
    (config : RateLimiterConfig) (s : Timestamps) (k id : String) (now : ℕ)
    → (k == id) ≡ false
    → get (check config s k now).0 id ≡ get s id
unfolding check check_entries
check-other config s k id now other = elim (Option-cases (get s k)) [
  | inl absent ↦
      let out : check config s k now ≡ (put s k (now ∷ []), true) = rw (absent, check) in
      ap (λ r. get r.0 id) out ∙ entries-put-other s k id (now ∷ []) other
  | inr (ts, found) ↦
      let out : check config s k now ≡ check_entries config s k now (evict_stale config now ts) =
        rw (found, check) in
      ap (λ r. get r.0 id) out
      ∙ check_entries-other config s k id now (evict_stale config now ts) other
]

-- The entries hold every time in the window at which a call was let pass, and are not too many.
record IsKept (config : RateLimiterConfig) (entries times : List ℕ) (last : ℕ) : Type 0 where
  kept : (n : ℕ) → last ≤ n → recent config.window_ms n times ≤ recent config.window_ms n entries
  few : length entries ≤ config.max_requests

Calls-IsKept :
    (config : RateLimiterConfig) (id : String) (s : Timestamps) (times : List ℕ) (last : ℕ)
    → 1 ≤ config.max_requests
    → Calls config id s times last
    → IsKept config (entries_of (get s id)) times last
Calls-IsKept config id s times last some_room none_yet = record {
  kept = λ n h. omega arith;
  few = omega arith;
}
Calls-IsKept config id s times last some_room (passed {s = s₀} {times = ts} now later passes run) =
    let before = Calls-IsKept config id s₀ ts _ some_room run in
    let old = entries_of (get s₀ id) in
    let (after, room) = (check-IsChecked config s₀ id now some_room).when_passed passes in
    record {
      kept = λ n h.
          let w = config.window_ms in
          let above = before.kept n (omega arith) in
          let same = evict_stale-recent config now n old h in
          let one = recent-append w n ts (now ∷ []) in
          let two = recent-append w n (evict_stale config now old) (now ∷ []) in
          let three = ap (recent w n) after in omega arith;
      few =
          let one = ap length after in
          let two = length-append (evict_stale config now old) (now ∷ []) in omega arith;
    }
Calls-IsKept config id s times last some_room (limited {s = s₀} now later fails run) =
    let before = Calls-IsKept config id s₀ times _ some_room run in
    let old = entries_of (get s₀ id) in
    let after = (check-IsChecked config s₀ id now some_room).when_limited fails in
    record {
      kept = λ n h.
          let above = before.kept n (omega arith) in
          let same = evict_stale-recent config now n old h in
          let three = ap (recent config.window_ms n) after in omega arith;
      few =
          let one = ap length after in
          let shorter = evict_stale-length config now old in let fits = before.few in omega arith;
    }
Calls-IsKept config id s times last some_room (elsewhere {s = s₀} k now later other run) =
    let before = Calls-IsKept config id s₀ times _ some_room run in
    let after = ap entries_of (check-other config s₀ k id now other) in
    record {
      kept = λ n h.
          let above = before.kept n (omega arith) in
          let three = ap (recent config.window_ms n) after in omega arith;
      few = let one = ap length after in let fits = before.few in omega arith;
    }

-- With a maximum of at least one, however the calls of all requesters follow one another at times that
-- do not go back, no window that ends at the last call or later holds more calls of one requester that
-- were let pass than the maximum.
pub Calls-bounded :
    (config : RateLimiterConfig) (id : String) (s : Timestamps) (times : List ℕ) (last : ℕ) (n : ℕ)
    → 1 ≤ config.max_requests
    → Calls config id s times last
    → last ≤ n
    → recent config.window_ms n times ≤ config.max_requests
Calls-bounded config id s times last n some_room run later =
    let is = Calls-IsKept config id s times last some_room run in
    let above = is.kept n later in
    let below = recent-length config.window_ms n (entries_of (get s id)) in
    let fits = is.few in omega arith
