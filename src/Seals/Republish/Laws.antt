-- ===== src/Seals/Republish/Laws.antt =====
-- How often a seal is published, how long that takes, and what becomes of each chat.
use native.Mathlib.Nat.{pow-suc, mul_comm, mul_assoc}
use xmtp_broker.Base.{
  ℕ, zero, suc, ◌+◌, ◌*◌, ◌^◌, ◌≤◌, String, Bool, true, List, [], ◌∷◌, ◌++◌, Option, none, some,
  ◌≡◌, ◌==◌, eq_iff, refl, sym, ap, ◌∙◌, all, eq_refl, length, includes, includes-append, arith,
  Bool-cases, Option-cases, inl, inr, Result, if◌then◌else◌,
}
use xmtp_broker.Seals.Republish.{
  Seal, AutoRepublishConfig, RepublishResult, RepublishFailure, wrong_chat, publish_failed,
  error_of, attempt, add_outcome, republish_each, republish_to_chats, max_retries_of,
  initial_delay_of,
}

abbrev pub sum : List ℕ → ℕ
sum [] = 0
sum (x ∷ xs) = x + sum xs

all-of_includes :
    (test : String → Bool) (xs : List String)
    → ((x : String) → includes xs x ≡ true → test x ≡ true)
    → all test xs ≡ true
all-of_includes test [] f = refl
all-of_includes test (x ∷ xs) f =
    ground (arith, f x, eq_refl x, all-of_includes test xs (λ y m. f y (ground (arith, m))))

-- How often a text stands in a list.
abbrev pub times : String → List String → ℕ
times id [] = 0
times id (x ∷ xs) = (if x == id then 1 else 0) + times id xs

abbrev pub failed_chats : {E : Type 0} → List (RepublishFailure E) → List String
failed_chats [] = []
failed_chats (f ∷ fs) = f.chat_id ∷ failed_chats fs

times-append : (id : String) (xs ys : List String) → times id (xs ++ ys) ≡ times id xs + times id ys
times-append id [] ys = omega arith
times-append id (x ∷ xs) ys = omega (arith, times-append id xs ys)

failed_chats-append :
    {E : Type 0} (xs ys : List (RepublishFailure E))
    → failed_chats (xs ++ ys) ≡ failed_chats xs ++ failed_chats ys
failed_chats-append [] ys = refl
failed_chats-append (x ∷ xs) ys = ap (λ l. x.chat_id ∷ l) (failed_chats-append xs ys)

times-failed :
    {E : Type 0} (id : String) (xs : List (RepublishFailure E)) (f : RepublishFailure E)
    → times id (failed_chats (xs ++ f ∷ []))
      ≡ times id (failed_chats xs) + (if f.chat_id == id then 1 else 0)
times-failed id xs f =
    ap (times id) (failed_chats-append xs (f ∷ []))
    ∙ times-append id (failed_chats xs) (f.chat_id ∷ [])
    ∙ omega arith

module _ {W S E : Type 0} (publish : W → String → Seal S → W × Result E (Unit {0})) where
  double : (d n : ℕ) → d * 2 ^ suc n ≡ d * 2 * 2 ^ n
  double d n = ap (λ p. d * p) (pow-suc 2 n ∙ mul_comm (2 ^ n) 2) ∙ sym (mul_assoc d 2 (2 ^ n))

  -- With a number of retries, the attempts for a chat wait at most that many times, and in all less
  -- than the first delay times two to the power of that number (where the delay is not 0).
  pub attempt-bounded :
      (retries delay : ℕ) (w : W) (chat_id : String) (seal : Seal S)
      → (length (attempt publish retries delay w chat_id seal).waits ≤ retries)
        × (sum (attempt publish retries delay w chat_id seal).waits + delay ≤ delay * 2 ^ retries)
  unfolding attempt
  attempt-bounded zero delay w chat_id seal = (omega arith, omega arith)
  attempt-bounded (suc n) delay w chat_id seal =
      let (w', result) = publish w chat_id seal in
      let (few, short) = attempt-bounded n (delay * 2) w' chat_id seal in
      elim (Option-cases (error_of (publish w chat_id seal).1)) [
        | inl e ↦ rw (e, attempt) (omega arith, omega (arith, short, double delay n))
        | inr (x, e) ↦ rw (e, attempt) (omega (arith, few), omega (arith, short, double delay n))
      ]

  abbrev total : String → RepublishResult E → ℕ
  total id r = times id r.succeeded + times id (failed_chats r.failed)

  abbrev IsRight : Seal S → RepublishResult E → Type 0
  IsRight seal r = (id : String) → includes r.succeeded id ≡ true → seal.chat_id ≡ id

  add_outcome-total :
      (id : String) (r : RepublishResult E) (chat_id : String) (o : Option E)
      → total id (add_outcome publish r chat_id o) ≡ total id r + (if chat_id == id then 1 else 0)
  unfolding add_outcome
  add_outcome-total id r chat_id none = omega (arith, times-append id r.succeeded (chat_id ∷ []))
  add_outcome-total id r chat_id (some e) =
      omega
        (arith, times-failed id r.failed (record { chat_id = chat_id; error = publish_failed e }))

  add_outcome-IsRight :
      (seal : Seal S) (r : RepublishResult E) (chat_id : String) (o : Option E)
      → seal.chat_id ≡ chat_id
      → IsRight seal r
      → IsRight seal (add_outcome publish r chat_id o)
  unfolding add_outcome
  add_outcome-IsRight seal r chat_id none same right = λ id h.
      ground (arith, includes-append r.succeeded (chat_id ∷ []) id, eq_iff chat_id id, right id)
  add_outcome-IsRight seal r chat_id (some e) same right = right

  republish_each-covers :
      (config : AutoRepublishConfig) (w : W) (seal : Seal S) (r : RepublishResult E)
      (chat_ids : List String) (id : String)
      → IsRight seal r
      → (total id (republish_each publish config w seal r chat_ids).1
          ≡ total id r + times id chat_ids)
        × IsRight seal (republish_each publish config w seal r chat_ids).1
  unfolding republish_each
  republish_each-covers config w seal r [] id right = (omega arith, right)
  republish_each-covers config w seal r (c ∷ rest) id right =
      elim (Bool-cases (seal.chat_id == c)) [
        | inr other ↦
            let f : RepublishFailure E = record {
              chat_id = c;
              error = wrong_chat seal.chat_id c;
            } in
            let (n, p) =
              republish_each-covers config w seal (record r { failed = r.failed ++ f ∷ [] }) rest id
                right in
            rw other (omega (arith, n, times-failed id r.failed f), p)
        | inl same ↦
            let a = attempt publish (max_retries_of config) (initial_delay_of config) w c seal in
            let (n, p) =
              republish_each-covers config a.world seal (add_outcome publish r c a.last_error) rest
                id
                (add_outcome-IsRight seal r c a.last_error ((eq_iff seal.chat_id c).0 same)
                  right) in
            rw same (omega (arith, n, add_outcome-total id r c a.last_error), p)
      ]

  -- Each chat stands among the chats that succeeded and those of the failures, taken together, as
  -- often as in the list of chats, and only the chat that the seal is chained to can succeed.
  pub republish_to_chats-covers :
      (chat_ids : List String) (w : W) (seal : Seal S) (config : AutoRepublishConfig) (id : String)
      → let result = (republish_to_chats publish chat_ids w seal config).1 in
        (times id result.succeeded + times id (failed_chats result.failed) ≡ times id chat_ids)
        × (all (λ c. seal.chat_id == c) result.succeeded ≡ true)
  unfolding republish_to_chats
  republish_to_chats-covers chat_ids w seal config id =
      let (n, p) =
        republish_each-covers config w seal (record { succeeded = []; failed = [] }) chat_ids id
          (λ id h. cc) in
      (
        omega (arith, n),
        all-of_includes (λ c. seal.chat_id == c) _ (λ c m. (eq_iff seal.chat_id c).1 (p c m)),
      )
