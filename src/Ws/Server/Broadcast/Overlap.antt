-- ===== src/Ws/Server/Broadcast/Overlap.antt =====
-- Invalidations of one credential that overlap: their lookups come back in any order, and events
-- are broadcast in between.
use xmtp_broker.Base.{
  ℕ, ◌+◌, String, Bool, true, false, ◌||◌, List, [], ◌∷◌, ◌++◌, Option, none, some, ◌==◌, eq_refl,
  ◌≡◌, ◌≢◌, ◌⊎◌, refl, sym, ap, subst, ◌∙◌, length-append, get, length, Result, ok, arith, inl, inr,
  Bool-cases,
}
use xmtp_broker.Sessions.Service.{PublicCredential}
use xmtp_broker.Ws.Server.{
  PendingInvalidation, Server, ServerEvent, Environment, get_by_credential_id,
}
use xmtp_broker.Ws.Server.Broadcast.{
  same_number, broadcast_to_credential, invalidate_begin, apply_lookup, invalidate_finish,
  refresh_each,
}
use xmtp_broker.Ws.Server.Broadcast.Laws.{SameViews}
use xmtp_broker.Ws.Server.Broadcast.Tickets.{
  ticket, ticket_of, broadcast-Steady, released, release-SameViews, release-other, release-own,
}
use xmtp_broker.Ws.Server.Broadcast.Snapshots.{
  AllHold, count_of, AllHold-SameViews, begin-ticket, begin-SameViews, AllHold-refresh_each,
  AllHold-refresh_other, apply-cases, apply-by_ticket, apply-tickets,
}

-- A run from `start` to `t` in which `answers n` is what the lookup of invalidation number `n` gives,
-- with the invalidations of `credential_id` that still wait for their lookup and the last that began.
pub data Run {X E : Type 0} (env : Environment X) (answers : ℕ → Result E PublicCredential)
    (credential_id : String) (start : Server X) : Server X → List ℕ → Option ℕ → Type 0 where
  started : Run env answers credential_id start start [] none
  begun :
      {t : Server X} {waiting : List ℕ} {latest : Option ℕ}
      → Run env answers credential_id start t waiting latest
      → Run env answers credential_id start
          (invalidate_begin t credential_id)
          (waiting ++ (t.invalidation_gen + 1) ∷ [])
          (some (t.invalidation_gen + 1))
  finished :
      {t : Server X} {latest : Option ℕ} (before : List ℕ) (gen : ℕ) (after : List ℕ)
      → Run env answers credential_id start t (before ++ gen ∷ after) latest
      → Run env answers credential_id start
          (invalidate_finish env t credential_id gen (answers gen))
          (before ++ after)
          latest
  broadcasted :
      {t : Server X} {waiting : List ℕ} {latest : Option ℕ} (other : String) (event : ServerEvent X)
      → Run env answers credential_id start t waiting latest
      → Run env answers credential_id start
          (broadcast_to_credential env t other event)
          waiting
          latest
  begun_elsewhere :
      {t : Server X} {waiting : List ℕ} {latest : Option ℕ} (other : String)
      → (other == credential_id) ≡ false
      → Run env answers credential_id start t waiting latest
      → Run env answers credential_id start (invalidate_begin t other) waiting latest
  finished_elsewhere :
      {t : Server X} {waiting : List ℕ} {latest : Option ℕ} (other : String) (gen : ℕ)
      → (other == credential_id) ≡ false
      → Run env answers credential_id start t waiting latest
      → Run env answers credential_id start
          (invalidate_finish env t other gen (answers gen))
          waiting
          latest

abbrev pub has_number : List ℕ → ℕ → Bool
has_number [] n = false
has_number (m ∷ ms) n = same_number m n || has_number ms n

-- The ticket of a credential that has these invalidations waiting.
abbrev pub expected : List ℕ → Option ℕ → Option (ℕ × ℕ)
expected [] latest = none
expected (n ∷ ns) none = none
expected (n ∷ ns) (some gen) = some (length (n ∷ ns), gen)

-- The ticket counts the invalidations that wait, and the last one's answer is still to come or
-- stands in every connection.
pub record IsTracked {X E : Type 0} (answers : ℕ → Result E PublicCredential)
    (credential_id : String) (s : Server X) (waiting : List ℕ) (latest : Option ℕ) : Type 0 where
  pub counted : ticket_of s credential_id ≡ expected waiting latest
  pub none_yet : latest ≡ none → waiting ≡ []
  pub settled :
      (gen : ℕ) (fresh : PublicCredential)
      → latest ≡ some gen
      → answers gen ≡ ok fresh
      → (has_number waiting gen ≡ true) ⊎ AllHold credential_id s fresh

expected-append :
    (waiting : List ℕ) (gen : ℕ)
    → expected (waiting ++ gen ∷ []) (some gen) ≡ some (length waiting + 1, gen)
expected-append [] gen = refl
expected-append (n ∷ ns) gen = ground (arith, length-append ns (gen ∷ []))

count-expected :
    (waiting : List ℕ) (latest : Option ℕ)
    → (latest ≡ none → waiting ≡ [])
    → count_of (expected waiting latest) ≡ length waiting
count-expected [] latest h = refl
count-expected (n ∷ ns) none h = let e = h refl in cc e
count-expected (n ∷ ns) (some gen) h = refl

released-expected :
    (before after : List ℕ) (gen : ℕ) (latest : Option ℕ)
    → (latest ≡ none → before ++ gen ∷ after ≡ [])
    → released (expected (before ++ gen ∷ after) latest) ≡ expected (before ++ after) latest
released-expected [] [] gen none h = refl
released-expected [] (a ∷ rest) gen none h = refl
released-expected (b ∷ bs) after gen none h = refl
released-expected [] [] gen (some g) h = refl
released-expected [] (a ∷ rest) gen (some g) h = ground arith
released-expected (b ∷ bs) after gen (some g) h =
    ground (arith, length-append bs (gen ∷ after), length-append bs after)

has_number-removed :
    (before after : List ℕ) (gen n : ℕ)
    → same_number gen n ≡ false
    → has_number (before ++ gen ∷ after) n ≡ has_number (before ++ after) n
has_number-removed [] after gen n other = rw other
has_number-removed (b ∷ bs) after gen n other =
    ground (arith, has_number-removed bs after gen n other)

pub no_ticket : {X : Type 0} (o : Option (PendingInvalidation X)) → ticket o ≡ none → o ≡ none
no_ticket none e = refl
no_ticket (some entry) e = cc e

nonempty : (before : List ℕ) (gen : ℕ) (after : List ℕ) → before ++ gen ∷ after ≢ []
nonempty [] gen after e = cc e
nonempty (b ∷ bs) gen after e = cc e

expected-some :
    (before : List ℕ) (gen : ℕ) (after : List ℕ) (n : ℕ)
    → expected (before ++ gen ∷ after) (some n) ≡ some (length (before ++ gen ∷ after), n)
expected-some [] gen after n = refl
expected-some (b ∷ bs) gen after n = refl

same_number_refl : (n : ℕ) → same_number n n ≡ true
same_number_refl n = ground arith

has_number-last :
    (waiting : List ℕ) (n gen : ℕ) → some n ≡ some gen → has_number (waiting ++ n ∷ []) gen ≡ true
has_number-last [] n gen e = let same : n ≡ gen = cc e in rw (same, same_number_refl gen)
has_number-last (w ∷ ws) n gen e = ground (arith, has_number-last ws n gen e)

module _ {X E : Type 0} (env : Environment X) (answers : ℕ → Result E PublicCredential)
    (k : String) where
  IsTracked-Steady :
      {s t : Server X} {waiting : List ℕ} {latest : Option ℕ}
      → SameViews s t
      → ticket_of t k ≡ ticket_of s k
      → IsTracked answers k s waiting latest
      → IsTracked answers k t waiting latest
  IsTracked-Steady same ticket_same before = record {
    counted = ticket_same ∙ before.counted;
    none_yet = before.none_yet;
    settled = λ gen fresh last answer. elim (before.settled gen fresh last answer) [
      | inl still ↦ inl still
      | inr all_hold ↦ inr (AllHold-SameViews same all_hold)
    ];
  }

  IsTracked-begun :
      (s : Server X) (waiting : List ℕ) (latest : Option ℕ)
      → IsTracked answers k s waiting latest
      → IsTracked answers k
          (invalidate_begin s k)
          (waiting ++ (s.invalidation_gen + 1) ∷ [])
          (some (s.invalidation_gen + 1))
  IsTracked-begun s waiting latest before = record {
    counted =
        let n : count_of (ticket_of s k) ≡ length waiting =
          ap count_of before.counted ∙ count-expected waiting latest before.none_yet in
        rw (begin-ticket s k k, eq_refl k, n)
          (sym (expected-append waiting (s.invalidation_gen + 1)));
    none_yet = λ e. cc e;
    settled =
        λ gen fresh last answer. inl (has_number-last waiting (s.invalidation_gen + 1) gen last);
  }

  IsTracked-finished :
      (s : Server X) (before : List ℕ) (gen : ℕ) (after : List ℕ) (latest : Option ℕ)
      → IsTracked answers k s (before ++ gen ∷ after) latest
      → IsTracked answers k (invalidate_finish env s k gen (answers gen)) (before ++ after) latest
  unfolding invalidate_finish
  IsTracked-finished s before gen after latest old =
      let applied = apply_lookup s k gen (answers gen) in
      record {
        counted =
            release-own env applied k
            ∙ ap released (apply-tickets s k gen (answers gen) k ∙ old.counted)
            ∙ released-expected before after gen latest old.none_yet;
        none_yet = λ e. absurd (nonempty before gen after (old.none_yet e));
        settled = λ n fresh last answer.
            let t : ticket_of s k ≡ some (length (before ++ gen ∷ after), n) =
              old.counted
              ∙ ap (expected (before ++ gen ∷ after)) last
              ∙ expected-some before gen after n in
            let written =
              apply-by_ticket s k gen (answers gen) (length (before ++ gen ∷ after)) n t in
            let freed = release-SameViews env applied k in
            elim (Bool-cases (same_number gen n)) [
              | inl same ↦
                  let number : gen ≡ n = ground arith in
                  let now : answers gen ≡ ok fresh = ap answers number ∙ answer in
                  let refreshed : applied
                      ≡ refresh_each {E = E} s (ok fresh) (get_by_credential_id s k) =
                    rw (written, number, same_number_refl n, answer) in
                  inr (
                    AllHold-SameViews freed (
                      subst (λ a. AllHold k a fresh) (sym refreshed)
                        (AllHold-refresh_each E s k fresh)))
              | inr other ↦ elim (old.settled n fresh last answer) [
                | inl still ↦ inl (sym (has_number-removed before after gen n other) ∙ still)
                | inr all_hold ↦
                    let back : same_number n gen ≡ false = ground arith in
                    let kept : applied ≡ s = rw (written, back) in
                    inr
                      (AllHold-SameViews freed (subst (λ a. AllHold k a fresh) (sym kept) all_hold))
              ]
            ];
      }

  IsTracked-elsewhere :
      (s : Server X) (other : String) (gen : ℕ) (waiting : List ℕ) (latest : Option ℕ)
      → (other == k) ≡ false
      → IsTracked answers k s waiting latest
      → IsTracked answers k (invalidate_finish env s other gen (answers gen)) waiting latest
  unfolding invalidate_finish
  IsTracked-elsewhere s other gen waiting latest differs old =
      let applied = apply_lookup s other gen (answers gen) in
      let freed = release-SameViews env applied other in
      record {
        counted =
            release-other env applied other k differs
            ∙ apply-tickets s other gen (answers gen) k
            ∙ old.counted;
        none_yet = old.none_yet;
        settled = λ n fresh last answer. elim (old.settled n fresh last answer) [
          | inl still ↦ inl still
          | inr all_hold ↦ inr (
              AllHold-SameViews freed (elim (apply-cases s other gen (answers gen)) [
                | inl kept ↦ subst (λ a. AllHold k a fresh) (sym kept) all_hold
                | inr written ↦
                    subst (λ a. AllHold k a fresh) (sym written)
                      (AllHold-refresh_other s k other (answers gen) fresh differs all_hold)
              ]))
        ];
      }

  pub Run-IsTracked :
      {start t : Server X} {waiting : List ℕ} {latest : Option ℕ}
      → ticket_of start k ≡ none
      → Run env answers k start t waiting latest
      → IsTracked answers k t waiting latest
  Run-IsTracked free started = record {
    counted = free;
    none_yet = λ e. refl;
    settled = λ gen fresh e answer. cc e;
  }
  Run-IsTracked free (begun {t} {waiting} {latest} run) =
      IsTracked-begun t waiting latest (Run-IsTracked free run)
  Run-IsTracked free (finished {t} {latest} before gen after run) =
      IsTracked-finished t before gen after latest (Run-IsTracked free run)
  Run-IsTracked free (broadcasted {t} other event run) =
      let steady = broadcast-Steady env t other event in
      IsTracked-Steady steady.same_views (steady.tickets k) (Run-IsTracked free run)
  Run-IsTracked free (begun_elsewhere {t} other differs run) =
      IsTracked-Steady (begin-SameViews t other) (rw (begin-ticket t other k, differs))
        (Run-IsTracked free run)
  Run-IsTracked free (finished_elsewhere {t} {waiting} {latest} other gen differs run) =
      IsTracked-elsewhere t other gen waiting latest differs (Run-IsTracked free run)

  -- The pending invalidation counts those that still wait and names the last one begun.
  Run-counted :
      (start t : Server X) (waiting : List ℕ) (latest : Option ℕ)
      → get start.pending_invalidations k ≡ none
      → Run env answers k start t waiting latest
      → ticket_of t k ≡ expected waiting latest
  Run-counted start t waiting latest free run =
      let tracked = Run-IsTracked (ap ticket free) run in tracked.counted

  -- From a state in which no invalidation of the credential is pending, once every lookup has come
  -- back, in whatever order and with whatever broadcast in between, every registered active
  -- connection of the credential holds what the lookup of the last invalidation to begin gave, if
  -- that gave a credential, whether that lookup came back before or after the others.
  pub Run-latest_wins :
      (start t : Server X) (gen : ℕ) (fresh : PublicCredential)
      → get start.pending_invalidations k ≡ none
      → Run env answers k start t [] (some gen)
      → answers gen ≡ ok fresh
      → AllHold k t fresh
  Run-latest_wins start t gen fresh free run answer =
      let tracked = Run-IsTracked (ap ticket free) run in
      elim (tracked.settled gen fresh refl answer) [
        | inl still ↦ cc still
        | inr all_hold ↦ all_hold
      ]
