-- ===== src/Seals/Chain/Laws.antt =====
-- What a chain is made of, and what the check of its delta makes sure of.
use xmtp_broker.Base.{
  ◌++◌, get, put, get-put, Result, subst, suc, ◌||◌, eq_iff, includes, String, Bool, true, false,
  List, [], ◌∷◌, Option, none, some, ◌==◌, eq_refl, length, ◌≡◌, refl, sym, ap, ◌∙◌, ok, err, arith,
  inl, inr, Bool-cases, Option-cases,
}
use xmtp_broker.Policy.Materiality.{
  Verdict, allow, deny, ScopePolicyChange, PolicyDelta, empty_delta,
}
use xmtp_broker.Seals.Delta.{compute_payload_delta}
use xmtp_broker.Seals.Delta.Scopes.{
  adds, removes, compute_payload_delta-added, compute_payload_delta-removed,
}
use xmtp_broker.Seals.Manager.{
  SealPayload, SealEnvelope, SealManager, SealWork, new_seal_manager, delta_from, track,
  seal_finish, revoke_finish,
}
use xmtp_broker.Seals.Manager.Runs.{
  SealRun, started, issuing, refreshing, answered, revoking, revoked,
}
use xmtp_broker.Seals.Chain.{
  delta_mismatch, insert_text, verify_chain_delta, delta_equals, same_length, same_texts,
  same_changes, same_verdict, sort_texts, sort_changes, expected_delta,
}

same_texts_refl : (xs : List String) → same_texts xs xs ≡ true
unfolding same_texts
same_texts_refl [] = refl
same_texts_refl (x ∷ xs) = rw (eq_refl x, same_texts_refl xs)

same_verdict_refl : (v : Verdict) → same_verdict v v ≡ true
same_verdict_refl allow = refl
same_verdict_refl deny = refl

same_changes_refl : (xs : List ScopePolicyChange) → same_changes xs xs ≡ true
unfolding same_changes
same_changes_refl [] = refl
same_changes_refl (x ∷ xs) =
    rw (eq_refl x.scope, same_verdict_refl x.from, same_verdict_refl x.to, same_changes_refl xs)

delta_equals_refl : (d : PolicyDelta) → delta_equals d d ≡ true
unfolding delta_equals
delta_equals_refl d =
    let added = same_texts_refl (sort_texts d.added) in
    let removed = same_texts_refl (sort_texts d.removed) in
    let changed = same_changes_refl (sort_changes d.changed) in
    ground (arith, added, removed, changed)

expected-same :
    (previous : Option SealPayload) (current : SealPayload)
    → delta_from previous current ≡ elim previous [
      | none ↦ empty_delta
      | some p ↦ compute_payload_delta p.input.permissions current.input.permissions
    ]
expected-same none current = refl
expected-same (some p) current = refl

verified-equal :
    (chain : SealEnvelope)
    → verify_chain_delta chain ≡ ok tt
    → delta_equals (expected_delta chain) chain.delta ≡ true
unfolding verify_chain_delta
verified-equal chain passed = elim (Bool-cases (delta_equals (expected_delta chain) chain.delta)) [
  | inl equal ↦ equal
  | inr different ↦
      let failed : verify_chain_delta chain ≡ err delta_mismatch =
        rw (different, verify_chain_delta) in
      cc (failed, passed)
]

-- A seal whose stored delta is the one that its payloads give passes the check of the delta.
pub delta-verified :
    (e : SealEnvelope) → e.delta ≡ delta_from e.previous e.current → verify_chain_delta e ≡ ok tt
unfolding verify_chain_delta
delta-verified e delta =
    let agrees : delta_equals (expected_delta e) e.delta ≡ true =
      ap (delta_equals (expected_delta e)) (delta ∙ expected-same e.previous e.current)
      ∙ delta_equals_refl (expected_delta e) in
    rw (agrees, verify_chain_delta)

AllPass : List (String × SealEnvelope) → Type 0
AllPass seals =
    (k : String) (e : SealEnvelope) → get seals k ≡ some e → verify_chain_delta e ≡ ok tt

put-AllPass :
    (seals : List (String × SealEnvelope)) (k : String) (e : SealEnvelope)
    → AllPass seals
    → verify_chain_delta e ≡ ok tt
    → AllPass (put seals k e)
unfolding AllPass
put-AllPass seals k e all passes = λ j d found. elim (Bool-cases (k == j)) [
  | inl here ↦
      let at : get (put seals k e) j ≡ some e = get-put seals k e j ∙ rw here in
      let same : e ≡ d = cc (at, found) in ap verify_chain_delta (sym same) ∙ passes
  | inr elsewhere ↦
      let at : get (put seals k e) j ≡ get seals j = get-put seals k e j ∙ rw elsewhere in
      all j d (sym at ∙ found)
]

seal_finish-AllPass :
    (m : SealManager) (work : SealWork) (signed : Result String String)
    (published : Result String (Unit {0}))
    → AllPass m.seals_by_id
    → AllPass (seal_finish m work signed published).0.seals_by_id
unfolding seal_finish track
seal_finish-AllPass m work (err e) published all = all
seal_finish-AllPass m work (ok s) (err e) all = all
seal_finish-AllPass m work (ok s) (ok d) all =
    let made : SealEnvelope = record {
      current = work.payload;
      previous = work.previous;
      delta = delta_from work.previous work.payload;
      signature = s;
    } in
    put-AllPass m.seals_by_id work.payload.seal_id made all (delta-verified made refl)

revoke_finish-seals :
    (m : SealManager) (key : String) (signed : Result String String)
    (published : Result String (Unit {0}))
    → (revoke_finish m key signed published).0.seals_by_id ≡ m.seals_by_id
unfolding revoke_finish
revoke_finish-seals m key signed published = ground arith

module _ (accepts : SealPayload → Bool) where
  SealRun-AllPass :
      (t : SealManager) (ws : List SealWork) (ks : List String)
      → SealRun accepts new_seal_manager [] [] t ws ks
      → AllPass t.seals_by_id
  unfolding AllPass
  SealRun-AllPass t ws ks started = λ k e found. cc found
  SealRun-AllPass t ws ks (issuing {ws = w₀} resolved chat_id seal_id now work begun run) =
      SealRun-AllPass t w₀ ks run
  SealRun-AllPass t ws ks (refreshing {ws = w₀} seal_id next_id now work begun run) =
      SealRun-AllPass t w₀ ks run
  SealRun-AllPass t ws ks (answered {t = t₀} before work after signed published run) =
      seal_finish-AllPass t₀ work signed published
        (SealRun-AllPass t₀ (before ++ work ∷ after) ks run)
  SealRun-AllPass t ws ks (revoking {ks = k₀} seal_id valid k begun run) =
      SealRun-AllPass t ws k₀ run
  SealRun-AllPass t ws ks (revoked {t = t₀} before k after signed published run) =
      subst AllPass (sym (revoke_finish-seals t₀ k signed published))
        (SealRun-AllPass t₀ ws (before ++ k ∷ after) run)

  -- Whatever calls of the manager ran, overlapping or not, every seal that it stores passes the check
  -- of its delta that a reader makes.
  pub SealRun-verifies :
      (t : SealManager) (ws : List SealWork) (ks : List String) (seal_id : String)
      (e : SealEnvelope)
      → SealRun accepts new_seal_manager [] [] t ws ks
      → get t.seals_by_id seal_id ≡ some e
      → verify_chain_delta e ≡ ok tt
  unfolding AllPass
  SealRun-verifies t ws ks seal_id e run found = SealRun-AllPass t ws ks run seal_id e found

includes-insert :
    (x : String) (ys : List String) (z : String)
    → includes (insert_text x ys) z ≡ (x == z || includes ys z)
unfolding insert_text
includes-insert x [] z = refl
includes-insert x (y ∷ ys) z = ground (arith, includes-insert x ys z)

includes-sort : (xs : List String) (z : String) → includes (sort_texts xs) z ≡ includes xs z
unfolding sort_texts
includes-sort [] z = refl
includes-sort (x ∷ xs) z = ground (arith, includes-insert x (sort_texts xs) z, includes-sort xs z)

length-insert : (x : String) (ys : List String) → length (insert_text x ys) ≡ suc (length ys)
unfolding insert_text
length-insert x [] = refl
length-insert x (y ∷ ys) = ground (arith, length-insert x ys)

length-sort : (xs : List String) → length (sort_texts xs) ≡ length xs
unfolding sort_texts
length-sort [] = refl
length-sort (x ∷ xs) = length-insert x (sort_texts xs) ∙ ap suc (length-sort xs)

same_texts-includes :
    (xs ys : List String) (z : String)
    → same_texts xs ys ≡ true
    → length xs ≡ length ys
    → includes xs z ≡ includes ys z
unfolding same_texts
same_texts-includes [] [] z same n = refl
same_texts-includes [] (y ∷ ys) z same n = absurd (omega arith)
same_texts-includes (x ∷ xs) [] z same n = absurd (omega arith)
same_texts-includes (x ∷ xs) (y ∷ ys) z same n =
    let head : x ≡ y = (eq_iff x y).0 (ground arith) in
    let tail = same_texts-includes xs ys z (ground arith) (omega arith) in rw (head, tail)

sorted-includes :
    (xs ys : List String) (z : String)
    → same_texts (sort_texts xs) (sort_texts ys) ≡ true
    → same_length xs ys ≡ true
    → includes xs z ≡ includes ys z
sorted-includes xs ys z same n =
    let lengths : length xs ≡ length ys = ground arith in
    sym (includes-sort xs z)
    ∙ same_texts-includes (sort_texts xs) (sort_texts ys) z same
        (length-sort xs ∙ lengths ∙ sym (length-sort ys))
    ∙ includes-sort ys z

-- The scopes that the permissions of the two payloads of a chain add, and that they remove; the first
-- seal of a chain changes nothing.
abbrev pub adds_scope : SealEnvelope → String → Bool
adds_scope chain scope = elim chain.previous [
  | none ↦ false
  | some before ↦ adds before.input.permissions chain.current.input.permissions scope
]

abbrev pub removes_scope : SealEnvelope → String → Bool
removes_scope chain scope = elim chain.previous [
  | none ↦ false
  | some before ↦ removes before.input.permissions chain.current.input.permissions scope
]

expected_delta-scopes :
    (chain : SealEnvelope) (scope : String)
    → (includes (expected_delta chain).added scope ≡ adds_scope chain scope)
      × (includes (expected_delta chain).removed scope ≡ removes_scope chain scope)
expected_delta-scopes chain scope = elim (Option-cases chain.previous) [
  | inl first ↦ rw (first, expected_delta, adds_scope, removes_scope) (refl, refl)
  | inr (before, at) ↦
      rw (at, expected_delta, adds_scope, removes_scope)
        (
          compute_payload_delta-added before.input.permissions chain.current.input.permissions
              scope,
          compute_payload_delta-removed before.input.permissions chain.current.input.permissions
              scope,
        )
]

-- A chain passes the check of its delta only if the stored delta lists as added exactly the scopes
-- that are allowed now and were not listed before or were denied and are not listed now, and as
-- removed those that were allowed and are not listed now or are denied now and were not listed
-- before; for the first seal of a chain, none.
pub verify_chain_delta_sound :
    (chain : SealEnvelope) (scope : String)
    → verify_chain_delta chain ≡ ok tt
    → (includes chain.delta.added scope ≡ adds_scope chain scope)
      × (includes chain.delta.removed scope ≡ removes_scope chain scope)
unfolding verify_chain_delta delta_equals
verify_chain_delta_sound chain scope passed =
    let expected = expected_delta chain in
    let equal : delta_equals expected chain.delta ≡ true = verified-equal chain passed in
    let (added, removed) = expected_delta-scopes chain scope in
    (
      sym (sorted-includes expected.added chain.delta.added scope (ground arith) (ground arith))
          ∙ added,
      sym (sorted-includes expected.removed chain.delta.removed scope (ground arith) (ground arith))
          ∙ removed,
    )
