-- ===== src/Seals/History/Laws.antt =====
-- How the history of a pair ends, and which seals it lists.
use xmtp_broker.Base.{
  all_different, ℕ, zero, suc, ◌+◌, ◌≤◌, String, Bool, true, false, not, ◌&&◌, List, [], ◌∷◌, ◌++◌,
  Option, none, some, ◌==◌, eq_iff, ◌≡◌, refl, sym, ap, subst, ◌∙◌, get-put, put, includes,
  includes-append, get, length, if◌then◌else◌, arith, inl, inr, Bool-cases, Option-cases,
}
use xmtp_broker.Seals.Manager.{
  SealEnvelope, SealManager, SealInput, chain_key, track, new_seal_manager,
}
use xmtp_broker.Seals.History.{follow, step_back, history, seals_of, start_of}

abbrev keys : {V : Type 0} → List (String × V) → List String
keys [] = []
keys ((k, v) ∷ m) = k ∷ keys m

-- How many of the texts are not seen yet.
abbrev unseen : List String → List String → ℕ
unseen seen [] = 0
unseen seen (k ∷ ks) = if includes seen k then unseen seen ks else suc (unseen seen ks)

unseen-le :
    (seen : List String) (id : String) (ks : List String)
    → unseen (seen ++ id ∷ []) ks ≤ unseen seen ks
unseen-le seen id [] = omega arith
unseen-le seen id (k ∷ ks) = ground (arith, unseen-le seen id ks, includes-append seen (id ∷ []) k)

unseen-lt :
    (seen : List String) (id : String) (ks : List String)
    → includes ks id ≡ true
    → includes seen id ≡ false
    → suc (unseen (seen ++ id ∷ []) ks) ≤ unseen seen ks
unseen-lt seen id [] m new = cc
unseen-lt seen id (k ∷ ks) m new = elim (Bool-cases (k == id)) [
  | inl here ↦
      let same : includes seen k ≡ includes seen id = ap (includes seen) ((eq_iff k id).0 here) in
      ground
        (arith, unseen-le seen id ks, includes-append seen (id ∷ []) k, eq_iff id k, eq_iff k id)
  | inr elsewhere ↦ ground (arith, unseen-lt seen id ks, includes-append seen (id ∷ []) k)
]

unseen-length : {V : Type 0} (m : List (String × V)) → unseen [] (keys m) ≤ length m
unseen-length [] = omega arith
unseen-length ((k, v) ∷ m) = omega (arith, unseen-length m)

includes-keys :
    {V : Type 0} (m : List (String × V)) (k : String) (v : V)
    → get m k ≡ some v
    → includes (keys m) k ≡ true
includes-keys [] k v e = cc e
includes-keys ((j, w) ∷ m) k v e = ground (arith, includes-keys m k v)

-- Each stored seal is stored under its own id.
pub record IsKeyed (m : SealManager) : Type 0 where
  pub keyed : (k : String) (e : SealEnvelope) → get m.seals_by_id k ≡ some e → e.current.seal_id ≡ k

abbrev pub ids_of : List SealEnvelope → List String
ids_of [] = []
ids_of (e ∷ es) = e.current.seal_id ∷ ids_of es

-- No text of the first list is in the second.
abbrev apart : List String → List String → Bool
apart [] seen = true
apart (x ∷ xs) seen = not (includes seen x) && apart xs seen

apart-append :
    (xs seen : List String) (id : String)
    → apart xs (seen ++ id ∷ []) ≡ (apart xs seen && not (includes xs id))
apart-append [] seen id = refl
apart-append (x ∷ xs) seen id =
    ground
      (arith, apart-append xs seen id, includes-append seen (id ∷ []) x, eq_iff x id, eq_iff id x)

-- A cursor of the loop, as it stands after the first round: none, or a stored seal.
abbrev IsStored : SealManager → Option SealEnvelope → Type 0
IsStored m none = Unit
IsStored m (some e) = includes (keys m.seals_by_id) e.current.seal_id ≡ true

module _ (m : SealManager) (k : IsKeyed m) where
  step_back-get :
      (e p : SealEnvelope)
      → step_back m e ≡ some p
      → (id : String) × (get m.seals_by_id id ≡ some p)
  step_back-get e p at = elim (Option-cases e.previous) [
    | inl first ↦ let nothing : step_back m e ≡ none = rw (first, step_back) in cc (nothing, at)
    | inr (before, has) ↦ elim (Bool-cases (before.seal_id == "")) [
      | inl empty ↦
          let nothing : step_back m e ≡ none = rw (has, empty, step_back) in cc (nothing, at)
      | inr named ↦
          let looked_up : step_back m e ≡ get m.seals_by_id before.seal_id =
            rw (has, named, step_back) in
          (before.seal_id, sym looked_up ∙ at)
    ]
  ]

  IsStored-get :
      (id : String) (e : SealEnvelope) → get m.seals_by_id id ≡ some e → IsStored m (some e)
  IsStored-get id e at =
      ap (includes (keys m.seals_by_id)) (k.keyed id e at) ∙ includes-keys m.seals_by_id id e at

  step_back-IsStored : (e : SealEnvelope) → IsStored m (step_back m e)
  step_back-IsStored e = elim (Option-cases (step_back m e)) [
    | inl nothing ↦ subst (IsStored m) (sym nothing) tt
    | inr (p, at) ↦
        let (id, there) = step_back-get e p at in
        subst (IsStored m) (sym at) (IsStored-get id p there)
  ]

  -- The list of a run that has ended: no seal twice, and none that was seen before.
  record IsFresh (seen : List String) (result : Option (List SealEnvelope)) : Type 0 where
    found : List SealEnvelope
    ended : result ≡ some found
    once : all_different (ids_of found) ≡ true
    new : apart (ids_of found) seen ≡ true

  follow-cons :
      (e : SealEnvelope) (fuel : ℕ) (seen : List String)
      → includes seen e.current.seal_id ≡ false
      → IsFresh
          (seen ++ e.current.seal_id ∷ [])
          (follow m fuel (step_back m e) (seen ++ e.current.seal_id ∷ []))
      → IsFresh seen (follow m (suc fuel) (some e) seen)
  unfolding follow
  follow-cons e fuel seen unseen_yet rest =
      let id = e.current.seal_id in
      let both : (apart (ids_of rest.found) seen && not (includes (ids_of rest.found) id)) ≡ true =
        sym (apart-append (ids_of rest.found) seen id) ∙ rest.new in
      record {
        found = e ∷ rest.found;
        ended = rw (unseen_yet, rest.ended, follow);
        once = ground (arith, rest.once);
        new = ground arith;
      }

  follow-ends :
      (fuel : ℕ) (cursor : Option SealEnvelope) (seen : List String)
      → IsStored m cursor
      → suc (unseen seen (keys m.seals_by_id)) ≤ fuel
      → IsFresh seen (follow m fuel cursor seen)
  unfolding follow
  follow-ends zero cursor seen stored enough = absurd (omega arith)
  follow-ends (suc fuel) none seen stored enough = record {
    found = [];
    ended = refl;
    once = refl;
    new = refl;
  }
  follow-ends (suc fuel) (some e) seen stored enough =
      elim (Bool-cases (includes seen e.current.seal_id)) [
        | inl again ↦ record { found = []; ended = rw (again, follow); once = refl; new = refl }
        | inr first ↦
            let fewer = unseen-lt seen e.current.seal_id (keys m.seals_by_id) stored first in
            follow-cons e fuel seen first (
              follow-ends fuel (step_back m e) (seen ++ e.current.seal_id ∷ [])
                (step_back-IsStored e) (omega (arith, fewer, enough)))
      ]

  -- from any seal on, whether it is stored or not
  follow-from :
      (head : Option SealEnvelope) → IsFresh [] (follow m (length m.seals_by_id + 2) head [])
  unfolding follow
  follow-from head = subst (λ n. IsFresh [] (follow m n head [])) two_more (first_round head)
    where
      two_more : suc (suc (length m.seals_by_id)) ≡ length m.seals_by_id + 2
      two_more = omega arith

      first_round :
          (h : Option SealEnvelope) → IsFresh [] (follow m (suc (suc (length m.seals_by_id))) h [])
      first_round none = record { found = []; ended = refl; once = refl; new = refl }
      first_round (some e) =
          let fewer = unseen-le [] e.current.seal_id (keys m.seals_by_id) in
          let all = unseen-length m.seals_by_id in
          follow-cons e (suc (length m.seals_by_id)) [] refl (
            follow-ends (suc (length m.seals_by_id)) (step_back m e) (e.current.seal_id ∷ [])
              (step_back-IsStored e) (omega (arith, fewer, all)))

  -- Where each stored seal is stored under its own id, the history of every pair ends, whatever
  -- chains, loops included, the stored seals make, within two rounds more than there are stored
  -- seals; it lists no seal twice.
  pub history-ends :
      (credential_id chat_id : String)
      → (es : List SealEnvelope) × (history m credential_id chat_id ≡ some es)
        × (all_different (ids_of es) ≡ true)
  unfolding history
  history-ends credential_id chat_id = from (seals_of m credential_id chat_id) refl
    where
      from :
          (own : List SealEnvelope)
          → seals_of m credential_id chat_id ≡ own
          → (es : List SealEnvelope) × (history m credential_id chat_id ≡ some es)
            × (all_different (ids_of es) ≡ true)
      from [] e = ([], rw (e, history), refl)
      from (o ∷ os) e =
          let run =
            follow-from
              (start_of (get m.current_seals (chain_key credential_id chat_id)) (o ∷ os)) in
          (run.found, rw (e, history) run.ended, run.once)

-- The operations of the manager store a seal under its own id.
pub new-IsKeyed : IsKeyed new_seal_manager
new-IsKeyed = record { keyed = λ k e h. cc h }

pub track-IsKeyed :
    (m : SealManager) (key : String) (envelope : SealEnvelope) (input : SealInput)
    → IsKeyed m
    → IsKeyed (track m key envelope input)
unfolding track
track-IsKeyed m key envelope input before = record {
  keyed = λ k e at.
      let after = get-put m.seals_by_id envelope.current.seal_id envelope k in
      elim (Bool-cases (envelope.current.seal_id == k)) [
        | inl here ↦
            let same : get (put m.seals_by_id envelope.current.seal_id envelope) k ≡ some envelope =
              rw (after, here) in
            let own : envelope ≡ e = cc (same, at) in
            ap (λ x. x.current.seal_id) (sym own) ∙ (eq_iff envelope.current.seal_id k).0 here
        | inr elsewhere ↦
            let same : get (put m.seals_by_id envelope.current.seal_id envelope) k
                ≡ get m.seals_by_id k =
              rw (after, elsewhere) in
            before.keyed k e (sym same ∙ at)
      ];
}
