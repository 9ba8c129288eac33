-- ===== src/Sessions/Credentials/Bounds.antt =====
-- How many active credentials an operator has.
use native.Mathlib.Nat.{le_trans}
use xmtp_broker.Base.{
  ℕ, ◌≤◌, ◌<◌, ◌≡◌, refl, sym, ap, subst, ◌∙◌, String, true, false, List, [], ◌∷◌, none, some, ◌==◌,
  eq_iff, get, get-put, includes, includes-set_add, set_add, length, ltb, ltb→lt, eq_refl, find, ok,
  err, arith, Option-cases, Bool-cases, inl, inr,
}
use xmtp_broker.Scopes.{ScopeSet}
use xmtp_broker.Sessions.Credentials.Store.{
  CredentialManagerConfig, CredentialRecord, Manager, new_manager, ids_of, Outcome, is_given,
  active_among, get_active_for_operator, revocation, revoke_record, upsert_record, merge,
}
use xmtp_broker.Sessions.Credentials.Store.Effects.{
  active_opt, IsKeyed, Calmer, Calmer-refl, IsListed, All, revoke_record-Calmer,
  revoke_record-by_operator, revoke_record-found, active_among-Calmer, active_among-lt,
  active_among-IsListed, active_among-put_unlisted, active_among-put_new,
}
use xmtp_broker.Sessions.Credentials.Ops.{
  CredentialConfig, Draw, earliest, oldest_issued, evict, new_record, find_or_create,
  issue_credential, drop_value, after_evict,
}

abbrev pub ids_for : Manager → String → List String
ids_for m operator = ids_of (get m.by_operator operator)

pub record Inv (max : ℕ) (m : Manager) : Type 0 where
  pub keyed : IsKeyed m.by_id
  pub listed :
      (operator id : String)
      → includes (ids_for m operator) id ≡ true
      → is_given (get m.by_id id) ≡ true
  pub bounded : (operator : String) → length (get_active_for_operator m operator) ≤ max

-- A step that stores no credential and makes none active keeps the invariant.
pub Calmer-Inv :
    (max : ℕ) (m m' : Manager)
    → Calmer m.by_id m'.by_id
    → m'.by_operator ≡ m.by_operator
    → Inv max m
    → Inv max m'
unfolding get_active_for_operator
Calmer-Inv max m m' c e v = record {
  keyed = c.keyed v.keyed;
  listed = λ op id h.
      c.present id ∙ v.listed op id (ap (λ b. includes (ids_of (get b op)) id) (sym e) ∙ h);
  bounded = λ op.
      le_trans (active_among-Calmer m.by_id m'.by_id (ids_for m' op) c) (
        subst (λ b. length (active_among m.by_id (ids_of (get b op))) ≤ max) (sym e)
          (v.bounded op));
}

earliest-All :
    (P : CredentialRecord → Type 0) (r : CredentialRecord) (rs : List CredentialRecord)
    → P r
    → All P rs
    → P (earliest r rs)
unfolding earliest
earliest-All P r [] p a = p
earliest-All P r (s ∷ rs) p (q, a) = elim (Bool-cases (ltb s.issued_at r.issued_at)) [
  | inl before ↦ rw before (earliest-All P s rs q a)
  | inr after ↦ rw after (earliest-All P r rs p a)
]

oldest_issued-All :
    (P : CredentialRecord → Type 0) (rs : List CredentialRecord)
    → 0 < length rs
    → All P rs
    → (r : CredentialRecord) × (oldest_issued rs ≡ some r) × P r
unfolding oldest_issued
oldest_issued-All P [] h a = absurd (omega arith)
oldest_issued-All P (r ∷ rs) h (p, a) = (earliest r rs, refl, earliest-All P r rs p a)

-- The record of an id after its revocation is not active.
revoke_record-inactive :
    (m : Manager) (now : ℕ) (id reason : String) (r : CredentialRecord)
    → get m.by_id id ≡ some r
    → active_opt (get (revoke_record m now id reason).0.by_id id) ≡ false
unfolding merge
revoke_record-inactive m now id reason r e =
    rw ((revoke_record-found m now id reason r e).0)
      (ground (arith, get-put m.by_id id (merge r (revocation now reason)) id, eq_refl id))

drop_value-state : (o : Outcome CredentialRecord) → (drop_value o).0 ≡ o.0
drop_value-state (m, ok r) = refl
drop_value-state (m, err e) = refl

-- Storing a credential under a new id, where its operator has room for one more.
upsert_record-Inv :
    (max : ℕ) (m : Manager) (r : CredentialRecord)
    → get m.by_id r.credential_id ≡ none
    → Inv max m
    → length (get_active_for_operator m r.operator_id) < max
    → Inv max (upsert_record m r)
unfolding upsert_record get_active_for_operator
upsert_record-Inv max m r fresh v room = record {
  keyed = λ id s h.
      ground (arith, get-put m.by_id r.credential_id r id, eq_iff r.credential_id id, v.keyed id s);
  listed = λ op id h. ground (
    arith,
    get-put m.by_id r.credential_id r id,
    get-put m.by_operator r.operator_id (set_add (ids_for m r.operator_id) r.credential_id) op,
    includes-set_add (ids_for m r.operator_id) r.credential_id id,
    eq_iff r.operator_id op,
    v.listed op id,
    v.listed r.operator_id id,
  );
  bounded = λ op. ground (
    arith,
    get-put m.by_operator r.operator_id (set_add (ids_for m r.operator_id) r.credential_id) op,
    eq_iff r.operator_id op,
    active_among-put_new m.by_id (ids_for m r.operator_id) r.credential_id r
        (unlisted r.operator_id),
    active_among-put_unlisted m.by_id (ids_for m op) r.credential_id r (unlisted op),
    v.bounded op,
  );
}
  where
    unlisted : (op : String) → includes (ids_for m op) r.credential_id ≡ false
    unlisted op = elim (Bool-cases (includes (ids_for m op) r.credential_id)) [
      | inl in_list ↦ cc (v.listed op r.credential_id in_list, fresh)
      | inr out ↦ out
    ]

module _ (policy_hash : ScopeSet → List String → String) (config : CredentialManagerConfig)
    (positive : 0 < config.max_concurrent_per_operator) where
  abbrev max : ℕ
  max = config.max_concurrent_per_operator

  -- After the eviction there is room for one more, and the invariant still holds.
  abbrev HasRoom : String → Manager → Type 0
  HasRoom operator m = Inv max m × (length (get_active_for_operator m operator) < max)

  evict_oldest :
      (m : Manager) (now : ℕ) (operator : String) (o : CredentialRecord)
      → Inv max m
      → IsListed m.by_id (ids_for m operator) o
      → HasRoom operator (revoke_record m now o.credential_id "policy-violation").0
  unfolding get_active_for_operator
  evict_oldest m now operator o v l =
      let id = o.credential_id in
      let m' = (revoke_record m now id "policy-violation").0 in
      let c = revoke_record-Calmer m now id "policy-violation" in
      let same : m'.by_operator ≡ m.by_operator =
        revoke_record-by_operator m now id "policy-violation" in
      let fewer =
        active_among-lt m.by_id m'.by_id (ids_for m operator) id c l.listed (rw l.stored l.live)
          (revoke_record-inactive m now id "policy-violation" o l.stored) in
      (
        Calmer-Inv max m m' c same v,
        subst (λ b. length (active_among m'.by_id (ids_of (get b operator))) < max) (sym same)
            (omega (arith, fewer, v.bounded operator)),
      )

  evict-HasRoom :
      (m : Manager) (now : ℕ) (operator : String)
      → Inv max m
      → HasRoom operator (evict policy_hash config m now operator).0
  unfolding evict
  evict-HasRoom m now operator v =
      elim (Bool-cases (ltb (length (get_active_for_operator m operator)) max)) [
        | inl room ↦ rw room (v, ltb→lt _ _ room)
        | inr crowded ↦
            let (o, found, l) =
              oldest_issued-All (IsListed m.by_id (ids_for m operator))
                (get_active_for_operator m operator) (ground arith)
                (unfold get_active_for_operator in
                  active_among-IsListed m.by_id (ids_for m operator) v.keyed) in
            rw (crowded, found)
              (subst (HasRoom operator)
                (sym (drop_value-state (revoke_record m now o.credential_id "policy-violation")))
                (evict_oldest m now operator o v l))
      ]

  find_or_create-Inv :
      (m : Manager) (now : ℕ) (cfg : CredentialConfig) (draw : Draw)
      → get m.by_id draw.credential_id ≡ none
      → HasRoom cfg.operator_id m
      → Inv max (find_or_create policy_hash config m now cfg draw).0
  unfolding find_or_create
  find_or_create-Inv m now cfg draw fresh (v, room) =
      elim (Option-cases (
        find (λ (c : CredentialRecord). c.policy_hash == policy_hash cfg.scopes cfg.chat_ids)
          (get_active_for_operator m cfg.operator_id))) [
            | inl missing ↦
                rw (missing, find_or_create)
                  (unfold new_record in
                    upsert_record-Inv max m (new_record policy_hash config now cfg draw) fresh v
                      room)
            | inr (c, found) ↦ rw (found, find_or_create) v
          ]

  pub evict-Calmer :
      (m : Manager) (now : ℕ) (operator : String)
      → Calmer m.by_id (evict policy_hash config m now operator).0.by_id
  unfolding evict
  evict-Calmer m now operator =
      elim (Bool-cases (ltb (length (get_active_for_operator m operator)) max)) [
        | inl room ↦ rw room (Calmer-refl m.by_id)
        | inr crowded ↦ elim (Option-cases (oldest_issued (get_active_for_operator m operator))) [
          | inl missing ↦ rw (crowded, missing) (Calmer-refl m.by_id)
          | inr (o, found) ↦
              rw (crowded, found)
                (subst (λ m'. Calmer m.by_id m'.by_id)
                  (sym (drop_value-state (revoke_record m now o.credential_id "policy-violation")))
                  (revoke_record-Calmer m now o.credential_id "policy-violation"))
        ]
      ]

  pub absent :
      (m m' : Manager) (id : String)
      → Calmer m.by_id m'.by_id
      → get m.by_id id ≡ none
      → get m'.by_id id ≡ none
  absent m m' id c fresh = ground (arith, c.present id)

  after_evict-Inv :
      (o : Outcome (Unit {0})) (now : ℕ) (cfg : CredentialConfig) (draw : Draw)
      → get o.0.by_id draw.credential_id ≡ none
      → HasRoom cfg.operator_id o.0
      → Inv max (after_evict o (λ m'. find_or_create policy_hash config m' now cfg draw)).0
  after_evict-Inv (m', ok u) now cfg draw fresh h = find_or_create-Inv m' now cfg draw fresh h
  after_evict-Inv (m', err e) now cfg draw fresh h = h.0

  -- If an operator may have at least one active credential, and the id that the call draws is new,
  -- issuing keeps the invariant: no operator has more active credentials than it may have.
  pub issue_credential-Inv :
      (m : Manager) (now : ℕ) (cfg : CredentialConfig) (draw : Draw)
      → get m.by_id draw.credential_id ≡ none
      → Inv max m
      → Inv max (issue_credential policy_hash config m now cfg draw).0
  unfolding issue_credential
  issue_credential-Inv m now cfg draw fresh v =
      let o = evict policy_hash config m now cfg.operator_id in
      after_evict-Inv o now cfg draw
        (absent m o.0 draw.credential_id (evict-Calmer m now cfg.operator_id) fresh)
        (evict-HasRoom m now cfg.operator_id v)

pub new_manager-Inv : (max : ℕ) → Inv max new_manager
unfolding get_active_for_operator
new_manager-Inv max = record {
  keyed = λ id r h. cc;
  listed = λ op id h. cc;
  bounded = λ op. omega arith;
}
