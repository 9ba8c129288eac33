-- ===== src/Sessions/Service/Laws.antt =====
-- What an update of a credential in place does to its scopes.
use xmtp_broker.Base.{
  ℕ, String, true, List, Option, some, ◌≡◌, refl, sym, ap, subst, ◌∙◌, get, get-put, put, eq_refl,
  arith, Option-cases, Result-cases, Bool-cases, inl, inr, ok, err, ◌||◌,
}
use xmtp_broker.Scopes.{ScopeSet, resolve_scope_set}
use xmtp_broker.Policy.Permissions.Laws.{grants}
use xmtp_broker.Sessions.Materiality.{check_materiality}
use xmtp_broker.Sessions.Materiality.Laws.{check_materiality-escalation_iff}
use xmtp_broker.Sessions.Policies.{Policies}
use xmtp_broker.Sessions.Credentials.Store.{
  CredentialManagerConfig, CredentialRecord, Manager, is_active, no_updates, merge, mutate_record,
  revocation, Outcome,
}
use xmtp_broker.Sessions.Credentials.Store.Effects.{mutate_record-found, revoke_record-found}
use xmtp_broker.Sessions.Credentials.Ops.{
  update_credential_scopes, get_credential_by_id, revoke_credential, check_credential_materiality,
}
use xmtp_broker.Sessions.Service.{Changes, is_set, next_scopes, apply_scopes, update, shown}

-- The credential that stands under the id afterwards, if it is active, grants no scope that it did
-- not grant before.
pub record Narrows (id : String) (m m' : Manager) : Type 0 where
  pub kept :
      (r r' : CredentialRecord)
      → get m.by_id id ≡ some r
      → get m'.by_id id ≡ some r'
      → is_active r'.status ≡ true
      → (scope : String) → grants r'.effective_scopes scope ≡ true
      → grants r.effective_scopes scope ≡ true

pub Narrows-refl : (id : String) (m : Manager) → Narrows id m m
Narrows-refl id m = record {
  kept = λ r r' e e' live scope g.
      let same : r' ≡ r = ground (arith, e, e') in
      subst (λ (s : CredentialRecord). grants s.effective_scopes scope ≡ true) same g;
}

-- A step that stores another record of the credential, which grants no more where it is active.
put-Narrows :
    (m m' : Manager) (id : String) (r s : CredentialRecord)
    → get m.by_id id ≡ some r
    → m'.by_id ≡ put m.by_id id s
    → (is_active s.status ≡ true
        → (scope : String) → grants s.effective_scopes scope ≡ true
        → grants r.effective_scopes scope ≡ true)
    → Narrows id m m'
put-Narrows m m' id r s e written narrow = record {
  kept = λ q q' f f' live scope g.
      let stored : get m'.by_id id ≡ some s =
        rw (written, get-put m.by_id id s id, eq_refl id) refl in
      let new : q' ≡ s = ground (arith, stored, f') in
      let old : r ≡ q = ground (arith, e, f) in
      subst (λ (t : CredentialRecord). grants t.effective_scopes scope ≡ true) old
        (narrow (ap (λ (t : CredentialRecord). is_active t.status) (sym new) ∙ live) scope
          (subst (λ (t : CredentialRecord). grants t.effective_scopes scope ≡ true) new g));
}

pub revoke_credential-Narrows :
    (m : Manager) (now : ℕ) (id reason : String)
    → Narrows id m (revoke_credential m now id reason).0
unfolding revoke_credential merge
revoke_credential-Narrows m now id reason = elim (Option-cases (get m.by_id id)) [
  | inl e ↦ rw (e, revoke_credential) (Narrows-refl id m)
  | inr (r, e) ↦
      rw (e, revoke_credential)
        (put-Narrows m _ id r (merge r (revocation now reason)) e
          (revoke_record-found m now id reason r e).0 (λ live. cc))
]

module _ (policy_hash : ScopeSet → List String → String) (config : CredentialManagerConfig) where
  pub update_credential_scopes-Narrows :
      (m : Manager) (id : String) (scopes : ScopeSet) (r : CredentialRecord)
      → get m.by_id id ≡ some r
      → ((scope : String) → grants scopes scope ≡ true → grants r.effective_scopes scope ≡ true)
      → Narrows id m (update_credential_scopes policy_hash config m id scopes).0
  unfolding update_credential_scopes merge
  update_credential_scopes-Narrows m id scopes r e narrow = elim (Bool-cases (is_active r.status)) [
    | inr dead ↦ rw (e, update_credential_scopes, dead) (Narrows-refl id m)
    | inl live ↦
        let u = record no_updates {
          effective_scopes = some scopes;
          resolved_scopes = some (resolve_scope_set scopes);
          policy_hash = some (policy_hash scopes r.chat_ids);
        } in
        rw (e, update_credential_scopes, live)
          (put-Narrows m (mutate_record m id u).0 id r (merge r u) e
            (mutate_record-found m id u r e).0 (λ _. narrow))
  ]

  apply_scopes-Narrows :
      (m : Manager) (now : ℕ) (id : String) (scopes : ScopeSet)
      → Narrows id m (apply_scopes policy_hash config m now id scopes).0
  unfolding apply_scopes check_credential_materiality
  apply_scopes-Narrows m now id scopes = elim (Option-cases (get m.by_id id)) [
    | inl e ↦ rw (e, apply_scopes) (Narrows-refl id m)
    | inr (r, e) ↦
        elim (Bool-cases (check_materiality r.effective_scopes scopes).requires_reauthorization) [
          | inl wider ↦
              rw (apply_scopes, check_credential_materiality, e, wider)
                (revoke_credential-Narrows m now id "reauthorization-required")
          | inr narrower ↦
              rw (apply_scopes, check_credential_materiality, e, narrower)
                (update_credential_scopes-Narrows m id scopes r e
                  ((check_materiality-escalation_iff r.effective_scopes scopes).0 narrower))
        ]
  ]

  shown-state : (now : ℕ) (o : Outcome CredentialRecord) → (shown now o).0 ≡ o.0
  shown-state now (m, ok r) = refl
  shown-state now (m, err e) = refl

  update-Narrows :
      (policies : Option Policies) (m : Manager) (now : ℕ) (id : String) (changes : Changes)
      → Narrows id m (update policy_hash config policies m now id changes).0
  unfolding update get_credential_by_id
  update-Narrows policies m now id changes = elim (Option-cases (get m.by_id id)) [
    | inl e ↦ rw (update, get_credential_by_id, e) (Narrows-refl id m)
    | inr (r, e) ↦
        elim (Bool-cases
          (is_set changes.operator_id || is_set changes.chat_ids || is_set changes.ttl_seconds)) [
            | inl other ↦ rw (update, get_credential_by_id, e, other) (Narrows-refl id m)
            | inr scopes_only ↦
                elim (Bool-cases
                  (is_set changes.allow || is_set changes.deny || is_set changes.policy_id)) [
                    | inr nothing ↦
                        rw (update, get_credential_by_id, e, scopes_only, nothing)
                          (Narrows-refl id m)
                    | inl something ↦ elim (Result-cases (next_scopes policies r changes)) [
                      | inl (f, failed) ↦
                          rw (update, get_credential_by_id, e, scopes_only, something, failed)
                            (Narrows-refl id m)
                      | inr (scopes, found) ↦
                          rw (update, get_credential_by_id, e, scopes_only, something, found)
                            (subst (Narrows id m)
                              (sym
                                (shown-state now (apply_scopes policy_hash config m now id scopes)))
                              (apply_scopes-Narrows m now id scopes))
                    ]
                  ]
          ]
  ]

  -- Whatever an update of a credential asks for, by lists of scopes or by a policy, the credential
  -- that stands under the id afterwards, if it is active, grants no scope that it did not grant
  -- before the call.
  pub update-no_gain :
      (policies : Option Policies) (m : Manager) (now : ℕ) (id : String) (changes : Changes)
      (r r' : CredentialRecord) (scope : String)
      → get m.by_id id ≡ some r
      → get (update policy_hash config policies m now id changes).0.by_id id ≡ some r'
      → is_active r'.status ≡ true
      → grants r'.effective_scopes scope ≡ true
      → grants r.effective_scopes scope ≡ true
  update-no_gain policies m now id changes r r' scope e e' live g =
      (update-Narrows policies m now id changes).kept r r' e e' live scope g
