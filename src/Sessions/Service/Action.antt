-- ===== src/Sessions/Service/Action.antt =====
-- The update action, behind its lookup, which sweeps first.
use xmtp_broker.Base.{
  ℕ, String, true, List, [], ◌∷◌, none, some, ◌≡◌, refl, sym, ap, subst, ◌∙◌, get, get-put, eq_iff,
  ◌==◌, arith, Option-cases, Bool-cases, inl, inr, ok, err, leb, values,
}
use xmtp_broker.Scopes.{ScopeSet}
use xmtp_broker.Policy.Permissions.Laws.{grants}
use xmtp_broker.Sessions.Credentials.Store.{
  CredentialManagerConfig, CredentialRecord, Manager, is_active, Updates, merge, or_existing,
  mutate_record, cleanup_reveal_state, revocation, revoke_record, heartbeat_deadline, Outcome,
}
use xmtp_broker.Sessions.Credentials.Store.Effects.{cleanup_reveal_state-keeps, revoke_record-by_id}
use xmtp_broker.Sessions.Materiality.{check_materiality}
use xmtp_broker.Sessions.Materiality.Laws.{check_materiality-escalation_iff}
use xmtp_broker.Sessions.Service.{
  PublicCredential, to_credential_record, UpdateResult, reported, lookup_credential, act,
  after_lookup, update_scopes,
}
use xmtp_broker.Sessions.Service.Laws.{
  Narrows, Narrows-refl, revoke_credential-Narrows, update_credential_scopes-Narrows,
}
use xmtp_broker.Sessions.Credentials.Ops.{
  get_credential_by_id, check_credential_materiality, sweep_one, sweep_each, sweep_expired,
}

-- No credential is stored with other scopes than before.
record KeepsScopes (m m' : Manager) : Type 0 where
  pub kept :
      (id : String) (r' : CredentialRecord)
      → get m'.by_id id ≡ some r'
      → (r : CredentialRecord) × (get m.by_id id ≡ some r)
        × (r.effective_scopes ≡ r'.effective_scopes)

KeepsScopes-refl : (m : Manager) → KeepsScopes m m
KeepsScopes-refl m = record { kept = λ id r e. (r, e, refl) }

KeepsScopes-trans : (a b c : Manager) → KeepsScopes a b → KeepsScopes b c → KeepsScopes a c
KeepsScopes-trans a b c p q = record {
  kept = λ id r e.
      let (s, f, same) = q.kept id r e in let (t, g, also) = p.kept id s f in (t, g, also ∙ same);
}

mutate_record-KeepsScopes :
    (m : Manager) (id : String) (u : Updates)
    → u.effective_scopes ≡ none
    → KeepsScopes m (mutate_record m id u).0
unfolding mutate_record merge
mutate_record-KeepsScopes m id u quiet = elim (Option-cases (get m.by_id id)) [
  | inl e ↦ rw (e, mutate_record) (KeepsScopes-refl m)
  | inr (r, e) ↦
      rw (e, mutate_record)
        (record {
          kept = λ j s h. elim (Bool-cases (id == j)) [
            | inr other ↦ (s, ground (arith, get-put m.by_id id (merge r u) j), refl)
            | inl same ↦
                let key : id ≡ j = (eq_iff id j).0 same in
                let written : merge r u ≡ s = ground (arith, get-put m.by_id id (merge r u) j) in
                (
                  r,
                  ap (get m.by_id) (sym key) ∙ e,
                  sym (ap (λ o. or_existing o r.effective_scopes) quiet)
                      ∙ ap (λ (t : CredentialRecord). t.effective_scopes) written,
                )
          ];
        })
]

same-KeepsScopes : (m m' : Manager) → m'.by_id ≡ m.by_id → KeepsScopes m m'
same-KeepsScopes m m' e = record { kept = λ id r f. (r, ap (λ b. get b id) (sym e) ∙ f, refl) }

revoke_record-KeepsScopes :
    (m : Manager) (now : ℕ) (id reason : String) → KeepsScopes m (revoke_record m now id reason).0
revoke_record-KeepsScopes m now id reason =
    let c = cleanup_reveal_state m id in
    let changed = (mutate_record c id (revocation now reason)).0 in
    KeepsScopes-trans m c (revoke_record m now id reason).0
      (same-KeepsScopes m c (cleanup_reveal_state-keeps m id).0)
      (KeepsScopes-trans c changed (revoke_record m now id reason).0
        (mutate_record-KeepsScopes c id (revocation now reason) refl)
        (same-KeepsScopes changed (revoke_record m now id reason).0
          (revoke_record-by_id m now id reason)))

module _ (config : CredentialManagerConfig) where
  sweep_one-KeepsScopes :
      (m : Manager) (now : ℕ) (r : CredentialRecord) → KeepsScopes m (sweep_one config m now r).0
  unfolding sweep_one
  sweep_one-KeepsScopes m now r = elim (Bool-cases (is_active r.status)) [
    | inr dead ↦ rw (sweep_one, dead) (KeepsScopes-refl m)
    | inl live ↦ elim (Bool-cases (leb r.expires_at now)) [
      | inl late ↦
          let c = cleanup_reveal_state m r.credential_id in
          rw (sweep_one, live, late)
            (KeepsScopes-trans m c _
              (same-KeepsScopes m c (cleanup_reveal_state-keeps m r.credential_id).0)
              (mutate_record-KeepsScopes c r.credential_id _ refl))
      | inr in_time ↦ elim (Bool-cases (leb (heartbeat_deadline config r) now)) [
        | inl stale ↦
            rw (sweep_one, live, in_time, stale)
              (revoke_record-KeepsScopes m now r.credential_id "heartbeat-timeout")
        | inr fresh ↦ rw (sweep_one, live, in_time, fresh) (KeepsScopes-refl m)
      ]
    ]
  ]

  sweep_each-KeepsScopes :
      (m : Manager) (now : ℕ) (rs : List CredentialRecord)
      → KeepsScopes m (sweep_each config m now rs).0
  unfolding sweep_each
  sweep_each-KeepsScopes m now [] = KeepsScopes-refl m
  sweep_each-KeepsScopes m now (r ∷ rs) =
      let m' = (sweep_one config m now r).0 in
      KeepsScopes-trans m m' (sweep_each config m' now rs).0 (sweep_one-KeepsScopes m now r)
        (sweep_each-KeepsScopes m' now rs)

  sweep_expired-KeepsScopes : (m : Manager) (now : ℕ) → KeepsScopes m (sweep_expired config m now).0
  unfolding sweep_expired
  sweep_expired-KeepsScopes m now = sweep_each-KeepsScopes m now (values m.by_id)

module _ (policy_hash : ScopeSet → List String → String) (config : CredentialManagerConfig) where
  reported-state : (u : UpdateResult) (o : Outcome CredentialRecord) → (reported u o).0 ≡ o.0
  reported-state u (m, ok r) = refl
  reported-state u (m, err e) = refl

  act-Narrows :
      (m : Manager) (now : ℕ) (id : String) (scopes : ScopeSet) (r : CredentialRecord)
      → get m.by_id id ≡ some r
      → Narrows id m
          (act policy_hash config m now id scopes (check_materiality r.effective_scopes scopes)).0
  unfolding act
  act-Narrows m now id scopes r e =
      elim (Bool-cases (check_materiality r.effective_scopes scopes).requires_reauthorization) [
        | inl wider ↦
            rw (act, wider)
              (subst (Narrows id m) (sym (reported-state _ _))
                (revoke_credential-Narrows m now id "reauthorization-required"))
        | inr narrower ↦
            rw (act, narrower)
              (subst (Narrows id m) (sym (reported-state _ _)) (
                update_credential_scopes-Narrows policy_hash config m id scopes r e
                  ((check_materiality-escalation_iff r.effective_scopes scopes).0 narrower)))
      ]

  after_lookup-Narrows :
      (m : Manager) (now : ℕ) (id : String) (scopes : ScopeSet) (credential : PublicCredential)
      (r : CredentialRecord)
      → get m.by_id id ≡ some r
      → Narrows id m (after_lookup policy_hash config m now id scopes credential).0
  unfolding after_lookup check_credential_materiality
  after_lookup-Narrows m now id scopes credential r e =
      elim (Bool-cases (is_active credential.status)) [
        | inr dead ↦ rw (after_lookup, dead) (Narrows-refl id m)
        | inl live ↦
            rw (after_lookup, live, check_credential_materiality, e)
              (act-Narrows m now id scopes r e)
      ]

  lookup_credential-found :
      (m : Manager) (now : ℕ) (id : String) (s : CredentialRecord)
      → get (sweep_expired config m now).0.by_id id ≡ some s
      → lookup_credential policy_hash config m now id
        ≡ ((sweep_expired config m now).0, ok (to_credential_record now s))
  unfolding lookup_credential get_credential_by_id
  lookup_credential-found m now id s f = rw (lookup_credential, get_credential_by_id, f) refl

  update_scopes-found :
      (m : Manager) (now : ℕ) (id : String) (scopes : ScopeSet) (s : CredentialRecord)
      → get (sweep_expired config m now).0.by_id id ≡ some s
      → update_scopes policy_hash config m now id scopes
        ≡ after_lookup policy_hash config
            (sweep_expired config m now).0
            now
            id
            scopes
            (to_credential_record now s)
  unfolding update_scopes
  update_scopes-found m now id scopes s f =
      let found = lookup_credential-found m now id s f in
      rw (update_scopes, found)
        (ap (λ o. after_lookup policy_hash config o.0 now id scopes (to_credential_record now s))
          found)

  -- After the action `credential.updateScopes`, with its sweep, the credential that stands under the
  -- id, if it is active, grants no scope that it did not grant before the call.
  pub update_scopes-no_gain :
      (m : Manager) (now : ℕ) (id : String) (scopes : ScopeSet) (r r' : CredentialRecord)
      (scope : String)
      → get m.by_id id ≡ some r
      → get (update_scopes policy_hash config m now id scopes).0.by_id id ≡ some r'
      → is_active r'.status ≡ true
      → grants r'.effective_scopes scope ≡ true
      → grants r.effective_scopes scope ≡ true
  unfolding update_scopes lookup_credential get_credential_by_id
  update_scopes-no_gain m now id scopes r r' scope e e' live g =
      let m1 = (sweep_expired config m now).0 in
      elim (Option-cases (get m1.by_id id)) [
        | inl f ↦ cc (rw (update_scopes, lookup_credential, get_credential_by_id, f) at e', f)
        | inr (s, f) ↦
            let (t, h, same) = (sweep_expired-KeepsScopes config m now).kept id s f in
            let narrow = after_lookup-Narrows m1 now id scopes (to_credential_record now s) s f in
            let old : t ≡ r = ground (arith, h, e) in
            subst (λ (c : CredentialRecord). grants c.effective_scopes scope ≡ true) old
              (subst (λ a. grants a scope ≡ true) (sym same)
                (narrow.kept s r' f
                  (ap (λ o. get o.0.by_id id) (sym (update_scopes-found m now id scopes s f)) ∙ e')
                  live scope g))
      ]
