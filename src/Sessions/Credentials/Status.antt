-- ===== src/Sessions/Credentials/Status.antt =====
-- Whole runs of the manager: every operation that changes its state, in any order.
use xmtp_broker.Base.{
  ℕ, ◌+◌, ◌*◌, ◌≡◌, refl, sym, ap, subst, ◌∙◌, String, true, false, not, List, [], ◌∷◌, some, ◌==◌,
  get, ltb, leb, ok, err, Option-cases, Bool-cases, inl, inr,
}
use xmtp_broker.Scopes.{ScopeSet}
use xmtp_broker.Sessions.Credentials.Store.{
  CredentialManagerConfig, CredentialStatus, is_active, CredentialRecord, Manager, Updates,
  no_updates, Outcome, mutate_record, cleanup_reveal_state, revoke_record, heartbeat_deadline,
}
use xmtp_broker.Sessions.Credentials.Store.Effects.{
  is_safe, Calmer, Calmer-refl, Calmer-trans, mutate_record-Calmer, mutate_record-by_operator,
  cleanup_reveal_state-keeps, revoke_record-Calmer, revoke_record-by_operator,
}
use xmtp_broker.Sessions.Credentials.Ops.{
  renamed, drop_value, update_credential_scopes, get_credential_by_token, record_heartbeat,
  revoke_credential, revoke_each, get_reveal_state, set_credential_status, renew_credential,
  sweep_one, sweep_each,
}

-- A step that stores no credential and makes none active.
pub record IsQuiet (m m' : Manager) : Type 0 where
  pub calmer : Calmer m.by_id m'.by_id
  pub operators : m'.by_operator ≡ m.by_operator

IsQuiet-refl : (m : Manager) → IsQuiet m m
IsQuiet-refl m = record { calmer = Calmer-refl m.by_id; operators = refl }

IsQuiet-trans : (a b c : Manager) → IsQuiet a b → IsQuiet b c → IsQuiet a c
IsQuiet-trans a b c p q = record {
  calmer = Calmer-trans a.by_id b.by_id c.by_id p.calmer q.calmer;
  operators = q.operators ∙ p.operators;
}

pub mutate_record-IsQuiet :
    (m : Manager) (id : String) (u : Updates)
    → is_safe u.status ≡ true
    → IsQuiet m (mutate_record m id u).0
mutate_record-IsQuiet m id u safe = record {
  calmer = mutate_record-Calmer m id u safe;
  operators = mutate_record-by_operator m id u;
}

pub cleanup_reveal_state-IsQuiet :
    (m : Manager) (id : String) → IsQuiet m (cleanup_reveal_state m id)
cleanup_reveal_state-IsQuiet m id =
    let (same, operators) = cleanup_reveal_state-keeps m id in
    record {
      calmer = subst (Calmer m.by_id) (sym same) (Calmer-refl m.by_id);
      operators = operators;
    }

pub revoke_record-IsQuiet :
    (m : Manager) (now : ℕ) (id reason : String) → IsQuiet m (revoke_record m now id reason).0
revoke_record-IsQuiet m now id reason = record {
  calmer = revoke_record-Calmer m now id reason;
  operators = revoke_record-by_operator m now id reason;
}

pub drop_value-IsQuiet :
    (m : Manager) (o : Outcome CredentialRecord) → IsQuiet m o.0 → IsQuiet m (drop_value o).0
drop_value-IsQuiet m (m', ok r) q = q
drop_value-IsQuiet m (m', err e) q = q

pub update_credential_scopes-IsQuiet :
    (policy_hash : ScopeSet → List String → String) (config : CredentialManagerConfig) (m : Manager)
    (id : String) (scopes : ScopeSet)
    → IsQuiet m (update_credential_scopes policy_hash config m id scopes).0
unfolding update_credential_scopes
update_credential_scopes-IsQuiet policy_hash config m id scopes =
    elim (Option-cases (get m.by_id id)) [
      | inl e ↦ rw (e, update_credential_scopes) (IsQuiet-refl m)
      | inr (r, e) ↦ elim (Bool-cases (is_active r.status)) [
        | inl live ↦ rw (e, update_credential_scopes, live) (mutate_record-IsQuiet m id _ refl)
        | inr dead ↦ rw (e, update_credential_scopes, dead) (IsQuiet-refl m)
      ]
    ]

pub get_credential_by_token-IsQuiet :
    (m : Manager) (now : ℕ) (token : String) → IsQuiet m (get_credential_by_token m now token).0
unfolding get_credential_by_token
get_credential_by_token-IsQuiet m now token = elim (Option-cases (get m.by_token token)) [
  | inl e ↦ rw (e, get_credential_by_token) (IsQuiet-refl m)
  | inr (id, e) ↦ elim (Bool-cases (id == "")) [
    | inl empty ↦ rw (e, get_credential_by_token, empty) (IsQuiet-refl m)
    | inr named ↦ elim (Option-cases (get m.by_id id)) [
      | inl f ↦ rw (e, get_credential_by_token, named, f) (IsQuiet-refl m)
      | inr (r, f) ↦ elim (Bool-cases (leb r.expires_at now)) [
        | inl late ↦
            rw (e, get_credential_by_token, named, f, late) (mutate_record-IsQuiet m id _ refl)
        | inr early ↦ elim (Bool-cases (is_active r.status)) [
          | inl live ↦ rw (e, get_credential_by_token, named, f, early, live) (IsQuiet-refl m)
          | inr dead ↦ rw (e, get_credential_by_token, named, f, early, dead) (IsQuiet-refl m)
        ]
      ]
    ]
  ]
]

pub record_heartbeat-IsQuiet :
    (m : Manager) (now : ℕ) (id : String) → IsQuiet m (record_heartbeat m now id).0
unfolding record_heartbeat
record_heartbeat-IsQuiet m now id = elim (Option-cases (get m.by_id id)) [
  | inl e ↦ rw (e, record_heartbeat) (IsQuiet-refl m)
  | inr (r, e) ↦ elim (Bool-cases (is_active r.status)) [
    | inl live ↦
        rw (e, record_heartbeat, live)
          (drop_value-IsQuiet m
            (renamed id (mutate_record m id (record no_updates { last_heartbeat = some now })))
            (mutate_record-IsQuiet m id _ refl))
    | inr dead ↦ rw (e, record_heartbeat, dead) (IsQuiet-refl m)
  ]
]

pub revoke_credential-IsQuiet :
    (m : Manager) (now : ℕ) (id reason : String) → IsQuiet m (revoke_credential m now id reason).0
unfolding revoke_credential
revoke_credential-IsQuiet m now id reason = elim (Option-cases (get m.by_id id)) [
  | inl e ↦ rw (e, revoke_credential) (IsQuiet-refl m)
  | inr (r, e) ↦ rw (e, revoke_credential) (revoke_record-IsQuiet m now id reason)
]

pub revoke_each-IsQuiet :
    (m : Manager) (now : ℕ) (reason : String) (rs : List CredentialRecord)
    → IsQuiet m (revoke_each m now reason rs).0
unfolding revoke_each
revoke_each-IsQuiet m now reason [] = IsQuiet-refl m
revoke_each-IsQuiet m now reason (r ∷ rs) =
    let m' = (revoke_record m now r.credential_id reason).0 in
    IsQuiet-trans m m' (revoke_each m' now reason rs).0
      (revoke_record-IsQuiet m now r.credential_id reason) (revoke_each-IsQuiet m' now reason rs)

pub get_reveal_state-IsQuiet : (m : Manager) (id : String) → IsQuiet m (get_reveal_state m id).0
unfolding get_reveal_state
get_reveal_state-IsQuiet m id = elim (Option-cases (get m.by_id id)) [
  | inl e ↦ rw (e, get_reveal_state) (IsQuiet-refl m)
  | inr (r, e) ↦ elim (Option-cases (get m.reveal_states id)) [
    | inl f ↦
        rw (e, get_reveal_state, f) (record { calmer = Calmer-refl m.by_id; operators = refl })
    | inr (es, f) ↦ rw (e, get_reveal_state, f) (IsQuiet-refl m)
  ]
]

pub set_credential_status-IsQuiet :
    (m : Manager) (id : String) (status : CredentialStatus)
    → is_active status ≡ false
    → IsQuiet m (set_credential_status m id status).0
unfolding set_credential_status
set_credential_status-IsQuiet m id status calm = elim (Option-cases (get m.by_id id)) [
  | inl e ↦ rw (e, set_credential_status) (IsQuiet-refl m)
  | inr (r, e) ↦ rw (e, set_credential_status) (mutate_record-IsQuiet m id _ (ap not calm))
]

pub renew_credential-IsQuiet :
    (config : CredentialManagerConfig) (m : Manager) (now : ℕ) (id : String)
    → IsQuiet m (renew_credential config m now id).0
unfolding renew_credential
renew_credential-IsQuiet config m now id = elim (Option-cases (get m.by_id id)) [
  | inl e ↦ rw (e, renew_credential) (IsQuiet-refl m)
  | inr (r, e) ↦ elim (Bool-cases (is_active r.status)) [
    | inr dead ↦ rw (e, renew_credential, dead) (IsQuiet-refl m)
    | inl live ↦ elim (Bool-cases (ltb (now + config.renewal_window_seconds * 1000) r.expires_at)) [
      | inl early ↦ rw (e, renew_credential, live, early) (IsQuiet-refl m)
      | inr due ↦ rw (e, renew_credential, live, due) (mutate_record-IsQuiet m id _ refl)
    ]
  ]
]

pub sweep_one-IsQuiet :
    (config : CredentialManagerConfig) (m : Manager) (now : ℕ) (r : CredentialRecord)
    → IsQuiet m (sweep_one config m now r).0
unfolding sweep_one
sweep_one-IsQuiet config m now r = elim (Bool-cases (is_active r.status)) [
  | inr dead ↦ rw (sweep_one, dead) (IsQuiet-refl m)
  | inl live ↦ elim (Bool-cases (leb r.expires_at now)) [
    | inl late ↦
        let c = cleanup_reveal_state m r.credential_id in
        rw (sweep_one, live, late)
          (IsQuiet-trans m c _ (cleanup_reveal_state-IsQuiet m r.credential_id)
            (mutate_record-IsQuiet c r.credential_id _ refl))
    | inr in_time ↦ elim (Bool-cases (leb (heartbeat_deadline config r) now)) [
      | inl stale ↦
          rw (sweep_one, live, in_time, stale)
            (revoke_record-IsQuiet m now r.credential_id "heartbeat-timeout")
      | inr fresh ↦ rw (sweep_one, live, in_time, fresh) (IsQuiet-refl m)
    ]
  ]
]

pub sweep_each-IsQuiet :
    (config : CredentialManagerConfig) (m : Manager) (now : ℕ) (rs : List CredentialRecord)
    → IsQuiet m (sweep_each config m now rs).0
unfolding sweep_each
sweep_each-IsQuiet config m now [] = IsQuiet-refl m
sweep_each-IsQuiet config m now (r ∷ rs) =
    let m' = (sweep_one config m now r).0 in
    IsQuiet-trans m m' (sweep_each config m' now rs).0 (sweep_one-IsQuiet config m now r)
      (sweep_each-IsQuiet config m' now rs)
