-- ===== src/Sessions/Credentials/Runs.antt =====
-- Whole runs of the manager: the calls that change its state, in any order.
use xmtp_broker.Base.{
  ℕ, ◌≤◌, ◌<◌, ◌≡◌, ◌≢◌, refl, ◌∙◌, String, true, false, List, none, some, eq_iff, get, get-put,
  values, length, find, ◌==◌, ok, err, arith, Option-cases, inl, inr,
}
use xmtp_broker.Scopes.{ScopeSet}
use xmtp_broker.Sessions.Credentials.Store.{
  CredentialManagerConfig, CredentialStatus, is_active, CredentialRecord, Manager, new_manager,
  is_given, Outcome, upsert_record, get_active_for_operator,
}
use xmtp_broker.Sessions.Credentials.Store.Effects.{active_opt, Calmer}
use xmtp_broker.Sessions.Credentials.Ops.{
  CredentialConfig, Draw, evict, after_evict, new_record, find_or_create, issue_credential,
  update_credential_scopes, get_credential_by_token, record_heartbeat, revoke_credential,
  revoke_all_credentials, get_reveal_state, set_credential_status, renew_credential, sweep_expired,
}
use xmtp_broker.Sessions.Credentials.Tokens.{IsLive, get_credential_by_token_iff}
use xmtp_broker.Sessions.Credentials.Bounds.{
  Inv, Calmer-Inv, issue_credential-Inv, new_manager-Inv, evict-Calmer, absent,
}
use xmtp_broker.Sessions.Credentials.Status.{
  IsQuiet, update_credential_scopes-IsQuiet, get_credential_by_token-IsQuiet,
  record_heartbeat-IsQuiet, revoke_credential-IsQuiet, revoke_each-IsQuiet,
  get_reveal_state-IsQuiet, set_credential_status-IsQuiet, renew_credential-IsQuiet,
  sweep_each-IsQuiet,
}

-- The calls that change the state, with the time at which each is made.
pub data Call : Type 0 where
  issue : ℕ → CredentialConfig → Draw → Call
  update_scopes : String → ScopeSet → Call
  by_token : ℕ → String → Call
  heartbeat : ℕ → String → Call
  renew : ℕ → String → Call
  revoke : ℕ → String → String → Call
  revoke_all : ℕ → String → String → Call
  reveal_state : String → Call
  set_status : String → CredentialStatus → Call
  sweep : ℕ → Call

-- The id that an issue draws is new, and a status that is set is not the active one.
abbrev pub Allowed : Manager → Call → Type 0
Allowed m (issue now cfg draw) = get m.by_id draw.credential_id ≡ none
Allowed m (set_status id status) = is_active status ≡ false
Allowed m _ = Unit

module _ (policy_hash : ScopeSet → List String → String) (config : CredentialManagerConfig) where
  abbrev pub after : Manager → Call → Manager
  after m (issue now cfg draw) = (issue_credential policy_hash config m now cfg draw).0
  after m (update_scopes id scopes) = (update_credential_scopes policy_hash config m id scopes).0
  after m (by_token now token) = (get_credential_by_token m now token).0
  after m (heartbeat now id) = (record_heartbeat m now id).0
  after m (renew now id) = (renew_credential config m now id).0
  after m (revoke now id reason) = (revoke_credential m now id reason).0
  after m (revoke_all now operator reason) = (revoke_all_credentials m now operator reason).0
  after m (reveal_state id) = (get_reveal_state m id).0
  after m (set_status id status) = (set_credential_status m id status).0
  after m (sweep now) = (sweep_expired config m now).0

  -- The states that calls lead to from one of them.
  pub data Run (m : Manager) : Manager → Type 0 where
    still : Run m m
    then_call : (b : Manager) (c : Call) → Run m b → Allowed b c → Run m (after b c)

  revoke_all_credentials-IsQuiet :
      (m : Manager) (now : ℕ) (operator reason : String)
      → IsQuiet m (revoke_all_credentials m now operator reason).0
  unfolding revoke_all_credentials
  revoke_all_credentials-IsQuiet m now operator reason =
      revoke_each-IsQuiet m now reason (get_active_for_operator m operator)

  sweep_expired-IsQuiet : (m : Manager) (now : ℕ) → IsQuiet m (sweep_expired config m now).0
  unfolding sweep_expired
  sweep_expired-IsQuiet m now = sweep_each-IsQuiet config m now (values m.by_id)

  -- Where a property survives the quiet steps and the issues, it survives every call.
  after-keeps :
      (P : Manager → Type 0)
      → ((a b : Manager) → IsQuiet a b → P a → P b)
      → ((a : Manager) (now : ℕ) (cfg : CredentialConfig) (draw : Draw)
          → get a.by_id draw.credential_id ≡ none
          → P a
          → P (issue_credential policy_hash config a now cfg draw).0)
      → (m : Manager) (c : Call) → Allowed m c
      → P m
      → P (after m c)
  after-keeps P q i m (issue now cfg draw) a p = i m now cfg draw a p
  after-keeps P q i m (update_scopes id scopes) a p =
      q m _ (update_credential_scopes-IsQuiet policy_hash config m id scopes) p
  after-keeps P q i m (by_token now token) a p =
      q m _ (get_credential_by_token-IsQuiet m now token) p
  after-keeps P q i m (heartbeat now id) a p = q m _ (record_heartbeat-IsQuiet m now id) p
  after-keeps P q i m (renew now id) a p = q m _ (renew_credential-IsQuiet config m now id) p
  after-keeps P q i m (revoke now id reason) a p =
      q m _ (revoke_credential-IsQuiet m now id reason) p
  after-keeps P q i m (revoke_all now operator reason) a p =
      q m _ (revoke_all_credentials-IsQuiet m now operator reason) p
  after-keeps P q i m (reveal_state id) a p = q m _ (get_reveal_state-IsQuiet m id) p
  after-keeps P q i m (set_status id status) a p =
      q m _ (set_credential_status-IsQuiet m id status a) p
  after-keeps P q i m (sweep now) a p = q m _ (sweep_expired-IsQuiet m now) p

  Run-Inv :
      (m m' : Manager)
      → 0 < config.max_concurrent_per_operator
      → Inv config.max_concurrent_per_operator m
      → Run m m'
      → Inv config.max_concurrent_per_operator m'
  Run-Inv m m' positive v still = v
  Run-Inv m _ positive v (then_call b c run a) =
      after-keeps (Inv config.max_concurrent_per_operator)
        (λ x y q. Calmer-Inv config.max_concurrent_per_operator x y q.calmer q.operators)
        (issue_credential-Inv policy_hash config positive) b c a (Run-Inv m b positive v run)

  -- If an operator may have at least one active credential, then in every state that calls lead to
  -- from the empty manager, where each issue draws a new id and no call sets a status to active, no
  -- operator has more active credentials than it may have.
  pub Run-bounded :
      (m : Manager) (operator : String)
      → 0 < config.max_concurrent_per_operator
      → Run new_manager m
      → length (get_active_for_operator m operator) ≤ config.max_concurrent_per_operator
  Run-bounded m operator positive run =
      (Run-Inv new_manager m positive (new_manager-Inv config.max_concurrent_per_operator)
          run).bounded
        operator

  -- The id is stored, and its credential is not active.
  abbrev IsDead : String → Manager → Type 0
  IsDead id m = (is_given (get m.by_id id) ≡ true) × (active_opt (get m.by_id id) ≡ false)

  Calmer-IsDead : (id : String) (a b : Manager) → Calmer a.by_id b.by_id → IsDead id a → IsDead id b
  Calmer-IsDead id a b c (given, dead) = (c.present id ∙ given, ground (arith, c.calm id))

  find_or_create-IsDead :
      (id : String) (o : Outcome (Unit {0})) (now : ℕ) (cfg : CredentialConfig) (draw : Draw)
      → get o.0.by_id draw.credential_id ≡ none
      → IsDead id o.0
      → IsDead id (after_evict o (λ m'. find_or_create policy_hash config m' now cfg draw)).0
  unfolding find_or_create upsert_record new_record
  find_or_create-IsDead id (m, err e) now cfg draw fresh d = d
  find_or_create-IsDead id (m, ok u) now cfg draw fresh (given, dead) =
      elim (Option-cases (
        find (λ (c : CredentialRecord). c.policy_hash == policy_hash cfg.scopes cfg.chat_ids)
          (get_active_for_operator m cfg.operator_id))) [
            | inr (c, found) ↦ rw (found, find_or_create) (given, dead)
            | inl missing ↦
                rw (missing, find_or_create)
                  (ground (
                    arith,
                    get-put m.by_id draw.credential_id (new_record policy_hash config now cfg draw)
                        id,
                    eq_iff draw.credential_id id,
                  ))
          ]

  issue_credential-IsDead :
      0 < config.max_concurrent_per_operator
      → (id : String) (m : Manager) (now : ℕ) (cfg : CredentialConfig) (draw : Draw)
      → get m.by_id draw.credential_id ≡ none
      → IsDead id m
      → IsDead id (issue_credential policy_hash config m now cfg draw).0
  unfolding issue_credential
  issue_credential-IsDead positive id m now cfg draw fresh d =
      let o = evict policy_hash config m now cfg.operator_id in
      let c = evict-Calmer policy_hash config positive m now cfg.operator_id in
      find_or_create-IsDead id o now cfg draw
        (absent policy_hash config positive m o.0 draw.credential_id c fresh)
        (Calmer-IsDead id m o.0 c d)

  Run-IsDead :
      0 < config.max_concurrent_per_operator
      → (id : String) (m m' : Manager) → IsDead id m
      → Run m m'
      → IsDead id m'
  Run-IsDead positive id m m' d still = d
  Run-IsDead positive id m _ d (then_call b c run a) =
      after-keeps (IsDead id) (λ x y q. Calmer-IsDead id x y q.calmer)
        (issue_credential-IsDead positive id) b c a (Run-IsDead positive id m b d run)

  -- If an operator may have at least one active credential, and a state that calls lead to from the
  -- empty manager stores a credential that is not active (it has expired or was revoked), then after
  -- any further calls no token is accepted for that credential's id, at any time.
  -- Each issue draws a new id, and no call sets a status to active.
  pub Run-never_accepted :
      (m m' : Manager) (id : String) (r : CredentialRecord)
      → 0 < config.max_concurrent_per_operator
      → Run new_manager m
      → get m.by_id id ≡ some r
      → is_active r.status ≡ false
      → Run m m'
      → (now : ℕ) (token : String) (s : CredentialRecord)
      → (get_credential_by_token m' now token).1 ≡ ok s
      → s.credential_id ≢ id
  Run-never_accepted m m' id r positive reached stored dead run now token s accepted same =
      let v =
        Run-Inv m m' positive
          (Run-Inv new_manager m positive (new_manager-Inv config.max_concurrent_per_operator)
            reached)
          run in
      let live : IsLive m' now token s =
        ((get_credential_by_token_iff m' now token s).0 accepted).0 in
      let (given, gone) = Run-IsDead positive id m m' (rw stored (refl, dead)) run in
      let key = v.keyed live.id s live.stored in
      ground (arith, live.stored, live.current, key, same)
