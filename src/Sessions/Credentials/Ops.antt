-- ===== src/Sessions/Credentials/Ops.antt =====
-- The operations of the manager: credential-manager.ts, from `issueCredential` to `sweepExpired`.
use xmtp_broker.Base.{
  ℕ, ◌+◌, ◌*◌, String, Bool, not, ◌&&◌, List, [], ◌∷◌, ◌++◌, Option, none, some, ◌==◌, ltb, leb,
  get, put, values, find, filter, length, if◌then◌else◌, Result, ok, err,
}
use xmtp_broker.Scopes.{ScopeSet, resolve_scope_set}
use xmtp_broker.Policy.Reveal.{RevealEntry}
use xmtp_broker.Sessions.Materiality.{MaterialityCheck, check_materiality}
use xmtp_broker.Sessions.Credentials.Store.{
  CredentialManagerConfig, CredentialStatus, active, expired, is_active, CredentialRecord, Manager,
  CredentialError, not_found, credential_expired, auth, Outcome, no_updates, upsert_record,
  mutate_record, get_active_for_operator, cleanup_reveal_state, revoke_record, heartbeat_deadline,
}

-- `allow` and `deny` are empty where they are left out, as in `buildScopeSet`.
pub record CredentialConfig : Type 0 where
  pub operator_id : String
  pub chat_ids : List String
  pub scopes : ScopeSet
  pub ttl_seconds : Option ℕ

-- The id and the token that the call draws, and who issues.
pub record Draw : Type 0 where
  pub credential_id : String
  pub token : String
  pub issued_by : String

-- The first item of the list sorted by `issuedAt`: the sort is stable.
unfoldable pub earliest : CredentialRecord → List CredentialRecord → CredentialRecord
earliest r [] = r
earliest r (s ∷ rest) = earliest (if ltb s.issued_at r.issued_at then s else r) rest

unfoldable pub oldest_issued : List CredentialRecord → Option CredentialRecord
unfolding earliest
oldest_issued [] = none
oldest_issued (r ∷ rest) = some (earliest r rest)

unfoldable pub ttl_of : CredentialManagerConfig → Option ℕ → ℕ
ttl_of config none = config.default_ttl_seconds
ttl_of config (some s) = s

-- A failure of `mutateRecord` after a successful lookup is reported as not found.
abbrev pub as_not_found :
    {A : Type 0} → String → Result CredentialError A → Result CredentialError A
as_not_found id (ok a) = ok a
as_not_found id (err e) = err (not_found id)

abbrev pub drop_value : Outcome CredentialRecord → Outcome (Unit {0})
drop_value (m, ok r) = (m, ok tt)
drop_value (m, err e) = (m, err e)

abbrev pub after_evict :
    Outcome (Unit {0}) → (Manager → Outcome CredentialRecord) → Outcome CredentialRecord
after_evict (m, ok _) f = f m
after_evict (m, err e) f = (m, err e)

abbrev pub renamed : String → Outcome CredentialRecord → Outcome CredentialRecord
renamed id (m, r) = (m, as_not_found id r)

module _ (policy_hash : ScopeSet → List String → String) (config : CredentialManagerConfig) where
  -- Revokes the oldest active credential of the operator where it has as many as it may have.
  unfoldable pub evict : Manager → ℕ → String → Outcome (Unit {0})
  unfolding oldest_issued
  evict m now operator_id =
      let actives = get_active_for_operator m operator_id in
      if ltb (length actives) config.max_concurrent_per_operator
      then (m, ok tt)
      else elim (oldest_issued actives) [
        | none ↦ (m, ok tt)
        | some oldest ↦ drop_value (revoke_record m now oldest.credential_id "policy-violation")
      ]

  unfoldable pub new_record : ℕ → CredentialConfig → Draw → CredentialRecord
  unfolding ttl_of
  new_record now cfg draw = record {
    credential_id = draw.credential_id;
    token = draw.token;
    operator_id = cfg.operator_id;
    chat_ids = cfg.chat_ids;
    effective_scopes = cfg.scopes;
    resolved_scopes = resolve_scope_set cfg.scopes;
    policy_hash = policy_hash cfg.scopes cfg.chat_ids;
    status = active;
    heartbeat_interval = 30;
    last_heartbeat = now;
    issued_at = now;
    expires_at = now + ttl_of config cfg.ttl_seconds * 1000;
    issued_by = draw.issued_by;
    ttl_ms = ttl_of config cfg.ttl_seconds * 1000;
    revoked_at = none;
    revocation_reason = none;
  }

  -- the second half of `issueCredential`: the credential with the same policy, or a new one
  unfoldable pub find_or_create : Manager → ℕ → CredentialConfig → Draw → Outcome CredentialRecord
  unfolding new_record
  find_or_create m now cfg draw =
      elim (find (λ c. c.policy_hash == policy_hash cfg.scopes cfg.chat_ids)
        (get_active_for_operator m cfg.operator_id)) [
          | some existing ↦ (m, ok existing)
          | none ↦ (upsert_record m (new_record now cfg draw), ok (new_record now cfg draw))
        ]

  unfoldable pub issue_credential : Manager → ℕ → CredentialConfig → Draw → Outcome CredentialRecord
  unfolding evict find_or_create
  issue_credential m now cfg draw =
      after_evict (evict m now cfg.operator_id) (λ m'. find_or_create m' now cfg draw)

  unfoldable pub update_credential_scopes : Manager → String → ScopeSet → Outcome CredentialRecord
  update_credential_scopes m id scopes = elim (get m.by_id id) [
    | none ↦ (m, err (not_found id))
    | some r ↦
        if not (is_active r.status)
        then (m, err (credential_expired id))
        else renamed id (
            mutate_record m id (record no_updates {
              effective_scopes = some scopes;
              resolved_scopes = some (resolve_scope_set scopes);
              policy_hash = some (policy_hash scopes r.chat_ids);
            }))
  ]

-- `lookupByToken` is the same function. An empty id counts as missing.
unfoldable pub get_credential_by_token : Manager → ℕ → String → Outcome CredentialRecord
get_credential_by_token m now token = elim (get m.by_token token) [
  | none ↦ (m, err (not_found token))
  | some id ↦ if id == "" then (m, err (not_found token)) else elim (get m.by_id id) [
    | none ↦ (m, err (not_found token))
    | some r ↦
        if leb r.expires_at now
        then (
          (mutate_record m id (record no_updates { status = some expired })).0,
          err (credential_expired id),
        )
        else if not (is_active r.status)
        then (m, err (credential_expired id))
        else (m, ok r)
  ]
]

unfoldable pub get_credential_by_id : Manager → String → Result CredentialError CredentialRecord
get_credential_by_id m id = elim (get m.by_id id) [ none ↦ err (not_found id) | some r ↦ ok r ]

unfoldable pub list_credentials : Manager → Option String → List CredentialRecord
list_credentials m (some operator_id) = get_active_for_operator m operator_id
list_credentials m none = filter (λ r. is_active r.status) (values m.by_id)

unfoldable pub record_heartbeat : Manager → ℕ → String → Outcome (Unit {0})
record_heartbeat m now id = elim (get m.by_id id) [
  | none ↦ (m, err (not_found id))
  | some r ↦
      if not (is_active r.status)
      then (m, err (credential_expired id))
      else drop_value
          (renamed id (mutate_record m id (record no_updates { last_heartbeat = some now })))
]

unfoldable pub revoke_credential : Manager → ℕ → String → String → Outcome CredentialRecord
revoke_credential m now id reason = elim (get m.by_id id) [
  | none ↦ (m, err (not_found id))
  | some r ↦ renamed id (revoke_record m now id reason)
]

-- the loop of `revokeAllCredentials`: the credentials that it revoked
abbrev pub keep_ok :
    Result CredentialError CredentialRecord → List CredentialRecord → List CredentialRecord
keep_ok (ok r) rs = r ∷ rs
keep_ok (err e) rs = rs

unfoldable pub revoke_each :
    Manager → ℕ → String → List CredentialRecord → Manager × List CredentialRecord
revoke_each m now reason [] = (m, [])
revoke_each m now reason (c ∷ rest) =
    let (m', result) = revoke_record m now c.credential_id reason in
    let (m'', revoked) = revoke_each m' now reason rest in (m'', keep_ok result revoked)

unfoldable pub revoke_all_credentials :
    Manager → ℕ → String → String → Manager × List CredentialRecord
unfolding revoke_each
revoke_all_credentials m now operator_id reason =
    revoke_each m now reason (get_active_for_operator m operator_id)

-- The store of a credential's reveals, made on the first call.
unfoldable pub get_reveal_state : Manager → String → Outcome (List RevealEntry)
get_reveal_state m id = elim (get m.by_id id) [
  | none ↦ (m, err (not_found id))
  | some r ↦ elim (get m.reveal_states id) [
    | some entries ↦ (m, ok entries)
    | none ↦ (record m { reveal_states = put m.reveal_states id [] }, ok [])
  ]
]

unfoldable pub set_credential_status :
    Manager → String → CredentialStatus → Outcome CredentialRecord
set_credential_status m id status = elim (get m.by_id id) [
  | none ↦ (m, err (not_found id))
  | some r ↦ renamed id (mutate_record m id (record no_updates { status = some status }))
]

unfoldable pub check_credential_materiality :
    Manager → String → ScopeSet → Result CredentialError MaterialityCheck
check_credential_materiality m id new_scopes = elim (get m.by_id id) [
  | none ↦ err (not_found id)
  | some r ↦ ok (check_materiality r.effective_scopes new_scopes)
]

module _ (config : CredentialManagerConfig) where
  -- `remaining > renewalWindowSeconds`, over milliseconds
  unfoldable pub renew_credential : Manager → ℕ → String → Outcome CredentialRecord
  renew_credential m now id = elim (get m.by_id id) [
    | none ↦ (m, err (not_found id))
    | some r ↦
        if not (is_active r.status)
        then (m, err (credential_expired id))
        else if ltb (now + config.renewal_window_seconds * 1000) r.expires_at
        then (m, err (auth id))
        else renamed id
            (mutate_record m id (record no_updates { expires_at = some (now + r.ttl_ms) }))
  ]

  unfoldable pub is_heartbeat_stale : Manager → ℕ → String → Result CredentialError Bool
  is_heartbeat_stale m now id = elim (get m.by_id id) [
    | none ↦ err (not_found id)
    | some r ↦ ok (is_active r.status && leb (heartbeat_deadline config r) now)
  ]

  -- One round of `sweepExpired`, on a record of the map.
  unfoldable pub sweep_one : Manager → ℕ → CredentialRecord → Manager × List CredentialRecord
  sweep_one m now r =
      if not (is_active r.status)
      then (m, [])
      else if leb r.expires_at now
      then (let (m', result) =
            mutate_record (cleanup_reveal_state m r.credential_id) r.credential_id
              (record no_updates { status = some expired }) in
          (m', keep_ok result []))
      else if leb (heartbeat_deadline config r) now
      then (let (m', result) = revoke_record m now r.credential_id "heartbeat-timeout" in
          (m', keep_ok result []))
      else (m, [])

  -- A round changes no record but its own, so the walk is over the records as they were.
  unfoldable pub sweep_each : Manager → ℕ → List CredentialRecord → Manager × List CredentialRecord
  unfolding sweep_one
  sweep_each m now [] = (m, [])
  sweep_each m now (r ∷ rest) =
      let (m', swept) = sweep_one m now r in
      let (m'', more) = sweep_each m' now rest in (m'', swept ++ more)

  unfoldable pub sweep_expired : Manager → ℕ → Manager × List CredentialRecord
  unfolding sweep_each
  sweep_expired m now = sweep_each m now (values m.by_id)
