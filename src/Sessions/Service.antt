-- ===== src/Sessions/Service.antt =====
-- packages/sessions/src/service.ts and the handler of packages/sessions/src/update-actions.ts: the
-- public operations over the manager that bear on a credential's scopes. A call runs to its end
-- before the next begins; the time is an argument and is read once.
pub mod Laws
pub mod Action
use xmtp_broker.Base.{
  ℕ, String, Bool, true, false, not, ◌&&◌, ◌||◌, List, [], ◌∷◌, ◌++◌, Option, none, some, map, leb,
  if◌then◌else◌, Result, ok, err,
}
use xmtp_broker.Scopes.{ScopeSet}
use xmtp_broker.Sessions.Materiality.{MaterialityCheck}
use xmtp_broker.Sessions.Policies.{Policies, PolicyRecord, lookup, resolve_policy}
use xmtp_broker.Sessions.Credentials.Store.{
  CredentialManagerConfig, CredentialStatus, expired, is_active, CredentialRecord, Manager,
  CredentialError, Outcome,
}
use xmtp_broker.Sessions.Credentials.Ops.{
  CredentialConfig, Draw, issue_credential, update_credential_scopes, get_credential_by_token,
  get_credential_by_id, list_credentials, revoke_credential, check_credential_materiality,
  renew_credential, sweep_expired,
}

-- An error of the manager passed on, and the errors of the service and of the action.
pub data ServiceError : Type 0 where
  from_manager : CredentialError → ServiceError
  policy_missing : String → ServiceError
  unsupported_change : ServiceError
  not_active : String → CredentialStatus → ServiceError

-- What a caller sees of a credential; `inboxIds` is always empty and left out.
pub record PublicCredential : Type 0 where
  pub credential_id : String
  pub operator_id : String
  pub chat_ids : List String
  pub effective_scopes : ScopeSet
  pub status : CredentialStatus
  pub issued_at : ℕ
  pub expires_at : ℕ
  pub issued_by : String
  pub is_expired : Bool
  pub last_heartbeat : ℕ

abbrev is_status_expired : CredentialStatus → Bool
is_status_expired expired = true
is_status_expired _ = false

unfoldable pub to_credential_record : ℕ → CredentialRecord → PublicCredential
to_credential_record now r = record {
  credential_id = r.credential_id;
  operator_id = r.operator_id;
  chat_ids = r.chat_ids;
  effective_scopes = r.effective_scopes;
  status = r.status;
  issued_at = r.issued_at;
  expires_at = r.expires_at;
  issued_by = r.issued_by;
  is_expired = is_status_expired r.status || leb r.expires_at now;
  last_heartbeat = r.last_heartbeat;
}

-- The record that is stored with the token, and the token with it.
pub record IssuedCredential : Type 0 where
  pub token : String
  pub credential_id : String
  pub operator_id : String
  pub chat_ids : List String
  pub scopes : ScopeSet
  pub status : CredentialStatus
  pub issued_at : ℕ
  pub expires_at : ℕ
  pub issued_by : String

unfoldable pub to_issued_credential : CredentialRecord → IssuedCredential
to_issued_credential r = record {
  token = r.token;
  credential_id = r.credential_id;
  operator_id = r.operator_id;
  chat_ids = r.chat_ids;
  scopes = r.effective_scopes;
  status = r.status;
  issued_at = r.issued_at;
  expires_at = r.expires_at;
  issued_by = r.issued_by;
}

-- What is issued: the ids, the lists as given, and the policy to add them to.
pub record IssueConfig : Type 0 where
  pub operator_id : String
  pub chat_ids : List String
  pub ttl_seconds : Option ℕ
  pub policy_id : Option String
  pub allow : Option (List String)
  pub deny : Option (List String)

-- What a renewal returns of the credential.
pub record Renewed : Type 0 where
  pub credential_id : String
  pub operator_id : String
  pub fingerprint : String
  pub issued_at : ℕ
  pub expires_at : ℕ

-- A state and a result.
abbrev pub Reply : Type 0 → Type 0
Reply A = Manager × Result ServiceError A

abbrev pub shown : ℕ → Outcome CredentialRecord → Reply PublicCredential
shown now (m, ok r) = (m, ok (to_credential_record now r))
shown now (m, err e) = (m, err (from_manager e))

unfoldable pub resolve_policy_scopes :
    Option Policies
    → String
    → Option (List String)
    → Option (List String)
    → Result ServiceError ScopeSet
resolve_policy_scopes none policy_id allow deny = err (policy_missing policy_id)
resolve_policy_scopes (some store) policy_id allow deny = elim (lookup store policy_id) [
  | ok r ↦ ok (resolve_policy r.config allow deny)
  | err e ↦ err (policy_missing policy_id)
]

-- `Partial<CredentialConfigType>`
pub record Changes : Type 0 where
  pub operator_id : Option String
  pub chat_ids : Option (List String)
  pub ttl_seconds : Option ℕ
  pub policy_id : Option String
  pub allow : Option (List String)
  pub deny : Option (List String)

abbrev pub is_set {ℓ} : {A : Type ℓ} → Option A → Bool
is_set none = false
is_set (some a) = true

abbrev or_current : Option (List String) → List String → List String
or_current none xs = xs
or_current (some ys) xs = ys

-- The scopes that an update asks for: those of the policy, or the given lists over the current ones.
unfoldable pub next_scopes :
    Option Policies → CredentialRecord → Changes → Result ServiceError ScopeSet
next_scopes policies current changes = elim changes.policy_id [
  | some policy_id ↦ resolve_policy_scopes policies policy_id changes.allow changes.deny
  | none ↦ ok (record {
    allow = or_current changes.allow current.effective_scopes.allow;
    deny = or_current changes.deny current.effective_scopes.deny;
  })
]

-- What the action reports.
pub record UpdateResult : Type 0 where
  pub updated : Bool
  pub material : Bool
  pub reason : Option String

abbrev pub reported : UpdateResult → Outcome CredentialRecord → Reply UpdateResult
reported u (m, ok r) = (m, ok u)
reported u (m, err e) = (m, err (from_manager e))

unfoldable pub lookup_by_token : Manager → ℕ → String → Reply PublicCredential
lookup_by_token m now token = shown now (get_credential_by_token m now token)

abbrev returned : {A : Type 0} → (CredentialRecord → A) → Outcome CredentialRecord → Reply A
returned f (m, ok r) = (m, ok (f r))
returned f (m, err e) = (m, err (from_manager e))

abbrev ended : CredentialRecord → Unit {0}
ended r = tt

unfoldable pub revoke : Manager → ℕ → String → String → Reply (Unit {0})
revoke m now id reason = returned ended (revoke_credential m now id reason)

-- The scopes that are issued: those of the policy with the given lists, or the given lists.
unfoldable pub issue_scopes : Option Policies → IssueConfig → Result ServiceError ScopeSet
issue_scopes policies config = elim config.policy_id [
  | some policy_id ↦ resolve_policy_scopes policies policy_id config.allow config.deny
  | none ↦ ok (record { allow = or_current config.allow []; deny = or_current config.deny [] })
]

module _ (policy_hash : ScopeSet → List String → String) (config : CredentialManagerConfig) where
  unfoldable pub list : Manager → ℕ → Option String → Manager × List PublicCredential
  list m now operator_id =
      let m' = (sweep_expired config m now).0 in
      (m', map (to_credential_record now) (list_credentials m' operator_id))

  unfoldable pub lookup_credential : Manager → ℕ → String → Reply PublicCredential
  lookup_credential m now id =
      let m' = (sweep_expired config m now).0 in shown now (m', get_credential_by_id m' id)

  unfoldable pub issue : Option Policies → Manager → ℕ → IssueConfig → Draw → Reply IssuedCredential
  issue policies m now cfg draw =
      let m' = (sweep_expired config m now).0 in
      elim (issue_scopes policies cfg) [
        | err e ↦ (m', err e)
        | ok scopes ↦ returned to_issued_credential (
            issue_credential policy_hash config m' now
              (record {
                operator_id = cfg.operator_id;
                chat_ids = cfg.chat_ids;
                scopes = scopes;
                ttl_seconds = cfg.ttl_seconds;
              })
              draw)
      ]

  -- `fingerprint` is the fingerprint of a token.
  unfoldable pub renew : (String → String) → Manager → ℕ → String → Reply Renewed
  renew fingerprint m now id =
      returned
        (λ (r : CredentialRecord). record {
          credential_id = r.credential_id;
          operator_id = r.operator_id;
          fingerprint = fingerprint r.token;
          issued_at = r.issued_at;
          expires_at = r.expires_at;
        })
        (renew_credential config m now id)

  -- The new scopes take effect in place, or the credential is revoked for a new authorization.
  unfoldable pub apply_scopes : Manager → ℕ → String → ScopeSet → Outcome CredentialRecord
  apply_scopes m now id scopes = elim (check_credential_materiality m id scopes) [
    | err e ↦ (m, err e)
    | ok check ↦
        if check.requires_reauthorization
        then revoke_credential m now id "reauthorization-required"
        else update_credential_scopes policy_hash config m id scopes
  ]

  unfoldable pub update : Option Policies → Manager → ℕ → String → Changes → Reply PublicCredential
  update policies m now id changes = elim (get_credential_by_id m id) [
    | err e ↦ (m, err (from_manager e))
    | ok current ↦
        if is_set changes.operator_id || is_set changes.chat_ids || is_set changes.ttl_seconds
        then (m, err unsupported_change)
        else if not (is_set changes.allow || is_set changes.deny || is_set changes.policy_id)
        then (m, ok (to_credential_record now current))
        else elim (next_scopes policies current changes) [
          | err e ↦ (m, err e)
          | ok scopes ↦ shown now (apply_scopes m now id scopes)
        ]
  ]

  -- the action's branches after the check of materiality
  unfoldable pub act : Manager → ℕ → String → ScopeSet → MaterialityCheck → Reply UpdateResult
  act m now id scopes check =
      if check.requires_reauthorization
      then reported (record { updated = false; material = true; reason = check.reason })
          (revoke_credential m now id "reauthorization-required")
      else reported (record { updated = true; material = check.is_material; reason = check.reason })
          (update_credential_scopes policy_hash config m id scopes)

  -- the action's steps after its lookup
  unfoldable pub after_lookup :
      Manager → ℕ → String → ScopeSet → PublicCredential → Reply UpdateResult
  unfolding act
  after_lookup m now id scopes credential =
      if not (is_active credential.status)
      then (m, err (not_active id credential.status))
      else elim (check_credential_materiality m id scopes) [
        | err e ↦ (m, err (from_manager e))
        | ok check ↦ act m now id scopes check
      ]

  -- The handler of `credential.updateScopes`.
  unfoldable pub update_scopes : Manager → ℕ → String → ScopeSet → Reply UpdateResult
  unfolding lookup_credential after_lookup
  update_scopes m now id scopes = elim (lookup_credential m now id).1 [
    | err e ↦ ((lookup_credential m now id).0, err e)
    | ok credential ↦ after_lookup (lookup_credential m now id).0 now id scopes credential
  ]
