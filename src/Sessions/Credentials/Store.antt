-- ===== src/Sessions/Credentials/Store.antt =====
-- The records, the maps that hold them, and the steps that the operations share:
-- credential-manager.ts, from `CredentialManagerConfig` to `buildScopeSet`.
pub mod Effects
use xmtp_broker.Base.{
  ℕ, ◌+◌, ◌*◌, String, Bool, true, false, ◌&&◌, ◌||◌, List, [], ◌∷◌, ◌++◌, Option, none, some, get,
  put, set_add, if◌then◌else◌, Result, ok, err,
}
use xmtp_broker.Scopes.{ScopeSet}
use xmtp_broker.Policy.Reveal.{RevealEntry, restore}

pub record CredentialManagerConfig : Type 0 where
  pub default_ttl_seconds : ℕ
  pub max_concurrent_per_operator : ℕ
  pub renewal_window_seconds : ℕ
  pub heartbeat_grace_period : ℕ

abbrev pub default_config : CredentialManagerConfig
default_config = record {
  default_ttl_seconds = 3600;
  max_concurrent_per_operator = 3;
  renewal_window_seconds = 300;
  heartbeat_grace_period = 3;
}

pub data CredentialStatus : Type 0 where
  pending active expired revoked : CredentialStatus

abbrev pub is_active : CredentialStatus → Bool
is_active active = true
is_active _ = false

-- A reason and an issuer are carried along as texts.
pub record CredentialRecord : Type 0 where
  pub credential_id : String
  pub token : String
  pub operator_id : String
  pub chat_ids : List String
  pub effective_scopes : ScopeSet
  pub resolved_scopes : List String
  pub policy_hash : String
  pub status : CredentialStatus
  pub heartbeat_interval : ℕ
  pub last_heartbeat : ℕ
  pub issued_at : ℕ
  pub expires_at : ℕ
  pub issued_by : String
  pub ttl_ms : ℕ
  pub revoked_at : Option ℕ
  pub revocation_reason : Option String

-- The hooks that a call has run, in order.
pub data Hook : Type 0 where
  mutated : String → Hook
  revoked_hook : CredentialRecord → Hook

pub record Manager : Type 0 where
  pub by_id : List (String × CredentialRecord)
  pub by_token : List (String × String)
  pub by_operator : List (String × List String)
  pub reveal_states : List (String × List RevealEntry)
  pub hooks : List Hook

abbrev pub new_manager : Manager
new_manager = record { by_id = []; by_token = []; by_operator = []; reveal_states = []; hooks = [] }

pub data CredentialError : Type 0 where
  not_found : String → CredentialError
  credential_expired : String → CredentialError
  auth : String → CredentialError
  internal : String → CredentialError

abbrev pub ids_of : Option (List String) → List String
ids_of none = []
ids_of (some ids) = ids

unfoldable pub upsert_record : Manager → CredentialRecord → Manager
upsert_record m r = record m {
  by_id = put m.by_id r.credential_id r;
  by_token = put m.by_token r.token r.credential_id;
  by_operator =
      put m.by_operator r.operator_id
        (set_add (ids_of (get m.by_operator r.operator_id)) r.credential_id);
}

-- The fields that some caller of `mutateRecord` passes; the others are always left out.
pub record Updates : Type 0 where
  pub status : Option CredentialStatus
  pub last_heartbeat : Option ℕ
  pub expires_at : Option ℕ
  pub effective_scopes : Option ScopeSet
  pub resolved_scopes : Option (List String)
  pub policy_hash : Option String
  pub revoked_at : Option ℕ
  pub revocation_reason : Option String

abbrev pub no_updates : Updates
no_updates = record {
  status = none;
  last_heartbeat = none;
  expires_at = none;
  effective_scopes = none;
  resolved_scopes = none;
  policy_hash = none;
  revoked_at = none;
  revocation_reason = none;
}

-- `updates.x ?? existing.x`
abbrev pub or_existing {ℓ} : {A : Type ℓ} → Option A → A → A
or_existing none a = a
or_existing (some b) a = b

-- the same for a field that may itself be missing
abbrev pub or_kept {ℓ} : {A : Type ℓ} → Option A → Option A → Option A
or_kept none a = a
or_kept (some b) a = some b

abbrev pub is_given {ℓ} : {A : Type ℓ} → Option A → Bool
is_given none = false
is_given (some b) = true

unfoldable pub merge : CredentialRecord → Updates → CredentialRecord
merge existing u = record existing {
  status = or_existing u.status existing.status;
  last_heartbeat = or_existing u.last_heartbeat existing.last_heartbeat;
  expires_at = or_existing u.expires_at existing.expires_at;
  effective_scopes = or_existing u.effective_scopes existing.effective_scopes;
  resolved_scopes = or_existing u.resolved_scopes existing.resolved_scopes;
  policy_hash = or_existing u.policy_hash existing.policy_hash;
  revoked_at = or_kept u.revoked_at existing.revoked_at;
  revocation_reason = or_kept u.revocation_reason existing.revocation_reason;
}

unfoldable pub policy_changed : Updates → Bool
policy_changed u =
    is_given u.effective_scopes
    || is_given u.status
    || is_given u.revoked_at
    || is_given u.policy_hash

-- An operation's new state and its result.
abbrev pub Outcome : Type 0 → Type 0
Outcome A = Manager × Result CredentialError A

unfoldable pub mutate_record : Manager → String → Updates → Outcome CredentialRecord
unfolding merge policy_changed
mutate_record m credential_id updates = elim (get m.by_id credential_id) [
  | none ↦ (m, err (internal credential_id))
  | some existing ↦
      let updated = merge existing updates in
      (
        record m {
          by_id = put m.by_id credential_id updated;
          hooks = if policy_changed updates then m.hooks ++ mutated credential_id ∷ [] else m.hooks;
        },
        ok updated,
      )
]

-- the loop of `getActiveForOperator`, over the ids of the operator
unfoldable pub active_among : List (String × CredentialRecord) → List String → List CredentialRecord
active_among by_id [] = []
active_among by_id (id ∷ rest) =
    let others = active_among by_id rest in
    elim (get by_id id) [
      | none ↦ others
      | some r ↦ if is_active r.status then r ∷ others else others
    ]

unfoldable pub get_active_for_operator : Manager → String → List CredentialRecord
unfolding active_among
get_active_for_operator m operator_id =
    active_among m.by_id (ids_of (get m.by_operator operator_id))

unfoldable pub cleanup_reveal_state : Manager → String → Manager
cleanup_reveal_state m credential_id = elim (get m.reveal_states credential_id) [
  | none ↦ m
  | some entries ↦ record m {
    reveal_states = put m.reveal_states credential_id (restore entries []);
  }
]

-- the hook that runs after a revocation that succeeded
unfoldable pub after_revoke : Outcome CredentialRecord → Outcome CredentialRecord
after_revoke (m, ok r) = (record m { hooks = m.hooks ++ revoked_hook r ∷ [] }, ok r)
after_revoke (m, err e) = (m, err e)

abbrev pub revocation : ℕ → String → Updates
revocation now reason = record no_updates {
  status = some revoked;
  revoked_at = some now;
  revocation_reason = some reason;
}

unfoldable pub revoke_record : Manager → ℕ → String → String → Outcome CredentialRecord
unfolding mutate_record cleanup_reveal_state after_revoke
revoke_record m now credential_id reason =
    after_revoke
      (mutate_record (cleanup_reveal_state m credential_id) credential_id (revocation now reason))

-- Seconds from the heartbeat to its deadline, in milliseconds.
abbrev pub heartbeat_deadline : CredentialManagerConfig → CredentialRecord → ℕ
heartbeat_deadline config r =
    r.last_heartbeat + r.heartbeat_interval * 1000 + config.heartbeat_grace_period * 1000
