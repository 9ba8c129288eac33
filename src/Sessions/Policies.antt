-- ===== src/Sessions/Policies.antt =====
-- packages/sessions/src/policy-manager.ts and `resolvePolicy` of packages/schemas/src/policy.ts:
-- named bundles of scopes. The state is an explicit argument; a new id and the time are arguments.
pub mod Laws
use xmtp_broker.Base.{
  ℕ, String, Bool, true, false, not, ◌&&◌, List, [], ◌∷◌, ◌++◌, Option, none, some, ◌==◌, includes,
  all, get, put, delete, values, if◌then◌else◌, Result, ok, err,
}
use xmtp_broker.Scopes.{ScopeSet, permission_scope_values}

pub record PolicyConfig : Type 0 where
  pub label : String
  pub allow : List String
  pub deny : List String

pub record PolicyRecord : Type 0 where
  pub id : String
  pub config : PolicyConfig
  pub created_at : ℕ
  pub updated_at : ℕ

-- `Partial<PolicyConfigType>`
pub record PolicyChanges : Type 0 where
  pub label : Option String
  pub allow : Option (List String)
  pub deny : Option (List String)

-- the field and the reason of a validation error are left out
pub data PolicyError : Type 0 where
  policy_not_found : String → PolicyError
  policy_invalid : PolicyError

abbrev pub Policies : Type 0
Policies = List (String × PolicyRecord)

-- whether the schema `PolicyConfig` accepts the config
unfoldable pub is_valid_config : PolicyConfig → Bool
is_valid_config c =
    not (c.label == "")
    && all (includes permission_scope_values) c.allow
    && all (includes permission_scope_values) c.deny

unfoldable pub create :
    Policies → ℕ → String → PolicyConfig → Policies × Result PolicyError PolicyRecord
create store now id config = if not (is_valid_config config) then (store, err policy_invalid) else (
  put store id (record { id = id; config = config; created_at = now; updated_at = now }),
  ok (record { id = id; config = config; created_at = now; updated_at = now }),
)

unfoldable pub list : Policies → List PolicyRecord
list store = values store

unfoldable pub lookup : Policies → String → Result PolicyError PolicyRecord
lookup store policy_id = elim (get store policy_id) [
  | none ↦ err (policy_not_found policy_id)
  | some r ↦ ok r
]

abbrev or_else {ℓ} : {A : Type ℓ} → Option A → A → A
or_else none a = a
or_else (some b) a = b

unfoldable pub merged : PolicyConfig → PolicyChanges → PolicyConfig
merged config changes = record {
  label = or_else changes.label config.label;
  allow = or_else changes.allow config.allow;
  deny = or_else changes.deny config.deny;
}

abbrev with_config : PolicyRecord → ℕ → PolicyConfig → PolicyRecord
with_config existing now config = record existing { config = config; updated_at = now }

unfoldable pub update :
    Policies → ℕ → String → PolicyChanges → Policies × Result PolicyError PolicyRecord
update store now policy_id changes = elim (get store policy_id) [
  | none ↦ (store, err (policy_not_found policy_id))
  | some existing ↦
      let config = merged existing.config changes in
      if not (is_valid_config config) then (store, err policy_invalid) else (
        put store policy_id (with_config existing now config),
        ok (with_config existing now config),
      )
]

unfoldable pub remove : Policies → String → Policies × Result PolicyError (Unit {0})
remove store policy_id = elim (get store policy_id) [
  | none ↦ (store, err (policy_not_found policy_id))
  | some r ↦ (delete store policy_id, ok tt)
]

abbrev or_empty : Option (List String) → List String
or_empty none = []
or_empty (some xs) = xs

unfoldable pub resolve_policy :
    PolicyConfig → Option (List String) → Option (List String) → ScopeSet
resolve_policy policy inline_allow inline_deny = record {
  allow = policy.allow ++ or_empty inline_allow;
  deny = policy.deny ++ or_empty inline_deny;
}
