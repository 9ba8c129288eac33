-- ===== src/Sessions/Operators.antt =====
-- packages/sessions/src/operator-manager.ts: the operators that credentials are issued to. `D` is
-- what the manager does not look at of a config, and `accepts` is the test of the config's schema;
-- the answer of the hook that revokes credentials is an argument, `none` where there is no hook.
pub mod Laws
use xmtp_broker.Base.{
  ℕ, String, Bool, true, false, not, List, [], ◌∷◌, Option, none, some, get, put, values, filter,
  if◌then◌else◌, Result, ok, err,
}

pub data OperatorRole : Type 0 where
  operator admin superadmin : OperatorRole

pub data OperatorStatus : Type 0 where
  active suspended removed : OperatorStatus

pub record OperatorConfig (D : Type 0) : Type 0 where
  pub label : String
  pub role : OperatorRole
  pub details : D

-- `created_by` is always the owner and left out.
pub record OperatorRecord (D : Type 0) : Type 0 where
  pub id : String
  pub config : OperatorConfig D
  pub created_at : ℕ
  pub status : OperatorStatus

-- `Partial<OperatorConfigType>`: what it does to the details is a function.
pub record OperatorChanges (D : Type 0) : Type 0 where
  pub label : Option String
  pub role : Option OperatorRole
  pub details : D → D

pub data OperatorError : Type 0 where
  operator_not_found : String → OperatorError
  operator_invalid : OperatorError
  operator_permission : OperatorError
  revocation_failed : String → OperatorError

abbrev pub Operators : Type 0 → Type 0
Operators D = List (String × OperatorRecord D)

abbrev pub is_superadmin : OperatorRole → Bool
is_superadmin superadmin = true
is_superadmin _ = false

abbrev pub is_removed : OperatorStatus → Bool
is_removed removed = true
is_removed _ = false

abbrev pub asks_superadmin : Option OperatorRole → Bool
asks_superadmin none = false
asks_superadmin (some r) = is_superadmin r

abbrev or_before {ℓ} : {A : Type ℓ} → Option A → A → A
or_before none a = a
or_before (some b) a = b

module _ {D : Type 0} where
  unfoldable pub merged_config : OperatorConfig D → OperatorChanges D → OperatorConfig D
  merged_config config changes = record {
    label = or_before changes.label config.label;
    role = or_before changes.role config.role;
    details = changes.details config.details;
  }

  unfoldable pub create_operator :
      (OperatorConfig D → Bool)
      → Operators D
      → ℕ
      → String
      → OperatorConfig D
      → Operators D × Result OperatorError (OperatorRecord D)
  create_operator accepts store now id config =
      let r : OperatorRecord D = record {
        id = id;
        config = config;
        created_at = now;
        status = active;
      } in
      if not (accepts config)
      then (store, err operator_invalid)
      else if is_superadmin config.role
      then (store, err operator_permission)
      else (put store id r, ok r)

  unfoldable pub list_operators : Operators D → List (OperatorRecord D)
  list_operators store = filter (λ r. not (is_removed r.status)) (values store)

  unfoldable pub lookup_operator : Operators D → String → Result OperatorError (OperatorRecord D)
  lookup_operator store id = elim (get store id) [
    | none ↦ err (operator_not_found id)
    | some r ↦ ok r
  ]

  unfoldable pub update_operator :
      (OperatorConfig D → Bool)
      → Operators D
      → String
      → OperatorChanges D
      → Operators D × Result OperatorError (OperatorRecord D)
  update_operator accepts store id changes = elim (get store id) [
    | none ↦ (store, err (operator_not_found id))
    | some existing ↦
        let config = merged_config existing.config changes in
        if asks_superadmin changes.role
        then (store, err operator_permission)
        else if not (accepts config)
        then (store, err operator_invalid)
        else (
          put store id (record existing { config = config }),
          ok (record existing { config = config }),
        )
  ]

  abbrev pub mark_removed : OperatorRecord D → OperatorRecord D
  mark_removed r = record r { status = removed }

  unfoldable pub remove_operator :
      Operators D
      → String
      → Option (Result String (Unit {0}))
      → Operators D × Result OperatorError (Unit {0})
  remove_operator store id revoked = elim (get store id) [
    | none ↦ (store, err (operator_not_found id))
    | some existing ↦ elim revoked [
      | none ↦ (put store id (mark_removed existing), ok tt)
      | some answer ↦ elim answer [
        | err e ↦ (store, err (revocation_failed e))
        | ok done ↦ (put store id (mark_removed existing), ok tt)
      ]
    ]
  ]
