-- ===== src/Policy/Permissions.antt =====
-- packages/policy/src/permissions and scope-guard.ts: the checks in front of each action. The
-- lookup of a credential's scopes is an argument, as it is in the source.
pub mod Laws
use xmtp_broker.Base.{
  String, Bool, true, false, List, includes, if◌then◌else◌, Result, ok, err, ◌>>=◌, ◌>>◌, guard,
}
use xmtp_broker.Scopes.{ScopeSet, resolve_scope_set}

-- The two ways in which a check refuses, with the context that it reports.
pub data PermissionError : Type 0 where
  not_in_chat : String → PermissionError
  denied : String → PermissionError

unfoldable pub check_chat_in_scope : String → List String → Result PermissionError (Unit {0})
check_chat_in_scope chat_id chat_ids =
    if includes chat_ids chat_id then ok tt else err (not_in_chat chat_id)

pub validate_egress : String → List String → Result PermissionError (Unit {0})
validate_egress scope scopes = if includes scopes scope then ok tt else err (denied scope)

pub validate_group_management :
    String → String → List String → List String → Result PermissionError (Unit {0})
unfolding check_chat_in_scope
validate_group_management scope group_id scopes chat_ids = do
  check_chat_in_scope group_id chat_ids
  guard (includes scopes scope) (denied scope)

pub validate_send_reaction : String → List String → List String → Result PermissionError (Unit {0})
unfolding check_chat_in_scope
validate_send_reaction group_id scopes chat_ids = do
  check_chat_in_scope group_id chat_ids
  guard (includes scopes "react") (denied "react")

pub record SendValidation : Type 0 where
  pub draft_only : Bool

pub validate_send_message :
    String → List String → List String → Result PermissionError SendValidation
unfolding check_chat_in_scope
validate_send_message group_id scopes chat_ids = do
  check_chat_in_scope group_id chat_ids
  guard (includes scopes "send") (denied "send")
  ok (record { draft_only = false })

pub validate_send_reply : String → List String → List String → Result PermissionError (Unit {0})
unfolding check_chat_in_scope
validate_send_reply group_id scopes chat_ids = do
  check_chat_in_scope group_id chat_ids
  guard (includes scopes "reply") (denied "reply")

-- `createScopeGuard(lookup).check`
pub scope_guard_check :
    {E : Type 0} → (String → Result E ScopeSet) → String → String → Result E Bool
scope_guard_check lookup scope credential_id = do
  scopes ← lookup credential_id
  ok (includes (resolve_scope_set scopes) scope)
