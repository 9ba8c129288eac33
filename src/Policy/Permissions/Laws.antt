-- ===== src/Policy/Permissions/Laws.antt =====
-- What the checks grant on the scope set that a credential was issued with.
use mathlib.Core.Bool.{not}
use xmtp_broker.Base.{
  String, Bool, ◌&&◌, List, ◌≡◌, inl, inr, includes, Result, ok, err, is_ok, Result-cases, arith,
}
use xmtp_broker.Scopes.{ScopeSet, resolve_scope_set}
use xmtp_broker.Scopes.Laws.{resolve_scope_set-deny_wins}
use xmtp_broker.Policy.Permissions.{
  validate_egress, validate_group_management, validate_send_reaction, validate_send_message,
  validate_send_reply, scope_guard_check,
}

-- The scope is allowed and not denied.
abbrev pub grants : ScopeSet → String → Bool
grants s scope = includes s.allow scope && not (includes s.deny scope)

-- Each check of an action in a chat passes exactly if the credential has the chat and its scope set
-- grants the scope of that action (send, reply, react, or the one named); the check of egress
-- passes exactly if the scope set grants the scope. The scopes are those that the set resolves to.
pub validate-is_ok :
    (s : ScopeSet) (scope chat : String) (chats : List String)
    → (is_ok (validate_send_message chat (resolve_scope_set s) chats)
        ≡ (includes chats chat && grants s "send"))
      × (is_ok (validate_send_reply chat (resolve_scope_set s) chats)
          ≡ (includes chats chat && grants s "reply"))
      × (is_ok (validate_send_reaction chat (resolve_scope_set s) chats)
          ≡ (includes chats chat && grants s "react"))
      × (is_ok (validate_group_management scope chat (resolve_scope_set s) chats)
          ≡ (includes chats chat && grants s scope))
      × (is_ok (validate_egress scope (resolve_scope_set s)) ≡ grants s scope)
unfolding validate_egress validate_group_management validate_send_reaction validate_send_message
    validate_send_reply
validate-is_ok s scope chat chats = (
  ground (arith, resolve_scope_set-deny_wins s "send"),
  ground (arith, resolve_scope_set-deny_wins s "reply"),
  ground (arith, resolve_scope_set-deny_wins s "react"),
  ground (arith, resolve_scope_set-deny_wins s scope),
  ground (arith, resolve_scope_set-deny_wins s scope),
)

-- The answer for the scope set that a lookup returns.
abbrev answer : {E : Type 0} → Result E ScopeSet → String → Result E Bool
answer (ok s) scope = ok (grants s scope)
answer (err e) scope = err e

-- The guard answers as the scope set that the lookup returns decides, deny first, and passes on the
-- error of a lookup that fails.
pub scope_guard_check_lem :
    {E : Type 0} (lookup : String → Result E ScopeSet) (scope credential : String)
    → scope_guard_check lookup scope credential ≡ answer (lookup credential) scope
unfolding scope_guard_check
scope_guard_check_lem lookup scope credential = elim (Result-cases (lookup credential)) [
  | inl (f, e) ↦ rw e
  | inr (s, e) ↦ rw e (ground (arith, resolve_scope_set-deny_wins s scope))
]
