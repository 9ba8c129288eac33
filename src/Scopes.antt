-- ===== src/Scopes.antt =====
-- packages/schemas/src/permission-scopes.ts: the permission scopes, their categories, and the
-- resolution of an allow and a deny list to the effective set. A scope is its text.
pub mod Laws
use xmtp_broker.Base.{String, Bool, List, [], ◌∷◌, ◌≡◌, includes, set_add, set_of, if◌then◌else◌}

pub data ScopeCategory : Type 0 where
  messaging group_management metadata access observation egress : ScopeCategory

abbrev pub permission_scope_values : List String
permission_scope_values =
    "send" ∷ "reply" ∷ "react" ∷ "read-receipt" ∷ "attachment" ∷ "add-member" ∷ "remove-member"
    ∷ "promote-admin" ∷ "demote-admin" ∷ "update-permission" ∷ "update-name" ∷ "update-description"
    ∷ "update-image" ∷ "invite" ∷ "join" ∷ "leave" ∷ "create-group" ∷ "create-dm" ∷ "read-messages"
    ∷ "read-history" ∷ "list-members" ∷ "list-conversations" ∷ "read-permissions"
    ∷ "stream-messages" ∷ "stream-conversations" ∷ "forward-to-provider" ∷ "store-excerpts"
    ∷ "use-for-memory" ∷ "quote-revealed" ∷ "summarize" ∷ []

unfoldable pub scopes_by_category : ScopeCategory → List String
scopes_by_category messaging = "send" ∷ "reply" ∷ "react" ∷ "read-receipt" ∷ "attachment" ∷ []
scopes_by_category group_management =
    "add-member" ∷ "remove-member" ∷ "promote-admin" ∷ "demote-admin" ∷ "update-permission" ∷ []
scopes_by_category metadata = "update-name" ∷ "update-description" ∷ "update-image" ∷ []
scopes_by_category access = "invite" ∷ "join" ∷ "leave" ∷ "create-group" ∷ "create-dm" ∷ []
scopes_by_category observation =
    "read-messages" ∷ "read-history" ∷ "list-members" ∷ "list-conversations" ∷ "read-permissions"
    ∷ "stream-messages" ∷ "stream-conversations" ∷ []
scopes_by_category egress =
    "forward-to-provider" ∷ "store-excerpts" ∷ "use-for-memory" ∷ "quote-revealed" ∷ "summarize"
    ∷ []

-- An allow/deny scope set of a credential, as sent; either list may repeat a scope.
pub record ScopeSet : Type 0 where
  pub allow : List String
  pub deny : List String

-- the loop of `resolveScopeSet`, with the set of denied scopes and the result so far
resolve_from : List String → List String → List String → List String
resolve_from denied result [] = result
resolve_from denied result (scope ∷ rest) =
    resolve_from denied (if includes denied scope then result else set_add result scope) rest

unfoldable pub resolve_scope_set : ScopeSet → List String
unfolding resolve_from
resolve_scope_set scope_set =
    let denied = set_of [] scope_set.deny in resolve_from denied [] scope_set.allow

abbrev pub is_scope_allowed : String → List String → Bool
is_scope_allowed scope resolved = includes resolved scope

pub is_scope_in_category : String → ScopeCategory → Bool
unfolding scopes_by_category
is_scope_in_category scope category = includes (scopes_by_category category) scope
