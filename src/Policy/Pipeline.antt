-- ===== src/Policy/Pipeline.antt =====
-- packages/policy/src/pipeline and allowlist.ts: the four stages through which a message passes
-- before a harness sees it. `C` is the decoded content; `none` stands for `null`.
pub mod Laws
use xmtp_broker.Base.{
  String, Bool, true, false, not, ◌&&◌, List, [], ◌∷◌, Option, none, some, includes, set_add,
  set_of, non_empty, if◌then◌else◌,
}

pub data MessageVisibility : Type 0 where
  visible historical hidden revealed redacted : MessageVisibility

-- `is_historical` is `isHistorical === true`, so false where the field is absent.
pub record RawMessage (C : Type 0) : Type 0 where
  pub message_id : String
  pub group_id : String
  pub sender_inbox_id : String
  pub content_type : String
  pub content : Option C
  pub sent_at : String
  pub thread_id : Option String
  pub seal_id : Option String
  pub is_historical : Bool

-- The event `message.visible`.
pub record MessageEvent (C : Type 0) : Type 0 where
  pub message_id : String
  pub group_id : String
  pub sender_inbox_id : String
  pub content_type : String
  pub content : Option C
  pub visibility : MessageVisibility
  pub sent_at : String
  pub seal_id : Option String
  pub thread_id : Option String

pub data ProjectionResult (C : Type 0) : Type 0 where
  emit : MessageEvent C → ProjectionResult C
  drop : ProjectionResult C

pub is_in_scope : {C : Type 0} → RawMessage C → List String → Bool
is_in_scope message chat_ids = includes chat_ids message.group_id

pub is_content_type_allowed : String → List String → Bool
is_content_type_allowed content_type allowlist = includes allowlist content_type

unfoldable pub resolve_visibility : List String → Bool → MessageVisibility
resolve_visibility scopes is_revealed =
    if includes scopes "read-messages" then visible else if is_revealed then revealed else hidden

unfoldable pub project_content : {C : Type 0} → Option C → MessageVisibility → Option C
project_content content visible = content
project_content content historical = content
project_content content revealed = content
project_content content redacted = none
project_content content hidden = none

abbrev is_hidden : MessageVisibility → Bool
is_hidden hidden = true
is_hidden _ = false

-- the last lines of stage 3: a historical message that is visible is marked so
mark_historical : Bool → MessageVisibility → MessageVisibility
mark_historical true visible = historical
mark_historical _ v = v

project_event : {C : Type 0} → RawMessage C → MessageVisibility → MessageEvent C
unfolding project_content
project_event message v = record {
  message_id = message.message_id;
  group_id = message.group_id;
  sender_inbox_id = message.sender_inbox_id;
  content_type = message.content_type;
  content = project_content message.content v;
  visibility = v;
  sent_at = message.sent_at;
  seal_id = message.seal_id;
  thread_id = message.thread_id;
}

unfoldable pub project_message :
    {C : Type 0}
    → RawMessage C
    → List String
    → List String
    → List String
    → Bool
    → ProjectionResult C
unfolding is_in_scope is_content_type_allowed resolve_visibility mark_historical project_event
project_message message scopes chat_ids effective_allowlist is_revealed =
    let base = resolve_visibility scopes is_revealed in
    if not (is_in_scope message chat_ids)
    then drop
    else if not (is_content_type_allowed message.content_type effective_allowlist)
    then drop
    else if is_hidden base
    then drop
    else if message.is_historical && not (includes scopes "read-history")
    then drop
    else emit (project_event message (mark_historical message.is_historical base))

-- the loop of `resolveEffectiveAllowlist`; `none` is the error on an empty intersection
intersect : List String → List String → List String → List String → List String
intersect baseline signet effective [] = effective
intersect baseline signet effective (ct ∷ rest) =
    intersect baseline signet
      (if includes baseline ct && includes signet ct then set_add effective ct else effective) rest

pub resolve_effective_allowlist : List String → List String → List String → Option (List String)
unfolding intersect
resolve_effective_allowlist baseline signet agent =
    let effective = intersect (set_of [] baseline) signet [] agent in
    if non_empty effective then some effective else none
