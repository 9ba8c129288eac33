-- ===== src/Projector.antt =====
-- packages/cli/src/ws/event-projector.ts: what a connection of the given credential receives of an
-- event. The reveal store and the chat resolver are arguments, `none` where there is none.
pub mod Laws
use xmtp_broker.Base.{
  ℕ, String, Bool, true, false, List, [], ◌∷◌, Option, none, some, non_empty, if◌then◌else◌,
}
use xmtp_broker.Scopes.{ScopeSet, resolve_scope_set}
use xmtp_broker.Policy.Pipeline.{
  MessageVisibility, historical, RawMessage, MessageEvent, ProjectionResult, emit, drop,
  project_message,
}
use xmtp_broker.Policy.Reveal.{RevealEntry, Query, is_revealed}

-- An event: `message.visible`, or one of the others, `X`.
pub data SignetEvent (C X : Type 0) : Type 0 where
  message_visible : MessageEvent C → SignetEvent C X
  other : X → SignetEvent C X

-- What the projector reads of a credential.
pub record Credential : Type 0 where
  pub credential_id : String
  pub effective_scopes : ScopeSet
  pub chat_ids : List String

pub record EventProjectorDeps : Type 0 where
  pub get_reveal_state : String → Option (List RevealEntry)
  pub get_chat_ids : Option (String → List String)

abbrev pub is_historical_event : MessageVisibility → Bool
is_historical_event historical = true
is_historical_event _ = false

abbrev pub query_of : {C : Type 0} → MessageEvent C → Query
query_of event = record {
  message_id = event.message_id;
  group_id = event.group_id;
  thread_id = event.thread_id;
  sender_inbox_id = event.sender_inbox_id;
  content_type = event.content_type;
  sent_at = event.sent_at;
}

abbrev pub raw_message : {C : Type 0} → MessageEvent C → RawMessage C
raw_message event = record {
  message_id = event.message_id;
  group_id = event.group_id;
  sender_inbox_id = event.sender_inbox_id;
  content_type = event.content_type;
  content = event.content;
  sent_at = event.sent_at;
  thread_id = event.thread_id;
  seal_id = event.seal_id;
  is_historical = is_historical_event event.visibility;
}

abbrev resolved : Option (String → List String) → Credential → List String
resolved none credential = credential.chat_ids
resolved (some f) credential = f credential.credential_id

unfoldable pub chats_of : EventProjectorDeps → Credential → List String
chats_of deps credential =
    let ids = resolved deps.get_chat_ids credential in
    if non_empty ids then ids else credential.chat_ids

abbrev pub entries_of : Option (List RevealEntry) → List RevealEntry
entries_of none = []
entries_of (some entries) = entries

abbrev pub as_event : {C X : Type 0} → ProjectionResult C → Option (SignetEvent C X)
as_event drop = none
as_event (emit e) = some (message_visible e)

module _ (date_ms : String → Option ℕ) where
  abbrev pub revealed_in : Option (List RevealEntry) → ℕ → Query → Bool
  revealed_in none now q = false
  revealed_in (some entries) now q = is_revealed date_ms entries now q

  unfoldable pub project_event :
      {C X : Type 0}
      → EventProjectorDeps
      → ℕ
      → SignetEvent C X
      → Credential
      → Option (SignetEvent C X)
  project_event deps now (other x) credential = some (other x)
  project_event deps now (message_visible event) credential = as_event (
      project_message (raw_message event) (resolve_scope_set credential.effective_scopes)
        (chats_of deps credential) (event.content_type ∷ [])
        (revealed_in (deps.get_reveal_state credential.credential_id) now (query_of event)))
