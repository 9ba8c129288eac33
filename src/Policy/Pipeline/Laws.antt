-- ===== src/Policy/Pipeline/Laws.antt =====
-- What reaches a harness, and as what.
use xmtp_broker.Base.{
  String, Bool, true, false, List, ◌≡◌, includes, if◌then◌else◌, arith, ◌↔◌, ◌⊎◌,
}
use xmtp_broker.Policy.Pipeline.{
  visible, historical, revealed, RawMessage, MessageEvent, emit, project_message,
}

-- When a message may reach a harness, with no mention of stages.
pub record Admits {C : Type 0} (m : RawMessage C) (scopes chats allowlist : List String)
    (is_revealed : Bool) : Type 0 where
  pub in_chat : includes chats m.group_id ≡ true
  pub allowed : includes allowlist m.content_type ≡ true
  pub readable : (includes scopes "read-messages" ≡ true) ⊎ (is_revealed ≡ true)
  pub history : (m.is_historical ≡ false) ⊎ (includes scopes "read-history" ≡ true)

-- What it then receives: the message itself, never redacted, with a label that says why.
pub record IsCopy {C : Type 0} (m : RawMessage C) (scopes : List String) (e : MessageEvent C)
    : Type 0 where
  pub message_id : e.message_id ≡ m.message_id
  pub group_id : e.group_id ≡ m.group_id
  pub sender : e.sender_inbox_id ≡ m.sender_inbox_id
  pub content_type : e.content_type ≡ m.content_type
  pub content : e.content ≡ m.content
  pub sent_at : e.sent_at ≡ m.sent_at
  pub seal_id : e.seal_id ≡ m.seal_id
  pub thread_id : e.thread_id ≡ m.thread_id
  pub label : e.visibility ≡ (
      if includes scopes "read-messages"
      then (if m.is_historical then historical else visible)
      else revealed)

module _ {C : Type 0} (m : RawMessage C) (scopes chats allowlist : List String)
    (is_revealed : Bool) where
  project_message_sound :
      (e : MessageEvent C)
      → project_message m scopes chats allowlist is_revealed ≡ emit e
      → Admits m scopes chats allowlist is_revealed × IsCopy m scopes e
  unfolding project_message
  project_message_sound e h = ground arith

  project_message_complete :
      (e : MessageEvent C)
      → Admits m scopes chats allowlist is_revealed
      → IsCopy m scopes e
      → project_message m scopes chats allowlist is_revealed ≡ emit e
  unfolding project_message
  project_message_complete e a c = ground arith

  -- The pipeline emits an event exactly if the chat is in scope, the content type is allowed, the
  -- credential may read messages or holds a reveal, and, for a historical message, it may also read
  -- history; the event is then the message with its content unchanged, labelled historical or
  -- visible under the scope read-messages and revealed without it.
  pub project_message-eq-emit_iff :
      (e : MessageEvent C)
      → (project_message m scopes chats allowlist is_revealed ≡ emit e)
        ↔ (Admits m scopes chats allowlist is_revealed × IsCopy m scopes e)
  project_message-eq-emit_iff e = (project_message_sound e, λ p. project_message_complete e p.0 p.1)
