-- ===== src/Projector/Laws.antt =====
-- Who receives a message, from the scopes, the chats and the reveals of the credential.
use xmtp_broker.Base.{
  ℕ, String, Bool, true, false, List, [], ◌∷◌, Option, none, some, ◌≡◌, sym, ◌∙◌, includes, eq_refl,
  arith, ◌⊎◌, ◌↔◌, ◌≢◌, inl, inr, ap, refl, Option-cases, non_empty, if◌then◌else◌,
}
use xmtp_broker.Scopes.{resolve_scope_set}
use xmtp_broker.Scopes.Laws.{resolve_scope_set-deny_wins}
use xmtp_broker.Policy.Permissions.Laws.{grants}
use xmtp_broker.Policy.Pipeline.{
  MessageVisibility, visible, historical, revealed, MessageEvent, ProjectionResult, emit, drop,
  project_message,
}
use xmtp_broker.Policy.Pipeline.Laws.{Admits, IsCopy, project_message-eq-emit_iff}
use xmtp_broker.Policy.Reveal.{RevealEntry, Query}
use xmtp_broker.Policy.Reveal.Laws.{AnyReveals, is_revealed_iff}
use xmtp_broker.Projector.{
  message_visible, Credential, EventProjectorDeps, query_of, raw_message, is_historical_event,
  as_event, revealed_in, chats_of, entries_of, project_event,
}

-- What a reveal is asked about, of an event.
abbrev pub asked : {C : Type 0} → MessageEvent C → Query
asked event = record {
  message_id = event.message_id;
  group_id = event.group_id;
  thread_id = event.thread_id;
  sender_inbox_id = event.sender_inbox_id;
  content_type = event.content_type;
  sent_at = event.sent_at;
}

-- The chats of the credential: those that the resolver gives, or its own where it gives none or
-- there is no resolver.
abbrev pub IsChat : EventProjectorDeps → Credential → String → Type 0
IsChat deps credential chat = elim deps.get_chat_ids [
  | none ↦ includes credential.chat_ids chat ≡ true
  | some resolver ↦
      (includes (resolver credential.credential_id) chat ≡ true)
      ⊎ ((resolver credential.credential_id ≡ []) × (includes credential.chat_ids chat ≡ true))
]

-- Why the credential may see the message: its scopes, or a reveal that it holds and that covers it.
abbrev MaySee :
    {C : Type 0}
    → (String → Option ℕ)
    → EventProjectorDeps
    → ℕ
    → Credential
    → MessageEvent C
    → Type 0
MaySee date_ms deps now credential event =
    (grants credential.effective_scopes "read-messages" ≡ true)
    ⊎ AnyReveals date_ms now (asked event)
        (entries_of (deps.get_reveal_state credential.credential_id))

-- When the connection receives the message.
pub record Receives {C : Type 0} (date_ms : String → Option ℕ) (deps : EventProjectorDeps) (now : ℕ)
    (credential : Credential) (event : MessageEvent C) : Type 0 where
  pub in_chat : IsChat deps credential event.group_id
  pub may_see : MaySee date_ms deps now credential event
  pub history :
      (event.visibility ≢ historical) ⊎ (grants credential.effective_scopes "read-history" ≡ true)

-- What a connection gets of an event: each field as it is, and the label that says why.
pub record IsShown {C : Type 0} (credential : Credential) (event out : MessageEvent C)
    : Type 0 where
  pub message_id : out.message_id ≡ event.message_id
  pub group_id : out.group_id ≡ event.group_id
  pub sender : out.sender_inbox_id ≡ event.sender_inbox_id
  pub content_type : out.content_type ≡ event.content_type
  pub content : out.content ≡ event.content
  pub sent_at : out.sent_at ≡ event.sent_at
  pub seal_id : out.seal_id ≡ event.seal_id
  pub thread_id : out.thread_id ≡ event.thread_id
  pub label : out.visibility ≡ (
      if grants credential.effective_scopes "read-messages"
      then (if is_historical_event event.visibility then historical else visible)
      else revealed)

chosen-IsChat :
    (ids own : List String) (chat : String)
    → (includes (if non_empty ids then ids else own) chat ≡ true)
      ↔ ((includes ids chat ≡ true) ⊎ ((ids ≡ []) × (includes own chat ≡ true)))
chosen-IsChat [] own chat =
    (λ h. inr (refl, h), λ h. elim h [ inl none_here ↦ cc none_here | inr (e, found) ↦ found ])
chosen-IsChat (i ∷ ids) own chat =
    (λ h. inl h, λ h. elim h [ inl found ↦ found | inr (e, found) ↦ cc e ])

chats_of-IsChat :
    (deps : EventProjectorDeps) (credential : Credential) (chat : String)
    → (includes (chats_of deps credential) chat ≡ true) ↔ IsChat deps credential chat
unfolding chats_of
chats_of-IsChat deps credential chat = elim (Option-cases deps.get_chat_ids) [
  | inl no_resolver ↦ rw (no_resolver, chats_of) (λ h. ground arith, λ h. ground arith)
  | inr (resolver, e) ↦
      rw (e, chats_of) (chosen-IsChat (resolver credential.credential_id) credential.chat_ids chat)
]

is_historical_event_iff :
    (v : MessageVisibility) → (is_historical_event v ≡ false) ↔ (v ≢ historical)
is_historical_event_iff v = (λ h e. ground arith, λ h. ground arith)

as_event-eq :
    {C X : Type 0}
    → (p : ProjectionResult C) (out : MessageEvent C)
    → (as_event {X = X} p ≡ some (message_visible out)) ↔ (p ≡ emit out)
as_event-eq drop out = (λ h. cc, λ h. cc)
as_event-eq (emit e) out = (λ h. ground arith, λ h. ground arith)

module _ (date_ms : String → Option ℕ) (deps : EventProjectorDeps) (now : ℕ)
    (credential : Credential) {C : Type 0} (event : MessageEvent C) where
  abbrev scopes : List String
  scopes = resolve_scope_set credential.effective_scopes

  abbrev is_open : Bool
  is_open =
      revealed_in date_ms (deps.get_reveal_state credential.credential_id) now (query_of event)

  revealed_in_iff :
      (entries : Option (List RevealEntry)) (q : Query)
      → (revealed_in date_ms entries now q ≡ true) ↔ AnyReveals date_ms now q (entries_of entries)
  revealed_in_iff none q = (λ h. cc, λ a. elim a [ ])
  revealed_in_iff (some entries) q = is_revealed_iff date_ms entries now q

  Admits-Receives :
      Admits (raw_message event) scopes (chats_of deps credential) (event.content_type ∷ []) is_open
      ↔ Receives date_ms deps now credential event
  Admits-Receives = (
    λ a. record {
      in_chat = (chats_of-IsChat deps credential event.group_id).0 a.in_chat;
      may_see = elim a.readable [
        | inl scope ↦ inl (read "read-messages" ∙ scope)
        | inr shown ↦ inr ((revealed_in_iff held (query_of event)).0 shown)
      ];
      history = elim a.history [
        | inl new ↦ inl ((is_historical_event_iff event.visibility).0 new)
        | inr scope ↦ inr (read "read-history" ∙ scope)
      ];
    },
    λ r. record {
      in_chat = (chats_of-IsChat deps credential event.group_id).1 r.in_chat;
      allowed = ground (arith, eq_refl event.content_type);
      readable = elim r.may_see [
        | inl scope ↦ inl (sym (read "read-messages") ∙ scope)
        | inr some_reveal ↦ inr ((revealed_in_iff held (query_of event)).1 some_reveal)
      ];
      history = elim r.history [
        | inl new ↦ inl ((is_historical_event_iff event.visibility).1 new)
        | inr scope ↦ inr (sym (read "read-history") ∙ scope)
      ];
    },
  )
    where
      held : Option (List RevealEntry)
      held = deps.get_reveal_state credential.credential_id

      read : (scope : String) → grants credential.effective_scopes scope ≡ includes scopes scope
      read scope = sym (resolve_scope_set-deny_wins credential.effective_scopes scope)

  IsCopy-IsShown :
      (out : MessageEvent C) → IsCopy (raw_message event) scopes out ↔ IsShown credential event out
  IsCopy-IsShown out =
      let read = resolve_scope_set-deny_wins credential.effective_scopes "read-messages" in
      (
        λ c. record {
          message_id = c.message_id;
          group_id = c.group_id;
          sender = c.sender;
          content_type = c.content_type;
          content = c.content;
          sent_at = c.sent_at;
          seal_id = c.seal_id;
          thread_id = c.thread_id;
          label = c.label ∙ labelled read;
        },
        λ c. record {
          message_id = c.message_id;
          group_id = c.group_id;
          sender = c.sender;
          content_type = c.content_type;
          content = c.content;
          sent_at = c.sent_at;
          seal_id = c.seal_id;
          thread_id = c.thread_id;
          label = c.label ∙ sym (labelled read);
        },
      )
    where
      labelled :
          {a b : Bool}
          → a ≡ b
          → (if a
              then (if is_historical_event event.visibility then historical else visible)
              else revealed)
            ≡ (if b
                then (if is_historical_event event.visibility then historical else visible)
                else revealed)
      labelled e =
          ap
            (λ b.
              if b
              then (if is_historical_event event.visibility then historical else visible)
              else revealed)
            e

  -- A connection receives a message exactly if the message is in a chat of its credential, the
  -- credential's scopes grant read-messages or a live reveal that it holds covers the message, and,
  -- for a historical message, they also grant read-history; it then receives the message with each
  -- field unchanged but the label, which is "revealed" without read-messages, and else says whether
  -- the message is historical.
  pub project_event_iff :
      {X : Type 0}
      → (out : MessageEvent C)
      → (project_event date_ms {X = X} deps now (message_visible event) credential
          ≡ some (message_visible out))
        ↔ (Receives date_ms deps now credential event × IsShown credential event out)
  unfolding project_event
  project_event_iff out =
      let p =
        project_message (raw_message event) scopes (chats_of deps credential)
          (event.content_type ∷ []) is_open in
      let pipeline =
        project_message-eq-emit_iff (raw_message event) scopes (chats_of deps credential)
          (event.content_type ∷ []) is_open out in
      (
        λ h.
            let (a, c) = pipeline.0 ((as_event-eq p out).0 h) in
            (Admits-Receives.0 a, (IsCopy-IsShown out).0 c),
        λ (r, c).
            (as_event-eq p out).1 (pipeline.1 (Admits-Receives.1 r, (IsCopy-IsShown out).1 c)),
      )
