-- ===== src/Examples/Access.antt =====
-- Scopes, policies, reveals and the message pipeline.
use xmtp_broker.Base.{
  ℕ, ◌+◌, String, true, false, List, [], ◌∷◌, Option, none, some, ◌≡◌, ◌↔◌, Result, ok, is_ok,
  length, any, arith, if◌then◌else◌, ◌==◌,
}
use xmtp_broker.Scopes.{ScopeSet, resolve_scope_set}
use xmtp_broker.Policy.Permissions.{
  validate_egress, validate_group_management, validate_send_reaction, validate_send_message,
  validate_send_reply, scope_guard_check,
}
use xmtp_broker.Policy.Permissions.Laws.{grants, validate-is_ok, scope_guard_check_lem}
use xmtp_broker.Policy.Pipeline.{visible, MessageEvent, emit, project_message}
use xmtp_broker.Policy.Pipeline.Laws.{Admits, IsCopy, project_message-eq-emit_iff}
use xmtp_broker.Policy.Reveal.{
  message, RevealRequest, RevealAccess, RevealEntry, Query, is_expired, is_revealed, expire_stale,
}
use xmtp_broker.Policy.Reveal.Laws.{AnyReveals, is_revealed_iff, expire_stale-is_revealed}
use xmtp_broker.Sessions.Materiality.{check_materiality}
use xmtp_broker.Sessions.Materiality.Laws.{check_materiality-escalation_iff}
use xmtp_broker.Projector.{
  Credential, EventProjectorDeps, message_visible, raw_message, project_event,
}
use xmtp_broker.Projector.Laws.{Receives, project_event_iff, IsShown}

-- `reply` is denied although it is allowed.
abbrev sample_scopes : ScopeSet
sample_scopes = record {
  allow = "send" ∷ "reply" ∷ "read-messages" ∷ [];
  deny = "reply" ∷ "react" ∷ [];
}

abbrev wider_scopes : ScopeSet
wider_scopes = record { allow = "send" ∷ "reply" ∷ "read-messages" ∷ []; deny = [] }

validate-is_ok_example :
    (is_ok (validate_send_message "conv_1" (resolve_scope_set sample_scopes) ("conv_1" ∷ []))
      ≡ true)
    × (is_ok (validate_send_reply "conv_1" (resolve_scope_set sample_scopes) ("conv_1" ∷ []))
        ≡ false)
    × (is_ok (validate_send_reaction "conv_1" (resolve_scope_set sample_scopes) ("conv_1" ∷ []))
        ≡ false)
    × (is_ok (
          validate_group_management "send" "conv_1"
            (resolve_scope_set sample_scopes)
            ("conv_1" ∷ []))
        ≡ true)
    × (is_ok (validate_egress "send" (resolve_scope_set sample_scopes)) ≡ true)
validate-is_ok_example = validate-is_ok sample_scopes "send" "conv_1" ("conv_1" ∷ [])

abbrev sample_lookup : String → Result String ScopeSet
sample_lookup id = ok sample_scopes

scope_guard_check_lem_example :
    scope_guard_check sample_lookup "reply" "cred_1" ≡ ok (grants sample_scopes "reply")
scope_guard_check_lem_example = scope_guard_check_lem sample_lookup "reply" "cred_1"

-- Dates are read as the numbers 10 and 20; others cannot be read.
abbrev sample_date : String → Option ℕ
sample_date t = if t == "t10" then some 10 else if t == "t20" then some 20 else none

abbrev access_until : Option String → RevealAccess
access_until expires = record {
  reveal_id = "r1";
  granted_at = "t10";
  granted_by = "owner";
  expires_at = expires;
}

abbrev reveal_request : RevealRequest
reveal_request = record {
  reveal_id = "r1";
  group_id = "conv_1";
  scope = message;
  target_id = "msg_1";
  requested_by = "op_1";
  expires_at = none;
}

abbrev reveal_entry : RevealEntry
reveal_entry = record { access = access_until (some "t20"); request = reveal_request }

abbrev sample_query : Query
sample_query = record {
  message_id = "msg_1";
  group_id = "conv_1";
  thread_id = none;
  sender_inbox_id = "inbox_1";
  content_type = "text";
  sent_at = "t10";
}

is_revealed_iff_example :
    (is_revealed sample_date (reveal_entry ∷ []) 15 sample_query ≡ true)
    ↔ AnyReveals sample_date 15 sample_query (reveal_entry ∷ [])
is_revealed_iff_example = is_revealed_iff sample_date (reveal_entry ∷ []) 15 sample_query

expire_stale-is_revealed_example :
    (is_revealed sample_date (expire_stale sample_date (reveal_entry ∷ []) 25).0 30 sample_query
      ≡ is_revealed sample_date (reveal_entry ∷ []) 30 sample_query)
    × (length (expire_stale sample_date (reveal_entry ∷ []) 25).0
          + (expire_stale sample_date (reveal_entry ∷ []) 25).1
        ≡ 1)
    × (any
          (λ e. is_expired sample_date e.access.expires_at 25)
          (expire_stale sample_date (reveal_entry ∷ []) 25).0
        ≡ false)
expire_stale-is_revealed_example =
    expire_stale-is_revealed sample_date (reveal_entry ∷ []) 25 30 sample_query (omega arith)

abbrev sample_event : MessageEvent String
sample_event = record {
  message_id = "msg_1";
  group_id = "conv_1";
  sender_inbox_id = "inbox_1";
  content_type = "text";
  content = some "hello";
  visibility = visible;
  sent_at = "t10";
  seal_id = none;
  thread_id = none;
}

abbrev reader_scopes : List String
reader_scopes = resolve_scope_set sample_scopes

project_message-eq-emit_iff_example :
    (project_message (raw_message sample_event) reader_scopes ("conv_1" ∷ []) ("text" ∷ []) false
      ≡ emit sample_event)
    ↔ (Admits (raw_message sample_event) reader_scopes ("conv_1" ∷ []) ("text" ∷ []) false
        × IsCopy (raw_message sample_event) reader_scopes sample_event)
project_message-eq-emit_iff_example =
    project_message-eq-emit_iff (raw_message sample_event) reader_scopes ("conv_1" ∷ [])
      ("text" ∷ []) false sample_event

abbrev sample_credential : Credential
sample_credential = record {
  credential_id = "cred_1";
  effective_scopes = sample_scopes;
  chat_ids = "conv_1" ∷ [];
}

abbrev no_reveals : EventProjectorDeps
no_reveals = record { get_reveal_state = λ id. none; get_chat_ids = none }

project_event_iff_example :
    (project_event sample_date {X = String} no_reveals 15
        (message_visible sample_event)
        sample_credential
      ≡ some (message_visible sample_event))
    ↔ (Receives sample_date no_reveals 15 sample_credential sample_event
        × IsShown sample_credential sample_event sample_event)
project_event_iff_example =
    project_event_iff sample_date no_reveals 15 sample_credential sample_event sample_event

check_materiality-escalation_iff_example :
    ((check_materiality sample_scopes wider_scopes).requires_reauthorization ≡ false)
    ↔ ((x : String) → grants wider_scopes x ≡ true → grants sample_scopes x ≡ true)
check_materiality-escalation_iff_example =
    check_materiality-escalation_iff sample_scopes wider_scopes
