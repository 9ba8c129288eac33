-- ===== src/Admin/Elevation.antt =====
-- packages/cli/src/admin/read-elevation.ts: the manager that lets an admin read messages of a chat
-- for a time, once the owner has approved. What its dependencies answer is a parameter, by the number
-- of the call: whether the audit log takes an entry, and with which error the seals of the disclosed
-- chats cannot be refreshed. A call reads the clock
-- at its start, `now`, and again once the owner has approved; texts of dates are `iso` of their time.
pub mod Laws
pub mod Failure
pub mod Approvals
use Prim.Native.String
use xmtp_broker.Base.{
  ℕ, ◌+◌, ◌-◌, String, Bool, true, false, not, ◌&&◌, ◌||◌, List, [], ◌∷◌, ◌++◌, Option, none, some,
  ◌==◌, ltb, non_empty, includes, set_add, filter, get, put, delete, Result, ok, err, if◌then◌else◌,
}
use xmtp_broker.Admin.Disclosure.{Disclosure, Entries, set_disclosure, delete_disclosure, restore}

pub record Elevation : Type 0 where
  pub approval_id : String
  pub chat_ids : List String
  pub approved_at : String
  pub expires_at : String
  pub approval_key_fingerprint : String

pub record CachedElevation : Type 0 where
  pub elevation : Elevation
  pub chat_id : String
  pub session_key : String

-- What a request gives; `dangerous` is whether it sets the flag, and the chat is none if it names none.
pub record ElevationInput : Type 0 where
  pub method : String
  pub dangerous : Bool
  pub chat_id : Option String
  pub admin_fingerprint : String
  pub session_key : String

pub data AuditAction : Type 0 where
  reused expired denied refresh_failed approved : AuditAction

pub record AuditEntry : Type 0 where
  pub action : AuditAction
  pub success : Bool
  pub target : String
  pub approval_id : Option String

pub data ElevationError : Type 0 where
  audit_failed : AuditAction → ElevationError
  no_approver : ElevationError
  refused : String → ElevationError
  refresh_error : String → ElevationError
  rollback_failed : String → String → ElevationError

pub record ElevationDeps : Type 0 where
  pub has_approver : Bool
  pub has_audit_log : Bool
  pub has_disclosure_store : Bool
  pub has_change_handler : Bool
  pub actor_id : String
  pub ttl_ms : ℕ
  pub normalize_chat_id : String → String
  pub takes_entry : ℕ → AuditEntry → Bool
  pub refresh_fails : ℕ → List String → Bool → Option String
  pub parse : String → Option ℕ
  pub iso : ℕ → String

-- What the owner answers in a call, and the id and the time that are drawn once it has.
pub record Approval : Type 0 where
  pub authorized : Result String (Unit {0})
  pub fingerprint : Result String String
  pub approval_id : String
  pub approved_at : ℕ

pub record ElevationState : Type 0 where
  pub cache : List (String × CachedElevation)
  pub expiration_timers : List String
  pub disclosures : Entries
  pub audit_log : List AuditEntry
  pub calls : ℕ

abbrev pub is_message_read_method : String → Bool
is_message_read_method method =
    method == "message.list" || method == "message.info" || method == "search.messages"

abbrev pub build_cache_key : String → String → String
build_cache_key session_key chat_id = String.◌++◌ session_key (String.◌++◌ ":" chat_id)

abbrev pub ElevationOutcome : Type 0 → Type 0
ElevationOutcome A = ElevationState × Result ElevationError A

-- the chat of a request that asks for an elevation
abbrev pub wanted_chat : ElevationInput → Option String
wanted_chat input =
    if not (is_message_read_method input.method) || not input.dangerous
    then none
    else elim input.chat_id [ none ↦ none | some id ↦ if id == "" then none else some id ]

abbrev remove_timer : List String → String → List String
remove_timer timers key = filter (λ k. not (k == key)) timers

abbrev pub new_elevation : ElevationDeps → String → String → Approval → String → CachedElevation
new_elevation deps chat_id session_key approval fingerprint = record {
  elevation = record {
    approval_id = approval.approval_id;
    chat_ids = chat_id ∷ [];
    approved_at = deps.iso approval.approved_at;
    expires_at = deps.iso (approval.approved_at + deps.ttl_ms);
    approval_key_fingerprint = fingerprint;
  };
  chat_id = chat_id;
  session_key = session_key;
}

module _ (deps : ElevationDeps) (now : ℕ) where
  unfoldable pub append_audit : ElevationState → AuditEntry → ElevationOutcome (Unit {0})
  append_audit s entry =
      if not deps.has_audit_log
      then (s, ok tt)
      else if deps.takes_entry s.calls entry
      then (record s { audit_log = s.audit_log ++ entry ∷ []; calls = s.calls + 1 }, ok tt)
      else (record s { calls = s.calls + 1 }, err (audit_failed entry.action))

  unfoldable pub notify_disclosure_changed :
      ElevationState → List String → Bool → ElevationState × Option String
  notify_disclosure_changed s chat_ids include_expired =
      if not deps.has_change_handler || not (non_empty chat_ids)
      then (s, none)
      else (record s { calls = s.calls + 1 }, deps.refresh_fails s.calls chat_ids include_expired)

  abbrev disclosure_of : CachedElevation → Disclosure
  disclosure_of cached = record {
    operator_id = deps.actor_id;
    expires_at = cached.elevation.expires_at;
  }

  abbrev rolled_back : ElevationState × Option String → String → ElevationOutcome (Unit {0})
  rolled_back (s, none) reason = (s, err (refresh_error reason))
  rolled_back (s, some again) reason = (s, err (rollback_failed reason again))

  unfoldable pub sync_disclosure_approval :
      ElevationState → CachedElevation → ElevationOutcome (Unit {0})
  unfolding notify_disclosure_changed
  sync_disclosure_approval s cached =
      if not deps.has_disclosure_store
      then (s, ok tt)
      else (let chats = cached.chat_id ∷ [] in
          let (entries, changed) =
            set_disclosure deps.parse now s.disclosures chats cached.session_key
              (disclosure_of cached) in
          let (told, failure) =
            notify_disclosure_changed (record s { disclosures = entries }) changed false in
          elim failure [
            | none ↦ (told, ok tt)
            | some reason ↦
                let (back, undone) =
                  delete_disclosure deps.parse now told.disclosures chats cached.session_key in
                rolled_back
                  (notify_disclosure_changed (record told { disclosures = back }) undone false)
                  reason
          ])

  unfoldable pub sync_disclosure_expiry :
      ElevationState → CachedElevation → ElevationOutcome (Unit {0})
  unfolding notify_disclosure_changed
  sync_disclosure_expiry s cached =
      if not deps.has_disclosure_store
      then (s, ok tt)
      else (let chats = cached.chat_id ∷ [] in
          let (entries, changed) =
            delete_disclosure deps.parse now s.disclosures chats cached.session_key in
          let (told, failure) =
            notify_disclosure_changed (record s { disclosures = entries }) changed false in
          elim failure [
            | none ↦ (told, ok tt)
            | some reason ↦
                let back =
                  restore told.disclosures chats cached.session_key (disclosure_of cached) in
                rolled_back
                  (notify_disclosure_changed (record told { disclosures = back }) chats true) reason
          ])

  abbrev entry_of : AuditAction → Bool → CachedElevation → AuditEntry
  entry_of action success cached = record {
    action = action;
    success = success;
    target = cached.chat_id;
    approval_id = some cached.elevation.approval_id;
  }

  -- an error that is told to the audit log before it is returned
  unfoldable pub fail_with :
      {A : Type 0} → ElevationState → AuditEntry → ElevationError → ElevationOutcome A
  unfolding append_audit
  fail_with s entry e =
      let (told, result) = append_audit s entry in
      elim result [ err lost ↦ (told, err lost) | ok done ↦ (told, err e) ]

  unfoldable pub expire_cached_elevation :
      ElevationState → CachedElevation → ElevationOutcome (Unit {0})
  unfolding sync_disclosure_expiry append_audit fail_with
  expire_cached_elevation s cached =
      let key = build_cache_key cached.session_key cached.chat_id in
      let cleared = record s {
        cache = delete s.cache key;
        expiration_timers = remove_timer s.expiration_timers key;
      } in
      let (synced, disclosure_result) = sync_disclosure_expiry cleared cached in
      let (told, expired_audit) = append_audit synced (entry_of expired true cached) in
      elim disclosure_result [
        | err e ↦ fail_with told (entry_of refresh_failed false cached) e
        | ok done ↦ (told, expired_audit)
      ]

  abbrev is_cached_live : CachedElevation → Bool
  is_cached_live cached = elim (deps.parse cached.elevation.expires_at) [
    | none ↦ false
    | some t ↦ ltb now t
  ]

  -- once the owner has approved
  unfoldable pub grant : ElevationState → CachedElevation → ElevationOutcome (Option Elevation)
  unfolding sync_disclosure_approval sync_disclosure_expiry append_audit fail_with
  grant s next =
      let (synced, disclosure_result) = sync_disclosure_approval s next in
      elim disclosure_result [
        | err e ↦ fail_with synced (entry_of refresh_failed false next) e
        | ok done ↦
            let (told, audit_result) = append_audit synced (entry_of approved true next) in
            elim audit_result [
              | err lost ↦
                  let (back, rollback) = sync_disclosure_expiry told next in
                  elim rollback [ err e ↦ (back, err e) | ok undone ↦ (back, err lost) ]
              | ok logged ↦
                  let key = build_cache_key next.session_key next.chat_id in
                  (
                    record told {
                      cache = put told.cache key next;
                      expiration_timers = set_add told.expiration_timers key;
                    },
                    ok (some next.elevation),
                  )
            ]
      ]

  -- from the approver on
  unfoldable pub ask_owner :
      ElevationState → String → String → Approval → ElevationOutcome (Option Elevation)
  unfolding grant fail_with
  ask_owner s session_key chat_id approval =
      if not deps.has_approver then (s, err no_approver) else elim approval.authorized [
        | err reason ↦
            fail_with s
              (record { action = denied; success = false; target = chat_id; approval_id = none })
              (refused reason)
        | ok done ↦ elim approval.fingerprint [
          | err reason ↦ (s, err (refused reason))
          | ok fingerprint ↦ grant s (new_elevation deps chat_id session_key approval fingerprint)
        ]
      ]

  unfoldable pub resolve_for_request :
      ElevationState → ElevationInput → Approval → ElevationOutcome (Option Elevation)
  unfolding append_audit expire_cached_elevation ask_owner
  resolve_for_request s input approval = elim (wanted_chat input) [
    | none ↦ (s, ok none)
    | some raw ↦
        let chat_id = deps.normalize_chat_id raw in
        elim (get s.cache (build_cache_key input.session_key chat_id)) [
          | none ↦ ask_owner s input.session_key chat_id approval
          | some cached ↦
              if is_cached_live cached
              then (let (told, audit_result) = append_audit s (record {
                action = reused;
                success = true;
                target = chat_id;
                approval_id = some cached.elevation.approval_id;
              }) in
                  elim audit_result [
                    | err lost ↦ (told, err lost)
                    | ok done ↦ (told, ok (some cached.elevation))
                  ])
              else (let (rid, result) = expire_cached_elevation s cached in
                  elim result [
                    | err e ↦ (rid, err e)
                    | ok done ↦ ask_owner rid input.session_key chat_id approval
                  ])
        ]
  ]
