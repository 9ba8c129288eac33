-- ===== src/Admin/Elevation/Laws.antt =====
-- What stands behind an elevation that a request comes back with.
use xmtp_broker.Base.{
  arith, eq_iff, ◌==◌, ◌+◌, ℕ, String, true, false, List, [], ◌∷◌, ◌++◌, Option, none, some, ◌≡◌,
  ◌⊎◌, refl, sym, ap, subst, ◌∙◌, ◌<◌, ltb, ltb→lt, get, ok, err, inl, inr, Bool-cases,
  Option-cases, Result-cases,
}
use xmtp_broker.Admin.Elevation.{
  audit_failed, no_approver, refused, Elevation, CachedElevation, ElevationInput, AuditEntry,
  reused, refresh_failed, approved, denied, ElevationError, ElevationDeps, Approval, ElevationState,
  build_cache_key, wanted_chat, is_message_read_method, append_audit, sync_disclosure_approval,
  sync_disclosure_expiry, entry_of, fail_with, expire_cached_elevation, is_cached_live,
  new_elevation, grant, ask_owner, resolve_for_request,
}

-- The last entry of the log is one of a success on this chat under this approval.
pub record IsRecorded (s : ElevationState) (chat_id approval_id : String) : Type 0 where
  pub earlier : List AuditEntry
  pub entry : AuditEntry
  pub log : s.audit_log ≡ earlier ++ entry ∷ []
  pub success : entry.success ≡ true
  pub target : entry.target ≡ chat_id
  pub approval : entry.approval_id ≡ some approval_id

-- What a request asks for that is served with an elevation.
pub record IsWanted (input : ElevationInput) (chat : String) : Type 0 where
  pub reads :
      (input.method ≡ "message.list")
      ⊎ ((input.method ≡ "message.info") ⊎ (input.method ≡ "search.messages"))
  pub dangerous : input.dangerous ≡ true
  pub named : input.chat_id ≡ some chat
  pub not_empty : (chat == "") ≡ false

reading :
    (m : String)
    → is_message_read_method m ≡ true
    → (m ≡ "message.list") ⊎ ((m ≡ "message.info") ⊎ (m ≡ "search.messages"))
reading m h = elim (Bool-cases (m == "message.list")) [
  | inl first ↦ inl ((eq_iff m "message.list").0 first)
  | inr a ↦ elim (Bool-cases (m == "message.info")) [
    | inl second ↦ inr (inl ((eq_iff m "message.info").0 second))
    | inr b ↦ elim (Bool-cases (m == "search.messages")) [
      | inl third ↦ inr (inr ((eq_iff m "search.messages").0 third))
      | inr c ↦
          let no : is_message_read_method m ≡ false = rw (a, b, c, is_message_read_method) in
          cc (no, h)
    ]
  ]
]

wanted_chat-IsWanted :
    (input : ElevationInput) (chat : String) → wanted_chat input ≡ some chat → IsWanted input chat
wanted_chat-IsWanted input chat h = elim (Option-cases input.chat_id) [
  | inl unnamed ↦ let nothing : wanted_chat input ≡ none = ground arith in cc (nothing, h)
  | inr (id, named) ↦
      let same : id ≡ chat = ground arith in
      let method : is_message_read_method input.method ≡ true = ground arith in
      record {
        reads = reading input.method method;
        dangerous = ground arith;
        named = named ∙ ap some same;
        not_empty = ground arith;
      }
]

module _ (deps : ElevationDeps) where
  -- The owner approved the elevation in a call with these answers.
  pub record IsApproved (input : ElevationInput) (chat_id : String) (answers : Approval)
      (given : Elevation) : Type 0 where
    pub fingerprint : String
    pub has_approver : deps.has_approver ≡ true
    pub authorized : answers.authorized ≡ ok tt
    pub signed : answers.fingerprint ≡ ok fingerprint
    pub approval_id : given.approval_id ≡ answers.approval_id
    pub chat_ids : given.chat_ids ≡ chat_id ∷ []
    pub approved_at : given.approved_at ≡ deps.iso answers.approved_at
    pub expires_at : given.expires_at ≡ deps.iso (answers.approved_at + deps.ttl_ms)
    pub key_fingerprint : given.approval_key_fingerprint ≡ fingerprint

module _ (deps : ElevationDeps) (now : ℕ) where
  -- An entry is in the log or the call has failed.
  append_audit-cases :
      (s : ElevationState) (entry : AuditEntry)
      → deps.has_audit_log ≡ true
      → ((append_audit deps now s entry).1 ≡ err (audit_failed entry.action))
        ⊎ (((append_audit deps now s entry).1 ≡ ok tt)
            × ((append_audit deps now s entry).0.audit_log ≡ s.audit_log ++ entry ∷ []))
  unfolding append_audit
  append_audit-cases s entry logged = elim (Bool-cases (deps.takes_entry s.calls entry)) [
    | inl takes ↦ inr (rw (logged, takes, append_audit) (refl, refl))
    | inr loses ↦ inl (rw (logged, loses, append_audit))
  ]

  pub fail_with-err :
      {A : Type 0} (s : ElevationState) (entry : AuditEntry) (e : ElevationError)
      → (f : ElevationError) × ((fail_with deps now {A = A} s entry e).1 ≡ err f)
  unfolding fail_with
  fail_with-err s entry e = elim (Result-cases (append_audit deps now s entry).1) [
    | inl (lost, at) ↦ (lost, rw (at, fail_with))
    | inr (done, at) ↦ (e, rw (at, fail_with))
  ]

  -- What the owner's approval gives, if it gives anything.
  grant-ok :
      (s : ElevationState) (next : CachedElevation) (given : Option Elevation)
      → deps.has_audit_log ≡ true
      → (grant deps now s next).1 ≡ ok given
      → (given ≡ some next.elevation)
        × IsRecorded (grant deps now s next).0 next.chat_id next.elevation.approval_id
  unfolding grant
  grant-ok s next given logged gave =
      let synced = (sync_disclosure_approval deps now s next).0 in
      let entry = entry_of deps now approved true next in
      elim (Result-cases (sync_disclosure_approval deps now s next).1) [
        | inl (e, at) ↦
            let (f, fails) =
              fail_with-err {A = Option Elevation} synced
                (entry_of deps now refresh_failed false next) e in
            let failed : (grant deps now s next).1 ≡ err f = rw (at, grant) fails in
            cc (failed, gave)
        | inr (done, at) ↦ elim (append_audit-cases synced entry logged) [
          | inl lost ↦
              let told = (append_audit deps now synced entry).0 in
              elim (Result-cases (sync_disclosure_expiry deps now told next).1) [
                | inl (e, undoing) ↦
                    let failed : (grant deps now s next).1 ≡ err e =
                      rw (at, lost, undoing, grant) in
                    cc (failed, gave)
                | inr (undone, undoing) ↦
                    let failed : (grant deps now s next).1 ≡ err (audit_failed approved) =
                      rw (at, lost, undoing, grant) in
                    cc (failed, gave)
              ]
          | inr (kept, log) ↦
              let granted : (grant deps now s next).1 ≡ ok (some next.elevation) =
                rw (at, kept, grant) in
              let same : given ≡ some next.elevation = cc (granted, gave) in
              let in_log : (grant deps now s next).0.audit_log ≡ synced.audit_log ++ entry ∷ [] =
                rw (at, kept, grant) log in
              (
                same,
                record {
                  earlier = synced.audit_log;
                  entry = entry;
                  log = in_log;
                  success = refl;
                  target = refl;
                  approval = refl;
                },
              )
        ]
      ]

  ask_owner-ok :
      (s : ElevationState) (input : ElevationInput) (chat_id : String) (answers : Approval)
      (given : Option Elevation)
      → deps.has_audit_log ≡ true
      → (ask_owner deps now s input.session_key chat_id answers).1 ≡ ok given
      → (e : Elevation) × (given ≡ some e)
        × IsApproved deps input chat_id answers e
        × IsRecorded
            (ask_owner deps now s input.session_key chat_id answers).0
            chat_id
            e.approval_id
  unfolding ask_owner
  ask_owner-ok s input chat_id answers given logged gave = elim (Bool-cases deps.has_approver) [
    | inr nobody ↦
        let failed : (ask_owner deps now s input.session_key chat_id answers).1 ≡ err no_approver =
          rw (nobody, ask_owner) in
        cc (failed, gave)
    | inl somebody ↦ elim (Result-cases answers.authorized) [
      | inl (reason, declined) ↦
          let (f, fails) =
            fail_with-err {A = Option Elevation} s
              (record { action = denied; success = false; target = chat_id; approval_id = none })
              (refused reason) in
          let fails_so : (ask_owner deps now s input.session_key chat_id answers).1
              ≡ (fail_with deps now {A = Option Elevation} s
                  (record {
                    action = denied;
                    success = false;
                    target = chat_id;
                    approval_id = none;
                  })
                  (refused reason)).1 =
            rw (somebody, declined, ask_owner) in
          let failed : (ask_owner deps now s input.session_key chat_id answers).1 ≡ err f =
            fails_so ∙ fails in
          cc (failed, gave)
      | inr (done, agreed) ↦ elim (Result-cases answers.fingerprint) [
        | inl (reason, declined) ↦
            let failed : (ask_owner deps now s input.session_key chat_id answers).1
                ≡ err (refused reason) =
              simp (somebody, agreed, declined, ask_owner) in
            cc (failed, gave)
        | inr (fingerprint, signed) ↦
            let next = new_elevation deps chat_id input.session_key answers fingerprint in
            let is_grant : ask_owner deps now s input.session_key chat_id answers
                ≡ grant deps now s next =
              simp (somebody, agreed, signed, ask_owner) in
            let (given_is, recorded) =
              grant-ok s next given logged (ap (λ r. r.1) (sym is_grant) ∙ gave) in
            (
              next.elevation,
              given_is,
              record {
                fingerprint = fingerprint;
                has_approver = somebody;
                authorized = agreed;
                signed = signed;
                approval_id = refl;
                chat_ids = refl;
                approved_at = refl;
                expires_at = refl;
                key_fingerprint = refl;
              },
              subst (λ r. IsRecorded r.0 chat_id next.elevation.approval_id) (sym is_grant)
                  recorded,
            )
      ]
    ]
  ]

  -- Or it was given before, to the same session for the same chat, and its time is not over.
  pub record IsReused (s : ElevationState) (input : ElevationInput) (chat_id : String)
      (given : Elevation) : Type 0 where
    pub cached : CachedElevation
    pub at : get s.cache (build_cache_key input.session_key chat_id) ≡ some cached
    pub ends_at : ℕ
    pub ends : deps.parse cached.elevation.expires_at ≡ some ends_at
    pub not_over : now < ends_at
    pub elevation : given ≡ cached.elevation

  is_cached_live-ends :
      (cached : CachedElevation)
      → is_cached_live deps now cached ≡ true
      → (t : ℕ) × (deps.parse cached.elevation.expires_at ≡ some t) × (now < t)
  is_cached_live-ends cached live = elim (Option-cases (deps.parse cached.elevation.expires_at)) [
    | inl unread ↦
        let dead : is_cached_live deps now cached ≡ false = rw (unread, is_cached_live) in
        cc (dead, live)
    | inr (t, ends) ↦
        let same : is_cached_live deps now cached ≡ ltb now t = rw (ends, is_cached_live) in
        (t, ends, ltb→lt now t (sym same ∙ live))
  ]

  asked :
      (s rid : ElevationState) (input : ElevationInput) (chat_id : String) (answers : Approval)
      (given : Elevation)
      → deps.has_audit_log ≡ true
      → resolve_for_request deps now s input answers
        ≡ ask_owner deps now rid input.session_key chat_id answers
      → (resolve_for_request deps now s input answers).1 ≡ ok (some given)
      → IsRecorded (resolve_for_request deps now s input answers).0 chat_id given.approval_id
        × (IsReused s input chat_id given ⊎ IsApproved deps input chat_id answers given)
  asked s rid input chat_id answers given logged asks gave =
      let (e, is_e, approved_by, recorded) =
        ask_owner-ok rid input chat_id answers (some given) logged
          (ap (λ r. r.1) (sym asks) ∙ gave) in
      let same : e ≡ given = cc is_e in
      (
        subst
            (λ x. IsRecorded (resolve_for_request deps now s input answers).0 chat_id x.approval_id)
            same (subst (λ r. IsRecorded r.0 chat_id e.approval_id) (sym asks) recorded),
        inr (subst (IsApproved deps input chat_id answers) same approved_by),
      )

  -- The entry with which an elevation is reused.
  abbrev pub reuse_entry : String → CachedElevation → AuditEntry
  reuse_entry chat_id cached = record {
    action = reused;
    success = true;
    target = chat_id;
    approval_id = some cached.elevation.approval_id;
  }

  IsReused-from :
      (s : ElevationState) (input : ElevationInput) (raw : String) (answers : Approval)
      (given : Elevation) (cached : CachedElevation)
      → deps.has_audit_log ≡ true
      → wanted_chat input ≡ some raw
      → get s.cache (build_cache_key input.session_key (deps.normalize_chat_id raw)) ≡ some cached
      → is_cached_live deps now cached ≡ true
      → (resolve_for_request deps now s input answers).1 ≡ ok (some given)
      → IsRecorded
          (resolve_for_request deps now s input answers).0
          (deps.normalize_chat_id raw)
          given.approval_id
        × (IsReused s input (deps.normalize_chat_id raw) given
            ⊎ IsApproved deps input (deps.normalize_chat_id raw) answers given)
  unfolding resolve_for_request
  IsReused-from s input raw answers given cached logged wanted at live gave =
      let entry = reuse_entry (deps.normalize_chat_id raw) cached in
      elim (append_audit-cases s entry logged) [
        | inl lost ↦
            let failed : (resolve_for_request deps now s input answers).1
                ≡ err (audit_failed reused) =
              rw (wanted, at, live, lost, resolve_for_request) in
            cc (failed, gave)
        | inr (kept, log) ↦
            let returned : (resolve_for_request deps now s input answers).1
                ≡ ok (some cached.elevation) =
              rw (wanted, at, live, kept, resolve_for_request) in
            let in_log : (resolve_for_request deps now s input answers).0.audit_log
                ≡ s.audit_log ++ entry ∷ [] =
              rw (wanted, at, live, kept, resolve_for_request) log in
            let same : cached.elevation ≡ given = cc (returned, gave) in
            let (t, ends, not_over) = is_cached_live-ends cached live in
            (
              record {
                earlier = s.audit_log;
                entry = entry;
                log = in_log;
                success = refl;
                target = refl;
                approval = ap (λ e. some e.approval_id) same;
              },
              inl (record {
                cached = cached;
                at = at;
                ends_at = t;
                ends = ends;
                not_over = not_over;
                elevation = sym same;
              }),
            )
      ]

  -- With an audit log, a request that comes back with an elevation asked for one, by its method, its
  -- flag and its chat; the elevation was approved by the owner in this call, for this chat and the
  -- configured time, or stands in the cache for the session and the chat and has not run out; and the
  -- last entry of the audit log says so.
  pub resolve_for_request-elevates :
      (s : ElevationState) (input : ElevationInput) (answers : Approval) (given : Elevation)
      → deps.has_audit_log ≡ true
      → (resolve_for_request deps now s input answers).1 ≡ ok (some given)
      → (raw : String) × IsWanted input raw
        × (IsRecorded
              (resolve_for_request deps now s input answers).0
              (deps.normalize_chat_id raw)
              given.approval_id
            × (IsReused s input (deps.normalize_chat_id raw) given
                ⊎ IsApproved deps input (deps.normalize_chat_id raw) answers given))
  unfolding resolve_for_request
  resolve_for_request-elevates s input answers given logged gave =
      elim (Option-cases (wanted_chat input)) [
        | inl nothing ↦
            let empty : (resolve_for_request deps now s input answers).1 ≡ ok none =
              rw (nothing, resolve_for_request) in
            cc (empty, gave)
        | inr (raw, wanted) ↦
            let chat = deps.normalize_chat_id raw in
            let key = build_cache_key input.session_key chat in
            elim (Option-cases (get s.cache key)) [
              | inl absent ↦
                  let asks : resolve_for_request deps now s input answers
                      ≡ ask_owner deps now s input.session_key chat answers =
                    rw (wanted, absent, resolve_for_request) in
                  (
                    raw,
                    wanted_chat-IsWanted input raw wanted,
                    asked s s input chat answers given logged asks gave,
                  )
              | inr (cached, at) ↦ elim (Bool-cases (is_cached_live deps now cached)) [
                | inl live ↦ (
                  raw,
                  wanted_chat-IsWanted input raw wanted,
                  IsReused-from s input raw answers given cached logged wanted at live gave,
                )
                | inr over ↦
                    let rid = (expire_cached_elevation deps now s cached).0 in
                    elim (Result-cases (expire_cached_elevation deps now s cached).1) [
                      | inl (e, stuck) ↦
                          let failed : (resolve_for_request deps now s input answers).1 ≡ err e =
                            rw (wanted, at, over, stuck, resolve_for_request) in
                          cc (failed, gave)
                      | inr (done, clear) ↦
                          let asks : resolve_for_request deps now s input answers
                              ≡ ask_owner deps now rid input.session_key chat answers =
                            rw (wanted, at, over, clear, resolve_for_request) in
                          (
                            raw,
                            wanted_chat-IsWanted input raw wanted,
                            asked s rid input chat answers given logged asks gave,
                          )
                    ]
              ]
            ]
      ]
