-- ===== src/Admin/Elevation/Approvals.antt =====
-- The owner's approvals behind the elevations, over a run of requests.
use mathlib.Core.List.{append_assoc}
use xmtp_broker.Base.{
  ℕ, ◌<◌, String, true, false, List, [], ◌∷◌, ◌++◌, Option, none, some, ◌==◌, eq_iff, ◌≡◌, ◌⊎◌,
  refl, sym, ap, subst, ◌∙◌, get, put, get-put, ok, err, inl, inr, Bool-cases, Option-cases,
  Result-cases,
}
use xmtp_broker.Admin.Elevation.{
  no_approver, refused, Elevation, CachedElevation, ElevationInput, AuditEntry, fail_with, approved,
  denied, refresh_failed, ElevationDeps, Approval, ElevationState, build_cache_key, wanted_chat,
  append_audit, sync_disclosure_approval, sync_disclosure_expiry, entry_of, expire_cached_elevation,
  is_cached_live, new_elevation, grant, ask_owner, resolve_for_request,
}
use xmtp_broker.Admin.Elevation.Laws.{
  IsWanted, IsRecorded, IsApproved, reuse_entry, fail_with-err, resolve_for_request-elevates,
}
use xmtp_broker.Admin.Elevation.Failure.{
  IsNoMore, append_audit-cache, sync_approval-cache, expire-cache, IsNoMore-same, IsNoMore-delete,
  resolve_for_request-fails,
}

-- A request that was made, and what the owner answered.
pub record Asked : Type 0 where
  pub input : ElevationInput
  pub answers : Approval

-- The requests made so far, from a manager that has given nothing; meanwhile elevations may expire.
pub data Requests (deps : ElevationDeps) : ElevationState → List Asked → Type 0 where
  none_yet : (s : ElevationState) → s.cache ≡ [] → Requests deps s []
  asking :
      {s : ElevationState} {past : List Asked} (now : ℕ) (input : ElevationInput)
      (answers : Approval)
      → Requests deps s past
      → Requests deps
          (resolve_for_request deps now s input answers).0
          (past ++ record { input = input; answers = answers } ∷ [])
  expiring :
      {s : ElevationState} {past : List Asked} (now : ℕ) (cached : CachedElevation)
      → Requests deps s past
      → Requests deps (expire_cached_elevation deps now s cached).0 past

-- One of the requests made, which was for a chat and a session with this key, was approved with this
-- elevation.
pub record WasApproved (deps : ElevationDeps) (past : List Asked) (key : String) (given : Elevation)
    : Type 0 where
  pub before : List Asked
  pub after : List Asked
  pub asked : Asked
  pub made : past ≡ before ++ asked ∷ after
  pub chat_id : String
  pub same_key : build_cache_key asked.input.session_key chat_id ≡ key
  pub is_approved : IsApproved deps asked.input chat_id asked.answers given

module _ (deps : ElevationDeps) where
  WasApproved-more :
      (past : List Asked) (next : Asked) (key : String) (given : Elevation)
      → WasApproved deps past key given
      → WasApproved deps (past ++ next ∷ []) key given
  WasApproved-more past next key given was = record {
    before = was.before;
    after = was.after ++ next ∷ [];
    asked = was.asked;
    made =
        ap (λ l. l ++ next ∷ []) was.made
        ∙ append_assoc was.before (was.asked ∷ was.after) (next ∷ []);
    chat_id = was.chat_id;
    same_key = was.same_key;
    is_approved = was.is_approved;
  }

  AllApproved : List (String × CachedElevation) → List Asked → Type 0
  AllApproved cache past =
      (key : String) (cached : CachedElevation)
      → get cache key ≡ some cached
      → WasApproved deps past key cached.elevation

  AllApproved-less :
      (before after : List (String × CachedElevation)) (past : List Asked)
      → IsNoMore before after
      → AllApproved before past
      → AllApproved after past
  unfolding AllApproved
  AllApproved-less before after past less all = λ key cached found. elim (less.kept key) [
    | inl same ↦ all key cached (sym same ∙ found)
    | inr gone ↦ cc (gone, found)
  ]

  AllApproved-more :
      (cache : List (String × CachedElevation)) (past : List Asked) (next : Asked)
      → AllApproved cache past
      → AllApproved cache (past ++ next ∷ [])
  unfolding AllApproved
  AllApproved-more cache past next all =
      λ key cached found. WasApproved-more past next key cached.elevation (all key cached found)

module _ (deps : ElevationDeps) (now : ℕ) where
  grant-cache :
      (s : ElevationState) (next : CachedElevation) (given : Option Elevation)
      → (grant deps now s next).1 ≡ ok given
      → (grant deps now s next).0.cache
        ≡ put s.cache (build_cache_key next.session_key next.chat_id) next
  unfolding grant
  grant-cache s next given gave =
      let synced = sync_disclosure_approval deps now s next in
      let entry = entry_of deps now approved true next in
      let told = append_audit deps now synced.0 entry in
      let kept = append_audit-cache deps now synced.0 entry ∙ sync_approval-cache deps now s next in
      elim (Result-cases synced.1) [
        | inl (f, stuck) ↦
            let (lost, fails) =
              fail_with-err deps now {A = Option Elevation} synced.0
                (entry_of deps now refresh_failed false next) f in
            let failed : (grant deps now s next).1 ≡ err lost = rw (stuck, grant) fails in
            cc (failed, gave)
        | inr (done, clear) ↦ elim (Result-cases told.1) [
          | inr (logged, in_log) ↦
              rw (clear, in_log, grant)
                (ap (λ c. put c (build_cache_key next.session_key next.chat_id) next) kept)
          | inl (lost, not_in_log) ↦
              let back = sync_disclosure_expiry deps now told.0 next in
              elim (Result-cases back.1) [
                | inl (f, stuck) ↦
                    let failed : (grant deps now s next).1 ≡ err f =
                      rw (clear, not_in_log, stuck, grant) in
                    cc (failed, gave)
                | inr (undone, fine) ↦
                    let failed : (grant deps now s next).1 ≡ err lost =
                      rw (clear, not_in_log, fine, grant) in
                    cc (failed, gave)
              ]
        ]
      ]

  -- What the owner approves is all that a request adds to the cache.
  ask_owner-AllApproved :
      (s : ElevationState) (input : ElevationInput) (chat_id : String) (answers : Approval)
      (given : Option Elevation) (past : List Asked)
      → (ask_owner deps now s input.session_key chat_id answers).1 ≡ ok given
      → AllApproved deps s.cache past
      → AllApproved deps
          (ask_owner deps now s input.session_key chat_id answers).0.cache
          (past ++ record { input = input; answers = answers } ∷ [])
  unfolding ask_owner AllApproved
  ask_owner-AllApproved s input chat_id answers given past gave all =
      elim (Bool-cases deps.has_approver) [
        | inr nobody ↦
            let failed : (ask_owner deps now s input.session_key chat_id answers).1
                ≡ err no_approver =
              rw (nobody, ask_owner) in
            cc (failed, gave)
        | inl somebody ↦ elim (Result-cases answers.authorized) [
          | inl (reason, declined) ↦
              let entry : AuditEntry = record {
                action = denied;
                success = false;
                target = chat_id;
                approval_id = none;
              } in
              let (f, fails) =
                fail_with-err deps now {A = Option Elevation} s entry (refused reason) in
              let fails_so : (ask_owner deps now s input.session_key chat_id answers).1
                  ≡ (fail_with deps now {A = Option Elevation} s entry (refused reason)).1 =
                rw (somebody, declined, ask_owner) in
              let failed : (ask_owner deps now s input.session_key chat_id answers).1 ≡ err f =
                fails_so ∙ fails in
              cc (failed, gave)
          | inr (done, agreed) ↦ elim (Result-cases answers.fingerprint) [
            | inl (reason, unsigned) ↦
                let failed : (ask_owner deps now s input.session_key chat_id answers).1
                    ≡ err (refused reason) =
                  simp (somebody, agreed, unsigned, ask_owner) in
                cc (failed, gave)
            | inr (fingerprint, signed) ↦
                let next = new_elevation deps chat_id input.session_key answers fingerprint in
                let own = build_cache_key input.session_key chat_id in
                let is_grant : ask_owner deps now s input.session_key chat_id answers
                    ≡ grant deps now s next =
                  simp (somebody, agreed, signed, ask_owner) in
                let written : (ask_owner deps now s input.session_key chat_id answers).0.cache
                    ≡ put s.cache own next =
                  ap (λ r. r.0.cache) is_grant
                  ∙ grant-cache s next given (ap (λ r. r.1) (sym is_grant) ∙ gave) in
                λ key cached found.
                  let at : get (put s.cache own next) key ≡ some cached =
                    ap (λ c. get c key) (sym written) ∙ found in
                  let reads = get-put s.cache own next key in
                  elim (Bool-cases (own == key)) [
                    | inl here ↦
                        let stored : get (put s.cache own next) key ≡ some next = reads ∙ rw here in
                        let same : next ≡ cached = cc (stored, at) in
                        subst
                          (λ c.
                            WasApproved deps
                              (past ++ record { input = input; answers = answers } ∷ []) key
                              c.elevation)
                          same
                          (record {
                            before = past;
                            after = [];
                            asked = record { input = input; answers = answers };
                            made = refl;
                            chat_id = chat_id;
                            same_key = (eq_iff own key).0 here;
                            is_approved = record {
                              fingerprint = fingerprint;
                              has_approver = somebody;
                              authorized = agreed;
                              signed = signed;
                              approval_id = refl;
                              chat_ids = refl;
                              approved_at = refl;
                              expires_at = refl;
                              key_fingerprint = refl;
                            };
                          })
                    | inr elsewhere ↦
                        let stored : get (put s.cache own next) key ≡ get s.cache key =
                          reads ∙ rw elsewhere in
                        WasApproved-more deps past _ key cached.elevation
                          (all key cached (sym stored ∙ at))
                  ]
          ]
        ]
      ]

  expired-AllApproved :
      (s : ElevationState) (cached : CachedElevation) (past : List Asked)
      → AllApproved deps s.cache past
      → AllApproved deps (expire_cached_elevation deps now s cached).0.cache past
  expired-AllApproved s cached past all =
      AllApproved-less deps s.cache (expire_cached_elevation deps now s cached).0.cache past
        (IsNoMore-delete deps now s.cache (expire_cached_elevation deps now s cached).0.cache
          (build_cache_key cached.session_key cached.chat_id) (expire-cache deps now s cached))
        all

  asked-AllApproved :
      (s : ElevationState) (input : ElevationInput) (answers : Approval) (past : List Asked)
      → AllApproved deps s.cache past
      → AllApproved deps
          (resolve_for_request deps now s input answers).0.cache
          (past ++ record { input = input; answers = answers } ∷ [])
  unfolding resolve_for_request
  asked-AllApproved s input answers past all =
      let next : Asked = record { input = input; answers = answers } in
      let after = (resolve_for_request deps now s input answers).0.cache in
      let kept = λ (less : IsNoMore s.cache after).
        AllApproved-more deps after past next (AllApproved-less deps s.cache after past less all) in
      elim (Result-cases (resolve_for_request deps now s input answers).1) [
        | inl (e, failed) ↦ kept (resolve_for_request-fails deps now s input answers e failed)
        | inr (given, gave) ↦ elim (Option-cases (wanted_chat input)) [
          | inl nothing ↦ kept (IsNoMore-same deps now (rw (nothing, resolve_for_request)))
          | inr (raw, wanted) ↦
              let chat = deps.normalize_chat_id raw in
              elim (Option-cases (get s.cache (build_cache_key input.session_key chat))) [
                | inl absent ↦
                    let asks : resolve_for_request deps now s input answers
                        ≡ ask_owner deps now s input.session_key chat answers =
                      rw (wanted, absent, resolve_for_request) in
                    subst (λ r. AllApproved deps r.0.cache (past ++ next ∷ [])) (sym asks)
                      (ask_owner-AllApproved s input chat answers given past
                        (ap (λ r. r.1) (sym asks) ∙ gave) all)
                | inr (cached, at) ↦ elim (Bool-cases (is_cached_live deps now cached)) [
                  | inl live ↦
                      let entry = reuse_entry deps now chat cached in
                      elim (Result-cases (append_audit deps now s entry).1) [
                        | inl (lost, gone) ↦ kept (
                            IsNoMore-same deps now (
                              rw (wanted, at, live, gone, resolve_for_request)
                                (append_audit-cache deps now s entry)))
                        | inr (done, fine) ↦ kept (
                            IsNoMore-same deps now (
                              rw (wanted, at, live, fine, resolve_for_request)
                                (append_audit-cache deps now s entry)))
                      ]
                  | inr over ↦
                      let rid = expire_cached_elevation deps now s cached in
                      elim (Result-cases rid.1) [
                        | inl (f, stuck) ↦
                            let failed : (resolve_for_request deps now s input answers).1 ≡ err f =
                              rw (wanted, at, over, stuck, resolve_for_request) in
                            cc (failed, gave)
                        | inr (done, clear) ↦
                            let asks : resolve_for_request deps now s input answers
                                ≡ ask_owner deps now rid.0 input.session_key chat answers =
                              rw (wanted, at, over, clear, resolve_for_request) in
                            subst (λ r. AllApproved deps r.0.cache (past ++ next ∷ [])) (sym asks)
                              (ask_owner-AllApproved rid.0 input chat answers given past
                                (ap (λ r. r.1) (sym asks) ∙ gave)
                                (expired-AllApproved s cached past all))
                      ]
                ]
              ]
        ]
      ]

module _ (deps : ElevationDeps) where
  Requests-AllApproved :
      (s : ElevationState) (past : List Asked)
      → Requests deps s past
      → AllApproved deps s.cache past
  unfolding AllApproved
  Requests-AllApproved s past (none_yet s₀ empty) = λ key cached found.
      let nothing : get s.cache key ≡ none = ap (λ c. get c key) empty in cc (nothing, found)
  Requests-AllApproved s past (asking {s = s₀} {past = past₀} now input answers run) =
      asked-AllApproved deps now s₀ input answers past₀ (Requests-AllApproved s₀ past₀ run)
  Requests-AllApproved s past (expiring {s = s₀} now cached run) =
      expired-AllApproved deps now s₀ cached past (Requests-AllApproved s₀ past run)

-- The elevation was approved before, and its time is not over.
pub record IsStillGood (deps : ElevationDeps) (now : ℕ) (past : List Asked) (key : String)
    (given : Elevation) : Type 0 where
  pub was_approved : WasApproved deps past key given
  pub ends_at : ℕ
  pub ends : deps.parse given.expires_at ≡ some ends_at
  pub not_over : now < ends_at

-- With an audit log, after any requests to a manager that had given nothing: a request that comes back
-- with an elevation reads messages, sets the flag and names a chat. The elevation was approved by the
-- owner in this call, for this chat and the configured time; or it was approved so in an earlier
-- request, for a session and a chat that are cached under the same key, and has not run out. The last
-- entry of the audit log is one of a success on this chat under this approval.
pub Requests-elevates :
    (deps : ElevationDeps) (now : ℕ) (s : ElevationState) (past : List Asked)
    (input : ElevationInput) (answers : Approval) (given : Elevation)
    → deps.has_audit_log ≡ true
    → Requests deps s past
    → (resolve_for_request deps now s input answers).1 ≡ ok (some given)
    → (raw : String) × IsWanted input raw
      × (IsRecorded
            (resolve_for_request deps now s input answers).0
            (deps.normalize_chat_id raw)
            given.approval_id
          × (IsStillGood deps now past
                (build_cache_key input.session_key (deps.normalize_chat_id raw))
                given
              ⊎ IsApproved deps input (deps.normalize_chat_id raw) answers given))
unfolding AllApproved
Requests-elevates deps now s past input answers given logged run gave =
    let (raw, wanted, why_recorded) =
      resolve_for_request-elevates deps now s input answers given logged gave in
    let (recorded, why) = why_recorded in
    let all = Requests-AllApproved deps s past run in
    (
      raw,
      wanted,
      (
        recorded,
        elim why [
          | inr approved_now ↦ inr approved_now
          | inl reused ↦ inl (record {
            was_approved = subst (WasApproved deps past _) (sym reused.elevation) (
                all (build_cache_key input.session_key (deps.normalize_chat_id raw)) reused.cached
                  reused.at);
            ends_at = reused.ends_at;
            ends = ap (λ e. deps.parse e.expires_at) reused.elevation ∙ reused.ends;
            not_over = reused.not_over;
          })
        ],
      ),
    )
