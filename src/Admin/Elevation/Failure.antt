-- ===== src/Admin/Elevation/Failure.antt =====
-- What a request that fails does to the cache.
use xmtp_broker.Base.{
  ℕ, String, Bool, true, false, List, [], ◌∷◌, Option, none, some, ◌==◌, ◌≡◌, ◌⊎◌, refl, sym, ap,
  ◌∙◌, get, delete, get-delete, ok, err, arith, inl, inr, Bool-cases, Option-cases, Result-cases,
}
use xmtp_broker.Admin.Disclosure.{set_disclosure, delete_disclosure, restore}
use xmtp_broker.Admin.Elevation.Laws.{reuse_entry}
use xmtp_broker.Admin.Elevation.{
  remove_timer, disclosure_of, refused, Elevation, CachedElevation, ElevationInput, AuditEntry,
  refresh_failed, approved, denied, expired, ElevationError, ElevationDeps, Approval,
  ElevationState, build_cache_key, wanted_chat, append_audit, sync_disclosure_approval,
  notify_disclosure_changed, rolled_back, sync_disclosure_expiry, entry_of, fail_with,
  expire_cached_elevation, is_cached_live, new_elevation, grant, ask_owner, resolve_for_request,
}

-- Nothing is in the second cache that is not in the first.
pub record IsNoMore (before after : List (String × CachedElevation)) : Type 0 where
  pub kept : (k : String) → (get after k ≡ get before k) ⊎ (get after k ≡ none)

module _ (deps : ElevationDeps) (now : ℕ) where
  pub append_audit-cache :
      (s : ElevationState) (entry : AuditEntry) → (append_audit deps now s entry).0.cache ≡ s.cache
  unfolding append_audit
  append_audit-cache s entry = ground arith

  notify-cache :
      (s : ElevationState) (chats : List String) (b : Bool)
      → (notify_disclosure_changed deps now s chats b).0.cache ≡ s.cache
  unfolding notify_disclosure_changed
  notify-cache s chats b = ground arith

  rolled_back-cache :
      (p : ElevationState × Option String) (reason : String)
      → (rolled_back deps now p reason).0.cache ≡ p.0.cache
  rolled_back-cache (s, none) reason = refl
  rolled_back-cache (s, some again) reason = refl

  pub sync_approval-cache :
      (s : ElevationState) (next : CachedElevation)
      → (sync_disclosure_approval deps now s next).0.cache ≡ s.cache
  unfolding sync_disclosure_approval
  sync_approval-cache s next =
      let chats = next.chat_id ∷ [] in
      let written =
        set_disclosure deps.parse now s.disclosures chats next.session_key
          (disclosure_of deps now next) in
      let changed = record s { disclosures = written.0 } in
      let told = notify_disclosure_changed deps now changed written.1 false in
      let kept = notify-cache changed written.1 false in
      elim (Bool-cases deps.has_disclosure_store) [
        | inr no_store ↦ simp (no_store, sync_disclosure_approval)
        | inl store ↦ elim (Option-cases told.1) [
          | inl fine ↦ simp (store, fine, sync_disclosure_approval) kept
          | inr (reason, failed) ↦
              let undone =
                delete_disclosure deps.parse now told.0.disclosures chats next.session_key in
              let back = record told.0 { disclosures = undone.0 } in
              let again = notify_disclosure_changed deps now back undone.1 false in
              simp (store, failed, sync_disclosure_approval)
                (rolled_back-cache again reason ∙ notify-cache back undone.1 false ∙ kept)
        ]
      ]

  sync_expiry-cache :
      (s : ElevationState) (next : CachedElevation)
      → (sync_disclosure_expiry deps now s next).0.cache ≡ s.cache
  unfolding sync_disclosure_expiry
  sync_expiry-cache s next =
      let chats = next.chat_id ∷ [] in
      let written = delete_disclosure deps.parse now s.disclosures chats next.session_key in
      let changed = record s { disclosures = written.0 } in
      let told = notify_disclosure_changed deps now changed written.1 false in
      let kept = notify-cache changed written.1 false in
      elim (Bool-cases deps.has_disclosure_store) [
        | inr no_store ↦ simp (no_store, sync_disclosure_expiry)
        | inl store ↦ elim (Option-cases told.1) [
          | inl fine ↦ simp (store, fine, sync_disclosure_expiry) kept
          | inr (reason, failed) ↦
              let undone =
                restore told.0.disclosures chats next.session_key (disclosure_of deps now next) in
              let back = record told.0 { disclosures = undone } in
              let again = notify_disclosure_changed deps now back chats true in
              simp (store, failed, sync_disclosure_expiry)
                (rolled_back-cache again reason ∙ notify-cache back chats true ∙ kept)
        ]
      ]

  fail_with-cache :
      (A : Type 0) (s : ElevationState) (entry : AuditEntry) (e : ElevationError)
      → (fail_with deps now {A = A} s entry e).0.cache ≡ s.cache
  unfolding fail_with
  fail_with-cache A s entry e = ground (arith, append_audit-cache s entry)

  pub expire-cache :
      (s : ElevationState) (cached : CachedElevation)
      → (expire_cached_elevation deps now s cached).0.cache
        ≡ delete s.cache (build_cache_key cached.session_key cached.chat_id)
  unfolding expire_cached_elevation
  expire-cache s cached =
      let key = build_cache_key cached.session_key cached.chat_id in
      let cleared = record s {
        cache = delete s.cache key;
        expiration_timers = remove_timer s.expiration_timers key;
      } in
      let synced = sync_disclosure_expiry deps now cleared cached in
      let told = append_audit deps now synced.0 (entry_of deps now expired true cached) in
      let kept =
        append_audit-cache synced.0 (entry_of deps now expired true cached)
        ∙ sync_expiry-cache cleared cached in
      elim (Result-cases synced.1) [
        | inl (e, stuck) ↦
            rw (stuck, expire_cached_elevation)
              (fail_with-cache (Unit {0}) told.0 (entry_of deps now refresh_failed false cached) e
                ∙ kept)
        | inr (done, clear) ↦ rw (clear, expire_cached_elevation) kept
      ]

  grant-err :
      (s : ElevationState) (next : CachedElevation) (e : ElevationError)
      → (grant deps now s next).1 ≡ err e
      → (grant deps now s next).0.cache ≡ s.cache
  unfolding grant
  grant-err s next e failed =
      let synced = sync_disclosure_approval deps now s next in
      let entry = entry_of deps now approved true next in
      let told = append_audit deps now synced.0 entry in
      let kept = append_audit-cache synced.0 entry ∙ sync_approval-cache s next in
      elim (Result-cases synced.1) [
        | inl (f, stuck) ↦
            rw (stuck, grant)
              (fail_with-cache (Option Elevation) synced.0
                  (entry_of deps now refresh_failed false next) f
                ∙ sync_approval-cache s next)
        | inr (done, clear) ↦ elim (Result-cases told.1) [
          | inr (logged, in_log) ↦
              let gave : (grant deps now s next).1 ≡ ok (some next.elevation) =
                rw (clear, in_log, grant) in
              cc (gave, failed)
          | inl (lost, not_in_log) ↦
              let back = sync_disclosure_expiry deps now told.0 next in
              elim (Result-cases back.1) [
                | inl (f, stuck) ↦
                    rw (clear, not_in_log, stuck, grant) (sync_expiry-cache told.0 next ∙ kept)
                | inr (undone, fine) ↦
                    rw (clear, not_in_log, fine, grant) (sync_expiry-cache told.0 next ∙ kept)
              ]
        ]
      ]

  ask_owner-err :
      (s : ElevationState) (session_key chat_id : String) (answers : Approval) (e : ElevationError)
      → (ask_owner deps now s session_key chat_id answers).1 ≡ err e
      → (ask_owner deps now s session_key chat_id answers).0.cache ≡ s.cache
  unfolding ask_owner
  ask_owner-err s session_key chat_id answers e failed = elim (Bool-cases deps.has_approver) [
    | inr nobody ↦ simp (nobody, ask_owner)
    | inl somebody ↦ elim (Result-cases answers.authorized) [
      | inl (reason, declined) ↦
          simp (somebody, declined, ask_owner)
            (fail_with-cache (Option Elevation) s
              (record { action = denied; success = false; target = chat_id; approval_id = none })
              (refused reason))
      | inr (done, agreed) ↦ elim (Result-cases answers.fingerprint) [
        | inl (reason, unsigned) ↦ simp (somebody, agreed, unsigned, ask_owner)
        | inr (fingerprint, signed) ↦
            let next = new_elevation deps chat_id session_key answers fingerprint in
            let is_grant : ask_owner deps now s session_key chat_id answers
                ≡ grant deps now s next =
              simp (somebody, agreed, signed, ask_owner) in
            ap (λ r. r.0.cache) is_grant
            ∙ grant-err s next e (ap (λ r. r.1) (sym is_grant) ∙ failed)
      ]
    ]
  ]

  pub IsNoMore-same :
      {before after : List (String × CachedElevation)} → after ≡ before → IsNoMore before after
  IsNoMore-same same = record { kept = λ k. inl (ap (λ c. get c k) same) }

  pub IsNoMore-delete :
      (before after : List (String × CachedElevation)) (key : String)
      → after ≡ delete before key
      → IsNoMore before after
  IsNoMore-delete before after key gone = record {
    kept = λ k. elim (Bool-cases (key == k)) [
      | inl here ↦ inr (ap (λ c. get c k) gone ∙ get-delete before key k ∙ rw here)
      | inr elsewhere ↦ inl (ap (λ c. get c k) gone ∙ get-delete before key k ∙ rw elsewhere)
    ];
  }

  -- A request that fails, whatever it was that failed, has put no elevation into the cache: what the
  -- cache holds afterwards under a key, it held before.
  pub resolve_for_request-fails :
      (s : ElevationState) (input : ElevationInput) (answers : Approval) (e : ElevationError)
      → (resolve_for_request deps now s input answers).1 ≡ err e
      → IsNoMore s.cache (resolve_for_request deps now s input answers).0.cache
  unfolding resolve_for_request
  resolve_for_request-fails s input answers e failed = elim (Option-cases (wanted_chat input)) [
    | inl nothing ↦ IsNoMore-same (rw (nothing, resolve_for_request))
    | inr (raw, wanted) ↦
        let chat = deps.normalize_chat_id raw in
        elim (Option-cases (get s.cache (build_cache_key input.session_key chat))) [
          | inl absent ↦
              let asks : resolve_for_request deps now s input answers
                  ≡ ask_owner deps now s input.session_key chat answers =
                rw (wanted, absent, resolve_for_request) in
              IsNoMore-same (
                ap (λ r. r.0.cache) asks
                ∙ ask_owner-err s input.session_key chat answers e
                    (ap (λ r. r.1) (sym asks) ∙ failed))
          | inr (cached, at) ↦ elim (Bool-cases (is_cached_live deps now cached)) [
            | inl live ↦
                let entry = reuse_entry deps now chat cached in
                elim (Result-cases (append_audit deps now s entry).1) [
                  | inl (lost, gone) ↦ IsNoMore-same (
                      rw (wanted, at, live, gone, resolve_for_request) (append_audit-cache s entry))
                  | inr (done, fine) ↦ IsNoMore-same (
                      rw (wanted, at, live, fine, resolve_for_request) (append_audit-cache s entry))
                ]
            | inr over ↦
                let rid = expire_cached_elevation deps now s cached in
                let key = build_cache_key cached.session_key cached.chat_id in
                elim (Result-cases rid.1) [
                  | inl (f, stuck) ↦
                      IsNoMore-delete s.cache (resolve_for_request deps now s input answers).0.cache
                        key
                        (rw (wanted, at, over, stuck, resolve_for_request) (expire-cache s cached))
                  | inr (done, clear) ↦
                      let asks : resolve_for_request deps now s input answers
                          ≡ ask_owner deps now rid.0 input.session_key chat answers =
                        rw (wanted, at, over, clear, resolve_for_request) in
                      IsNoMore-delete s.cache (resolve_for_request deps now s input answers).0.cache
                        key
                        (ap (λ r. r.0.cache) asks
                          ∙ ask_owner-err rid.0 input.session_key chat answers e
                              (ap (λ r. r.1) (sym asks) ∙ failed)
                          ∙ expire-cache s cached)
                ]
          ]
        ]
  ]
