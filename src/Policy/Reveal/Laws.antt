-- ===== src/Policy/Reveal/Laws.antt =====
-- When a reveal applies, and what expiry and a restart leave of it.
use mathlib.Core.List.{append_assoc, append-nil}
use xmtp_broker.Base.{
  ℕ, ◌+◌, ◌≤◌, ◌<◌, String, true, false, ◌&&◌, ◌||◌, List, [], ◌∷◌, ◌++◌, Option, none, some, ◌≡◌,
  refl, ◌∙◌, any, any-append, length, arith, eq_iff, ◌↔◌, inl, inr, Bool-cases,
}
use xmtp_broker.Policy.Reveal.{
  RevealScope, message, thread, time_window, content_type, sender, RevealRequest, RevealAccess,
  RevealEntry, Query, split_pipe, text_is, time_le, is_expired, in_window, covers, entry_reveals,
  is_revealed, expire_stale, record_reveal, snapshot, restore_from, restore,
}

text_is-true : (t : String) (o : Option String) → text_is t o ≡ true → o ≡ some t
text_is-true t none h = cc
text_is-true t (some u) h = ground (arith, eq_iff t u)

module _ (date_ms : String → Option ℕ) where
  -- The access has no expiry, or one that the clock has not reached; an unreadable date never comes.
  abbrev pub IsLive : Option String → ℕ → Type 0
  IsLive none now = Unit {0}
  IsLive (some t) now = (ms : ℕ) → date_ms t ≡ some ms → now < ms

  -- The message is what the request names.
  pub data Covers (q : Query) : RevealScope → String → Type 0 where
    by_message : {t : String} → t ≡ q.message_id → Covers q message t
    by_thread : {t : String} → q.thread_id ≡ some t → Covers q thread t
    by_sender : {t : String} → t ≡ q.sender_inbox_id → Covers q sender t
    by_type : {t : String} → t ≡ q.content_type → Covers q content_type t
    by_window :
        {t a b : String} {from at to : ℕ}
        → split_pipe t ≡ some (a, b)
        → date_ms a ≡ some from
        → date_ms q.sent_at ≡ some at
        → date_ms b ≡ some to
        → from ≤ at
        → at ≤ to
        → Covers q time_window t

  pub record Reveals (now : ℕ) (q : Query) (e : RevealEntry) : Type 0 where
    pub live : IsLive e.access.expires_at now
    pub group : e.request.group_id ≡ q.group_id
    pub target : Covers q e.request.scope e.request.target_id

  -- Some entry of the list reveals the message.
  pub data AnyReveals (now : ℕ) (q : Query) : List RevealEntry → Type 0 where
    here : {e : RevealEntry} {es : List RevealEntry} → Reveals now q e → AnyReveals now q (e ∷ es)
    there :
        {e : RevealEntry} {es : List RevealEntry} → AnyReveals now q es → AnyReveals now q (e ∷ es)

  is_expired-false : (t : Option String) (now : ℕ) → is_expired date_ms t now ≡ false → IsLive t now
  unfolding is_expired
  is_expired-false none now h = tt
  is_expired-false (some t) now h = λ ms e. ground arith

  is_expired-true : (t : Option String) (now : ℕ) → IsLive t now → is_expired date_ms t now ≡ false
  unfolding is_expired
  is_expired-true none now h = refl
  is_expired-true (some t) now h = go (date_ms t) refl
    where
      go : (o : Option ℕ) → date_ms t ≡ o → time_le (date_ms t) (some now) ≡ false
      go none e = rw e
      go (some ms) e = let lt = h ms e in rw e (ground arith)

  in_window-true :
      (p : Option (String × String)) (q : Query) (t : String)
      → split_pipe t ≡ p
      → in_window date_ms p q.sent_at ≡ true
      → Covers q time_window t
  unfolding in_window
  in_window-true none q t e h = cc
  in_window-true (some (a, b)) q t e h =
      go (date_ms a) (date_ms q.sent_at) (date_ms b) refl refl refl h
    where
      go :
          (x y z : Option ℕ)
          → date_ms a ≡ x
          → date_ms q.sent_at ≡ y
          → date_ms b ≡ z
          → time_le (date_ms a) (date_ms q.sent_at) && time_le (date_ms q.sent_at) (date_ms b)
            ≡ true
          → Covers q time_window t
      go (some x) (some y) (some z) ex ey ez h = by_window e ex ey ez (ground arith) (ground arith)
      go none _ _ ex ey ez h = ground arith
      go (some x) none _ ex ey ez h = ground arith
      go (some x) (some y) none ex ey ez h = ground arith

  covers_sound :
      (s : RevealScope) (t : String) (q : Query) → covers date_ms s t q ≡ true → Covers q s t
  unfolding covers
  covers_sound message t q h = by_message ((eq_iff _ _).0 h)
  covers_sound thread t q h = by_thread (text_is-true t q.thread_id h)
  covers_sound sender t q h = by_sender ((eq_iff _ _).0 h)
  covers_sound content_type t q h = by_type ((eq_iff _ _).0 h)
  covers_sound time_window t q h = in_window-true (split_pipe t) q t refl h

  covers_complete :
      (s : RevealScope) (t : String) (q : Query) → Covers q s t → covers date_ms s t q ≡ true
  unfolding covers in_window
  covers_complete message t q (by_message e) = (eq_iff _ _).1 e
  covers_complete thread t q (by_thread e) = rw e ((eq_iff _ _).1 refl)
  covers_complete sender t q (by_sender e) = (eq_iff _ _).1 e
  covers_complete content_type t q (by_type e) = (eq_iff _ _).1 e
  covers_complete time_window t q (by_window e ea es eb p r) = rw (e, ea, es, eb) (ground arith)

  entry_reveals_sound :
      (now : ℕ) (q : Query) (e : RevealEntry)
      → entry_reveals date_ms now q e ≡ true
      → Reveals now q e
  unfolding entry_reveals
  entry_reveals_sound now q e h = record {
    live = is_expired-false e.access.expires_at now (ground arith);
    group = ground (arith, eq_iff e.request.group_id q.group_id);
    target = covers_sound e.request.scope e.request.target_id q (ground arith);
  }

  entry_reveals_complete :
      (now : ℕ) (q : Query) (e : RevealEntry)
      → Reveals now q e
      → entry_reveals date_ms now q e ≡ true
  unfolding entry_reveals
  entry_reveals_complete now q e r = rw (
    is_expired-true e.access.expires_at now r.live,
    (eq_iff e.request.group_id q.group_id).1 r.group,
    covers_complete e.request.scope e.request.target_id q r.target,
  )

  is_revealed_sound :
      (es : List RevealEntry) (now : ℕ) (q : Query)
      → is_revealed date_ms es now q ≡ true
      → AnyReveals now q es
  unfolding is_revealed
  is_revealed_sound [] now q h = cc
  is_revealed_sound (e ∷ es) now q h = elim (Bool-cases (entry_reveals date_ms now q e)) [
    | inl yes' ↦ here (entry_reveals_sound now q e yes')
    | inr no' ↦ there (is_revealed_sound es now q (ground arith))
  ]

  is_revealed_complete :
      (es : List RevealEntry) (now : ℕ) (q : Query)
      → AnyReveals now q es
      → is_revealed date_ms es now q ≡ true
  unfolding is_revealed
  is_revealed_complete [] now q a = elim a [ ]
  is_revealed_complete (e ∷ es) now q (here r) = rw (entry_reveals_complete now q e r)
  is_revealed_complete (e ∷ es) now q (there a) = ground (arith, is_revealed_complete es now q a)

  -- A message is revealed exactly if some recorded entry is not expired, names the message's group,
  -- and covers the message: by its id, its thread, its sender, its content type, or a window of two
  -- readable dates around the date at which it was sent.
  pub is_revealed_iff :
      (es : List RevealEntry) (now : ℕ) (q : Query)
      → (is_revealed date_ms es now q ≡ true) ↔ AnyReveals now q es
  is_revealed_iff es now q = (is_revealed_sound es now q, is_revealed_complete es now q)

  is_expired_mono :
      (t : Option String) (now later : ℕ)
      → now ≤ later
      → is_expired date_ms t now ≡ true
      → is_expired date_ms t later ≡ true
  unfolding is_expired
  is_expired_mono none now later h e = e
  is_expired_mono (some t) now later h e = ground arith

  -- Removing the expired entries at one time changes no answer at that time or later; each entry is
  -- kept or counted as removed, and none that is kept is expired.
  pub expire_stale-is_revealed :
      (es : List RevealEntry) (now later : ℕ) (q : Query)
      → now ≤ later
      → (is_revealed date_ms (expire_stale date_ms es now).0 later q
          ≡ is_revealed date_ms es later q)
        × (length (expire_stale date_ms es now).0 + (expire_stale date_ms es now).1 ≡ length es)
        × (any (λ e. is_expired date_ms e.access.expires_at now) (expire_stale date_ms es now).0
            ≡ false)
  unfolding expire_stale is_revealed entry_reveals
  expire_stale-is_revealed [] now later q h = (refl, refl, refl)
  expire_stale-is_revealed (e ∷ es) now later q h =
      let ih = expire_stale-is_revealed es now later q h in
      let mono = is_expired_mono e.access.expires_at now later h in
      (ground (arith, ih.0, mono), ground (arith, ih.1), ground (arith, ih.2))

  -- Recording a reveal adds exactly what its own entry covers.
  pub record_reveal-is_revealed :
      (es : List RevealEntry) (a : RevealAccess) (r : RevealRequest) (now : ℕ) (q : Query)
      → is_revealed date_ms (record_reveal es a r) now q ≡ (
          is_revealed date_ms es now q
          || entry_reveals date_ms now q (record { access = a; request = r }))
  unfolding is_revealed record_reveal
  record_reveal-is_revealed es a r now q =
      ground (
        arith,
        any-append (entry_reveals date_ms now q) es (record { access = a; request = r } ∷ []),
      )

restore_from-snapshot : (acc es : List RevealEntry) → restore_from acc (snapshot es) ≡ acc ++ es
unfolding restore_from snapshot
restore_from-snapshot acc [] = ground (arith, append-nil acc)
restore_from-snapshot acc (e ∷ es) =
    restore_from-snapshot (acc ++ e ∷ []) es ∙ append_assoc acc (e ∷ []) es

-- Restoring a snapshot gives back the entries of which it was taken, whatever the store held.
pub restore-snapshot : (old es : List RevealEntry) → restore old (snapshot es) ≡ es
unfolding restore
restore-snapshot old es = restore_from-snapshot [] es
