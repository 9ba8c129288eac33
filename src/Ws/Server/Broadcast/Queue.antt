-- ===== src/Ws/Server/Broadcast/Queue.antt =====
-- What becomes of the events that are queued while an invalidation waits.
use mathlib.Core.List.{append_assoc, append-nil}
use xmtp_broker.Base.{
  ◌==◌, false, ℕ, String, true, List, [], ◌∷◌, ◌++◌, none, some, eq_refl, ◌≡◌, refl, sym, ap, ◌∙◌,
  get, put, delete, get-put, get-delete, leb, Result, inl, inr, Bool-cases, Option-cases,
}
use xmtp_broker.Sessions.Service.{PublicCredential}
use xmtp_broker.Ws.Server.{
  Server, ServerEvent, Environment, PendingInvalidation, get_by_credential_id,
}
use xmtp_broker.Ws.Server.Broadcast.{
  same_number, broadcast_each, broadcast_to_credential, apply_lookup, invalidate_finish, release,
  drain, refresh_each, refresh_connection,
}
use xmtp_broker.Ws.Server.Broadcast.Laws.{broadcast_each-pending}

module _ {X : Type 0} (env : Environment X) where
  -- The events broadcast to the credential, one after the other.
  abbrev pub broadcasts : Server X → String → List (ServerEvent X) → Server X
  broadcasts s k [] = s
  broadcasts s k (event ∷ events) = broadcasts (broadcast_to_credential env s k event) k events

  -- The events sent to the connections that are registered for the credential, one after the other,
  -- with no queue between.
  abbrev pub send_each : Server X → String → List (ServerEvent X) → Server X
  send_each s k [] = s
  send_each s k (event ∷ events) =
      send_each (broadcast_each env s event (get_by_credential_id s k)) k events

  send_each-pending :
      (s : Server X) (k : String) (events : List (ServerEvent X))
      → get (send_each s k events).pending_invalidations k ≡ get s.pending_invalidations k
  send_each-pending s k [] = refl
  send_each-pending s k (event ∷ events) =
      let ids = get_by_credential_id s k in
      send_each-pending (broadcast_each env s event ids) k events
      ∙ ap (λ m. get m k) (broadcast_each-pending env s event ids).0

  drain-sends :
      (s : Server X) (k : String) (events : List (ServerEvent X))
      → get s.pending_invalidations k ≡ none
      → drain env s k events ≡ send_each s k events
  unfolding drain broadcast_to_credential
  drain-sends s k [] free = refl
  drain-sends s k (event ∷ events) free =
      let sent = broadcast_each env s event (get_by_credential_id s k) in
      let now : broadcast_to_credential env s k event ≡ sent = rw (free, broadcast_to_credential) in
      let still : get sent.pending_invalidations k ≡ none =
        ap (λ m. get m k) (broadcast_each-pending env s event (get_by_credential_id s k)).0
        ∙ free in
      ap (λ t. drain env t k events) now ∙ drain-sends sent k events still

  -- What is queued stays in its order, and later events come after it.
  queued-broadcasts :
      (s : Server X) (k : String) (entry : PendingInvalidation X) (events : List (ServerEvent X))
      → get s.pending_invalidations k ≡ some entry
      → get (broadcasts s k events).pending_invalidations k
        ≡ some (record entry { events = entry.events ++ events })
  unfolding broadcast_to_credential
  queued-broadcasts s k entry [] at =
      at ∙ ap (λ l. some (record entry { events = l })) (sym (append-nil entry.events))
  queued-broadcasts s k entry (event ∷ events) at =
      let next = record entry { events = entry.events ++ event ∷ [] } in
      let now : get (broadcast_to_credential env s k event).pending_invalidations k ≡ some next =
        rw (at, broadcast_to_credential)
          (get-put s.pending_invalidations k next k ∙ rw (eq_refl k)) in
      queued-broadcasts (broadcast_to_credential env s k event) k next events now
      ∙ ap (λ l. some (record entry { events = l })) (append_assoc entry.events (event ∷ []) events)

  refresh_each-pending :
      {E : Type 0} (s : Server X) (lookup : Result E PublicCredential) (ids : List String)
      → (refresh_each s lookup ids).pending_invalidations ≡ s.pending_invalidations
  unfolding refresh_each
  refresh_each-pending s lookup [] = refl
  refresh_each-pending s lookup (id ∷ ids) = elim (Option-cases (get s.sockets id)) [
    | inl absent ↦ rw (absent, refresh_each) (refresh_each-pending s lookup ids)
    | inr (c, at) ↦
        let next = record s { sockets = put s.sockets id (refresh_connection c lookup) } in
        rw (at, refresh_each) (refresh_each-pending next lookup ids)
  ]

  pub apply_lookup-pending :
      {E : Type 0} (s : Server X) (k : String) (gen : ℕ) (lookup : Result E PublicCredential)
      → (apply_lookup s k gen lookup).pending_invalidations ≡ s.pending_invalidations
  unfolding apply_lookup
  apply_lookup-pending s k gen lookup = elim (Option-cases (get s.pending_invalidations k)) [
    | inl absent ↦ rw (absent, apply_lookup)
    | inr (entry, at) ↦ elim (Bool-cases (same_number entry.generation gen)) [
      | inl own ↦
          rw (at, own, apply_lookup) (refresh_each-pending s lookup (get_by_credential_id s k))
      | inr later ↦ rw (at, later, apply_lookup)
    ]
  ]

  -- The state with the answer of the last lookup written and nothing pending.
  abbrev pub settled : {E : Type 0} → Server X → String → ℕ → Result E PublicCredential → Server X
  settled s k gen lookup =
      let applied = apply_lookup s k gen lookup in
      record applied { pending_invalidations = delete applied.pending_invalidations k }

  pub finish-sends :
      {E : Type 0} (s : Server X) (k : String) (entry : PendingInvalidation X)
      (events : List (ServerEvent X)) (gen : ℕ) (lookup : Result E PublicCredential)
      → get s.pending_invalidations k ≡ some entry
      → leb entry.refcount 1 ≡ true
      → (get (invalidate_finish env (broadcasts s k events) k gen lookup).pending_invalidations k
          ≡ none)
        × (invalidate_finish env (broadcasts s k events) k gen lookup
            ≡ send_each (settled (broadcasts s k events) k gen lookup) k (entry.events ++ events))
  unfolding invalidate_finish release
  finish-sends s k entry events gen lookup at last =
      let t = broadcasts s k events in
      let applied = apply_lookup t k gen lookup in
      let held : get applied.pending_invalidations k
          ≡ some (record entry { events = entry.events ++ events }) =
        ap (λ m. get m k) (apply_lookup-pending t k gen lookup)
        ∙ queued-broadcasts s k entry events at in
      let gone : get (settled t k gen lookup).pending_invalidations k ≡ none =
        get-delete applied.pending_invalidations k k ∙ rw (eq_refl k) in
      let freed : release env applied k
          ≡ drain env (settled t k gen lookup) k (entry.events ++ events) =
        rw (held, last, release) in
      let sent = freed ∙ drain-sends (settled t k gen lookup) k (entry.events ++ events) gone in
      (
        ap (λ u. get u.pending_invalidations k) sent
            ∙ send_each-pending (settled t k gen lookup) k (entry.events ++ events)
            ∙ gone,
        sent,
      )

  pub broadcast-other_pending :
      (s : Server X) (other k : String) (event : ServerEvent X)
      → (other == k) ≡ false
      → get (broadcast_to_credential env s other event).pending_invalidations k
        ≡ get s.pending_invalidations k
  unfolding broadcast_to_credential
  broadcast-other_pending s other k event differs =
      elim (Option-cases (get s.pending_invalidations other)) [
        | inl free ↦
            rw (free, broadcast_to_credential)
              (ap (λ m. get m k)
                (broadcast_each-pending env s event (get_by_credential_id s other)).0)
        | inr (entry, at) ↦
            rw (at, broadcast_to_credential)
              (get-put s.pending_invalidations other _ k ∙ rw differs)
      ]

  drain-other_pending :
      (s : Server X) (other k : String) (events : List (ServerEvent X))
      → (other == k) ≡ false
      → get (drain env s other events).pending_invalidations k ≡ get s.pending_invalidations k
  unfolding drain
  drain-other_pending s other k [] differs = refl
  drain-other_pending s other k (event ∷ events) differs =
      drain-other_pending (broadcast_to_credential env s other event) other k events differs
      ∙ broadcast-other_pending s other k event differs

  pub release-other_pending :
      (s : Server X) (other k : String)
      → (other == k) ≡ false
      → get (release env s other).pending_invalidations k ≡ get s.pending_invalidations k
  unfolding release
  release-other_pending s other k differs =
      elim (Option-cases (get s.pending_invalidations other)) [
        | inl free ↦ rw (free, release)
        | inr (entry, at) ↦ elim (Bool-cases (leb entry.refcount 1)) [
          | inl last ↦
              let rest = record s {
                pending_invalidations = delete s.pending_invalidations other;
              } in
              rw (at, last, release)
                (drain-other_pending rest other k entry.events differs
                  ∙ get-delete s.pending_invalidations other k
                  ∙ rw differs)
          | inr more ↦
              rw (at, more, release) (get-put s.pending_invalidations other _ k ∙ rw differs)
        ]
      ]
