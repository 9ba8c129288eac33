-- ===== src/Ws/Server/Broadcast/Laws.antt =====
-- What a broadcast leaves as it is, and to whom it sends.
use xmtp_broker.Base.{
  String, List, [], ◌∷◌, Option, none, some, ◌==◌, eq_iff, ◌≡◌, ◌≢◌, ◌⊎◌, refl, sym, ap, ◌∙◌, get,
  put, get-put, get_elem?, arith, inl, inr, Bool-cases, Option-cases,
}
use xmtp_broker.Sessions.Service.{PublicCredential}
use xmtp_broker.Ws.Connection.{ConnectionPhase}
use xmtp_broker.Ws.Sequence.{SequencedFrame, sequence_event}
use xmtp_broker.Ws.Server.{
  Connection, Server, ServerEvent, Environment, deliver, send_sequenced, get_by_credential_id,
}
use xmtp_broker.Ws.Server.Broadcast.{due, broadcast_to, broadcast_each, broadcast_to_credential}

module _ {X : Type 0} where
  -- What the server reads of a connection to choose whom it sends to.
  abbrev pub view :
      Option (Connection X) → Option (ConnectionPhase × Option PublicCredential × Option String)
  view none = none
  view (some c) = some (c.phase, c.credential_record, c.credential_id)

  -- Between the two states no connection has changed its phase or its credential.
  pub record SameViews (s t : Server X) : Type 0 where
    pub registry : t.registry ≡ s.registry
    pub views : (id : String) → view (get t.sockets id) ≡ view (get s.sockets id)

  pub SameViews-refl : (s : Server X) → SameViews s s
  SameViews-refl s = record { registry = refl; views = λ id. refl }

  pub SameViews-trans : {s t u : Server X} → SameViews s t → SameViews t u → SameViews s u
  SameViews-trans p q = record {
    registry = q.registry ∙ p.registry;
    views = λ id. q.views id ∙ p.views id;
  }

  pub put-view :
      (m : List (String × Connection X)) (id : String) (c next : Connection X)
      → get m id ≡ some c
      → view (some next) ≡ view (some c)
      → (j : String) → view (get (put m id next) j) ≡ view (get m j)
  put-view m id c next found same j = elim (Bool-cases (id == j)) [
    | inl here ↦
        let at_id : id ≡ j = (eq_iff id j).0 here in
        rw (get-put m id next j, here) (same ∙ ap view (sym found ∙ ap (get m) at_id))
    | inr elsewhere ↦ rw (get-put m id next j, elsewhere)
  ]

  module _ (env : Environment X) where
    deliver-view :
        (c : Connection X) (frame : SequencedFrame (ServerEvent X))
        → view (some (deliver env c frame)) ≡ view (some c)
    unfolding deliver
    deliver-view c frame = ground arith

    -- It writes one connection, or nothing.
    send_sequenced-cases :
        (s : Server X) (id : String) (event : ServerEvent X)
        → (send_sequenced env s id event ≡ s)
          ⊎ ((c : Connection X) × (frame : SequencedFrame (ServerEvent X)) × (get s.sockets id
                ≡ some c)
              × ((send_sequenced env s id event).sockets ≡ put s.sockets id (deliver env c frame)))
    unfolding send_sequenced
    send_sequenced-cases s id event = elim (Option-cases (get s.sockets id)) [
      | inl none_there ↦ inl (rw (none_there, send_sequenced))
      | inr (c, found) ↦ elim (Option-cases c.credential_replay_state) [
        | inl unattached ↦ inl (rw (found, unattached, send_sequenced))
        | inr (address, attached) ↦ elim (Option-cases (get_elem? s.heap address)) [
          | inl dangling ↦ inl (rw (found, attached, dangling, send_sequenced))
          | inr (state, held) ↦ inr (
            c,
            (sequence_event state event).1,
            found,
            simp (found, attached, held, send_sequenced),
          )
        ]
      ]
    ]

    pub send_sequenced-get :
        (s : Server X) (id : String) (event : ServerEvent X) (j : String)
        → id ≢ j
        → get (send_sequenced env s id event).sockets j ≡ get s.sockets j
    send_sequenced-get s id event j other = elim (send_sequenced-cases s id event) [
      | inl same ↦ rw same
      | inr (c, frame, found, written) ↦
          rw written (ground (arith, eq_iff id j, get-put s.sockets id (deliver env c frame) j))
    ]

    send_sequenced-registry :
        (s : Server X) (id : String) (event : ServerEvent X)
        → (send_sequenced env s id event).registry ≡ s.registry
    unfolding send_sequenced
    send_sequenced-registry s id event = ground arith

    send_sequenced-SameViews :
        (s : Server X) (id : String) (event : ServerEvent X)
        → SameViews s (send_sequenced env s id event)
    send_sequenced-SameViews s id event = record {
      registry = send_sequenced-registry s id event;
      views = λ j. elim (send_sequenced-cases s id event) [
        | inl same ↦ rw same
        | inr (c, frame, found, written) ↦
            rw written
              (put-view s.sockets id c (deliver env c frame) found (deliver-view c frame) j)
      ];
    }

    send_sequenced-pending :
        (s : Server X) (id : String) (event : ServerEvent X)
        → ((send_sequenced env s id event).pending_invalidations ≡ s.pending_invalidations)
          × ((send_sequenced env s id event).invalidation_gen ≡ s.invalidation_gen)
    unfolding send_sequenced
    send_sequenced-pending s id event = ground arith

    broadcast_to-SameViews :
        (s : Server X) (event : ServerEvent X) (id : String)
        → SameViews s (broadcast_to env s event id)
    unfolding broadcast_to
    broadcast_to-SameViews s event id = elim (Option-cases (due env event (get s.sockets id))) [
      | inl silent ↦ rw (silent, broadcast_to) (SameViews-refl s)
      | inr (own, e) ↦ rw (e, broadcast_to) (send_sequenced-SameViews s id own)
    ]

    broadcast_to-pending :
        (s : Server X) (event : ServerEvent X) (id : String)
        → ((broadcast_to env s event id).pending_invalidations ≡ s.pending_invalidations)
          × ((broadcast_to env s event id).invalidation_gen ≡ s.invalidation_gen)
    unfolding broadcast_to
    broadcast_to-pending s event id = elim (Option-cases (due env event (get s.sockets id))) [
      | inl silent ↦ rw (silent, broadcast_to) (refl, refl)
      | inr (own, e) ↦ rw (e, broadcast_to) (send_sequenced-pending s id own)
    ]

    pub broadcast_each-SameViews :
        (s : Server X) (event : ServerEvent X) (ids : List String)
        → SameViews s (broadcast_each env s event ids)
    unfolding broadcast_each
    broadcast_each-SameViews s event [] = SameViews-refl s
    broadcast_each-SameViews s event (id ∷ ids) =
        SameViews-trans (broadcast_to-SameViews s event id)
          (broadcast_each-SameViews (broadcast_to env s event id) event ids)

    pub broadcast_each-pending :
        (s : Server X) (event : ServerEvent X) (ids : List String)
        → ((broadcast_each env s event ids).pending_invalidations ≡ s.pending_invalidations)
          × ((broadcast_each env s event ids).invalidation_gen ≡ s.invalidation_gen)
    unfolding broadcast_each
    broadcast_each-pending s event [] = (refl, refl)
    broadcast_each-pending s event (id ∷ ids) =
        let (p, g) = broadcast_each-pending (broadcast_to env s event id) event ids in
        let (p0, g0) = broadcast_to-pending s event id in (p ∙ p0, g ∙ g0)

    pub broadcast-SameViews :
        (s : Server X) (credential_id : String) (event : ServerEvent X)
        → SameViews s (broadcast_to_credential env s credential_id event)
    unfolding broadcast_to_credential
    broadcast-SameViews s credential_id event =
        elim (Option-cases (get s.pending_invalidations credential_id)) [
          | inl free ↦
              rw (free, broadcast_to_credential)
                (broadcast_each-SameViews s event (get_by_credential_id s credential_id))
          | inr (pending, e) ↦
              rw (e, broadcast_to_credential) (record { registry = refl; views = λ id. refl })
        ]
