-- ===== src/Ws/Server/Broadcast/Tickets.antt =====
-- What the two steps of an invalidation do to the pending invalidations and to the connections.
use xmtp_broker.Base.{
  ℕ, ◌-◌, String, true, false, List, [], ◌∷◌, Option, none, some, ◌==◌, eq_iff, eq_refl, ◌≡◌, refl,
  sym, ap, ◌∙◌, get, put, delete, get-put, get-delete, leb, if◌then◌else◌, inl, inr, Bool-cases,
  Option-cases,
}
use xmtp_broker.Ws.Server.{
  Server, ServerEvent, Environment, PendingInvalidation, get_by_credential_id,
}
use xmtp_broker.Ws.Server.Broadcast.{broadcast_to_credential, drain, release}
use xmtp_broker.Ws.Server.Broadcast.Laws.{
  SameViews, SameViews-refl, SameViews-trans, broadcast_each-pending, broadcast-SameViews,
}

-- the ticket that `release` leaves
abbrev pub released : Option (ℕ × ℕ) → Option (ℕ × ℕ)
released none = none
released (some (n, gen)) = if leb n 1 then none else some (n - 1, gen)

module _ {X : Type 0} where
  -- The count and the generation of a pending invalidation.
  abbrev pub ticket : Option (PendingInvalidation X) → Option (ℕ × ℕ)
  ticket none = none
  ticket (some entry) = some (entry.refcount, entry.generation)

  abbrev pub ticket_of : Server X → String → Option (ℕ × ℕ)
  ticket_of s credential_id = ticket (get s.pending_invalidations credential_id)

  -- Neither a connection's phase or credential nor a ticket has changed.
  pub record Steady (s t : Server X) : Type 0 where
    pub same_views : SameViews s t
    pub tickets : (k : String) → ticket_of t k ≡ ticket_of s k

  Steady-trans : {s t u : Server X} → Steady s t → Steady t u → Steady s u
  Steady-trans p q = record {
    same_views = SameViews-trans p.same_views q.same_views;
    tickets = λ k. q.tickets k ∙ p.tickets k;
  }

  put-ticket :
      (m : List (String × PendingInvalidation X)) (k : String) (entry next : PendingInvalidation X)
      → get m k ≡ some entry
      → ticket (some next) ≡ ticket (some entry)
      → (j : String) → ticket (get (put m k next) j) ≡ ticket (get m j)
  put-ticket m k entry next found same j = elim (Bool-cases (k == j)) [
    | inl here ↦
        let at : k ≡ j = (eq_iff k j).0 here in
        rw (get-put m k next j, here) (same ∙ ap ticket (sym found ∙ ap (get m) at))
    | inr elsewhere ↦ rw (get-put m k next j, elsewhere)
  ]

  module _ (env : Environment X) where
    pub broadcast-Steady :
        (s : Server X) (credential_id : String) (event : ServerEvent X)
        → Steady s (broadcast_to_credential env s credential_id event)
    unfolding broadcast_to_credential
    broadcast-Steady s credential_id event = record {
      same_views = broadcast-SameViews env s credential_id event;
      tickets = λ k. elim (Option-cases (get s.pending_invalidations credential_id)) [
        | inl free ↦ rw (
          free,
          broadcast_to_credential,
          (broadcast_each-pending env s event (get_by_credential_id s credential_id)).0,
        )
        | inr (entry, e) ↦
            rw (e, broadcast_to_credential)
              (put-ticket s.pending_invalidations credential_id entry _ e refl k)
      ];
    }

    drain-Steady :
        (s : Server X) (credential_id : String) (events : List (ServerEvent X))
        → Steady s (drain env s credential_id events)
    unfolding drain
    drain-Steady s credential_id [] = record { same_views = SameViews-refl s; tickets = λ k. refl }
    drain-Steady s credential_id (event ∷ queued) =
        Steady-trans (broadcast-Steady s credential_id event)
          (drain-Steady (broadcast_to_credential env s credential_id event) credential_id queued)

    pub release-SameViews :
        (s : Server X) (credential_id : String) → SameViews s (release env s credential_id)
    unfolding release
    release-SameViews s credential_id =
        elim (Option-cases (get s.pending_invalidations credential_id)) [
          | inl free ↦ rw (free, release) (SameViews-refl s)
          | inr (entry, e) ↦ elim (Bool-cases (leb entry.refcount 1)) [
            | inl last ↦
                let steady =
                  drain-Steady
                    (record s {
                      pending_invalidations = delete s.pending_invalidations credential_id;
                    })
                    credential_id entry.events in
                rw (e, last, release)
                  (record {
                    registry = steady.same_views.registry;
                    views = steady.same_views.views;
                  })
            | inr more ↦ rw (e, more, release) (record { registry = refl; views = λ id. refl })
          ]
        ]

    release-last :
        (s : Server X) (credential_id : String) (entry : PendingInvalidation X) (k : String)
        → get s.pending_invalidations credential_id ≡ some entry
        → leb entry.refcount 1 ≡ true
        → ticket_of (release env s credential_id) k
          ≡ (if credential_id == k then none else ticket_of s k)
    unfolding release
    release-last s credential_id entry k e last =
        let rest = record s {
          pending_invalidations = delete s.pending_invalidations credential_id;
        } in
        let steady = drain-Steady rest credential_id entry.events in
        elim (Bool-cases (credential_id == k)) [
          | inl here ↦ rw (
            e,
            last,
            release,
            steady.tickets k,
            get-delete s.pending_invalidations credential_id k,
            here,
          )
          | inr elsewhere ↦ rw (
            e,
            last,
            release,
            steady.tickets k,
            get-delete s.pending_invalidations credential_id k,
            elsewhere,
          )
        ]

    release-more :
        (s : Server X) (credential_id : String) (entry : PendingInvalidation X) (k : String)
        → get s.pending_invalidations credential_id ≡ some entry
        → leb entry.refcount 1 ≡ false
        → ticket_of (release env s credential_id) k ≡ (
            if credential_id == k
            then some (entry.refcount - 1, entry.generation)
            else ticket_of s k)
    unfolding release
    release-more s credential_id entry k e more =
        let one_less = record entry { refcount = entry.refcount - 1 } in
        elim (Bool-cases (credential_id == k)) [
          | inl here ↦
              rw (e, more, release, get-put s.pending_invalidations credential_id one_less k, here)
          | inr elsewhere ↦ rw (
            e,
            more,
            release,
            get-put s.pending_invalidations credential_id one_less k,
            elsewhere,
          )
        ]

    pub release-other :
        (s : Server X) (credential_id k : String)
        → (credential_id == k) ≡ false
        → ticket_of (release env s credential_id) k ≡ ticket_of s k
    unfolding release
    release-other s credential_id k other =
        elim (Option-cases (get s.pending_invalidations credential_id)) [
          | inl free ↦ rw (free, release)
          | inr (entry, e) ↦ elim (Bool-cases (leb entry.refcount 1)) [
            | inl last ↦ rw (release-last s credential_id entry k e last, other)
            | inr more ↦ rw (release-more s credential_id entry k e more, other)
          ]
        ]

    pub release-own :
        (s : Server X) (credential_id : String)
        → ticket_of (release env s credential_id) credential_id
          ≡ released (ticket_of s credential_id)
    unfolding release
    release-own s credential_id =
        let own = eq_refl credential_id in
        elim (Option-cases (get s.pending_invalidations credential_id)) [
          | inl free ↦ rw (free, release) (ap ticket free)
          | inr (entry, e) ↦ elim (Bool-cases (leb entry.refcount 1)) [
            | inl last ↦ rw (release-last s credential_id entry credential_id e last, own, e, last)
            | inr more ↦ rw (release-more s credential_id entry credential_id e more, own, e, more)
          ]
        ]
