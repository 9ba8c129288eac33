-- ===== src/Ws/Server/Broadcast/Delivery.antt =====
-- The loop of a broadcast, from one connection to the next.
use xmtp_broker.Base.{
  all_different, ℕ, zero, suc, ◌≤◌, String, Bool, true, false, ◌&&◌, List, [], ◌∷◌, Option, none,
  some, ◌==◌, eq_iff, eq_refl, ◌≡◌, ◌≢◌, refl, sym, ap, subst, ◌∙◌, filter, includes,
  includes-filter, get, put, get-put, get_elem?, set, if◌then◌else◌, arith, inl, inr, Bool-cases,
  Option-cases,
}
use xmtp_broker.Ws.Sequence.{CredentialReplayState, sequence_event}
use xmtp_broker.Ws.Server.{
  Connection, Server, ServerEvent, Environment, deliver, send_sequenced, get_by_credential_id,
  belongs_to,
}
use xmtp_broker.Ws.Server.Broadcast.{due, broadcast_to, broadcast_each, broadcast_to_credential}
use xmtp_broker.Ws.Server.Broadcast.Laws.{send_sequenced-get}

all_different-filter :
    (p : String → Bool) (xs : List String)
    → all_different xs ≡ true
    → all_different (filter p xs) ≡ true
all_different-filter p [] d = refl
all_different-filter p (x ∷ xs) d =
    ground (arith, includes-filter p xs x, all_different-filter p xs)

module _ {X : Type 0} (env : Environment X) where
  -- What the connection `id` gets of an event that is broadcast to a credential.
  abbrev pub receives : Server X → String → ServerEvent X → String → Option (ServerEvent X)
  receives s credential_id event id = elim (get s.pending_invalidations credential_id) [
    | some pending ↦ none
    | none ↦
        if includes s.registry id && belongs_to credential_id (get s.sockets id)
        then due env event (get s.sockets id)
        else none
  ]

  broadcast_to-get :
      (s : Server X) (event : ServerEvent X) (i id : String)
      → i ≢ id
      → get (broadcast_to env s event i).sockets id ≡ get s.sockets id
  unfolding broadcast_to
  broadcast_to-get s event i id other = elim (Option-cases (due env event (get s.sockets i))) [
    | inl silent ↦ rw (silent, broadcast_to)
    | inr (own, e) ↦ rw (e, broadcast_to) (send_sequenced-get env s i own id other)
  ]

  broadcast_to-silent :
      (s : Server X) (event : ServerEvent X) (id : String)
      → due env event (get s.sockets id) ≡ none
      → broadcast_to env s event id ≡ s
  unfolding broadcast_to
  broadcast_to-silent s event id silent = rw (silent, broadcast_to)

  broadcast_each-get :
      (s : Server X) (event : ServerEvent X) (ids : List String) (id : String)
      → (includes ids id ≡ true → due env event (get s.sockets id) ≡ none)
      → get (broadcast_each env s event ids).sockets id ≡ get s.sockets id
  unfolding broadcast_each
  broadcast_each-get s event [] id silent = refl
  broadcast_each-get s event (i ∷ ids) id silent =
      let next : get (broadcast_to env s event i).sockets id ≡ get s.sockets id =
        elim (Bool-cases (i == id)) [
          | inl here ↦
              let at_id : i ≡ id = (eq_iff i id).0 here in
              ap (λ t. get t.sockets id)
                (broadcast_to-silent s event i
                  (ap (λ j. due env event (get s.sockets j)) at_id ∙ silent (ground arith)))
          | inr elsewhere ↦
              broadcast_to-get s event i id
                ((λ e. let h : (i == id) ≡ true = (eq_iff i id).1 e in cc (h, elsewhere)))
        ] in
      broadcast_each-get (broadcast_to env s event i) event ids id
        (λ later. ap (due env event) next ∙ silent (ground arith))
      ∙ next

  receives-due :
      (s : Server X) (credential_id : String) (event : ServerEvent X) (id : String)
      → get s.pending_invalidations credential_id ≡ none
      → includes (get_by_credential_id s credential_id) id ≡ true
      → receives s credential_id event id ≡ due env event (get s.sockets id)
  receives-due s credential_id event id free listed =
      let test = includes-filter (λ i. belongs_to credential_id (get s.sockets i)) s.registry id in
      let both = sym test ∙ listed in rw (free, both, receives)

  pub broadcast-silent :
      (s : Server X) (credential_id : String) (event : ServerEvent X) (id : String)
      → receives s credential_id event id ≡ none
      → get (broadcast_to_credential env s credential_id event).sockets id ≡ get s.sockets id
  unfolding broadcast_to_credential
  broadcast-silent s credential_id event id silent =
      elim (Option-cases (get s.pending_invalidations credential_id)) [
        | inr (pending, e) ↦ rw (e, broadcast_to_credential)
        | inl free ↦
            rw (free, broadcast_to_credential)
              (broadcast_each-get s event (get_by_credential_id s credential_id) id
                (λ m. sym (receives-due s credential_id event id free m) ∙ silent))
      ]

  set-grows :
      (heap : List (CredentialReplayState (ServerEvent X))) (written address : ℕ)
      (state next held : CredentialReplayState (ServerEvent X))
      → get_elem? heap written ≡ some state
      → state.next_seq ≤ next.next_seq
      → get_elem? heap address ≡ some held
      → (now : CredentialReplayState (ServerEvent X)) × (get_elem? (set heap written next) address
          ≡ some now)
        × (held.next_seq ≤ now.next_seq)
  set-grows [] written address state next held at more e = cc
  set-grows (x ∷ xs) zero zero state next held at more e =
      let same : state ≡ held = cc (at, e) in
      (next, refl, subst (λ h. h.next_seq ≤ next.next_seq) same more)
  set-grows (x ∷ xs) zero (suc b) state next held at more e = (held, e, omega arith)
  set-grows (x ∷ xs) (suc a) zero state next held at more e = (held, e, omega arith)
  set-grows (x ∷ xs) (suc a) (suc b) state next held at more e =
      set-grows xs a b state next held at more e

  send_sequenced-heap :
      (s : Server X) (id : String) (event : ServerEvent X) (address : ℕ)
      (held : CredentialReplayState (ServerEvent X))
      → get_elem? s.heap address ≡ some held
      → (now : CredentialReplayState (ServerEvent X)) × (get_elem?
            (send_sequenced env s id event).heap
            address
          ≡ some now)
        × (held.next_seq ≤ now.next_seq)
  unfolding send_sequenced sequence_event
  send_sequenced-heap s id event address held e = elim (Option-cases (get s.sockets id)) [
    | inl none_there ↦ (held, rw (none_there, send_sequenced) e, omega arith)
    | inr (c, found) ↦ elim (Option-cases c.credential_replay_state) [
      | inl unattached ↦ (held, rw (found, unattached, send_sequenced) e, omega arith)
      | inr (own, attached) ↦ elim (Option-cases (get_elem? s.heap own)) [
        | inl dangling ↦ (held, rw (found, attached, dangling, send_sequenced) e, omega arith)
        | inr (state, at) ↦
            let (now, there, more) =
              set-grows s.heap own address state (sequence_event state event).0 held at
                (omega arith) e in
            (now, simp (found, attached, at, send_sequenced) there, more)
      ]
    ]
  ]

  broadcast_to-delivers :
      (s : Server X) (event own : ServerEvent X) (id : String) (c : Connection X) (address : ℕ)
      (held : CredentialReplayState (ServerEvent X))
      → due env event (get s.sockets id) ≡ some own
      → get s.sockets id ≡ some c
      → c.credential_replay_state ≡ some address
      → get_elem? s.heap address ≡ some held
      → get (broadcast_to env s event id).sockets id
        ≡ some (deliver env c (sequence_event held own).1)
  unfolding broadcast_to send_sequenced
  broadcast_to-delivers s event own id c address held is_due found attached at =
      let first : broadcast_to env s event id ≡ send_sequenced env s id own =
        rw (is_due, broadcast_to) in
      let written : (send_sequenced env s id own).sockets
          ≡ put s.sockets id (deliver env c (sequence_event held own).1) =
        simp (found, attached, at, send_sequenced) in
      rw (
        first,
        written,
        get-put s.sockets id (deliver env c (sequence_event held own).1) id,
        eq_refl id,
      )

  broadcast_to-heap :
      (s : Server X) (event : ServerEvent X) (id : String) (address : ℕ)
      (held : CredentialReplayState (ServerEvent X))
      → get_elem? s.heap address ≡ some held
      → (now : CredentialReplayState (ServerEvent X)) × (get_elem?
            (broadcast_to env s event id).heap
            address
          ≡ some now)
        × (held.next_seq ≤ now.next_seq)
  unfolding broadcast_to
  broadcast_to-heap s event id address held at =
      elim (Option-cases (due env event (get s.sockets id))) [
        | inl silent ↦ (held, rw (silent, broadcast_to) at, omega arith)
        | inr (own, e) ↦
            let (now, there, more) = send_sequenced-heap s id own address held at in
            (now, rw (e, broadcast_to) there, more)
      ]

  -- The event that reached the connection, with the number it was given.
  abbrev pub IsDelivered :
      Server X
      → Connection X
      → String
      → CredentialReplayState (ServerEvent X)
      → ServerEvent X
      → Type 0
  IsDelivered t c id held own =
      (state : CredentialReplayState (ServerEvent X)) × (held.next_seq ≤ state.next_seq)
      × (get t.sockets id ≡ some (deliver env c (record { seq = state.next_seq; event = own })))

  broadcast_each-delivers :
      (s : Server X) (event own : ServerEvent X) (ids : List String) (id : String)
      (c : Connection X) (address : ℕ) (held : CredentialReplayState (ServerEvent X))
      → all_different ids ≡ true
      → includes ids id ≡ true
      → due env event (get s.sockets id) ≡ some own
      → get s.sockets id ≡ some c
      → c.credential_replay_state ≡ some address
      → get_elem? s.heap address ≡ some held
      → IsDelivered (broadcast_each env s event ids) c id held own
  unfolding broadcast_each sequence_event
  broadcast_each-delivers s event own [] id c address held d m is_due found attached at = cc
  broadcast_each-delivers s event own (i ∷ ids) id c address held d m is_due found attached at =
      elim (Bool-cases (i == id)) [
        | inl here ↦
            let at_id : i ≡ id = (eq_iff i id).0 here in
            let gone : includes ids id ≡ false =
              subst (λ j. includes ids j ≡ false) at_id (ground arith) in
            let rest =
              broadcast_each-get (broadcast_to env s event i) event ids id
                (λ again. cc (again, gone)) in
            let sent =
              broadcast_to-delivers s event own id c address held is_due found attached at in
            (
              held,
              omega arith,
              rest ∙ ap (λ j. get (broadcast_to env s event j).sockets id) at_id ∙ sent,
            )
        | inr elsewhere ↦
            let other : i ≢ id =
              λ e. let h : (i == id) ≡ true = (eq_iff i id).1 e in cc (h, elsewhere) in
            let same = broadcast_to-get s event i id other in
            let (now, there, more) = broadcast_to-heap s event i address held at in
            let (state, later, sent) =
              broadcast_each-delivers (broadcast_to env s event i) event own ids id c address now
                (ground arith) (ground arith) (ap (due env event) same ∙ is_due) (same ∙ found)
                attached there in
            (state, omega (arith, more, later), sent)
      ]

  pub receives-listed :
      (s : Server X) (credential_id : String) (event own : ServerEvent X) (id : String)
      → receives s credential_id event id ≡ some own
      → (get s.pending_invalidations credential_id ≡ none)
        × (includes (get_by_credential_id s credential_id) id ≡ true)
        × (due env event (get s.sockets id) ≡ some own)
  receives-listed s credential_id event own id r =
      let test = includes-filter (λ i. belongs_to credential_id (get s.sockets i)) s.registry id in
      elim (Option-cases (get s.pending_invalidations credential_id)) [
        | inr (pending, e) ↦
            let silent : receives s credential_id event id ≡ none = rw (e, receives) in
            cc (silent, r)
        | inl free ↦
            elim (Bool-cases
              (includes s.registry id && belongs_to credential_id (get s.sockets id))) [
                | inl both ↦ (
                  free,
                  test ∙ both,
                  let same : receives s credential_id event id ≡ due env event (get s.sockets id) =
                        rw (free, both, receives) in
                      sym same ∙ r,
                )
                | inr not_both ↦
                    let silent : receives s credential_id event id ≡ none =
                      rw (free, not_both, receives) in
                    cc (silent, r)
              ]
      ]

  pub broadcast-IsDelivered :
      (s : Server X) (credential_id : String) (event own : ServerEvent X) (id : String)
      (c : Connection X) (address : ℕ) (held : CredentialReplayState (ServerEvent X))
      → all_different s.registry ≡ true
      → receives s credential_id event id ≡ some own
      → get s.sockets id ≡ some c
      → c.credential_replay_state ≡ some address
      → get_elem? s.heap address ≡ some held
      → IsDelivered (broadcast_to_credential env s credential_id event) c id held own
  unfolding broadcast_to_credential
  broadcast-IsDelivered s credential_id event own id c address held d r found attached at =
      let (free, listed, is_due) = receives-listed s credential_id event own id r in
      let once =
        all_different-filter (λ i. belongs_to credential_id (get s.sockets i)) s.registry d in
      rw (free, broadcast_to_credential)
        (broadcast_each-delivers s event own (get_by_credential_id s credential_id) id c address
          held once listed is_due found attached at)
