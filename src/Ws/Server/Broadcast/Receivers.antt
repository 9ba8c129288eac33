-- ===== src/Ws/Server/Broadcast/Receivers.antt =====
-- To whom a broadcast sends, and what.
use mathlib.Core.List.{append_assoc}
use xmtp_broker.Base.{
  ◌+◌, all_different, ℕ, ◌≤◌, String, true, false, List, [], ◌∷◌, ◌++◌, Option, none, some, ◌==◌,
  eq_iff, eq_refl, ◌≡◌, ◌⊎◌, refl, sym, ap, subst, ◌∙◌, includes, includes-filter, get, get_elem?,
  arith, inl, inr, Bool-cases, Option-cases,
}
use xmtp_broker.Sessions.Credentials.Store.{CredentialStatus, is_active}
use xmtp_broker.Sessions.Credentials.Store
use xmtp_broker.Sessions.Service.{PublicCredential}
use xmtp_broker.Ws.Connection.{
  ConnectionPhase, active, BackpressureState, fine, warning, exceeded, state_of, mark_notified,
}
use xmtp_broker.Ws.Sequence.{SequencedFrame, CredentialReplayState}
use xmtp_broker.Ws.Server.{
  Connection, Server, ServerEvent, Environment, SocketCall, send, close, sequenced, backpressured,
  backpressure_notice, belongs_to, is_phase_active, deliver, send_json, close_if_exceeded,
}
use xmtp_broker.Ws.Server.Broadcast.{due, projected, projected_by, broadcast_to_credential}
use xmtp_broker.Ws.Server.Broadcast.Delivery.{
  receives, receives-listed, broadcast-silent, broadcast-IsDelivered,
}

abbrev pub Projector : Type 0 → Type 0
Projector X = ServerEvent X → PublicCredential → Option (ServerEvent X)

module _ {X : Type 0} where
  -- The event as the projector, if there is one, lets the holder of the credential see it.
  abbrev pub SeesBy :
      Option (Projector X) → ServerEvent X → PublicCredential → ServerEvent X → Type 0
  SeesBy none event credential own = own ≡ event
  SeesBy (some project) event credential own = project event credential ≡ some own

  projected_by-SeesBy :
      (p : Option (Projector X)) (event own : ServerEvent X) (credential : PublicCredential)
      → SeesBy p event credential own
      → projected_by p event credential ≡ some own
  projected_by-SeesBy none event own credential same = ap some (sym same)
  projected_by-SeesBy (some project) event own credential e = e

  SeesBy-projected_by :
      (p : Option (Projector X)) (event own : ServerEvent X) (credential : PublicCredential)
      → projected_by p event credential ≡ some own
      → SeesBy p event credential own
  SeesBy-projected_by none event own credential e = cc e
  SeesBy-projected_by (some project) event own credential e = e

module _ {X : Type 0} (env : Environment X) where
  abbrev pub Sees : ServerEvent X → PublicCredential → ServerEvent X → Type 0
  Sees event credential own = SeesBy env.project_event event credential own

  -- The connection `c` may have the event, as `own`.
  pub record MayReceive (s : Server X) (credential_id : String) (event : ServerEvent X)
      (id : String) (own : ServerEvent X) : Type 0 where
    pub connection : Connection X
    pub credential : PublicCredential
    pub free : get s.pending_invalidations credential_id ≡ none
    pub listed : includes s.registry id ≡ true
    pub socket : get s.sockets id ≡ some connection
    pub owner : connection.credential_id ≡ some credential_id
    pub running : connection.phase ≡ active
    pub holds : connection.credential_record ≡ some credential
    pub usable : credential.status ≡ Store.active
    pub sees : Sees event credential own

  projected-Sees :
      (event own : ServerEvent X) (credential : PublicCredential)
      → Sees event credential own
      → projected env event credential ≡ some own
  projected-Sees event own credential sees =
      projected_by-SeesBy env.project_event event own credential sees

  Sees-projected :
      (event own : ServerEvent X) (credential : PublicCredential)
      → projected env event credential ≡ some own
      → Sees event credential own
  Sees-projected event own credential e =
      SeesBy-projected_by env.project_event event own credential e

  is_active-status : (status : CredentialStatus) → is_active status ≡ true → status ≡ Store.active
  is_active-status status h = ground arith

  is_phase_active-phase : (p : ConnectionPhase) → is_phase_active p ≡ true → p ≡ active
  is_phase_active-phase p h = ground arith

  due-inv :
      (event own : ServerEvent X) (c : Connection X)
      → due env event (some c) ≡ some own
      → (credential : PublicCredential) × (c.phase ≡ active)
        × (c.credential_record ≡ some credential)
        × (credential.status ≡ Store.active)
        × Sees event credential own
  due-inv event own c e = elim (Bool-cases (is_phase_active c.phase)) [
    | inr idle ↦ let nothing : due env event (some c) ≡ none = rw (idle, due) in cc (nothing, e)
    | inl running ↦ elim (Option-cases c.credential_record) [
      | inl bare ↦
          let nothing : due env event (some c) ≡ none = rw (running, bare, due) in cc (nothing, e)
      | inr (credential, holds) ↦ elim (Bool-cases (is_active credential.status)) [
        | inr over ↦
            let nothing : due env event (some c) ≡ none = rw (running, holds, over, due) in
            cc (nothing, e)
        | inl usable ↦
            let same : due env event (some c) ≡ projected env event credential =
              rw (running, holds, usable, due) in
            (
              credential,
              is_phase_active-phase c.phase running,
              holds,
              is_active-status credential.status usable,
              Sees-projected event own credential (sym same ∙ e),
            )
      ]
    ]
  ]

  belongs_to-inv :
      (k : String) (c : Connection X) → belongs_to k (some c) ≡ true → c.credential_id ≡ some k
  belongs_to-inv k c mine = elim (Option-cases c.credential_id) [
    | inl nobody ↦
        let no_one : belongs_to k (some c) ≡ false = rw (nobody, belongs_to) in cc (no_one, mine)
    | inr (own, e) ↦
        let same : belongs_to k (some c) ≡ (own == k) = rw (e, belongs_to) in
        e ∙ ap some ((eq_iff own k).0 (sym same ∙ mine))
  ]

  MayReceive-receives :
      (s : Server X) (credential_id : String) (event own : ServerEvent X) (id : String)
      → MayReceive s credential_id event id own
      → receives env s credential_id event id ≡ some own
  MayReceive-receives s credential_id event own id may =
      let mine : belongs_to credential_id (some may.connection) ≡ true =
        rw (may.owner, belongs_to) (eq_refl credential_id) in
      let is_due : due env event (some may.connection) ≡ some own =
        simp (may.running, may.holds, may.usable, due)
          (projected-Sees event own may.credential may.sees) in
      rw (may.free, may.listed, may.socket, mine, receives) is_due

  receives-MayReceive :
      (s : Server X) (credential_id : String) (event own : ServerEvent X) (id : String)
      → receives env s credential_id event id ≡ some own
      → MayReceive s credential_id event id own
  receives-MayReceive s credential_id event own id r =
      let (free, in_list, is_due) = receives-listed env s credential_id event own id r in
      let both =
        sym (includes-filter (λ i. belongs_to credential_id (get s.sockets i)) s.registry id)
        ∙ in_list in
      elim (Option-cases (get s.sockets id)) [
        | inl gone ↦
            let nothing : due env event (get s.sockets id) ≡ none = rw gone in cc (nothing, is_due)
        | inr (c, socket) ↦
            let (credential, running, holds, usable, sees) =
              due-inv event own c (ap (due env event) (sym socket) ∙ is_due) in
            record {
              connection = c;
              credential = credential;
              free = free;
              listed = ground arith;
              socket = socket;
              owner =
                  belongs_to-inv credential_id c
                    (ap (belongs_to credential_id) (sym socket) ∙ ground arith);
              running = running;
              holds = holds;
              usable = usable;
              sees = sees;
            }
      ]

  -- A broadcast leaves as it was, so that nothing is sent on it, every connection that may not have
  -- the event: one for which it is not true that no invalidation of the credential is pending, and
  -- that it is registered for that credential, active, and holds an active credential by which the
  -- event is not projected away.
  pub broadcast-quiet :
      (s : Server X) (credential_id : String) (event : ServerEvent X) (id : String)
      → ¬ ((own : ServerEvent X) × MayReceive s credential_id event id own)
      → get (broadcast_to_credential env s credential_id event).sockets id ≡ get s.sockets id
  broadcast-quiet s credential_id event id may_not =
      broadcast-silent env s credential_id event id
        (elim (Option-cases (receives env s credential_id event id)) [
          | inl nothing ↦ nothing
          | inr (own, r) ↦
              absurd (may_not (own, receives-MayReceive s credential_id event own id r))
        ])

  abbrev is_frame : SocketCall X → ℕ
  is_frame (close code) = 0
  is_frame (send f) = elim f [ sequenced frame ↦ 1 | _ ↦ 0 ]

  -- How many numbered frames were sent.
  abbrev pub frames_in : List (SocketCall X) → ℕ
  frames_in [] = 0
  frames_in (call ∷ calls) = is_frame call + frames_in calls

  frames-append :
      (calls : List (SocketCall X)) (call : SocketCall X)
      → frames_in (calls ++ call ∷ []) ≡ frames_in calls + is_frame call
  frames-append [] call = omega arith
  frames-append (c ∷ cs) call = omega (arith, frames-append cs call)

  -- What a connection was asked to do is what it had been asked, the frame, and more that sends no
  -- other numbered frame.
  pub record StartsWith (c d : Connection X) (frame : SequencedFrame (ServerEvent X)) : Type 0 where
    pub more : List (SocketCall X)
    pub calls : d.calls ≡ c.calls ++ send (sequenced frame) ∷ more
    pub once : frames_in more ≡ 0

  StartsWith-append :
      (c d e : Connection X) (frame : SequencedFrame (ServerEvent X)) (call : SocketCall X)
      → StartsWith c d frame
      → e.calls ≡ d.calls ++ call ∷ []
      → is_frame call ≡ 0
      → StartsWith c e frame
  StartsWith-append c d e frame call before next silent = record {
    more = before.more ++ call ∷ [];
    calls =
        next
        ∙ ap (λ calls. calls ++ call ∷ []) before.calls
        ∙ append_assoc c.calls (send (sequenced frame) ∷ before.more) (call ∷ []);
    once = let n = frames-append before.more call in let m = before.once in omega arith;
  }

  state-cases : (b : BackpressureState) → (b ≡ fine) ⊎ ((b ≡ warning) ⊎ (b ≡ exceeded))
  state-cases fine = inl refl
  state-cases warning = inr (inl refl)
  state-cases exceeded = inr (inr refl)

  close_if_exceeded-StartsWith :
      (c d : Connection X) (frame : SequencedFrame (ServerEvent X))
      → StartsWith c d frame
      → StartsWith c (close_if_exceeded d) frame
  unfolding close_if_exceeded
  close_if_exceeded-StartsWith c d frame before = elim (state-cases (state_of d.backpressure)) [
    | inl ok_state ↦
        subst (λ x. StartsWith c x frame) (sym (simp (ok_state, close_if_exceeded))) before
    | inr (inl warned) ↦
        subst (λ x. StartsWith c x frame) (sym (simp (warned, close_if_exceeded))) before
    | inr (inr over) ↦
        let closes : (close_if_exceeded d).calls ≡ d.calls ++ close backpressured ∷ [] =
          simp (over, close_if_exceeded) in
        StartsWith-append c d (close_if_exceeded d) frame (close backpressured) before closes refl
  ]

  deliver-StartsWith :
      (c : Connection X) (frame : SequencedFrame (ServerEvent X))
      → StartsWith c (deliver env c frame) frame
  unfolding deliver send_json
  deliver-StartsWith c frame =
      let sent = send_json env c (sequenced frame) in
      let first : StartsWith c sent frame = record { more = []; calls = refl; once = refl } in
      elim (state-cases (state_of sent.backpressure)) [
        | inl well ↦ subst (λ x. StartsWith c x frame) (sym (simp (well, deliver))) first
        | inr (inr over) ↦
            let closes : (deliver env c frame).calls ≡ sent.calls ++ close backpressured ∷ [] =
              simp (over, deliver) in
            StartsWith-append c sent (deliver env c frame) frame (close backpressured) first closes
              refl
        | inr (inl warned) ↦ elim (Bool-cases sent.backpressure.notified) [
          | inl told ↦ subst (λ x. StartsWith c x frame) (sym (simp (warned, told, deliver))) first
          | inr untold ↦
              let notice =
                backpressure_notice sent.backpressure.depth env.config.send_buffer_hard_limit in
              let marked = record sent { backpressure = mark_notified sent.backpressure } in
              let noticed = send_json env marked notice in
              let second : StartsWith c noticed frame =
                StartsWith-append c sent noticed frame (send notice) first refl refl in
              subst (λ x. StartsWith c x frame) (sym (simp (warned, untold, deliver)))
                (close_if_exceeded-StartsWith c noticed frame second)
        ]
      ]

  -- With no connection registered twice, a broadcast reaches each connection that may have the event:
  -- after all that it had been asked before, the connection is asked to send the event, as its own
  -- credential lets it see it, in one frame, whose number is not below the next number of its replay
  -- state, and no other numbered frame.
  pub broadcast-delivers :
      (s : Server X) (credential_id : String) (event own : ServerEvent X) (id : String)
      (c : Connection X) (address : ℕ) (held : CredentialReplayState (ServerEvent X))
      → all_different s.registry ≡ true
      → MayReceive s credential_id event id own
      → get s.sockets id ≡ some c
      → c.credential_replay_state ≡ some address
      → get_elem? s.heap address ≡ some held
      → (d : Connection X) × (n : ℕ) × (held.next_seq ≤ n)
        × (get (broadcast_to_credential env s credential_id event).sockets id ≡ some d)
        × StartsWith c d (record { seq = n; event = own })
  broadcast-delivers s credential_id event own id c address held different may found attached at =
      let r = MayReceive-receives s credential_id event own id may in
      let (state, later, there) =
        broadcast-IsDelivered env s credential_id event own id c address held different r found
          attached at in
      (
        deliver env c (record { seq = state.next_seq; event = own }),
        state.next_seq,
        later,
        there,
        deliver-StartsWith c (record { seq = state.next_seq; event = own }),
      )
