-- ===== src/Ws/Server/Auth/Laws.antt =====
-- Who is admitted, and what a harness that comes back is sent.
use mathlib.Core.List.{append_assoc, append-nil}
use xmtp_broker.Base.{
  ℕ, ◌+◌, ◌<◌, String, Bool, true, false, List, [], ◌∷◌, ◌++◌, ◌||◌, map, Option, none, some, ◌==◌,
  eq_iff, eq_refl, ◌≡◌, refl, sym, ap, subst, ◌∙◌, includes, length, set_add, includes-set_add, get,
  put, get-put, get_elem?, drop, ltb, Result, ok, err, if◌then◌else◌, arith, inl, inr, Bool-cases,
  Option-cases,
}
use xmtp_broker.Sessions.Credentials.Store.{is_active}
use xmtp_broker.Sessions.Service.{PublicCredential}
use xmtp_broker.Ws.Connection.{ConnectionPhase, authenticating, active, transition}
use xmtp_broker.Ws.Sequence.{SequencedFrame, ReplayPlan, plan_replay}
use xmtp_broker.Ws.Sequence.Laws.{numbered, state_after, plan_replay-state_after}
use xmtp_broker.Ws.Server.{
  Connection, Server, ServerEvent, Environment, SocketCall, send, sequenced, authenticated,
  send_json,
}
use xmtp_broker.Ws.Server.Auth.{
  AuthFrame, AuthFailure, not_active, handle_auth, get_or_create_credential_state, admit, plan_at,
  auth_register, send_all, update_socket, auth_answer,
}

pub or-true : (b : Bool) → (b || true) ≡ true
or-true true = refl
or-true false = refl

module _ {X : Type 0} where
  pub update_socket-get :
      (s : Server X) (i : String) (f : Connection X → Connection X) (id : String) (c : Connection X)
      → get s.sockets id ≡ some c
      → get (update_socket s i f).sockets id ≡ some (if i == id then f c else c)
  update_socket-get s i f id c found = elim (Bool-cases (i == id)) [
    | inl here ↦
        let at : get s.sockets i ≡ some c = ap (get s.sockets) ((eq_iff i id).0 here) ∙ found in
        rw (at, update_socket, get-put s.sockets i (f c) id, here)
    | inr elsewhere ↦ elim (Option-cases (get s.sockets i)) [
      | inl gone ↦ rw (gone, update_socket, elsewhere) found
      | inr (d, at) ↦ rw (at, update_socket, get-put s.sockets i (f d) id, elsewhere) found
    ]
  ]

  pub update_socket-registry :
      (s : Server X) (i : String) (f : Connection X → Connection X)
      → (update_socket s i f).registry ≡ s.registry
  update_socket-registry s i f = ground arith

  -- A frame as the call that sends it.
  abbrev pub sent : SequencedFrame (ServerEvent X) → SocketCall X
  sent frame = send (sequenced frame)

  pub update_socket-own :
      (s : Server X) (id : String) (f : Connection X → Connection X) (c : Connection X)
      → get s.sockets id ≡ some c
      → get (update_socket s id f).sockets id ≡ some (f c)
  update_socket-own s id f c found =
      let at = update_socket-get s id f id c found in at ∙ rw (eq_refl id)

  send_all-calls :
      (env : Environment X) (c : Connection X) (frames : List (SequencedFrame (ServerEvent X)))
      → (send_all env c frames).calls ≡ c.calls ++ map sent frames
  unfolding send_all send_json
  send_all-calls env c [] = sym (append-nil c.calls)
  send_all-calls env c (frame ∷ frames) =
      send_all-calls env (send_json env c (sequenced frame)) frames
      ∙ append_assoc c.calls (sent frame ∷ []) (map sent frames)

  module _ (env : Environment X) where
    get_or_create-sockets :
        (s : Server X) (k : String)
        → ((get_or_create_credential_state env.config s k).0.sockets ≡ s.sockets)
          × ((get_or_create_credential_state env.config s k).0.registry ≡ s.registry)
    unfolding get_or_create_credential_state
    get_or_create-sockets s k = ground arith

    -- the state and the plan that a token lookup that succeeds leads to
    abbrev registered :
        Server X
        → String
        → Connection X
        → AuthFrame
        → PublicCredential
        → Server X × Option (PublicCredential × ReplayPlan (ServerEvent X))
    registered s id c frame credential =
        let made = get_or_create_credential_state env.config s credential.credential_id in
        (
          record made.0 {
            sockets = put s.sockets id (admit c credential made.1);
            registry = set_add s.registry id;
          },
          some (credential, plan_at made.0 made.1 frame.last_seen_seq),
        )

    auth_register-ok :
        (E : Type 0) (s : Server X) (id : String) (c : Connection X) (frame : AuthFrame)
        (credential : PublicCredential)
        → get s.sockets id ≡ some c
        → auth_register {E = E} env s id frame (ok credential) ≡ registered s id c frame credential
    unfolding auth_register
    auth_register-ok E s id c frame credential found = rw (found, auth_register)

    auth_register-err :
        (E : Type 0) (s : Server X) (id : String) (c : Connection X) (frame : AuthFrame)
        (failure : AuthFailure E)
        → get s.sockets id ≡ some c
        → (auth_register env s id frame (err failure)).1 ≡ none
    unfolding auth_register
    auth_register-err E s id c frame failure found = rw (found, auth_register)

    -- The connection that is now there under the id, from the connection `c` that was.
    pub record IsAdmitted (t : Server X) (id : String) (c : Connection X)
        (credential : PublicCredential) : Type 0 where
      pub connection : Connection X
      pub address : ℕ
      pub there : get t.sockets id ≡ some connection
      pub active_now : connection.phase ≡ active
      pub holds : connection.credential_record ≡ some credential
      pub credential_id : connection.credential_id ≡ some credential.credential_id
      pub operator_id : connection.operator_id ≡ some credential.operator_id
      pub attached : connection.credential_replay_state ≡ some address
      pub replay_state : get t.credential_states credential.credential_id ≡ some address
      pub calls : connection.calls ≡ c.calls

    get_or_create-get :
        (s : Server X) (k : String)
        → get (get_or_create_credential_state env.config s k).0.credential_states k
          ≡ some (get_or_create_credential_state env.config s k).1
    unfolding get_or_create_credential_state
    get_or_create-get s k = elim (Option-cases (get s.credential_states k)) [
      | inl absent ↦
          rw (absent, get_or_create_credential_state)
            (get-put s.credential_states k (length s.heap) k ∙ rw (eq_refl k))
      | inr (address, at) ↦ rw (at, get_or_create_credential_state) at
    ]

    transition-active :
        (p : ConnectionPhase) → p ≡ authenticating → (transition p active).0 ≡ active
    unfolding transition
    transition-active p waiting = ground arith

    registered-IsAdmitted :
        (s : Server X) (id : String) (c : Connection X) (frame : AuthFrame)
        (credential : PublicCredential)
        → c.phase ≡ authenticating
        → IsAdmitted (registered s id c frame credential).0 id c credential
    unfolding admit
    registered-IsAdmitted s id c frame credential waiting =
        let made = get_or_create_credential_state env.config s credential.credential_id in
        let joined = admit c credential made.1 in
        record {
          connection = joined;
          address = made.1;
          there = get-put s.sockets id joined id ∙ rw (eq_refl id);
          active_now = transition-active c.phase waiting;
          holds = refl;
          credential_id = refl;
          operator_id = refl;
          attached = refl;
          replay_state = get_or_create-get s credential.credential_id;
          calls = refl;
        }

    -- A connection that was authenticating is admitted only with a credential that the token lookup
    -- gave and that is active. It is then registered, active, holds that credential under its ids and
    -- the replay state of the credential, and nothing is sent on it.
    pub auth_register-admits :
        {E : Type 0} (s : Server X) (id : String) (c : Connection X) (frame : AuthFrame)
        (lookup : Result E PublicCredential) (credential : PublicCredential)
        (plan : ReplayPlan (ServerEvent X))
        → get s.sockets id ≡ some c
        → c.phase ≡ authenticating
        → (auth_register env s id frame (handle_auth lookup)).1 ≡ some (credential, plan)
        → (lookup ≡ ok credential)
          × (is_active credential.status ≡ true)
          × (includes (auth_register env s id frame (handle_auth lookup)).0.registry id ≡ true)
          × IsAdmitted (auth_register env s id frame (handle_auth lookup)).0 id c credential
    unfolding auth_register handle_auth
    auth_register-admits {E} s id c frame (err e) credential plan found waiting passed =
        let refused : (auth_register env s id frame (handle_auth {E = E} (err e))).1 ≡ none =
          rw (found, auth_register) in
        cc (refused, passed)
    auth_register-admits {E} s id c frame (ok fresh) credential plan found waiting passed =
        elim (Bool-cases (is_active fresh.status)) [
          | inr not_usable ↦
              let rejected : handle_auth {E = E} (ok fresh) ≡ err (not_active fresh.credential_id) =
                rw not_usable in
              let refused : (auth_register {E = E} env s id frame (handle_auth (ok fresh))).1
                  ≡ none =
                ap (λ r. (auth_register {E = E} env s id frame r).1) rejected
                ∙ auth_register-err E s id c frame (not_active fresh.credential_id) found in
              cc (refused, passed)
          | inl usable ↦
              let registered = auth_register-ok E s id c frame fresh found in
              let handled : handle_auth {E = E} (ok fresh) ≡ ok fresh = rw usable in
              let passed' = rw (handled, registered) at passed in
              let same : fresh ≡ credential = cc passed' in
              (
                ap ok same,
                ap (λ r. is_active r.status) (sym same) ∙ usable,
                rw (handled, registered, includes-set_add s.registry id id, eq_refl id)
                    (or-true (includes s.registry id)),
                subst (λ r. IsAdmitted r.0 id c credential)
                    (sym (ap (λ r. auth_register env s id frame r) handled ∙ registered))
                    (subst (IsAdmitted _ id c) same
                      (registered-IsAdmitted s id c frame fresh waiting)),
              )
        ]

  auth_answer-replays :
      (env : Environment X) (s : Server X) (id : String) (c : Connection X)
      (credential : PublicCredential) (plan : ReplayPlan (ServerEvent X)) (fingerprint : String)
      (now : ℕ)
      → get s.sockets id ≡ some c
      → plan.needs_recovery ≡ false
      → (d : Connection X) × (get (auth_answer env s id credential plan fingerprint now).sockets id
          ≡ some d)
        × (d.calls
            ≡ c.calls
              ++ send (authenticated c.connection_id credential fingerprint plan.resumed_from_seq)
                ∷ map sent plan.replay_frames)
  unfolding auth_answer send_json
  auth_answer-replays env s id c credential plan fingerprint now found near =
      let greeting = authenticated c.connection_id credential fingerprint plan.resumed_from_seq in
      let greet : Connection X → Connection X = λ d.
        send_json env d
          (authenticated d.connection_id credential fingerprint plan.resumed_from_seq) in
      let replay : Connection X → Connection X = λ d. send_all env d plan.replay_frames in
      let beat : Connection X → Connection X = λ d. record d { heartbeat_timer = true } in
      let greeted = update_socket-own s id greet c found in
      let told = update_socket-own (update_socket s id greet) id replay (greet c) greeted in
      (
        beat (replay (greet c)),
        rw near (
            update_socket-own (update_socket (update_socket s id greet) id replay) id beat
              (replay (greet c)) told),
        send_all-calls env (greet c) plan.replay_frames
            ∙ append_assoc c.calls (send greeting ∷ []) (map sent plan.replay_frames),
      )

  -- A harness that comes back with the number of the last frame it has seen, for a credential whose
  -- replay state has numbered the events so far, and is not further behind than the buffer holds: on
  -- its connection it is sent the greeting and then every frame after that number, each once and in
  -- order, and nothing else, if no event is broadcast to it before the greeting.
  pub reconnect-replays :
      (E : Type 0) (env : Environment X) (s : Server X) (id : String) (c : Connection X)
      (frame : AuthFrame) (credential : PublicCredential) (fingerprint : String)
      (now address size last : ℕ) (events : List (ServerEvent X))
      (plan : ReplayPlan (ServerEvent X))
      → get s.sockets id ≡ some c
      → get s.credential_states credential.credential_id ≡ some address
      → get_elem? s.heap address ≡ some (state_after size events)
      → 0 < size
      → frame.last_seen_seq ≡ some last
      → ltb (last + size) (length events) ≡ false
      → (auth_register {E = E} env s id frame (ok credential)).1 ≡ some (credential, plan)
      → (d : Connection X) × (get
            (auth_answer env
              (auth_register {E = E} env s id frame (ok credential)).0
              id
              credential
              plan
              fingerprint
              now).sockets
            id
          ≡ some d)
        × (d.calls
            ≡ c.calls
              ++ send (authenticated c.connection_id credential fingerprint plan.resumed_from_seq)
                ∷ map sent (drop last (numbered 1 events)))
  unfolding auth_register get_or_create_credential_state plan_at admit
  reconnect-replays E env s id c frame credential fingerprint now address size last events plan
        found known at pos seen near registered_with =
      let made : get_or_create_credential_state env.config s credential.credential_id
          ≡ (s, address) =
        rw (known, get_or_create_credential_state) in
      let done = auth_register-ok env E s id c frame credential found in
      let sockets : (auth_register {E = E} env s id frame (ok credential)).0.sockets
          ≡ put s.sockets id (admit c credential address) =
        rw (done, made) in
      let planned_at : plan_at s address (some last)
          ≡ plan_replay (state_after size events) (some last) =
        rw (at, plan_at) in
      let chosen : (auth_register {E = E} env s id frame (ok credential)).1
          ≡ some (credential, plan_replay (state_after size events) (some last)) =
        rw (done, made, seen, planned_at) in
      let planned : plan ≡ plan_replay (state_after size events) (some last) =
        cc (chosen, registered_with) in
      let (recovery, frames) = plan_replay-state_after size last events pos in
      let (d, there, calls) =
        auth_answer-replays env (auth_register {E = E} env s id frame (ok credential)).0 id
          (admit c credential address) credential plan fingerprint now
          (rw (sockets, get-put s.sockets id (admit c credential address) id, eq_refl id))
          (ap (λ p. p.needs_recovery) planned ∙ recovery ∙ near) in
      let replayed : plan.replay_frames ≡ drop last (numbered 1 events) =
        ap (λ p. p.replay_frames) planned ∙ frames ∙ rw near in
      (
        d,
        there,
        calls
            ∙ ap
                (λ f.
                  c.calls
                  ++ send
                      (authenticated c.connection_id credential fingerprint plan.resumed_from_seq)
                    ∷ map sent f)
                replayed,
      )
