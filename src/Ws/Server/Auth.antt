-- ===== src/Ws/Server/Auth.antt =====
-- packages/ws/src/auth-handler.ts, connection-state.ts and the part of server.ts that admits a
-- connection: the upgrade, `open`, the authentication timer and `handleAuthFrame`, which is three
-- steps: up to the token lookup, from it up to the fingerprint, and from there on.
pub mod Laws
use xmtp_broker.Base.{
  ℕ, String, Bool, true, false, List, [], ◌∷◌, ◌++◌, Option, none, some, length, includes, set_add,
  get, put, get_elem?, Result, ok, err, if◌then◌else◌,
}
use xmtp_broker.Sessions.Credentials.Store.{is_active}
use xmtp_broker.Sessions.Service.{PublicCredential}
use xmtp_broker.Ws.Connection.{authenticating, active, transition}
use xmtp_broker.Ws.Sequence.{SequencedFrame, ReplayPlan, new_credential_state, plan_replay}
use xmtp_broker.Ws.Server.{
  Connection, Server, ServerEvent, Environment, WsServerConfig, Frame, sequenced, auth_error,
  authenticated, recovery_complete, draining, stopped, ServerState, going_away, auth_failed,
  auth_timeout, protocol_error, is_phase_authenticating, close_socket, send_json, send_sequenced,
}

pub record AuthFrame : Type 0 where
  pub token : String
  pub last_seen_seq : Option ℕ

-- An error of the lookup passed on, or the handler's own.
pub data AuthFailure (E : Type 0) : Type 0 where
  from_lookup : E → AuthFailure E
  not_active : String → AuthFailure E

unfoldable pub handle_auth :
    {E : Type 0} → Result E PublicCredential → Result (AuthFailure E) PublicCredential
handle_auth (err e) = err (from_lookup e)
handle_auth (ok credential) =
    if is_active credential.status then ok credential else err (not_active credential.credential_id)

abbrev pub is_going_away : ServerState → Bool
is_going_away draining = true
is_going_away stopped = true
is_going_away _ = false

module _ {X : Type 0} where
  unfoldable pub create_connection_state : WsServerConfig → String → ℕ → Connection X
  create_connection_state config connection_id now = record {
    connection_id = connection_id;
    phase = authenticating;
    credential_record = none;
    credential_id = none;
    operator_id = none;
    credential_replay_state = none;
    backpressure = record {
      depth = 0;
      notified = false;
      soft_limit = config.send_buffer_soft_limit;
      hard_limit = config.send_buffer_hard_limit;
    };
    auth_timer = false;
    heartbeat_timer = false;
    in_flight_requests = [];
    request_timers = [];
    last_client_activity = now;
    message_count = 0;
    message_window_start = now;
    calls = [];
  }

  unfoldable pub on_open : ServerState → Connection X → Connection X
  on_open state c =
      if is_going_away state then close_socket c going_away else record c { auth_timer = true }

  -- the timer of `open` fires
  unfoldable pub on_auth_timeout : Environment X → Connection X → Connection X
  on_auth_timeout env c =
      if is_phase_authenticating c.phase
      then close_socket (send_json env c (auth_error auth_timeout)) auth_timeout
      else c

  -- up to the lookup; `parsed` is the frame, if the schema accepts it
  unfoldable pub auth_begin :
      Environment X → Connection X → Option AuthFrame → Connection X × Option AuthFrame
  auth_begin env c parsed =
      if is_phase_authenticating c.phase
      then (let waiting = record c { auth_timer = false } in
          elim parsed [
            | none ↦ (
              close_socket (send_json env waiting (auth_error protocol_error)) protocol_error,
              none,
            )
            | some frame ↦ (waiting, some frame)
          ])
      else (c, none)

  unfoldable pub get_or_create_credential_state : WsServerConfig → Server X → String → Server X × ℕ
  get_or_create_credential_state config s credential_id =
      elim (get s.credential_states credential_id) [
        | some address ↦ (s, address)
        | none ↦
            let address = length s.heap in
            (
              record s {
                heap = s.heap ++ new_credential_state config.replay_buffer_size ∷ [];
                credential_states = put s.credential_states credential_id address;
              },
              address,
            )
      ]

  -- the connection once its credential is known
  unfoldable pub admit : Connection X → PublicCredential → ℕ → Connection X
  admit c credential address = record c {
    credential_record = some credential;
    credential_id = some credential.credential_id;
    operator_id = some credential.operator_id;
    phase = (transition c.phase active).0;
    credential_replay_state = some address;
  }

  abbrev pub no_plan : ReplayPlan (ServerEvent X)
  no_plan = record { resumed_from_seq = none; needs_recovery = false; replay_frames = [] }

  plan_at : Server X → ℕ → Option ℕ → ReplayPlan (ServerEvent X)
  plan_at s address last_seen = elim (get_elem? s.heap address) [
    | none ↦ no_plan
    | some state ↦ plan_replay state last_seen
  ]

  -- from the lookup up to the fingerprint, with the credential and the plan that go on from there
  unfoldable pub auth_register :
      {E : Type 0}
      → Environment X
      → Server X
      → String
      → AuthFrame
      → Result (AuthFailure E) PublicCredential
      → Server X × Option (PublicCredential × ReplayPlan (ServerEvent X))
  unfolding plan_at
  auth_register env s id frame result = elim (get s.sockets id) [
    | none ↦ (s, none)
    | some c ↦ elim result [
      | err e ↦ (
        record s {
          sockets =
              put s.sockets id
                (close_socket (send_json env c (auth_error auth_failed)) auth_failed);
        },
        none,
      )
      | ok credential ↦
          let (with_state, address) =
            get_or_create_credential_state env.config s credential.credential_id in
          (
            record with_state {
              sockets = put s.sockets id (admit c credential address);
              registry = set_add s.registry id;
            },
            some (credential, plan_at with_state address frame.last_seen_seq),
          )
    ]
  ]

  unfoldable pub send_all :
      Environment X → Connection X → List (SequencedFrame (ServerEvent X)) → Connection X
  send_all env c [] = c
  send_all env c (frame ∷ frames) = send_all env (send_json env c (sequenced frame)) frames

  abbrev pub update_socket : Server X → String → (Connection X → Connection X) → Server X
  update_socket s id f = elim (get s.sockets id) [
    | none ↦ s
    | some c ↦ record s { sockets = put s.sockets id (f c) }
  ]

  -- the frame `authenticated`, and what was missed or the news that it cannot be had
  unfoldable pub auth_answer :
      Environment X
      → Server X
      → String
      → PublicCredential
      → ReplayPlan (ServerEvent X)
      → String
      → ℕ
      → Server X
  auth_answer env s id credential plan fingerprint now =
      let greeted = update_socket s id (λ c.
        send_json env c
          (authenticated c.connection_id credential fingerprint plan.resumed_from_seq)) in
      let told =
        if plan.needs_recovery
        then send_sequenced env greeted id (recovery_complete now)
        else update_socket greeted id (λ c. send_all env c plan.replay_frames) in
      update_socket told id (λ c. record c { heartbeat_timer = true })
