-- ===== src/Ws/Server.antt =====
-- packages/ws/src/server.ts, connection-registry.ts, close-codes.ts and the connection data of
-- connection-state.ts: the state of the server and what it does to one socket. The shared objects
-- are modelled by name: a socket by its connection id, the replay state of a credential by its
-- address in `heap`, so that the connections of one credential number their frames together.
-- A callback of the runtime, and the part of a handler after an `await`, is a step of its own;
-- what the awaited call answered, and the time, are arguments of that step.
pub mod Limiter
pub mod Auth
pub mod Requests
pub mod Lifecycle
pub mod Broadcast
use xmtp_broker.Base.{
  includes, ℕ, ◌+◌, String, Bool, true, false, List, [], ◌∷◌, ◌++◌, Option, none, some, ◌==◌,
  Result, filter, get, put, get_elem?, set, if◌then◌else◌,
}
use xmtp_broker.Sessions.Credentials.Store.{CredentialStatus, revoked, expired}
use xmtp_broker.Sessions.Service.{PublicCredential}
use xmtp_broker.Ws.Connection.{
  ConnectionPhase, authenticating, active, BackpressureTracker, warning, exceeded, state_of,
  increment, mark_notified,
}
use xmtp_broker.Ws.Sequence.{SequencedFrame, CredentialReplayState, sequence_event}

-- `WS_CLOSE_CODES`
pub data CloseCode : Type 0 where
  normal going_away auth_failed auth_timeout credential_expired : CloseCode
  credential_revoked policy_change backpressured dead_connection rate_limited : CloseCode
  protocol_error : CloseCode

abbrev pub code_of : CloseCode → ℕ
code_of normal = 1000
code_of going_away = 1001
code_of auth_failed = 4001
code_of auth_timeout = 4002
code_of credential_expired = 4003
code_of credential_revoked = 4004
code_of policy_change = 4005
code_of backpressured = 4008
code_of dead_connection = 4010
code_of rate_limited = 1008
code_of protocol_error = 4009

-- The events the server makes itself, and those it is given, `X`.
pub data ServerEvent (X : Type 0) : Type 0 where
  heartbeat : String → ℕ → ServerEvent X
  shutdown : String → ServerEvent X
  recovery_complete : ℕ → ServerEvent X
  other : X → ServerEvent X

pub record RequestError : Type 0 where
  pub code : ℕ
  pub category : String
  pub message : String

-- The frames that leave the server; a reply carries its data as a text.
pub data Frame (X : Type 0) : Type 0 where
  sequenced : SequencedFrame (ServerEvent X) → Frame X
  backpressure_notice : ℕ → ℕ → Frame X
  auth_error : CloseCode → Frame X
  authenticated : String → PublicCredential → String → Option ℕ → Frame X
  reply : String → Result RequestError String → Frame X

-- What the server asks of a socket.
pub data SocketCall (X : Type 0) : Type 0 where
  send : Frame X → SocketCall X
  close : CloseCode → SocketCall X

-- `ws.data`, with the calls made on the socket so far. Of a timer it says whether it is set;
-- the timers of requests are their ids, in the order in which they were set.
pub record Connection (X : Type 0) : Type 0 where
  pub connection_id : String
  pub phase : ConnectionPhase
  pub credential_record : Option PublicCredential
  pub credential_id : Option String
  pub operator_id : Option String
  pub credential_replay_state : Option ℕ
  pub backpressure : BackpressureTracker
  pub auth_timer : Bool
  pub heartbeat_timer : Bool
  pub in_flight_requests : List (String × ℕ)
  pub request_timers : List String
  pub last_client_activity : ℕ
  pub message_count : ℕ
  pub message_window_start : ℕ
  pub calls : List (SocketCall X)

pub record WsServerConfig : Type 0 where
  pub heartbeat_interval_ms : ℕ
  pub missed_heartbeats_before_dead : ℕ
  pub replay_buffer_size : ℕ
  pub send_buffer_soft_limit : ℕ
  pub send_buffer_hard_limit : ℕ
  pub rate_limit_window_ms : ℕ
  pub rate_limit_max_messages : Option ℕ

-- `congested` says of a connection, its calls so far and a frame whether `ws.send` returns -1.
pub record Environment (X : Type 0) : Type 0 where
  pub config : WsServerConfig
  pub congested : String → List (SocketCall X) → Frame X → Bool
  pub project_event : Option (ServerEvent X → PublicCredential → Option (ServerEvent X))

pub record PendingInvalidation (X : Type 0) : Type 0 where
  pub refcount : ℕ
  pub generation : ℕ
  pub events : List (ServerEvent X)

pub data ServerState : Type 0 where
  idle listening draining stopped : ServerState

pub record Server (X : Type 0) : Type 0 where
  pub sockets : List (String × Connection X)
  pub registry : List String
  pub credential_states : List (String × ℕ)
  pub heap : List (CredentialReplayState (ServerEvent X))
  pub pending_invalidations : List (String × PendingInvalidation X)
  pub invalidation_gen : ℕ
  pub server_state : ServerState

-- `clearTimeout` of the timer that was set last for the request
abbrev pub clear_timer : List String → String → List String
clear_timer [] id = []
clear_timer (t ∷ ts) id =
    let rest = clear_timer ts id in
    if includes ts id then t ∷ rest else if t == id then ts else t ∷ ts

-- The timer that was set first for the request fires.
abbrev pub fire_timer : List String → String → List String
fire_timer [] id = []
fire_timer (t ∷ ts) id = let rest = fire_timer ts id in if t == id then ts else t ∷ rest

abbrev pub is_phase_active : ConnectionPhase → Bool
is_phase_active active = true
is_phase_active _ = false

abbrev pub is_phase_authenticating : ConnectionPhase → Bool
is_phase_authenticating authenticating = true
is_phase_authenticating _ = false

-- the close code for a credential that is not active
abbrev pub close_code_for : CredentialStatus → CloseCode
close_code_for revoked = credential_revoked
close_code_for expired = credential_expired
close_code_for _ = policy_change

abbrev pub belongs_to : {X : Type 0} → String → Option (Connection X) → Bool
belongs_to id none = false
belongs_to id (some c) = elim c.credential_id [ none ↦ false | some own ↦ own == id ]

module _ {X : Type 0} where
  abbrev pub new_server : Server X
  new_server = record {
    sockets = [];
    registry = [];
    credential_states = [];
    heap = [];
    pending_invalidations = [];
    invalidation_gen = 0;
    server_state = idle;
  }

  abbrev pub get_by_credential_id : Server X → String → List String
  get_by_credential_id s id = filter (λ i. belongs_to id (get s.sockets i)) s.registry

  abbrev pub close_socket : Connection X → CloseCode → Connection X
  close_socket c code = record c { calls = c.calls ++ close code ∷ [] }

  abbrev pub stop_heartbeat : Connection X → Connection X
  stop_heartbeat c = record c { heartbeat_timer = false }

  unfoldable pub send_json : Environment X → Connection X → Frame X → Connection X
  send_json env c frame = record c {
    calls = c.calls ++ send frame ∷ [];
    backpressure =
        if env.congested c.connection_id c.calls frame
        then increment c.backpressure
        else c.backpressure;
  }

  close_if_exceeded : Connection X → Connection X
  close_if_exceeded c = elim (state_of c.backpressure) [
    | exceeded ↦ close_socket c backpressured
    | _ ↦ c
  ]

  -- `sendSequenced` once the frame has its number
  unfoldable pub deliver :
      Environment X → Connection X → SequencedFrame (ServerEvent X) → Connection X
  unfolding send_json close_if_exceeded
  deliver env c frame =
      let sent = send_json env c (sequenced frame) in
      elim (state_of sent.backpressure) [
        | exceeded ↦ close_socket sent backpressured
        | warning ↦
            if sent.backpressure.notified
            then sent
            else (close_if_exceeded (
                send_json env (record sent { backpressure = mark_notified sent.backpressure })
                  (backpressure_notice sent.backpressure.depth env.config.send_buffer_hard_limit)))
        | _ ↦ sent
      ]

  unfoldable pub send_sequenced : Environment X → Server X → String → ServerEvent X → Server X
  send_sequenced env s id event = elim (get s.sockets id) [
    | none ↦ s
    | some c ↦ elim c.credential_replay_state [
      | none ↦ s
      | some address ↦ elim (get_elem? s.heap address) [
        | none ↦ s
        | some state ↦
            let (next, frame) = sequence_event state event in
            record s {
              heap = set s.heap address next;
              sockets = put s.sockets id (deliver env c frame);
            }
      ]
    ]
  ]
