-- ===== src/Examples/Server.antt =====
-- The server of the ws transport on two connections of one credential.
use xmtp_broker.Base.{
  put, ◌++◌, ap, ◌∙◌, ℕ, ◌+◌, ◌*◌, ◌≤◌, String, Bool, true, false, List, [], ◌∷◌, map, Option, none,
  some, ◌≡◌, refl, Result, ok, err, includes, get, drop, arith, if◌then◌else◌,
}
use xmtp_broker.Sessions.Credentials.Store.{active, revoked, is_active}
use xmtp_broker.Sessions.Service.{PublicCredential}
use xmtp_broker.Ws.Connection
use xmtp_broker.Ws.Sequence.{CredentialReplayState, ReplayPlan, plan_replay}
use xmtp_broker.Ws.Sequence.Laws.{numbered, state_after}
use xmtp_broker.Ws.Server.{
  reply, going_away, Connection, Server, ServerEvent, other, Environment, WsServerConfig,
  credential_revoked, close, send, authenticated, new_server, listening, SocketCall,
}
use xmtp_broker.Ws.Server.Auth.{
  AuthFrame, handle_auth, auth_register, auth_answer, get_or_create_credential_state,
}
use xmtp_broker.Ws.Server.Auth.Laws.{sent, IsAdmitted, auth_register-admits, reconnect-replays}
use xmtp_broker.Ws.Server.Broadcast.{
  same_number, broadcast_to_credential, invalidate_begin, invalidate_finish,
}
use xmtp_broker.Ws.Server.Broadcast.Receivers.{
  MayReceive, StartsWith, broadcast-quiet, broadcast-delivers,
}
use xmtp_broker.Ws.Server.Broadcast.Queue.{broadcasts, send_each, settled}
use xmtp_broker.Ws.Server.Broadcast.Snapshots.{AllHold}
use xmtp_broker.Ws.Server.Broadcast.Overlap.{
  Run, started, begun, finished, broadcasted, Run-latest_wins,
}
use xmtp_broker.Ws.Server.Broadcast.Settling.{queued, Run-settles}
use xmtp_broker.Ws.Server.Lifecycle.{stop_close}
use xmtp_broker.Ws.Server.Limiter.Laws.{handed_on, handed_on-bounded}
use xmtp_broker.Ws.Server.Requests.{HarnessRequest, answered, request_check}
use xmtp_broker.Ws.Server.Requests.Laws.{
  RequestStep, handler_answered, timer_fired, replies, in_flight, steps, steps-reply_once,
  request_check-decides,
}

abbrev config : WsServerConfig
config = record {
  heartbeat_interval_ms = 30000;
  missed_heartbeats_before_dead = 3;
  replay_buffer_size = 4;
  send_buffer_soft_limit = 2;
  send_buffer_hard_limit = 4;
  rate_limit_window_ms = 1000;
  rate_limit_max_messages = some 2;
}

abbrev never : String → List (SocketCall String) → Bool
never id calls = false

abbrev env : Environment String
env = record { config = config; congested = λ id calls frame. never id calls; project_event = none }

abbrev broad : PublicCredential
broad = record {
  credential_id = "cred";
  operator_id = "op";
  chat_ids = "chat" ∷ [];
  effective_scopes = record { allow = "send" ∷ "reply" ∷ []; deny = [] };
  status = active;
  issued_at = 0;
  expires_at = 100;
  issued_by = "owner";
  is_expired = false;
  last_heartbeat = 0;
}

abbrev narrow : PublicCredential
narrow = record broad { effective_scopes = record { allow = "send" ∷ []; deny = [] } }

abbrev revoked_one : PublicCredential
revoked_one = record broad { status = revoked }

abbrev fresh_connection : Connection String
fresh_connection = record {
  connection_id = "c1";
  phase = Connection.authenticating;
  credential_record = none;
  credential_id = none;
  operator_id = none;
  credential_replay_state = none;
  backpressure = record { depth = 0; notified = false; soft_limit = 2; hard_limit = 4 };
  auth_timer = false;
  heartbeat_timer = false;
  in_flight_requests = [];
  request_timers = [];
  last_client_activity = 0;
  message_count = 0;
  message_window_start = 0;
  calls = [];
}

abbrev joined : Connection String
joined = record fresh_connection {
  phase = Connection.active;
  credential_record = some broad;
  credential_id = some "cred";
  operator_id = some "op";
  credential_replay_state = some 0;
}

abbrev stale : Connection String
stale = record joined { connection_id = "c2"; credential_record = some revoked_one }

abbrev heap : List (CredentialReplayState (ServerEvent String))
heap = state_after 4 (other "a" ∷ other "b" ∷ other "c" ∷ []) ∷ []

abbrev server : Server String
server = record new_server {
  sockets =
      ("c1", joined)
      ∷ ("c2", stale)
      ∷ ("c3", record fresh_connection { connection_id = "c3" })
      ∷ [];
  registry = "c1" ∷ "c2" ∷ [];
  credential_states = ("cred", 0) ∷ [];
  heap = heap;
  server_state = listening;
}

abbrev messages : List (ℕ × Option String)
messages = (0, some "auth") ∷ (10, some "a") ∷ (20, some "b") ∷ (1500, some "c") ∷ (1600, none) ∷ []

handed_on-bounded_example : handed_on config 0 joined messages ≤ 2 * 2
handed_on-bounded_example =
    handed_on-bounded config 0 2 0 joined messages refl (omega arith)
      (omega arith, (omega arith, (omega arith, (omega arith, (omega arith, tt)))))

not_to_stale : ¬ ((own : ServerEvent String) × MayReceive env server "cred" (other "d") "c2" own)
not_to_stale (own, may) =
    let same : stale ≡ may.connection = cc may.socket in
    let holds : some revoked_one ≡ some may.credential =
      ap (λ c. c.credential_record) same ∙ may.holds in
    let one : revoked_one ≡ may.credential = cc holds in
    let status : revoked ≡ may.credential.status = ap (λ (r : PublicCredential). r.status) one in
    cc (status, may.usable)

broadcast-quiet_example :
    get (broadcast_to_credential env server "cred" (other "d")).sockets "c2" ≡ some stale
broadcast-quiet_example = broadcast-quiet env server "cred" (other "d") "c2" not_to_stale

joined_may : MayReceive env server "cred" (other "d") "c1" (other "d")
joined_may = record {
  connection = joined;
  credential = broad;
  free = refl;
  listed = refl;
  socket = refl;
  owner = refl;
  running = refl;
  holds = refl;
  usable = refl;
  sees = refl;
}

broadcast-delivers_example :
    (d : Connection String) × (n : ℕ) × ((state_after {E = ServerEvent String} 4
        (other "a" ∷ other "b" ∷ other "c" ∷ [])).next_seq
      ≤ n)
    × (get (broadcast_to_credential env server "cred" (other "d")).sockets "c1" ≡ some d)
    × StartsWith env joined d (record { seq = n; event = other "d" })
broadcast-delivers_example =
    broadcast-delivers env server "cred" (other "d") (other "d") "c1" joined 0
      (state_after 4 (other "a" ∷ other "b" ∷ other "c" ∷ [])) refl joined_may refl refl refl

abbrev answers : ℕ → Result String PublicCredential
answers n = if same_number n 1 then ok broad else ok narrow

abbrev both_begun : Server String
both_begun = invalidate_begin (invalidate_begin server "cred") "cred"

abbrev newest_done : Server String
newest_done =
    broadcast_to_credential env (invalidate_finish env both_begun "cred" 2 (answers 2)) "cred"
      (other "d")

abbrev all_done : Server String
all_done = invalidate_finish env newest_done "cred" 1 (answers 1)

-- The second of two invalidations comes back first, and an event is broadcast before the other does.
one_left : Run env answers "cred" server newest_done (1 ∷ []) (some 2)
unfolding invalidate_begin
one_left = broadcasted "cred" (other "d") (finished (1 ∷ []) 2 [] (begun (begun started)))

overlap : Run env answers "cred" server all_done [] (some 2)
overlap = finished [] 1 [] one_left

Run-settles_example :
    (get
        (invalidate_finish env
          (broadcasts env newest_done "cred" (other "e" ∷ []))
          "cred"
          1
          (answers 1)).pending_invalidations
        "cred"
      ≡ none)
    × (invalidate_finish env
          (broadcasts env newest_done "cred" (other "e" ∷ []))
          "cred"
          1
          (answers 1)
        ≡ send_each env
            (settled env (broadcasts env newest_done "cred" (other "e" ∷ [])) "cred" 1 (answers 1))
            "cred"
            (queued one_left ++ other "e" ∷ []))
Run-settles_example =
    Run-settles env answers "cred" server newest_done (some 2) 1 (other "e" ∷ []) refl one_left

Run-latest_wins_example : AllHold "cred" all_done narrow
Run-latest_wins_example =
    Run-latest_wins env answers "cred" server all_done 2 narrow refl overlap refl

abbrev request : HarnessRequest
request = record { request_type = "send_message"; request_id = "r1" }

abbrev late_answer : List (RequestStep String)
late_answer = timer_fired "r1" ∷ handler_answered request (answered (ok "sent")) (err "") ∷ []

abbrev checked : Connection String
checked = (request_check {E = String} env joined (ok broad) (ok request) 5).0

steps-reply_once_example :
    (replies "r1" (steps env checked late_answer).calls
        + in_flight "r1" (steps env checked late_answer)
      ≤ replies "r1" joined.calls + 1)
    × (replies "r1" joined.calls + 1
        ≤ replies "r1" (steps env checked late_answer).calls
          + in_flight "r1" (steps env checked late_answer))
unfolding request_check
steps-reply_once_example =
    steps-reply_once env joined (ok broad) (ok request) 5 broad request late_answer refl refl refl
      refl

request_check-decides_example :
    ((request_check {E = String} env joined (ok revoked_one) (ok request) 5).0.calls
      ≡ close credential_revoked ∷ [])
    × ((request_check {E = String} env joined (ok revoked_one) (ok request) 5).1 ≡ none)
    × ((request_check {E = String} env joined (ok revoked_one) (ok request) 5).0.heartbeat_timer
        ≡ false)
request_check-decides_example =
    request_check-decides {E = String} env joined (ok revoked_one) request 5 broad refl

abbrev frame : AuthFrame
frame = record { token = "token"; last_seen_seq = some 1 }

abbrev known_token : Result String PublicCredential
known_token = ok broad

abbrev greeted_at : Server String × Option (PublicCredential × ReplayPlan (ServerEvent String))
greeted_at = auth_register {E = String} env server "c3" frame (handle_auth known_token)

abbrev plan : ReplayPlan (ServerEvent String)
plan = plan_replay (state_after 4 (other "a" ∷ other "b" ∷ other "c" ∷ [])) (some 1)

abbrev third : Connection String
third = record fresh_connection { connection_id = "c3" }

auth_register-admits_example :
    (known_token ≡ ok broad)
    × (is_active broad.status ≡ true)
    × (includes greeted_at.0.registry "c3" ≡ true)
    × IsAdmitted env greeted_at.0 "c3" third broad
unfolding auth_register handle_auth get_or_create_credential_state
auth_register-admits_example =
    auth_register-admits env server "c3" third frame known_token broad plan refl refl refl

reconnect-replays_example :
    (d : Connection String) × (get
        (auth_answer env
          (auth_register {E = String} env server "c3" frame (ok broad)).0
          "c3"
          broad
          plan
          "sha256:0"
          7).sockets
        "c3"
      ≡ some d)
    × (d.calls
        ≡ send (authenticated "c3" broad "sha256:0" plan.resumed_from_seq)
          ∷ map sent (drop 1 (numbered 1 (other "a" ∷ other "b" ∷ other "c" ∷ []))))
unfolding auth_register get_or_create_credential_state
reconnect-replays_example =
    reconnect-replays String env server "c3" third frame broad "sha256:0" 7 0 4 1
      (other "a" ∷ other "b" ∷ other "c" ∷ []) plan refl refl refl (omega arith) refl refl refl

abbrev told_to_close : Connection String
told_to_close = record joined { calls = close going_away ∷ [] }

abbrev late_reply : List (SocketCall String)
late_reply = send (reply "r1" (ok "sent")) ∷ []

-- While the close frames are awaited, a reply is sent on the first connection.
abbrev between : Server String
between = record (stop_close server).0 {
  sockets =
      put (stop_close server).0.sockets "c1"
        (record told_to_close { calls = close going_away ∷ late_reply });
}
