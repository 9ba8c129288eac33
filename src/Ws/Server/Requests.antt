-- ===== src/Ws/Server/Requests.antt =====
-- packages/ws/src/server.ts: `handleRequestFrame`, the timer of a request, and the heartbeat; and
-- packages/ws/src/request-router.ts. A request is checked when its credential has been looked up, and
-- finished when its handler has answered.
pub mod Laws
pub mod Heartbeat
use xmtp_broker.Base.{
  ℕ, ◌+◌, ◌-◌, ◌*◌, ◌||◌, ◌==◌, String, Bool, List, [], ◌∷◌, ◌++◌, Option, none, some, ltb, get,
  put, delete, Result, ok, err, if◌then◌else◌,
}
use xmtp_broker.Sessions.Credentials.Store.{is_active}
use xmtp_broker.Sessions.Service.{PublicCredential}
use xmtp_broker.Ws.Server.{
  Connection, Server, Environment, WsServerConfig, RequestError, reply, heartbeat,
  credential_revoked, dead_connection, protocol_error, is_phase_active, close_code_for, clear_timer,
  fire_timer, close_socket, stop_heartbeat, send_json, send_sequenced,
}

-- The type and the id of a request.
pub record HarnessRequest : Type 0 where
  pub request_type : String
  pub request_id : String

abbrev pub invalid_frame : RequestError
invalid_frame = record { code = 1000; category = "validation"; message = "Invalid request frame" }

abbrev pub timed_out : RequestError
timed_out = record { code = 1500; category = "timeout"; message = "Request timed out" }

abbrev pub internal_error : RequestError
internal_error = record { code = 1400; category = "internal"; message = "Internal error" }

-- What a handler answers, or that it throws.
pub data Handled : Type 0 where
  answered : Result RequestError String → Handled
  thrown : Handled

abbrev pub response_of : Handled → Result RequestError String
response_of (answered r) = r
response_of thrown = err internal_error

abbrev pub is_mutating : String → Bool
is_mutating request_type = request_type == "update_scopes" || request_type == "reveal_content"

module _ {X : Type 0} where
  -- A credential that is looked up afresh is written to the connection, which is closed unless it is
  -- active.
  unfoldable pub hold_fresh :
      {E : Type 0}
      → Connection X
      → Result E PublicCredential
      → Connection X × Option PublicCredential
  hold_fresh c (err e) = (stop_heartbeat (close_socket c credential_revoked), none)
  hold_fresh c (ok fresh) =
      let updated = record c { credential_record = some fresh } in
      if is_active fresh.status
      then (updated, some fresh)
      else (stop_heartbeat (close_socket updated (close_code_for fresh.status)), none)

  -- `parsed` is the request, or the id of a frame that is none, if it has one. What goes on to the
  -- handler is the credential and the request.
  unfoldable pub request_check :
      {E : Type 0}
      → Environment X
      → Connection X
      → Result E PublicCredential
      → Result (Option String) HarnessRequest
      → ℕ
      → Connection X × Option (PublicCredential × HarnessRequest)
  unfolding hold_fresh
  request_check env c lookup parsed now = elim c.credential_record [
    | none ↦ (close_socket c protocol_error, none)
    | some cached ↦
        let (checked, usable) = hold_fresh c lookup in
        elim usable [
          | none ↦ (checked, none)
          | some credential ↦ elim parsed [
            | err none ↦ (close_socket checked protocol_error, none)
            | err (some id) ↦ (send_json env checked (reply id (err invalid_frame)), none)
            | ok request ↦ (
              record checked {
                request_timers = checked.request_timers ++ request.request_id ∷ [];
                in_flight_requests = put checked.in_flight_requests request.request_id now;
              },
              some (credential, request),
            )
          ]
        ]
  ]

  -- the timer of a request fires
  unfoldable pub request_timeout : Environment X → Connection X → String → Connection X
  request_timeout env c request_id =
      send_json env
        (record c {
          request_timers = fire_timer c.request_timers request_id;
          in_flight_requests = delete c.in_flight_requests request_id;
        })
        (reply request_id (err timed_out))

  abbrev refreshed :
      {E : Type 0}
      → Connection X
      → HarnessRequest
      → Handled
      → Result E PublicCredential
      → Connection X
  refreshed c request thrown lookup = c
  refreshed c request (answered r) lookup =
      if is_mutating request.request_type
      then elim lookup [ err e ↦ c | ok fresh ↦ record c { credential_record = some fresh } ]
      else c

  -- `lookup` is the second lookup, after a request that changes the credential.
  unfoldable pub request_finish :
      {E : Type 0}
      → Environment X
      → Connection X
      → HarnessRequest
      → Handled
      → Result E PublicCredential
      → Connection X
  request_finish env c request handled lookup =
      let synced = refreshed c request handled lookup in
      elim (get synced.in_flight_requests request.request_id) [
        | none ↦ synced
        | some sent_at ↦
            send_json env
              (record synced {
                request_timers = clear_timer synced.request_timers request.request_id;
                in_flight_requests = delete synced.in_flight_requests request.request_id;
              })
              (reply request.request_id (response_of handled))
      ]

  -- A round of the heartbeat timer up to its lookup, with the id that it looks up, if it does;
  -- `started_with` is the id of the credential with which the timer was set.
  unfoldable pub heartbeat_begin :
      Environment X → Connection X → String → ℕ → Connection X × Option String
  heartbeat_begin env c started_with now =
      if is_phase_active c.phase
      then (if ltb (env.config.missed_heartbeats_before_dead * env.config.heartbeat_interval_ms)
            (now - c.last_client_activity)
          then (close_socket c dead_connection, none)
          else (
            c,
            some (elim c.credential_record [
              | none ↦ started_with
              | some cached ↦ cached.credential_id
            ]),
          ))
      else (c, none)

  -- from the lookup on
  unfoldable pub heartbeat_finish :
      {E : Type 0}
      → Environment X
      → Server X
      → String
      → String
      → Result E PublicCredential
      → ℕ
      → Server X
  unfolding hold_fresh
  heartbeat_finish env s id asked lookup now = elim (get s.sockets id) [
    | none ↦ s
    | some c ↦
        let (checked, usable) = hold_fresh c lookup in
        let held = record s { sockets = put s.sockets id checked } in
        elim usable [ none ↦ held | some fresh ↦ send_sequenced env held id (heartbeat asked now) ]
  ]
