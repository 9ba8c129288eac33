-- ===== src/Ws/Server/Lifecycle.antt =====
-- packages/ws/src/server.ts: `cleanupConnection`, `drain`, `start` and `stop`. Stopping
-- is three steps, cut at the wait for the requests in flight and the wait for the close frames.
pub mod Laws
use xmtp_broker.Base.{
  ℕ, String, Bool, true, false, not, ◌||◌, ◌==◌, List, [], ◌∷◌, Option, none, some, filter,
  non_empty, get, put, Result, ok, err, if◌then◌else◌,
}
use xmtp_broker.Ws.Connection.{transition, reset, closed}
use xmtp_broker.Ws.Connection
use xmtp_broker.Ws.Server.{
  Connection, Server, Environment, ServerState, idle, listening, draining, stopped, shutdown,
  going_away, is_phase_active, clear_timer, close_socket, send_sequenced,
}
use xmtp_broker.Ws.Server.Auth.{update_socket}

abbrev remove : List String → String → List String
remove ids id = filter (λ i. not (i == id)) ids

abbrev pub clear_timers : List String → List (String × ℕ) → List String
clear_timers timers [] = timers
clear_timers timers ((id, sent_at) ∷ entries) = clear_timers (clear_timer timers id) entries

module _ {X : Type 0} where
  unfoldable pub cleaned : Connection X → Connection X
  cleaned c = record c {
    auth_timer = false;
    heartbeat_timer = false;
    request_timers = clear_timers c.request_timers c.in_flight_requests;
    in_flight_requests = [];
    phase = (transition c.phase closed).0;
  }

  -- also the callback `close`
  unfoldable pub cleanup_connection : Server X → String → Server X
  unfolding cleaned
  cleanup_connection s id =
      let updated = update_socket s id cleaned in
      record updated { registry = remove updated.registry id }

  -- the callback `drain`
  unfoldable pub on_drain : Connection X → Connection X
  on_drain c = record c { backpressure = reset c.backpressure }

  -- `bound` is the port, if the runtime names one, or its error.
  unfoldable pub start : Server X → Result (Unit {0}) (Option ℕ) → Server X × Result (Unit {0}) ℕ
  start s bound = elim s.server_state [
    | idle ↦ elim bound [
      | err e ↦ (s, err e)
      | ok none ↦ (record s { server_state = listening }, err tt)
      | ok (some port) ↦ (record s { server_state = listening }, ok port)
    ]
    | _ ↦ (s, err tt)
  ]

  unfoldable pub announce : Environment X → Server X → String → Server X
  announce env s id = elim (get s.sockets id) [
    | none ↦ s
    | some c ↦
        if is_phase_active c.phase
        then elim c.credential_record [
          | none ↦ s
          | some credential ↦
              update_socket (send_sequenced env s id (shutdown credential.credential_id)) id
                (λ d. record d { phase = (transition d.phase Connection.draining).0 })
        ]
        else s
  ]

  unfoldable pub announce_all : Environment X → Server X → List String → Server X
  announce_all env s [] = s
  announce_all env s (id ∷ ids) = announce_all env (announce env s id) ids

  -- up to the wait
  unfoldable pub stop_begin : Environment X → Server X → Server X × Bool
  stop_begin env s = elim s.server_state [
    | listening ↦
        let leaving = record s { server_state = draining } in
        (announce_all env leaving leaving.registry, true)
    | _ ↦ (s, false)
  ]

  -- what the wait asks again and again
  unfoldable pub has_inflight : Server X → List String → Bool
  has_inflight s [] = false
  has_inflight s (id ∷ ids) =
      elim (get s.sockets id) [ none ↦ false | some c ↦ non_empty c.in_flight_requests ]
      || has_inflight s ids

  unfoldable pub close_all : Server X → List String → Server X
  close_all s [] = s
  close_all s (id ∷ ids) = close_all (update_socket s id (λ c. close_socket c going_away)) ids

  unfoldable pub cleanup_all : Server X → List String → Server X
  cleanup_all s [] = s
  cleanup_all s (id ∷ ids) = cleanup_all (cleanup_connection s id) ids

  -- from the wait for requests up to the wait for the close frames, with `remaining`
  unfoldable pub stop_close : Server X → Server X × List String
  stop_close s = let remaining = s.registry in (close_all s remaining, remaining)

  -- from the wait for the close frames on
  unfoldable pub stop_finish : Server X → List String → Server X
  stop_finish s remaining = record (cleanup_all s remaining) {
    credential_states = [];
    server_state = stopped;
  }
