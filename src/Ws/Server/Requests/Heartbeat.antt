-- ===== src/Ws/Server/Requests/Heartbeat.antt =====
-- When a round of the heartbeat closes a connection.
use xmtp_broker.Base.{
  ℕ, ◌-◌, ◌*◌, String, true, false, [], ◌∷◌, ◌++◌, none, some, ◌≡◌, refl, eq_refl, ltb, get, put,
  get-put, Result, ok, err, arith,
}
use xmtp_broker.Sessions.Service.{PublicCredential}
use xmtp_broker.Ws.Server.{
  Connection, CloseCode, Server, Environment, close, dead_connection, is_phase_active,
}
use xmtp_broker.Ws.Server.Requests.{hold_fresh, heartbeat_begin, heartbeat_finish}
use xmtp_broker.Ws.Server.Requests.Laws.{refusal_code}

module _ {X : Type 0} (env : Environment X) where
  -- A client that has been silent for longer than the heartbeats it may miss has its socket closed,
  -- and nothing is looked up.
  pub heartbeat_begin-dead :
      (c : Connection X) (started_with : String) (now : ℕ)
      → is_phase_active c.phase ≡ true
      → ltb
          (env.config.missed_heartbeats_before_dead * env.config.heartbeat_interval_ms)
          (now - c.last_client_activity)
        ≡ true
      → ((heartbeat_begin env c started_with now).0.calls ≡ c.calls ++ close dead_connection ∷ [])
        × ((heartbeat_begin env c started_with now).1 ≡ none)
  unfolding heartbeat_begin
  heartbeat_begin-dead c started_with now running silent =
      rw (running, silent, heartbeat_begin) (refl, refl)

module _ {X E : Type 0} (env : Environment X) where
  hold_fresh-refused :
      (c : Connection X) (lookup : Result E PublicCredential) (code : CloseCode)
      → refusal_code lookup ≡ some code
      → ((hold_fresh c lookup).1 ≡ none)
        × ((hold_fresh c lookup).0.calls ≡ c.calls ++ close code ∷ [])
        × ((hold_fresh c lookup).0.heartbeat_timer ≡ false)
  unfolding hold_fresh
  hold_fresh-refused c (err e) code refused = ground arith
  hold_fresh-refused c (ok fresh) code refused = ground arith

  -- A lookup that fails, or gives a credential that is not active, closes the connection as it is
  -- then, with the code for the status, and sends nothing; the timer is then off.
  pub heartbeat_finish-closes :
      (s : Server X) (id asked : String) (c : Connection X) (now : ℕ)
      (lookup : Result E PublicCredential) (code : CloseCode)
      → get s.sockets id ≡ some c
      → refusal_code lookup ≡ some code
      → (d : Connection X) × (get (heartbeat_finish env s id asked lookup now).sockets id ≡ some d)
        × (d.calls ≡ c.calls ++ close code ∷ [])
        × (d.heartbeat_timer ≡ false)
  unfolding heartbeat_finish
  heartbeat_finish-closes s id asked c now lookup code found refused =
      let (silent, calls, off) = hold_fresh-refused c lookup code refused in
      let written : (heartbeat_finish env s id asked lookup now).sockets
          ≡ put s.sockets id (hold_fresh c lookup).0 =
        simp (found, silent, heartbeat_finish) in
      (
        (hold_fresh c lookup).0,
        rw (written, get-put s.sockets id (hold_fresh c lookup).0 id, eq_refl id),
        calls,
        off,
      )
