-- ===== src/Ws/Server/Lifecycle/Laws.antt =====
-- What stopping the server does to its connections.
use xmtp_broker.Base.{any, Bool, true, false, not, ◌&&◌, List, [], ◌≡◌, refl}
use xmtp_broker.Ws.Connection.{closed}
use xmtp_broker.Ws.Server.{Connection, Server, SocketCall, close, going_away}

abbrev is_going_away_call : {X : Type 0} → SocketCall X → Bool
is_going_away_call (close going_away) = true
is_going_away_call _ = false

-- Whether the socket was asked to close for a shutdown.
abbrev pub is_told : {X : Type 0} → List (SocketCall X) → Bool
is_told calls = any is_going_away_call calls

and-not : (b : Bool) → (b && not b) ≡ false
and-not true = refl
and-not false = refl

module _ {X : Type 0} where
  -- A connection that is cleaned up.
  pub record IsClean (c : Connection X) : Type 0 where
    pub phase : c.phase ≡ closed
    pub auth_timer : c.auth_timer ≡ false
    pub heartbeat_timer : c.heartbeat_timer ≡ false
    pub in_flight : c.in_flight_requests ≡ []
