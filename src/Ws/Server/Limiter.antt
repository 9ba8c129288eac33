-- ===== src/Ws/Server/Limiter.antt =====
-- packages/ws/src/server.ts: the handler `message` up to the parsed frame, with its rate limit.
pub mod Laws
use xmtp_broker.Base.{ℕ, ◌+◌, Bool, true, false, Option, none, some, ltb, leb, if◌then◌else◌}
use xmtp_broker.Ws.Connection.{ConnectionPhase, active, authenticating, closed}
use xmtp_broker.Ws.Server.{
  Connection, WsServerConfig, CloseCode, rate_limited, protocol_error, close_socket,
}

-- What the handler hands a message on to; `F` is a frame.
pub data Handed (F : Type 0) : Type 0 where
  refused ignored : Handed F
  to_auth to_request : F → Handed F

hand_on : {F : Type 0} → ConnectionPhase → F → Handed F
hand_on authenticating frame = to_auth frame
hand_on active frame = to_request frame
hand_on _ frame = ignored

module _ {X : Type 0} (config : WsServerConfig) where
  -- the counters after a message, and whether it may pass
  unfoldable pub rate_limit : Connection X → ℕ → Connection X × Bool
  rate_limit c now = elim config.rate_limit_max_messages [
    | none ↦ (c, true)
    | some most ↦
        if leb (c.message_window_start + config.rate_limit_window_ms) now
        then (record c { message_count = 1; message_window_start = now }, true)
        else (let counted = record c { message_count = c.message_count + 1 } in
            if ltb most (c.message_count + 1)
            then (close_socket counted rate_limited, false)
            else (counted, true))
  ]

  -- `parsed` is the frame, if the message is JSON.
  unfoldable pub on_message : {F : Type 0} → Connection X → ℕ → Option F → Connection X × Handed F
  unfolding rate_limit hand_on
  on_message c now parsed = elim c.phase [
    | closed ↦ (c, ignored)
    | _ ↦
        let (limited, passes) = rate_limit (record c { last_client_activity = now }) now in
        if passes
        then elim parsed [
          | none ↦ (close_socket limited protocol_error, refused)
          | some frame ↦ (limited, hand_on limited.phase frame)
        ]
        else (limited, refused)
  ]
