-- ===== src/Ws/Server/Limiter/Laws.antt =====
-- How many messages of one connection can pass in a span of time.
use xmtp_broker.Base.{
  ℕ, ◌+◌, ◌-◌, ◌*◌, ◌≤◌, ◌≡◌, Bool, true, false, ◌&&◌, List, [], ◌∷◌, Option, some, ltb, leb,
  if◌then◌else◌, arith, inl, inr, Bool-cases,
}
use xmtp_broker.Ws.Connection.{ConnectionPhase, closed}
use xmtp_broker.Ws.Server.{Connection, WsServerConfig}
use xmtp_broker.Ws.Server.Limiter.{Handed, to_auth, to_request, on_message}

-- Times that do not go back, the first of them at `last` or later.
abbrev pub Ascending : ℕ → List ℕ → Type 0
Ascending last [] = Unit
Ascending last (t ∷ ts) = (last ≤ t) × Ascending t ts

abbrev pub within : ℕ → ℕ → ℕ → ℕ
within a width t = if leb a t && ltb t (a + width) then 1 else 0

-- The counters alone: how many of the times pass in the span from `a`.
module _ (most width a : ℕ) where
  tally : ℕ → ℕ → List ℕ → ℕ
  tally count start [] = 0
  tally count start (t ∷ ts) =
      let anew = tally 1 t ts in
      let more = tally (count + 1) start ts in
      if leb (start + width) t
      then within a width t + anew
      else if ltb most (count + 1)
      then more
      else within a width t + more

  tally_after :
      (count start last : ℕ) (ts : List ℕ)
      → Ascending last ts
      → a + width ≤ last
      → tally count start ts ≡ 0
  unfolding tally
  tally_after count start last [] h late = omega arith
  tally_after count start last (t ∷ ts) (le, h) late = ground (
    arith,
    tally_after 1 t t ts h (omega arith),
    tally_after (count + 1) start t ts h (omega arith),
  )

  tally_inside :
      (count start last : ℕ) (ts : List ℕ)
      → Ascending last ts
      → a ≤ start
      → tally count start ts ≤ most - count
  unfolding tally
  tally_inside count start last [] h from = omega arith
  tally_inside count start last (t ∷ ts) (le, h) from = elim (Bool-cases (leb (start + width) t)) [
    | inl anew ↦
        let late : a + width ≤ t = ground arith in ground (arith, tally_after 1 t t ts h late)
    | inr same ↦ ground (arith, tally_inside (count + 1) start t ts h from)
  ]

  tally_entered :
      (count start last : ℕ) (ts : List ℕ)
      → Ascending last ts
      → a ≤ last
      → 1 ≤ most
      → tally count start ts ≤ most - count + most
  unfolding tally
  tally_entered count start last [] h from some_pass = omega arith
  tally_entered count start last (t ∷ ts) (le, h) from some_pass =
      let past : a ≤ t = omega arith in
      ground
        (arith, tally_inside 1 t t ts h past, tally_entered (count + 1) start t ts h past some_pass)

  tally_bounded :
      (count start last : ℕ) (ts : List ℕ)
      → Ascending last ts
      → 1 ≤ most
      → tally count start ts ≤ 2 * most
  unfolding tally
  tally_bounded count start last [] h some_pass = omega arith
  tally_bounded count start last (t ∷ ts) (le, h) some_pass = elim (Bool-cases (leb a t)) [
    | inl past ↦
        let from : a ≤ t = ground arith in
        ground (
          arith,
          tally_inside 1 t t ts h from,
          tally_entered (count + 1) start t ts h from some_pass,
        )
    | inr before ↦ ground (
      arith,
      tally_bounded 1 t t ts h some_pass,
      tally_bounded (count + 1) start t ts h some_pass,
    )
  ]

abbrev pub times : {F : Type 0} → List (ℕ × Option F) → List ℕ
times [] = []
times ((t, f) ∷ ms) = t ∷ times ms

abbrev is_closed : ConnectionPhase → Bool
is_closed closed = true
is_closed _ = false

abbrev was_handed_on : {F : Type 0} → Handed F → Bool
was_handed_on (to_auth frame) = true
was_handed_on (to_request frame) = true
was_handed_on _ = false

module _ {X F : Type 0} (config : WsServerConfig) where
  -- How many of the messages are handed on to a handler between `a` and the end of the span.
  abbrev pub handed_on : ℕ → Connection X → List (ℕ × Option F) → ℕ
  handed_on a c [] = 0
  handed_on a c ((t, f) ∷ ms) =
      let (next, handed) = on_message config c t f in
      let rest = handed_on a next ms in
      if was_handed_on handed then within a config.rate_limit_window_ms t + rest else rest

  counted : ℕ → ℕ → Connection X → List (ℕ × Option F) → ℕ
  unfolding tally
  counted a most c ms =
      tally most config.rate_limit_window_ms a c.message_count c.message_window_start (times ms)

  handed_on-closed :
      (a : ℕ) (c : Connection X) (ms : List (ℕ × Option F))
      → is_closed c.phase ≡ true
      → handed_on a c ms ≡ 0
  unfolding on_message
  handed_on-closed a c [] shut = omega arith
  handed_on-closed a c ((t, f) ∷ ms) shut =
      ground (arith, handed_on-closed a (on_message config c t f).0 ms)

  on_message-anew :
      (most : ℕ) (c : Connection X) (t : ℕ) (f : Option F)
      → config.rate_limit_max_messages ≡ some most
      → is_closed c.phase ≡ false
      → leb (c.message_window_start + config.rate_limit_window_ms) t ≡ true
      → ((on_message config c t f).0.message_count ≡ 1)
        × ((on_message config c t f).0.message_window_start ≡ t)
  unfolding on_message
  on_message-anew most c t f limit live anew = ground arith

  on_message-same :
      (most : ℕ) (c : Connection X) (t : ℕ) (f : Option F)
      → config.rate_limit_max_messages ≡ some most
      → is_closed c.phase ≡ false
      → leb (c.message_window_start + config.rate_limit_window_ms) t ≡ false
      → ((on_message config c t f).0.message_count ≡ c.message_count + 1)
        × ((on_message config c t f).0.message_window_start ≡ c.message_window_start)
        × (ltb most (c.message_count + 1) ≡ true
            → was_handed_on (on_message config c t f).1 ≡ false)
  unfolding on_message
  on_message-same most c t f limit live same = ground arith

  handed_on-counted :
      (a most : ℕ) (c : Connection X) (ms : List (ℕ × Option F))
      → config.rate_limit_max_messages ≡ some most
      → handed_on a c ms ≤ counted a most c ms
  unfolding counted tally
  handed_on-counted a most c [] limit = omega arith
  handed_on-counted a most c ((t, f) ∷ ms) limit =
      let ih = handed_on-counted a most (on_message config c t f).0 ms limit in
      elim (Bool-cases (is_closed c.phase)) [
        | inl shut ↦
            let none_more = handed_on-closed a c ((t, f) ∷ ms) shut in omega (arith, none_more)
        | inr live ↦
            elim (Bool-cases (leb (c.message_window_start + config.rate_limit_window_ms) t)) [
              | inl anew ↦
                  let (n, start) = on_message-anew most c t f limit live anew in
                  let bound = rw (n, start) at ih in ground (arith, bound)
              | inr same ↦
                  let (n, start, over) = on_message-same most c t f limit live same in
                  let bound = rw (n, start) at ih in ground (arith, bound)
            ]
      ]

  -- For messages that arrive at times that do not go back, with any text in them, and a limit of at
  -- least one message: in no span of `rate_limit_window_ms`, wherever it begins, are more than twice
  -- `rate_limit_max_messages` messages of a connection handed on to the handler of authentication or
  -- of requests, whatever the state of the connection.
  pub handed_on-bounded :
      (a most last : ℕ) (c : Connection X) (ms : List (ℕ × Option F))
      → config.rate_limit_max_messages ≡ some most
      → 1 ≤ most
      → Ascending last (times ms)
      → handed_on a c ms ≤ 2 * most
  unfolding counted
  handed_on-bounded a most last c ms limit some_pass order =
      let few =
        tally_bounded most config.rate_limit_window_ms a c.message_count c.message_window_start last
          (times ms) order some_pass in
      omega (arith, few, handed_on-counted a most c ms limit)
