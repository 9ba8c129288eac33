-- ===== src/Ws/Server/Requests/Laws.antt =====
-- The replies to a request, and the credential with which it reaches its handler.
use mathlib.Core.List.{append-nil}
use xmtp_broker.Base.{
  ℕ, ◌+◌, ◌-◌, ◌≤◌, String, Bool, true, false, not, List, [], ◌∷◌, ◌++◌, Option, none, some, ◌==◌,
  eq_iff, eq_refl, ◌≡◌, refl, sym, ap, subst, ◌∙◌, get, delete, get-put, get-delete, all, any,
  includes, Result, ok, err, if◌then◌else◌, arith, inl, inr, Bool-cases, Option-cases,
}
use xmtp_broker.Sessions.Credentials.Store.{CredentialStatus, is_active}
use xmtp_broker.Sessions.Credentials.Store
use xmtp_broker.Sessions.Service.{PublicCredential}
use xmtp_broker.Ws.Server.{
  Connection, CloseCode, Environment, SocketCall, send, close, reply, RequestError, send_json,
  protocol_error, credential_revoked, credential_expired, policy_change, close_code_for,
  clear_timer, fire_timer,
}
use xmtp_broker.Ws.Server.Lifecycle.{cleaned, clear_timers}
use xmtp_broker.Ws.Server.Requests.{
  HarnessRequest, Handled, response_of, refreshed, invalid_frame, timed_out, hold_fresh,
  request_check, request_timeout, request_finish,
}

abbrev held_of : Option ℕ → ℕ
held_of none = 0
held_of (some sent_at) = 1

module _ {X : Type 0} where
  abbrev is_reply_to : String → SocketCall X → ℕ
  is_reply_to id (close code) = 0
  is_reply_to id (send frame) = elim frame [ reply other r ↦ if other == id then 1 else 0 | _ ↦ 0 ]

  -- How many replies to the request were sent.
  abbrev pub replies : String → List (SocketCall X) → ℕ
  replies id [] = 0
  replies id (call ∷ calls) = is_reply_to id call + replies id calls

  abbrev pub in_flight : String → Connection X → ℕ
  in_flight id c = held_of (get c.in_flight_requests id)

  replies-append :
      (id : String) (calls : List (SocketCall X)) (call : SocketCall X)
      → replies id (calls ++ call ∷ []) ≡ replies id calls + is_reply_to id call
  replies-append id [] call = omega arith
  replies-append id (c ∷ cs) call = omega (arith, replies-append id cs call)

-- How many timers of the request are set.
abbrev pub timers_of : String → List String → ℕ
timers_of id [] = 0
timers_of id (t ∷ ts) = (if t == id then 1 else 0) + timers_of id ts

timers-append :
    (id : String) (ts : List String) (other : String)
    → timers_of id (ts ++ other ∷ []) ≡ timers_of id ts + (if other == id then 1 else 0)
timers-append id [] other = omega arith
timers-append id (t ∷ ts) other = omega (arith, timers-append id ts other)

timers-none : (ts : List String) (id : String) → includes ts id ≡ false → timers_of id ts ≡ 0
timers-none [] id h = refl
timers-none (t ∷ ts) id h = ground (arith, timers-none ts id)

includes-timers : (ts : List String) (id : String) → includes ts id ≡ true → 1 ≤ timers_of id ts
includes-timers [] id h = cc h
includes-timers (t ∷ ts) id h = ground (arith, includes-timers ts id)

timers-clear :
    (ts : List String) (other id : String)
    → timers_of id (clear_timer ts other)
      ≡ (if other == id then timers_of id ts - 1 else timers_of id ts)
timers-clear [] other id = ground arith
timers-clear (t ∷ ts) other id =
    let rest = timers-clear ts other id in
    elim (Bool-cases (includes ts other)) [
      | inl later ↦
          let some_left = includes-timers ts other later in
          elim (Bool-cases (other == id)) [
            | inl here ↦
                let same = (eq_iff other id).0 here in
                let own : 1 ≤ timers_of id ts = subst (λ k. 1 ≤ timers_of k ts) same some_left in
                rw (later, clear_timer) (rest_here t ts other id here rest own)
            | inr elsewhere ↦ rw (later, clear_timer) (ground arith)
          ]
      | inr last ↦
          let none_left = timers-none ts other last in
          ground (arith, eq_iff t other, eq_iff other id, eq_iff t id)
    ]
  where
    rest_here :
        (u : String) (us : List String) (j k : String)
        → (j == k) ≡ true
        → timers_of k (clear_timer us j) ≡ (if j == k then timers_of k us - 1 else timers_of k us)
        → 1 ≤ timers_of k us
        → timers_of k (u ∷ clear_timer us j)
          ≡ (if j == k then timers_of k (u ∷ us) - 1 else timers_of k (u ∷ us))
    rest_here u us j k here before own = ground arith

timers-fire :
    (ts : List String) (other id : String)
    → timers_of id (fire_timer ts other)
      ≡ (if other == id then timers_of id ts - 1 else timers_of id ts)
timers-fire [] other id = ground arith
timers-fire (t ∷ ts) other id =
    let rest = timers-fire ts other id in
    ground (arith, eq_iff t other, eq_iff other id, eq_iff t id)

timers-clear_timers :
    (ts : List String) (entries : List (String × ℕ)) (id : String)
    → timers_of id ts ≤ held_of (get entries id)
    → timers_of id (clear_timers ts entries) ≡ 0
timers-clear_timers ts [] id h = omega arith
timers-clear_timers ts ((j, sent_at) ∷ entries) id h =
    let after = timers-clear ts j id in
    timers-clear_timers (clear_timer ts j) entries id (ground (arith, after))

module _ {X : Type 0} where
  -- The replies sent and still to come.
  abbrev owed : String → Connection X → ℕ
  owed id c = replies id c.calls + in_flight id c

  -- A timer of the request is set exactly while the request is in flight.
  abbrev IsTimed : String → Connection X → Type 0
  IsTimed id c = timers_of id c.request_timers ≡ in_flight id c

  -- What a step that keeps a request's account does: nothing is lost but by a cleanup.
  record IsKept (id : String) (c d : Connection X) (cleanup : Bool) : Type 0 where
    timed : IsTimed id d
    no_more : owed id d ≤ owed id c
    no_less : cleanup ≡ false → owed id c ≤ owed id d

  -- A request that leaves the map, with a reply and one of its timers gone.
  left-IsKept :
      (id other : String) (c d : Connection X) (r : Result RequestError String)
      → IsTimed id c
      → ((other == id) ≡ true → in_flight id c ≡ 1)
      → (timers_of id d.request_timers ≡ (
          if other == id then timers_of id c.request_timers - 1 else timers_of id c.request_timers))
      → d.in_flight_requests ≡ delete c.in_flight_requests other
      → d.calls ≡ c.calls ++ send (reply other r) ∷ []
      → IsKept id c d false
  left-IsKept id other c d r timed there timers gone calls =
      let told : replies id d.calls ≡ replies id c.calls + (if other == id then 1 else 0) =
        ap (replies id) calls ∙ replies-append id c.calls (send (reply other r)) in
      let left : in_flight id d ≡ (if other == id then 0 else in_flight id c) =
        ap (λ m. held_of (get m id)) gone ∙ left_of c.in_flight_requests other id in
      elim (Bool-cases (other == id)) [
        | inl here ↦
            let one = there here in
            record { timed = ground arith; no_more = ground arith; no_less = λ h. ground arith }
        | inr elsewhere ↦ record {
          timed = ground arith;
          no_more = ground arith;
          no_less = λ h. ground arith;
        }
      ]
    where
      left_of :
          (m : List (String × ℕ)) (j k : String)
          → held_of (get (delete m j) k) ≡ (if j == k then 0 else held_of (get m k))
      left_of m j k = ground (arith, get-delete m j k)

  IsKept-same :
      (id : String) (c d : Connection X)
      → IsTimed id c
      → d.calls ≡ c.calls
      → d.in_flight_requests ≡ c.in_flight_requests
      → d.request_timers ≡ c.request_timers
      → IsKept id c d false
  IsKept-same id c d timed calls held timers =
      let told = ap (replies id) calls in
      let left : in_flight id d ≡ in_flight id c = ap (λ m. held_of (get m id)) held in
      let set = ap (timers_of id) timers in
      record { timed = omega arith; no_more = omega arith; no_less = λ h. omega arith }

  cleanup-IsKept : (id : String) (c : Connection X) → IsTimed id c → IsKept id c (cleaned c) true
  unfolding cleaned
  cleanup-IsKept id c timed = record {
    timed = timers-clear_timers c.request_timers c.in_flight_requests id (omega arith);
    no_more = omega arith;
    no_less = λ h. cc h;
  }

module _ {X : Type 0} (env : Environment X) where
  timer-IsKept :
      (id other : String) (c : Connection X)
      → IsTimed id c
      → includes c.request_timers other ≡ true
      → IsKept id c (request_timeout env c other) false
  unfolding request_timeout send_json
  timer-IsKept id other c timed set =
      left-IsKept id other c _ (err timed_out) timed
        (λ here.
          let same = (eq_iff other id).0 here in
          let one =
            includes-timers c.request_timers id (ap (includes c.request_timers) (sym same) ∙ set) in
          ground arith)
        (timers-fire c.request_timers other id) refl refl

-- What befalls a connection: a frame is checked, a handler has answered, a timer fires, or the
-- connection is cleaned up.
pub data RequestStep (E : Type 0) : Type 0 where
  frame_checked :
      Result E PublicCredential → Result (Option String) HarnessRequest → ℕ → RequestStep E
  handler_answered : HarnessRequest → Handled → Result E PublicCredential → RequestStep E
  timer_fired : String → RequestStep E
  cleaned_up : RequestStep E

-- A frame that carries this request id.
abbrev pub carries : {E : Type 0} → String → RequestStep E → Bool
carries id (frame_checked lookup parsed now) = elim parsed [
  | ok request ↦ request.request_id == id
  | err none ↦ false
  | err (some other) ↦ other == id
]
carries id (handler_answered request handled lookup) = false
carries id (timer_fired other) = false
carries id cleaned_up = false

abbrev pub is_cleanup : {E : Type 0} → RequestStep E → Bool
is_cleanup cleaned_up = true
is_cleanup (frame_checked lookup parsed now) = false
is_cleanup (handler_answered request handled lookup) = false
is_cleanup (timer_fired id) = false

-- The code with which a credential of this status has its socket closed, if it has.
abbrev pub code_of_status : CredentialStatus → Option CloseCode
code_of_status Store.active = none
code_of_status Store.revoked = some credential_revoked
code_of_status Store.expired = some credential_expired
code_of_status Store.pending = some policy_change

abbrev pub refusal_code : {E : Type 0} → Result E PublicCredential → Option CloseCode
refusal_code (err e) = some credential_revoked
refusal_code (ok fresh) = code_of_status fresh.status

-- What is done to the socket, and what goes on to the handler, by the code of a refusal.
abbrev pub closing : {X : Type 0} → Option CloseCode → List (SocketCall X)
closing none = []
closing (some code) = close code ∷ []

abbrev pub passed_on :
    {E : Type 0}
    → Result E PublicCredential
    → HarnessRequest
    → Option (PublicCredential × HarnessRequest)
passed_on (err e) request = none
passed_on (ok fresh) request = elim (code_of_status fresh.status) [
  | none ↦ some (fresh, request)
  | some code ↦ none
]

module _ {X E : Type 0} (env : Environment X) where
  -- Only a timer that is set fires.
  abbrev pub step : Connection X → RequestStep E → Connection X
  step c (frame_checked lookup parsed now) = (request_check env c lookup parsed now).0
  step c (handler_answered request handled lookup) = request_finish env c request handled lookup
  step c (timer_fired id) = if includes c.request_timers id then request_timeout env c id else c
  step c cleaned_up = cleaned c

  abbrev pub steps : Connection X → List (RequestStep E) → Connection X
  steps c [] = c
  steps c (s ∷ rest) = steps (step c s) rest

  frame-IsKept :
      (id : String) (c : Connection X) (lookup : Result E PublicCredential)
      (parsed : Result (Option String) HarnessRequest) (now : ℕ)
      → carries id (frame_checked lookup parsed now) ≡ false
      → IsTimed id c
      → IsKept id c (request_check env c lookup parsed now).0 false
  unfolding request_check hold_fresh send_json
  frame-IsKept id c (err e) parsed now quiet timed =
      let one = replies-append id c.calls (close protocol_error) in
      let two = replies-append id c.calls (close credential_revoked) in
      record { timed = ground arith; no_more = ground arith; no_less = λ h. ground arith }
  frame-IsKept id c (ok fresh) (err none) now quiet timed =
      let one = replies-append id c.calls (close protocol_error) in
      let two = replies-append id c.calls (close (close_code_for fresh.status)) in
      record { timed = ground arith; no_more = ground arith; no_less = λ h. ground arith }
  frame-IsKept id c (ok fresh) (err (some other)) now quiet timed =
      let one = replies-append id c.calls (close protocol_error) in
      let two = replies-append id c.calls (close (close_code_for fresh.status)) in
      let three = replies-append id c.calls (send (reply other (err invalid_frame))) in
      record { timed = ground arith; no_more = ground arith; no_less = λ h. ground arith }
  frame-IsKept id c (ok fresh) (ok request) now quiet timed =
      let one = replies-append id c.calls (close protocol_error) in
      let two = replies-append id c.calls (close (close_code_for fresh.status)) in
      let four = get-put c.in_flight_requests request.request_id now id in
      let five = timers-append id c.request_timers request.request_id in
      record { timed = ground arith; no_more = ground arith; no_less = λ h. ground arith }

  refreshed-same :
      (c : Connection X) (request : HarnessRequest) (handled : Handled)
      (lookup : Result E PublicCredential)
      → ((refreshed c request handled lookup).calls ≡ c.calls)
        × ((refreshed c request handled lookup).in_flight_requests ≡ c.in_flight_requests)
        × ((refreshed c request handled lookup).request_timers ≡ c.request_timers)
  refreshed-same c request handled lookup = ground arith

  answer-IsKept :
      (id : String) (c : Connection X) (request : HarnessRequest) (handled : Handled)
      (lookup : Result E PublicCredential)
      → IsTimed id c
      → IsKept id c (request_finish env c request handled lookup) false
  unfolding request_finish send_json
  answer-IsKept id c request handled lookup timed =
      let synced = refreshed c request handled lookup in
      let other = request.request_id in
      let (calls, held, timers) = refreshed-same c request handled lookup in
      elim (Option-cases (get c.in_flight_requests other)) [
        | inl absent ↦
            let nothing : get synced.in_flight_requests other ≡ none =
              ap (λ m. get m other) held ∙ absent in
            rw (nothing, request_finish) (IsKept-same id c synced timed calls held timers)
        | inr (sent_at, present) ↦
            let there : get synced.in_flight_requests other ≡ some sent_at =
              ap (λ m. get m other) held ∙ present in
            rw (there, request_finish)
              (left-IsKept id other c _ (response_of handled) timed
                (λ here.
                  ap (λ k. in_flight k c) (sym ((eq_iff other id).0 here)) ∙ ap held_of present)
                (ap (λ ts. timers_of id (clear_timer ts other)) timers
                  ∙ timers-clear c.request_timers other id)
                (ap (λ m. delete m other) held)
                (ap (λ l. l ++ send (reply other (response_of handled)) ∷ []) calls))
      ]

  step-IsKept :
      (id : String) (c : Connection X) (s : RequestStep E)
      → carries id s ≡ false
      → IsTimed id c
      → IsKept id c (step c s) (is_cleanup s)
  step-IsKept id c (frame_checked lookup parsed now) quiet timed =
      frame-IsKept id c lookup parsed now quiet timed
  step-IsKept id c (handler_answered request handled lookup) quiet timed =
      answer-IsKept id c request handled lookup timed
  step-IsKept id c (timer_fired other) quiet timed =
      elim (Bool-cases (includes c.request_timers other)) [
        | inl set ↦ rw set (timer-IsKept env id other c timed set)
        | inr unset ↦ rw unset (IsKept-same id c c timed refl refl refl)
      ]
  step-IsKept id c cleaned_up quiet timed = cleanup-IsKept id c timed

  steps-IsKept :
      (id : String) (c : Connection X) (rest : List (RequestStep E))
      → all (λ s. not (carries id s)) rest ≡ true
      → IsTimed id c
      → IsKept id c (steps c rest) (any is_cleanup rest)
  steps-IsKept id c [] quiet timed = record {
    timed = timed;
    no_more = omega arith;
    no_less = λ h. omega arith;
  }
  steps-IsKept id c (s ∷ rest) quiet timed =
      let one = step-IsKept id c s (ground arith) timed in
      let more = steps-IsKept id (step c s) rest (ground arith) one.timed in
      let fewer = one.no_more in
      let fewer_still = more.no_more in
      record {
        timed = more.timed;
        no_more = omega arith;
        no_less = λ h.
            let first = one.no_less (ground arith) in
            let later = more.no_less (ground arith) in omega arith;
      }

  request_check-owed :
      (c : Connection X) (lookup : Result E PublicCredential)
      (parsed : Result (Option String) HarnessRequest) (now : ℕ) (credential : PublicCredential)
      (request : HarnessRequest)
      → get c.in_flight_requests request.request_id ≡ none
      → timers_of request.request_id c.request_timers ≡ 0
      → (request_check env c lookup parsed now).1 ≡ some (credential, request)
      → (owed request.request_id (request_check env c lookup parsed now).0
          ≡ replies request.request_id c.calls + 1)
        × IsTimed request.request_id (request_check env c lookup parsed now).0
  unfolding request_check hold_fresh
  request_check-owed c lookup (err none) now credential request idle unset passed = ground arith
  request_check-owed c lookup (err (some id)) now credential request idle unset passed =
      ground arith
  request_check-owed c lookup (ok own) now credential request idle unset passed = ground (
    arith,
    get-put c.in_flight_requests request.request_id now request.request_id,
    timers-append request.request_id c.request_timers request.request_id,
    eq_refl request.request_id,
  )

  -- A request whose id is not in flight and has no timer, once it goes on to its handler, gets at most
  -- one reply, from its handler or from its timer, whatever else happens on the connection but
  -- another frame with its id: after any steps, the replies to it that were sent, and one more if it
  -- is still in flight, are at most those sent before and one. They are exactly that many unless the
  -- connection was cleaned up meanwhile, which drops the request.
  pub steps-reply_once :
      (c : Connection X) (lookup : Result E PublicCredential)
      (parsed : Result (Option String) HarnessRequest) (now : ℕ) (credential : PublicCredential)
      (request : HarnessRequest) (rest : List (RequestStep E))
      → get c.in_flight_requests request.request_id ≡ none
      → timers_of request.request_id c.request_timers ≡ 0
      → (request_check env c lookup parsed now).1 ≡ some (credential, request)
      → all (λ s. not (carries request.request_id s)) rest ≡ true
      → let d = steps (request_check env c lookup parsed now).0 rest in
        (replies request.request_id d.calls + in_flight request.request_id d
          ≤ replies request.request_id c.calls + 1)
        × ((if any is_cleanup rest then 0 else replies request.request_id c.calls + 1)
            ≤ replies request.request_id d.calls + in_flight request.request_id d)
  unfolding request_check hold_fresh
  steps-reply_once c lookup parsed now credential request rest idle unset passed quiet =
      let (begun, timed) =
        request_check-owed c lookup parsed now credential request idle unset passed in
      let kept =
        steps-IsKept request.request_id (request_check env c lookup parsed now).0 rest quiet
          timed in
      let most = kept.no_more in
      (
        omega arith,
        elim (Bool-cases (any is_cleanup rest)) [
          | inl over ↦ rw over (omega arith)
          | inr open_still ↦ let least = kept.no_less open_still in rw open_still (omega arith)
        ],
      )

  -- A request goes on to its handler only with what the lookup just made gave, an active credential,
  -- which the connection then holds.
  pub request_check-fresh :
      (c : Connection X) (lookup : Result E PublicCredential)
      (parsed : Result (Option String) HarnessRequest) (now : ℕ) (credential : PublicCredential)
      (request : HarnessRequest)
      → (request_check env c lookup parsed now).1 ≡ some (credential, request)
      → (lookup ≡ ok credential)
        × (is_active credential.status ≡ true)
        × ((request_check env c lookup parsed now).0.credential_record ≡ some credential)
  unfolding request_check hold_fresh
  request_check-fresh c (err e) parsed now credential request passed = ground arith
  request_check-fresh c (ok fresh) (err none) now credential request passed = ground arith
  request_check-fresh c (ok fresh) (err (some id)) now credential request passed = ground arith
  request_check-fresh c (ok fresh) (ok own) now credential request passed = ground arith

  -- A request that is well formed, on a connection that holds a credential, goes on to its handler
  -- exactly with an active credential that the lookup just made gave, and then nothing is done to the
  -- socket. A lookup that fails or gives a revoked credential closes the socket as revoked, an
  -- expired one as expired, and one of another status as a change of policy, and nothing else is done
  -- to the socket; the heartbeat is then off.
  pub request_check-decides :
      (c : Connection X) (lookup : Result E PublicCredential) (request : HarnessRequest) (now : ℕ)
      (cached : PublicCredential)
      → c.credential_record ≡ some cached
      → ((request_check env c lookup (ok request) now).0.calls
          ≡ c.calls ++ closing (refusal_code lookup))
        × ((request_check env c lookup (ok request) now).1 ≡ passed_on lookup request)
        × ((request_check env c lookup (ok request) now).0.heartbeat_timer
            ≡ (elim (refusal_code lookup) [ none ↦ c.heartbeat_timer | some code ↦ false ]))
  unfolding request_check hold_fresh
  request_check-decides c (err e) request now cached holds = ground arith
  request_check-decides c (ok fresh) request now cached holds = ground (arith, append-nil c.calls)
