-- ===== src/Ws/Server/Broadcast/Settling.antt =====
-- Which events are queued while invalidations of a credential overlap, and what becomes of them.
use xmtp_broker.Base.{
  put, ◌-◌, ◌≤◌, eq_iff, ℕ, ◌+◌, String, false, List, [], ◌∷◌, ◌++◌, Option, none, some, ◌==◌,
  eq_refl, ◌≡◌, refl, sym, ap, ◌∙◌, get, get-put, leb, length, non_empty, Result, arith, inl, inr,
  Bool-cases, if◌then◌else◌,
}
use xmtp_broker.Sessions.Service.{PublicCredential}
use xmtp_broker.Ws.Server.{
  PendingInvalidation, Server, ServerEvent, Environment, get_by_credential_id,
}
use xmtp_broker.Ws.Server.Broadcast.{
  broadcast_to_credential, invalidate_begin, apply_lookup, invalidate_finish, release, one_more,
}
use xmtp_broker.Ws.Server.Broadcast.Laws.{broadcast_each-pending}
use xmtp_broker.Ws.Server.Broadcast.Queue.{
  broadcasts, send_each, settled, finish-sends, apply_lookup-pending, broadcast-other_pending,
  release-other_pending,
}
use xmtp_broker.Ws.Server.Broadcast.Tickets.{ticket, ticket_of}
use xmtp_broker.Ws.Server.Broadcast.Overlap.{
  Run, started, begun, finished, broadcasted, begun_elsewhere, finished_elsewhere, expected,
  no_ticket, Run-IsTracked,
}

-- The events that a run leaves queued: those broadcast to the credential while a lookup is waited for,
-- in their order, until none is.
abbrev pub queued :
    {X E : Type 0} {env : Environment X} {answers : ℕ → Result E PublicCredential} {k : String}
    {start t : Server X} {waiting : List ℕ} {latest : Option ℕ}
    → Run env answers k start t waiting latest
    → List (ServerEvent X)
queued started = []
queued (begun run) = queued run
queued (finished before gen after run) =
    let before_it = queued run in if non_empty (before ++ after) then before_it else []
queued {k} (broadcasted {waiting} other event run) =
    let before_it = queued run in
    if other == k
    then (if non_empty waiting then before_it ++ event ∷ [] else before_it)
    else before_it
queued (begun_elsewhere other differs run) = queued run
queued (finished_elsewhere other gen differs run) = queued run

abbrev events_of : {X : Type 0} → Option (PendingInvalidation X) → List (ServerEvent X)
events_of none = []
events_of (some entry) = entry.events

module _ {X E : Type 0} (env : Environment X) (answers : ℕ → Result E PublicCredential)
    (k : String) where
  entry_of_ticket :
      (o : Option (PendingInvalidation X)) (n gen : ℕ)
      → ticket o ≡ some (n, gen)
      → (entry : PendingInvalidation X) × (o ≡ some entry) × (entry.refcount ≡ n)
  entry_of_ticket none n gen h = cc h
  entry_of_ticket (some entry) n gen h = (entry, refl, ground arith)

  one_waits :
      (gen : ℕ) (latest : Option ℕ)
      → (latest ≡ none → gen ∷ [] ≡ [])
      → (last : ℕ) × (expected (gen ∷ []) latest ≡ some (1, last))
  one_waits gen none h = let e = h refl in cc e
  one_waits gen (some last) h = (last, refl)

  entry_of_waiting :
      (o : Option (PendingInvalidation X)) (w : ℕ) (ws : List ℕ) (latest : Option ℕ)
      → (latest ≡ none → w ∷ ws ≡ [])
      → ticket o ≡ expected (w ∷ ws) latest
      → (entry : PendingInvalidation X) × (o ≡ some entry) × (entry.refcount ≡ length (w ∷ ws))
  entry_of_waiting o w ws none h e = let no = h refl in cc no
  entry_of_waiting o w ws (some gen) h e = entry_of_ticket o (length (w ∷ ws)) gen e

  begin-events :
      (t : Server X)
      → events_of (get (invalidate_begin t k).pending_invalidations k)
        ≡ events_of (get t.pending_invalidations k)
  unfolding invalidate_begin
  begin-events t =
      let next = one_more (get t.pending_invalidations k) (t.invalidation_gen + 1) in
      let at : get (invalidate_begin t k).pending_invalidations k ≡ some next =
        get-put t.pending_invalidations k next k ∙ rw (eq_refl k) in
      ap events_of at ∙ kept (get t.pending_invalidations k) (t.invalidation_gen + 1)
    where
      kept :
          (o : Option (PendingInvalidation X)) (gen : ℕ)
          → events_of (some (one_more o gen)) ≡ events_of o
      kept none gen = refl
      kept (some entry) gen = refl

  -- One of several invalidations gives its ticket back.
  release-events :
      (s : Server X) (entry : PendingInvalidation X)
      → get s.pending_invalidations k ≡ some entry
      → leb entry.refcount 1 ≡ false
      → events_of (get (release env s k).pending_invalidations k) ≡ entry.events
  unfolding release
  release-events s entry at more =
      let less = record entry { refcount = entry.refcount - 1 } in
      let stored : get (put s.pending_invalidations k less) k ≡ some less =
        get-put s.pending_invalidations k less k ∙ rw (eq_refl k) in
      rw (at, more, release) (ap events_of stored)

  finish-events :
      (t : Server X) (before : List ℕ) (gen : ℕ) (after : List ℕ) (latest : Option ℕ)
      (lookup : Result E PublicCredential)
      → (latest ≡ none → before ++ gen ∷ after ≡ [])
      → ticket_of t k ≡ expected (before ++ gen ∷ after) latest
      → ticket_of (invalidate_finish env t k gen lookup) k ≡ expected (before ++ after) latest
      → events_of (get (invalidate_finish env t k gen lookup).pending_invalidations k)
        ≡ (if non_empty (before ++ after) then events_of (get t.pending_invalidations k) else [])
  unfolding invalidate_finish
  finish-events t [] gen [] latest lookup h now then_ =
      ap events_of
        (no_ticket (get (invalidate_finish env t k gen lookup).pending_invalidations k) then_)
  finish-events t [] gen (a ∷ rest) latest lookup h now then_ =
      let (entry, at, count) =
        entry_of_waiting (get t.pending_invalidations k) gen (a ∷ rest) latest h now in
      let applied = apply_lookup t k gen lookup in
      let held : get applied.pending_invalidations k ≡ some entry =
        ap (λ m. get m k) (apply_lookup-pending env t k gen lookup) ∙ at in
      release-events applied entry held (ground arith) ∙ ap events_of (sym at)
  finish-events t (b ∷ bs) gen after latest lookup h now then_ =
      let (entry, at, count) =
        entry_of_waiting (get t.pending_invalidations k) b (bs ++ gen ∷ after) latest h now in
      let applied = apply_lookup t k gen lookup in
      let held : get applied.pending_invalidations k ≡ some entry =
        ap (λ m. get m k) (apply_lookup-pending env t k gen lookup) ∙ at in
      let two = some_more bs gen after in
      release-events applied entry held (ground arith) ∙ ap events_of (sym at)
    where
      some_more : (xs : List ℕ) (n : ℕ) (ys : List ℕ) → 1 ≤ length (xs ++ n ∷ ys)
      some_more [] n ys = ground arith
      some_more (x ∷ xs) n ys = ground arith

  broadcast-events :
      (t : Server X) (event : ServerEvent X) (waiting : List ℕ) (latest : Option ℕ)
      → (latest ≡ none → waiting ≡ [])
      → ticket_of t k ≡ expected waiting latest
      → events_of (get (broadcast_to_credential env t k event).pending_invalidations k) ≡ (
          if non_empty waiting
          then events_of (get t.pending_invalidations k) ++ event ∷ []
          else events_of (get t.pending_invalidations k))
  unfolding broadcast_to_credential
  broadcast-events t event [] latest h now =
      let free = no_ticket (get t.pending_invalidations k) now in
      let still : get (broadcast_to_credential env t k event).pending_invalidations k ≡ none =
        rw (free, broadcast_to_credential)
          (ap (λ m. get m k) (broadcast_each-pending env t event (get_by_credential_id t k)).0
            ∙ free) in
      ap events_of (still ∙ sym free)
  broadcast-events t event (w ∷ ws) latest h now =
      let (entry, at, count) = entry_of_waiting (get t.pending_invalidations k) w ws latest h now in
      let next = record entry { events = entry.events ++ event ∷ [] } in
      let stored : get (broadcast_to_credential env t k event).pending_invalidations k ≡ some next =
        rw (at, broadcast_to_credential)
          (get-put t.pending_invalidations k next k ∙ rw (eq_refl k)) in
      ap events_of stored ∙ ap (λ o. events_of o ++ event ∷ []) (sym at)

  begin-other :
      (s : Server X) (o : String)
      → (o == k) ≡ false
      → get (invalidate_begin s o).pending_invalidations k ≡ get s.pending_invalidations k
  unfolding invalidate_begin
  begin-other s o d = get-put s.pending_invalidations o _ k ∙ rw d

  finish-other :
      (s : Server X) (o : String) (g : ℕ)
      → (o == k) ≡ false
      → get (invalidate_finish env s o g (answers g)).pending_invalidations k
        ≡ get s.pending_invalidations k
  unfolding invalidate_finish
  finish-other s o g d =
      release-other_pending env (apply_lookup s o g (answers g)) o k d
      ∙ ap (λ m. get m k) (apply_lookup-pending env s o g (answers g))

  Run-queued :
      {start t : Server X} {waiting : List ℕ} {latest : Option ℕ}
      → get start.pending_invalidations k ≡ none
      → (run : Run env answers k start t waiting latest)
      → events_of (get t.pending_invalidations k) ≡ queued run
  Run-queued free started = ap events_of free
  Run-queued free (begun {t} run) = begin-events t ∙ Run-queued free run
  Run-queued free (finished {t} {latest} before gen after run) =
      let tracked = Run-IsTracked env answers k (ap ticket free) run in
      let left = Run-IsTracked env answers k (ap ticket free) (finished before gen after run) in
      finish-events t before gen after latest (answers gen) tracked.none_yet tracked.counted
        left.counted
      ∙ ap (λ l. if non_empty (before ++ after) then l else []) (Run-queued free run)
  Run-queued free (broadcasted {t} {waiting} {latest} other event run) =
      let tracked = Run-IsTracked env answers k (ap ticket free) run in
      let old = Run-queued free run in
      elim (Bool-cases (other == k)) [
        | inl here ↦
            let same : other ≡ k = (eq_iff other k).0 here in
            rw here (
              ap
                (λ o.
                  events_of (get (broadcast_to_credential env t o event).pending_invalidations k))
                same
              ∙ broadcast-events t event waiting latest tracked.none_yet tracked.counted
              ∙ ap (λ l. if non_empty waiting then l ++ event ∷ [] else l) old)
        | inr elsewhere ↦
            rw elsewhere
              (ap events_of (broadcast-other_pending env t other k event elsewhere) ∙ old)
      ]
  Run-queued free (begun_elsewhere {t} other differs run) =
      ap events_of (begin-other t other differs) ∙ Run-queued free run
  Run-queued free (finished_elsewhere {t} other gen differs run) =
      ap events_of (finish-other t other gen differs) ∙ Run-queued free run

  -- From a state in which no invalidation of the credential is pending, whatever invalidations begin,
  -- and in whatever order the lookups come back, with credentials or errors: when one lookup is left
  -- and has come back, after some last events were broadcast, nothing is pending, and all the events
  -- that were broadcast to the credential since the first of the lookups began, and after them the
  -- last ones, are sent in their order to the connections of the credential, upon the state with the
  -- lookup's answer written.
  pub Run-settles :
      (start t : Server X) (latest : Option ℕ) (gen : ℕ) (events : List (ServerEvent X))
      → get start.pending_invalidations k ≡ none
      → (run : Run env answers k start t (gen ∷ []) latest)
      → (get
            (invalidate_finish env
              (broadcasts env t k events)
              k
              gen
              (answers gen)).pending_invalidations
            k
          ≡ none)
        × (invalidate_finish env (broadcasts env t k events) k gen (answers gen)
            ≡ send_each env
                (settled env (broadcasts env t k events) k gen (answers gen))
                k
                (queued run ++ events))
  Run-settles start t latest gen events free run =
      let tracked = Run-IsTracked env answers k (ap ticket free) run in
      let (last, single) = one_waits gen latest tracked.none_yet in
      let (entry, at, once) =
        entry_of_ticket (get t.pending_invalidations k) 1 last (tracked.counted ∙ single) in
      let (cleared, sent) = finish-sends env t k entry events gen (answers gen) at (ground arith) in
      let all_of_them : entry.events ≡ queued run = ap events_of (sym at) ∙ Run-queued free run in
      (
        cleared,
        sent
            ∙ ap
                (λ l.
                  send_each env (settled env (broadcasts env t k events) k gen (answers gen)) k
                    (l ++ events))
                all_of_them,
      )
