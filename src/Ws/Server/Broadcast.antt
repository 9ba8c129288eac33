-- ===== src/Ws/Server/Broadcast.antt =====
-- packages/ws/src/server.ts: `broadcastToCredential` and `invalidateCredential`. An invalidation is
-- two steps, before and after the lookup it awaits; others may begin and end in between.
pub mod Laws
pub mod Delivery
pub mod Receivers
pub mod Tickets
pub mod Queue
pub mod Refresh
pub mod Snapshots
pub mod Overlap
pub mod Settling
use xmtp_broker.Base.{
  ℕ, ◌+◌, ◌-◌, ◌&&◌, String, Bool, List, [], ◌∷◌, ◌++◌, Option, none, some, leb, get, put, delete,
  Result, ok, err, if◌then◌else◌,
}
use xmtp_broker.Sessions.Credentials.Store.{is_active}
use xmtp_broker.Sessions.Service.{PublicCredential}
use xmtp_broker.Ws.Server.{
  Connection, Server, ServerEvent, Environment, PendingInvalidation, credential_revoked,
  is_phase_active, close_code_for, get_by_credential_id, close_socket, stop_heartbeat,
  send_sequenced,
}

abbrev pub same_number : ℕ → ℕ → Bool
same_number m n = leb m n && leb n m

module _ {X : Type 0} where
  abbrev pub projected_by :
      Option (ServerEvent X → PublicCredential → Option (ServerEvent X))
      → ServerEvent X
      → PublicCredential
      → Option (ServerEvent X)
  projected_by none event credential = some event
  projected_by (some project) event credential = project event credential

  -- The event as a connection that holds the credential gets it, if it does.
  abbrev pub projected : Environment X → ServerEvent X → PublicCredential → Option (ServerEvent X)
  projected env event credential = projected_by env.project_event event credential

  abbrev pub due : Environment X → ServerEvent X → Option (Connection X) → Option (ServerEvent X)
  due env event none = none
  due env event (some c) =
      if is_phase_active c.phase
      then elim c.credential_record [
        | none ↦ none
        | some credential ↦
            if is_active credential.status then projected env event credential else none
      ]
      else none

  -- the body of the loop
  unfoldable pub broadcast_to : Environment X → Server X → ServerEvent X → String → Server X
  broadcast_to env s event id = elim (due env event (get s.sockets id)) [
    | none ↦ s
    | some own ↦ send_sequenced env s id own
  ]

  unfoldable pub broadcast_each : Environment X → Server X → ServerEvent X → List String → Server X
  broadcast_each env s event [] = s
  broadcast_each env s event (id ∷ ids) = broadcast_each env (broadcast_to env s event id) event ids

  unfoldable pub broadcast_to_credential :
      Environment X → Server X → String → ServerEvent X → Server X
  broadcast_to_credential env s credential_id event =
      elim (get s.pending_invalidations credential_id) [
        | some pending ↦ record s {
          pending_invalidations =
              put s.pending_invalidations credential_id
                (record pending { events = pending.events ++ event ∷ [] });
        }
        | none ↦ broadcast_each env s event (get_by_credential_id s credential_id)
      ]

  abbrev pub one_more : Option (PendingInvalidation X) → ℕ → PendingInvalidation X
  one_more none gen = record { refcount = 1; generation = gen; events = [] }
  one_more (some existing) gen = record existing {
    refcount = existing.refcount + 1;
    generation = gen;
  }

  -- up to the lookup
  unfoldable pub invalidate_begin : Server X → String → Server X
  invalidate_begin s credential_id =
      let my_gen = s.invalidation_gen + 1 in
      record s {
        invalidation_gen = my_gen;
        pending_invalidations =
            put s.pending_invalidations credential_id
              (one_more (get s.pending_invalidations credential_id) my_gen);
      }

  -- the body of the loop over the connections, on one of them
  unfoldable pub refresh_connection :
      {E : Type 0} → Connection X → Result E PublicCredential → Connection X
  refresh_connection c lookup =
      if is_phase_active c.phase
      then elim lookup [
        | err e ↦ stop_heartbeat (close_socket c credential_revoked)
        | ok fresh ↦
            let updated = record c { credential_record = some fresh } in
            if is_active fresh.status
            then updated
            else stop_heartbeat (close_socket updated (close_code_for fresh.status))
      ]
      else c

  unfoldable pub refresh_each :
      {E : Type 0} → Server X → Result E PublicCredential → List String → Server X
  refresh_each s lookup [] = s
  refresh_each s lookup (id ∷ ids) = elim (get s.sockets id) [
    | none ↦ refresh_each s lookup ids
    | some c ↦
        refresh_each (record s { sockets = put s.sockets id (refresh_connection c lookup) }) lookup
          ids
  ]

  unfoldable pub drain : Environment X → Server X → String → List (ServerEvent X) → Server X
  drain env s credential_id [] = s
  drain env s credential_id (event ∷ queued) =
      drain env (broadcast_to_credential env s credential_id event) credential_id queued

  -- the `finally`
  unfoldable pub release : Environment X → Server X → String → Server X
  release env s credential_id = elim (get s.pending_invalidations credential_id) [
    | none ↦ s
    | some entry ↦
        if leb entry.refcount 1
        then drain env
            (record s { pending_invalidations = delete s.pending_invalidations credential_id })
            credential_id entry.events
        else record s {
          pending_invalidations =
              put s.pending_invalidations credential_id
                (record entry { refcount = entry.refcount - 1 });
        }
  ]

  unfoldable pub apply_lookup :
      {E : Type 0} → Server X → String → ℕ → Result E PublicCredential → Server X
  apply_lookup s credential_id my_gen lookup = elim (get s.pending_invalidations credential_id) [
    | none ↦ s
    | some entry ↦
        if same_number entry.generation my_gen
        then refresh_each s lookup (get_by_credential_id s credential_id)
        else s
  ]

  -- from the lookup on
  unfoldable pub invalidate_finish :
      {E : Type 0} → Environment X → Server X → String → ℕ → Result E PublicCredential → Server X
  invalidate_finish env s credential_id my_gen lookup =
      release env (apply_lookup s credential_id my_gen lookup) credential_id
