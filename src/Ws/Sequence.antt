-- ===== src/Ws/Sequence.antt =====
-- packages/ws/src/event-broadcaster.ts and the replay of server.ts: the frames of a credential are
-- numbered from 1, kept in its buffer, and sent again to a harness that comes back. `E` is an event.
pub mod Laws
use xmtp_broker.Base.{
  ℕ, ◌+◌, Bool, true, false, List, [], ◌∷◌, Option, none, some, ltb, non_empty, if◌then◌else◌,
}
use xmtp_broker.Ws.Buffer.{CircularBuffer, new_buffer, push, oldest, items_since}

pub record SequencedFrame (E : Type 0) : Type 0 where
  pub seq : ℕ
  pub event : E

pub record CredentialReplayState (E : Type 0) : Type 0 where
  pub buffer : CircularBuffer (SequencedFrame E)
  pub next_seq : ℕ

-- What `handleAuthFrame` decides of the replay.
pub record ReplayPlan (E : Type 0) : Type 0 where
  pub resumed_from_seq : Option ℕ
  pub needs_recovery : Bool
  pub replay_frames : List (SequencedFrame E)

module _ {E : Type 0} where
  -- the state that `getOrCreateCredentialState` makes
  unfoldable pub new_credential_state : ℕ → CredentialReplayState E
  new_credential_state replay_buffer_size = record {
    buffer = new_buffer replay_buffer_size;
    next_seq = 1;
  }

  unfoldable pub sequence_event :
      CredentialReplayState E → E → CredentialReplayState E × SequencedFrame E
  sequence_event state event =
      let seq = state.next_seq in
      let frame : SequencedFrame E = record { seq = seq; event = event } in
      (record { buffer = push state.buffer frame; next_seq = seq + 1 }, frame)

  too_far_behind : Option (SequencedFrame E) → ℕ → Bool
  too_far_behind none last_seen = false
  too_far_behind (some frame) last_seen = ltb (last_seen + 1) frame.seq

  pub plan_replay : CredentialReplayState E → Option ℕ → ReplayPlan E
  plan_replay state none = record {
    resumed_from_seq = none;
    needs_recovery = false;
    replay_frames = [];
  }
  plan_replay state (some last_seen) =
      if too_far_behind (oldest state.buffer) last_seen
      then record { resumed_from_seq = none; needs_recovery = true; replay_frames = [] }
      else (let frames = items_since state.buffer (λ f. ltb last_seen f.seq) in
          record {
            resumed_from_seq = if non_empty frames then some last_seen else none;
            needs_recovery = false;
            replay_frames = frames;
          })

  -- a run of events, in order
  pub sequence_all : CredentialReplayState E → List E → CredentialReplayState E
  unfolding sequence_event
  sequence_all state [] = state
  sequence_all state (e ∷ rest) = sequence_all (sequence_event state e).0 rest
