-- ===== src/Ws/Connection.antt =====
-- packages/ws/src/connection-state.ts and backpressure.ts: the phases of a connection, of which
-- `transition` reads and writes only the phase, and the depth of its send buffer.
pub mod Laws
use xmtp_broker.Base.{
  ℕ, ◌+◌, ◌-◌, Bool, true, false, not, ◌||◌, List, [], ◌∷◌, ltb, leb, if◌then◌else◌,
}

pub data ConnectionPhase : Type 0 where
  authenticating active draining closed : ConnectionPhase

abbrev same_phase : ConnectionPhase → ConnectionPhase → Bool
same_phase authenticating authenticating = true
same_phase active active = true
same_phase draining draining = true
same_phase closed closed = true
same_phase _ _ = false

-- `VALID_TRANSITIONS`
unfoldable pub valid_transitions : ConnectionPhase → List ConnectionPhase
valid_transitions authenticating = active ∷ closed ∷ []
valid_transitions active = draining ∷ closed ∷ []
valid_transitions draining = closed ∷ []
valid_transitions closed = []

abbrev has_phase : List ConnectionPhase → ConnectionPhase → Bool
has_phase [] p = false
has_phase (q ∷ qs) p = same_phase q p || has_phase qs p

unfoldable pub can_transition : ConnectionPhase → ConnectionPhase → Bool
unfolding valid_transitions
can_transition from to = has_phase (valid_transitions from) to

unfoldable pub transition : ConnectionPhase → ConnectionPhase → ConnectionPhase × Bool
unfolding can_transition
transition phase to = if not (can_transition phase to) then (phase, false) else (to, true)

pub data BackpressureState : Type 0 where
  fine warning exceeded : BackpressureState

pub record BackpressureTracker : Type 0 where
  pub depth : ℕ
  pub notified : Bool
  pub soft_limit : ℕ
  pub hard_limit : ℕ

unfoldable pub state_of : BackpressureTracker → BackpressureState
state_of t =
    if leb t.hard_limit t.depth
    then exceeded
    else if leb t.soft_limit t.depth
    then warning
    else fine

unfoldable pub increment : BackpressureTracker → BackpressureTracker
increment t = record t { depth = t.depth + 1 }

unfoldable pub decrement : BackpressureTracker → BackpressureTracker
decrement t = if ltb 0 t.depth then record t { depth = t.depth - 1 } else t

unfoldable pub mark_notified : BackpressureTracker → BackpressureTracker
mark_notified t = record t { notified = true }

unfoldable pub clear_notified : BackpressureTracker → BackpressureTracker
clear_notified t = record t { notified = false }

unfoldable pub reset : BackpressureTracker → BackpressureTracker
reset t = record t { depth = 0; notified = false }
