-- ===== src/Ws/Connection/Laws.antt =====
-- How the phase of a connection changes.
use xmtp_broker.Base.{ℕ, ◌+◌, ◌≤◌, Bool, true, false, List, [], ◌∷◌, arith}
use xmtp_broker.Ws.Connection.{
  ConnectionPhase, authenticating, active, draining, closed, transition,
}

abbrev pub rank : ConnectionPhase → ℕ
rank authenticating = 0
rank active = 1
rank draining = 2
rank closed = 3

abbrev count_if : Bool → ℕ
count_if true = 1
count_if false = 0

-- The phase after a list of attempted transitions, and how many of them succeeded.
abbrev pub attempts : ConnectionPhase → List ConnectionPhase → ConnectionPhase × ℕ
attempts phase [] = (phase, 0)
attempts phase (to ∷ rest) =
    let (next, success) = transition phase to in
    let (last, n) = attempts next rest in (last, count_if success + n)

transition-rank :
    (p q : ConnectionPhase) → rank p + count_if (transition p q).1 ≤ rank (transition p q).0
unfolding transition
transition-rank authenticating authenticating = omega arith
transition-rank authenticating active = omega arith
transition-rank authenticating draining = omega arith
transition-rank authenticating closed = omega arith
transition-rank active authenticating = omega arith
transition-rank active active = omega arith
transition-rank active draining = omega arith
transition-rank active closed = omega arith
transition-rank draining authenticating = omega arith
transition-rank draining active = omega arith
transition-rank draining draining = omega arith
transition-rank draining closed = omega arith
transition-rank closed authenticating = omega arith
transition-rank closed active = omega arith
transition-rank closed draining = omega arith
transition-rank closed closed = omega arith

rank_max : (p : ConnectionPhase) → rank p ≤ 3
rank_max authenticating = omega arith
rank_max active = omega arith
rank_max draining = omega arith
rank_max closed = omega arith

-- With the phases ranked authenticating, active, draining, closed from 0 to 3, each transition that
-- succeeds takes a connection to a higher rank: whatever transitions are attempted, the rank at the
-- end is at least the first rank and the number of successes together, and it is at most 3.
pub attempts-forward :
    (phase : ConnectionPhase) (tos : List ConnectionPhase)
    → (rank phase + (attempts phase tos).1 ≤ rank (attempts phase tos).0)
      × (rank (attempts phase tos).0 ≤ 3)
attempts-forward phase [] = (omega arith, rank_max phase)
attempts-forward phase (to ∷ rest) =
    let (forward, top) = attempts-forward (transition phase to).0 rest in
    (omega (arith, forward, transition-rank phase to), top)
