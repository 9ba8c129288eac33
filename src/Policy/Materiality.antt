-- ===== src/Policy/Materiality.antt =====
-- packages/policy/src/materiality.ts, and the delta of packages/contracts/src/policy-types.ts.
use xmtp_broker.Base.{String, Bool, true, false, ◌||◌, List, [], any, non_empty}

pub data Verdict : Type 0 where
  allow deny : Verdict

pub record ScopePolicyChange : Type 0 where
  pub scope : String
  pub from : Verdict
  pub to : Verdict

pub record PolicyDelta : Type 0 where
  pub added : List String
  pub removed : List String
  pub changed : List ScopePolicyChange

abbrev pub empty_delta : PolicyDelta
empty_delta = record { added = []; removed = []; changed = [] }

abbrev pub is_allow : Verdict → Bool
is_allow allow = true
is_allow deny = false

unfoldable pub is_single_delta_material : PolicyDelta → Bool
is_single_delta_material delta =
    non_empty delta.added || non_empty delta.removed || non_empty delta.changed

unfoldable pub is_single_delta_escalation : PolicyDelta → Bool
is_single_delta_escalation delta = non_empty delta.added || any (λ c. is_allow c.to) delta.changed

-- A single delta is passed as a list of one, as `normalizeDeltas` makes it.
unfoldable pub is_material_change : List PolicyDelta → Bool
unfolding is_single_delta_material
is_material_change deltas = any is_single_delta_material deltas

unfoldable pub requires_reauthorization : List PolicyDelta → Bool
unfolding is_single_delta_escalation
requires_reauthorization deltas = any is_single_delta_escalation deltas
