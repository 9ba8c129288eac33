-- ===== src/Seals/Delta.antt =====
-- packages/seals/src/compute-delta.ts, on the permissions of two payloads.
pub mod Laws
pub mod Scopes
use xmtp_broker.Base.{
  String, Bool, true, false, not, ◌&&◌, List, [], ◌∷◌, ◌++◌, includes, set_of, if◌then◌else◌,
}
use xmtp_broker.Scopes.{ScopeSet}
use xmtp_broker.Policy.Materiality.{
  Verdict, allow, deny, ScopePolicyChange, PolicyDelta, empty_delta,
}

abbrev flip : PolicyDelta → String → Verdict → Verdict → PolicyDelta
flip d scope from to = record d {
  changed = d.changed ++ record { scope = scope; from = from; to = to } ∷ [];
}

abbrev add : PolicyDelta → String → PolicyDelta
add d scope = record d { added = d.added ++ scope ∷ [] }

abbrev drop : PolicyDelta → String → PolicyDelta
drop d scope = record d { removed = d.removed ++ scope ∷ [] }

-- The bodies of the six loops. The scope set of a payload is that of its two lists.
module _ (prev next : ScopeSet) where
  newly_allowed : PolicyDelta → String → PolicyDelta
  newly_allowed d scope =
      if not (includes prev.allow scope)
      then (if includes prev.deny scope then flip d scope deny allow else add d scope)
      else d

  no_longer_allowed : PolicyDelta → String → PolicyDelta
  no_longer_allowed d scope =
      if not (includes next.allow scope)
      then (if includes next.deny scope then flip d scope allow deny else drop d scope)
      else d

  deny_raised : PolicyDelta → String → PolicyDelta
  deny_raised d scope =
      if not (includes prev.deny scope) && includes prev.allow scope && includes next.allow scope
      then flip d scope allow deny
      else d

  deny_lifted : PolicyDelta → String → PolicyDelta
  deny_lifted d scope =
      if not (includes next.deny scope) && includes prev.allow scope && includes next.allow scope
      then flip d scope deny allow
      else d

  newly_denied : PolicyDelta → String → PolicyDelta
  newly_denied d scope =
      if not (includes prev.deny scope) && not (includes prev.allow scope) then drop d scope else d

  no_longer_denied : PolicyDelta → String → PolicyDelta
  no_longer_denied d scope =
      if not (includes next.deny scope) && not (includes next.allow scope) then add d scope else d

-- `for (const scope of scopes) …`
each : (PolicyDelta → String → PolicyDelta) → PolicyDelta → List String → PolicyDelta
each body d [] = d
each body d (scope ∷ rest) = each body (body d scope) rest

abbrev to_sets : ScopeSet → ScopeSet
to_sets s = record { allow = set_of [] s.allow; deny = set_of [] s.deny }

unfoldable pub compute_payload_delta : ScopeSet → ScopeSet → PolicyDelta
unfolding newly_allowed no_longer_allowed deny_raised deny_lifted newly_denied no_longer_denied each
compute_payload_delta previous next' =
    let prev = to_sets previous in
    let next = to_sets next' in
    let d1 = each (newly_allowed prev next) empty_delta next.allow in
    let d2 = each (no_longer_allowed prev next) d1 prev.allow in
    let d3 = each (deny_raised prev next) d2 next.deny in
    let d4 = each (deny_lifted prev next) d3 prev.deny in
    let d5 = each (newly_denied prev next) d4 next.deny in
    each (no_longer_denied prev next) d5 prev.deny
