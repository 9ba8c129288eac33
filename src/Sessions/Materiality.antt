-- ===== src/Sessions/Materiality.antt =====
-- packages/sessions/src/materiality.ts: what a change of a credential's scopes amounts to.
pub mod Laws
use Prim.Native.String
use xmtp_broker.Base.{
  String, Bool, true, false, not, ◌&&◌, ◌||◌, List, [], ◌∷◌, ◌++◌, Option, none, some, includes,
  set_of, any, filter, non_empty, if◌then◌else◌, map,
}
use xmtp_broker.Scopes.{ScopeSet}
use xmtp_broker.Policy.Materiality.{
  Verdict, allow, deny, is_allow, ScopePolicyChange, PolicyDelta, empty_delta,
}

pub record MaterialityCheck : Type 0 where
  pub is_material : Bool
  pub reason : Option String
  pub delta : PolicyDelta
  pub requires_reauthorization : Bool

-- `parts.join(sep)`
abbrev join : String → List String → String
join sep [] = ""
join sep (x ∷ []) = x
join sep (x ∷ y ∷ rest) = String.◌++◌ x (String.◌++◌ sep (join sep (y ∷ rest)))

abbrev verdict_text : Verdict → String
verdict_text allow = "allow"
verdict_text deny = "deny"

abbrev concat : List String → String
concat = join ""

build_reason : PolicyDelta → String
build_reason delta = concat ("Material change: " ∷ join "; " (added ++ removed ++ changed) ∷ [])
  where
    added : List String
    added =
        if non_empty delta.added then concat ("added: " ∷ join ", " delta.added ∷ []) ∷ [] else []

    removed : List String
    removed =
        if non_empty delta.removed
        then concat ("removed: " ∷ join ", " delta.removed ∷ []) ∷ []
        else []

    describe : ScopePolicyChange → String
    describe c =
        concat (c.scope ∷ " (" ∷ verdict_text c.from ∷ " -> " ∷ verdict_text c.to ∷ ")" ∷ [])

    changed : List String
    changed =
        if non_empty delta.changed
        then concat ("changed: " ∷ join ", " (map describe delta.changed) ∷ []) ∷ []
        else []

abbrev flip : String → Verdict → Verdict → ScopePolicyChange
flip scope from to = record { scope = scope; from = from; to = to }

-- the body of the loop in `checkMateriality`, over the sets of the old and the new lists
classify : ScopeSet → ScopeSet → PolicyDelta → String → PolicyDelta
classify old new d scope =
    let old_allowed = includes old.allow scope && not (includes old.deny scope) in
    let new_allowed = includes new.allow scope && not (includes new.deny scope) in
    if not old_allowed && new_allowed
    then (if includes old.allow scope || includes old.deny scope
        then record d { changed = d.changed ++ flip scope deny allow ∷ [] }
        else record d { added = d.added ++ scope ∷ [] })
    else if old_allowed && not new_allowed
    then (if includes new.deny scope
        then record d { changed = d.changed ++ flip scope allow deny ∷ [] }
        else record d { removed = d.removed ++ scope ∷ [] })
    else d

classify_all : ScopeSet → ScopeSet → PolicyDelta → List String → PolicyDelta
unfolding classify
classify_all old new d [] = d
classify_all old new d (scope ∷ rest) = classify_all old new (classify old new d scope) rest

abbrev to_sets : ScopeSet → ScopeSet
to_sets s = record { allow = set_of [] s.allow; deny = set_of [] s.deny }

scope_delta : ScopeSet → ScopeSet → PolicyDelta
unfolding classify_all
scope_delta old_scopes new_scopes =
    let old = to_sets old_scopes in
    let new = to_sets new_scopes in
    classify_all old new empty_delta (set_of [] (old.allow ++ old.deny ++ new.allow ++ new.deny))

unfoldable pub check_materiality : ScopeSet → ScopeSet → MaterialityCheck
unfolding scope_delta build_reason
check_materiality old_scopes new_scopes =
    let delta = scope_delta old_scopes new_scopes in
    let is_material = non_empty delta.added || non_empty delta.removed || non_empty delta.changed in
    record {
      is_material = is_material;
      reason = if is_material then some (build_reason delta) else none;
      delta = delta;
      requires_reauthorization =
          non_empty delta.added || non_empty (filter (λ c. is_allow c.to) delta.changed);
    }
