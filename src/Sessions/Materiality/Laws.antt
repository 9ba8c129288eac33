-- ===== src/Sessions/Materiality/Laws.antt =====
-- When a change is material, and when it escalates.
use xmtp_broker.Base.{
  String, Bool, true, false, not, ◌&&◌, ◌||◌, List, [], ◌∷◌, ◌++◌, ◌≡◌, ◌↔◌, includes, set_of,
  includes-set_of, includes-append, any, any-append, any-false_iff, non_empty-append,
  non_empty-filter, arith, Bool-cases, inl, inr,
}
use xmtp_broker.Scopes.{ScopeSet}
use xmtp_broker.Policy.Materiality.{
  allow, deny, is_allow, ScopePolicyChange, PolicyDelta, empty_delta, is_single_delta_material,
  is_single_delta_escalation,
}
use xmtp_broker.Policy.Permissions.Laws.{grants}
use xmtp_broker.Sessions.Materiality.{
  classify, classify_all, to_sets, scope_delta, check_materiality, flip,
}

differs : ScopeSet → ScopeSet → String → Bool
differs old new s = (grants old s && not (grants new s)) || (not (grants old s) && grants new s)

escalates : ScopeSet → ScopeSet → String → Bool
escalates old new s = not (grants old s) && grants new s

classify-material :
    (old new : ScopeSet) (d : PolicyDelta) (s : String)
    → is_single_delta_material (classify old new d s)
      ≡ (is_single_delta_material d || differs old new s)
unfolding classify is_single_delta_material differs
classify-material old new d s = ground (
  arith,
  non_empty-append d.added (s ∷ []),
  non_empty-append d.removed (s ∷ []),
  non_empty-append d.changed (flip s deny allow ∷ []),
  non_empty-append d.changed (flip s allow deny ∷ []),
)

classify-escalation :
    (old new : ScopeSet) (d : PolicyDelta) (s : String)
    → is_single_delta_escalation (classify old new d s)
      ≡ (is_single_delta_escalation d || escalates old new s)
unfolding classify is_single_delta_escalation escalates
classify-escalation old new d s = ground (
  arith,
  non_empty-append d.added (s ∷ []),
  any-append (λ (c : ScopePolicyChange). is_allow c.to) d.changed (flip s deny allow ∷ []),
  any-append (λ (c : ScopePolicyChange). is_allow c.to) d.changed (flip s allow deny ∷ []),
)

classify_all-material :
    (old new : ScopeSet) (d : PolicyDelta) (xs : List String)
    → is_single_delta_material (classify_all old new d xs)
      ≡ (is_single_delta_material d || any (differs old new) xs)
unfolding classify_all
classify_all-material old new d [] = ground arith
classify_all-material old new d (s ∷ rest) = ground (
  arith,
  classify-material old new d s,
  classify_all-material old new (classify old new d s) rest,
)

classify_all-escalation :
    (old new : ScopeSet) (d : PolicyDelta) (xs : List String)
    → is_single_delta_escalation (classify_all old new d xs)
      ≡ (is_single_delta_escalation d || any (escalates old new) xs)
unfolding classify_all
classify_all-escalation old new d [] = ground arith
classify_all-escalation old new d (s ∷ rest) = ground (
  arith,
  classify-escalation old new d s,
  classify_all-escalation old new (classify old new d s) rest,
)

-- What `allow` and `deny` say of a scope is the same for the sets and the lists.
grants-to_sets : (s : ScopeSet) (x : String) → grants (to_sets s) x ≡ grants s x
grants-to_sets s x = ground (arith, includes-set_of [] s.allow x, includes-set_of [] s.deny x)

abbrev all_scopes : ScopeSet → ScopeSet → List String
all_scopes old new =
    set_of []
      ((to_sets old).allow ++ (to_sets old).deny ++ (to_sets new).allow ++ (to_sets new).deny)

-- A scope that neither set grants needs no visit, and each scope that one grants is visited.
all_scopes-granted :
    (old new : ScopeSet) (x : String)
    → (grants old x || grants new x) ≡ true
    → includes (all_scopes old new) x ≡ true
all_scopes-granted old new x h =
    let oa = (to_sets old).allow in
    let od = (to_sets old).deny in
    let na = (to_sets new).allow in
    let nd = (to_sets new).deny in
    ground (
      arith,
      includes-set_of [] (oa ++ od ++ na ++ nd) x,
      includes-append ((oa ++ od) ++ na) nd x,
      includes-append (oa ++ od) na x,
      includes-append oa od x,
      includes-set_of [] old.allow x,
      includes-set_of [] new.allow x,
    )

any-all_scopes :
    (old new : ScopeSet) (p : String → Bool)
    → ((x : String) → p x ≡ true → (grants old x || grants new x) ≡ true)
    → (any p (all_scopes old new) ≡ false) ↔ ((x : String) → p x ≡ false)
any-all_scopes old new p sub = (
  λ h x. elim (Bool-cases (p x)) [
    | inl hit ↦
        (any-false_iff p (all_scopes old new)).0 h x (all_scopes-granted old new x (sub x hit))
    | inr miss ↦ miss
  ],
  λ f. (any-false_iff p (all_scopes old new)).1 (λ x _. f x),
)

check_materiality-is_material :
    (old new : ScopeSet)
    → (check_materiality old new).is_material
      ≡ any (differs (to_sets old) (to_sets new)) (all_scopes old new)
unfolding check_materiality
check_materiality-is_material old new =
    unfold is_single_delta_material in
    classify_all-material (to_sets old) (to_sets new) empty_delta (all_scopes old new)

scope_delta-escalation :
    (old new : ScopeSet)
    → is_single_delta_escalation (scope_delta old new)
      ≡ any (escalates (to_sets old) (to_sets new)) (all_scopes old new)
unfolding scope_delta
scope_delta-escalation old new =
    unfold is_single_delta_escalation in
    classify_all-escalation (to_sets old) (to_sets new) empty_delta (all_scopes old new)

check_materiality-requires :
    (old new : ScopeSet)
    → (check_materiality old new).requires_reauthorization
      ≡ any (escalates (to_sets old) (to_sets new)) (all_scopes old new)
unfolding check_materiality is_single_delta_escalation
check_materiality-requires old new =
    let d = (check_materiality old new).delta in
    ground (
      arith,
      non_empty-filter (λ (c : ScopePolicyChange). is_allow c.to) d.changed,
      scope_delta-escalation old new,
    )

differs_sub :
    (old new : ScopeSet) (x : String)
    → differs (to_sets old) (to_sets new) x ≡ true
    → (grants old x || grants new x) ≡ true
unfolding differs
differs_sub old new x h = ground (arith, grants-to_sets old x, grants-to_sets new x)

escalates_sub :
    (old new : ScopeSet) (x : String)
    → escalates (to_sets old) (to_sets new) x ≡ true
    → (grants old x || grants new x) ≡ true
unfolding escalates
escalates_sub old new x h = ground (arith, grants-to_sets old x, grants-to_sets new x)

differs-false_iff :
    (old new : ScopeSet) (x : String)
    → (differs (to_sets old) (to_sets new) x ≡ false) ↔ (grants old x ≡ grants new x)
unfolding differs
differs-false_iff old new x = ground (arith, grants-to_sets old x, grants-to_sets new x)

escalates-false_iff :
    (old new : ScopeSet) (x : String)
    → (escalates (to_sets old) (to_sets new) x ≡ false)
      ↔ (grants new x ≡ true → grants old x ≡ true)
unfolding escalates
escalates-false_iff old new x = ground (arith, grants-to_sets old x, grants-to_sets new x)

-- A change is immaterial exactly if the two scope sets grant the same scopes.
pub check_materiality-material_iff :
    (old new : ScopeSet)
    → ((check_materiality old new).is_material ≡ false)
      ↔ ((x : String) → grants old x ≡ grants new x)
check_materiality-material_iff old new =
    let (to, from) =
      any-all_scopes old new (differs (to_sets old) (to_sets new)) (differs_sub old new) in
    rw (check_materiality-is_material old new) (
      λ h x. (differs-false_iff old new x).0 (to h x),
      λ f. from (λ x. (differs-false_iff old new x).1 (f x)),
    )

-- A change needs no new authorization exactly if every scope that the new set grants was granted
-- by the old one.
pub check_materiality-escalation_iff :
    (old new : ScopeSet)
    → ((check_materiality old new).requires_reauthorization ≡ false)
      ↔ ((x : String) → grants new x ≡ true → grants old x ≡ true)
check_materiality-escalation_iff old new =
    let (to, from) =
      any-all_scopes old new (escalates (to_sets old) (to_sets new)) (escalates_sub old new) in
    rw (check_materiality-requires old new) (
      λ h x. (escalates-false_iff old new x).0 (to h x),
      λ f. from (λ x. (escalates-false_iff old new x).1 (f x)),
    )
