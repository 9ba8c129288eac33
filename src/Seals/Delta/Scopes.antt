-- ===== src/Seals/Delta/Scopes.antt =====
-- Which scopes a delta adds and removes.
use xmtp_broker.Base.{
  String, Bool, false, not, ◌&&◌, ◌||◌, List, [], ◌∷◌, ◌==◌, ◌≡◌, ◌∙◌, includes, includes-append,
  includes-set_of, eq_iff, arith,
}
use xmtp_broker.Scopes.{ScopeSet}
use xmtp_broker.Policy.Materiality.{PolicyDelta, empty_delta}
use xmtp_broker.Seals.Delta.{
  newly_allowed, no_longer_allowed, deny_raised, deny_lifted, newly_denied, no_longer_denied, each,
  to_sets, compute_payload_delta,
}

-- A scope counts as added if it is allowed now and was not listed before, or if it was denied and is
-- not listed now.
abbrev pub adds : ScopeSet → ScopeSet → String → Bool
adds prev next s =
    (includes next.allow s && not (includes prev.allow s) && not (includes prev.deny s))
    || (includes prev.deny s && not (includes next.deny s) && not (includes next.allow s))

-- A scope counts as removed if it was allowed and is not listed now, or if it is denied now and was
-- not listed before.
abbrev pub removes : ScopeSet → ScopeSet → String → Bool
removes prev next s =
    (includes prev.allow s && not (includes next.allow s) && not (includes next.deny s))
    || (includes next.deny s && not (includes prev.deny s) && not (includes prev.allow s))

-- The delta that a loop leaves lists, beside what it listed, the scopes of the loop that pass a test.
record IsListing (s : String) (body : PolicyDelta → String → PolicyDelta) (adding removing : Bool)
    : Type 0 where
  added :
      (d : PolicyDelta) (x : String)
      → includes (body d x).added s ≡ (includes d.added s || ((x == s) && adding))
  removed :
      (d : PolicyDelta) (x : String)
      → includes (body d x).removed s ≡ (includes d.removed s || ((x == s) && removing))

each-added :
    (s : String) (body : PolicyDelta → String → PolicyDelta) (adding removing : Bool)
    → IsListing s body adding removing
    → (d : PolicyDelta) (xs : List String)
    → includes (each body d xs).added s ≡ (includes d.added s || (includes xs s && adding))
unfolding each
each-added s body adding removing is d [] = ground arith
each-added s body adding removing is d (x ∷ xs) =
    ground (arith, each-added s body adding removing is (body d x) xs, is.added d x)

each-removed :
    (s : String) (body : PolicyDelta → String → PolicyDelta) (adding removing : Bool)
    → IsListing s body adding removing
    → (d : PolicyDelta) (xs : List String)
    → includes (each body d xs).removed s ≡ (includes d.removed s || (includes xs s && removing))
unfolding each
each-removed s body adding removing is d [] = ground arith
each-removed s body adding removing is d (x ∷ xs) =
    ground (arith, each-removed s body adding removing is (body d x) xs, is.removed d x)

module _ (prev next : ScopeSet) (s : String) where
  newly_allowed-IsListing :
      IsListing s
        (newly_allowed prev next)
        (not (includes prev.allow s) && not (includes prev.deny s))
        false
  unfolding newly_allowed
  newly_allowed-IsListing = record {
    added = λ d x. ground (arith, includes-append d.added (x ∷ []) s, eq_iff x s);
    removed = λ d x. ground arith;
  }

  no_longer_allowed-IsListing :
      IsListing s
        (no_longer_allowed prev next)
        false
        (not (includes next.allow s) && not (includes next.deny s))
  unfolding no_longer_allowed
  no_longer_allowed-IsListing = record {
    added = λ d x. ground arith;
    removed = λ d x. ground (arith, includes-append d.removed (x ∷ []) s, eq_iff x s);
  }

  deny_raised-IsListing : IsListing s (deny_raised prev next) false false
  unfolding deny_raised
  deny_raised-IsListing = record { added = λ d x. ground arith; removed = λ d x. ground arith }

  deny_lifted-IsListing : IsListing s (deny_lifted prev next) false false
  unfolding deny_lifted
  deny_lifted-IsListing = record { added = λ d x. ground arith; removed = λ d x. ground arith }

  newly_denied-IsListing :
      IsListing s
        (newly_denied prev next)
        false
        (not (includes prev.deny s) && not (includes prev.allow s))
  unfolding newly_denied
  newly_denied-IsListing = record {
    added = λ d x. ground arith;
    removed = λ d x. ground (arith, includes-append d.removed (x ∷ []) s, eq_iff x s);
  }

  no_longer_denied-IsListing :
      IsListing s
        (no_longer_denied prev next)
        (not (includes next.deny s) && not (includes next.allow s))
        false
  unfolding no_longer_denied
  no_longer_denied-IsListing = record {
    added = λ d x. ground (arith, includes-append d.added (x ∷ []) s, eq_iff x s);
    removed = λ d x. ground arith;
  }

pub compute_payload_delta-added :
    (previous current : ScopeSet) (s : String)
    → includes (compute_payload_delta previous current).added s ≡ adds previous current s
unfolding compute_payload_delta
compute_payload_delta-added previous current s =
    let prev = to_sets previous in
    let next = to_sets current in
    let d1 = each (newly_allowed prev next) empty_delta next.allow in
    let d2 = each (no_longer_allowed prev next) d1 prev.allow in
    let d3 = each (deny_raised prev next) d2 next.deny in
    let d4 = each (deny_lifted prev next) d3 prev.deny in
    let d5 = each (newly_denied prev next) d4 next.deny in
    let e1 = each-added s _ _ _ (newly_allowed-IsListing prev next s) empty_delta next.allow in
    let e2 = each-added s _ _ _ (no_longer_allowed-IsListing prev next s) d1 prev.allow in
    let e3 = each-added s _ _ _ (deny_raised-IsListing prev next s) d2 next.deny in
    let e4 = each-added s _ _ _ (deny_lifted-IsListing prev next s) d3 prev.deny in
    let e5 = each-added s _ _ _ (newly_denied-IsListing prev next s) d4 next.deny in
    let e6 = each-added s _ _ _ (no_longer_denied-IsListing prev next s) d5 prev.deny in
    let a = includes-set_of [] previous.allow s in
    let b = includes-set_of [] previous.deny s in
    let c = includes-set_of [] current.allow s in
    let e = includes-set_of [] current.deny s in e6 ∙ ground arith

pub compute_payload_delta-removed :
    (previous current : ScopeSet) (s : String)
    → includes (compute_payload_delta previous current).removed s ≡ removes previous current s
unfolding compute_payload_delta
compute_payload_delta-removed previous current s =
    let prev = to_sets previous in
    let next = to_sets current in
    let d1 = each (newly_allowed prev next) empty_delta next.allow in
    let d2 = each (no_longer_allowed prev next) d1 prev.allow in
    let d3 = each (deny_raised prev next) d2 next.deny in
    let d4 = each (deny_lifted prev next) d3 prev.deny in
    let d5 = each (newly_denied prev next) d4 next.deny in
    let e1 = each-removed s _ _ _ (newly_allowed-IsListing prev next s) empty_delta next.allow in
    let e2 = each-removed s _ _ _ (no_longer_allowed-IsListing prev next s) d1 prev.allow in
    let e3 = each-removed s _ _ _ (deny_raised-IsListing prev next s) d2 next.deny in
    let e4 = each-removed s _ _ _ (deny_lifted-IsListing prev next s) d3 prev.deny in
    let e5 = each-removed s _ _ _ (newly_denied-IsListing prev next s) d4 next.deny in
    let e6 = each-removed s _ _ _ (no_longer_denied-IsListing prev next s) d5 prev.deny in
    let a = includes-set_of [] previous.allow s in
    let b = includes-set_of [] previous.deny s in
    let c = includes-set_of [] current.allow s in
    let e = includes-set_of [] current.deny s in e6 ∙ ground arith
