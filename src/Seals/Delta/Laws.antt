-- ===== src/Seals/Delta/Laws.antt =====
-- When the delta of two seals is empty.
use xmtp_broker.Base.{
  String, Bool, true, false, not, ◌&&◌, ◌||◌, List, [], ◌∷◌, ◌≡◌, refl, ◌∙◌, sym, ◌↔◌, includes,
  includes-set_of, any, any-false_iff, non_empty-append, arith,
}
use xmtp_broker.Scopes.{ScopeSet}
use xmtp_broker.Policy.Materiality.{
  Verdict, allow, deny, PolicyDelta, empty_delta, is_single_delta_material,
}
use xmtp_broker.Seals.Delta.{
  flip, add, drop, newly_allowed, no_longer_allowed, deny_raised, deny_lifted, newly_denied,
  no_longer_denied, each, to_sets, compute_payload_delta,
}

abbrev mat : PolicyDelta → Bool
mat = is_single_delta_material

flip-material : (d : PolicyDelta) (s : String) (a b : Verdict) → mat (flip d s a b) ≡ true
unfolding is_single_delta_material
flip-material d s a b =
    ground (arith, non_empty-append d.changed (record { scope = s; from = a; to = b } ∷ []))

add-material : (d : PolicyDelta) (s : String) → mat (add d s) ≡ true
unfolding is_single_delta_material
add-material d s = ground (arith, non_empty-append d.added (s ∷ []))

drop-material : (d : PolicyDelta) (s : String) → mat (drop d s) ≡ true
unfolding is_single_delta_material
drop-material d s = ground (arith, non_empty-append d.removed (s ∷ []))

-- A loop leaves a non-empty delta if it met one, or if its body reports some scope.
each-material :
    (body : PolicyDelta → String → PolicyDelta) (reports : String → Bool)
    → ((d : PolicyDelta) (s : String) → mat (body d s) ≡ (mat d || reports s))
    → (d : PolicyDelta) (xs : List String) → mat (each body d xs) ≡ (mat d || any reports xs)
unfolding each
each-material body reports h d [] = ground arith
each-material body reports h d (s ∷ rest) =
    ground (arith, h d s, each-material body reports h (body d s) rest)

mat-empty : mat empty_delta ≡ false
unfolding is_single_delta_material
mat-empty = refl

module _ (prev next : ScopeSet) where
  newly_allowed-material :
      (d : PolicyDelta) (s : String)
      → mat (newly_allowed prev next d s) ≡ (mat d || not (includes prev.allow s))
  unfolding newly_allowed
  newly_allowed-material d s = ground (arith, flip-material d s deny allow, add-material d s)

  no_longer_allowed-material :
      (d : PolicyDelta) (s : String)
      → mat (no_longer_allowed prev next d s) ≡ (mat d || not (includes next.allow s))
  unfolding no_longer_allowed
  no_longer_allowed-material d s = ground (arith, flip-material d s allow deny, drop-material d s)

  deny_raised-material :
      (d : PolicyDelta) (s : String)
      → mat (deny_raised prev next d s)
        ≡ (mat d || (not (includes prev.deny s) && includes prev.allow s && includes next.allow s))
  unfolding deny_raised
  deny_raised-material d s = ground (arith, flip-material d s allow deny)

  deny_lifted-material :
      (d : PolicyDelta) (s : String)
      → mat (deny_lifted prev next d s)
        ≡ (mat d || (not (includes next.deny s) && includes prev.allow s && includes next.allow s))
  unfolding deny_lifted
  deny_lifted-material d s = ground (arith, flip-material d s deny allow)

  newly_denied-material :
      (d : PolicyDelta) (s : String)
      → mat (newly_denied prev next d s)
        ≡ (mat d || (not (includes prev.deny s) && not (includes prev.allow s)))
  unfolding newly_denied
  newly_denied-material d s = ground (arith, drop-material d s)

  no_longer_denied-material :
      (d : PolicyDelta) (s : String)
      → mat (no_longer_denied prev next d s)
        ≡ (mat d || (not (includes next.deny s) && not (includes next.allow s)))
  unfolding no_longer_denied
  no_longer_denied-material d s = ground (arith, add-material d s)

  -- What each loop reports.
  abbrev gains : String → Bool
  gains s = not (includes prev.allow s)

  abbrev loses : String → Bool
  loses s = not (includes next.allow s)

  abbrev raises : String → Bool
  raises s = not (includes prev.deny s) && includes prev.allow s && includes next.allow s

  abbrev lifts : String → Bool
  lifts s = not (includes next.deny s) && includes prev.allow s && includes next.allow s

  abbrev bans : String → Bool
  bans s = not (includes prev.deny s) && not (includes prev.allow s)

  abbrev unbans : String → Bool
  unbans s = not (includes next.deny s) && not (includes next.allow s)

  abbrev reported : Bool
  reported =
      any gains next.allow
      || any loses prev.allow
      || any raises next.deny
      || any lifts prev.deny
      || any bans next.deny
      || any unbans prev.deny

  loops_lem :
      mat (
        each
          (no_longer_denied prev next)
          (each
            (newly_denied prev next)
            (each
              (deny_lifted prev next)
              (each
                (deny_raised prev next)
                (each
                  (no_longer_allowed prev next)
                  (each (newly_allowed prev next) empty_delta next.allow)
                  prev.allow)
                next.deny)
              prev.deny)
            next.deny)
          prev.deny)
      ≡ reported
  loops_lem =
      let d1 = each (newly_allowed prev next) empty_delta next.allow in
      let d2 = each (no_longer_allowed prev next) d1 prev.allow in
      let d3 = each (deny_raised prev next) d2 next.deny in
      let d4 = each (deny_lifted prev next) d3 prev.deny in
      let d5 = each (newly_denied prev next) d4 next.deny in
      ground (
        arith,
        mat-empty,
        each-material (newly_allowed prev next) gains newly_allowed-material empty_delta next.allow,
        each-material (no_longer_allowed prev next) loses no_longer_allowed-material d1 prev.allow,
        each-material (deny_raised prev next) raises deny_raised-material d2 next.deny,
        each-material (deny_lifted prev next) lifts deny_lifted-material d3 prev.deny,
        each-material (newly_denied prev next) bans newly_denied-material d4 next.deny,
        each-material (no_longer_denied prev next) unbans no_longer_denied-material d5 prev.deny,
      )

  -- No loop reports anything exactly if the two payloads list the same scopes.
  reported-false :
      reported ≡ false
      → (s : String)
      → (includes prev.allow s ≡ includes next.allow s)
        × (includes prev.deny s ≡ includes next.deny s)
  reported-false h s =
      let g1 = (any-false_iff gains next.allow).0 (ground arith) s in
      let g2 = (any-false_iff loses prev.allow).0 (ground arith) s in
      let g3 = (any-false_iff raises next.deny).0 (ground arith) s in
      let g4 = (any-false_iff lifts prev.deny).0 (ground arith) s in
      let g5 = (any-false_iff bans next.deny).0 (ground arith) s in
      let g6 = (any-false_iff unbans prev.deny).0 (ground arith) s in
      (ground (arith, g1, g2), ground (arith, g1, g2, g3, g4, g5, g6))

  reported-of_same :
      ((s : String)
        → (includes prev.allow s ≡ includes next.allow s)
          × (includes prev.deny s ≡ includes next.deny s))
      → reported ≡ false
  reported-of_same f = ground (
    arith,
    (any-false_iff gains next.allow).1 (λ s m. ground (arith, f s)),
    (any-false_iff loses prev.allow).1 (λ s m. ground (arith, f s)),
    (any-false_iff raises next.deny).1 (λ s m. ground (arith, f s)),
    (any-false_iff lifts prev.deny).1 (λ s m. ground (arith, f s)),
    (any-false_iff bans next.deny).1 (λ s m. ground (arith, f s)),
    (any-false_iff unbans prev.deny).1 (λ s m. ground (arith, f s)),
  )

-- The two permissions list the same scopes under allow and the same under deny.
abbrev pub SamePermissions : ScopeSet → ScopeSet → Type 0
SamePermissions a b =
    (s : String)
    → (includes a.allow s ≡ includes b.allow s) × (includes a.deny s ≡ includes b.deny s)

to_sets-same : (a b : ScopeSet) → SamePermissions (to_sets a) (to_sets b) ↔ SamePermissions a b
to_sets-same a b = (λ f s. go s (f s), λ f s. back s (f s))
  where
    go :
        (s : String)
        → (includes (to_sets a).allow s ≡ includes (to_sets b).allow s)
          × (includes (to_sets a).deny s ≡ includes (to_sets b).deny s)
        → (includes a.allow s ≡ includes b.allow s) × (includes a.deny s ≡ includes b.deny s)
    go s h = ground (
      arith,
      includes-set_of [] a.allow s,
      includes-set_of [] b.allow s,
      includes-set_of [] a.deny s,
      includes-set_of [] b.deny s,
    )

    back :
        (s : String)
        → (includes a.allow s ≡ includes b.allow s) × (includes a.deny s ≡ includes b.deny s)
        → (includes (to_sets a).allow s ≡ includes (to_sets b).allow s)
          × (includes (to_sets a).deny s ≡ includes (to_sets b).deny s)
    back s h = ground (
      arith,
      includes-set_of [] a.allow s,
      includes-set_of [] b.allow s,
      includes-set_of [] a.deny s,
      includes-set_of [] b.deny s,
    )

-- The delta of two payloads is immaterial (nothing added, removed or changed) exactly if their
-- permissions list the same scopes under allow and the same scopes under deny.
pub compute_payload_delta-material_iff :
    (previous next : ScopeSet)
    → (is_single_delta_material (compute_payload_delta previous next) ≡ false)
      ↔ SamePermissions previous next
unfolding compute_payload_delta
compute_payload_delta-material_iff previous next =
    let prev = to_sets previous in
    let nxt = to_sets next in
    let same = to_sets-same previous next in
    (
      λ h. same.0 (reported-false prev nxt (sym (loops_lem prev nxt) ∙ h)),
      λ f. loops_lem prev nxt ∙ reported-of_same prev nxt (same.1 f),
    )
