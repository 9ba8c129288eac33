-- ===== src/Verifier/Verdicts.antt =====
-- When a source counts as verified.
use xmtp_broker.Base.{false, List, [], ◌∷◌, ◌≡◌, ◌≢◌, ◌↔◌, refl, ap, ◌∙◌, inl, inr, Bool-cases, any}
use xmtp_broker.Verifier.{
  CheckVerdict, pass, fail, skip, TrustTier, verified, unverified, source_verified,
  reproducibly_verified, runtime_attested, is_fail, is_skip, determine_verdict,
  determine_verified_tier,
}

abbrev pub AllPass : List CheckVerdict → Type 0
AllPass [] = Unit
AllPass (v ∷ vs) = (v ≡ pass) × AllPass vs

AllPass-any :
    (vs : List CheckVerdict) → AllPass vs → (any is_fail vs ≡ false) × (any is_skip vs ≡ false)
AllPass-any [] all = (refl, refl)
AllPass-any (pass ∷ vs) all = AllPass-any vs (all.1)
AllPass-any (fail ∷ vs) all = let e = all.0 in cc e
AllPass-any (skip ∷ vs) all = let e = all.0 in cc e

any-AllPass :
    (vs : List CheckVerdict) → any is_fail vs ≡ false → any is_skip vs ≡ false → AllPass vs
any-AllPass [] no_fail no_skip = tt
any-AllPass (pass ∷ vs) no_fail no_skip = (refl, any-AllPass vs no_fail no_skip)
any-AllPass (fail ∷ vs) no_fail no_skip = cc no_fail
any-AllPass (skip ∷ vs) no_fail no_skip = cc no_skip

tier-AllPass :
    (vs : List CheckVerdict) (requested : TrustTier)
    → determine_verified_tier (determine_verdict vs) requested ≡ source_verified
    → AllPass vs × (requested ≢ unverified)
unfolding determine_verdict determine_verified_tier
tier-AllPass vs requested h = elim (Bool-cases (any is_fail vs)) [
  | inl failed ↦
      let out : determine_verified_tier (determine_verdict vs) requested ≡ unverified =
        rw (failed, determine_verdict) in
      cc (out, h)
  | inr no_fail ↦ elim (Bool-cases (any is_skip vs)) [
    | inl skipped ↦
        let out : determine_verified_tier (determine_verdict vs) requested ≡ unverified =
          rw (no_fail, skipped, determine_verdict) in
        cc (out, h)
    | inr no_skip ↦ (
      any-AllPass vs no_fail no_skip,
      λ e.
          let sees : determine_verdict vs ≡ verified = rw (no_fail, no_skip, determine_verdict) in
          let out : determine_verified_tier (determine_verdict vs) requested ≡ unverified =
            ap (determine_verified_tier (determine_verdict vs)) e
            ∙ ap (λ v. determine_verified_tier v unverified) sees in
          cc (out, h),
    )
  ]
]

verified-tier :
    (requested : TrustTier)
    → requested ≢ unverified
    → determine_verified_tier verified requested ≡ source_verified
unfolding determine_verified_tier
verified-tier unverified h = absurd (h refl)
verified-tier source_verified h = refl
verified-tier reproducibly_verified h = refl
verified-tier runtime_attested h = refl

-- The tier that the checks give is "source-verified" exactly if every check passes and a tier above
-- "unverified" was asked for.
pub determine_verified_tier_iff :
    (vs : List CheckVerdict) (requested : TrustTier)
    → (determine_verified_tier (determine_verdict vs) requested ≡ source_verified)
      ↔ (AllPass vs × (requested ≢ unverified))
unfolding determine_verdict
determine_verified_tier_iff vs requested = (
  tier-AllPass vs requested,
  λ (all, asked).
      let (no_fail, no_skip) = AllPass-any vs all in
      let sees : determine_verdict vs ≡ verified = rw (no_fail, no_skip, determine_verdict) in
      ap (λ v. determine_verified_tier v requested) sees ∙ verified-tier requested asked,
)
