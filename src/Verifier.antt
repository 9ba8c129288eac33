-- ===== src/Verifier.antt =====
-- packages/verifier/src/rate-limiter.ts, the sliding window of calls of each requester, and
-- packages/verifier/src/verdict.ts, the verdict and the trust tier that the checks amount to.
pub mod Limits
pub mod Verdicts
use xmtp_broker.Base.{
  ℕ, ◌+◌, String, Bool, true, false, ◌&&◌, ◌||◌, List, [], ◌∷◌, ◌++◌, Option, none, some, leb, any,
  get, put, delete, length, if◌then◌else◌,
}

pub record RateLimiterConfig : Type 0 where
  pub max_requests : ℕ
  pub window_ms : ℕ

abbrev pub Timestamps : Type 0
Timestamps = List (String × List ℕ)

-- The entries from the first on that the window still holds.
abbrev pub evict_stale : RateLimiterConfig → ℕ → List ℕ → List ℕ
evict_stale config now [] = []
evict_stale config now (t ∷ ts) =
    let rest = evict_stale config now ts in if leb now (t + config.window_ms) then t ∷ ts else rest

-- with the entries that the window still holds
unfoldable pub check_entries :
    RateLimiterConfig → Timestamps → String → ℕ → List ℕ → Timestamps × Bool
check_entries config timestamps id now [] = (put (delete timestamps id) id (now ∷ []), true)
check_entries config timestamps id now (t ∷ ts) =
    if leb config.max_requests (length (t ∷ ts))
    then (put timestamps id (t ∷ ts), false)
    else (put timestamps id ((t ∷ ts) ++ now ∷ []), true)

unfoldable pub check : RateLimiterConfig → Timestamps → String → ℕ → Timestamps × Bool
unfolding check_entries
check config timestamps id now = elim (get timestamps id) [
  | none ↦ (put timestamps id (now ∷ []), true)
  | some entries ↦ check_entries config timestamps id now (evict_stale config now entries)
]

abbrev pub reset : Timestamps → Timestamps
reset timestamps = []

pub data CheckVerdict : Type 0 where
  pass fail skip : CheckVerdict

pub data VerificationVerdict : Type 0 where
  verified partial rejected : VerificationVerdict

pub data TrustTier : Type 0 where
  unverified source_verified reproducibly_verified runtime_attested : TrustTier

abbrev pub is_fail : CheckVerdict → Bool
is_fail fail = true
is_fail pass = false
is_fail skip = false

abbrev pub is_skip : CheckVerdict → Bool
is_skip skip = true
is_skip pass = false
is_skip fail = false

unfoldable pub determine_verdict : List CheckVerdict → VerificationVerdict
determine_verdict verdicts =
    if any is_fail verdicts then rejected else if any is_skip verdicts then partial else verified

abbrev pub tier_rank : TrustTier → ℕ
tier_rank unverified = 0
tier_rank source_verified = 1
tier_rank reproducibly_verified = 2
tier_rank runtime_attested = 3

abbrev min : ℕ → ℕ → ℕ
min m n = if leb m n then m else n

unfoldable pub determine_verified_tier : VerificationVerdict → TrustTier → TrustTier
determine_verified_tier rejected requested = unverified
determine_verified_tier partial requested = unverified
determine_verified_tier verified requested =
    if leb (tier_rank source_verified) (min (tier_rank requested) (tier_rank source_verified))
    then source_verified
    else unverified
