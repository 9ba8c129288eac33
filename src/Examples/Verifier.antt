-- ===== src/Examples/Verifier.antt =====
-- A requester that calls three times, with two calls an hour allowed; and a request whose checks pass.
use xmtp_broker.Base.{◌≤◌, [], ◌∷◌, ◌≡◌, ◌≢◌, ◌↔◌, refl, arith}
use xmtp_broker.Verifier.{
  RateLimiterConfig, Timestamps, check, check_entries, pass, reproducibly_verified, source_verified,
  unverified, determine_verdict, determine_verified_tier,
}
use xmtp_broker.Verifier.Limits.{Calls, none_yet, passed, limited, elsewhere, recent, Calls-bounded}
use xmtp_broker.Verifier.Verdicts.{AllPass, determine_verified_tier_iff}

abbrev config : RateLimiterConfig
config = record { max_requests = 2; window_ms = 3600000 }

abbrev after : Timestamps
after = ("inbox_1", 5 ∷ 6 ∷ []) ∷ ("inbox_2", 6 ∷ []) ∷ []

three-Calls : Calls config "inbox_1" after (5 ∷ 6 ∷ []) 7
unfolding check check_entries
three-Calls = limited 7 (omega arith) refl (
    elsewhere "inbox_2" 6 (omega arith) refl
      (passed 6 (omega arith) refl (passed 5 (omega arith) refl none_yet)))

Calls-bounded_example : recent 3600000 7 (5 ∷ 6 ∷ []) ≤ 2
Calls-bounded_example =
    Calls-bounded config "inbox_1" after (5 ∷ 6 ∷ []) 7 7 (omega arith) three-Calls (omega arith)

determine_verified_tier_iff_example :
    (determine_verified_tier (determine_verdict (pass ∷ pass ∷ [])) reproducibly_verified
      ≡ source_verified)
    ↔ (AllPass (pass ∷ pass ∷ []) × (reproducibly_verified ≢ unverified))
determine_verified_tier_iff_example =
    determine_verified_tier_iff (pass ∷ pass ∷ []) reproducibly_verified
