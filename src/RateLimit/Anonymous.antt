-- ===== src/RateLimit/Anonymous.antt =====
-- Requests without a user in internal/platform/middleware/ratelimit.go.
use go_saas_api.Common.{ℕ, ◌+◌, ◌*◌, ◌≡◌, refl, String, false, ◌||◌, Option, none, some, arith}
use go_saas_api.Common.Int.{pos}
use go_saas_api.RateLimit.{
  Redis, Request, Limits, next, too_many, user_of, allow, decide, resolve_limit, rate_limit,
}

module _ (redis : Redis) (limits : Limits) (resolver : Option (String → Option String)) where
  -- A request that has no user, on a path that is counted, is turned away with 429, whatever the
  -- limits and the tiers, and with no message left, if Redis answers; if Redis fails it goes on.
  rate_limit-anonymous :
      (req : Request) (now nano : ℕ) (broken : Option redis.State) (s : redis.State)
      → user_of req.user_id ≡ none
      → (req.is_health || req.is_auth) ≡ false
      → (rate_limit redis limits resolver req now nano broken s).0 ≡ elim broken [
        | some left ↦ next none
        | none ↦ too_many (record {
          allowed = false;
          limit = pos 0;
          remaining = 0;
          reset_at = now + 30 * 24 * 3600;
        })
      ]
  unfolding rate_limit resolve_limit allow decide
  rate_limit-anonymous req now nano none s h counted = rw (h, counted) (ground arith)
  rate_limit-anonymous req now nano (some left) s h counted = rw counted refl
