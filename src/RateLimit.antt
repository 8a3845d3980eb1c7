-- ===== src/RateLimit.antt =====
-- internal/platform/ratelimit/ratelimiter.go and internal/platform/middleware/ratelimit.go: a sliding
-- window over a sorted set in Redis, and the two middlewares that ask it. Redis is a parameter, the
-- commands of the pipeline each; a pipeline that fails leaves any state. A key is the
-- constructor for its prefix with what stands behind the prefix. Times are seconds; the part of a
-- member that counts nanoseconds is an argument.
pub mod Window
pub mod History
pub mod Bound
pub mod Anonymous
use go_saas_api.Common.{
  ℕ, ◌+◌, ◌-◌, ◌*◌, String, Bool, ◌||◌, Option, none, some, ltb, ◌==◌, string_eq, if◌then◌else◌,
}
use go_saas_api.Common.Int.{ℤ, pos, negsuc, lt_int, pos_part}

pub data Key : Type 0 where
  user sandbox_user sandbox_ip : String → Key
  anonymous_blocked : Key

-- The commands as they are queued; `at` is the state as Redis has it at a time, with what has
-- expired gone.
pub record Redis : Type 1 where
  pub State : Type 0
  pub at : (now : ℕ) → State → State
  pub zremrangebyscore : Key → (high : ℤ) → State → State
  pub zcard : Key → State → ℕ
  pub zadd : Key → (score : ℕ) → (member : ℕ × ℕ) → State → State
  pub expire : Key → (now window : ℕ) → State → State

pub record Result : Type 0 where
  pub allowed : Bool
  pub limit : ℤ
  pub remaining : ℕ
  pub reset_at : ℕ

-- now - window
abbrev pub window_start : (now window : ℕ) → ℤ
window_start now window = if ltb now window then negsuc (window - now - 1) else pos (now - window)

module _ (redis : Redis) where
  open redis use {State, at, zremrangebyscore, zcard, zadd, expire}

  unfoldable pub prune : Key → (window now : ℕ) → State → State
  prune key window now s = zremrangebyscore key (window_start now window) (at now s)

  -- `broken` is the state that a failing pipeline leaves.
  unfoldable pub allow :
      Key
      → (limit : ℤ) → (window now nano : ℕ) → (broken : Option State) → State
      → Option Result × State
  unfolding prune
  allow key limit window now nano (some left) s = (none, left)
  allow key limit window now nano none s =
      let pruned = prune key window now s in
      let count = zcard key pruned in
      (
        some (record {
          allowed = lt_int (pos count) limit;
          limit = limit;
          remaining = pos_part limit - count - 1;
          reset_at = now + window;
        }),
        expire key now window (zadd key now (now, nano) pruned),
      )

-- What the middlewares read of a request: the user in the context, the address, and whether the
-- path is one that is not counted.
pub record Request : Type 0 where
  pub user_id : Option String
  pub client_ip : String
  pub is_health : Bool
  pub is_auth : Bool

pub record Limits : Type 0 where
  pub premium : ℤ
  pub registered : ℤ
  pub sandbox : ℤ

-- Goes on, with the result for the headers if there is one, or 429.
pub data Decision : Type 0 where
  next : Option Result → Decision
  too_many : Result → Decision

-- `uid, exists := c.Get("user_id"); exists && uid != ""`
abbrev pub user_of : Option String → Option String
user_of none = none
user_of (some uid) = if uid == "" then none else some uid

-- The resolver is nil, or gives a tier or an error (nothing).
unfoldable pub tier_of : Option (String → Option String) → String → String
tier_of none uid = "registered"
tier_of (some resolve) uid = elim (resolve uid) [
  | none ↦ "registered"
  | some tier ↦ if tier == "" then "registered" else tier
]

unfoldable pub resolve_limit : Limits → Option (String → Option String) → Option String → Key × ℤ
unfolding tier_of
resolve_limit limits resolver none = (anonymous_blocked, pos 0)
resolve_limit limits resolver (some uid) =
    (user uid, if tier_of resolver uid == "premium" then limits.premium else limits.registered)

unfoldable pub resolve_sandbox_limit : Limits → Request → Option String → Key × ℤ
resolve_sandbox_limit limits req (some uid) = (sandbox_user uid, limits.sandbox)
resolve_sandbox_limit limits req none = (sandbox_ip req.client_ip, pos 1)

-- The middlewares behind the call of `Allow`: a check that failed lets the request through.
unfoldable pub decide : Option Result → Decision
decide none = next none
decide (some r) = if r.allowed then next (some r) else too_many r

module _ (redis : Redis) (limits : Limits) where
  open redis use {State}

  unfoldable pub rate_limit :
      Option (String → Option String)
      → Request
      → (now nano : ℕ) → (broken : Option State) → State
      → Decision × State
  unfolding resolve_limit allow decide
  rate_limit resolver req now nano broken s =
      let (key, limit) = resolve_limit limits resolver (user_of req.user_id) in
      let (result, s') = allow redis key limit (30 * 24 * 3600) now nano broken s in
      if req.is_health || req.is_auth then (next none, s) else (decide result, s')

  unfoldable pub sandbox_rate_limit :
      Request → (now nano : ℕ) → (broken : Option State) → State → Decision × State
  unfolding resolve_sandbox_limit allow decide
  sandbox_rate_limit req now nano broken s =
      let (key, limit) = resolve_sandbox_limit limits req (user_of req.user_id) in
      let (result, s') = allow redis key limit 60 now nano broken s in (decide result, s')
