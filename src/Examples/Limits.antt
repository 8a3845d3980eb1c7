-- ===== src/Examples/Limits.antt =====
-- The rate limiter over a Redis that holds the set of one key and its deadline.
use go_saas_api.Common.{
  ℕ, ◌≡◌, ◌≤◌, ◌+◌, ◌⊎◌, refl, inl, inr, true, false, none, List, [], ◌∷◌, ◌++◌, length, leb,
  if◌then◌else◌, Bool-cases, arith,
}
use go_saas_api.Common.Int.{pos}
use go_saas_api.RateLimit.{Redis, user, Request, Limits}
use go_saas_api.RateLimit.Window.{Documented, above, recent}
use go_saas_api.RateLimit.Bound.{within, accepted, serve-le}
use go_saas_api.RateLimit.History.{Ordered, serve, reference, serve-reference}

abbrev redis : Redis
redis = record {
  State = List (ℕ × ℕ) × ℕ;
  at = λ now s. if leb s.1 now then ([], s.1) else s;
  zremrangebyscore = λ key high s. (above high s.0, s.1);
  zcard = λ key s. length s.0;
  zadd = λ key score m s. (s.0 ++ m ∷ [], s.1);
  expire = λ key now window s. (s.0, now + window);
}

at_time-cases :
    (now : ℕ) (s : redis.State)
    → ((redis.at now s).0 ≡ s.0) ⊎ (((redis.at now s).0 ≡ []) × (s.1 ≤ now))
at_time-cases now s = elim (Bool-cases (leb s.1 now)) [
  | inl e ↦ inr (rw e refl, ground arith)
  | inr e ↦ inl (rw e refl)
]

abbrev documented : Documented redis (user "7")
documented = record {
  entries = λ s. s.0;
  deadline = λ s. s.1;
  at_time = at_time-cases;
  removed = λ high s. refl;
  counted = λ s. refl;
  added = λ m s f. refl;
  kept = λ now window s. refl;
  expires = λ now window s. refl;
}

-- Two requests in a window of ten seconds, a third that is one too many, a fourth much later.
abbrev requests : List (ℕ × ℕ)
requests = (100, 1) ∷ (101, 2) ∷ (102, 3) ∷ (200, 4) ∷ []

ordered : Ordered (0, 0) requests
ordered = (
  omega arith,
  omega arith,
  (omega arith, omega arith, (omega arith, omega arith, (omega arith, omega arith, tt))),
)

serve-reference_example :
    serve redis (user "7") (pos 2) 10 requests ([], 0) ≡ true ∷ true ∷ false ∷ true ∷ []
unfolding reference recent
serve-reference_example =
    serve-reference redis (user "7") (pos 2) 10 documented ([], 0) requests refl ordered

serve-le_example :
    within 10 105 (accepted requests (serve redis (user "7") (pos 2) 10 requests ([], 0))) ≤ 2
serve-le_example = serve-le (pos 2) 10 redis (user "7") documented ([], 0) requests 105 refl ordered

abbrev stranger : Request
stranger = record { user_id = none; client_ip = "10.0.0.1"; is_health = false; is_auth = false }

abbrev limits : Limits
limits = record { premium = pos 1000; registered = pos 50; sandbox = pos 10 }
