-- ===== src/Billing/Usage/Recorded.antt =====
-- Sequences of recorded requests (internal/agent/usage/tracker.go): the rollup beside the log.
use go_saas_api.Common.{
  ℕ, ◌+◌, ◌-◌, ◌≤◌, ◌≡◌, refl, Bool, true, false, List, [], ◌∷◌, ◌++◌, arith, nat_eq, All, ◌∙◌,
}
use go_saas_api.Billing.Usage.{
  Money, UsageLog, DailyUsage, Usage, day_of, next_call, log_usage, upsert, increment_daily_usage,
  record_usage, get_usage_stats,
}
use go_saas_api.Billing.Usage.Rollup.{
  rolled, rows_of, logged, Keyed, logged-append, upsert-Keyed, rolled-upsert, sum_rows-rolled,
}

module _ {money : Money} where
  -- The rollup counts no more requests than the log holds.
  abbrev pub Bounded : Usage money → Type 0
  Bounded u = Keyed u.daily × ((user date : ℕ) → rolled user date u.daily ≤ logged user date u.logs)

  -- The rollup counts the requests that the log holds.
  abbrev pub Exact : Usage money → Type 0
  Exact u = Keyed u.daily × ((user date : ℕ) → rolled user date u.daily ≡ logged user date u.logs)

  module _ (log : UsageLog money) (now : ℕ) (same : day_of log.created_at ≡ day_of now) where
    abbrev rolled_up : List (DailyUsage money) → List (DailyUsage money)
    rolled_up = upsert log.user_id (day_of now) log.tokens_input log.tokens_output log.cost_usd

    rolled-rolled_up :
        (user date : ℕ) (rows : List (DailyUsage money)) (logs : List (UsageLog money)) (gap : ℕ)
        → Keyed rows
        → rolled user date rows + gap ≡ logged user date logs
        → rolled user date (rolled_up rows) + gap ≡ logged user date (logs ++ log ∷ [])
    rolled-rolled_up user date rows logs gap keyed h =
        rw
          (
            rolled-upsert log.user_id (day_of now) log.tokens_input log.tokens_output log.cost_usd
                user date rows keyed,
            logged-append user date logs log,
            same,
          )
          (omega (arith, h))

    both-Bounded :
        (u : Usage money)
        → Bounded u
        → Bounded (record u { logs = u.logs ++ log ∷ []; daily = rolled_up u.daily })
    both-Bounded u (keyed, h) = (
      upsert-Keyed log.user_id (day_of now) log.tokens_input log.tokens_output log.cost_usd u.daily
          keyed,
      λ user date.
          let gap = logged user date u.logs - rolled user date u.daily in
          omega (
            arith,
            rolled-rolled_up user date u.daily u.logs gap keyed (omega (arith, h user date)),
          ),
    )

    record_usage-Bounded :
        (faults : List Bool) (u : Usage money)
        → u.faults ≡ faults
        → Bounded u
        → Bounded (record_usage log now u).1
    unfolding record_usage log_usage increment_daily_usage next_call
    record_usage-Bounded [] u e h = rw e (both-Bounded u h)
    record_usage-Bounded (true ∷ faults) u e h = rw e h
    record_usage-Bounded (false ∷ []) u e h = rw e (both-Bounded u h)
    record_usage-Bounded (false ∷ true ∷ faults) u e (keyed, h) =
        rw e
          (keyed, λ user date. rw (logged-append user date u.logs log) (omega (arith, h user date)))
    record_usage-Bounded (false ∷ false ∷ faults) u e h = rw e (both-Bounded u h)

    record_usage-Exact :
        (u : Usage money)
        → u.faults ≡ []
        → Exact u
        → Exact (record_usage log now u).1 × ((record_usage log now u).1.faults ≡ [])
    unfolding record_usage log_usage increment_daily_usage next_call
    record_usage-Exact u e (keyed, h) = rw e (
      (
        upsert-Keyed log.user_id (day_of now) log.tokens_input log.tokens_output log.cost_usd
            u.daily keyed,
        λ user date.
            omega (
              arith,
              rolled-rolled_up user date u.daily u.logs 0 keyed (omega (arith, h user date)),
            ),
      ),
      refl,
    )

  -- Requests that are recorded one after the other, each with the time of its rollup.
  unfoldable pub record_all : List (UsageLog money × ℕ) → Usage money → Usage money
  record_all [] u = u
  record_all ((log, now) ∷ entries) u = record_all entries (record_usage log now u).1

  -- Both times are on one day.
  abbrev pub IsSameDay : UsageLog money × ℕ → Type 0
  IsSameDay (log, now) = day_of log.created_at ≡ day_of now

  record_all-Bounded :
      (entries : List (UsageLog money × ℕ)) (u : Usage money)
      → All IsSameDay entries
      → Bounded u
      → Bounded (record_all entries u)
  unfolding record_all
  record_all-Bounded [] u same h = h
  record_all-Bounded ((log, now) ∷ entries) u (s, same) h =
      record_all-Bounded entries _ same (record_usage-Bounded log now s u.faults u refl h)

  record_all-Exact :
      (entries : List (UsageLog money × ℕ)) (u : Usage money)
      → All IsSameDay entries
      → u.faults ≡ []
      → Exact u
      → Exact (record_all entries u)
  unfolding record_all
  record_all-Exact [] u same e h = h
  record_all-Exact ((log, now) ∷ entries) u (s, same) e h =
      let (exact, calm) = record_usage-Exact log now s u e h in
      record_all-Exact entries _ same calm exact

  -- From empty tables, and where each request is logged and rolled up on one day: the statistics
  -- of a user for one day never count more requests than the log holds for that user and day,
  -- whichever calls of the database fail.
  get_usage_stats-le :
      (entries : List (UsageLog money × ℕ)) (u : Usage money) (user date : ℕ)
      → All IsSameDay entries
      → u.logs ≡ []
      → u.daily ≡ []
      → (get_usage_stats user date date (record_all entries u)).total_requests
        ≤ logged user date (record_all entries u).logs
  unfolding get_usage_stats
  get_usage_stats-le entries u user date same l d =
      rw (sum_rows-rolled user date (record_all entries u).daily) (
        (record_all-Bounded entries u same (
            rw (d, l)
              (unfold rows_of rolled in (λ user date. omega arith, λ user date. omega arith)))).1
          user date)

  -- From empty tables, where each request is logged and rolled up on one day and no call of the
  -- database fails: the statistics of a user for one day count exactly the requests that the log
  -- holds for that user and day.
  pub get_usage_stats-logged :
      (entries : List (UsageLog money × ℕ)) (u : Usage money) (user date : ℕ)
      → All IsSameDay entries
      → u.logs ≡ []
      → u.daily ≡ []
      → u.faults ≡ []
      → (get_usage_stats user date date (record_all entries u)).total_requests
        ≡ logged user date (record_all entries u).logs
  unfolding get_usage_stats
  get_usage_stats-logged entries u user date same l d e =
      sum_rows-rolled user date (record_all entries u).daily
      ∙ (record_all-Exact entries u same e (
            rw (d, l)
              (unfold rows_of rolled logged in (λ user date. omega arith, λ user date. refl)))).1
          user date
