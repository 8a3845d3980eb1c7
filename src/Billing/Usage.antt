-- ===== src/Billing/Usage.antt =====
-- What is billed for usage: the log of requests and the daily rollup, in
-- internal/billing/repository_pg.go (`LogUsage` to `GetUsageStats`), usage_handler.go and
-- internal/agent/usage/tracker.go. A cost is of an abstract type with a zero and an addition
-- (float64 in the code, DECIMAL in the tables). A date is a number of days: the time over 86400,
-- which is what `Truncate(24 * time.Hour)` keeps of a UTC time. Faults are as in `World`.
pub mod Rollup
pub mod Recorded
pub mod Http
use go_saas_api.Common.{
  ℕ, ◌+◌, ◌/◌, String, Bool, true, false, ◌&&◌, Option, List, [], ◌∷◌, ◌++◌, leb, ◌==◌, nat_eq,
  string_eq, if◌then◌else◌, any_by, find_by, map,
}

pub record Money : Type 1 where
  pub Amount : Type 0
  pub zero_amount : Amount
  pub plus : Amount → Amount → Amount

module _ (money : Money) where
  open money use {Amount, zero_amount, plus}

  pub record UsageLog : Type 0 where
    pub id : ℕ
    pub user_id : ℕ
    pub conversation_id : Option ℕ
    pub model : String
    pub provider : String
    pub tokens_input : ℕ
    pub tokens_output : ℕ
    pub latency_ms : ℕ
    pub cost_usd : Amount
    pub created_at : ℕ

  pub record DailyUsage : Type 0 where
    pub user_id : ℕ
    pub date : ℕ
    pub requests : ℕ
    pub tokens_input : ℕ
    pub tokens_output : ℕ
    pub cost_usd : Amount

  pub record UsageStats : Type 0 where
    pub total_requests : ℕ
    pub tokens_input : ℕ
    pub tokens_output : ℕ
    pub total_cost_usd : Amount

  pub record Usage : Type 0 where
    pub logs : List UsageLog
    pub daily : List DailyUsage
    pub faults : List Bool

pub data Outcome : Type 0 where
  done failed : Outcome

abbrev pub day_of : ℕ → ℕ
day_of time = time / 86400

module _ {money : Money} where
  open money use {Amount, zero_amount, plus}

  next_call :
      List Bool → (Usage money → Outcome × Usage money) → Usage money → Outcome × Usage money
  next_call [] run u = run u
  next_call (true ∷ faults) run u = (failed, record u { faults = faults })
  next_call (false ∷ faults) run u = run (record u { faults = faults })

  unfoldable pub log_usage : UsageLog money → Usage money → Outcome × Usage money
  unfolding next_call
  log_usage log u = next_call u.faults (λ v. (done, record v { logs = v.logs ++ log ∷ [] })) u

  unfoldable pub is_row : (user date : ℕ) → DailyUsage money → Bool
  is_row user date row = row.user_id == user && row.date == date

  unfoldable pub get_daily_usage : (user date : ℕ) → Usage money → Option (DailyUsage money)
  unfolding is_row
  get_daily_usage user date u = find_by (is_row user date) u.daily

  unfoldable pub bump :
      (user date : ℕ) → (tokens_in tokens_out : ℕ) → Amount → DailyUsage money → DailyUsage money
  unfolding is_row
  bump user date tokens_in tokens_out cost row =
      if is_row user date row
      then record row {
        requests = row.requests + 1;
        tokens_input = row.tokens_input + tokens_in;
        tokens_output = row.tokens_output + tokens_out;
        cost_usd = plus row.cost_usd cost;
      }
      else row

  -- INSERT … ON CONFLICT (user_id, date) DO UPDATE
  unfoldable pub upsert :
      (user date : ℕ)
      → (tokens_in tokens_out : ℕ) → Amount
      → List (DailyUsage money)
      → List (DailyUsage money)
  unfolding bump
  upsert user date tokens_in tokens_out cost rows =
      if any_by (is_row user date) rows
      then map (bump user date tokens_in tokens_out cost) rows
      else rows
        ++ record {
          user_id = user;
          date = date;
          requests = 1;
          tokens_input = tokens_in;
          tokens_output = tokens_out;
          cost_usd = cost;
        }
          ∷ []

  unfoldable pub increment_daily_usage :
      (user date : ℕ) → (tokens_in tokens_out : ℕ) → Amount → Usage money → Outcome × Usage money
  unfolding next_call upsert
  increment_daily_usage user date tokens_in tokens_out cost u =
      next_call u.faults
        (λ v. (done, record v { daily = upsert user date tokens_in tokens_out cost v.daily })) u

  unfoldable pub add_row : DailyUsage money → UsageStats money → UsageStats money
  add_row row s = record {
    total_requests = row.requests + s.total_requests;
    tokens_input = row.tokens_input + s.tokens_input;
    tokens_output = row.tokens_output + s.tokens_output;
    total_cost_usd = plus row.cost_usd s.total_cost_usd;
  }

  unfoldable pub sum_rows : (user first last : ℕ) → List (DailyUsage money) → UsageStats money
  unfolding add_row
  sum_rows user first last [] = record {
    total_requests = 0;
    tokens_input = 0;
    tokens_output = 0;
    total_cost_usd = zero_amount;
  }
  sum_rows user first last (row ∷ rows) =
      let rest = sum_rows user first last rows in
      if row.user_id == user && (leb first row.date && leb row.date last)
      then add_row row rest
      else rest

  unfoldable pub get_usage_stats : (user first last : ℕ) → Usage money → UsageStats money
  unfolding sum_rows
  get_usage_stats user first last u = sum_rows user first last u.daily

  -- `Tracker.Record` and, behind the binding of its body, `handleTrackUsage`: the log first, then
  -- the rollup of the day on which the second call runs.
  unfoldable pub record_usage : UsageLog money → (now : ℕ) → Usage money → Outcome × Usage money
  unfolding log_usage increment_daily_usage
  record_usage log now u = elim (log_usage log u).0 [
    | failed ↦ log_usage log u
    | done ↦
        increment_daily_usage log.user_id (day_of now) log.tokens_input log.tokens_output
          log.cost_usd (log_usage log u).1
  ]
