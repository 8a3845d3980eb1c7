-- ===== src/Billing/Usage/Http.antt =====
-- `UsageHandler` of internal/billing/usage_handler.go. Parameters are uuid.Parse, the binding of a
-- body, and the messages of errors; the plans are those of the billing service.
use go_saas_api.Common.{
  ℕ, ◌-◌, String, Bool, true, false, Option, none, some, List, [], ◌∷◌, ◌==◌, string_eq,
  if◌then◌else◌,
}
use go_saas_api.Common.Int.{ℤ}
use go_saas_api.Common.Assoc.{insert}
use go_saas_api.Billing as B
use go_saas_api.Billing.{Plan, World}
use go_saas_api.Billing.Store.{list_plans}
use go_saas_api.Billing.Usage.{
  Money, UsageLog, UsageStats, Usage, Outcome, done, failed, day_of, get_usage_stats, record_usage,
}

pub record PlanLimits : Type 0 where
  pub messages_per_month : ℤ
  pub max_tokens_per_request : ℤ
  pub features : String

-- The message on the subject "usage.recorded".
pub record UsageRecorded (money : Money) : Type 0 where
  pub user_id : ℕ
  pub tokens_input : ℕ
  pub tokens_output : ℕ
  pub cost_usd : money.Amount
  pub timestamp : ℕ

pub data UsageResponse (money : Money) : Type 0 where
  stats : UsageStats money → UsageResponse money
  limits : List (String × PlanLimits) → UsageResponse money
  tracked : UsageResponse money
  error : (status : ℕ) → (message : String) → UsageResponse money

-- limits[p.Slug] = …, for each plan
unfoldable pub limits_of : List Plan → List (String × PlanLimits) → List (String × PlanLimits)
limits_of [] found = found
limits_of (p ∷ plans) found = limits_of plans (
    insert p.slug
      (record {
        messages_per_month = p.messages_per_month;
        max_tokens_per_request = p.max_tokens_per_request;
        features = p.features;
      })
      found)

module _ {money : Money} (fault_text : String) where
  -- A read of the table, which fails where the schedule says so.
  read_or :
      {A : Type 0}
      → List Bool
      → (A → UsageResponse money)
      → (Usage money → A)
      → Usage money
      → UsageResponse money × Usage money
  read_or [] answer run u = (answer (run u), u)
  read_or (true ∷ faults) answer run u = (error 500 fault_text, record u { faults = faults })
  read_or (false ∷ faults) answer run u = (answer (run u), record u { faults = faults })

  abbrev stats_of : (now : ℕ) → Option ℕ → Usage money → UsageResponse money × Usage money
  unfolding read_or
  stats_of now none u = (error 400 "invalid user_id", u)
  stats_of now (some user) u =
      read_or u.faults stats (get_usage_stats user (day_of now - 30) (day_of now)) u

  unfoldable pub handle_get_stats :
      (parse_uuid : String → Option ℕ) (now : ℕ) (user_header : String)
      → Usage money
      → UsageResponse money × Usage money
  unfolding read_or
  handle_get_stats parse_uuid now user_header u =
      if user_header == ""
      then (error 401 "missing headers", u)
      else stats_of now (parse_uuid user_header) u

  abbrev limits_answer : B.Result (List Plan) × World → UsageResponse money × World
  limits_answer (B.ok plans, w) = (limits (limits_of plans []), w)
  limits_answer (B.err e, w) = (error 500 "failed to list plans", w)

  unfoldable pub handle_get_limits : World → UsageResponse money × World
  handle_get_limits w = limits_answer (list_plans B.db w)

  abbrev tracked_if :
      Outcome × Usage money
      → Option (UsageRecorded money)
      → UsageResponse money × Option (UsageRecorded money) × Usage money
  tracked_if (done, u) event = (tracked, event, u)
  tracked_if (failed, u) event = (error 500 fault_text, none, u)

  -- The response, and the message that goes out where NATS is there.
  unfoldable pub track_bound :
      (nats : Bool) (now : ℕ)
      → UsageLog money
      → Usage money
      → UsageResponse money × Option (UsageRecorded money) × Usage money
  track_bound nats now log u = tracked_if (record_usage log now u) (
      if nats
      then some (record {
        user_id = log.user_id;
        tokens_input = log.tokens_input;
        tokens_output = log.tokens_output;
        cost_usd = log.cost_usd;
        timestamp = now;
      })
      else none)
