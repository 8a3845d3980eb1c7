-- ===== src/Examples/Payments.antt =====
-- internal/billing: one user, one plan, and a Stripe that always answers.
use go_saas_api.Common.{
  ℕ, ◌≡◌, ◌≤◌, refl, Bool, true, false, none, some, List, [], ◌∷◌, String, length, All, ◌+◌, nat_eq,
  string_eq,
}
use go_saas_api.Common.Int.{pos}
use go_saas_api.Billing.{Plan, World, db, no_rows, ◌>>=◌}
use go_saas_api.Billing.Store.{get_subscription_by_stripe_id, call_db, db_call, found_or, some_or}
use go_saas_api.Billing.Service.{
  got, Stripe, handle_webhook, lift_reply, dispatch, handle_checkout_completed, checkout_completed,
}
use go_saas_api.Billing.Service.Pending.{IsPending, NamesObjects}
use go_saas_api.Billing.Service.Lifecycle.{
  Call, checkout, webhook, cancellation, perform_all, perform_all-stalled,
}
use go_saas_api.Billing.Service.Webhook.{handle_webhook-undone}
use go_saas_api.Billing.Http.{Request, Forms}
use go_saas_api.Billing.Usage.{Money, UsageLog, Usage, get_usage_stats}
use go_saas_api.Billing.Usage.Rollup.{logged}
use go_saas_api.Billing.Usage.Recorded.{record_all, get_usage_stats-logged}

abbrev stripe : Stripe String
stripe = record {
  new_customer = λ email user. got "cus_1";
  new_session = λ customer price user plan. got "https://checkout";
  cancel = λ id. got tt;
  new_portal = λ customer. got "https://portal";
  construct_event = λ payload signature secret. got (payload, "sub_1");
  decode_checkout = λ raw. got (some "sub_1");
  decode_invoice = λ raw. got (some "sub_1");
  decode_subscription = λ raw. got (record {
    id = "sub_1";
    status = "active";
    current_period_start = 0;
    current_period_end = 0;
    cancel_at_period_end = false;
  });
}

names : NamesObjects stripe
names = record {
  checkout = λ raw id e. λ q. cc;
  invoice = λ raw id e. λ q. cc;
  subscription = λ raw s e. λ q. cc;
}

abbrev premium : Plan
premium = record {
  id = 1;
  slug = "premium";
  name = "Premium";
  description = "";
  stripe_price_id = some "price_1";
  amount_cents = pos 1000;
  currency = "USD";
  interval = "month";
  messages_per_month = pos 1000;
  max_tokens_per_request = pos 4000;
  features = "{}";
  is_active = true;
  created_at = 0;
  updated_at = 0;
}

abbrev world : World
world = record { plans = premium ∷ []; subscriptions = []; faults = []; nats = true; outbox = [] }

abbrev calls : List (Call String)
calls =
    checkout 7 "a@b.c" "premium" 100 0
    ∷ webhook "checkout.session.completed" "sig" 1
    ∷ checkout 8 "d@e.f" "premium" 101 2
    ∷ cancellation 7 3
    ∷ []

perform_all-stalled_example :
    All IsPending (perform_all stripe "whsec" calls world).subscriptions
    × (length (perform_all stripe "whsec" calls world).subscriptions ≤ 1)
perform_all-stalled_example = perform_all-stalled stripe "whsec" names calls world refl

-- The webhook of a completed checkout finds no row with the Stripe id.
handle_webhook-undone_example :
    ((handle_webhook stripe "whsec" "checkout.session.completed" "sig" 1 world).1.subscriptions
      ≡ [])
    × ((handle_webhook stripe "whsec" "checkout.session.completed" "sig" 1 world).1.outbox ≡ [])
unfolding handle_webhook dispatch lift_reply handle_checkout_completed checkout_completed
    get_subscription_by_stripe_id call_db db_call found_or some_or ◌>>=◌
handle_webhook-undone_example =
    handle_webhook-undone stripe "whsec" "checkout.session.completed" "sig" 1 world (db no_rows)
      refl

abbrev forms : Forms String
forms = record {
  parse_uuid = λ s. none;
  read_all = λ raw. got raw;
  bind_subscribe = λ raw. got ("premium", "a@b.c");
  bind_price = λ raw. got "premium";
  bind_session = λ raw. got "cs_1";
  bind_plan = λ raw. got "premium";
}

abbrev request : Request String
request = record { user_header = ""; signature = ""; body = "" }

-- Costs in cents.
abbrev cents : Money
cents = record { Amount = ℕ; zero_amount = 0; plus = λ a b. a + b }

abbrev request_at : ℕ → UsageLog cents
request_at time = record {
  id = time;
  user_id = 7;
  conversation_id = none;
  model = "gpt";
  provider = "openai";
  tokens_input = 10;
  tokens_output = 20;
  latency_ms = 300;
  cost_usd = 2;
  created_at = time;
}

abbrev entries : List (UsageLog cents × ℕ)
entries = (request_at 10, 11) ∷ (request_at 20, 21) ∷ (request_at 90000, 90001) ∷ []

abbrev usage : List Bool → Usage cents
usage faults = record { logs = []; daily = []; faults = faults }

get_usage_stats-logged_example :
    (get_usage_stats 7 0 0 (record_all entries (usage []))).total_requests
    ≡ logged 7 0 (record_all entries (usage [])).logs
get_usage_stats-logged_example =
    get_usage_stats-logged entries (usage []) 7 0 (refl, (refl, (refl, tt))) refl refl refl
