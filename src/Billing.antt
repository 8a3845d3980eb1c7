-- ===== src/Billing.antt =====
-- internal/billing: plans, subscriptions through Stripe, and the usage that is billed.
-- A UUID is a number, a time is a number of seconds, a `*T` that may be nil is an Option.
pub mod Store
pub mod Keeps
pub mod Service
pub mod Http
pub mod Usage
use go_saas_api.Common.{ℕ, String, Bool, Option, List}
use go_saas_api.Common.Int.{ℤ}

-- domain.go; `features` is the JSON text.
pub record Plan : Type 0 where
  pub id : ℕ
  pub slug : String
  pub name : String
  pub description : String
  pub stripe_price_id : Option String
  pub amount_cents : ℤ
  pub currency : String
  pub interval : String
  pub messages_per_month : ℤ
  pub max_tokens_per_request : ℤ
  pub features : String
  pub is_active : Bool
  pub created_at : ℕ
  pub updated_at : ℕ

pub record Subscription : Type 0 where
  pub id : ℕ
  pub user_id : ℕ
  pub plan_id : ℕ
  pub stripe_customer_id : String
  pub stripe_subscription_id : String
  pub status : String
  pub current_period_start : Option ℕ
  pub current_period_end : Option ℕ
  pub canceled_at : Option ℕ
  pub cancel_at_period_end : Bool
  pub created_at : ℕ
  pub updated_at : ℕ

-- The message on the subject "subscription.changed".
pub record Event : Type 0 where
  pub user_id : ℕ
  pub plan_slug : String
  pub status : String
  pub timestamp : ℕ

-- What the operations read and write: the tables, whether a NATS connection is there, the messages
-- published on it, and for each coming call of the database whether it fails (none, if the list
-- has ended). A call that fails has no effect.
pub record World : Type 0 where
  pub plans : List Plan
  pub subscriptions : List Subscription
  pub faults : List Bool
  pub nats : Bool
  pub outbox : List Event

pub data DbError : Type 0 where
  no_rows fault unique_violation check_violation : DbError

pub data Error : Type 0 where
  plan_not_found save_subscription db : DbError → Error
  no_stripe_price : (slug : String) → Error
  create_customer create_session stripe_cancel invalid_signature bad_payload create_portal :
      (cause : String) → Error
  no_active_subscription : Error
  subscription_not_found : (stripe_id : String) → Error

pub data Result (A : Type 0) : Type 0 where
  ok : A → Result A
  err : Error → Result A

-- A method that may fail: its result, and the world that it leaves.
abbrev pub M : Type 0 → Type 0
M A = World → Result A × World

infixl 5 ◌>>=◌ ◌>>◌
unfoldable pub ◌>>=◌ : {A B : Type 0} → M A → (A → M B) → M B
◌>>=◌ m f w = let (r, w') = m w in elim r [ ok a ↦ f a w' | err e ↦ (err e, w') ]

abbrev pub ◌>>◌ : {A B : Type 0} → M A → M B → M B
m >> n = m >>= λ _. n

abbrev pub pure : {A : Type 0} → A → M A
pure a w = (ok a, w)

abbrev pub fail : {A : Type 0} → Error → M A
fail e w = (err e, w)
