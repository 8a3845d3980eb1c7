-- ===== src/Billing/Service.antt =====
-- `BillingService` of internal/billing/service.go. Stripe is a parameter: a record of the calls
-- that the service makes, and of what its packages decode. The time and the new UUID of one
-- operation are arguments. Fields of requests that only carry URLs are left out.
pub mod Pending
pub mod Lifecycle
pub mod Webhook
use go_saas_api.Common.{
  ℕ, String, Bool, true, false, Option, none, some, List, [], ◌∷◌, ◌++◌, ◌==◌, string_eq, ltb,
  if◌then◌else◌,
}
use go_saas_api.Billing.{
  Plan, Subscription, Event, World, DbError, Error, plan_not_found, save_subscription, db,
  no_stripe_price, create_customer, create_session, stripe_cancel, invalid_signature, bad_payload,
  create_portal, no_active_subscription, subscription_not_found, Result, ok, err, M, ◌>>=◌, ◌>>◌,
  pure, fail,
}
use go_saas_api.Billing.Store.{
  get_plan_by_slug, get_plan_by_id, create_subscription, get_subscription_by_user,
  get_subscription_by_stripe_id, update_subscription, cancel_subscription,
}

-- What a call of a Stripe package gives: a value, or the text of an error.
pub data Reply (A : Type 0) : Type 0 where
  got : A → Reply A
  refused : String → Reply A

-- The fields of stripe.Subscription that the service reads. The times are 0 where Stripe sends
-- none.
pub record StripeSubscription : Type 0 where
  pub id : String
  pub status : String
  pub current_period_start : ℕ
  pub current_period_end : ℕ
  pub cancel_at_period_end : Bool

-- `Raw` is the body of a webhook, and of the object in an event.
pub record Stripe (Raw : Type 0) : Type 0 where
  pub new_customer : (email : String) (user : ℕ) → Reply String
  pub new_session : (customer price : String) (user plan : ℕ) → Reply String
  pub cancel : (id : String) → Reply (Unit {0})
  pub new_portal : (customer : String) → Reply String
  pub construct_event : (payload : Raw) (signature secret : String) → Reply (String × Raw)
  pub decode_checkout : Raw → Reply (Option String)
  pub decode_invoice : Raw → Reply (Option String)
  pub decode_subscription : Raw → Reply StripeSubscription

unfoldable pub lift_reply : {A : Type 0} → (String → Error) → Reply A → M A
lift_reply wrap (got a) = pure a
lift_reply wrap (refused cause) = fail (wrap cause)

-- `if plan.StripePriceID == nil || *plan.StripePriceID == "" { return … }`
unfoldable pub price_of : String → Option String → M String
price_of slug none = fail (no_stripe_price slug)
price_of slug (some price) = if price == "" then fail (no_stripe_price slug) else pure price

unfoldable pub period : ℕ → Option ℕ → Option ℕ
period t old = if ltb 0 t then some t else old

unfoldable pub publish_subscription_changed :
    (user : ℕ) (plan_slug status : String) (now : ℕ) → M (Unit {0})
publish_subscription_changed user plan_slug status now w =
    if w.nats
    then (
      ok tt,
      record w {
        outbox =
            w.outbox
            ++ record { user_id = user; plan_slug = plan_slug; status = status; timestamp = now }
              ∷ [];
      },
    )
    else (ok tt, w)

-- `if sub == nil { … }` and what follows it.
abbrev pub with_row :
    Option Subscription → M (Unit {0}) → (Subscription → M (Unit {0})) → M (Unit {0})
with_row none missing present = missing
with_row (some sub) missing present = present sub

unfoldable pub plan_of_subscription : Option Subscription → M (Option Subscription × Plan)
plan_of_subscription none = do plan ← get_plan_by_slug db "registered"; pure (none, plan)
plan_of_subscription (some sub) = do plan ← get_plan_by_id db sub.plan_id; pure (some sub, plan)

unfoldable pub get_subscription : (user : ℕ) → M (Option Subscription × Plan)
unfolding plan_of_subscription
get_subscription user = do sub ← get_subscription_by_user db user; plan_of_subscription sub

-- Saves the changed row, then tells the other services of a premium plan.
unfoldable pub save_and_publish : Subscription → (now : ℕ) → M (Unit {0})
save_and_publish sub now = do
  update_subscription db sub
  publish_subscription_changed sub.user_id "premium" sub.status now

unfoldable pub checkout_completed : Option String → (now : ℕ) → M (Unit {0})
unfolding save_and_publish
checkout_completed none now = pure tt
checkout_completed (some id) now = do
  sub ← get_subscription_by_stripe_id db id
  with_row sub (fail (subscription_not_found id)) λ s.
      save_and_publish
        (record s { stripe_subscription_id = id; status = "active"; updated_at = now }) now

unfoldable pub invoice_paid : Option String → (now : ℕ) → M (Unit {0})
unfolding save_and_publish
invoice_paid none now = pure tt
invoice_paid (some id) now = do
  sub ← get_subscription_by_stripe_id db id
  with_row sub (pure tt)
      λ s. save_and_publish (record s { status = "active"; updated_at = now }) now

unfoldable pub subscription_updated : StripeSubscription → (now : ℕ) → M (Unit {0})
unfolding save_and_publish period
subscription_updated s now = do
  sub ← get_subscription_by_stripe_id db s.id
  with_row sub (pure tt) λ old.
      save_and_publish
        (record old {
          status = s.status;
          current_period_start = period s.current_period_start old.current_period_start;
          current_period_end = period s.current_period_end old.current_period_end;
          cancel_at_period_end = s.cancel_at_period_end;
          updated_at = now;
        })
        now

unfoldable pub subscription_deleted : StripeSubscription → (now : ℕ) → M (Unit {0})
subscription_deleted s now = do
  sub ← get_subscription_by_stripe_id db s.id
  with_row sub (pure tt) λ old. do
    cancel_subscription db old.id now false now
    publish_subscription_changed old.user_id "registered" "cancelled" now

module _ {Raw : Type 0} (stripe : Stripe Raw) (secret : String) where
  unfoldable pub create_checkout_session :
      (user : ℕ) (email slug : String) (new_id now : ℕ) → M String
  unfolding lift_reply price_of
  create_checkout_session user email slug new_id now = do
    plan ← get_plan_by_slug plan_not_found slug
    price ← price_of slug plan.stripe_price_id
    customer ← lift_reply create_customer (stripe.new_customer email user)
    url ← lift_reply create_session (stripe.new_session customer price user plan.id)
    create_subscription save_subscription (record {
      id = new_id;
      user_id = user;
      plan_id = plan.id;
      stripe_customer_id = customer;
      stripe_subscription_id = "";
      status = "incomplete";
      current_period_start = none;
      current_period_end = none;
      canceled_at = none;
      cancel_at_period_end = false;
      created_at = now;
      updated_at = now;
    })
    pure url

  unfoldable pub cancel_found : Option Subscription → (now : ℕ) → M (Unit {0})
  unfolding lift_reply
  cancel_found none now = fail no_active_subscription
  cancel_found (some sub) now =
      if sub.stripe_subscription_id == "" then fail no_active_subscription else do
        lift_reply stripe_cancel (stripe.cancel sub.stripe_subscription_id)
        cancel_subscription db sub.id now true now

  unfoldable pub cancel : (user now : ℕ) → M (Unit {0})
  unfolding cancel_found
  cancel user now = do sub ← get_subscription_by_user db user; cancel_found sub now

  unfoldable pub handle_checkout_completed : Raw → (now : ℕ) → M (Unit {0})
  unfolding lift_reply checkout_completed
  handle_checkout_completed raw now = do
    id ← lift_reply bad_payload (stripe.decode_checkout raw)
    checkout_completed id now

  unfoldable pub handle_invoice_paid : Raw → (now : ℕ) → M (Unit {0})
  unfolding lift_reply invoice_paid
  handle_invoice_paid raw now = do
    id ← lift_reply bad_payload (stripe.decode_invoice raw)
    invoice_paid id now

  unfoldable pub handle_subscription_updated : Raw → (now : ℕ) → M (Unit {0})
  unfolding lift_reply subscription_updated
  handle_subscription_updated raw now = do
    s ← lift_reply bad_payload (stripe.decode_subscription raw)
    subscription_updated s now

  unfoldable pub handle_subscription_deleted : Raw → (now : ℕ) → M (Unit {0})
  unfolding lift_reply subscription_deleted
  handle_subscription_deleted raw now = do
    s ← lift_reply bad_payload (stripe.decode_subscription raw)
    subscription_deleted s now

  unfoldable pub dispatch : String → Raw → (now : ℕ) → M (Unit {0})
  dispatch type raw now =
      if type == "checkout.session.completed"
      then handle_checkout_completed raw now
      else if type == "invoice.paid"
      then handle_invoice_paid raw now
      else if type == "customer.subscription.updated"
      then handle_subscription_updated raw now
      else if type == "customer.subscription.deleted"
      then handle_subscription_deleted raw now
      else pure tt

  unfoldable pub handle_webhook : (payload : Raw) (signature : String) (now : ℕ) → M (Unit {0})
  unfolding lift_reply dispatch
  handle_webhook payload signature now = do
    event ← lift_reply invalid_signature (stripe.construct_event payload signature secret)
    dispatch event.0 event.1 now

  unfoldable pub create_portal_session : (customer : String) → M String
  unfolding lift_reply
  create_portal_session customer = lift_reply create_portal (stripe.new_portal customer)
