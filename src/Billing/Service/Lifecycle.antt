-- ===== src/Billing/Service/Lifecycle.antt =====
-- The life of a subscription under the operations of the service, from an empty table.
use go_saas_api.Common.{
  ℕ, ◌≤◌, ◌≡◌, refl, String, Option, none, some, List, [], ◌∷◌, arith, length, All, ◌==◌, string_eq,
  nat_eq,
}
use go_saas_api.Billing.{
  Subscription, World, plan_not_found, save_subscription, db, create_customer, create_session,
  invalid_signature, bad_payload, no_active_subscription,
}
use go_saas_api.Billing.Store.{get_subscription_by_user}
use go_saas_api.Billing.Keeps.{Keeps, Keeps-pure, Keeps-fail, Keeps-bind}
use go_saas_api.Billing.Service.{
  Stripe, got, create_checkout_session, cancel_found, cancel, checkout_completed, invoice_paid,
  handle_checkout_completed, handle_invoice_paid, handle_subscription_updated,
  handle_subscription_deleted, dispatch, handle_webhook,
}
use go_saas_api.Billing.Service.Pending.{
  IsPending, Stalled, NamesObjects, OptionPending, create-Stalled, get_by_stripe_id-Stalled,
  Keeps-lift_reply, Keeps-then, Keeps-if, price_of-Keeps, get_plan_by_slug-Keeps, get_by_user-Keeps,
  get_by_user-pending,
}

module _ {Raw : Type 0} (stripe : Stripe Raw) (secret : String) where
  checkout-Stalled :
      (user : ℕ) (email slug : String) (new_id now : ℕ)
      → Keeps Stalled (create_checkout_session stripe secret user email slug new_id now)
  unfolding create_checkout_session
  checkout-Stalled user email slug new_id now =
      Keeps-then _ _ (get_plan_by_slug-Keeps plan_not_found slug) λ plan.
        Keeps-then _ _ (price_of-Keeps slug plan.stripe_price_id) λ price.
          Keeps-lift_reply create_customer _ _ λ customer _.
            Keeps-lift_reply create_session _ _ λ url _.
              Keeps-then _ _ (create-Stalled save_subscription _ (refl, refl))
                λ _. Keeps-pure Stalled url

  cancel_found-Stalled :
      (o : Option Subscription) (now : ℕ)
      → OptionPending o
      → Keeps Stalled (cancel_found stripe secret o now)
  unfolding cancel_found
  cancel_found-Stalled none now p = Keeps-fail Stalled no_active_subscription
  cancel_found-Stalled (some sub) now p = rw p.0 (Keeps-fail Stalled no_active_subscription)

  cancel-Stalled : (user now : ℕ) → Keeps Stalled (cancel stripe secret user now)
  unfolding cancel
  cancel-Stalled user now =
      Keeps-bind Stalled OptionPending (get_subscription_by_user db user) _
        (get_by_user-Keeps db user) (λ w o h e. get_by_user-pending db user w o h e)
        (λ o p. cancel_found-Stalled o now p)

  module _ (names : NamesObjects stripe) where
    checkout_completed-Stalled :
        (raw : Raw) (now : ℕ) → Keeps Stalled (handle_checkout_completed stripe secret raw now)
    unfolding handle_checkout_completed
    checkout_completed-Stalled raw now = Keeps-lift_reply bad_payload _ _ λ o e. go o e
      where
        go :
            (o : Option String)
            → stripe.decode_checkout raw ≡ got o
            → Keeps Stalled (checkout_completed o now)
        go none e = Keeps-pure Stalled tt
        go (some id) e = get_by_stripe_id-Stalled db id _ (names.checkout raw id e)

    invoice_paid-Stalled :
        (raw : Raw) (now : ℕ) → Keeps Stalled (handle_invoice_paid stripe secret raw now)
    unfolding handle_invoice_paid
    invoice_paid-Stalled raw now = Keeps-lift_reply bad_payload _ _ λ o e. go o e
      where
        go :
            (o : Option String)
            → stripe.decode_invoice raw ≡ got o
            → Keeps Stalled (invoice_paid o now)
        go none e = Keeps-pure Stalled tt
        go (some id) e = get_by_stripe_id-Stalled db id _ (names.invoice raw id e)

    subscription_updated-Stalled :
        (raw : Raw) (now : ℕ) → Keeps Stalled (handle_subscription_updated stripe secret raw now)
    unfolding handle_subscription_updated
    subscription_updated-Stalled raw now =
        Keeps-lift_reply bad_payload _ _
          λ s e. get_by_stripe_id-Stalled db s.id _ (names.subscription raw s e)

    subscription_deleted-Stalled :
        (raw : Raw) (now : ℕ) → Keeps Stalled (handle_subscription_deleted stripe secret raw now)
    unfolding handle_subscription_deleted
    subscription_deleted-Stalled raw now =
        Keeps-lift_reply bad_payload _ _
          λ s e. get_by_stripe_id-Stalled db s.id _ (names.subscription raw s e)

    dispatch-Stalled :
        (type : String) (raw : Raw) (now : ℕ) → Keeps Stalled (dispatch stripe secret type raw now)
    unfolding dispatch
    dispatch-Stalled type raw now =
        Keeps-if (type == "checkout.session.completed") _ _ (checkout_completed-Stalled raw now) (
          Keeps-if (type == "invoice.paid") _ _ (invoice_paid-Stalled raw now) (
            Keeps-if (type == "customer.subscription.updated") _ _
              (subscription_updated-Stalled raw now)
              (Keeps-if (type == "customer.subscription.deleted") _ _
                (subscription_deleted-Stalled raw now) (Keeps-pure Stalled tt))))

    webhook-Stalled :
        (payload : Raw) (signature : String) (now : ℕ)
        → Keeps Stalled (handle_webhook stripe secret payload signature now)
    unfolding handle_webhook
    webhook-Stalled payload signature now =
        Keeps-lift_reply invalid_signature _ _ λ event _. dispatch-Stalled event.0 event.1 now

-- A call of the service.
pub data Call (Raw : Type 0) : Type 0 where
  checkout : (user : ℕ) (email slug : String) (new_id now : ℕ) → Call Raw
  cancellation : (user now : ℕ) → Call Raw
  webhook : (payload : Raw) (signature : String) (now : ℕ) → Call Raw

module _ {Raw : Type 0} (stripe : Stripe Raw) (secret : String) where
  unfoldable pub perform : Call Raw → World → World
  perform (checkout user email slug new_id now) w =
      (create_checkout_session stripe secret user email slug new_id now w).1
  perform (cancellation user now) w = (cancel stripe secret user now w).1
  perform (webhook payload signature now) w =
      (handle_webhook stripe secret payload signature now w).1

  unfoldable pub perform_all : List (Call Raw) → World → World
  unfolding perform
  perform_all [] w = w
  perform_all (c ∷ cs) w = perform_all cs (perform c w)

  perform_all-Stalled :
      NamesObjects stripe
      → (cs : List (Call Raw)) (w : World) → Stalled w.subscriptions
      → Stalled (perform_all cs w).subscriptions
  unfolding perform_all
  perform_all-Stalled names [] w h = h
  perform_all-Stalled names (checkout user email slug new_id now ∷ cs) w h =
      perform_all-Stalled names cs _
        ((checkout-Stalled stripe secret user email slug new_id now).at w h)
  perform_all-Stalled names (cancellation user now ∷ cs) w h =
      perform_all-Stalled names cs _ ((cancel-Stalled stripe secret user now).at w h)
  perform_all-Stalled names (webhook payload signature now ∷ cs) w h =
      perform_all-Stalled names cs _
        ((webhook-Stalled stripe secret names payload signature now).at w h)

  -- Where Stripe's events name no empty id, and from an empty table of subscriptions: whatever
  -- calls are made, by whatever users, the table has one row at most, and that row is still
  -- "incomplete" with no Stripe id. No webhook ever activates a subscription.
  pub perform_all-stalled :
      NamesObjects stripe
      → (cs : List (Call Raw)) (w : World) → w.subscriptions ≡ []
      → All IsPending (perform_all cs w).subscriptions
        × (length (perform_all cs w).subscriptions ≤ 1)
  perform_all-stalled names cs w e = perform_all-Stalled names cs w (rw e (tt, omega arith))
