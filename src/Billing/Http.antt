-- ===== src/Billing/Http.antt =====
-- `Handler` of internal/billing/handler.go: each endpoint as a function of the request. Parameters
-- are uuid.Parse, the reading of a body and its binding to each form; the forms' rules are part of
-- the binding.
pub mod Guard
use go_saas_api.Common.{ℕ, String, ◌||◌, Option, none, some, List, ◌==◌, string_eq, if◌then◌else◌}
use go_saas_api.Billing.{Plan, Subscription, World, Error, db, Result, ok, err}
use go_saas_api.Billing.Store.{list_plans}
use go_saas_api.Billing.Service.{
  Reply, got, refused, Stripe, create_checkout_session, get_subscription, cancel, handle_webhook,
  create_portal_session,
}

-- The headers that the handlers read are "" where the request has none.
pub record Request (Raw : Type 0) : Type 0 where
  pub user_header : String
  pub signature : String
  pub body : Raw

pub record Forms (Raw : Type 0) : Type 0 where
  pub parse_uuid : String → Option ℕ
  pub read_all : Raw → Reply Raw
  pub bind_subscribe : Raw → Reply (String × String)
  pub bind_price : Raw → Reply String
  pub bind_session : Raw → Reply String
  pub bind_plan : Raw → Reply String

pub data Cause : Type 0 where
  text : String → Cause
  service : Error → Cause

pub data Payload : Type 0 where
  empty : Payload
  plans : List Plan → Payload
  url : String → Payload
  subscription : Option Subscription → Plan → Payload
  confirmed : String → Payload

-- response.OK and response.Error
pub data Response : Type 0 where
  success : Payload → (message : String) → Response
  error : (status : ℕ) → Cause → Response

abbrev pub Handler : Type 0
Handler = World → Response × World

-- What the service returned, with the status of its errors.
abbrev pub answer : {A : Type 0} → ℕ → (A → Response) → Result A × World → Response × World
answer status done (ok a, w) = (done a, w)
answer status done (err e, w) = (error status (service e), w)

module _ {Raw : Type 0} (stripe : Stripe Raw) (secret : String) (forms : Forms Raw) where
  abbrev parsed : Option ℕ → (ℕ → Handler) → Handler
  parsed none next w = (error 400 (text "invalid user_id"), w)
  parsed (some user) next w = next user w

  -- The check of X-User-ID with which most handlers begin.
  unfoldable pub with_user : Request Raw → (ℕ → Handler) → Handler
  with_user req next w =
      if req.user_header == ""
      then (error 401 (text "missing headers"), w)
      else parsed (forms.parse_uuid req.user_header) next w

  abbrev bound : {A : Type 0} → Reply A → (A → Handler) → Handler
  bound (refused cause) next w = (error 400 (text cause), w)
  bound (got a) next w = next a w

  unfoldable pub handle_list_plans : Request Raw → Handler
  handle_list_plans req w = elim (list_plans db w).0 [
    | ok ps ↦ (success (plans ps) "plans retrieved", (list_plans db w).1)
    | err e ↦ (error 500 (text "failed to list plans"), (list_plans db w).1)
  ]

  unfoldable pub handle_subscribe : (new_id now : ℕ) → Request Raw → Handler
  unfolding with_user
  handle_subscribe new_id now req = with_user req λ user.
      bound (forms.bind_subscribe req.body) λ form w.
        answer 500 (λ u. success (url u) "checkout session created")
          (create_checkout_session stripe secret user form.0 form.1 new_id now w)

  unfoldable pub handle_get_subscription : Request Raw → Handler
  unfolding with_user
  handle_get_subscription req = with_user req λ user w.
      answer 500 (λ found. success (subscription found.0 found.1) "subscription retrieved")
        (get_subscription user w)

  unfoldable pub handle_cancel : (now : ℕ) → Request Raw → Handler
  unfolding with_user
  handle_cancel now req = with_user req λ user w.
      answer 500 (λ _. success empty "subscription cancelled") (cancel stripe secret user now w)

  unfoldable pub handle_webhook_request : (now : ℕ) → Request Raw → Handler
  handle_webhook_request now req w = elim (forms.read_all req.body) [
    | refused cause ↦ (error 400 (text "invalid payload"), w)
    | got payload ↦
        if req.signature == ""
        then (error 400 (text "missing signature"), w)
        else answer 400 (λ _. success empty "webhook processed")
            (handle_webhook stripe secret payload req.signature now w)
  ]

  unfoldable pub handle_stripe_subscription : Request Raw → Handler
  unfolding with_user
  handle_stripe_subscription req = with_user req λ user w.
      answer 500 (λ found. success (subscription found.0 found.1) "subscription retrieved")
        (get_subscription user w)

  unfoldable pub handle_stripe_create_checkout : (new_id now : ℕ) → Request Raw → Handler
  unfolding with_user
  handle_stripe_create_checkout new_id now req = with_user req λ user.
      bound (forms.bind_price req.body) λ price w.
        answer 500 (λ u. success (url u) "checkout session created")
          (create_checkout_session stripe secret user "" price new_id now w)

  unfoldable pub portal_of : Option Subscription → Handler
  portal_of none w = (error 400 (text "no active subscription found"), w)
  portal_of (some sub) w =
      if sub.stripe_customer_id == ""
      then (error 400 (text "no active subscription found"), w)
      else answer 500 (λ u. success (url u) "portal session created")
          (create_portal_session stripe secret sub.stripe_customer_id w)

  unfoldable pub portal_behind : Result (Option Subscription × Plan) × World → Response × World
  unfolding portal_of
  portal_behind (err e, w) = (error 500 (service e), w)
  portal_behind (ok found, w) = portal_of found.0 w

  unfoldable pub handle_stripe_create_portal : Request Raw → Handler
  unfolding with_user portal_behind
  handle_stripe_create_portal req = with_user req λ user w. portal_behind (get_subscription user w)

  unfoldable pub handle_stripe_confirm_session : Request Raw → Handler
  handle_stripe_confirm_session req =
      bound (forms.bind_session req.body) λ id w. (success (confirmed id) "session confirmed", w)

  unfoldable pub handle_create_subscription : (new_id now : ℕ) → Request Raw → Handler
  unfolding with_user
  handle_create_subscription new_id now req = with_user req λ user.
      bound (forms.bind_plan req.body) λ plan w.
        answer 500 (λ u. success (url u) "subscription checkout created")
          (create_checkout_session stripe secret user "" plan new_id now w)

  -- `RegisterRoutes`: a path and a method, or no route.
  unfoldable pub route : (method path : String) → (new_id now : ℕ) → Option (Request Raw → Handler)
  route method path new_id now =
      if method == "GET"
      then (if path == "/plans"
          then some handle_list_plans
          else if path == "/subscription"
          then some handle_get_subscription
          else if path == "/stripe/subscription"
          then some handle_stripe_subscription
          else none)
      else if method == "POST"
      then (if path == "/subscribe"
          then some (handle_subscribe new_id now)
          else if path == "/cancel" || path == "/subscriptions/cancel"
          then some (handle_cancel now)
          else if path == "/webhook"
          then some (handle_webhook_request now)
          else if path == "/stripe/create-checkout-session"
          then some (handle_stripe_create_checkout new_id now)
          else if path == "/stripe/create-portal-session"
          then some handle_stripe_create_portal
          else if path == "/stripe/confirm-session"
          then some handle_stripe_confirm_session
          else if path == "/subscriptions"
          then some (handle_create_subscription new_id now)
          else none)
      else none
