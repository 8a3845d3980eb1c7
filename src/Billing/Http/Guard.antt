-- ===== src/Billing/Http/Guard.antt =====
-- Requests that the handlers turn away.
use go_saas_api.Common.{
  ℕ, ◌≡◌, ◌⊎◌, inl, inr, refl, subst, String, Bool, true, false, ◌||◌, Option, none, some, arith,
  ◌==◌, string_eq, if◌then◌else◌, Bool-cases,
}
use go_saas_api.Billing.{World}
use go_saas_api.Billing.Service.{Stripe}
use go_saas_api.Billing.Http.{
  Request, Forms, Response, error, text, Handler, with_user, handle_subscribe,
  handle_get_subscription, handle_cancel, handle_stripe_subscription, handle_stripe_create_checkout,
  handle_stripe_create_portal, handle_create_subscription, route,
}

-- The response to a request whose X-User-ID is missing or is no UUID.
abbrev pub Anonymous : {Raw : Type 0} → Forms Raw → Request Raw → Type 0
Anonymous forms req = (req.user_header ≡ "") ⊎ (forms.parse_uuid req.user_header ≡ none)

-- 401 without the header, 400 where it is no UUID.
abbrev pub rejection : {Raw : Type 0} → Request Raw → Response
rejection req =
    if req.user_header == ""
    then error 401 (text "missing headers")
    else error 400 (text "invalid user_id")

-- The endpoints that ask for no user.
unfoldable pub is_public : String → Bool
is_public path = path == "/plans" || path == "/webhook" || path == "/stripe/confirm-session"

module _ {Raw : Type 0} (stripe : Stripe Raw) (secret : String) (forms : Forms Raw) where
  with_user-Anonymous :
      (req : Request Raw) (next : ℕ → Handler) (w : World)
      → Anonymous forms req
      → with_user stripe secret forms req next w ≡ (rejection req, w)
  unfolding with_user
  with_user-Anonymous req next w (inl e) = rw e
  with_user-Anonymous req next w (inr e) = elim (Bool-cases (req.user_header == "")) [
    | inl missing ↦ rw missing
    | inr present ↦ rw (present, e)
  ]

  abbrev pub Rejects : (Request Raw → Handler) → Type 0
  Rejects h = (req : Request Raw) (w : World) → Anonymous forms req → h req w ≡ (rejection req, w)

  abbrev pub RejectsIfAny : Option (Request Raw → Handler) → Type 0
  RejectsIfAny none = Unit
  RejectsIfAny (some h) = Rejects h

  if-Rejects :
      (b : Bool) (m n : Option (Request Raw → Handler))
      → (b ≡ true → RejectsIfAny m)
      → RejectsIfAny n
      → RejectsIfAny (if b then m else n)
  if-Rejects true m n p q = p refl
  if-Rejects false m n p q = q

  route-RejectsIfAny :
      (method path : String) (new_id now : ℕ)
      → is_public path ≡ false
      → RejectsIfAny (route stripe secret forms method path new_id now)
  unfolding route is_public handle_subscribe handle_get_subscription handle_cancel
      handle_stripe_subscription handle_stripe_create_checkout handle_stripe_create_portal
      handle_create_subscription
  route-RejectsIfAny method path new_id now private =
      if-Rejects (method == "GET") _ _
        (λ _.
          if-Rejects (path == "/plans") _ _ (λ e. cc)
            (if-Rejects (path == "/subscription") _ _ (λ _ req w a. with_user-Anonymous req _ w a)
              (if-Rejects (path == "/stripe/subscription") _ _
                (λ _ req w a. with_user-Anonymous req _ w a) tt)))
        (if-Rejects (method == "POST") _ _
          (λ _.
            if-Rejects (path == "/subscribe") _ _ (λ _ req w a. with_user-Anonymous req _ w a)
              (if-Rejects (path == "/cancel" || path == "/subscriptions/cancel") _ _
                (λ _ req w a. with_user-Anonymous req _ w a)
                (if-Rejects (path == "/webhook") _ _ (λ e. ground arith)
                  (if-Rejects (path == "/stripe/create-checkout-session") _ _
                    (λ _ req w a. with_user-Anonymous req _ w a)
                    (if-Rejects (path == "/stripe/create-portal-session") _ _
                      (λ _ req w a. with_user-Anonymous req _ w a)
                      (if-Rejects (path == "/stripe/confirm-session") _ _ (λ e. ground arith)
                        (if-Rejects (path == "/subscriptions") _ _
                          (λ _ req w a. with_user-Anonymous req _ w a) tt)))))))
          tt)

  -- Every endpoint but the list of plans, the webhook and the confirmation of a session answers a
  -- request whose X-User-ID is missing with 401 and one whose X-User-ID is no UUID with 400, and
  -- leaves the world as it was: no table, message or call of the database is touched.
  route-Rejects :
      (method path : String) (new_id now : ℕ) (h : Request Raw → Handler) (req : Request Raw)
      (w : World)
      → is_public path ≡ false
      → route stripe secret forms method path new_id now ≡ some h
      → Anonymous forms req
      → h req w ≡ (rejection req, w)
  route-Rejects method path new_id now h req w private found a =
      let all = route-RejectsIfAny method path new_id now private in
      subst RejectsIfAny found all req w a
