-- ===== src/Billing/Service/Pending.antt =====
-- Tables in which every row waits for its checkout, and the steps of the service on them.
use text.Mathlib.TextEquality.{eq_iff}
use go_saas_api.Common.{
  ℕ, ◌≤◌, ◌≡◌, ◌≢◌, refl, sym, subst, String, Bool, true, false, Option, none, some, List, [], ◌∷◌,
  arith, length, All, find_by, filter_by, any_by, Bool-cases, inl, inr, ◌==◌, string_eq, nat_eq,
  ltb, if◌then◌else◌,
}
use go_saas_api.Billing.{Subscription, World, DbError, Error, ok, M, ◌>>=◌, no_stripe_price}
use go_saas_api.Billing.Store.{
  db_call, found_or, some_or, get_plan_by_slug, create_subscription, insert_row, clashes,
  status_allowed, get_subscription_by_user, newest, get_subscription_by_stripe_id,
}
use go_saas_api.Billing.Keeps.{Keeps, Keeps-pure, Keeps-fail, Keeps-bind, Keeps-db_call, db_call-ok}
use go_saas_api.Billing.Service.{
  Stripe, StripeSubscription, Reply, got, refused, lift_reply, price_of,
}

-- A row that waits for the confirmation of its checkout.
abbrev pub IsPending : Subscription → Type 0
IsPending s = (s.stripe_subscription_id ≡ "") × (s.status ≡ "incomplete")

abbrev pub Stalled : List Subscription → Type 0
Stalled rows = All IsPending rows × (length rows ≤ 1)

-- Stripe's objects carry an id: no decoded event names the empty one.
pub record NamesObjects {Raw : Type 0} (stripe : Stripe Raw) : Type 0 where
  pub checkout : (raw : Raw) (id : String) → stripe.decode_checkout raw ≡ got (some id) → id ≢ ""
  pub invoice : (raw : Raw) (id : String) → stripe.decode_invoice raw ≡ got (some id) → id ≢ ""
  pub subscription :
      (raw : Raw) (s : StripeSubscription) → stripe.decode_subscription raw ≡ got s → s.id ≢ ""

find_by-pending :
    (id : String) (rows : List Subscription)
    → id ≢ ""
    → All IsPending rows
    → find_by (λ s. s.stripe_subscription_id == id) rows ≡ none
find_by-pending id [] ne h = refl
find_by-pending id (s ∷ rows) ne ((e, _), h) =
    ground (arith, eq_iff s.stripe_subscription_id id, find_by-pending id rows ne h)

abbrev pub OptionPending : Option Subscription → Type 0
OptionPending none = Unit
OptionPending (some s) = IsPending s

newest-pending :
    (best : Option Subscription) (rows : List Subscription)
    → OptionPending best
    → All IsPending rows
    → OptionPending (newest best rows)
unfolding newest
newest-pending best [] b h = b
newest-pending none (s ∷ rows) b (p, h) = newest-pending (some s) rows p h
newest-pending (some o) (s ∷ rows) b (p, h) = elim (Bool-cases (ltb o.created_at s.created_at)) [
  | inl e ↦ rw e (newest-pending (some s) rows p h)
  | inr e ↦ rw e (newest-pending (some o) rows b h)
]

filter_by-All :
    (P : Subscription → Type 0) (test : Subscription → Bool) (rows : List Subscription)
    → All P rows
    → All P (filter_by test rows)
filter_by-All P test [] h = tt
filter_by-All P test (s ∷ rows) (p, h) = elim (Bool-cases (test s)) [
  | inl e ↦ rw e (p, filter_by-All P test rows h)
  | inr e ↦ rw e (filter_by-All P test rows h)
]

-- A table that is not empty holds the empty Stripe id already, so the insertion is refused.
insert_row-Stalled :
    (wrap : DbError → Error) (sub : Subscription) (w : World) (rows : List Subscription)
    → IsPending sub
    → w.subscriptions ≡ rows
    → Stalled rows
    → Stalled (insert_row wrap sub w).1.subscriptions
unfolding insert_row clashes status_allowed
insert_row-Stalled wrap sub w [] p e h = rw (e, p.1) (((p.0, refl), tt), omega arith)
insert_row-Stalled wrap sub w (s ∷ rows) p e h =
    let taken : any_by (clashes sub) w.subscriptions ≡ true =
      rw e (ground (arith, eq_iff s.stripe_subscription_id sub.stripe_subscription_id)) in
    rw taken (subst Stalled (sym e) h)

pub create-Stalled :
    (wrap : DbError → Error) (sub : Subscription)
    → IsPending sub
    → Keeps Stalled (create_subscription wrap sub)
unfolding create_subscription
create-Stalled wrap sub p =
    Keeps-db_call Stalled wrap (insert_row wrap sub)
      (record { at = λ w h. insert_row-Stalled wrap sub w w.subscriptions p refl h })

found_or-Keeps :
    {A : Type 0} (wrap : DbError → Error) (o : Option A) (w : World) → (found_or wrap o w).1 ≡ w
unfolding found_or
found_or-Keeps wrap none w = refl
found_or-Keeps wrap (some a) w = refl

some_or-none :
    (wrap : DbError → Error) (o a : Option Subscription) (w : World)
    → o ≡ none
    → (some_or wrap o w).0 ≡ ok a
    → ⊥
unfolding some_or
some_or-none wrap none a w e h = cc
some_or-none wrap (some s) a w e h = cc

some_or-Keeps :
    (wrap : DbError → Error) (o : Option Subscription) (w : World) → (some_or wrap o w).1 ≡ w
unfolding some_or
some_or-Keeps wrap none w = refl
some_or-Keeps wrap (some s) w = refl

-- No event finds a row in a stalled table, so what follows the search is not reached.
pub get_by_stripe_id-Stalled :
    {B : Type 0} (wrap : DbError → Error) (id : String) (f : Option Subscription → M B)
    → id ≢ ""
    → Keeps Stalled (get_subscription_by_stripe_id wrap id >>= f)
unfolding get_subscription_by_stripe_id
get_by_stripe_id-Stalled wrap id f ne =
    let look = λ (w : World). find_by (λ s. s.stripe_subscription_id == id) w.subscriptions in
    let run = λ (w : World). some_or wrap (look w) w in
    Keeps-bind Stalled (λ _. ⊥) (db_call wrap run) f
      (Keeps-db_call Stalled wrap run (record { at = λ w h. rw (some_or-Keeps wrap (look w) w) h }))
      (λ w a h e.
        let (v, ran, same, _, _) = db_call-ok wrap run w a e in
        let missing : look v ≡ none = rw same (find_by-pending id w.subscriptions ne h.0) in
        some_or-none wrap (look v) a v missing ran)
      (λ a bad. absurd bad)

lift_reply-Keeps :
    {A : Type 0} (wrap : String → Error) (r : Reply A) → Keeps Stalled (lift_reply wrap r)
unfolding lift_reply
lift_reply-Keeps wrap (got a) = Keeps-pure Stalled a
lift_reply-Keeps wrap (refused cause) = Keeps-fail Stalled (wrap cause)

lift_reply-got :
    {A : Type 0} (wrap : String → Error) (r : Reply A) (w : World) (a : A)
    → (lift_reply wrap r w).0 ≡ ok a
    → r ≡ got a
unfolding lift_reply
lift_reply-got wrap (got a) w b h = ground arith
lift_reply-got wrap (refused cause) w b h = cc

-- The rest of a block behind a call of Stripe may use what the call gave.
pub Keeps-lift_reply :
    {A B : Type 0} (wrap : String → Error) (r : Reply A) (f : A → M B)
    → ((a : A) → r ≡ got a → Keeps Stalled (f a))
    → Keeps Stalled (lift_reply wrap r >>= f)
Keeps-lift_reply wrap r f k =
    Keeps-bind Stalled (λ a. r ≡ got a) (lift_reply wrap r) f (lift_reply-Keeps wrap r)
      (λ w a h e. lift_reply-got wrap r w a e) k

-- The rest of a block behind a step of which nothing need be known.
pub Keeps-then :
    {A B : Type 0} (m : M A) (f : A → M B)
    → Keeps Stalled m
    → ((a : A) → Keeps Stalled (f a))
    → Keeps Stalled (m >>= f)
Keeps-then m f km kf = Keeps-bind Stalled (λ _. Unit {0}) m f km (λ w a h e. tt) (λ a _. kf a)

pub price_of-Keeps : (slug : String) (price : Option String) → Keeps Stalled (price_of slug price)
unfolding price_of
price_of-Keeps slug none = Keeps-fail Stalled (no_stripe_price slug)
price_of-Keeps slug (some price) = elim (Bool-cases (price == "")) [
  | inl e ↦ rw e (Keeps-fail Stalled (no_stripe_price slug))
  | inr e ↦ rw e (Keeps-pure Stalled price)
]

pub get_plan_by_slug-Keeps :
    (wrap : DbError → Error) (slug : String) → Keeps Stalled (get_plan_by_slug wrap slug)
unfolding get_plan_by_slug
get_plan_by_slug-Keeps wrap slug =
    Keeps-db_call Stalled wrap _ (record { at = λ w h. rw (found_or-Keeps wrap _ w) h })

pub get_by_user-Keeps :
    (wrap : DbError → Error) (user : ℕ) → Keeps Stalled (get_subscription_by_user wrap user)
unfolding get_subscription_by_user
get_by_user-Keeps wrap user = Keeps-db_call Stalled wrap _ (record { at = λ w h. h })

pub get_by_user-pending :
    (wrap : DbError → Error) (user : ℕ) (w : World) (o : Option Subscription)
    → Stalled w.subscriptions
    → (get_subscription_by_user wrap user w).0 ≡ ok o
    → OptionPending o
unfolding get_subscription_by_user
get_by_user-pending wrap user w o h e =
    let (v, ran, same, _, _) = db_call-ok wrap _ w o e in
    let by_user = λ (s : Subscription). s.user_id == user in
    let found : newest none (filter_by by_user v.subscriptions) ≡ o = cc in
    let rows : All IsPending v.subscriptions = rw same h.0 in
    subst OptionPending found (
      newest-pending none (filter_by by_user v.subscriptions) tt
        (filter_by-All IsPending by_user v.subscriptions rows))

pub Keeps-if :
    {A : Type 0} (b : Bool) (m n : M A)
    → Keeps Stalled m
    → Keeps Stalled n
    → Keeps Stalled (if b then m else n)
Keeps-if true m n km kn = km
Keeps-if false m n km kn = kn
