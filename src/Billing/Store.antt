-- ===== src/Billing/Store.antt =====
-- `PostgresBillingStore` of internal/billing/repository_pg.go, plans and subscriptions: each SQL
-- statement as a function of the tables. The constraints are those of
-- migrations/000_rebuild_clean.sql on `subscriptions`: the primary key, the unique Stripe id and
-- the check of the status. Foreign keys are left to the faults.
use go_saas_api.Common.{
  ℕ, String, Bool, true, false, ◌&&◌, ◌||◌, not, Option, none, some, List, [], ◌∷◌, ◌++◌, map, ◌==◌,
  nat_eq, string_eq, ltb, if◌then◌else◌, filter_by, find_by, any_by,
}
use go_saas_api.Common.Int.{lt_int}
use go_saas_api.Billing.{
  Plan, Subscription, World, DbError, no_rows, fault, unique_violation, check_violation, Error,
  Result, ok, err, M,
}

-- A call of the database: it fails if the next fault says so, and runs the statement otherwise.
-- The code's own wrapping of the error is `wrap`.
unfoldable pub call_db :
    {A : Type 0}
    → (DbError → Error)
    → (World → Result A × World)
    → List Bool
    → World
    → Result A × World
call_db wrap run [] w = run w
call_db wrap run (true ∷ faults) w = (err (wrap fault), record w { faults = faults })
call_db wrap run (false ∷ faults) w = run (record w { faults = faults })

unfoldable pub db_call : {A : Type 0} → (DbError → Error) → (World → Result A × World) → M A
unfolding call_db
db_call wrap run w = call_db wrap run w.faults w

-- QueryRow(…).Scan(…) on the first row that was found.
unfoldable pub found_or : {A : Type 0} → (DbError → Error) → Option A → World → Result A × World
found_or wrap none w = (err (wrap no_rows), w)
found_or wrap (some a) w = (ok a, w)

-- ORDER BY amount_cents ASC
unfoldable pub insert_by_amount : Plan → List Plan → List Plan
insert_by_amount p [] = p ∷ []
insert_by_amount p (q ∷ qs) =
    let later = q ∷ insert_by_amount p qs in
    if lt_int q.amount_cents p.amount_cents then later else p ∷ q ∷ qs

unfoldable pub order_by_amount : List Plan → List Plan
unfolding insert_by_amount
order_by_amount [] = []
order_by_amount (p ∷ ps) = insert_by_amount p (order_by_amount ps)

unfoldable pub list_plans : (DbError → Error) → M (List Plan)
list_plans wrap =
    db_call wrap (λ w. (ok (order_by_amount (filter_by (λ p. p.is_active) w.plans)), w))

unfoldable pub get_plan_by_slug : (DbError → Error) → String → M Plan
get_plan_by_slug wrap slug =
    db_call wrap (λ w. found_or wrap (find_by (λ p. p.slug == slug) w.plans) w)

unfoldable pub get_plan_by_id : (DbError → Error) → ℕ → M Plan
get_plan_by_id wrap id = db_call wrap (λ w. found_or wrap (find_by (λ p. p.id == id) w.plans) w)

has_price : String → Plan → Bool
has_price price p = elim p.stripe_price_id [ none ↦ false | some q ↦ q == price ]

unfoldable pub get_plan_by_stripe_price_id : (DbError → Error) → String → M Plan
unfolding has_price
get_plan_by_stripe_price_id wrap price =
    db_call wrap (λ w. found_or wrap (find_by (has_price price) w.plans) w)

-- CHECK (status IN …)
unfoldable pub status_allowed : String → Bool
status_allowed s = s == "active" || s == "past_due" || s == "canceled" || s == "incomplete"

-- Whether an inserted row breaks the primary key or the unique Stripe id.
unfoldable pub clashes : Subscription → Subscription → Bool
clashes new old = old.id == new.id || old.stripe_subscription_id == new.stripe_subscription_id

-- INSERT lists no `canceled_at`, so the column is NULL.
unfoldable pub insert_row : (DbError → Error) → Subscription → World → Result (Unit {0}) × World
insert_row wrap sub w =
    if any_by (clashes sub) w.subscriptions
    then (err (wrap unique_violation), w)
    else if status_allowed sub.status
    then (
      ok tt,
      record w { subscriptions = w.subscriptions ++ record sub { canceled_at = none } ∷ [] },
    )
    else (err (wrap check_violation), w)

unfoldable pub create_subscription : (DbError → Error) → Subscription → M (Unit {0})
create_subscription wrap sub = db_call wrap (insert_row wrap sub)

-- ORDER BY created_at DESC LIMIT 1: the newest row so far, and the rows left. Of rows of one time
-- the first is taken.
unfoldable pub newest : Option Subscription → List Subscription → Option Subscription
newest best [] = best
newest none (s ∷ rest) = newest (some s) rest
newest (some b) (s ∷ rest) = newest (some (if ltb b.created_at s.created_at then s else b)) rest

-- pgx.ErrNoRows is no error here: the result is nil.
unfoldable pub get_subscription_by_user : (DbError → Error) → ℕ → M (Option Subscription)
unfolding newest
get_subscription_by_user wrap user =
    db_call wrap (λ w. (ok (newest none (filter_by (λ s. s.user_id == user) w.subscriptions)), w))

-- The result is a row or an error, never nil.
unfoldable pub some_or :
    (DbError → Error) → Option Subscription → World → Result (Option Subscription) × World
some_or wrap none w = (err (wrap no_rows), w)
some_or wrap (some s) w = (ok (some s), w)

unfoldable pub get_subscription_by_id : (DbError → Error) → ℕ → M (Option Subscription)
get_subscription_by_id wrap id =
    db_call wrap (λ w. some_or wrap (find_by (λ s. s.id == id) w.subscriptions) w)

unfoldable pub get_subscription_by_stripe_id : (DbError → Error) → String → M (Option Subscription)
get_subscription_by_stripe_id wrap id =
    db_call wrap
      (λ w. some_or wrap (find_by (λ s. s.stripe_subscription_id == id) w.subscriptions) w)

-- UPDATE subscriptions SET … WHERE id = $10: the id, the user and the time of creation stay.
unfoldable pub updated_row : Subscription → Subscription → Subscription
updated_row sub old =
    if old.id == sub.id
    then record sub { user_id = old.user_id; created_at = old.created_at }
    else old

-- Another row holds the Stripe id that the update writes.
unfoldable pub takes_id : Subscription → Subscription → Bool
takes_id sub old =
    not (old.id == sub.id) && old.stripe_subscription_id == sub.stripe_subscription_id

unfoldable pub update_rows : (DbError → Error) → Subscription → World → Result (Unit {0}) × World
update_rows wrap sub w =
    if any_by (λ s. s.id == sub.id) w.subscriptions && not (status_allowed sub.status)
    then (err (wrap check_violation), w)
    else if any_by (λ s. s.id == sub.id) w.subscriptions && any_by (takes_id sub) w.subscriptions
    then (err (wrap unique_violation), w)
    else (ok tt, record w { subscriptions = map (updated_row sub) w.subscriptions })

unfoldable pub update_subscription : (DbError → Error) → Subscription → M (Unit {0})
update_subscription wrap sub = db_call wrap (update_rows wrap sub)

unfoldable pub canceled_row : ℕ → ℕ → Bool → ℕ → Subscription → Subscription
canceled_row id canceled_at at_period_end now old =
    if old.id == id
    then record old {
      status = "canceled";
      canceled_at = some canceled_at;
      cancel_at_period_end = at_period_end;
      updated_at = now;
    }
    else old

unfoldable pub cancel_subscription : (DbError → Error) → ℕ → ℕ → Bool → (now : ℕ) → M (Unit {0})
cancel_subscription wrap id canceled_at at_period_end now = db_call wrap λ w. (
  ok tt,
  record w { subscriptions = map (canceled_row id canceled_at at_period_end now) w.subscriptions },
)
