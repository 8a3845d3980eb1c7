-- ===== src/Billing/Keeps.antt =====
-- Properties of the table of subscriptions that a method keeps, a rule for each way to build one.
use go_saas_api.Common.{◌≡◌, refl, Bool, true, false, List, [], ◌∷◌}
use go_saas_api.Billing.{Subscription, World, DbError, Error, Result, ok, err, M, ◌>>=◌}
use go_saas_api.Billing.Store.{call_db, db_call}

-- Whatever `m` returns, `P` holds of the subscriptions behind it if it did before.
pub record Keeps {A : Type 0} (P : List Subscription → Type 0) (m : M A) : Type 0 where
  pub at : (w : World) → P w.subscriptions → P (m w).1.subscriptions

module _ (P : List Subscription → Type 0) where
  pub Keeps-pure : {A : Type 0} (a : A) → Keeps P (λ w. (ok a, w))
  Keeps-pure a = record { at = λ w h. h }

  pub Keeps-fail : {A : Type 0} (e : Error) → Keeps {A = A} P (λ w. (err e, w))
  Keeps-fail e = record { at = λ w h. h }

  Keeps-continue :
      {A B : Type 0} (r : Result A) (w : World) (f : A → M B)
      → ((a : A) → r ≡ ok a → P (f a w).1.subscriptions)
      → P w.subscriptions
      → P (elim r as (λ _. Result B × World) [ ok a ↦ f a w | err e ↦ (err e, w) ]).1.subscriptions
  Keeps-continue (ok a) w f h p = h a refl
  Keeps-continue (err e) w f h p = p

  -- `Q` holds of what `m` returns, and the rest of the block may use it.
  pub Keeps-bind :
      {A B : Type 0} (Q : A → Type 0) (m : M A) (f : A → M B)
      → Keeps P m
      → ((w : World) (a : A) → P w.subscriptions → (m w).0 ≡ ok a → Q a)
      → ((a : A) → Q a → Keeps P (f a))
      → Keeps P (m >>= f)
  unfolding ◌>>=◌
  Keeps-bind Q m f km q kf = record {
    at = λ w h.
        let (r, w') = m w in
        Keeps-continue r w' f (λ a e. (kf a (q w a h e)).at w' (km.at w h)) (km.at w h);
  }

  Keeps-call_db :
      {A : Type 0} (wrap : DbError → Error) (run : World → Result A × World)
      → Keeps P run
      → (faults : List Bool) (w : World) → P w.subscriptions
      → P (call_db wrap run faults w).1.subscriptions
  unfolding call_db
  Keeps-call_db wrap run k [] w h = k.at w h
  Keeps-call_db wrap run k (true ∷ faults) w h = h
  Keeps-call_db wrap run k (false ∷ faults) w h = k.at (record w { faults = faults }) h

  pub Keeps-db_call :
      {A : Type 0} (wrap : DbError → Error) (run : World → Result A × World)
      → Keeps P run
      → Keeps P (db_call wrap run)
  unfolding db_call
  Keeps-db_call wrap run k = record { at = λ w h. Keeps-call_db wrap run k w.faults w h }

-- What a successful call of the database returns, the statement returned on the same tables.
pub db_call-ok :
    {A : Type 0} (wrap : DbError → Error) (run : World → Result A × World) (w : World) (a : A)
    → (db_call wrap run w).0 ≡ ok a
    → (v : World) × ((run v).0 ≡ ok a)
      × (v.subscriptions ≡ w.subscriptions)
      × (v.plans ≡ w.plans)
      × ((db_call wrap run w).1 ≡ (run v).1)
unfolding db_call call_db
db_call-ok wrap run w a h = go w.faults w h
  where
    go :
        (faults : List Bool) (w : World)
        → (call_db wrap run faults w).0 ≡ ok a
        → (v : World) × ((run v).0 ≡ ok a)
          × (v.subscriptions ≡ w.subscriptions)
          × (v.plans ≡ w.plans)
          × ((call_db wrap run faults w).1 ≡ (run v).1)
    go [] w h = (w, h, refl, refl, refl)
    go (true ∷ fs) w h = cc
    go (false ∷ fs) w h = (record w { faults = fs }, h, refl, refl, refl)
