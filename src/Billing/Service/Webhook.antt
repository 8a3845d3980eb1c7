-- ===== src/Billing/Service/Webhook.antt =====
-- The webhooks of internal/billing/service.go and what a failed one leaves behind.
use go_saas_api.Common.{
  ℕ, ◌≡◌, refl, ◌∙◌, String, Bool, true, false, Option, none, some, arith, ◌==◌, string_eq, nat_eq,
  if◌then◌else◌,
}
use go_saas_api.Billing.{
  Subscription, World, DbError, Error, Result, ok, err, M, ◌>>=◌, db, bad_payload,
  invalid_signature,
}
use go_saas_api.Billing.Store.{
  call_db, db_call, some_or, get_subscription_by_stripe_id, update_subscription, update_rows,
  cancel_subscription,
}
use go_saas_api.Billing.Service.{
  Stripe, StripeSubscription, Reply, got, refused, lift_reply, publish_subscription_changed,
  save_and_publish, checkout_completed, invoice_paid, subscription_updated, subscription_deleted,
  handle_checkout_completed, handle_invoice_paid, handle_subscription_updated,
  handle_subscription_deleted, dispatch, handle_webhook, with_row,
}

-- An error leaves the tables and the messages as they were.
pub record AllOrNothing {A : Type 0} (m : M A) : Type 0 where
  pub undone :
      (w : World) (e : Error)
      → (m w).0 ≡ err e
      → ((m w).1.subscriptions ≡ w.subscriptions) × ((m w).1.outbox ≡ w.outbox)

-- A step that only reads, whether it fails or not.
record OnlyReads {A : Type 0} (m : M A) : Type 0 where
  rows : (w : World) → (m w).1.subscriptions ≡ w.subscriptions
  messages : (w : World) → (m w).1.outbox ≡ w.outbox

-- A step that cannot fail.
record NeverFails {A : Type 0} (m : M A) : Type 0 where
  total : (w : World) (e : Error) → ¬ ((m w).0 ≡ err e)

abbrev Undone : {A : Type 0} → World → Result A × World → Type 0
Undone w (r, w') =
    (e : Error) → r ≡ err e → (w'.subscriptions ≡ w.subscriptions) × (w'.outbox ≡ w.outbox)

continue-Undone :
    {A B : Type 0} (w : World) (r : Result A) (w' : World) (f : A → M B)
    → w'.subscriptions ≡ w.subscriptions
    → w'.outbox ≡ w.outbox
    → ((a : A) → AllOrNothing (f a))
    → Undone w (elim r as (λ _. Result B × World) [ ok a ↦ f a w' | err e ↦ (err e, w') ])
continue-Undone w (ok a) w' f rows messages rest e h =
    let (x, y) = (rest a).undone w' e h in (x ∙ rows, y ∙ messages)
continue-Undone w (err c) w' f rows messages rest e h = (rows, messages)

-- A step that only reads, in front of a rest of which an error undoes all.
read-undone :
    {A B : Type 0} (m : M A) (f : A → M B)
    → OnlyReads m
    → ((a : A) → AllOrNothing (f a))
    → AllOrNothing (m >>= f)
unfolding ◌>>=◌
read-undone m f reads rest = record {
  undone = λ w. continue-Undone w (m w).0 (m w).1 f (reads.rows w) (reads.messages w) rest;
}

finish-Undone :
    {A B : Type 0} (w : World) (r : Result A) (w' : World) (f : A → M B)
    → Undone w (r, w')
    → ((a : A) → NeverFails (f a))
    → Undone w (elim r as (λ _. Result B × World) [ ok a ↦ f a w' | err e ↦ (err e, w') ])
finish-Undone w (ok a) w' f h last e p = absurd ((last a).total w' e p)
finish-Undone w (err c) w' f h last e p = h c refl

-- A step that an error undoes, in front of one that cannot fail.
last-undone :
    {A B : Type 0} (m : M A) (f : A → M B)
    → AllOrNothing m
    → ((a : A) → NeverFails (f a))
    → AllOrNothing (m >>= f)
unfolding ◌>>=◌
last-undone m f k last = record {
  undone = λ w. finish-Undone w (m w).0 (m w).1 f (k.undone w) last;
}

pure-undone : {A : Type 0} (a : A) → AllOrNothing (λ w. (ok a, w))
pure-undone a = record { undone = λ w e h. (refl, refl) }

fail-undone : {A : Type 0} (c : Error) → AllOrNothing {A = A} (λ w. (err c, w))
fail-undone c = record { undone = λ w e h. (refl, refl) }

if-undone :
    {A : Type 0} (b : Bool) (m n : M A)
    → AllOrNothing m
    → AllOrNothing n
    → AllOrNothing (if b then m else n)
if-undone true m n km kn = km
if-undone false m n km kn = kn

reply-reads : {A : Type 0} (wrap : String → Error) (r : Reply A) → OnlyReads (lift_reply wrap r)
unfolding lift_reply
reply-reads wrap (got a) = record { rows = λ w. refl; messages = λ w. refl }
reply-reads wrap (refused c) = record { rows = λ w. refl; messages = λ w. refl }

get_by_stripe_id-reads :
    (wrap : DbError → Error) (id : String) → OnlyReads (get_subscription_by_stripe_id wrap id)
unfolding get_subscription_by_stripe_id db_call call_db some_or
get_by_stripe_id-reads wrap id = record { rows = λ w. ground arith; messages = λ w. ground arith }

update-undone :
    (wrap : DbError → Error) (sub : Subscription) → AllOrNothing (update_subscription wrap sub)
unfolding update_subscription db_call call_db update_rows
update-undone wrap sub = record { undone = λ w e h. (ground arith, ground arith) }

cancel-undone :
    (wrap : DbError → Error) (id at : ℕ) (b : Bool) (now : ℕ)
    → AllOrNothing (cancel_subscription wrap id at b now)
unfolding cancel_subscription db_call call_db
cancel-undone wrap id at b now = record { undone = λ w e h. (ground arith, ground arith) }

publish-total :
    (user : ℕ) (slug status : String) (now : ℕ)
    → NeverFails (publish_subscription_changed user slug status now)
unfolding publish_subscription_changed
publish-total user slug status now = record { total = λ w e h. ground arith }

save-undone : (sub : Subscription) (now : ℕ) → AllOrNothing (save_and_publish sub now)
unfolding save_and_publish
save-undone sub now =
    last-undone (update_subscription db sub) _ (update-undone db sub)
      λ _. publish-total sub.user_id "premium" sub.status now

row-undone :
    (o : Option Subscription) (missing : M (Unit {0})) (present : Subscription → M (Unit {0}))
    → AllOrNothing missing
    → ((s : Subscription) → AllOrNothing (present s))
    → AllOrNothing (with_row o missing present)
row-undone none missing present m p = m
row-undone (some s) missing present m p = p s

module _ {Raw : Type 0} (stripe : Stripe Raw) (secret : String) where
  checkout_completed-undone :
      (o : Option String) (now : ℕ) → AllOrNothing (checkout_completed o now)
  unfolding checkout_completed
  checkout_completed-undone none now = pure-undone tt
  checkout_completed-undone (some id) now =
      read-undone (get_subscription_by_stripe_id db id) _ (get_by_stripe_id-reads db id)
        λ o. row-undone o _ _ (fail-undone _) (λ s. save-undone _ now)

  invoice_paid-undone : (o : Option String) (now : ℕ) → AllOrNothing (invoice_paid o now)
  unfolding invoice_paid
  invoice_paid-undone none now = pure-undone tt
  invoice_paid-undone (some id) now =
      read-undone (get_subscription_by_stripe_id db id) _ (get_by_stripe_id-reads db id)
        λ o. row-undone o _ _ (pure-undone tt) (λ s. save-undone _ now)

  subscription_updated-undone :
      (s : StripeSubscription) (now : ℕ) → AllOrNothing (subscription_updated s now)
  unfolding subscription_updated
  subscription_updated-undone s now =
      read-undone (get_subscription_by_stripe_id db s.id) _ (get_by_stripe_id-reads db s.id)
        λ o. row-undone o _ _ (pure-undone tt) (λ old. save-undone _ now)

  subscription_deleted-undone :
      (s : StripeSubscription) (now : ℕ) → AllOrNothing (subscription_deleted s now)
  unfolding subscription_deleted
  subscription_deleted-undone s now =
      read-undone (get_subscription_by_stripe_id db s.id) _ (get_by_stripe_id-reads db s.id) λ o.
        row-undone o _ _ (pure-undone tt) λ old.
          last-undone (cancel_subscription db old.id now false now) _
            (cancel-undone db old.id now false now)
            (λ _. publish-total old.user_id "registered" "cancelled" now)

  dispatch-undone :
      (type : String) (raw : Raw) (now : ℕ) → AllOrNothing (dispatch stripe secret type raw now)
  unfolding dispatch handle_checkout_completed handle_invoice_paid handle_subscription_updated
      handle_subscription_deleted
  dispatch-undone type raw now =
      if-undone (type == "checkout.session.completed") _ _
        (read-undone _ _ (reply-reads bad_payload _) (λ o. checkout_completed-undone o now))
        (if-undone (type == "invoice.paid") _ _
          (read-undone _ _ (reply-reads bad_payload _) (λ o. invoice_paid-undone o now))
          (if-undone (type == "customer.subscription.updated") _ _
            (read-undone _ _ (reply-reads bad_payload _) (λ s. subscription_updated-undone s now))
            (if-undone (type == "customer.subscription.deleted") _ _
              (read-undone _ _ (reply-reads bad_payload _) (λ s. subscription_deleted-undone s now))
              (pure-undone tt))))

  -- A webhook that is answered with an error, whatever the cause and whatever the database does,
  -- has changed no subscription and published no message.
  pub handle_webhook-undone :
      (payload : Raw) (signature : String) (now : ℕ) (w : World) (e : Error)
      → (handle_webhook stripe secret payload signature now w).0 ≡ err e
      → ((handle_webhook stripe secret payload signature now w).1.subscriptions ≡ w.subscriptions)
        × ((handle_webhook stripe secret payload signature now w).1.outbox ≡ w.outbox)
  unfolding handle_webhook
  handle_webhook-undone payload signature now =
      (read-undone _ _ (reply-reads invalid_signature _)
        (λ event. dispatch-undone event.0 event.1 now)).undone
