-- ===== src/Auth/Service/Keys.antt =====
-- What the calls of the stores keep of the keys in Redis.

use go_saas_api.Common.{
  ℕ, ◌≡◌, refl, ◌≢◌, ◌∙◌, String, Bool, true, false, Option, none, some, List, [], ◌∷◌,
}
use go_saas_api.Common.Int.{ℤ}
use go_saas_api.Common.Effect.{Result, ok, err, M, Keeps}
use go_saas_api.Auth.{User, Key, Redis, Lookup, found, missing, failed, Accounts, DbError, Error}
use go_saas_api.Auth.Users.{
  query, picked, written, read, write, create, get_by_id, get_by_email, get_by_oauth, update,
  list_users, update_user_role,
}
use go_saas_api.Auth.Tokens.{Documented, done_or, found_or, save_token, get_token, delete_token}

-- A property of the keys only.
abbrev pub OnKeys : {redis : Redis} → (redis.State → Type 0) → Accounts redis → Type 0
OnKeys Q w = Q w.kv

module _ {redis : Redis} (Q : redis.State → Type 0) where
  query-Keeps :
      {A : Type 0} (run : M (Accounts redis) DbError A)
      → Keeps (OnKeys Q) run
      → (faults : List Bool) (w : Accounts redis) → Q w.kv
      → Q (query run faults w).1.kv
  unfolding query
  query-Keeps run k [] w q = k.at w q
  query-Keeps run k (true ∷ faults) w q = q
  query-Keeps run k (false ∷ faults) w q = k.at (record w { faults = faults }) q

  picked-Keeps : (o : Option User) → Keeps (OnKeys Q) (picked {redis = redis} o)
  unfolding picked
  picked-Keeps none = record { at = λ w q. q }
  picked-Keeps (some u) = record { at = λ w q. q }

  written-Keeps : (r : Result DbError (List User)) → Keeps (OnKeys Q) (written {redis = redis} r)
  unfolding written
  written-Keeps (ok rows) = record { at = λ w q. q }
  written-Keeps (err e) = record { at = λ w q. q }

  pub read-Keeps :
      (pick : List User → Option User)
      → Keeps (OnKeys Q) (λ w. query (read {redis = redis} pick) w.faults w)
  unfolding read
  read-Keeps pick = record {
    at = λ w q.
        query-Keeps (read pick) (record { at = λ v. (picked-Keeps (pick v.users)).at v }) w.faults w
          q;
  }

  pub write-Keeps :
      (statement : List User → Result DbError (List User))
      → Keeps (OnKeys Q) (λ w. query (write {redis = redis} statement) w.faults w)
  unfolding write
  write-Keeps statement = record {
    at = λ w q.
        query-Keeps (write statement)
          (record { at = λ v. (written-Keeps (statement v.users)).at v }) w.faults w q;
  }

  pub get_by_email-Keeps : (email : String) → Keeps (OnKeys Q) (get_by_email {redis = redis} email)
  unfolding get_by_email
  get_by_email-Keeps email = read-Keeps _

  pub get_by_id-Keeps : (id : ℕ) → Keeps (OnKeys Q) (get_by_id {redis = redis} id)
  unfolding get_by_id
  get_by_id-Keeps id = read-Keeps _

  pub get_by_oauth-Keeps :
      (provider subject : String) → Keeps (OnKeys Q) (get_by_oauth {redis = redis} provider subject)
  unfolding get_by_oauth
  get_by_oauth-Keeps provider subject = read-Keeps _

  pub create-Keeps : (user : User) → Keeps (OnKeys Q) (create {redis = redis} user)
  unfolding create
  create-Keeps user = write-Keeps _

  pub update-Keeps : (user : User) → Keeps (OnKeys Q) (update {redis = redis} user)
  unfolding update
  update-Keeps user = write-Keeps _

  pub list_users-Keeps :
      (limit : ℤ) (offset : ℕ) → Keeps (OnKeys Q) (list_users {redis = redis} limit offset)
  unfolding list_users
  list_users-Keeps limit offset = record {
    at = λ w q. query-Keeps _ (record { at = λ v p. p }) w.faults w q;
  }

  pub update_user_role-Keeps :
      (id : ℕ) (role : String) (now : ℕ)
      → Keeps (OnKeys Q) (update_user_role {redis = redis} id role now)
  unfolding update_user_role
  update_user_role-Keeps id role now = write-Keeps _

  pub done_or-Keeps :
      (e : Error) (command : redis.State → Bool × redis.State)
      → ((s : redis.State) → Q s → Q (command s).1)
      → Keeps (OnKeys Q) (done_or {redis = redis} e command)
  unfolding done_or
  done_or-Keeps e command h = record { at = λ w q. h w.kv q }

  pub found_or-Keeps :
      (e : Error) (command : redis.State → Lookup × redis.State)
      → ((s : redis.State) → Q s → Q (command s).1)
      → Keeps (OnKeys Q) (found_or {redis = redis} e command)
  unfolding found_or
  found_or-Keeps e command h = record { at = λ w q. h w.kv q }

-- At no time does the key have a value.
abbrev pub Absent : {redis : Redis} (doc : Documented redis) → Key → redis.State → Type 0
Absent doc key s = (now : ℕ) → doc.holds s key now ≡ none

abbrev pub Without : {redis : Redis} (doc : Documented redis) → Key → Accounts redis → Type 0
Without {redis} doc key = OnKeys {redis = redis} (Absent doc key)

module _ {redis : Redis} (doc : Documented redis) (key : Key) where
  pub save_token-Keeps :
      (e : Error) (k : Key) (v : String) (ttl now : ℕ)
      → key ≢ k
      → Keeps (Without doc key) (save_token e k v ttl now)
  unfolding save_token
  save_token-Keeps e k v ttl now ne =
      done_or-Keeps (Absent doc key) e _ (λ s gone t. doc.set_other k v ttl now s key t ne ∙ gone t)

  pub get_token-Keeps :
      (e : Error) (k : Key) (now : ℕ) → Keeps (Without doc key) (get_token e k now)
  unfolding get_token
  get_token-Keeps e k now =
      found_or-Keeps (Absent doc key) e _ (λ s gone t. doc.get_keeps k now s key t ∙ gone t)

  pub delete_token-Keeps :
      (e : Error) (k : Key) (now : ℕ) → key ≢ k → Keeps (Without doc key) (delete_token e k now)
  unfolding delete_token
  delete_token-Keeps e k now ne =
      done_or-Keeps (Absent doc key) e _ (λ s gone t. doc.del_other k now s key t ne ∙ gone t)

  -- A key without a value is none that the stores find.
  pub get_token-missing :
      (e : Error) (now : ℕ) (w : Accounts redis)
      → doc.holds w.kv key now ≡ none
      → (get_token e key now w).0 ≡ err e
  unfolding get_token
  get_token-missing e now w lost = go (redis.get key now w.kv).0 refl
    where
      go :
          (answer : Lookup)
          → (redis.get key now w.kv).0 ≡ answer
          → (get_token e key now w).0 ≡ err e
      go (found v) q =
          let held : doc.holds w.kv key now ≡ some v = doc.get_found key now w.kv v q in cc
      go missing q = rw q refl
      go failed q = rw q refl
