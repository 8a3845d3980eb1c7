-- ===== src/Auth/Users.antt =====
-- `PostgresUserStore` of internal/auth/store.go: each statement on the table of users, with the
-- constraints of migrations/000_rebuild_clean.sql (the primary key, the unique email, the roles).
pub mod Sound
pub mod Rows
pub mod View
use go_saas_api.Common.{
  ℕ, suc, String, Bool, true, false, ◌&&◌, ◌||◌, not, Option, none, some, List, [], ◌∷◌, ◌++◌, map,
  ltb, ◌==◌, nat_eq, string_eq, if◌then◌else◌, any_by, find_by, filter_by, take, drop,
}
use go_saas_api.Common.Int.{ℤ, pos, negsuc}
use go_saas_api.Common.Effect.{Result, ok, err, M}
use go_saas_api.Auth.{User, Redis, Accounts, DbError, no_rows, fault, violation}

-- CHECK (role IN …)
unfoldable pub role_allowed : String → Bool
role_allowed role = role == "registered" || role == "premium" || role == "admin"

-- The primary key or the unique email of another row.
unfoldable pub duplicates : User → User → Bool
duplicates new old = old.id == new.id || old.email == new.email

-- The unique email of another row than the one that is changed.
unfoldable pub takes_email : User → User → Bool
takes_email user old = not (old.id == user.id) && old.email == user.email

-- What the table refuses: a new row, a changed one, and a changed role.
abbrev pub refuses_new : User → List User → Bool
refuses_new user rows = any_by (duplicates user) rows || not (role_allowed user.role)

abbrev pub refuses_change : User → List User → Bool
refuses_change user rows =
    any_by (λ u. u.id == user.id) rows
    && (any_by (takes_email user) rows || not (role_allowed user.role))

abbrev pub refuses_role : (id : ℕ) (role : String) → List User → Bool
refuses_role id role rows = any_by (λ u. u.id == id) rows && not (role_allowed role)

unfoldable pub add_user : User → List User → Result DbError (List User)
unfolding role_allowed duplicates
add_user user rows = if refuses_new user rows then err violation else ok (rows ++ user ∷ [])

-- The columns that `Update` sets.
unfoldable pub updated_user : User → User → User
updated_user user old =
    if old.id == user.id then record user { created_at = old.created_at } else old

unfoldable pub change_user : User → List User → Result DbError (List User)
unfolding role_allowed updated_user takes_email
change_user user rows =
    if refuses_change user rows then err violation else ok (map (updated_user user) rows)

unfoldable pub set_role : (id : ℕ) (role : String) (now : ℕ) → User → User
set_role id role now u = if u.id == id then record u { role = role; updated_at = now } else u

unfoldable pub change_role :
    (id : ℕ) (role : String) (now : ℕ) → List User → Result DbError (List User)
unfolding role_allowed set_role
change_role id role now rows =
    if refuses_role id role rows then err violation else ok (map (set_role id role now) rows)

unfoldable pub insert_newest : User → List User → List User
insert_newest u [] = u ∷ []
insert_newest u (v ∷ rows) =
    let later = insert_newest u rows in
    if ltb u.created_at v.created_at then v ∷ later else u ∷ v ∷ rows

unfoldable pub newest_first : List User → List User
unfolding insert_newest
newest_first [] = []
newest_first (u ∷ rows) = insert_newest u (newest_first rows)

abbrev limit_or_default : ℤ → ℕ
limit_or_default (pos ℕ.zero) = 100
limit_or_default (pos (suc n)) = suc n
limit_or_default (negsuc n) = 100

module _ {redis : Redis} where
  -- A call of the database under the schedule of faults.
  unfoldable pub query :
      {A : Type 0} → M (Accounts redis) DbError A → List Bool → M (Accounts redis) DbError A
  query run [] w = run w
  query run (true ∷ faults) w = (err fault, record w { faults = faults })
  query run (false ∷ faults) w = run (record w { faults = faults })

  abbrev pub db_call : {A : Type 0} → M (Accounts redis) DbError A → M (Accounts redis) DbError A
  db_call run w = query run w.faults w

  unfoldable pub written : Result DbError (List User) → M (Accounts redis) DbError (Unit {0})
  written (ok rows) w = (ok tt, record w { users = rows })
  written (err e) w = (err e, w)

  -- The table after a statement, if it went through.
  unfoldable pub write :
      (List User → Result DbError (List User)) → M (Accounts redis) DbError (Unit {0})
  unfolding written
  write statement w = written (statement w.users) w

  unfoldable pub picked : Option User → M (Accounts redis) DbError User
  picked none w = (err no_rows, w)
  picked (some u) w = (ok u, w)

  -- QueryRow and scanUser
  unfoldable pub read : (List User → Option User) → M (Accounts redis) DbError User
  unfolding picked
  read pick w = picked (pick w.users) w

  unfoldable pub create : User → M (Accounts redis) DbError (Unit {0})
  unfolding query write add_user
  create user = db_call (write (add_user user))

  unfoldable pub get_by_id : ℕ → M (Accounts redis) DbError User
  unfolding query read
  get_by_id id = db_call (read (find_by (λ u. u.id == id)))

  unfoldable pub get_by_email : String → M (Accounts redis) DbError User
  unfolding query read
  get_by_email email = db_call (read (find_by (λ u. u.email == email)))

  unfoldable pub get_by_oauth : (provider subject : String) → M (Accounts redis) DbError User
  unfolding query read
  get_by_oauth provider subject =
      db_call (read (find_by (λ u. u.oauth_provider == provider && u.oauth_subject == subject)))

  unfoldable pub update : User → M (Accounts redis) DbError (Unit {0})
  unfolding query write change_user
  update user = db_call (write (change_user user))

  unfoldable pub delete : ℕ → M (Accounts redis) DbError (Unit {0})
  unfolding query write
  delete id = db_call (write (λ rows. ok (filter_by (λ u. not (u.id == id)) rows)))

  unfoldable pub list_users : (limit : ℤ) (offset : ℕ) → M (Accounts redis) DbError (List User)
  unfolding query newest_first
  list_users limit offset =
      db_call (λ w. (ok (take (limit_or_default limit) (drop offset (newest_first w.users))), w))

  unfoldable pub update_user_role :
      (id : ℕ) (role : String) (now : ℕ) → M (Accounts redis) DbError (Unit {0})
  unfolding query write change_role
  update_user_role id role now = db_call (write (change_role id role now))
