-- ===== src/Auth/Service/SignIn.antt =====
-- Registration and the reset of a password (internal/auth/service.go) where the database and Redis
-- do not fail.
use go_saas_api.Common.{
  ℕ, ◌≡◌, refl, String, true, false, none, some, [], ◌∷◌, ◌++◌, map, ◌==◌, nat_eq, string_eq,
  find_by, any_by, Bool-cases, inl, inr, arith,
}
use go_saas_api.Common.Effect.{ok, err, ◌>>=◌, attempt, map_error}
use go_saas_api.Auth.{
  User, pwdreset, Redis, Accounts, Environment, invalid_reset_token, no_rows, save_reset_token,
  delete_token,
}
use go_saas_api.Auth.Users.{
  role_allowed, duplicates, add_user, updated_user, takes_email, change_user, query, read, picked,
  write, written, create, update, get_by_email,
}
use go_saas_api.Auth.Users.Sound.{IsSound}
use go_saas_api.Auth.Users.Rows.{
  find_by-none, any_by-weaker, role_of_row, with_password, with_password-free,
}
use go_saas_api.Auth.Tokens.{Documented, Reliable}
use go_saas_api.Auth.Service.{
  new_user, register, send_reset, request_for, request_password_reset, reset_password,
}
use go_saas_api.Auth.Service.Healthy.{
  Lawful, get_by_id-quiet, get_by_email-quiet, stored, looked, removed, save_token-healthy,
  get_token-healthy, delete_token-healthy,
}

-- The table without rows of that email, with a new row, and with a changed one.
module _ {redis : Redis} where
  get_by_email-missing :
      (email : String) (w : Accounts redis)
      → w.faults ≡ []
      → find_by (λ u. u.email == email) w.users ≡ none
      → get_by_email email w ≡ (err no_rows, w)
  unfolding get_by_email read query picked
  get_by_email-missing email w quiet absent = rw (quiet, absent) refl

  create-quiet :
      (user : User) (w : Accounts redis)
      → w.faults ≡ []
      → any_by (duplicates user) w.users ≡ false
      → role_allowed user.role ≡ true
      → create user w ≡ (ok tt, record w { users = w.users ++ user ∷ [] })
  unfolding create query write written add_user
  create-quiet user w quiet free allowed = rw (quiet, free, allowed) refl

  update-quiet :
      (user : User) (w : Accounts redis)
      → w.faults ≡ []
      → any_by (takes_email user) w.users ≡ false
      → role_allowed user.role ≡ true
      → update user w ≡ (ok tt, record w { users = map (updated_user user) w.users })
  unfolding update query write written change_user
  update-quiet user w quiet free allowed =
      elim (Bool-cases (any_by (λ u. u.id == user.id) w.users)) [
        | inl there ↦ rw (quiet, there, free, allowed) refl
        | inr absent ↦ rw (quiet, absent) refl
      ]

module _ {redis : Redis} (doc : Documented redis) (healthy : Reliable doc) (env : Environment)
    (laws : Lawful env) where
  pub register-healthy :
      (email password name salt hash : String) (id now : ℕ) (w : Accounts redis)
      → w.faults ≡ []
      → env.hash_password password salt ≡ some hash
      → any_by (duplicates (new_user email hash name id now)) w.users ≡ false
      → register env email password name salt id now w ≡ (
        ok (new_user email hash name id now),
        record w { users = w.users ++ new_user email hash name id now ∷ [] },
      )
  unfolding register ◌>>=◌ attempt map_error
  register-healthy email password name salt hash id now w quiet hashed free =
      let absent : any_by (λ u. u.email == email) w.users ≡ false =
        any_by-weaker (duplicates (new_user email hash name id now)) (λ u. u.email == email) w.users
          (λ u same. unfold duplicates in ground (arith, same, string_eq.equals_iff u.email email))
          free in
      rw
        (
          get_by_email-missing email w quiet (find_by-none (λ u. u.email == email) w.users absent),
          hashed,
          create-quiet (new_user email hash name id now) w quiet free (unfold role_allowed in refl),
        )
        refl

  -- The state behind a request for a reset.
  pub request_password_reset-healthy :
      (email token : String) (now : ℕ) (user : User) (w : Accounts redis)
      → w.faults ≡ []
      → find_by (λ u. u.email == email) w.users ≡ some user
      → ((request_password_reset env email (some token) now w).1.users ≡ w.users)
        × ((request_password_reset env email (some token) now w).1.faults ≡ w.faults)
        × ((request_password_reset env email (some token) now w).1.kv
            ≡ (stored (pwdreset token) (env.format_uuid user.id) env.reset_token_ttl now w).kv)
  unfolding request_password_reset ◌>>=◌ attempt request_for send_reset
  request_password_reset-healthy email token now user w quiet there =
      elim (Bool-cases
        (env.send_password_reset (record { to = user.email; reset_token = token }))) [
          | inl sent ↦
              rw
                (
                  get_by_email-quiet email user w quiet there,
                  save_token-healthy doc healthy save_reset_token (pwdreset token)
                      (env.format_uuid user.id) env.reset_token_ttl now w,
                  sent,
                )
                (refl, refl, refl)
          | inr lost ↦
              rw
                (
                  get_by_email-quiet email user w quiet there,
                  save_token-healthy doc healthy save_reset_token (pwdreset token)
                      (env.format_uuid user.id) env.reset_token_ttl now w,
                  lost,
                )
                (refl, refl, refl)
        ]

  pub reset_password-healthy :
      (token new_password salt hash : String) (now : ℕ) (user : User) (w : Accounts redis)
      → w.faults ≡ []
      → IsSound w.users
      → find_by (λ u. u.id == user.id) w.users ≡ some user
      → doc.holds w.kv (pwdreset token) now ≡ some (env.format_uuid user.id)
      → env.hash_password new_password salt ≡ some hash
      → reset_password env token new_password salt now w ≡ (
        ok tt,
        record (removed (pwdreset token) now (looked (pwdreset token) now w)) {
          users = map (updated_user (with_password user hash now)) w.users;
        },
      )
  unfolding reset_password ◌>>=◌ attempt map_error
  reset_password-healthy token new_password salt hash now user w quiet sound there held hashed =
      rw
        (
          get_token-healthy doc healthy invalid_reset_token (pwdreset token)
              (env.format_uuid user.id) now w held,
          laws.parse_format user.id,
          get_by_id-quiet user.id user (looked (pwdreset token) now w) quiet there,
          hashed,
          update-quiet (with_password user hash now) (looked (pwdreset token) now w) quiet
              (with_password-free user hash now w.users sound there)
              (role_of_row user (λ u. u.id == user.id) w.users sound there),
          delete_token-healthy doc healthy delete_token (pwdreset token) now
              (record (looked (pwdreset token) now w) {
                users = map (updated_user (with_password user hash now)) w.users;
              }),
        )
        refl
