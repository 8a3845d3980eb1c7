-- ===== src/Auth/Answers.antt =====
-- What the answers of internal/auth (handler.go, admin_handler.go) tell.
use go_saas_api.Common.{
  ℕ, ◌≡◌, refl, sym, ap, ◌∙◌, String, Bool, true, false, Option, none, some, [], map, ◌==◌, nat_eq,
  string_eq, find_by, any_by, if◌then◌else◌, Bool-cases, Option-cases, inl, inr,
}
use go_saas_api.Common.Effect.{ok, ◌>>=◌, map_error}
use go_saas_api.Auth.{User, Redis, Accounts, Environment}
use go_saas_api.Auth.Users.{
  role_allowed, set_role, change_role, update_user_role, query, write, written, get_by_email, read,
  picked,
}
use go_saas_api.Auth.Service.{login, check_password}
use go_saas_api.Auth.Http.{plain, success, failure, tier}
use go_saas_api.Auth.Handler.{
  LoginRequest, Draws, valid_tier, give_tier, update_user_subscription, handle_login,
}
use go_saas_api.Auth.Requests.{post_login, post_subscription, Setup, serve}

-- The user that a login finds has the password.
abbrev pub knows : Environment → LoginRequest → Option User → Bool
knows env req none = false
knows env req (some user) = env.compare_password user.password_hash req.password

module _ {redis : Redis} (setup : Setup) where
  -- A login whose email has no account, or an account with another password, is answered in one and
  -- the same way, and changes nothing, where the database does not fail.
  pub login-silent :
      (draws : Draws) (req : LoginRequest) (w : Accounts redis)
      → w.faults ≡ []
      → knows setup.env req (find_by (λ u. u.email == req.email) w.users) ≡ false
      → serve setup (post_login draws (ok req)) w ≡ (plain (failure 401 "invalid credentials"), w)
  unfolding serve handle_login login ◌>>=◌ map_error get_by_email query read picked check_password
  login-silent draws req w quiet wrong =
      elim (Option-cases (find_by (λ u. u.email == req.email) w.users)) [
        | inl absent ↦ rw (quiet, absent) refl
        | inr (user, there) ↦
            let mismatch : setup.env.compare_password user.password_hash req.password ≡ false =
              ap (knows setup.env req) (sym there) ∙ wrong in
            rw (quiet, there, mismatch) refl
      ]

  -- A tier that the handler lets through is given to an existing user where the table has it among
  -- its roles, and is a server error that changes nothing where not.
  post_subscription-role :
      (now id : ℕ) (text name : String) (w : Accounts redis)
      → w.faults ≡ []
      → setup.env.parse_uuid text ≡ some id
      → valid_tier name ≡ true
      → any_by (λ u. u.id == id) w.users ≡ true
      → serve setup (post_subscription now text (ok name)) w ≡ (
          if role_allowed name
          then (
            plain (success (tier name) "user subscription updated"),
            record w { users = map (set_role id name now) w.users },
          )
          else (plain (failure 500 "failed to update user subscription"), w))
  unfolding serve update_user_subscription give_tier update_user_role query write written
      change_role
  post_subscription-role now id text name w quiet parsed valid there =
      elim (Bool-cases (role_allowed name)) [
        | inl fine ↦ rw (parsed, valid, quiet, there, fine) refl
        | inr unknown ↦ rw (parsed, valid, quiet, there, unknown) refl
      ]
