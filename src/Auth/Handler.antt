-- ===== src/Auth/Handler.antt =====
-- `Handler` of internal/auth/handler.go and `AdminHandler` of admin_handler.go. The body of a
-- request comes bound to its form, or as the text of the error of the binding. uuid.Parse and
-- strconv.Atoi are parameters.
use go_saas_api.Common.{
  ℕ, suc, String, Bool, ◌||◌, not, Option, none, some, ◌==◌, string_eq, if◌then◌else◌, map,
}
use go_saas_api.Common.Int.{ℤ, pos, negsuc}
use go_saas_api.Common.Effect.{Result, ok, err}
use go_saas_api.Auth.{
  User, Redis, Accounts, Environment, DbError, Error, invalid_credentials, user_exists,
  invalid_reset_token,
}
use go_saas_api.Auth.Users.{get_by_id, update, list_users, update_user_role}
use go_saas_api.Auth.Service.{
  register, login, refresh_tokens, logout, request_password_reset, reset_password,
}
use go_saas_api.Auth.Http.{
  Deployment, empty, account, accounts, tier, response_of, success, failure, Response, plain,
  Handler, clear_auth_cookies, signed_in, answer,
}

pub record RegisterRequest : Type 0 where
  pub email : String
  pub password : String
  pub name : String

pub record LoginRequest : Type 0 where
  pub email : String
  pub password : String

pub record ResetRequest : Type 0 where
  pub token : String
  pub new_password : String

-- The new UUIDs and random texts of one request, and its time.
pub record Draws : Type 0 where
  pub user_id : ℕ
  pub jwt_id : String
  pub new_refresh : String
  pub salt : String
  pub random : Option String
  pub now : ℕ

abbrev pub bad_request : String → Response
bad_request message = plain (failure 400 message)

abbrev register_error : Error → Response
register_error user_exists = plain (failure 409 "user already exists")
register_error e = plain (failure 500 "registration failed")

abbrev login_error : Error → Response
login_error invalid_credentials = plain (failure 401 "invalid credentials")
login_error e = plain (failure 500 "login failed")

abbrev pub reset_error : Error → Response
reset_error invalid_reset_token = plain (failure 400 "invalid or expired reset token")
reset_error e = plain (failure 500 "password reset failed")

-- The refresh token of a request: the cookie, or else the body.
unfoldable pub refresh_token_of : Option String → Result String String → Result String String
refresh_token_of none body = body
refresh_token_of (some cookie) body = if cookie == "" then body else ok cookie

-- The token to give up; an unreadable body counts as none.
abbrev token_or_none : Result String String → String
token_or_none (ok token) = token
token_or_none (err e) = ""

unfoldable pub renamed : User → (name : String) (now : ℕ) → User
renamed user name now = record user {
  name = if not (name == "") then name else user.name;
  updated_at = now;
}

module _ {redis : Redis} (env : Environment) (dep : Deployment) where
  -- The sign-in after a registration.
  unfoldable pub registered :
      Draws → RegisterRequest → Result Error User × Accounts redis → Response × Accounts redis
  unfolding signed_in
  registered draws req (err e, w) = (register_error e, w)
  registered draws req (ok user, w) =
      answer (λ e. plain (success (account user) "registered successfully"))
        (λ entry. signed_in dep "registered successfully" (entry.0, user))
        (login env req.email req.password draws.jwt_id draws.new_refresh draws.now w)

  unfoldable pub handle_register : Draws → Result String RegisterRequest → Handler redis
  unfolding registered
  handle_register draws (err cause) w = (bad_request cause, w)
  handle_register draws (ok req) w =
      registered draws req
        (register env req.email req.password req.name draws.salt draws.user_id draws.now w)

  unfoldable pub handle_login : Draws → Result String LoginRequest → Handler redis
  unfolding signed_in
  handle_login draws (err cause) w = (bad_request cause, w)
  handle_login draws (ok req) w =
      answer login_error (signed_in dep "login successful")
        (login env req.email req.password draws.jwt_id draws.new_refresh draws.now w)

  unfoldable pub refresh_with : Draws → Result String String → Handler redis
  unfolding signed_in
  refresh_with draws (err cause) w = (bad_request cause, w)
  refresh_with draws (ok token) w =
      answer (λ e. plain (failure 401 "invalid refresh token")) (signed_in dep "token refreshed")
        (refresh_tokens env token draws.jwt_id draws.new_refresh draws.now w)

  unfoldable pub handle_refresh :
      Draws → (cookie : Option String) (body : Result String String) → Handler redis
  unfolding refresh_with refresh_token_of
  handle_refresh draws cookie body = refresh_with draws (refresh_token_of cookie body)

  -- The state after the token was given up, if there is one; errors are only logged.
  unfoldable pub end_session : (token : String) (now : ℕ) → Accounts redis → Accounts redis
  end_session token now w = if not (token == "") then (logout env token now w).1 else w

  unfoldable pub handle_logout :
      Draws → (cookie : Option String) (body : Result String String) → Handler redis
  unfolding end_session refresh_token_of clear_auth_cookies
  handle_logout draws cookie body w = (
    record { cookies = clear_auth_cookies dep; outcome = success empty "logged out" },
    end_session (token_or_none (refresh_token_of cookie body)) draws.now w,
  )

  unfoldable pub handle_forgot_password : Draws → Result String String → Handler redis
  handle_forgot_password draws (err cause) w = (bad_request cause, w)
  handle_forgot_password draws (ok email) w = (
    plain (success empty "if the email exists, a reset link has been sent"),
    (request_password_reset env email draws.random draws.now w).1,
  )

  unfoldable pub handle_reset_password : Draws → Result String ResetRequest → Handler redis
  handle_reset_password draws (err cause) w = (bad_request cause, w)
  handle_reset_password draws (ok req) w =
      answer reset_error (λ _. plain (success empty "password reset successful"))
        (reset_password env req.token req.new_password draws.salt draws.now w)

  abbrev pub with_id : (ℕ → Handler redis) → Option ℕ → Handler redis
  with_id next none w = (plain (failure 401 "invalid user"), w)
  with_id next (some id) w = next id w

  abbrev pub behind :
      (User → Handler redis) → Result DbError User × Accounts redis → Response × Accounts redis
  behind next (err e, w) = (plain (failure 404 "user not found"), w)
  behind next (ok user, w) = next user w

  -- The user of the middleware's `user_id`.
  unfoldable pub with_user : Option String → (User → Handler redis) → Handler redis
  with_user none next w = (plain (failure 401 "unauthorized"), w)
  with_user (some text) next w =
      with_id (λ id v. behind next (get_by_id id v)) (env.parse_uuid text) w

  unfoldable pub me : Option String → Handler redis
  unfolding with_user
  me user_id = with_user user_id λ user w. (plain (success (account user) "user profile"), w)

  unfoldable pub store_profile : User → Draws → Result String String → Handler redis
  unfolding renamed
  store_profile user draws (err cause) w = (bad_request cause, w)
  store_profile user draws (ok name) w =
      answer (λ e. plain (failure 500 "failed to update profile"))
        (λ _. plain (success (account (renamed user name draws.now)) "profile updated"))
        (update (renamed user name draws.now) w)

  unfoldable pub update_profile : Draws → Option String → Result String String → Handler redis
  unfolding with_user store_profile
  update_profile draws user_id name = with_user user_id λ user. store_profile user draws name

abbrev positive_or : ℤ → Option ℤ → ℤ
positive_or default none = default
positive_or default (some (pos ℕ.zero)) = default
positive_or default (some (pos (suc n))) = pos (suc n)
positive_or default (some (negsuc n)) = default

abbrev natural_or : ℕ → Option ℤ → ℕ
natural_or default none = default
natural_or default (some (pos n)) = n
natural_or default (some (negsuc n)) = default

-- The tiers that an administrator can give.
unfoldable pub valid_tier : String → Bool
valid_tier name =
    name == "free"
    || name == "registered"
    || name == "premium"
    || name == "admin"
    || name == "super_admin"

module _ {redis : Redis} (atoi : String → Option ℤ) where
  -- `ListUsers`: parameters are "" where the query has none.
  unfoldable pub handle_list_users : (limit offset : String) → Handler redis
  handle_list_users limit offset w =
      answer (λ e. plain (failure 500 "failed to list users"))
        (λ rows. plain (success (accounts (map response_of rows)) "users retrieved"))
        (list_users (if not (limit == "") then positive_or (pos 100) (atoi limit) else pos 100)
          (if not (offset == "") then natural_or 0 (atoi offset) else 0) w)

module _ {redis : Redis} (env : Environment) where
  unfoldable pub give_tier : (id now : ℕ) → Result String String → Handler redis
  unfolding valid_tier
  give_tier id now (err cause) w = (bad_request cause, w)
  give_tier id now (ok name) w =
      if not (valid_tier name)
      then (plain (failure 400 "invalid tier"), w)
      else answer (λ e. plain (failure 500 "failed to update user subscription"))
          (λ _. plain (success (tier name) "user subscription updated"))
          (update_user_role id name now w)

  abbrev pub tier_of_id : (now : ℕ) → Result String String → Option ℕ → Handler redis
  unfolding give_tier
  tier_of_id now body none w = (plain (failure 400 "invalid user id"), w)
  tier_of_id now body (some id) w = give_tier id now body w

  unfoldable pub update_user_subscription :
      (now : ℕ) → (id : String) → Result String String → Handler redis
  unfolding give_tier
  update_user_subscription now id body = tier_of_id now body (env.parse_uuid id)
