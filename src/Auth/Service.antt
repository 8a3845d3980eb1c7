-- ===== src/Auth/Service.antt =====
-- `Service` of internal/auth/service.go, with `GenerateToken` of pkg/jwt/jwt.go. New UUIDs, the
-- salt of bcrypt and the random bytes of a reset token are arguments, and so is the time.
pub mod Keys
pub mod Spent
pub mod Healthy
pub mod SignIn
use go_saas_api.Common.{
  ℕ, ◌+◌, String, Bool, true, false, Option, none, some, List, [], ◌∷◌, ◌++◌, if◌then◌else◌,
}
use go_saas_api.Common.Effect.{
  Result, ok, err, M, ◌>>=◌, ◌>>◌, pure, fail, some_or, map_error, attempt,
}
use go_saas_api.Auth.{
  User, Key, refresh, pwdreset, Redis, Mail, Accounts, TokenClaims, Environment, TokenPair, DbError,
  Error, invalid_credentials, user_exists, invalid_token, invalid_reset_token, hash_password,
  create_user, generate_access_token, save_refresh_token, generate_reset_token, save_reset_token,
  send_email, update_password, delete_token,
}
use go_saas_api.Auth.Users.{create, get_by_id, get_by_email, update}
use go_saas_api.Auth.Tokens.{save_token, get_token, delete_token as delete_key}

-- `existing, err := …; if err == nil && existing != nil`
abbrev pub refuse_existing : {S : Type 0} → Result DbError User → M S Error (Unit {0})
refuse_existing (ok user) = fail user_exists
refuse_existing (err e) = pure tt

abbrev pub new_user : (email password_hash name : String) (id now : ℕ) → User
new_user email password_hash name id now = record {
  id = id;
  email = email;
  password_hash = password_hash;
  name = name;
  role = "registered";
  is_admin = false;
  messages_used_this_month = 0;
  oauth_provider = "";
  oauth_subject = "";
  created_at = now;
  updated_at = now;
}

module _ (env : Environment) where
  unfoldable pub generate_token :
      (user_id role : String) (duration now : ℕ) (id : String) → Option String
  generate_token user_id role duration now id = env.sign (record {
    uid = user_id;
    role = role;
    subject = user_id;
    issued_at = now;
    expires_at = now + duration;
    not_before = now;
    id = id;
  })

  module _ {redis : Redis} where
    unfoldable pub generate_token_pair :
        User → (jwt_id new_refresh : String) (now : ℕ) → M (Accounts redis) Error TokenPair
    unfolding generate_token
    generate_token_pair user jwt_id new_refresh now = do
      access ←
          some_or generate_access_token
            (generate_token (env.format_uuid user.id) user.role env.access_ttl now jwt_id)
      save_token save_refresh_token (refresh new_refresh) (env.format_uuid user.id) env.refresh_ttl
          now
      pure (record {
        access_token = access;
        refresh_token = new_refresh;
        expires_in = env.access_ttl;
      })

    unfoldable pub register :
        (email password name salt : String) (id now : ℕ) → M (Accounts redis) Error User
    register email password name salt id now = do
      existing ← attempt (get_by_email email)
      refuse_existing existing
      hash ← some_or hash_password (env.hash_password password salt)
      let user = new_user email hash name id now
      map_error (λ _. create_user) (create user)
      pure user

    unfoldable pub check_password : User → (password : String) → M (Accounts redis) Error (Unit {0})
    check_password user password =
        if env.compare_password user.password_hash password
        then pure tt
        else fail invalid_credentials

    unfoldable pub login :
        (email password jwt_id new_refresh : String) (now : ℕ)
        → M (Accounts redis) Error (TokenPair × User)
    unfolding check_password generate_token_pair
    login email password jwt_id new_refresh now = do
      user ← map_error (λ _. invalid_credentials) (get_by_email email)
      check_password user password
      pair ← generate_token_pair user jwt_id new_refresh now
      pure (pair, user)

    unfoldable pub refresh_tokens :
        (token jwt_id new_refresh : String) (now : ℕ) → M (Accounts redis) Error (TokenPair × User)
    unfolding generate_token_pair
    refresh_tokens token jwt_id new_refresh now = do
      user_id ← get_token invalid_token (refresh token) now
      id ← some_or invalid_token (env.parse_uuid user_id)
      user ← map_error (λ _. invalid_token) (get_by_id id)
      attempt {E = Error} (delete_key delete_token (refresh token) now)
      pair ← generate_token_pair user jwt_id new_refresh now
      pure (pair, user)

    unfoldable pub logout : (token : String) (now : ℕ) → M (Accounts redis) Error (Unit {0})
    logout token now = delete_key delete_token (refresh token) now

    -- `random` is the hex text of 32 random bytes, if they could be read.
    unfoldable pub send_reset : Mail → M (Accounts redis) Error (Unit {0})
    send_reset mail w =
        if env.send_password_reset mail
        then (ok tt, record w { mails = w.mails ++ mail ∷ [] })
        else (err send_email, w)

    unfoldable pub request_for :
        Result DbError User
        → (random : Option String) (now : ℕ) → M (Accounts redis) Error (Unit {0})
    unfolding send_reset
    request_for (err e) random now = pure tt
    request_for (ok user) random now = do
      token ← some_or generate_reset_token random
      save_token save_reset_token (pwdreset token) (env.format_uuid user.id) env.reset_token_ttl now
      send_reset (record { to = user.email; reset_token = token })

    unfoldable pub request_password_reset :
        (email : String) (random : Option String) (now : ℕ) → M (Accounts redis) Error (Unit {0})
    unfolding request_for
    request_password_reset email random now = do
      user ← attempt (get_by_email email)
      request_for user random now

    unfoldable pub reset_password :
        (token new_password salt : String) (now : ℕ) → M (Accounts redis) Error (Unit {0})
    reset_password token new_password salt now = do
      user_id ← get_token invalid_reset_token (pwdreset token) now
      id ← some_or invalid_reset_token (env.parse_uuid user_id)
      user ← map_error (λ _. invalid_reset_token) (get_by_id id)
      hash ← some_or hash_password (env.hash_password new_password salt)
      map_error (λ _. update_password)
          (update (record user { password_hash = hash; updated_at = now }))
      attempt {E = Error} (delete_key delete_token (pwdreset token) now)
      pure tt
