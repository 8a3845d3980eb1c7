-- ===== src/Auth/OAuth.antt =====
-- `OAuthService` of internal/auth/oauth.go: sign-in with Google and with GitHub. The exchange of a
-- code, the GET requests with a bearer token, the decoding of their bodies and the decimal text of
-- a GitHub id are parameters.
pub mod States
pub mod Once
use go_saas_api.Common.{
  ℕ, String, Bool, true, false, ◌&&◌, Option, none, some, List, [], ◌∷◌, ◌==◌, nat_eq, string_eq,
  if◌then◌else◌, find_by,
}
use go_saas_api.Common.Int.{ℤ}
use go_saas_api.Common.Effect.{
  Result, ok, err, M, ◌>>=◌, ◌>>◌, pure, fail, some_or, map_error, attempt,
}
use go_saas_api.Auth.{
  User, refresh, Redis, Accounts, Environment, TokenPair, DbError, Error, create_user,
  generate_access_token, save_refresh_token, save_state, invalid_state, exchange_code,
  fetch_user_info,
}
use go_saas_api.Auth.Users.{create, get_by_oauth}
use go_saas_api.Auth.Tokens.{save_token, save_state as store_state, validate_state}
use go_saas_api.Auth.Service.{generate_token}

pub data Provider : Type 0 where
  google github : Provider

abbrev pub provider_name : Provider → String
provider_name google = "google"
provider_name github = "github"

pub record GoogleUserInfo : Type 0 where
  pub id : String
  pub email : String
  pub name : String

pub record GithubUserInfo : Type 0 where
  pub id : ℤ
  pub login : String
  pub email : String
  pub name : String

pub record GithubEmail : Type 0 where
  pub email : String
  pub primary : Bool
  pub verified : Bool

pub record HttpReply : Type 0 where
  pub status : ℕ
  pub body : String

-- What the service calls outside: `fetch url token` is a GET with the bearer token.
pub record Remote : Type 0 where
  pub auth_code_url : Provider → (state : String) → String
  pub exchange : Provider → (code : String) → Option String
  pub fetch : (url access_token : String) → Option HttpReply
  pub decode_google : String → Option GoogleUserInfo
  pub decode_github : String → Option GithubUserInfo
  pub decode_emails : String → Option (List GithubEmail)
  pub format_id : ℤ → String

-- What a sign-in needs of a user.
pub record Identity : Type 0 where
  pub subject : String
  pub email : String
  pub name : String

-- `if resp.StatusCode != http.StatusOK { return … }`, then the decoding of the body.
abbrev decode_reply : {A : Type 0} → (String → Option A) → Option HttpReply → Option A
decode_reply decode none = none
decode_reply decode (some reply) = if reply.status == 200 then decode reply.body else none

abbrev or_first : List GithubEmail → Option GithubEmail
or_first [] = none
or_first (e ∷ emails) = some e

abbrev or_else : {A : Type 0} → Option A → Option A → Option A
or_else (some a) other = some a
or_else none other = other

-- The three passes over the addresses of a GitHub account.
unfoldable pub primary_email : List GithubEmail → Option GithubEmail
primary_email emails =
    or_else (find_by (λ e. e.primary && e.verified) emails)
      (or_else (find_by (λ e. e.primary) emails) (or_first emails))

abbrev email_of : Option GithubEmail → Option String
email_of none = none
email_of (some e) = some e.email

abbrev address_of : Option (List GithubEmail) → Option String
address_of none = none
address_of (some emails) = email_of (primary_email emails)

abbrev with_email : GithubUserInfo → Option String → GithubUserInfo
with_email info none = info
with_email info (some email) = record info { email = email }

abbrev with_name : GithubUserInfo → GithubUserInfo
with_name info = if info.name == "" then record info { name = info.login } else info

module _ (remote : Remote) where
  unfoldable pub fetch_google_user_info : (access_token : String) → Option GoogleUserInfo
  fetch_google_user_info access_token =
      decode_reply remote.decode_google
        (remote.fetch "https://www.googleapis.com/oauth2/v2/userinfo" access_token)

  unfoldable pub fetch_github_primary_email : (access_token : String) → Option String
  unfolding primary_email
  fetch_github_primary_email access_token = address_of (
      decode_reply remote.decode_emails
        (remote.fetch "https://api.github.com/user/emails" access_token))

  abbrev completed : (access_token : String) → GithubUserInfo → GithubUserInfo
  unfolding fetch_github_primary_email
  completed access_token info =
      with_name (
        if info.email == ""
        then with_email info (fetch_github_primary_email access_token)
        else info)

  abbrev completed_if : (access_token : String) → Option GithubUserInfo → Option GithubUserInfo
  unfolding fetch_github_primary_email
  completed_if access_token none = none
  completed_if access_token (some info) = some (completed access_token info)

  unfoldable pub fetch_github_user_info : (access_token : String) → Option GithubUserInfo
  unfolding fetch_github_primary_email
  fetch_github_user_info access_token =
      completed_if access_token (
        decode_reply remote.decode_github (remote.fetch "https://api.github.com/user" access_token))

  abbrev google_identity : Option GoogleUserInfo → Option Identity
  google_identity none = none
  google_identity (some info) =
      some (record { subject = info.id; email = info.email; name = info.name })

  abbrev github_identity : Option GithubUserInfo → Option Identity
  github_identity none = none
  github_identity (some info) =
      some (record { subject = remote.format_id info.id; email = info.email; name = info.name })

  -- The user behind an access token.
  unfoldable pub fetch_identity : Provider → (access_token : String) → Option Identity
  unfolding fetch_google_user_info fetch_github_user_info
  fetch_identity google access_token = google_identity (fetch_google_user_info access_token)
  fetch_identity github access_token = github_identity (fetch_github_user_info access_token)

abbrev pub new_oauth_user : Provider → Identity → (id now : ℕ) → User
new_oauth_user provider identity id now = record {
  id = id;
  email = identity.email;
  password_hash = "";
  name = identity.name;
  role = "registered";
  is_admin = false;
  messages_used_this_month = 0;
  oauth_provider = provider_name provider;
  oauth_subject = identity.subject;
  created_at = now;
  updated_at = now;
}

-- `if err != nil || !valid`
abbrev checked_state : {S : Type 0} → Result Error Bool → M S Error (Unit {0})
checked_state (err e) = fail invalid_state
checked_state (ok false) = fail invalid_state
checked_state (ok true) = pure tt

module _ {redis : Redis} where
  -- `GetGoogleAuthURL` and `GetGitHubAuthURL`; the new state is an argument.
  unfoldable pub get_auth_url :
      Remote → Provider → (state : String) (now : ℕ) → M (Accounts redis) Error String
  get_auth_url remote provider state now = do
    store_state save_state state 300 now
    pure (remote.auth_code_url provider state)

  -- The user of the callback, or a new row where the table has none (or does not answer).
  unfoldable pub existing_or_new : User → Result DbError User → M (Accounts redis) Error User
  existing_or_new user (ok old) = pure old
  existing_or_new user (err e) = do map_error (λ _. create_user) (create user); pure user

  module _ (env : Environment) where
    unfoldable pub generate_oauth_token_pair :
        User → (jwt_id new_refresh : String) (now : ℕ) → M (Accounts redis) Error TokenPair
    unfolding generate_token
    generate_oauth_token_pair user jwt_id new_refresh now = do
      access ←
          some_or generate_access_token
            (generate_token env (env.format_uuid user.id) user.role env.access_ttl now jwt_id)
      save_token save_refresh_token (refresh new_refresh) (env.format_uuid user.id) env.refresh_ttl
          now
      pure (record {
        access_token = access;
        refresh_token = new_refresh;
        expires_in = env.access_ttl;
      })

    unfoldable pub find_or_create_oauth_user :
        Provider
        → Identity
        → (id : ℕ) (jwt_id new_refresh : String) (now : ℕ)
        → M (Accounts redis) Error (TokenPair × User)
    unfolding existing_or_new generate_oauth_token_pair
    find_or_create_oauth_user provider identity id jwt_id new_refresh now = do
      known ← attempt (get_by_oauth (provider_name provider) identity.subject)
      user ← existing_or_new (new_oauth_user provider identity id now) known
      pair ← generate_oauth_token_pair user jwt_id new_refresh now
      pure (pair, user)

    -- `HandleGoogleCallback` and `HandleGitHubCallback`
    unfoldable pub handle_callback :
        Remote
        → Provider
        → (code state : String) (id : ℕ) (jwt_id new_refresh : String) (now : ℕ)
        → M (Accounts redis) Error (TokenPair × User)
    unfolding find_or_create_oauth_user fetch_identity
    handle_callback remote provider code state id jwt_id new_refresh now = do
      valid ← attempt (validate_state invalid_state state now)
      checked_state valid
      access ← some_or exchange_code (remote.exchange provider code)
      identity ← some_or fetch_user_info (fetch_identity remote provider access)
      find_or_create_oauth_user provider identity id jwt_id new_refresh now
