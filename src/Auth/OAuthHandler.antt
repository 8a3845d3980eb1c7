-- ===== src/Auth/OAuthHandler.antt =====
-- `OAuthHandler` of internal/auth/oauth_handler.go.
use go_saas_api.Common.{ℕ, String, ◌==◌, string_eq, if◌then◌else◌}
use go_saas_api.Common.Effect.{Result, ok, err, M}
use go_saas_api.Auth.{User, Redis, Accounts, Environment, TokenPair, Error}
use go_saas_api.Auth.OAuth.{Provider, google, github, Remote, get_auth_url, handle_callback}
use go_saas_api.Auth.Http.{
  Deployment, failure, redirect, Response, plain, Handler, set_auth_cookies, signed_in, answer,
}
use go_saas_api.Auth.Handler.{Draws, bad_request}

pub record CallbackRequest : Type 0 where
  pub code : String
  pub state : String
  pub provider : String

-- Where a user goes after the sign-in.
abbrev frontend_of : Deployment → String
frontend_of dep = if dep.frontend_url == "" then "http://localhost:5173" else dep.frontend_url

-- `setAuthCookies` and the redirect to the frontend.
unfoldable pub welcomed : Deployment → TokenPair × User → Response
unfolding set_auth_cookies
welcomed dep (pair, user) = record {
  cookies = set_auth_cookies dep pair;
  outcome = redirect (frontend_of dep);
}

module _ {redis : Redis} (env : Environment) (dep : Deployment) (remote : Remote) where
  -- `GoogleRedirect` and `GitHubRedirect`; the new state is an argument.
  unfoldable pub provider_redirect : Provider → (state : String) (now : ℕ) → Handler redis
  provider_redirect provider state now w =
      answer (λ e. plain (failure 500 "oauth failed")) (λ url. plain (redirect url))
        (get_auth_url remote provider state now w)

  abbrev pub callback_for :
      Provider → Draws → (code state : String) → M (Accounts redis) Error (TokenPair × User)
  callback_for provider draws code state =
      handle_callback env remote provider code state draws.user_id draws.jwt_id draws.new_refresh
        draws.now

  -- `GoogleCallback` and `GitHubCallback`; the message of the former goes on with the error's text.
  unfoldable pub provider_callback : Provider → Draws → (code state : String) → Handler redis
  unfolding welcomed
  provider_callback provider draws code state w =
      if code == ""
      then (plain (failure 400 "missing code"), w)
      else answer (λ e. plain (failure 401 "oauth callback failed")) (welcomed dep)
          (callback_for provider draws code state w)

  -- Google's result, or else GitHub's.
  unfoldable pub or_github :
      Draws
      → CallbackRequest
      → Result Error (TokenPair × User) × Accounts redis
      → Result Error (TokenPair × User) × Accounts redis
  or_github draws req (ok entry, w) = (ok entry, w)
  or_github draws req (err e, w) = callback_for github draws req.code req.state w

  -- The switch on the provider's hint.
  unfoldable pub try_providers :
      Draws → CallbackRequest → M (Accounts redis) Error (TokenPair × User)
  unfolding or_github
  try_providers draws req w =
      if req.provider == "google"
      then callback_for google draws req.code req.state w
      else if req.provider == "github"
      then callback_for github draws req.code req.state w
      else or_github draws req (callback_for google draws req.code req.state w)

  unfoldable pub generic_callback : Draws → Result String CallbackRequest → Handler redis
  unfolding try_providers signed_in
  generic_callback draws (err cause) w = (bad_request cause, w)
  generic_callback draws (ok req) w =
      answer (λ e. plain (failure 401 "oauth callback failed"))
        (signed_in dep "oauth login successful") (try_providers draws req w)
