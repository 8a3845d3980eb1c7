-- ===== src/Auth/Requests.antt =====
-- Sequences of requests to the handlers of internal/auth.
mod Keeps
pub mod Played
use go_saas_api.Common.{ℕ, String, Bool, true, not, Option, List, [], ◌∷◌, ◌==◌, string_eq}
use go_saas_api.Common.Int.{ℤ}
use go_saas_api.Common.Effect.{Result}
use go_saas_api.Auth.{Redis, Accounts, Environment}
use go_saas_api.Auth.OAuth.{Provider, Remote}
use go_saas_api.Auth.Http.{Deployment, Handler}
use go_saas_api.Auth.Handler.{
  RegisterRequest, LoginRequest, ResetRequest, Draws, handle_register, handle_login, handle_refresh,
  handle_logout, handle_forgot_password, handle_reset_password, me, update_profile,
  handle_list_users, update_user_subscription,
}
use go_saas_api.Auth.OAuthHandler.{
  CallbackRequest, provider_redirect, provider_callback, generic_callback,
}

-- The routes of `RegisterRoutes` of the three handlers, and those of the profile.
pub data Request : Type 0 where
  post_register : Draws → Result String RegisterRequest → Request
  post_login : Draws → Result String LoginRequest → Request
  post_refresh post_logout : Draws → Option String → Result String String → Request
  post_forgot_password : Draws → Result String String → Request
  post_reset_password : Draws → Result String ResetRequest → Request
  get_me : Option String → Request
  put_profile : Draws → Option String → Result String String → Request
  get_users : (limit offset : String) → Request
  post_subscription : (now : ℕ) (id : String) → Result String String → Request
  get_redirect : Provider → (state : String) (now : ℕ) → Request
  get_callback : Provider → Draws → (code state : String) → Request
  post_callback : Draws → Result String CallbackRequest → Request

-- What the program runs with.
pub record Setup : Type 0 where
  pub env : Environment
  pub dep : Deployment
  pub remote : Remote
  pub atoi : String → Option ℤ

module _ {redis : Redis} (setup : Setup) where
  unfoldable pub serve : Request → Handler redis
  serve (post_register draws body) = handle_register setup.env setup.dep draws body
  serve (post_login draws body) = handle_login setup.env setup.dep draws body
  serve (post_refresh draws cookie body) = handle_refresh setup.env setup.dep draws cookie body
  serve (post_logout draws cookie body) = handle_logout setup.env setup.dep draws cookie body
  serve (post_forgot_password draws body) = handle_forgot_password setup.env setup.dep draws body
  serve (post_reset_password draws body) = handle_reset_password setup.env setup.dep draws body
  serve (get_me user_id) = me setup.env setup.dep user_id
  serve (put_profile draws user_id body) = update_profile setup.env setup.dep draws user_id body
  serve (get_users limit offset) = handle_list_users setup.atoi limit offset
  serve (post_subscription now id body) = update_user_subscription setup.env now id body
  serve (get_redirect provider state now) =
      provider_redirect setup.env setup.dep setup.remote provider state now
  serve (get_callback provider draws code state) =
      provider_callback setup.env setup.dep setup.remote provider draws code state
  serve (post_callback draws body) = generic_callback setup.env setup.dep setup.remote draws body

  unfoldable pub play : List Request → Accounts redis → Accounts redis
  unfolding serve
  play [] w = w
  play (r ∷ rs) w = play rs (serve r w).1

-- No request draws the token as a new refresh token.
unfoldable pub draws_other : (token : String) → Request → Bool
draws_other token (post_register draws body) = not (token == draws.new_refresh)
draws_other token (post_login draws body) = not (token == draws.new_refresh)
draws_other token (post_refresh draws cookie body) = not (token == draws.new_refresh)
draws_other token (post_logout draws cookie body) = true
draws_other token (post_forgot_password draws body) = true
draws_other token (post_reset_password draws body) = true
draws_other token (get_me user_id) = true
draws_other token (put_profile draws user_id body) = true
draws_other token (get_users limit offset) = true
draws_other token (post_subscription now id body) = true
draws_other token (get_redirect provider state now) = true
draws_other token (get_callback provider draws code state) = not (token == draws.new_refresh)
draws_other token (post_callback draws body) = not (token == draws.new_refresh)
