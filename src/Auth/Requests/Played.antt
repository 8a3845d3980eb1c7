-- ===== src/Auth/Requests/Played.antt =====
-- What a sequence of requests keeps of the keys in Redis.
use go_saas_api.Common.{
  ℕ, ◌≡◌, refl, String, Bool, true, false, not, Option, none, some, List, [], ◌∷◌, ◌==◌, string_eq,
  Bool-cases, inl, inr, All,
}
use go_saas_api.Common.Effect.{Result, ok, err, Keeps}
use go_saas_api.Auth.{User, refresh, Redis, Accounts, Environment, TokenPair, Error}
use go_saas_api.Auth.Users.{list_users}
use go_saas_api.Auth.Tokens.{Documented}
use go_saas_api.Auth.Service.Keys.{Without, Absent, list_users-Keeps, update_user_role-Keeps}
use go_saas_api.Auth.Service.Spent.{refresh-≢}
use go_saas_api.Auth.OAuth.{Provider, google, github, Remote, get_auth_url}
use go_saas_api.Auth.OAuth.States.{handle_callback-Keeps, get_auth_url-Keeps}
use go_saas_api.Auth.Http.{Deployment}
use go_saas_api.Auth.Handler.{
  Draws, refresh_token_of, handle_refresh, handle_list_users, valid_tier, give_tier, tier_of_id,
  update_user_subscription,
}
use go_saas_api.Auth.OAuthHandler.{
  CallbackRequest, callback_for, or_github, try_providers, provider_redirect, provider_callback,
  generic_callback,
}
use go_saas_api.Auth.Requests.{
  Request, post_register, post_login, post_refresh, post_logout, post_forgot_password,
  post_reset_password, get_me, put_profile, get_users, post_subscription, get_redirect,
  get_callback, post_callback, Setup, serve, play, draws_other,
}
use go_saas_api.Auth.Requests.Keeps.{
  Gone, Stays, answer-Gone, answer-Stays, handle_register-Stays, handle_login-Stays,
  refresh_with-Stays, handle_logout-Stays, handle_forgot_password-Stays,
  handle_reset_password-Stays, me-Stays, update_profile-Stays,
}

module _ {redis : Redis} (doc : Documented redis) (token : String) where
  module _ (env : Environment) (dep : Deployment) (remote : Remote) where
    callback_for-Keeps :
        (provider : Provider) (draws : Draws) (code state : String)
        → (token == draws.new_refresh) ≡ false
        → Keeps (Gone doc token) (callback_for env dep remote provider draws code state)
    callback_for-Keeps provider draws code state differ =
        handle_callback-Keeps doc (refresh token) env remote provider code draws.user_id
          draws.jwt_id draws.new_refresh draws.now (refresh-≢ token draws.new_refresh differ) state
          (λ e. cc e)

    provider_callback-Stays :
        (provider : Provider) (draws : Draws) (code state : String)
        → (token == draws.new_refresh) ≡ false
        → Stays doc token (provider_callback env dep remote provider draws code state)
    unfolding provider_callback
    provider_callback-Stays provider draws code state differ = record {
      stay = λ w gone. elim (Bool-cases (code == "")) [
        | inl empty ↦ rw empty gone
        | inr there ↦ rw there (
            (answer-Stays doc token _ _ _
                (callback_for-Keeps provider draws code state differ)).stay
              w gone)
      ];
    }

    or_github-Gone :
        (draws : Draws) (req : CallbackRequest)
        (x : Result Error (TokenPair × User) × Accounts redis)
        → (token == draws.new_refresh) ≡ false
        → Gone doc token x.1
        → Gone doc token (or_github env dep remote draws req x).1
    unfolding or_github
    or_github-Gone draws req (ok entry, w) differ gone = gone
    or_github-Gone draws req (err e, w) differ gone =
        (callback_for-Keeps github draws req.code req.state differ).at w gone

    try_providers-Keeps :
        (draws : Draws) (req : CallbackRequest)
        → (token == draws.new_refresh) ≡ false
        → Keeps (Gone doc token) (try_providers env dep remote draws req)
    unfolding try_providers
    try_providers-Keeps draws req differ = record {
      at = λ w gone. elim (Bool-cases (req.provider == "google")) [
        | inl is_google ↦
            rw is_google ((callback_for-Keeps google draws req.code req.state differ).at w gone)
        | inr not_google ↦ elim (Bool-cases (req.provider == "github")) [
          | inl is_github ↦
              rw (not_google, is_github)
                ((callback_for-Keeps github draws req.code req.state differ).at w gone)
          | inr not_github ↦
              rw (not_google, not_github)
                (or_github-Gone draws req _ differ
                  ((callback_for-Keeps google draws req.code req.state differ).at w gone))
        ]
      ];
    }

    generic_callback-Stays :
        (draws : Draws) (body : Result String CallbackRequest)
        → (token == draws.new_refresh) ≡ false
        → Stays doc token (generic_callback env dep remote draws body)
    unfolding generic_callback
    generic_callback-Stays draws (err cause) differ = record { stay = λ w gone. gone }
    generic_callback-Stays draws (ok req) differ =
        answer-Stays doc token _ _ _ (try_providers-Keeps draws req differ)

  subscription-Stays :
      (env : Environment) (now : ℕ) (id : Option ℕ) (body : Result String String)
      → Stays doc token (tier_of_id env now body id)
  unfolding give_tier
  subscription-Stays env now none body = record { stay = λ w gone. gone }
  subscription-Stays env now (some id) (err cause) = record { stay = λ w gone. gone }
  subscription-Stays env now (some id) (ok name) = record {
    stay = λ w gone. elim (Bool-cases (valid_tier name)) [
      | inl valid ↦ rw valid (
          (answer-Stays doc token _ _ _
              (update_user_role-Keeps (Absent doc (refresh token)) id name now)).stay
            w gone)
      | inr invalid ↦ rw invalid gone
    ];
  }

  other_of : (b : Bool) → not b ≡ true → b ≡ false
  other_of true e = cc
  other_of false e = refl

  module _ (setup : Setup) where
    serve-Stays : (r : Request) → draws_other token r ≡ true → Stays doc token (serve setup r)
    unfolding serve draws_other handle_refresh handle_list_users update_user_subscription
        provider_redirect
    serve-Stays (post_register draws body) other =
        handle_register-Stays doc token _ _ draws body (other_of _ other)
    serve-Stays (post_login draws body) other =
        handle_login-Stays doc token _ _ draws body (other_of _ other)
    serve-Stays (post_refresh draws cookie body) other = record {
      stay = λ w gone.
          (refresh_with-Stays doc token setup.env setup.dep draws (refresh_token_of cookie body)
              (other_of _ other)).stay
            w gone;
    }
    serve-Stays (post_logout draws cookie body) other =
        handle_logout-Stays doc token _ _ draws cookie body
    serve-Stays (post_forgot_password draws body) other =
        handle_forgot_password-Stays doc token _ _ draws body
    serve-Stays (post_reset_password draws body) other =
        handle_reset_password-Stays doc token _ _ draws body
    serve-Stays (get_me user_id) other = me-Stays doc token _ _ user_id
    serve-Stays (put_profile draws user_id body) other =
        update_profile-Stays doc token _ _ draws user_id body
    serve-Stays (get_users limit offset) other = record {
      stay = λ w gone.
          answer-Gone doc token _ _ (list_users _ _ w)
            ((list_users-Keeps (Absent doc (refresh token)) _ _).at w gone);
    }
    serve-Stays (post_subscription now id body) other =
        subscription-Stays setup.env now (setup.env.parse_uuid id) body
    serve-Stays (get_redirect provider state now) other = record {
      stay = λ w gone. answer-Gone doc token _ _ (get_auth_url setup.remote provider state now w) (
          (get_auth_url-Keeps doc (refresh token) setup.remote provider state now (λ e. cc e)).at w
            gone);
    }
    serve-Stays (get_callback provider draws code state) other =
        provider_callback-Stays _ _ _ provider draws code state (other_of _ other)
    serve-Stays (post_callback draws body) other =
        generic_callback-Stays _ _ _ draws body (other_of _ other)

    pub play-Without :
        (rs : List Request) (w : Accounts redis)
        → All (λ r. draws_other token r ≡ true) rs
        → Without doc (refresh token) w
        → Without doc (refresh token) (play setup rs w)
    unfolding play
    play-Without [] w all gone = gone
    play-Without (r ∷ rs) w (other, all) gone =
        play-Without rs _ all ((serve-Stays r other).stay w gone)
