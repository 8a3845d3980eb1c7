-- ===== src/Auth/OAuth/Once.antt =====
-- The state of an OAuth sign-in (internal/auth/oauth.go, oauth_handler.go) is good for one callback.
use go_saas_api.Common.{
  ℕ, ◌≡◌, ◌≢◌, refl, String, false, none, some, ◌==◌, string_eq, ◌⊎◌, inl, inr,
}
use go_saas_api.Common.Effect.{Result, ok, err, ◌>>=◌, attempt}
use go_saas_api.Auth.{
  User, oauth_state, Redis, Lookup, found, missing, failed, Accounts, Environment, TokenPair, Error,
  invalid_state,
}
use go_saas_api.Auth.Tokens.{Documented, validate_state}
use go_saas_api.Auth.Service.Keys.{Without}
use go_saas_api.Auth.OAuth.{Provider, google, github, Remote, handle_callback}
use go_saas_api.Auth.OAuth.States.{callback-Without}
use go_saas_api.Auth.Http.{Deployment, plain, failure, answer-err}
use go_saas_api.Auth.Handler.{Draws}
use go_saas_api.Auth.OAuthHandler.{
  CallbackRequest, callback_for, or_github, try_providers, generic_callback,
}

module _ {redis : Redis} (doc : Documented redis) (env : Environment) (remote : Remote) where
  state_missing :
      (state : String) (now : ℕ) (w : Accounts redis)
      → Without doc (oauth_state state) w
      → ((validate_state invalid_state state now w).0 ≡ ok false)
        ⊎ ((validate_state invalid_state state now w).0 ≡ err invalid_state)
  unfolding validate_state
  state_missing state now w gone = go (redis.get_del (oauth_state state) now w.kv).0 refl
    where
      go :
          (answer : Lookup)
          → (redis.get_del (oauth_state state) now w.kv).0 ≡ answer
          → ((validate_state invalid_state state now w).0 ≡ ok false)
            ⊎ ((validate_state invalid_state state now w).0 ≡ err invalid_state)
      go (found v) e =
          let held : doc.holds w.kv (oauth_state state) now ≡ some v =
            doc.get_del_found (oauth_state state) now w.kv v e in
          let lost : doc.holds w.kv (oauth_state state) now ≡ none = gone now in cc
      go missing e = inl (rw e refl)
      go failed e = inr (rw e refl)

  pub callback-refused :
      (provider : Provider) (code state : String) (id : ℕ) (jwt_id new_refresh : String) (now : ℕ)
      (w : Accounts redis)
      → Without doc (oauth_state state) w
      → (handle_callback env remote provider code state id jwt_id new_refresh now w).0
        ≡ err invalid_state
  unfolding handle_callback ◌>>=◌ attempt
  callback-refused provider code state id jwt_id new_refresh now w gone =
      elim (state_missing state now w gone) [ inl e ↦ rw e refl | inr e ↦ rw e refl ]

  -- Where Redis answered the first callback, a second one with the same state is refused.
  pub state_once :
      (first second : Provider) (code : String) (code2 : String) (state : String) (id id2 : ℕ)
      (jwt_id jwt_id2 new_refresh new_refresh2 : String) (now later : ℕ) (w : Accounts redis)
      → (redis.get_del (oauth_state state) now w.kv).0 ≢ failed
      → (handle_callback env remote second code2 state id2 jwt_id2 new_refresh2 later
          (handle_callback env remote first code state id jwt_id new_refresh now w).1).0
        ≡ err invalid_state
  unfolding validate_state
  state_once first second code code2 state id id2 jwt_id jwt_id2 new_refresh new_refresh2 now later
        w answered =
      callback-refused second code2 state id2 jwt_id2 new_refresh2 later _ (
        callback-Without doc (oauth_state state) env remote first code id jwt_id new_refresh now
          (λ e. cc e) state w (λ t. doc.get_del_done (oauth_state state) now w.kv t answered))

  module _ (dep : Deployment) where
    or_github-refused :
        (draws : Draws) (req : CallbackRequest)
        (x : Result Error (TokenPair × User) × Accounts redis) (e : Error)
        → x.0 ≡ err e
        → Without doc (oauth_state req.state) x.1
        → (or_github env dep remote draws req x).0 ≡ err invalid_state
    unfolding or_github
    or_github-refused draws req (ok entry, w) e q gone = cc
    or_github-refused draws req (err d, w) e q gone =
        callback-refused github req.code req.state draws.user_id draws.jwt_id draws.new_refresh
          draws.now w gone

    -- Where the request names no provider and Redis answers the look-up of the state, a code that
    -- Google's callback refuses is not GitHub's either: the answer is 401.
    pub generic_callback-google :
        (draws : Draws) (req : CallbackRequest) (e : Error) (w : Accounts redis)
        → (req.provider == "google") ≡ false
        → (req.provider == "github") ≡ false
        → (redis.get_del (oauth_state req.state) draws.now w.kv).0 ≢ failed
        → (callback_for env dep remote google draws req.code req.state w).0 ≡ err e
        → (generic_callback env dep remote draws (ok req) w).0
          ≡ plain (failure 401 "oauth callback failed")
    unfolding generic_callback try_providers validate_state
    generic_callback-google draws req e w not_google not_github answered refused =
        rw (not_google, not_github)
          (answer-err _ _
            (or_github env dep remote draws req
              (callback_for env dep remote google draws req.code req.state w))
            invalid_state
            (or_github-refused draws req
              (callback_for env dep remote google draws req.code req.state w) e refused
              (callback-Without doc (oauth_state req.state) env remote google req.code draws.user_id
                draws.jwt_id draws.new_refresh draws.now (λ q. cc q) req.state w
                (λ t. doc.get_del_done (oauth_state req.state) draws.now w.kv t answered))))
