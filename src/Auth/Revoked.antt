-- ===== src/Auth/Revoked.antt =====
-- Refresh tokens that were given up (internal/auth/handler.go, service.go), among other requests.
use go_saas_api.Common.{ℕ, ◌≡◌, String, true, false, Option, List, ◌∷◌, ◌==◌, string_eq, All}
use go_saas_api.Common.Effect.{
  Result, ok, err, attempt, >>=-ok, >>=-err, some_or, map_error, Keeps-bind, Keeps-pure,
}
use go_saas_api.Auth.{
  User, refresh, Redis, Accounts, Environment, TokenPair, Error, invalid_token, delete_token,
}
use go_saas_api.Auth.Users.{get_by_id}
use go_saas_api.Auth.Tokens.{Documented, get_token, delete_token as delete_key}
use go_saas_api.Auth.Service.{refresh_tokens, logout}
use go_saas_api.Auth.Service.Keys.{Without, get_token-missing}
use go_saas_api.Auth.Service.Spent.{generate_token_pair-Keeps}
use go_saas_api.Auth.Http.{plain, failure, answer-err, answer-state, signed_in}
use go_saas_api.Auth.Handler.{
  Draws, refresh_token_of, refresh_with, end_session, handle_logout, handle_refresh,
}
use go_saas_api.Auth.Requests.{Request, post_refresh, post_logout, Setup, serve, play, draws_other}
use go_saas_api.Auth.Requests.Played.{play-Without}

module _ {redis : Redis} (doc : Documented redis) (token : String) where
  refresh_tokens-refused :
      (env : Environment) (jwt_id new_refresh : String) (now : ℕ) (w : Accounts redis)
      → Without doc (refresh token) w
      → (refresh_tokens env token jwt_id new_refresh now w).0 ≡ err invalid_token
  unfolding refresh_tokens
  refresh_tokens-refused env jwt_id new_refresh now w gone =
      >>=-err (get_token invalid_token (refresh token) now) _ w invalid_token
        (get_token-missing doc (refresh token) invalid_token now w (gone now))

  refresh-refused :
      (setup : Setup) (draws : Draws) (cookie : Option String) (body : Result String String)
      (w : Accounts redis)
      → refresh_token_of cookie body ≡ ok token
      → Without doc (refresh token) w
      → (serve setup (post_refresh draws cookie body) w).0
        ≡ plain (failure 401 "invalid refresh token")
  unfolding serve handle_refresh refresh_with
  refresh-refused setup draws cookie body w its gone = rw its (
      answer-err _ _ (refresh_tokens setup.env token draws.jwt_id draws.new_refresh draws.now w)
        invalid_token
        (refresh_tokens-refused setup.env draws.jwt_id draws.new_refresh draws.now w gone))

  logout-Without :
      (setup : Setup) (draws : Draws) (cookie : Option String) (body : Result String String)
      (w : Accounts redis)
      → refresh_token_of cookie body ≡ ok token
      → (token == "") ≡ false
      → (redis.del (refresh token) draws.now w.kv).0 ≡ true
      → Without doc (refresh token) (serve setup (post_logout draws cookie body) w).1
  unfolding serve handle_logout end_session logout delete_key
  logout-Without setup draws cookie body w its named deleted =
      rw (its, named) (λ t. doc.del_done (refresh token) draws.now w.kv t deleted)

  -- After the deletion of the entry.
  after_del :
      (now : ℕ) (w : Accounts redis)
      → ((s : redis.State) → (redis.del (refresh token) now s).0 ≡ true)
      → Without doc
          (refresh token)
          (attempt {E = Error} {F = Error} (delete_key delete_token (refresh token) now) w).1
  unfolding attempt delete_key
  after_del now w works t = doc.del_done (refresh token) now w.kv t (works w.kv)

  refresh_tokens-Without :
      (env : Environment) (jwt_id new_refresh : String) (now : ℕ) (w : Accounts redis)
      (entry : TokenPair × User)
      → (token == new_refresh) ≡ false
      → ((s : redis.State) → (redis.del (refresh token) now s).0 ≡ true)
      → (refresh_tokens env token jwt_id new_refresh now w).0 ≡ ok entry
      → Without doc (refresh token) (refresh_tokens env token jwt_id new_refresh now w).1
  unfolding refresh_tokens
  refresh_tokens-Without env jwt_id new_refresh now w entry differ works good =
      let (user_id, _, good1, e1) =
        >>=-ok (get_token invalid_token (refresh token) now) _ w entry good in
      let (id, _, good2, e2) =
        >>=-ok (some_or invalid_token (env.parse_uuid user_id)) _ _ entry good1 in
      let (user, _, good3, e3) =
        >>=-ok (map_error (λ _. invalid_token) (get_by_id id)) _ _ entry good2 in
      let (done, _, good4, e4) =
        >>=-ok (attempt (delete_key delete_token (refresh token) now)) _ _ entry good3 in
      rw (e1, e2, e3, e4)
        ((Keeps-bind (Without doc (refresh token)) _ _
            (generate_token_pair-Keeps doc token env user jwt_id new_refresh now differ)
            (λ pair. Keeps-pure (Without doc (refresh token)) _)).at
          _ (after_del now _ works))

  module _ (setup : Setup) (later : Draws) (later_cookie : Option String)
      (later_body : Result String String) where
    -- After a logout with a token whose entry Redis could delete, and after any requests of which
    -- none draws this token anew, a refresh with the token is answered with 401 and no cookies.
    pub logout-revoked :
        (draws : Draws) (cookie : Option String) (body : Result String String) (w : Accounts redis)
        (rs : List Request)
        → refresh_token_of cookie body ≡ ok token
        → (token == "") ≡ false
        → (redis.del (refresh token) draws.now w.kv).0 ≡ true
        → All (λ r. draws_other token r ≡ true) rs
        → refresh_token_of later_cookie later_body ≡ ok token
        → (serve setup
            (post_refresh later later_cookie later_body)
            (play setup (post_logout draws cookie body ∷ rs) w)).0
          ≡ plain (failure 401 "invalid refresh token")
    unfolding play
    logout-revoked draws cookie body w rs its named deleted others again =
        refresh-refused setup later later_cookie later_body _ again (
          play-Without doc token setup rs _ others
            (logout-Without setup draws cookie body w its named deleted))

    -- A refresh token is good for one refresh: where deletions of its entry go well, after a refresh
    -- with it that succeeded and any requests, none of which (the refresh included) draws this token
    -- anew, a second refresh with it is answered with 401 and no cookies.
    pub refresh-once :
        (draws : Draws) (cookie : Option String) (body : Result String String) (w : Accounts redis)
        (rs : List Request) (entry : TokenPair × User)
        → refresh_token_of cookie body ≡ ok token
        → ((now : ℕ) (s : redis.State) → (redis.del (refresh token) now s).0 ≡ true)
        → (refresh_tokens setup.env token draws.jwt_id draws.new_refresh draws.now w).0 ≡ ok entry
        → (token == draws.new_refresh) ≡ false
        → All (λ r. draws_other token r ≡ true) rs
        → refresh_token_of later_cookie later_body ≡ ok token
        → (serve setup
            (post_refresh later later_cookie later_body)
            (play setup (post_refresh draws cookie body ∷ rs) w)).0
          ≡ plain (failure 401 "invalid refresh token")
    unfolding play serve handle_refresh refresh_with
    refresh-once draws cookie body w rs entry its works good differ others again =
        refresh-refused setup later later_cookie later_body _ again (
          play-Without doc token setup rs _ others (
            rw
              (
                its,
                answer-state (λ e. plain (failure 401 "invalid refresh token"))
                    (signed_in setup.dep "token refreshed")
                    (refresh_tokens setup.env token draws.jwt_id draws.new_refresh draws.now w),
              )
              (refresh_tokens-Without setup.env draws.jwt_id draws.new_refresh draws.now w entry
                differ (works draws.now) good)))
