-- ===== src/Auth/OAuth/States.antt =====
-- The states of internal/auth/oauth.go and what the callbacks keep of the keys in Redis.
use go_saas_api.Common.{ℕ, ◌≢◌, ◌∙◌, String, Bool, true, false, string_eq}
use go_saas_api.Common.Effect.{
  Result, ok, err, ◌>>=◌, attempt, Keeps, Keeps-pure, Keeps-fail, Keeps-bind, Keeps-some_or,
  Keeps-map_error, Keeps-attempt,
}
use go_saas_api.Auth.{
  User, Key, refresh, oauth_state, Redis, Accounts, Environment, DbError, Error, invalid_state,
  save_state, exchange_code, fetch_user_info,
}
use go_saas_api.Auth.Tokens.{Documented, validate_state, save_state as store_state}
use go_saas_api.Auth.Service.Keys.{
  Without, Absent, save_token-Keeps, get_by_oauth-Keeps, create-Keeps, done_or-Keeps,
}
use go_saas_api.Auth.OAuth.{
  Provider, Remote, fetch_identity, Identity, checked_state, get_auth_url, existing_or_new,
  generate_oauth_token_pair, find_or_create_oauth_user, handle_callback,
}

module _ {redis : Redis} (doc : Documented redis) (key : Key) (env : Environment) where
  generate_oauth_token_pair-Keeps :
      (user : User) (jwt_id new_refresh : String) (now : ℕ)
      → key ≢ refresh new_refresh
      → Keeps (Without doc key) (generate_oauth_token_pair env user jwt_id new_refresh now)
  unfolding generate_oauth_token_pair
  generate_oauth_token_pair-Keeps user jwt_id new_refresh now other =
      Keeps-bind (Without doc key) _ _ (Keeps-some_or (Without doc key) _ _) (λ access.
        Keeps-bind (Without doc key) _ _ (save_token-Keeps doc key _ _ _ _ _ other)
          (λ _. Keeps-pure (Without doc key) _))

  existing_or_new-Keeps :
      (user : User) (known : Result DbError User)
      → Keeps (Without doc key) (existing_or_new user known)
  unfolding existing_or_new
  existing_or_new-Keeps user (ok old) = Keeps-pure (Without doc key) _
  existing_or_new-Keeps user (err e) =
      Keeps-bind (Without doc key) _ _
        (Keeps-map_error (Without doc key) _ _ (create-Keeps (Absent doc key) _))
        (λ _. Keeps-pure (Without doc key) _)

  find_or_create_oauth_user-Keeps :
      (provider : Provider) (identity : Identity) (id : ℕ) (jwt_id new_refresh : String) (now : ℕ)
      → key ≢ refresh new_refresh
      → Keeps
          (Without doc key)
          (find_or_create_oauth_user env provider identity id jwt_id new_refresh now)
  unfolding find_or_create_oauth_user
  find_or_create_oauth_user-Keeps provider identity id jwt_id new_refresh now other =
      Keeps-bind (Without doc key) _ _
        (Keeps-attempt (Without doc key) _ (get_by_oauth-Keeps (Absent doc key) _ _))
        (λ known. Keeps-bind (Without doc key) _ _ (existing_or_new-Keeps _ known) (λ user.
          Keeps-bind (Without doc key) _ _
            (generate_oauth_token_pair-Keeps user jwt_id new_refresh now other)
            (λ pair. Keeps-pure (Without doc key) _)))

  checked_state-Keeps : (valid : Result Error Bool) → Keeps (Without doc key) (checked_state valid)
  checked_state-Keeps (err e) = Keeps-fail (Without doc key) _
  checked_state-Keeps (ok false) = Keeps-fail (Without doc key) _
  checked_state-Keeps (ok true) = Keeps-pure (Without doc key) _

  module _ (remote : Remote) (provider : Provider) (code : String) (id : ℕ)
      (jwt_id new_refresh : String) (now : ℕ) (other : key ≢ refresh new_refresh) where
    -- A callback leaves no key, if the check of its state left none.
    pub callback-Without :
        (state : String) (w : Accounts redis)
        → Without doc key (validate_state invalid_state state now w).1
        → Without doc key
            (handle_callback env remote provider code state id jwt_id new_refresh now w).1
    unfolding handle_callback ◌>>=◌ attempt
    callback-Without state w gone =
        (Keeps-bind (Without doc key) _ _
            (checked_state-Keeps (validate_state invalid_state state now w).0)
            (λ _.
              Keeps-bind (Without doc key) _ _
                (Keeps-some_or (Without doc key) exchange_code (remote.exchange provider code))
                (λ access.
                  Keeps-bind (Without doc key) _ _
                    (Keeps-some_or (Without doc key) fetch_user_info
                      (fetch_identity remote provider access))
                    (λ identity.
                      find_or_create_oauth_user-Keeps provider identity id jwt_id new_refresh now
                        other)))).at
          (validate_state invalid_state state now w).1 gone

    pub handle_callback-Keeps :
        (state : String)
        → key ≢ oauth_state state
        → Keeps
            (Without doc key)
            (handle_callback env remote provider code state id jwt_id new_refresh now)
    unfolding validate_state
    handle_callback-Keeps state ne = record {
      at = λ w gone.
          callback-Without state w
            (λ t. doc.get_del_other (oauth_state state) now w.kv key t ne ∙ gone t);
    }

pub get_auth_url-Keeps :
    {redis : Redis} (doc : Documented redis) (key : Key) (remote : Remote) (provider : Provider)
    (state : String) (now : ℕ)
    → key ≢ oauth_state state
    → Keeps (Without doc key) (get_auth_url remote provider state now)
unfolding get_auth_url store_state
get_auth_url-Keeps doc key remote provider state now ne =
    Keeps-bind (Without doc key) _ _
      (done_or-Keeps (Absent doc key) save_state _
        (λ s gone t. doc.set_other (oauth_state state) "1" 300 now s key t ne ∙ gone t))
      (λ _. Keeps-pure (Without doc key) _)
