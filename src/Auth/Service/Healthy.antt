-- ===== src/Auth/Service/Healthy.antt =====
-- The service (internal/auth/service.go) where the database and Redis do not fail.
use go_saas_api.Common.{
  ℕ, ◌+◌, ◌≡◌, refl, String, true, some, List, [], ◌==◌, nat_eq, string_eq, find_by, ltb,
}
use go_saas_api.Common.Effect.{ok, ◌>>=◌, attempt, map_error}
use go_saas_api.Auth.{
  User, Key, refresh, Redis, Accounts, TokenClaims, Environment, TokenPair, Error, invalid_token,
  delete_token, save_refresh_token,
}
use go_saas_api.Auth.Users.{query, read, picked, get_by_id, get_by_email}
use go_saas_api.Auth.Tokens.{
  Documented, Reliable, save_token, get_token, delete_token as delete_key,
}
use go_saas_api.Auth.Service.{
  generate_token, generate_token_pair, check_password, login, refresh_tokens,
}

-- What the service relies on of bcrypt, of the HMAC signature and of UUIDs.
pub record Lawful (env : Environment) : Type 0 where
  pub compare_hash :
      (password salt hash : String)
      → env.hash_password password salt ≡ some hash
      → env.compare_password hash password ≡ true
  pub signs : (claims : TokenClaims) → (text : String) × (env.sign claims ≡ some text)
  pub parse_format : (id : ℕ) → env.parse_uuid (env.format_uuid id) ≡ some id

-- The row of a user, by the primary key and by the email.
pub record IsRow (user : User) (rows : List User) : Type 0 where
  pub by_id : find_by (λ u. u.id == user.id) rows ≡ some user
  pub by_email : find_by (λ u. u.email == user.email) rows ≡ some user

module _ {redis : Redis} where
  pub get_by_id-quiet :
      (id : ℕ) (user : User) (w : Accounts redis)
      → w.faults ≡ []
      → find_by (λ u. u.id == id) w.users ≡ some user
      → get_by_id id w ≡ (ok user, w)
  unfolding get_by_id read query picked
  get_by_id-quiet id user w quiet there = rw (quiet, there) refl

  pub get_by_email-quiet :
      (email : String) (user : User) (w : Accounts redis)
      → w.faults ≡ []
      → find_by (λ u. u.email == email) w.users ≡ some user
      → get_by_email email w ≡ (ok user, w)
  unfolding get_by_email read query picked
  get_by_email-quiet email user w quiet there = rw (quiet, there) refl

-- The writes of a store, on the whole state.
abbrev pub stored :
    {redis : Redis} → Key → (value : String) → (ttl now : ℕ) → Accounts redis → Accounts redis
stored {redis} key value ttl now w = record w { kv = (redis.set key value ttl now w.kv).1 }

abbrev pub looked : {redis : Redis} → Key → (now : ℕ) → Accounts redis → Accounts redis
looked {redis} key now w = record w { kv = (redis.get key now w.kv).1 }

abbrev pub removed : {redis : Redis} → Key → (now : ℕ) → Accounts redis → Accounts redis
removed {redis} key now w = record w { kv = (redis.del key now w.kv).1 }

module _ {redis : Redis} (doc : Documented redis) (healthy : Reliable doc) where
  pub save_token-healthy :
      (e : Error) (key : Key) (value : String) (ttl now : ℕ) (w : Accounts redis)
      → save_token e key value ttl now w ≡ (ok tt, stored key value ttl now w)
  unfolding save_token
  save_token-healthy e key value ttl now w = rw (healthy.set_done key value ttl now w.kv) refl

  pub get_token-healthy :
      (e : Error) (key : Key) (value : String) (now : ℕ) (w : Accounts redis)
      → doc.holds w.kv key now ≡ some value
      → get_token e key now w ≡ (ok value, looked key now w)
  unfolding get_token
  get_token-healthy e key value now w held = rw (healthy.get_holds key now w.kv value held) refl

  pub delete_token-healthy :
      (e : Error) (key : Key) (now : ℕ) (w : Accounts redis)
      → delete_key e key now w ≡ (ok tt, removed key now w)
  unfolding delete_key
  delete_token-healthy e key now w = rw (healthy.del_works key now w.kv) refl

  pub stored-holds :
      (key : Key) (value : String) (ttl now later : ℕ) (w : Accounts redis)
      → ltb later (now + ttl) ≡ true
      → doc.holds (stored key value ttl now w).kv key later ≡ some value
  stored-holds key value ttl now later w early =
      healthy.set_holds key value ttl now w.kv later early

  module _ (env : Environment) (laws : Lawful env) where
    unfoldable pub claims_of : User → (jwt_id : String) (now : ℕ) → TokenClaims
    claims_of user jwt_id now = record {
      uid = env.format_uuid user.id;
      role = user.role;
      subject = env.format_uuid user.id;
      issued_at = now;
      expires_at = now + env.access_ttl;
      not_before = now;
      id = jwt_id;
    }

    unfoldable pub pair_for : User → (jwt_id new_refresh : String) (now : ℕ) → TokenPair
    pair_for user jwt_id new_refresh now = record {
      access_token = (laws.signs (claims_of user jwt_id now)).0;
      refresh_token = new_refresh;
      expires_in = env.access_ttl;
    }

    pub generate_token_pair-healthy :
        (user : User) (jwt_id new_refresh : String) (now : ℕ) (w : Accounts redis)
        → generate_token_pair env user jwt_id new_refresh now w ≡ (
          ok (pair_for user jwt_id new_refresh now),
          stored (refresh new_refresh) (env.format_uuid user.id) env.refresh_ttl now w,
        )
    unfolding generate_token_pair ◌>>=◌ generate_token pair_for claims_of
    generate_token_pair-healthy user jwt_id new_refresh now w =
        rw
          (
            (laws.signs (claims_of user jwt_id now)).1,
            save_token-healthy save_refresh_token (refresh new_refresh) (env.format_uuid user.id)
                env.refresh_ttl now w,
          )
          refl

    pub login-healthy :
        (email password jwt_id new_refresh : String) (now : ℕ) (user : User) (w : Accounts redis)
        → w.faults ≡ []
        → find_by (λ u. u.email == email) w.users ≡ some user
        → env.compare_password user.password_hash password ≡ true
        → login env email password jwt_id new_refresh now w ≡ (
          ok (pair_for user jwt_id new_refresh now, user),
          stored (refresh new_refresh) (env.format_uuid user.id) env.refresh_ttl now w,
        )
    unfolding login ◌>>=◌ map_error check_password
    login-healthy email password jwt_id new_refresh now user w quiet there matches =
        rw
          (
            get_by_email-quiet email user w quiet there,
            matches,
            generate_token_pair-healthy user jwt_id new_refresh now w,
          )
          refl

    pub refresh_tokens-healthy :
        (token jwt_id new_refresh : String) (now : ℕ) (user : User) (w : Accounts redis)
        → w.faults ≡ []
        → find_by (λ u. u.id == user.id) w.users ≡ some user
        → doc.holds w.kv (refresh token) now ≡ some (env.format_uuid user.id)
        → refresh_tokens env token jwt_id new_refresh now w ≡ (
          ok (pair_for user jwt_id new_refresh now, user),
          stored
              (refresh new_refresh)
              (env.format_uuid user.id)
              env.refresh_ttl
              now
              (removed (refresh token) now (looked (refresh token) now w)),
        )
    unfolding refresh_tokens ◌>>=◌ map_error attempt
    refresh_tokens-healthy token jwt_id new_refresh now user w quiet there held =
        rw
          (
            get_token-healthy invalid_token (refresh token) (env.format_uuid user.id) now w held,
            laws.parse_format user.id,
            get_by_id-quiet user.id user (looked (refresh token) now w) quiet there,
            delete_token-healthy delete_token (refresh token) now (looked (refresh token) now w),
            generate_token_pair-healthy user jwt_id new_refresh now
                (removed (refresh token) now (looked (refresh token) now w)),
          )
          refl
