-- ===== src/Auth/Sessions.antt =====
-- Sessions over the requests of internal/auth/handler.go, where the database and Redis do not fail.
use go_saas_api.Common.{
  ◌+◌, ◌≡◌, refl, ap, ◌∙◌, String, true, false, none, some, [], ◌∷◌, ◌++◌, map, ◌==◌, nat_eq,
  string_eq, find_by, any_by, ltb, beq_refl, arith,
}
use go_saas_api.Common.Effect.{Result, ok, >>=-err}
use go_saas_api.Auth.{User, refresh, pwdreset, Redis, Accounts, TokenPair, invalid_reset_token}
use go_saas_api.Auth.Users.{duplicates, updated_user}
use go_saas_api.Auth.Users.Sound.{IsSound}
use go_saas_api.Auth.Users.Rows.{
  any_by-weaker, find_by-new, find_email-id, with_password, with_password-found,
}
use go_saas_api.Auth.Tokens.{Documented, Reliable, get_token}
use go_saas_api.Auth.Service.{new_user, request_password_reset, reset_password}
use go_saas_api.Auth.Service.Keys.{get_token-missing}
use go_saas_api.Auth.Service.Healthy.{
  Lawful, removed, looked, pair_for, stored, stored-holds, login-healthy, refresh_tokens-healthy,
}
use go_saas_api.Auth.Service.SignIn.{
  register-healthy, request_password_reset-healthy, reset_password-healthy,
}
use go_saas_api.Auth.Http.{plain, success, failure, empty, signed_in, answer-err}
use go_saas_api.Auth.Handler.{
  RegisterRequest, LoginRequest, ResetRequest, Draws, registered, handle_register, handle_login,
  refresh_token_of, handle_refresh, refresh_with, handle_forgot_password, handle_reset_password,
  reset_error,
}
use go_saas_api.Auth.Requests.{
  post_register, post_login, post_refresh, post_forgot_password, post_reset_password, Setup, serve,
}

module _ {redis : Redis} (doc : Documented redis) (healthy : Reliable doc) (setup : Setup)
    (laws : Lawful setup.env) where
  abbrev pub pair_of : User → Draws → TokenPair
  pair_of user draws =
      pair_for doc healthy setup.env laws user draws.jwt_id draws.new_refresh draws.now

  login_response :
      (draws : Draws) (req : LoginRequest) (user : User) (w : Accounts redis)
      → w.faults ≡ []
      → find_by (λ u. u.email == req.email) w.users ≡ some user
      → setup.env.compare_password user.password_hash req.password ≡ true
      → serve setup (post_login draws (ok req)) w ≡ (
        signed_in setup.dep "login successful" (pair_of user draws, user),
        stored
            (refresh draws.new_refresh)
            (setup.env.format_uuid user.id)
            setup.env.refresh_ttl
            draws.now
            w,
      )
  unfolding serve handle_login
  login_response draws req user w quiet there matches =
      rw
        (login-healthy doc healthy setup.env laws req.email req.password draws.jwt_id
          draws.new_refresh draws.now user w quiet there matches)
        refl

  -- A user who signs in with the password of the account gets a session, and the refresh token of
  -- its cookie, sent back before its lifetime is over, gives a new session of the same user.
  pub login-refresh :
      (draws later : Draws) (req : LoginRequest) (body : Result String String) (user : User)
      (w : Accounts redis)
      → w.faults ≡ []
      → IsSound w.users
      → find_by (λ u. u.email == req.email) w.users ≡ some user
      → setup.env.compare_password user.password_hash req.password ≡ true
      → (draws.new_refresh == "") ≡ false
      → ltb later.now (draws.now + setup.env.refresh_ttl) ≡ true
      → ((serve setup (post_login draws (ok req)) w).0
          ≡ signed_in setup.dep "login successful" (pair_of user draws, user))
        × ((serve setup
              (post_refresh later (some draws.new_refresh) body)
              (serve setup (post_login draws (ok req)) w).1).0
            ≡ signed_in setup.dep "token refreshed" (pair_of user later, user))
  unfolding serve handle_refresh refresh_with refresh_token_of
  login-refresh draws later req body user w quiet sound there matches named early =
      let done = login_response draws req user w quiet there matches in
      (
        ap (λ x. x.0) done,
        rw
            (
              done,
              named,
              refresh_tokens-healthy doc healthy setup.env laws draws.new_refresh later.jwt_id
                  later.new_refresh later.now user
                  (stored (refresh draws.new_refresh) (setup.env.format_uuid user.id)
                    setup.env.refresh_ttl draws.now w)
                  quiet (find_email-id req.email user w.users sound there)
                  (stored-holds doc healthy (refresh draws.new_refresh)
                    (setup.env.format_uuid user.id) setup.env.refresh_ttl draws.now later.now w
                    early),
            )
            refl,
      )

  -- A registration with a new email and id gives a session of the new user, and a later login with
  -- the same email and password gives one too.
  register-login :
      (draws later : Draws) (req : RegisterRequest) (hash : String) (w : Accounts redis)
      → w.faults ≡ []
      → setup.env.hash_password req.password draws.salt ≡ some hash
      → any_by (duplicates (new_user req.email hash req.name draws.user_id draws.now)) w.users
        ≡ false
      → ((serve setup (post_register draws (ok req)) w).0
          ≡ signed_in setup.dep "registered successfully" (
            pair_of (new_user req.email hash req.name draws.user_id draws.now) draws,
            new_user req.email hash req.name draws.user_id draws.now,
          ))
        × ((serve setup
              (post_login later (ok (record { email = req.email; password = req.password })))
              (serve setup (post_register draws (ok req)) w).1).0
            ≡ signed_in setup.dep "login successful" (
              pair_of (new_user req.email hash req.name draws.user_id draws.now) later,
              new_user req.email hash req.name draws.user_id draws.now,
            ))
  unfolding serve handle_register registered
  register-login draws later req hash w quiet hashed free =
      let user : User = new_user req.email hash req.name draws.user_id draws.now in
      let added : Accounts redis = record w { users = w.users ++ user ∷ [] } in
      let absent : any_by (λ u. u.email == req.email) w.users ≡ false =
        any_by-weaker (duplicates user) (λ u. u.email == req.email) w.users
          (λ u same.
            unfold duplicates in ground (arith, same, string_eq.equals_iff u.email req.email))
          free in
      let there : find_by (λ u. u.email == req.email) added.users ≡ some user =
        find_by-new (λ u. u.email == req.email) w.users user absent (beq_refl req.email) in
      let matches : setup.env.compare_password hash req.password ≡ true =
        laws.compare_hash req.password draws.salt hash hashed in
      let done =
        register-healthy doc healthy setup.env laws req.email req.password req.name draws.salt hash
          draws.user_id draws.now w quiet hashed free in
      let entered =
        login-healthy doc healthy setup.env laws req.email req.password draws.jwt_id
          draws.new_refresh draws.now user added quiet there matches in
      (
        rw (done, entered) refl,
        rw (done, entered)
            (ap (λ x. x.0)
              (login_response later (record { email = req.email; password = req.password }) user
                (stored (refresh draws.new_refresh) (setup.env.format_uuid user.id)
                  setup.env.refresh_ttl draws.now added)
                quiet there matches)),
      )

  -- A reset token that is gone changes nothing.
  reset-gone :
      (draws : Draws) (req : ResetRequest) (w : Accounts redis)
      → doc.holds w.kv (pwdreset req.token) draws.now ≡ none
      → (serve setup (post_reset_password draws (ok req)) w).0
        ≡ plain (failure 400 "invalid or expired reset token")
  unfolding serve handle_reset_password reset_password
  reset-gone draws req w lost =
      answer-err reset_error (λ _. plain (success empty "password reset successful"))
        (reset_password setup.env req.token req.new_password draws.salt draws.now w)
        invalid_reset_token
        (>>=-err (get_token invalid_reset_token (pwdreset req.token) draws.now) _ w
          invalid_reset_token
          (get_token-missing doc (pwdreset req.token) invalid_reset_token draws.now w lost))

  module _ (user : User) (req : ResetRequest) (hash : String) where
    -- The state behind a reset of the password.
    abbrev behind_reset : Draws → Accounts redis → Accounts redis
    behind_reset draws w =
        record (removed (pwdreset req.token) draws.now (looked (pwdreset req.token) draws.now w)) {
          users = map (updated_user (with_password user hash draws.now)) w.users;
        }

    reset_response :
        (draws : Draws) (w : Accounts redis)
        → w.faults ≡ []
        → IsSound w.users
        → find_by (λ u. u.id == user.id) w.users ≡ some user
        → doc.holds w.kv (pwdreset req.token) draws.now ≡ some (setup.env.format_uuid user.id)
        → setup.env.hash_password req.new_password draws.salt ≡ some hash
        → serve setup (post_reset_password draws (ok req)) w
          ≡ (plain (success empty "password reset successful"), behind_reset draws w)
    unfolding serve handle_reset_password
    reset_response draws w quiet sound there held hashed =
        rw
          (reset_password-healthy doc healthy setup.env laws req.token req.new_password draws.salt
            hash draws.now user w quiet sound there held hashed)
          refl

    -- The responses of a reset, of a login with the new password, and of a second reset.
    abbrev pub Renewed : Draws → Draws → Draws → Accounts redis → Type 0
    Renewed reset later again w =
        ((serve setup (post_reset_password reset (ok req)) w).0
          ≡ plain (success empty "password reset successful"))
        × ((serve setup
              (post_login later (ok (record { email = user.email; password = req.new_password })))
              (serve setup (post_reset_password reset (ok req)) w).1).0
            ≡ signed_in setup.dep "login successful" (
              pair_of (with_password user hash reset.now) later,
              with_password user hash reset.now,
            ))
        × ((serve setup (post_reset_password again (ok req))
              (serve setup (post_reset_password reset (ok req)) w).1).0
            ≡ plain (failure 400 "invalid or expired reset token"))

    renewed :
        (reset later again : Draws) (w : Accounts redis)
        → w.faults ≡ []
        → IsSound w.users
        → find_by (λ u. u.id == user.id) w.users ≡ some user
        → doc.holds w.kv (pwdreset req.token) reset.now ≡ some (setup.env.format_uuid user.id)
        → setup.env.hash_password req.new_password reset.salt ≡ some hash
        → Renewed reset later again w
    renewed reset later again w quiet sound there held hashed =
        let done = reset_response reset w quiet sound there held hashed in
        let entered =
          login_response later (record { email = user.email; password = req.new_password })
            (with_password user hash reset.now) (behind_reset reset w) quiet
            (with_password-found user hash reset.now w.users sound there)
            (laws.compare_hash req.new_password reset.salt hash hashed) in
        let lost =
          doc.del_done (pwdreset req.token) reset.now
            (redis.get (pwdreset req.token) reset.now w.kv).1 again.now
            (healthy.del_works (pwdreset req.token) reset.now
              (redis.get (pwdreset req.token) reset.now w.kv).1) in
        (
          ap (λ x. x.0) done,
          rw done (ap (λ x. x.0) entered),
          rw done (reset-gone again req (behind_reset reset w) lost),
        )

    -- Where a user asked for a reset, the token of the mail resets the password before its lifetime
    -- is over; then the user signs in with the new password, and the token is refused.
    pub reset-login :
        (asked reset later again : Draws) (w : Accounts redis)
        → w.faults ≡ []
        → IsSound w.users
        → find_by (λ u. u.email == user.email) w.users ≡ some user
        → asked.random ≡ some req.token
        → setup.env.hash_password req.new_password reset.salt ≡ some hash
        → ltb reset.now (asked.now + setup.env.reset_token_ttl) ≡ true
        → Renewed reset later again (serve setup (post_forgot_password asked (ok user.email)) w).1
    unfolding serve handle_forgot_password
    reset-login asked reset later again w quiet sound there drawn hashed early =
        let (users, faults, kv) =
          request_password_reset-healthy doc healthy setup.env laws user.email req.token asked.now
            user w quiet there in
        rw drawn (
          renewed reset later again
            (request_password_reset setup.env user.email (some req.token) asked.now w).1
            (faults ∙ quiet) (rw users sound)
            (rw users (find_email-id user.email user w.users sound there))
            (rw kv (
              stored-holds doc healthy (pwdreset req.token) (setup.env.format_uuid user.id)
                setup.env.reset_token_ttl asked.now reset.now w early))
            hashed)
