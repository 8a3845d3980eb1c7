-- ===== src/Auth/Requests/Keeps.antt =====
-- What the requests keep of the keys in Redis: an entry that is not there stays away.
use go_saas_api.Common.{
  ℕ, ◌≡◌, String, false, Option, none, some, ◌==◌, string_eq, Bool-cases, inl, inr,
}
use go_saas_api.Common.Effect.{Result, ok, err, M, Keeps}
use go_saas_api.Auth.{User, refresh, Redis, Accounts, Environment, DbError, Error}
use go_saas_api.Auth.Users.{get_by_id}
use go_saas_api.Auth.Tokens.{Documented}
use go_saas_api.Auth.Service.Keys.{Without, Absent, get_by_id-Keeps, update-Keeps}
use go_saas_api.Auth.Service.Spent.{
  register-Keeps, login-Keeps, refresh_tokens-Keeps, logout-Keeps, request_password_reset-Keeps,
  reset_password-Keeps,
}
use go_saas_api.Auth.Http.{Deployment, Response, Handler, answer, answer-state}
use go_saas_api.Auth.Handler.{
  RegisterRequest, LoginRequest, ResetRequest, Draws, registered, handle_register, handle_login,
  refresh_with, end_session, handle_logout, handle_forgot_password, handle_reset_password, with_id,
  behind, with_user, me, store_profile, update_profile,
}

module _ {redis : Redis} (doc : Documented redis) (token : String) where
  abbrev pub Gone : Accounts redis → Type 0
  Gone = Without doc (refresh token)

  -- The handler keeps the token away.
  pub record Stays (h : Handler redis) : Type 0 where
    pub stay : (w : Accounts redis) → Gone w → Gone (h w).1

  pub answer-Gone :
      {A E : Type 0} (bad : E → Response) (good : A → Response) (x : Result E A × Accounts redis)
      → Gone x.1
      → Gone (answer bad good x).1
  answer-Gone bad good x gone = rw (answer-state bad good x) gone

  pub answer-Stays :
      {A E : Type 0} (bad : E → Response) (good : A → Response) (m : M (Accounts redis) E A)
      → Keeps Gone m
      → Stays (λ w. answer bad good (m w))
  answer-Stays bad good m k = record { stay = λ w gone. answer-Gone bad good (m w) (k.at w gone) }

  module _ (env : Environment) (dep : Deployment) where
    registered-Gone :
        (draws : Draws) (req : RegisterRequest) (x : Result Error User × Accounts redis)
        → (token == draws.new_refresh) ≡ false
        → Gone x.1
        → Gone (registered env dep draws req x).1
    unfolding registered
    registered-Gone draws req (err e, w) differ gone = gone
    registered-Gone draws req (ok user, w) differ gone =
        (answer-Stays _ _ _ (
            login-Keeps doc token env req.email req.password draws.jwt_id draws.new_refresh
              draws.now differ)).stay
          w gone

    pub handle_register-Stays :
        (draws : Draws) (body : Result String RegisterRequest)
        → (token == draws.new_refresh) ≡ false
        → Stays (handle_register env dep draws body)
    unfolding handle_register
    handle_register-Stays draws (err cause) differ = record { stay = λ w gone. gone }
    handle_register-Stays draws (ok req) differ = record {
      stay = λ w gone. registered-Gone draws req _ differ (
          (register-Keeps doc token env req.email req.password req.name draws.salt draws.user_id
              draws.now).at
            w gone);
    }

    pub handle_login-Stays :
        (draws : Draws) (body : Result String LoginRequest)
        → (token == draws.new_refresh) ≡ false
        → Stays (handle_login env dep draws body)
    unfolding handle_login
    handle_login-Stays draws (err cause) differ = record { stay = λ w gone. gone }
    handle_login-Stays draws (ok req) differ = answer-Stays _ _ _ (
        login-Keeps doc token env req.email req.password draws.jwt_id draws.new_refresh draws.now
          differ)

    pub refresh_with-Stays :
        (draws : Draws) (body : Result String String)
        → (token == draws.new_refresh) ≡ false
        → Stays (refresh_with env dep draws body)
    unfolding refresh_with
    refresh_with-Stays draws (err cause) differ = record { stay = λ w gone. gone }
    refresh_with-Stays draws (ok other) differ =
        answer-Stays _ _ _
          (refresh_tokens-Keeps doc token env other draws.jwt_id draws.new_refresh draws.now differ)

    end_session-Gone :
        (other : String) (now : ℕ) (w : Accounts redis)
        → Gone w
        → Gone (end_session env dep other now w)
    unfolding end_session
    end_session-Gone other now w gone = elim (Bool-cases (other == "")) [
      | inl empty ↦ rw empty gone
      | inr there ↦ rw there ((logout-Keeps doc token env other now).at w gone)
    ]

    pub handle_logout-Stays :
        (draws : Draws) (cookie : Option String) (body : Result String String)
        → Stays (handle_logout env dep draws cookie body)
    unfolding handle_logout
    handle_logout-Stays draws cookie body = record { stay = end_session-Gone _ draws.now }

    pub handle_forgot_password-Stays :
        (draws : Draws) (body : Result String String)
        → Stays (handle_forgot_password env dep draws body)
    unfolding handle_forgot_password
    handle_forgot_password-Stays draws (err cause) = record { stay = λ w gone. gone }
    handle_forgot_password-Stays draws (ok email) = record {
      stay = λ w gone.
          (request_password_reset-Keeps doc token env email draws.random draws.now).at w gone;
    }

    pub handle_reset_password-Stays :
        (draws : Draws) (body : Result String ResetRequest)
        → Stays (handle_reset_password env dep draws body)
    unfolding handle_reset_password
    handle_reset_password-Stays draws (err cause) = record { stay = λ w gone. gone }
    handle_reset_password-Stays draws (ok req) =
        answer-Stays _ _ _
          (reset_password-Keeps doc token env req.token req.new_password draws.salt draws.now)

    behind-Gone :
        (next : User → Handler redis) (x : Result DbError User × Accounts redis)
        → ((user : User) → Stays (next user))
        → Gone x.1
        → Gone (behind env dep next x).1
    behind-Gone next (err e, w) keep gone = gone
    behind-Gone next (ok user, w) keep gone = (keep user).stay w gone

    with_id-Gone :
        (next : ℕ → Handler redis) (id : Option ℕ) (w : Accounts redis)
        → ((n : ℕ) → Stays (next n))
        → Gone w
        → Gone (with_id env dep next id w).1
    with_id-Gone next none w keep gone = gone
    with_id-Gone next (some n) w keep gone = (keep n).stay w gone

    with_user-Stays :
        (user_id : Option String) (next : User → Handler redis)
        → ((user : User) → Stays (next user))
        → Stays (with_user env dep user_id next)
    unfolding with_user
    with_user-Stays none next keep = record { stay = λ w gone. gone }
    with_user-Stays (some text) next keep = record {
      stay = λ w. with_id-Gone _ (env.parse_uuid text) w (λ n. record {
        stay = λ v gone.
            behind-Gone next (get_by_id n v) keep
              ((get_by_id-Keeps (Absent doc (refresh token)) n).at v gone);
      });
    }

    store_profile-Stays :
        (user : User) (draws : Draws) (name : Result String String)
        → Stays (store_profile env dep user draws name)
    unfolding store_profile
    store_profile-Stays user draws (err cause) = record { stay = λ w gone. gone }
    store_profile-Stays user draws (ok name) =
        answer-Stays _ _ _ (update-Keeps (Absent doc (refresh token)) _)

    pub me-Stays : (user_id : Option String) → Stays (me env dep user_id)
    unfolding me
    me-Stays user_id = with_user-Stays user_id _ (λ user. record { stay = λ w gone. gone })

    pub update_profile-Stays :
        (draws : Draws) (user_id : Option String) (name : Result String String)
        → Stays (update_profile env dep draws user_id name)
    unfolding update_profile
    update_profile-Stays draws user_id name =
        with_user-Stays user_id _ (λ user. store_profile-Stays user draws name)
