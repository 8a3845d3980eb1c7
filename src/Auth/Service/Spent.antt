-- ===== src/Auth/Service/Spent.antt =====
-- Refresh tokens that were given up (internal/auth/service.go), under later operations.

use go_saas_api.Common.{
  ℕ, ◌≡◌, ◌≢◌, ◌∙◌, String, false, Option, none, Bool-cases, inl, inr, ◌==◌, string_eq, subst,
  arith,
}
use go_saas_api.Common.Effect.{
  Result, ok, err, Keeps, Keeps-pure, Keeps-fail, Keeps-bind, Keeps-some_or, Keeps-map_error,
  Keeps-attempt,
}
use go_saas_api.Auth.{
  User, refresh, pwdreset, Redis, Mail, Accounts, Environment, DbError, Error, invalid_credentials,
}
use go_saas_api.Auth.Tokens.{Documented, delete_token}
use go_saas_api.Auth.Service.Keys.{
  Without, Absent, save_token-Keeps, get_token-Keeps, delete_token-Keeps, get_by_email-Keeps,
  get_by_id-Keeps, create-Keeps, update-Keeps, done_or-Keeps,
}
use go_saas_api.Auth.Service.{
  generate_token_pair, refuse_existing, register, check_password, login, refresh_tokens, logout,
  send_reset, request_for, request_password_reset, reset_password,
}

pub refresh-≢ : (token other : String) → (token == other) ≡ false → refresh token ≢ refresh other
refresh-≢ token other differ same =
    let it : token ≡ other = cc same in ground (arith, string_eq.equals_iff token other, it, differ)

pwdreset-≢ : (token other : String) → refresh token ≢ pwdreset other
pwdreset-≢ token other same = cc same

module _ {redis : Redis} (doc : Documented redis) (token : String) where
  abbrev Gone : Accounts redis → Type 0
  Gone = Without doc (refresh token)

  del-Absent :
      (other : String) (now : ℕ) (s : redis.State)
      → Absent doc (refresh token) s
      → Absent doc (refresh token) (redis.del (refresh other) now s).1
  del-Absent other now s gone t = elim (Bool-cases (token == other)) [
    | inl same ↦
        let it : token ≡ other = (string_eq.equals_iff token other).0 same in
        elim (doc.del_only (refresh other) now s t) [
          | inl none_left ↦ rw it none_left
          | inr kept ↦
              rw it (kept ∙ subst (λ (o : String). doc.holds s (refresh o) t ≡ none) it (gone t))
        ]
    | inr differ ↦
        doc.del_other (refresh other) now s (refresh token) t (refresh-≢ token other differ)
        ∙ gone t
  ]

  delete_refresh-Keeps :
      (e : Error) (other : String) (now : ℕ) → Keeps Gone (delete_token e (refresh other) now)
  unfolding delete_token
  delete_refresh-Keeps e other now =
      done_or-Keeps (Absent doc (refresh token)) e _ (del-Absent other now)

  module _ (env : Environment) where
    pub generate_token_pair-Keeps :
        (user : User) (jwt_id new_refresh : String) (now : ℕ)
        → (token == new_refresh) ≡ false
        → Keeps Gone (generate_token_pair env user jwt_id new_refresh now)
    unfolding generate_token_pair
    generate_token_pair-Keeps user jwt_id new_refresh now differ =
        Keeps-bind Gone _ _ (Keeps-some_or Gone _ _) (λ access.
          Keeps-bind Gone _ _
            (save_token-Keeps doc (refresh token) _ _ _ _ _ (refresh-≢ token new_refresh differ))
            (λ _. Keeps-pure Gone _))

    refuse_existing-Keeps : (r : Result DbError User) → Keeps Gone (refuse_existing r)
    refuse_existing-Keeps (ok user) = Keeps-fail Gone _
    refuse_existing-Keeps (err e) = Keeps-pure Gone _

    pub register-Keeps :
        (email password name salt : String) (id now : ℕ)
        → Keeps Gone (register env email password name salt id now)
    unfolding register
    register-Keeps email password name salt id now =
        Keeps-bind Gone _ _
          (Keeps-attempt Gone _ (get_by_email-Keeps (Absent doc (refresh token)) email))
          (λ existing. Keeps-bind Gone _ _ (refuse_existing-Keeps existing) (λ _.
            Keeps-bind Gone _ _ (Keeps-some_or Gone _ _) (λ hash.
              Keeps-bind Gone _ _
                (Keeps-map_error Gone _ _ (create-Keeps (Absent doc (refresh token)) _))
                (λ _. Keeps-pure Gone _))))

    check_password-Keeps :
        (user : User) (password : String) → Keeps Gone (check_password env user password)
    unfolding check_password
    check_password-Keeps user password =
        elim (Bool-cases (env.compare_password user.password_hash password)) [
          | inl good ↦ rw good (Keeps-pure Gone tt)
          | inr bad ↦ rw bad (Keeps-fail Gone invalid_credentials)
        ]

    pub login-Keeps :
        (email password jwt_id new_refresh : String) (now : ℕ)
        → (token == new_refresh) ≡ false
        → Keeps Gone (login env email password jwt_id new_refresh now)
    unfolding login
    login-Keeps email password jwt_id new_refresh now differ =
        Keeps-bind Gone _ _
          (Keeps-map_error Gone _ _ (get_by_email-Keeps (Absent doc (refresh token)) email))
          (λ user. Keeps-bind Gone _ _ (check_password-Keeps user password) (λ _.
            Keeps-bind Gone _ _ (generate_token_pair-Keeps user jwt_id new_refresh now differ)
              (λ pair. Keeps-pure Gone _)))

    pub refresh_tokens-Keeps :
        (other jwt_id new_refresh : String) (now : ℕ)
        → (token == new_refresh) ≡ false
        → Keeps Gone (refresh_tokens env other jwt_id new_refresh now)
    unfolding refresh_tokens
    refresh_tokens-Keeps other jwt_id new_refresh now differ =
        Keeps-bind Gone _ _ (get_token-Keeps doc (refresh token) _ _ now) (λ user_id.
          Keeps-bind Gone _ _ (Keeps-some_or Gone _ _) (λ id.
            Keeps-bind Gone _ _
              (Keeps-map_error Gone _ _ (get_by_id-Keeps (Absent doc (refresh token)) id))
              (λ user.
                Keeps-bind Gone _ _ (Keeps-attempt Gone _ (delete_refresh-Keeps _ other now)) (λ _.
                  Keeps-bind Gone _ _ (generate_token_pair-Keeps user jwt_id new_refresh now differ)
                    (λ pair. Keeps-pure Gone _)))))

    pub logout-Keeps : (other : String) (now : ℕ) → Keeps Gone (logout env other now)
    unfolding logout
    logout-Keeps other now = delete_refresh-Keeps _ other now

    send_reset-Keeps : (mail : Mail) → Keeps Gone (send_reset env mail)
    unfolding send_reset
    send_reset-Keeps mail = elim (Bool-cases (env.send_password_reset mail)) [
      | inl sent ↦ record { at = λ w gone. rw sent gone }
      | inr lost ↦ record { at = λ w gone. rw lost gone }
    ]

    request_for-Keeps :
        (found_user : Result DbError User) (random : Option String) (now : ℕ)
        → Keeps Gone (request_for env found_user random now)
    unfolding request_for
    request_for-Keeps (err e) random now = Keeps-pure Gone tt
    request_for-Keeps (ok user) random now = Keeps-bind Gone _ _ (Keeps-some_or Gone _ _) (λ reset.
        Keeps-bind Gone _ _
          (save_token-Keeps doc (refresh token) _ _ _ _ now (pwdreset-≢ token reset))
          (λ _. send_reset-Keeps _))

    pub request_password_reset-Keeps :
        (email : String) (random : Option String) (now : ℕ)
        → Keeps Gone (request_password_reset env email random now)
    unfolding request_password_reset
    request_password_reset-Keeps email random now =
        Keeps-bind Gone _ _
          (Keeps-attempt Gone _ (get_by_email-Keeps (Absent doc (refresh token)) email))
          (λ user. request_for-Keeps user random now)

    pub reset_password-Keeps :
        (reset new_password salt : String) (now : ℕ)
        → Keeps Gone (reset_password env reset new_password salt now)
    unfolding reset_password
    reset_password-Keeps reset new_password salt now =
        Keeps-bind Gone _ _ (get_token-Keeps doc (refresh token) _ _ now) (λ user_id.
          Keeps-bind Gone _ _ (Keeps-some_or Gone _ _) (λ id.
            Keeps-bind Gone _ _
              (Keeps-map_error Gone _ _ (get_by_id-Keeps (Absent doc (refresh token)) id))
              (λ user. Keeps-bind Gone _ _ (Keeps-some_or Gone _ _) (λ hash.
                Keeps-bind Gone _ _
                  (Keeps-map_error Gone _ _ (update-Keeps (Absent doc (refresh token)) _))
                  (λ _.
                    Keeps-bind Gone _ _
                      (Keeps-attempt Gone _
                        (delete_token-Keeps doc (refresh token) _ _ now (pwdreset-≢ token reset)))
                      (λ _. Keeps-pure Gone tt))))))
