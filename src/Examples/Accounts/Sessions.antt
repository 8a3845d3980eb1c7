-- ===== src/Examples/Accounts/Sessions.antt =====
-- Runs of the accounts.
use go_saas_api.Common.{
  ℕ, ◌≡◌, refl, ap, String, true, false, none, some, List, [], ◌∷◌, ◌==◌, string_eq,
}
use go_saas_api.Common.Effect.{ok, err, ◌>>=◌, attempt}
use go_saas_api.Auth.{
  User, refresh, oauth_state, Accounts, Environment, fetch_user_info, invalid_state,
}
use go_saas_api.Auth.Tokens.{validate_state}
use go_saas_api.Auth.Users.{create, update, delete, update_user_role, role_allowed}
use go_saas_api.Auth.Users.{refuses_new, refuses_change, refuses_role}
use go_saas_api.Auth.Users.View.{
  Becomes, put_new, put_changed, put_nothing, put_role, writes-Becomes,
}
use go_saas_api.Auth.Service.{new_user}
use go_saas_api.Auth.Service.Healthy.{Lawful, pair_for, refresh_tokens-healthy}
use go_saas_api.Auth.OAuth.{google, github, Remote, fetch_identity, fetch_google_user_info}
use go_saas_api.Auth.OAuth.Once.{state_once, generic_callback-google}
use go_saas_api.Auth.Http.{Deployment, plain, failure, signed_in}
use go_saas_api.Auth.Handler.{Draws, RegisterRequest, LoginRequest, refresh_token_of}
use go_saas_api.Auth.OAuthHandler.{CallbackRequest, generic_callback}
use go_saas_api.Auth.OAuth.{handle_callback}
use go_saas_api.Auth.Requests.{
  Request, post_login, post_refresh, post_logout, post_forgot_password, get_me, Setup, serve, play,
  draws_other,
}
use go_saas_api.Auth.Revoked.{logout-revoked, refresh-once}
use go_saas_api.Auth.Sessions.{login-refresh, Renewed, reset-login}
use go_saas_api.Auth.Answers.{login-silent}
use go_saas_api.Examples.Accounts.{Table, memory, documented, reliable, put}
use go_saas_api.Examples.Accounts.Tally.{tally, total, total-tally}

-- bcrypt that keeps the password, and a signature that is the id of the token.
abbrev env : Environment
env = record {
  hash_password = λ password salt. some password;
  compare_password = λ hash password. hash == password;
  sign = λ claims. some claims.id;
  format_uuid = tally;
  parse_uuid = λ s. some (total s);
  send_password_reset = λ mail. true;
  access_ttl = 900;
  refresh_ttl = 604800;
  reset_token_ttl = 3600;
}

abbrev remote : Remote
remote = record {
  auth_code_url = λ p state. state;
  exchange = λ p code. some code;
  fetch = λ url token. none;
  decode_google = λ s. none;
  decode_github = λ s. none;
  decode_emails = λ s. none;
  format_id = λ i. "";
}

abbrev dep : Deployment
dep = record { env = "dev"; public_url = []; frontend_url = "" }

abbrev setup : Setup
setup = record { env = env; dep = dep; remote = remote; atoi = λ s. none }

hash_equals : (password hash : String) → some password ≡ some hash → (hash == password) ≡ true
hash_equals password hash e = (string_eq.equals_iff hash password).1 (cc e)

laws : Lawful env
laws = record {
  compare_hash = λ password salt hash e. hash_equals password hash e;
  signs = λ claims. (claims.id, refl);
  parse_format = λ id. ap some (total-tally id);
}

abbrev ana : User
ana = new_user "ana@x.org" "secret" "Ana" 1 0

abbrev nowhere : Table
nowhere k = none

abbrev start : Accounts memory
start = record { users = ana ∷ []; faults = []; kv = nowhere; mails = [] }

abbrev draws_at : (refresh_text : String) → (now : ℕ) → Draws
draws_at refresh_text now = record {
  user_id = 2;
  jwt_id = "j";
  new_refresh = refresh_text;
  salt = "s";
  random = some "r";
  now = now;
}

abbrev entry_of_ana : LoginRequest
entry_of_ana = record { email = "ana@x.org"; password = "secret" }

login-refresh_example :
    ((serve setup (post_login (draws_at "t" 10) (ok entry_of_ana)) start).0
      ≡ signed_in dep "login successful"
          (pair_for documented reliable env laws ana "j" "t" 10, ana))
    × ((serve setup
          (post_refresh (draws_at "u" 20) (some "t") (err "EOF"))
          (serve setup (post_login (draws_at "t" 10) (ok entry_of_ana)) start).1).0
        ≡ signed_in dep "token refreshed"
            (pair_for documented reliable env laws ana "j" "u" 20, ana))
unfolding role_allowed
login-refresh_example =
    login-refresh documented reliable setup laws (draws_at "t" 10) (draws_at "u" 20) entry_of_ana
      (err "EOF") ana start refl (refl, tt, tt) refl refl refl refl

abbrev bob : RegisterRequest
bob = record { email = "bob@x.org"; password = "pass"; name = "Bob" }

abbrev new_bob : User
new_bob = new_user "bob@x.org" "pass" "Bob" 2 10

reset-login_example :
    Renewed documented reliable setup laws ana
      (record { token = "r"; new_password = "fresh" })
      "fresh"
      (draws_at "t" 20)
      (draws_at "u" 30)
      (draws_at "v" 40)
      (serve setup (post_forgot_password (draws_at "t" 10) (ok "ana@x.org")) start).1
unfolding role_allowed
reset-login_example =
    reset-login documented reliable setup laws ana (record { token = "r"; new_password = "fresh" })
      "fresh" (draws_at "t" 10) (draws_at "t" 20) (draws_at "u" 30) (draws_at "v" 40) start refl
      (refl, tt, tt) refl refl refl refl

abbrev between : List Request
between = post_login (draws_at "u" 20) (ok entry_of_ana) ∷ get_me none ∷ []

logout-revoked_example :
    (serve setup
      (post_refresh (draws_at "v" 30) (some "t") (err "EOF"))
      (play setup (post_logout (draws_at "w" 15) (some "t") (err "EOF") ∷ between) start)).0
    ≡ plain (failure 401 "invalid refresh token")
unfolding refresh_token_of draws_other
logout-revoked_example =
    logout-revoked documented "t" setup (draws_at "v" 30) (some "t") (err "EOF") (draws_at "w" 15)
      (some "t") (err "EOF") start between refl refl refl (refl, (refl, tt)) refl

abbrev signed : Accounts memory
signed = record start { kv = put (refresh "t") (some (tally 1, 604810)) nowhere }

refresh-once_example :
    (serve setup
      (post_refresh (draws_at "v" 30) (some "t") (err "EOF"))
      (play setup (post_refresh (draws_at "w" 15) (some "t") (err "EOF") ∷ between) signed)).0
    ≡ plain (failure 401 "invalid refresh token")
unfolding refresh_token_of draws_other
refresh-once_example =
    refresh-once documented "t" setup (draws_at "v" 30) (some "t") (err "EOF") (draws_at "w" 15)
      (some "t") (err "EOF") signed between
      (pair_for documented reliable env laws ana "j" "w" 15, ana) refl (λ now s. refl)
      (ap (λ x. x.0)
        (refresh_tokens-healthy documented reliable env laws "t" "j" "w" 15 ana signed refl refl
          refl))
      refl (refl, (refl, tt)) refl

abbrev awaited : Accounts memory
awaited = record start { kv = put (oauth_state "s") (some ("1", 300)) nowhere }

abbrev back : CallbackRequest
back = record { code = "c"; state = "s"; provider = "" }

generic_callback-google_example :
    (generic_callback env dep remote (draws_at "t" 10) (ok back) awaited).0
    ≡ plain (failure 401 "oauth callback failed")
unfolding handle_callback ◌>>=◌ attempt validate_state fetch_identity fetch_google_user_info
generic_callback-google_example =
    generic_callback-google documented env remote dep (draws_at "t" 10) back fetch_user_info awaited
      refl refl (λ e. cc e) refl

login-silent_example :
    serve setup
      (post_login (draws_at "t" 10) (ok (record { email = "ana@x.org"; password = "guess" })))
      start
    ≡ (plain (failure 401 "invalid credentials"), start)
login-silent_example =
    login-silent setup (draws_at "t" 10) (record { email = "ana@x.org"; password = "guess" }) start
      refl refl

writes-Becomes_example :
    Becomes (put_new new_bob) (refuses_new new_bob) 2 start (create new_bob start)
    × Becomes (put_changed new_bob) (refuses_change new_bob) 2 start (update new_bob start)
    × Becomes (put_nothing 1) (λ rows. false) 2 start (delete 1 start)
    × Becomes
        (put_role 1 "premium" 5)
        (refuses_role 1 "premium")
        2
        start
        (update_user_role 1 "premium" 5 start)
writes-Becomes_example = writes-Becomes new_bob 1 "premium" 5 2 start

state_once_example :
    (handle_callback env remote github "c" "s" 3 "j" "u" 20
      (handle_callback env remote google "c" "s" 2 "j" "t" 10 awaited).1).0
    ≡ err invalid_state
state_once_example =
    state_once documented env remote google github "c" "c" "s" 2 3 "j" "j" "t" "u" 10 20 awaited
      (λ e. cc e)
