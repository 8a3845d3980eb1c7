-- ===== src/Auth/Http.antt =====
-- Answers of internal/auth: what the handlers of handler.go, admin_handler.go and oauth_handler.go
-- send, and the cookies of `setAuthCookies` and `clearAuthCookies`. The environment variables that
-- they read are in `Deployment`.
use go_saas_api.Common.{
  ◌≡◌, refl, ap, ℕ, String, Bool, true, false, ◌||◌, not, Option, none, some, List, [], ◌∷◌, ◌==◌,
  string_eq, if◌then◌else◌,
}
use go_saas_api.Common.Int.{ℤ, pos, negsuc}
use go_saas_api.Common.Bytes.{Bytes, starts_with, index_of}
use go_saas_api.Common.Effect.{Result, ok, err}
use go_saas_api.Auth.{User, Redis, Accounts, TokenPair, Error}

pub record Deployment : Type 0 where
  pub env : String
  pub public_url : Bytes
  pub frontend_url : String

pub data SameSite : Type 0 where
  strict_mode none_mode lax_mode : SameSite

pub record Cookie : Type 0 where
  pub name : String
  pub value : String
  pub max_age : ℤ
  pub secure : Bool
  pub http_only : Bool
  pub same_site : SameSite

-- `userResponse` of ListUsers: no password hash.
pub record UserResponse : Type 0 where
  pub id : ℕ
  pub email : String
  pub name : String
  pub role : String
  pub is_admin : Bool
  pub messages_used_this_month : ℕ
  pub created_at : ℕ

abbrev pub response_of : User → UserResponse
response_of u = record {
  id = u.id;
  email = u.email;
  name = u.name;
  role = u.role;
  is_admin = u.is_admin;
  messages_used_this_month = u.messages_used_this_month;
  created_at = u.created_at;
}

-- The JSON of a User leaves out the password hash.
pub data Payload : Type 0 where
  empty : Payload
  account : User → Payload
  session : User → TokenPair → Payload
  accounts : List UserResponse → Payload
  tier : String → Payload

-- response.OK, response.Error and c.Redirect
pub data Outcome : Type 0 where
  success : Payload → (message : String) → Outcome
  failure : (status : ℕ) → (message : String) → Outcome
  redirect : (url : String) → Outcome

pub record Response : Type 0 where
  pub cookies : List Cookie
  pub outcome : Outcome

abbrev pub plain : Outcome → Response
plain outcome = record { cookies = []; outcome = outcome }

abbrev pub Handler : Redis → Type 0
Handler redis = Accounts redis → Response × Accounts redis

-- "https://", "localhost" and "127.0.0.1"
abbrev https_scheme : Bytes
https_scheme = 104 ∷ 116 ∷ 116 ∷ 112 ∷ 115 ∷ 58 ∷ 47 ∷ 47 ∷ []

abbrev localhost : Bytes
localhost = 108 ∷ 111 ∷ 99 ∷ 97 ∷ 108 ∷ 104 ∷ 111 ∷ 115 ∷ 116 ∷ []

abbrev loopback : Bytes
loopback = 49 ∷ 50 ∷ 55 ∷ 46 ∷ 48 ∷ 46 ∷ 48 ∷ 46 ∷ 49 ∷ []

abbrev is_found : Option ℕ → Bool
is_found none = false
is_found (some i) = true

-- Whether cookies are secure, and their SameSite.
unfoldable pub cookie_config : Deployment → Bool × String
cookie_config dep =
    if not (dep.env == "production")
    then (false, "lax")
    else if starts_with https_scheme dep.public_url
    then (true, "none")
    else if is_found (index_of localhost dep.public_url)
        || is_found (index_of loopback dep.public_url)
    then (true, "none")
    else if dep.env == "production" || dep.env == "prod"
    then (true, "lax")
    else (false, "lax")

unfoldable pub same_site_value : String → SameSite
same_site_value v =
    if v == "strict" then strict_mode else if v == "none" then none_mode else lax_mode

unfoldable pub auth_cookie : Deployment → (name value : String) → (max_age : ℤ) → Cookie
unfolding cookie_config same_site_value
auth_cookie dep name value max_age =
    let (secure, same_site) = cookie_config dep in
    record {
      name = name;
      value = value;
      max_age = max_age;
      secure = secure;
      http_only = true;
      same_site = same_site_value same_site;
    }

unfoldable pub set_auth_cookies : Deployment → TokenPair → List Cookie
unfolding auth_cookie
set_auth_cookies dep pair =
    auth_cookie dep "access_token" pair.access_token (pos pair.expires_in)
    ∷ auth_cookie dep "refresh_token" pair.refresh_token (pos 604800)
    ∷ []

unfoldable pub clear_auth_cookies : Deployment → List Cookie
unfolding auth_cookie
clear_auth_cookies dep =
    auth_cookie dep "access_token" "" (negsuc 0)
    ∷ auth_cookie dep "refresh_token" "" (negsuc 0)
    ∷ []

-- The session of a pair, with its cookies.
unfoldable pub signed_in : Deployment → (message : String) → TokenPair × User → Response
unfolding set_auth_cookies
signed_in dep message (pair, user) = record {
  cookies = set_auth_cookies dep pair;
  outcome = success (session user pair) message;
}

-- The answer to the result of a call.
abbrev pub answer :
    {redis : Redis} {A E : Type 0}
    → (E → Response)
    → (A → Response)
    → Result E A × Accounts redis
    → Response × Accounts redis
answer bad good (ok a, w) = (good a, w)
answer bad good (err e, w) = (bad e, w)

pub answer-err :
    {redis : Redis} {A : Type 0} (bad : Error → Response) (good : A → Response)
    (x : Result Error A × Accounts redis) (e : Error)
    → x.0 ≡ err e
    → (answer bad good x).0 ≡ bad e
answer-err bad good (ok a, w) e q = cc
answer-err bad good (err d, w) e q = ap bad (cc q)

pub answer-ok :
    {redis : Redis} {A : Type 0} (bad : Error → Response) (good : A → Response)
    (x : Result Error A × Accounts redis) (a : A)
    → x.0 ≡ ok a
    → (answer bad good x).0 ≡ good a
answer-ok bad good (ok b, w) a q = ap good (cc q)
answer-ok bad good (err d, w) a q = cc

-- The state is that of the call.
pub answer-state :
    {redis : Redis} {A E : Type 0} (bad : E → Response) (good : A → Response)
    (x : Result E A × Accounts redis)
    → (answer bad good x).1 ≡ x.1
answer-state bad good (ok a, w) = refl
answer-state bad good (err e, w) = refl
