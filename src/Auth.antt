-- ===== src/Auth.antt =====
-- internal/auth: accounts, their passwords and their tokens. The state is the table of users
-- (store.go), the keys in Redis (redis.go, password_reset.go, oauth_state.go), and the mails that
-- were sent. A UUID is a number, a time or a duration a number of seconds. Each call of the
-- database fails where the schedule of faults says so, and then has no effect; Redis, bcrypt, the
-- signing of a JWT, the texts of UUIDs, the mail server and the OAuth providers are parameters.
pub mod Users
pub mod Tokens
pub mod Service
pub mod OAuth
pub mod Http
pub mod Handler
pub mod OAuthHandler
pub mod Requests
pub mod Revoked
pub mod Sessions
pub mod Answers
use go_saas_api.Common.{ℕ, String, Bool, Option, List}

pub record User : Type 0 where
  pub id : ℕ
  pub email : String
  pub password_hash : String
  pub name : String
  pub role : String
  pub is_admin : Bool
  pub messages_used_this_month : ℕ
  pub oauth_provider : String
  pub oauth_subject : String
  pub created_at : ℕ
  pub updated_at : ℕ

-- A key with the prefix of its store: "refresh:", "pwdreset:" and "oauth_state:".
pub data Key : Type 0 where
  refresh pwdreset oauth_state : String → Key

-- What Redis answers to a read: a value, redis.Nil, or another error.
pub data Lookup : Type 0 where
  found : String → Lookup
  missing failed : Lookup

-- The commands of Redis that the stores use, at a time. A command that only writes answers whether
-- it went well.
pub record Redis : Type 1 where
  pub State : Type 0
  pub set : Key → (value : String) → (ttl now : ℕ) → State → Bool × State
  pub get : Key → (now : ℕ) → State → Lookup × State
  pub del : Key → (now : ℕ) → State → Bool × State
  pub get_del : Key → (now : ℕ) → State → Lookup × State

pub record Mail : Type 0 where
  pub to : String
  pub reset_token : String

pub record Accounts (redis : Redis) : Type 0 where
  pub users : List User
  pub faults : List Bool
  pub kv : redis.State
  pub mails : List Mail

-- The claims that `GenerateToken` of pkg/jwt/jwt.go signs.
pub record TokenClaims : Type 0 where
  pub uid : String
  pub role : String
  pub subject : String
  pub issued_at : ℕ
  pub expires_at : ℕ
  pub not_before : ℕ
  pub id : String

-- What the service calls: bcrypt with its random salt, the signing, UUIDs, the mail server, and the
-- lifetimes that it was made with.
pub record Environment : Type 0 where
  pub hash_password : (password salt : String) → Option String
  pub compare_password : (password_hash password : String) → Bool
  pub sign : TokenClaims → Option String
  pub format_uuid : ℕ → String
  pub parse_uuid : String → Option ℕ
  pub send_password_reset : Mail → Bool
  pub access_ttl : ℕ
  pub refresh_ttl : ℕ
  pub reset_token_ttl : ℕ

pub record TokenPair : Type 0 where
  pub access_token : String
  pub refresh_token : String
  pub expires_in : ℕ

pub data DbError : Type 0 where
  no_rows fault violation : DbError

pub data Error : Type 0 where
  invalid_credentials user_exists invalid_token invalid_reset_token : Error
  hash_password create_user generate_access_token save_refresh_token : Error
  generate_reset_token save_reset_token send_email update_password delete_token : Error
  save_state invalid_state exchange_code fetch_user_info : Error
