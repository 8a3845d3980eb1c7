-- ===== src/ApiKey/Http.antt =====
-- `Handler` of internal/apikey/handler.go. The user is the one that the middleware has put into the
-- context; uuid.Parse and the binding of the body are parameters.
use go_saas_api.Common.{ℕ, String, Option, none, some, List}
use go_saas_api.Common.Bytes.{Bytes}
use go_saas_api.ApiKey.{ApiKey, Keys, Verdict, granted, denied, generate_key, list_keys, revoke_key}

pub data Payload : Type 0 where
  created : (plain : Bytes) → ApiKey → Payload
  keys : List ApiKey → Payload
  revoked : Payload

pub data Response : Type 0 where
  success : (status : ℕ) → Payload → Response
  error : (status : ℕ) → (message : String) → Response

-- What the service returned, with the message for its errors.
abbrev pub answer : {A : Type 0} → String → (A → Response) → Verdict A × Keys → Response × Keys
answer message done (granted a, w) = (done a, w)
answer message done (denied refusal, w) = (error 500 message, w)

-- What binding a body gives: the value, or the text of an error.
pub data Binding (A : Type 0) : Type 0 where
  bound : A → Binding A
  unbound : String → Binding A

module _ (parse_uuid : String → Option ℕ) where
  -- What uuid.Parse makes of the text, or the response if it is no UUID.
  unfoldable pub with_id :
      String
      → (message : String) → (status : ℕ) → (ℕ → Keys → Response × Keys)
      → Keys
      → Response × Keys
  with_id text message status next w = elim (parse_uuid text) [
    | none ↦ (error status message, w)
    | some id ↦ next id w
  ]

  unfoldable pub create_bound :
      (hash_key : Bytes → String) (user : ℕ)
      → Binding String
      → (id : ℕ) (first second : Bytes) (now : ℕ) → Keys
      → Response × Keys
  create_bound hash_key user (unbound cause) id first second now w = (error 400 cause, w)
  create_bound hash_key user (bound name) id first second now w =
      answer "failed to create api key" (λ made. success 201 (created made.0 made.1))
        (generate_key hash_key user name none id first second now w)

  unfoldable pub create_handler :
      (hash_key : Bytes → String) (user_id : String) (name : Binding String) (id : ℕ)
      (first second : Bytes) (now : ℕ)
      → Keys
      → Response × Keys
  unfolding with_id create_bound
  create_handler hash_key user_id name id first second now =
      with_id user_id "invalid user" 401 λ user. create_bound hash_key user name id first second now

  unfoldable pub list_handler : (user_id : String) → Keys → Response × Keys
  unfolding with_id
  list_handler user_id =
      with_id user_id "invalid user" 401
        λ user w. answer "failed to list api keys" (λ ks. success 200 (keys ks)) (list_keys user w)

  unfoldable pub revoke_handler : (param : String) (now : ℕ) → Keys → Response × Keys
  unfolding with_id
  revoke_handler param now =
      with_id param "invalid id" 400
        λ id w. answer "failed to revoke api key" (λ _. success 200 revoked) (revoke_key id now w)
