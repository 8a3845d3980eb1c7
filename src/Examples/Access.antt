-- ===== src/Examples/Access.antt =====
-- internal/apikey and the middleware: a key that is issued, used and revoked.
use go_saas_api.Common.{
  ℕ, ◌≡◌, ◌≢◌, ◌⊎◌, refl, String, true, none, some, List, [], ◌∷◌, ◌==◌, nat_eq, string_eq, find_by,
  get_or, if◌then◌else◌,
}
use go_saas_api.Common.Bytes.{Bytes, index_of, starts_with}
use go_saas_api.ApiKey.{
  ApiKey, Keys, granted, generate_key, validate_key, revoke_key, new_key, generate_plain_key,
  create, add_key, call_on, collides, revoke, get_by_key_hash, check_key, mark_revoked, is_active,
  update_last_used, mark_used,
}
use go_saas_api.ApiKey.Runs.{Operation, issue, check, perform, perform_all, validate_key-revoked}
use go_saas_api.ApiKey.Issued.{validate_key-issued}
use go_saas_api.Middleware.{
  Request, Claims, Parsed, parsed, expired, next, jwt_auth, jwt_auth_optional, jwt_or_api_key_auth,
  extract_token, claims_of, key_claims,
}
use go_saas_api.Middleware.Access.{jwt_auth-agree, jwt_or_api_key_auth-revoked}

-- A digest that tells the two plain keys apart.
abbrev hash_key : Bytes → String
hash_key s = if get_or s 3 0 == 49 then "one" else "other"

abbrev first_key : Bytes
first_key = generate_plain_key (49 ∷ []) []

abbrev second_key : Bytes
second_key = generate_plain_key (50 ∷ []) []

abbrev table : Keys
table = record { rows = new_key hash_key 7 "laptop" none 1 first_key 0 ∷ []; faults = [] }

abbrev ops : List Operation
ops = check first_key 6 ∷ issue 8 "phone" none 2 (50 ∷ []) [] 7 ∷ []

-- The other key is accepted; the revoked one would not be.
validate_key-revoked_example : (new_key hash_key 8 "phone" none 2 second_key 7).id ≢ 1
unfolding perform_all perform revoke_key revoke call_on mark_revoked generate_key create add_key
    collides validate_key get_by_key_hash check_key is_active update_last_used mark_used
validate_key-revoked_example =
    validate_key-revoked hash_key 1 5 table ops second_key 9
      (new_key hash_key 8 "phone" none 2 second_key 7) refl refl refl

validate_key-issued_example :
    ((validate_key hash_key second_key 9
        (generate_key hash_key 8 "phone" (some 100) 2 (50 ∷ []) [] 7 table).1).0
      ≡ granted (new_key hash_key 8 "phone" (some 100) 2 second_key 7))
    × ((new_key hash_key 8 "phone" (some 100) 2 second_key 7).user_id ≡ 8)
unfolding generate_key create add_key call_on collides
validate_key-issued_example =
    validate_key-issued hash_key 8 "phone" (some 100) 2 (50 ∷ []) [] 7 table refl 9 second_key
      (new_key hash_key 8 "phone" (some 100) 2 second_key 7) refl refl

abbrev claims : Claims
claims = record { user_id = "7"; role = "user" }

abbrev parse : Bytes → Parsed
parse s = if get_or s 0 0 == 1 then parsed claims true else expired

abbrev format_uuid : ℕ → String
format_uuid id = if id == 8 then "8" else "another"

-- A header "Bearer" with a valid token of one byte, and one with a key only.
abbrev by_token : Request
by_token = record {
  cookie = none;
  authorization = b'B' ∷ b'e' ∷ b'a' ∷ b'r' ∷ b'e' ∷ b'r' ∷ b' ' ∷ 1 ∷ [];
  upgrade = [];
  query_token = [];
  api_key = [];
}

abbrev by_key : Request
by_key = record {
  cookie = none;
  authorization = [];
  upgrade = [];
  query_token = [];
  api_key = second_key;
}

jwt_auth-agree_example :
    ((c : Claims) × (some claims ≡ some c))
    × (jwt_auth_optional parse by_token ≡ next (some claims))
    × (jwt_or_api_key_auth parse hash_key format_uuid by_token 9 table
        ≡ (next (some claims), table))
unfolding jwt_auth index_of starts_with
jwt_auth-agree_example =
    jwt_auth-agree parse hash_key format_uuid by_token 9 table (some claims) refl

jwt_or_api_key_auth-revoked_example :
    ((c : Claims) × (claims_of parse (extract_token by_key).0 ≡ some c)
      × (some (record { user_id = "8"; role = "api_key" }) ≡ some c))
    ⊎ ((k : ApiKey) × (find_by
            (λ j. j.key_hash == hash_key by_key.api_key)
            (perform_all hash_key ops (revoke_key 1 5 table).1).rows
          ≡ some k)
        × (is_active k 9 ≡ true)
        × (k.id ≢ 1)
        × (some (record { user_id = "8"; role = "api_key" }) ≡ some (key_claims format_uuid k)))
unfolding perform_all perform revoke_key revoke call_on mark_revoked generate_key create add_key
    collides validate_key get_by_key_hash check_key is_active update_last_used mark_used
    jwt_or_api_key_auth starts_with
jwt_or_api_key_auth-revoked_example =
    jwt_or_api_key_auth-revoked parse hash_key format_uuid 1 5 table ops by_key 9
      (some (record { user_id = "8"; role = "api_key" })) refl refl refl
