-- ===== src/Middleware.antt =====
-- internal/platform/middleware/jwt.go and apikey.go, and `ValidateToken` of pkg/jwt/jwt.go: who a
-- request comes from. Headers and parameters are bytes, [] where the request has none; the cookie
-- is nothing where gin finds none. Parsing a token with the manager's secret is a parameter, and so
-- is the text of a UUID. The log lines are left out.
pub mod Access
use go_saas_api.Common.{
  ℕ, String, Bool, true, false, ◌+◌, ◌&&◌, Option, none, some, [], ◌∷◌, leb, ◌==◌, nat_eq,
  if◌then◌else◌, take, drop, length,
}
use go_saas_api.Common.Bytes.{Bytes, index_of, starts_with}
use go_saas_api.ApiKey.{ApiKey, Keys, Verdict, granted, denied, validate_key}

pub record Request : Type 0 where
  pub cookie : Option Bytes
  pub authorization : Bytes
  pub upgrade : Bytes
  pub query_token : Bytes
  pub api_key : Bytes

pub record Claims : Type 0 where
  pub user_id : String
  pub role : String

-- What jwt.ParseWithClaims returns: the claims with the mark `Valid`, the error for an expired
-- token, or another error.
pub data Parsed : Type 0 where
  parsed : Claims → (is_valid : Bool) → Parsed
  expired other_error : Parsed

pub data TokenError : Type 0 where
  invalid_token expired_token : TokenError

pub data Validated : Type 0 where
  valid : Claims → Validated
  failed : TokenError → Validated

-- The request goes on, with the user and the role in its context if there is one, or it is answered
-- with 401.
pub data Decision : Type 0 where
  next : Option Claims → Decision
  abort : (message : String) → Decision

-- strings.ToLower, up to runes whose lower case is no letter of "bearer" or "websocket": the Kelvin
-- sign is the one rune beyond ASCII that becomes one.
unfoldable pub to_lower : Bytes → Bytes
to_lower [] = []
to_lower (b ∷ s) =
    let rest = to_lower s in
    if b == 226 && starts_with (132 ∷ 170 ∷ []) s
    then b'k' ∷ drop 2 rest
    else if leb b'A' b && leb b b'Z'
    then (b + 32) ∷ rest
    else b ∷ rest

unfoldable pub same_bytes : Bytes → Bytes → Bool
same_bytes s t = starts_with s t && length s == length t

abbrev pub bearer : Bytes
bearer = b'b' ∷ b'e' ∷ b'a' ∷ b'r' ∷ b'e' ∷ b'r' ∷ []

abbrev pub websocket : Bytes
websocket = b'w' ∷ b'e' ∷ b'b' ∷ b's' ∷ b'o' ∷ b'c' ∷ b'k' ∷ b'e' ∷ b't' ∷ []

-- The parts of the header around its first space.
unfoldable pub bearer_token : Bytes → Option ℕ → Bytes × Bool
unfolding to_lower same_bytes
bearer_token header none = ([], true)
bearer_token header (some i) =
    if same_bytes bearer (to_lower (take i header))
    then (drop (i + 1) header, false)
    else ([], true)

unfoldable pub websocket_token : Request → Bytes × Bool
unfolding to_lower same_bytes
websocket_token req =
    if same_bytes websocket (to_lower req.upgrade) then (req.query_token, false) else ([], false)

unfoldable pub header_token : Request → Bytes → Bytes × Bool
unfolding bearer_token websocket_token
header_token req [] = websocket_token req
header_token req (b ∷ header) = bearer_token (b ∷ header) (index_of (b' ' ∷ []) (b ∷ header))

unfoldable pub cookie_token : Request → Option Bytes → Bytes × Bool
unfolding header_token
cookie_token req none = header_token req req.authorization
cookie_token req (some []) = header_token req req.authorization
cookie_token req (some (b ∷ token)) = (b ∷ token, false)

unfoldable pub extract_token : Request → Bytes × Bool
unfolding cookie_token
extract_token req = cookie_token req req.cookie

unfoldable pub validate_parsed : Parsed → Validated
validate_parsed (parsed claims true) = valid claims
validate_parsed (parsed claims false) = failed invalid_token
validate_parsed expired = failed expired_token
validate_parsed other_error = failed invalid_token

abbrev pub malformed_header : Decision
malformed_header = abort "invalid authorization header format"

unfoldable pub decide_token : Validated → Decision
decide_token (valid claims) = next (some claims)
decide_token (failed expired_token) = abort "token expired"
decide_token (failed invalid_token) = abort "invalid token"

unfoldable pub claims_if_valid : Validated → Option Claims
claims_if_valid (valid claims) = some claims
claims_if_valid (failed e) = none

module _ (format_uuid : ℕ → String) where
  -- What a valid key puts into the context.
  abbrev pub key_claims : ApiKey → Claims
  key_claims key = record { user_id = format_uuid key.user_id; role = "api_key" }

  unfoldable pub decide_key : (denial : Decision) → Verdict ApiKey × Keys → Decision × Keys
  decide_key denial (granted key, w) = (next (some (key_claims key)), w)
  decide_key denial (denied refusal, w) = (denial, w)

module _ (hash_key : Bytes → String) (format_uuid : ℕ → String) where
  unfoldable pub api_key_auth : Bytes → (now : ℕ) → Keys → Decision × Keys
  unfolding validate_key decide_key
  api_key_auth [] now w = (next none, w)
  api_key_auth (b ∷ header) now w =
      decide_key format_uuid (abort "invalid api key") (validate_key hash_key (b ∷ header) now w)

  unfoldable pub try_key : (denial : Decision) → Bytes → (now : ℕ) → Keys → Decision × Keys
  unfolding validate_key decide_key
  try_key denial [] now w = (denial, w)
  try_key denial (b ∷ header) now w =
      decide_key format_uuid denial (validate_key hash_key (b ∷ header) now w)

  unfoldable pub decide_either :
      Option Claims → (malformed : Bool) → Bytes → (now : ℕ) → Keys → Decision × Keys
  unfolding try_key
  decide_either (some claims) malformed header now w = (next (some claims), w)
  decide_either none malformed header now w =
      try_key (if malformed then malformed_header else abort "authentication required") header now w

module _ (parse : Bytes → Parsed) where
  unfoldable pub validate_token : Bytes → Validated
  unfolding validate_parsed
  validate_token token = validate_parsed (parse token)

  unfoldable pub decide_extracted : Bytes × Bool → Decision
  unfolding validate_token decide_token
  decide_extracted ([], malformed) =
      if malformed then malformed_header else abort "missing authorization"
  decide_extracted (b ∷ token, malformed) = decide_token (validate_token (b ∷ token))

  unfoldable pub jwt_auth : Request → Decision
  unfolding extract_token decide_extracted
  jwt_auth req = decide_extracted (extract_token req)

  -- The claims of a token that is there and valid.
  unfoldable pub claims_of : Bytes → Option Claims
  unfolding validate_token claims_if_valid
  claims_of [] = none
  claims_of (b ∷ token) = claims_if_valid (validate_token (b ∷ token))

  unfoldable pub jwt_auth_optional : Request → Decision
  unfolding extract_token claims_of
  jwt_auth_optional req = next (claims_of (extract_token req).0)

  unfoldable pub jwt_or_api_key_auth :
      (hash_key : Bytes → String) (format_uuid : ℕ → String)
      → Request
      → (now : ℕ) → Keys
      → Decision × Keys
  unfolding extract_token claims_of decide_either
  jwt_or_api_key_auth hash_key format_uuid req now =
      decide_either hash_key format_uuid (claims_of (extract_token req).0) (extract_token req).1
        req.api_key now
