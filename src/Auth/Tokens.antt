-- ===== src/Auth/Tokens.antt =====
-- The stores in Redis: `RedisRefreshTokenStore` (internal/auth/redis.go),
-- `RedisPasswordResetTokenStore` (password_reset.go) and `RedisOAuthStateStore` (oauth_state.go).
-- What Redis documents of its commands is in `Documented`, and in `Reliable` where it does not
-- fail.
use go_saas_api.Common.{
  ℕ, ◌+◌, ◌≡◌, ◌≢◌, ◌⊎◌, String, Bool, true, false, Option, none, some, ◌==◌, string_eq,
  if◌then◌else◌, ltb,
}
use go_saas_api.Common.Effect.{Result, ok, err, M}
use go_saas_api.Auth.{Redis, Key, oauth_state, Lookup, found, missing, failed, Accounts, Error}

-- `holds s k t`: the value that the key has at the time, if none of the writes comes in between.
pub record Documented (redis : Redis) : Type 0 where
  pub holds : redis.State → Key → (now : ℕ) → Option String
  pub set_other :
      (k : Key) (v : String) (ttl now : ℕ) (s : redis.State) (j : Key) (t : ℕ)
      → j ≢ k
      → holds (redis.set k v ttl now s).1 j t ≡ holds s j t
  pub get_keeps :
      (k : Key) (now : ℕ) (s : redis.State) (j : Key) (t : ℕ)
      → holds (redis.get k now s).1 j t ≡ holds s j t
  pub get_found :
      (k : Key) (now : ℕ) (s : redis.State) (v : String)
      → (redis.get k now s).0 ≡ found v
      → holds s k now ≡ some v
  pub del_other :
      (k : Key) (now : ℕ) (s : redis.State) (j : Key) (t : ℕ)
      → j ≢ k
      → holds (redis.del k now s).1 j t ≡ holds s j t
  pub del_only :
      (k : Key) (now : ℕ) (s : redis.State) (t : ℕ)
      → (holds (redis.del k now s).1 k t ≡ none) ⊎ (holds (redis.del k now s).1 k t ≡ holds s k t)
  pub del_done :
      (k : Key) (now : ℕ) (s : redis.State) (t : ℕ)
      → (redis.del k now s).0 ≡ true
      → holds (redis.del k now s).1 k t ≡ none
  pub get_del_other :
      (k : Key) (now : ℕ) (s : redis.State) (j : Key) (t : ℕ)
      → j ≢ k
      → holds (redis.get_del k now s).1 j t ≡ holds s j t
  pub get_del_found :
      (k : Key) (now : ℕ) (s : redis.State) (v : String)
      → (redis.get_del k now s).0 ≡ found v
      → holds s k now ≡ some v
  pub get_del_done :
      (k : Key) (now : ℕ) (s : redis.State) (t : ℕ)
      → (redis.get_del k now s).0 ≢ failed
      → holds (redis.get_del k now s).1 k t ≡ none

-- Commands that do not fail: a value that is set is there while its time is not over (what a
-- lifetime of 0 means beyond that is left open), and a key that holds a value is found.
pub record Reliable {redis : Redis} (doc : Documented redis) : Type 0 where
  pub set_done :
      (k : Key) (v : String) (ttl now : ℕ) (s : redis.State) → (redis.set k v ttl now s).0 ≡ true
  pub set_holds :
      (k : Key) (v : String) (ttl now : ℕ) (s : redis.State) (t : ℕ)
      → ltb t (now + ttl) ≡ true
      → doc.holds (redis.set k v ttl now s).1 k t ≡ some v
  pub get_holds :
      (k : Key) (now : ℕ) (s : redis.State) (v : String)
      → doc.holds s k now ≡ some v
      → (redis.get k now s).0 ≡ found v
  pub del_works : (k : Key) (now : ℕ) (s : redis.State) → (redis.del k now s).0 ≡ true

abbrev value_of : Error → Lookup → Result Error String
value_of e (found v) = ok v
value_of e missing = err e
value_of e failed = err e

abbrev is_valid : Error → Lookup → Result Error Bool
is_valid e (found v) = ok (v == "1")
is_valid e missing = ok false
is_valid e failed = err e

module _ {redis : Redis} where
  -- A write whose error becomes `e`.
  unfoldable pub done_or :
      Error → (redis.State → Bool × redis.State) → M (Accounts redis) Error (Unit {0})
  done_or e command w =
      let (went_well, kv) = command w.kv in
      (if went_well then ok tt else err e, record w { kv = kv })

  -- A read whose errors become `e`; a missing key is one.
  unfoldable pub found_or :
      Error → (redis.State → Lookup × redis.State) → M (Accounts redis) Error String
  found_or e command w =
      let (answer, kv) = command w.kv in (value_of e answer, record w { kv = kv })

  -- `Save`, `Get` and `Delete` of the two token stores, with the store's key.
  unfoldable pub save_token :
      Error → Key → (user_id : String) (ttl now : ℕ) → M (Accounts redis) Error (Unit {0})
  unfolding done_or
  save_token e key user_id ttl now = done_or e (redis.set key user_id ttl now)

  unfoldable pub get_token : Error → Key → (now : ℕ) → M (Accounts redis) Error String
  unfolding found_or
  get_token e key now = found_or e (redis.get key now)

  unfoldable pub delete_token : Error → Key → (now : ℕ) → M (Accounts redis) Error (Unit {0})
  unfolding done_or
  delete_token e key now = done_or e (redis.del key now)

  unfoldable pub save_state :
      Error → (state : String) (expiration now : ℕ) → M (Accounts redis) Error (Unit {0})
  unfolding done_or
  save_state e state expiration now = done_or e (redis.set (oauth_state state) "1" expiration now)

  unfoldable pub validate_state : Error → (state : String) (now : ℕ) → M (Accounts redis) Error Bool
  validate_state e state now w =
      let (answer, kv) = redis.get_del (oauth_state state) now w.kv in
      (is_valid e answer, record w { kv = kv })
