-- ===== src/ApiKey.antt =====
-- internal/apikey: keys for programs, their table (store.go), the service (service.go) and whether
-- a key is active (model.go). A UUID is a number, a time a number of seconds; the time, the new
-- UUID and the new plain key of an operation are arguments. The digest of a plain key (`hashKey`,
-- SHA-256 in hex) is a parameter. Each call of the table fails where the schedule of faults says
-- so, and a call that fails has no effect.
pub mod Http
mod Revoked
pub mod Runs
pub mod Issued
use go_saas_api.Common.{
  ℕ, String, Bool, true, false, ◌&&◌, ◌||◌, not, Option, none, some, List, [], ◌∷◌, ◌++◌, map, ltb,
  ◌==◌, nat_eq, string_eq, if◌then◌else◌, any_by, find_by, filter_by,
}
use go_saas_api.Common.Bytes.{Bytes}

pub record ApiKey : Type 0 where
  pub id : ℕ
  pub user_id : ℕ
  pub name : String
  pub key_hash : String
  pub scopes : List String
  pub last_used_at : Option ℕ
  pub expires_at : Option ℕ
  pub created_at : ℕ
  pub revoked_at : Option ℕ

pub record Keys : Type 0 where
  pub rows : List ApiKey
  pub faults : List Bool

pub data Refusal : Type 0 where
  create_failed list_failed revoke_failed invalid_key revoked_or_expired : Refusal

pub data Verdict (A : Type 0) : Type 0 where
  granted : A → Verdict A
  denied : Refusal → Verdict A

abbrev pub is_unset : Option ℕ → Bool
is_unset none = true
is_unset (some t) = false

abbrev pub has_passed : Option ℕ → (now : ℕ) → Bool
has_passed none now = false
has_passed (some t) now = ltb t now

unfoldable pub is_active : ApiKey → (now : ℕ) → Bool
is_active k now = is_unset k.revoked_at && not (has_passed k.expires_at now)

-- A call of the table gives nothing where the code gets an error.
unfoldable pub call_on :
    {A : Type 0} → List Bool → (Keys → Option A × Keys) → Keys → Option A × Keys
call_on [] run w = run w
call_on (true ∷ faults) run w = (none, record w { faults = faults })
call_on (false ∷ faults) run w = run (record w { faults = faults })

abbrev pub call : {A : Type 0} → (Keys → Option A × Keys) → Keys → Option A × Keys
call run w = call_on w.faults run w

-- The primary key, and UNIQUE (key_hash).
unfoldable pub collides : ApiKey → ApiKey → Bool
collides new old = old.id == new.id || old.key_hash == new.key_hash

unfoldable pub add_key : ApiKey → Keys → Option (Unit {0}) × Keys
unfolding collides
add_key key w =
    if any_by (collides key) w.rows
    then (none, w)
    else (some tt, record w { rows = w.rows ++ key ∷ [] })

unfoldable pub create : ApiKey → Keys → Option (Unit {0}) × Keys
unfolding call_on add_key
create key = call (add_key key)

unfoldable pub get_by_key_hash : String → Keys → Option ApiKey × Keys
unfolding call_on
get_by_key_hash digest = call (λ w. (find_by (λ k. k.key_hash == digest) w.rows, w))

-- ORDER BY created_at DESC
unfoldable pub insert_by_created : ApiKey → List ApiKey → List ApiKey
insert_by_created k [] = k ∷ []
insert_by_created k (j ∷ rows) =
    let later = insert_by_created k rows in
    if ltb k.created_at j.created_at then j ∷ later else k ∷ j ∷ rows

unfoldable pub order_by_created : List ApiKey → List ApiKey
unfolding insert_by_created
order_by_created [] = []
order_by_created (k ∷ rows) = insert_by_created k (order_by_created rows)

unfoldable pub list_by_user : (user : ℕ) → Keys → Option (List ApiKey) × Keys
unfolding call_on order_by_created
list_by_user user = call λ w. (
  some (order_by_created (filter_by (λ k. k.user_id == user && is_unset k.revoked_at) w.rows)),
  w,
)

unfoldable pub mark_revoked : (id now : ℕ) → ApiKey → ApiKey
mark_revoked id now k = if k.id == id then record k { revoked_at = some now } else k

unfoldable pub revoke : (id now : ℕ) → Keys → Option (Unit {0}) × Keys
unfolding call_on mark_revoked
revoke id now = call (λ w. (some tt, record w { rows = map (mark_revoked id now) w.rows }))

unfoldable pub mark_used : (id now : ℕ) → ApiKey → ApiKey
mark_used id now k = if k.id == id then record k { last_used_at = some now } else k

unfoldable pub update_last_used : (id now : ℕ) → Keys → Option (Unit {0}) × Keys
unfolding call_on mark_used
update_last_used id now = call (λ w. (some tt, record w { rows = map (mark_used id now) w.rows }))

-- What the service makes of the answer of the table.
abbrev pub or_denied : {A B : Type 0} → Refusal → (A → B) → Option A × Keys → Verdict B × Keys
or_denied refusal done (none, w) = (denied refusal, w)
or_denied refusal done (some a, w) = (granted (done a), w)

unfoldable pub list_keys : (user : ℕ) → Keys → Verdict (List ApiKey) × Keys
unfolding list_by_user
list_keys user w = or_denied list_failed (λ keys. keys) (list_by_user user w)

unfoldable pub revoke_key : (id now : ℕ) → Keys → Verdict (Unit {0}) × Keys
unfolding revoke
revoke_key id now w = or_denied revoke_failed (λ u. u) (revoke id now w)

unfoldable pub check_key : Option ApiKey → (now : ℕ) → Keys → Verdict ApiKey × Keys
unfolding is_active update_last_used
check_key none now w = (denied invalid_key, w)
check_key (some key) now w =
    if is_active key now
    then (granted key, (update_last_used key.id now w).1)
    else (denied revoked_or_expired, w)

-- "sk_" and the texts of two new UUIDs
abbrev pub generate_plain_key : (first second : Bytes) → Bytes
generate_plain_key first second = (b's' ∷ b'k' ∷ b'_' ∷ first) ++ second

module _ (hash_key : Bytes → String) where
  abbrev pub new_key :
      (user : ℕ) (name : String) (expires_at : Option ℕ) (id : ℕ) (plain : Bytes) (now : ℕ) → ApiKey
  new_key user name expires_at id plain now = record {
    id = id;
    user_id = user;
    name = name;
    key_hash = hash_key plain;
    scopes = "api" ∷ [];
    last_used_at = none;
    expires_at = expires_at;
    created_at = now;
    revoked_at = none;
  }

  unfoldable pub generate_key :
      (user : ℕ) (name : String) (expires_at : Option ℕ) (id : ℕ) (first second : Bytes) (now : ℕ)
      → Keys
      → Verdict (Bytes × ApiKey) × Keys
  unfolding create
  generate_key user name expires_at id first second now w =
      let plain = generate_plain_key first second in
      let key = new_key user name expires_at id plain now in
      or_denied create_failed (λ _. (plain, key)) (create key w)

  unfoldable pub validate_key : (plain : Bytes) (now : ℕ) → Keys → Verdict ApiKey × Keys
  unfolding get_by_key_hash check_key
  validate_key plain now w =
      let (found, w') = get_by_key_hash (hash_key plain) w in check_key found now w'
