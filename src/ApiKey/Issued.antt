-- ===== src/ApiKey/Issued.antt =====
-- New keys of internal/apikey/service.go and their first validation.
use go_saas_api.Common.{
  ℕ, ◌≡◌, refl, String, true, false, Option, some, List, [], ◌∷◌, ◌++◌, arith, ◌==◌, nat_eq,
  string_eq, beq_refl, any_by, find_by, Bool-cases, inl, inr,
}
use go_saas_api.Common.Bytes.{Bytes}
use go_saas_api.ApiKey.{
  ApiKey, Keys, granted, denied, has_passed, is_active, call_on, collides, add_key, create,
  get_by_key_hash, generate_key, check_key, validate_key, new_key, generate_plain_key,
  create_failed,
}

find_by-added :
    (key : ApiKey) (rows : List ApiKey)
    → any_by (collides key) rows ≡ false
    → find_by (λ k. k.key_hash == key.key_hash) (rows ++ key ∷ []) ≡ some key
unfolding collides
find_by-added key [] free = rw (beq_refl key.key_hash) refl
find_by-added key (k ∷ rows) free = ground (arith, find_by-added key rows)

module _ (hash_key : Bytes → String) where
  validate_key-added :
      (plain : Bytes) (later : ℕ) (key : ApiKey) (rows : List ApiKey)
      → key.key_hash ≡ hash_key plain
      → any_by (collides key) rows ≡ false
      → is_active key later ≡ true
      → (validate_key hash_key plain later (record { rows = rows ++ key ∷ []; faults = [] })).0
        ≡ granted key
  unfolding validate_key get_by_key_hash call_on check_key
  validate_key-added plain later key rows same free active =
      rw (← same, find_by-added key rows free, active) refl

  module _ (user : ℕ) (name : String) (expires_at : Option ℕ) (id : ℕ) (first second : Bytes)
      (now : ℕ) (w : Keys) (calm : w.faults ≡ []) where
    abbrev plain_key : Bytes
    plain_key = generate_plain_key first second

    abbrev issued : ApiKey
    issued = new_key hash_key user name expires_at id plain_key now

    generate_key-free :
        any_by (collides issued) w.rows ≡ false
        → generate_key hash_key user name expires_at id first second now w
          ≡ (granted (plain_key, issued), record { rows = w.rows ++ issued ∷ []; faults = [] })
    unfolding generate_key create call_on add_key
    generate_key-free free = rw (calm, free) refl

    generate_key-taken :
        any_by (collides issued) w.rows ≡ true
        → generate_key hash_key user name expires_at id first second now w
          ≡ (denied create_failed, w)
    unfolding generate_key create call_on add_key
    generate_key-taken taken = rw (calm, taken) refl

    -- Where no call of the table fails, a plain key that was just issued is accepted as long as it
    -- has not expired, and gives the row of the user it was issued to.
    pub validate_key-issued :
        (later : ℕ) (plain : Bytes) (key : ApiKey)
        → (generate_key hash_key user name expires_at id first second now w).0
          ≡ granted (plain, key)
        → has_passed expires_at later ≡ false
        → ((validate_key hash_key plain later
              (generate_key hash_key user name expires_at id first second now w).1).0
            ≡ granted key)
          × (key.user_id ≡ user)
    validate_key-issued later plain key made valid =
        elim (Bool-cases (any_by (collides issued) w.rows)) [
          | inl taken ↦ absurd (
              let no : denied create_failed ≡ granted (plain, key) =
                rw (generate_key-taken taken) at made in
              cc no)
          | inr free ↦
              let made' : granted (plain_key, issued) ≡ granted (plain, key) =
                rw (generate_key-free free) at made in
              let text : plain_key ≡ plain = cc made' in
              let row : issued ≡ key = cc made' in
              rw (generate_key-free free, ← text, ← row)
                (
                  validate_key-added plain_key later issued w.rows refl free
                      (unfold is_active in rw valid refl),
                  refl,
                )
        ]
