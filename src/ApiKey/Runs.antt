-- ===== src/ApiKey/Runs.antt =====
-- Sequences of the operations of the service, and keys that were revoked before them.
use go_saas_api.Common.{
  ℕ, ◌≡◌, ◌≢◌, refl, ap, String, Bool, true, false, Option, none, some, List, [], ◌∷◌, ◌==◌, nat_eq,
  string_eq, any_by, find_by, Bool-cases, Option-cases, inl, inr,
}
use go_saas_api.Common.Bytes.{Bytes}
use go_saas_api.ApiKey.{
  ApiKey, Keys, granted, denied, is_active, call_on, get_by_key_hash, revoke, revoke_key,
  generate_key, check_key, validate_key, or_denied, revoke_failed,
}
use go_saas_api.ApiKey.Revoked.{
  Revoked, create-Revoked, revoke-Revoked, used-Revoked, get-Revoked, revoke-marks, find_by-active,
}

-- A call of the service, with its time.
pub data Operation : Type 0 where
  issue :
      (user : ℕ) (name : String) (expires_at : Option ℕ) (id : ℕ) (first second : Bytes) (now : ℕ)
      → Operation
  retire : (id now : ℕ) → Operation
  check : (plain : Bytes) (now : ℕ) → Operation

module _ (hash_key : Bytes → String) where
  unfoldable pub perform : Operation → Keys → Keys
  perform (issue user name expires_at id first second now) w =
      (generate_key hash_key user name expires_at id first second now w).1
  perform (retire id now) w = (revoke_key id now w).1
  perform (check plain now) w = (validate_key hash_key plain now w).1

  unfoldable pub perform_all : List Operation → Keys → Keys
  unfolding perform
  perform_all [] w = w
  perform_all (op ∷ ops) w = perform_all ops (perform op w)

or_denied-state :
    {A B : Type 0} (r : _) (done : A → B) (x : Option A × Keys) → (or_denied r done x).1 ≡ x.1
or_denied-state r done (none, w) = refl
or_denied-state r done (some a, w) = refl

module _ (hash_key : Bytes → String) (id : ℕ) where
  check_key-Revoked :
      (found : Option ApiKey) (now : ℕ) (w : Keys)
      → Revoked id w.rows
      → Revoked id (check_key found now w).1.rows
  unfolding check_key
  check_key-Revoked none now w r = r
  check_key-Revoked (some k) now w r = elim (Bool-cases (is_active k now)) [
    | inl e ↦ rw e (used-Revoked id k.id now w r)
    | inr e ↦ rw e r
  ]

  perform-Revoked :
      (op : Operation) (w : Keys) → Revoked id w.rows → Revoked id (perform hash_key op w).rows
  unfolding perform generate_key revoke_key validate_key
  perform-Revoked (issue user name expires_at j first second now) w r =
      rw (or_denied-state) (create-Revoked id _ w r)
  perform-Revoked (retire j now) w r = rw (or_denied-state) (revoke-Revoked id j now w r)
  perform-Revoked (check plain now) w r =
      check_key-Revoked _ now _ (get-Revoked id (hash_key plain) w r)

  perform_all-Revoked :
      (ops : List Operation) (w : Keys)
      → Revoked id w.rows
      → Revoked id (perform_all hash_key ops w).rows
  unfolding perform_all
  perform_all-Revoked [] w r = r
  perform_all-Revoked (op ∷ ops) w r =
      perform_all-Revoked ops (perform hash_key op w) (perform-Revoked op w r)

get_by_key_hash-found :
    (digest : String) (faults : List Bool) (w : Keys) (k : ApiKey)
    → w.faults ≡ faults
    → (get_by_key_hash digest w).0 ≡ some k
    → find_by (λ j. j.key_hash == digest) w.rows ≡ some k
unfolding get_by_key_hash call_on
get_by_key_hash-found digest [] w k e found = rw e at found
get_by_key_hash-found digest (true ∷ faults) w k e found =
    absurd (let no : none ≡ some k = rw e at found in cc no)
get_by_key_hash-found digest (false ∷ faults) w k e found = rw e at found

check_key-granted :
    (found : Option ApiKey) (now : ℕ) (w : Keys) (k : ApiKey)
    → (check_key found now w).0 ≡ granted k
    → (found ≡ some k) × (is_active k now ≡ true)
unfolding check_key
check_key-granted none now w k h = cc
check_key-granted (some j) now w k h = elim (Bool-cases (is_active j now)) [
  | inl e ↦
      let same : granted j ≡ granted k = rw e at h in
      let it : j ≡ k = cc same in (ap some it, rw (← it) e)
  | inr e ↦ absurd (let no : denied _ ≡ granted k = rw e at h in cc no)
]

-- A validation that is granted found an active row under the digest of the key.
pub validate_key-granted :
    (hash_key : Bytes → String) (plain : Bytes) (now : ℕ) (w : Keys) (k : ApiKey)
    → (validate_key hash_key plain now w).0 ≡ granted k
    → (find_by (λ j. j.key_hash == hash_key plain) w.rows ≡ some k) × (is_active k now ≡ true)
unfolding validate_key
validate_key-granted hash_key plain now w k h =
    let (found, active) = check_key-granted _ now _ k h in
    (get_by_key_hash-found (hash_key plain) w.faults w k refl found, active)

revoke_key-granted :
    (id now : ℕ) (w : Keys) → (revoke_key id now w).0 ≡ granted tt → (revoke id now w).0 ≡ some tt
unfolding revoke_key
revoke_key-granted id now w h = elim (Option-cases (revoke id now w).0) [
  | inl e ↦ absurd (go (revoke id now w) e h)
  | inr (u, e) ↦ e
]
  where
    go :
        (x : Option (Unit {0}) × Keys)
        → x.0 ≡ none
        → (or_denied revoke_failed (λ u. u) x).0 ≡ granted tt
        → ⊥
    go (none, v) e h = cc
    go (some u, v) e h = cc

-- A key that is in the table and whose revocation is granted is accepted by no later validation,
-- whatever the service does in between: new keys, other revocations and validations, with any
-- calls of the table failing.
pub validate_key-revoked :
    (hash_key : Bytes → String) (id now : ℕ) (w : Keys) (ops : List Operation) (plain : Bytes)
    (later : ℕ) (k : ApiKey)
    → any_by (λ j. j.id == id) w.rows ≡ true
    → (revoke_key id now w).0 ≡ granted tt
    → (validate_key hash_key plain later (perform_all hash_key ops (revoke_key id now w).1)).0
      ≡ granted k
    → k.id ≢ id
unfolding revoke_key
validate_key-revoked hash_key id now w ops plain later k there done h =
    let revoked = revoke-marks id now w.faults w refl there (revoke_key-granted id now w done) in
    let kept =
      perform_all-Revoked hash_key id ops (revoke_key id now w).1 (rw (or_denied-state) revoked) in
    let (found, active) = validate_key-granted hash_key plain later _ k h in
    find_by-active id later (hash_key plain) _ k kept found active
