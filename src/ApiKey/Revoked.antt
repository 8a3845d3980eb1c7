-- ===== src/ApiKey/Revoked.antt =====
-- Tables in which a key is revoked, and the statements on them.
use go_saas_api.Common.{
  ℕ, ◌≡◌, ◌≢◌, refl, subst, String, Bool, true, false, ◌&&◌, Option, none, some, List, [], ◌∷◌,
  ◌++◌, map, arith, All, ◌==◌, nat_eq, string_eq, any_by, find_by, Bool-cases, inl, inr,
}
use go_saas_api.ApiKey.{
  ApiKey, Keys, is_unset, is_active, call_on, collides, add_key, create, get_by_key_hash,
  mark_revoked, revoke, mark_used, update_last_used,
}

-- The table has a row of this id, and every row of this id is marked as revoked.
abbrev pub Revoked : ℕ → List ApiKey → Type 0
Revoked id rows =
    (any_by (λ k. k.id == id) rows ≡ true)
    × All (λ k. (k.id == id && is_unset k.revoked_at) ≡ false) rows

-- A change that keeps ids, and the mark of a revoked row.
pub record Keeps (f : ApiKey → ApiKey) : Type 0 where
  pub ids : (k : ApiKey) → (f k).id ≡ k.id
  pub marks : (k : ApiKey) → is_unset k.revoked_at ≡ false → is_unset (f k).revoked_at ≡ false

mark_revoked-Keeps : (j now : ℕ) → Keeps (mark_revoked j now)
unfolding mark_revoked
mark_revoked-Keeps j now = record { ids = λ k. ground arith; marks = λ k h. ground arith }

mark_used-Keeps : (j now : ℕ) → Keeps (mark_used j now)
unfolding mark_used
mark_used-Keeps j now = record { ids = λ k. ground arith; marks = λ k h. ground arith }

any_by-map :
    (id : ℕ) (f : ApiKey → ApiKey) (rows : List ApiKey)
    → Keeps f
    → any_by (λ k. k.id == id) (map f rows) ≡ any_by (λ k. k.id == id) rows
any_by-map id f [] h = refl
any_by-map id f (k ∷ rows) h = rw (h.ids k, any_by-map id f rows h) refl

All-map :
    (id : ℕ) (f : ApiKey → ApiKey) (rows : List ApiKey)
    → Keeps f
    → All (λ k. (k.id == id && is_unset k.revoked_at) ≡ false) rows
    → All (λ k. (k.id == id && is_unset k.revoked_at) ≡ false) (map f rows)
All-map id f [] h p = tt
All-map id f (k ∷ rows) h (p, ps) =
    (rw (h.ids k) (ground (arith, h.marks k)), All-map id f rows h ps)

map-Revoked :
    (id : ℕ) (f : ApiKey → ApiKey) (rows : List ApiKey)
    → Keeps f
    → Revoked id rows
    → Revoked id (map f rows)
map-Revoked id f rows h (there, all) = (rw (any_by-map id f rows h) there, All-map id f rows h all)

any_by-append :
    (p : ApiKey → Bool) (rows more : List ApiKey)
    → any_by p rows ≡ true
    → any_by p (rows ++ more) ≡ true
any_by-append p [] more h = cc
any_by-append p (k ∷ rows) more h = ground (arith, any_by-append p rows more)

All-append :
    (P : ApiKey → Type 0) (rows : List ApiKey) (key : ApiKey)
    → All P rows
    → P key
    → All P (rows ++ key ∷ [])
All-append P [] key h p = (p, tt)
All-append P (k ∷ rows) key (h, hs) p = (h, All-append P rows key hs p)

-- A new row does not collide, so it is of another id than one that is there.
add-other :
    (id : ℕ) (key : ApiKey) (rows : List ApiKey)
    → any_by (collides key) rows ≡ false
    → any_by (λ k. k.id == id) rows ≡ true
    → (key.id == id) ≡ false
unfolding collides
add-other id key [] free there = cc
add-other id key (k ∷ rows) free there = ground (arith, add-other id key rows)

add_key-Revoked :
    (id : ℕ) (key : ApiKey) (w : Keys) → Revoked id w.rows → Revoked id (add_key key w).1.rows
unfolding add_key
add_key-Revoked id key w (there, all) = elim (Bool-cases (any_by (collides key) w.rows)) [
  | inl taken ↦ rw taken (there, all)
  | inr free ↦
      let other = add-other id key w.rows free there in
      rw free (
        any_by-append (λ k. k.id == id) w.rows (key ∷ []) there,
        All-append (λ k. (k.id == id && is_unset k.revoked_at) ≡ false) w.rows key all
            (rw other refl),
      )
]

call_on-Revoked :
    {A : Type 0} (id : ℕ) (run : Keys → Option A × Keys) (faults : List Bool) (w : Keys)
    → ((v : Keys) → v.rows ≡ w.rows → Revoked id (run v).1.rows)
    → Revoked id w.rows
    → Revoked id (call_on faults run w).1.rows
unfolding call_on
call_on-Revoked id run [] w h r = h w refl
call_on-Revoked id run (true ∷ faults) w h r = r
call_on-Revoked id run (false ∷ faults) w h r = h _ refl

module _ (id : ℕ) where
  pub create-Revoked :
      (key : ApiKey) (w : Keys) → Revoked id w.rows → Revoked id (create key w).1.rows
  unfolding create
  create-Revoked key w r =
      call_on-Revoked id (add_key key) w.faults w (λ v e. add_key-Revoked id key v (rw e r)) r

  pub revoke-Revoked :
      (j now : ℕ) (w : Keys) → Revoked id w.rows → Revoked id (revoke j now w).1.rows
  unfolding revoke
  revoke-Revoked j now w r =
      call_on-Revoked id _ w.faults w
        (λ v e. map-Revoked id (mark_revoked j now) v.rows (mark_revoked-Keeps j now) (rw e r)) r

  pub used-Revoked :
      (j now : ℕ) (w : Keys) → Revoked id w.rows → Revoked id (update_last_used j now w).1.rows
  unfolding update_last_used
  used-Revoked j now w r =
      call_on-Revoked id _ w.faults w
        (λ v e. map-Revoked id (mark_used j now) v.rows (mark_used-Keeps j now) (rw e r)) r

  pub get-Revoked :
      (digest : String) (w : Keys)
      → Revoked id w.rows
      → Revoked id (get_by_key_hash digest w).1.rows
  unfolding get_by_key_hash
  get-Revoked digest w r = call_on-Revoked id _ w.faults w (λ v e. rw e r) r

-- The statement of `revoke` marks every row of the id.
All-mark_revoked :
    (id now : ℕ) (rows : List ApiKey)
    → All (λ k. (k.id == id && is_unset k.revoked_at) ≡ false) (map (mark_revoked id now) rows)
unfolding mark_revoked
All-mark_revoked id now [] = tt
All-mark_revoked id now (k ∷ rows) = (ground arith, All-mark_revoked id now rows)

marked-Revoked :
    (id now : ℕ) (rows : List ApiKey)
    → any_by (λ k. k.id == id) rows ≡ true
    → Revoked id (map (mark_revoked id now) rows)
marked-Revoked id now rows there = (
  rw (any_by-map id (mark_revoked id now) rows (mark_revoked-Keeps id now)) there,
  All-mark_revoked id now rows,
)

-- A revocation that is granted revokes the key.
pub revoke-marks :
    (id now : ℕ) (faults : List Bool) (w : Keys)
    → w.faults ≡ faults
    → any_by (λ k. k.id == id) w.rows ≡ true
    → (revoke id now w).0 ≡ some tt
    → Revoked id (revoke id now w).1.rows
unfolding revoke call_on
revoke-marks id now [] w e there done = rw e (marked-Revoked id now w.rows there)
revoke-marks id now (true ∷ faults) w e there done =
    absurd (let no : none ≡ some tt = rw e at done in cc no)
revoke-marks id now (false ∷ faults) w e there done = rw e (marked-Revoked id now w.rows there)

find_by-All :
    (P : ApiKey → Type 0) (test : ApiKey → Bool) (rows : List ApiKey) (k : ApiKey)
    → All P rows
    → find_by test rows ≡ some k
    → P k
find_by-All P test [] k all found = cc
find_by-All P test (j ∷ rows) k (p, ps) found = elim (Bool-cases (test j)) [
  | inl here ↦
      let same : some j ≡ some k = rw here at found in let it : j ≡ k = cc same in subst P it p
  | inr there ↦ find_by-All P test rows k ps (rw there at found)
]

-- A row that is found is not one of a revoked id, if it is active.
pub find_by-active :
    (id now : ℕ) (digest : String) (rows : List ApiKey) (k : ApiKey)
    → Revoked id rows
    → find_by (λ j. j.key_hash == digest) rows ≡ some k
    → is_active k now ≡ true
    → k.id ≢ id
unfolding is_active
find_by-active id now digest rows k (there, all) found active =
    let shut =
      find_by-All (λ j. (j.id == id && is_unset j.revoked_at) ≡ false) (λ j. j.key_hash == digest)
        rows k all found in
    λ q. ground (arith, shut, active, q)
