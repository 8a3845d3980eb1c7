-- ===== src/Auth/Users/Rows.antt =====
-- Where a row is found in the table of users (internal/auth/store.go).
use go_saas_api.Common.{
  ℕ, ◌≡◌, ◌≢◌, refl, sym, ap, subst, String, Bool, true, false, none, some, List, [], ◌∷◌, ◌++◌,
  map, ◌==◌, nat_eq, string_eq, any_by, find_by, Comparable, Bool-cases, inl, inr, arith, All,
  beq_refl,
}
use go_saas_api.Auth.{User}
use go_saas_api.Auth.Users.{role_allowed, updated_user, takes_email}
use go_saas_api.Auth.Users.Sound.{IsSound, Apart}

-- Keys that differ.
pub differs : {K : Type 0} ⦃cmp : Comparable K⦄ (x y : K) → x ≢ y → (x == y) ≡ false
differs ⦃cmp⦄ x y ne = elim (Bool-cases (x == y)) [
  | inl same ↦ absurd (ne ((cmp.equals_iff x y).0 same))
  | inr other ↦ other
]

-- What holds of all elements holds of the one that is found.
pub find_by-All :
    {A : Type 0} (p : A → Bool) (P : A → Type 0) (xs : List A) (x : A)
    → find_by p xs ≡ some x
    → All P xs
    → P x
find_by-All p P [] x here all = cc
find_by-All p P (y ∷ xs) x here (py, all) = elim (Bool-cases (p y)) [
  | inl hit ↦ let it : y ≡ x = ground (arith, hit, here) in subst P it py
  | inr miss ↦ find_by-All p P xs x (ground (arith, miss, here)) all
]

pub find_by-test :
    {A : Type 0} (p : A → Bool) (xs : List A) (x : A) → find_by p xs ≡ some x → p x ≡ true
find_by-test p [] x here = cc
find_by-test p (y ∷ xs) x here = elim (Bool-cases (p y)) [
  | inl hit ↦ let it : y ≡ x = ground (arith, hit, here) in subst (λ z. p z ≡ true) it hit
  | inr miss ↦ find_by-test p xs x (ground (arith, miss, here))
]

-- A new element at the end is found, if no other passes.
pub find_by-new :
    {A : Type 0} (p : A → Bool) (xs : List A) (x : A)
    → any_by p xs ≡ false
    → p x ≡ true
    → find_by p (xs ++ x ∷ []) ≡ some x
find_by-new p [] x nowhere passes = rw passes refl
find_by-new p (y ∷ xs) x nowhere passes = elim (Bool-cases (p y)) [
  | inl hit ↦ ground (arith, hit, nowhere)
  | inr miss ↦ rw miss (find_by-new p xs x (ground (arith, miss, nowhere)) passes)
]

pub find_by-none :
    {A : Type 0} (p : A → Bool) (xs : List A) → any_by p xs ≡ false → find_by p xs ≡ none
find_by-none p [] nowhere = refl
find_by-none p (y ∷ xs) nowhere = elim (Bool-cases (p y)) [
  | inl hit ↦ ground (arith, hit, nowhere)
  | inr miss ↦ rw miss (find_by-none p xs (ground (arith, miss, nowhere)))
]

pub any_by-weaker :
    {A : Type 0} (p q : A → Bool) (xs : List A)
    → ((x : A) → q x ≡ true → p x ≡ true)
    → any_by p xs ≡ false
    → any_by q xs ≡ false
any_by-weaker p q [] h nowhere = refl
any_by-weaker p q (x ∷ xs) h nowhere = elim (Bool-cases (p x)) [
  | inl hit ↦ ground (arith, hit, nowhere)
  | inr miss ↦
      let rest : any_by q xs ≡ false = any_by-weaker p q xs h (ground (arith, miss, nowhere)) in
      elim (Bool-cases (q x)) [
        | inl passes ↦ ground (arith, h x passes, miss)
        | inr fails ↦ rw fails rest
      ]
]

-- The first row with an email is the first with its id.
pub find_email-id :
    (email : String) (user : User) (rows : List User)
    → IsSound rows
    → find_by (λ u. u.email == email) rows ≡ some user
    → find_by (λ u. u.id == user.id) rows ≡ some user
find_email-id email user [] sound here = cc
find_email-id email user (v ∷ rows) (allowed, others, sound) here =
    elim (Bool-cases (v.email == email)) [
      | inl hit ↦
          let it : v ≡ user = ground (arith, hit, here) in
          let same : (v.id == user.id) ≡ true =
            subst (λ (u : User). (v.id == u.id) ≡ true) it (beq_refl v.id) in
          rw same (ap some it)
      | inr miss ↦
          let found : find_by (λ u. u.email == email) rows ≡ some user =
            ground (arith, miss, here) in
          let away : Apart v user =
            find_by-All (λ u. u.email == email) (Apart v) rows user found others in
          rw (differs v.id user.id away.0) (find_email-id email user rows sound found)
    ]

pub role_of_row :
    (user : User) (p : User → Bool) (rows : List User)
    → IsSound rows
    → find_by p rows ≡ some user
    → role_allowed user.role ≡ true
role_of_row user p [] sound here = cc
role_of_row user p (v ∷ rows) (allowed, others, sound) here = elim (Bool-cases (p v)) [
  | inl hit ↦
      let it : v ≡ user = ground (arith, hit, here) in
      subst (λ (u : User). role_allowed u.role ≡ true) it allowed
  | inr miss ↦ role_of_row user p rows sound (ground (arith, miss, here))
]

-- A row with a new password.
abbrev pub with_password : User → (hash : String) → (now : ℕ) → User
with_password user hash now = record user { password_hash = hash; updated_at = now }

module _ (user : User) (hash : String) (now : ℕ) where
  takes_email-Apart :
      (v : User) → Apart v user → takes_email (with_password user hash now) v ≡ false
  unfolding takes_email
  takes_email-Apart v away =
      rw (differs v.id user.id away.0, differs v.email user.email away.1) refl

  any_by-Apart :
      (rows : List User)
      → All (Apart user) rows
      → any_by (takes_email (with_password user hash now)) rows ≡ false
  any_by-Apart [] away = refl
  any_by-Apart (v ∷ rows) (here, away) =
      rw (takes_email-Apart v ((λ e. here.0 (sym e)), (λ e. here.1 (sym e))))
        (any_by-Apart rows away)

  -- The email of a row stays free of the other rows.
  pub with_password-free :
      (rows : List User)
      → IsSound rows
      → find_by (λ u. u.id == user.id) rows ≡ some user
      → any_by (takes_email (with_password user hash now)) rows ≡ false
  with_password-free [] sound here = cc
  with_password-free (v ∷ rows) (allowed, others, sound) here =
      elim (Bool-cases (v.id == user.id)) [
        | inl hit ↦
            let it : v ≡ user = ground (arith, hit, here) in
            let own : takes_email (with_password user hash now) v ≡ false =
              unfold takes_email in rw hit refl in
            rw own (any_by-Apart rows (subst (λ (u : User). All (Apart u) rows) it others))
        | inr miss ↦
            let found : find_by (λ u. u.id == user.id) rows ≡ some user =
              ground (arith, miss, here) in
            let away : Apart v user =
              find_by-All (λ u. u.id == user.id) (Apart v) rows user found others in
            rw (takes_email-Apart v away) (with_password-free rows sound found)
      ]

  -- The updated row is found by its email.
  pub with_password-found :
      (rows : List User)
      → IsSound rows
      → find_by (λ u. u.id == user.id) rows ≡ some user
      → find_by (λ u. u.email == user.email) (map (updated_user (with_password user hash now)) rows)
        ≡ some (with_password user hash now)
  unfolding updated_user
  with_password-found [] sound here = cc
  with_password-found (v ∷ rows) (allowed, others, sound) here =
      elim (Bool-cases (v.id == user.id)) [
        | inl hit ↦
            let it : v ≡ user = ground (arith, hit, here) in
            let created : v.created_at ≡ user.created_at = ap (λ (u : User). u.created_at) it in
            rw (hit, beq_refl user.email, created) refl
        | inr miss ↦
            let found : find_by (λ u. u.id == user.id) rows ≡ some user =
              ground (arith, miss, here) in
            let away : Apart v user =
              find_by-All (λ u. u.id == user.id) (Apart v) rows user found others in
            rw (miss, differs v.email user.email away.1) (with_password-found rows sound found)
      ]

pub some_by-find :
    {A : Type 0} (p : A → Bool) (xs : List A) (x : A) → find_by p xs ≡ some x → any_by p xs ≡ true
some_by-find p [] x here = cc
some_by-find p (y ∷ xs) x here = elim (Bool-cases (p y)) [
  | inl hit ↦ rw hit refl
  | inr miss ↦ rw miss (some_by-find p xs x (ground (arith, miss, here)))
]
