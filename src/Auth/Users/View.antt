-- ===== src/Auth/Users/View.antt =====
-- The table of users (internal/auth/store.go) as a map from ids to rows: what each statement does to
-- it.
use mathlib.Core.Option
use go_saas_api.Common.{
  ℕ, ◌≡◌, ◌⊎◌, refl, sym, ap, subst, String, Bool, true, false, not, Option, none, some, List, [],
  ◌∷◌, ◌++◌, map, ◌==◌, nat_eq, string_eq, any_by, find_by, filter_by, if◌then◌else◌, Bool-cases,
  inl, inr, arith, beq_refl,
}
use go_saas_api.Common.Effect.{Result, ok, err}
use go_saas_api.Common.Effect.Triple.{After}
use go_saas_api.Auth.{User, Redis, Accounts, DbError}
use go_saas_api.Auth.Users.{
  duplicates, refuses_new, refuses_change, refuses_role, add_user, updated_user, change_user,
  set_role, change_role, query, written, write, create, update, delete, update_user_role,
}
use go_saas_api.Auth.Users.Rows.{any_by-weaker, find_by-new}

abbrev pub View : Type 0
View = ℕ → Option User

abbrev pub view : List User → View
view rows id = find_by (λ u. u.id == id) rows

abbrev pub put : (id : ℕ) → Option User → View → View
put id row v other = if other == id then row else v other

-- The statements on the map: an UPDATE of a row that is not there changes nothing.
abbrev pub put_new : User → View → View
put_new user v = put user.id (some user) v

abbrev pub put_changed : User → View → View
put_changed user v =
    put user.id (Option.map (λ old. record user { created_at = old.created_at }) (v user.id)) v

abbrev pub put_nothing : (id : ℕ) → View → View
put_nothing id v = put id none v

abbrev pub put_role : (id : ℕ) (role : String) (now : ℕ) → View → View
put_role id role now v =
    put id (Option.map (λ (u : User). record u { role = role; updated_at = now }) (v id)) v

equal_ids : (m n : ℕ) → (m == n) ≡ true → m ≡ n
equal_ids m n e = (nat_eq.equals_iff m n).0 e

-- By the id that is looked up: it is the one of the statement, or another.
put-cases :
    (id other : ℕ) (row : Option User) (v w : View)
    → w id ≡ row
    → ((other == id) ≡ false → w other ≡ v other)
    → w other ≡ put id row v other
put-cases id other row v w here elsewhere = elim (Bool-cases (other == id)) [
  | inl same ↦ rw same (subst (λ n. w n ≡ row) (sym (equal_ids other id same)) here)
  | inr apart ↦ rw apart (elsewhere apart)
]

find_by-last :
    {A : Type 0} (p : A → Bool) (xs : List A) (x : A)
    → p x ≡ false
    → find_by p (xs ++ x ∷ []) ≡ find_by p xs
find_by-last p [] x fails = rw fails refl
find_by-last p (y ∷ xs) x fails = rw (find_by-last p xs x fails) refl

module _ (f : User → User) (id : ℕ) (keeps : (u : User) → (u.id == id) ≡ false → f u ≡ u)
    (ids : (u : User) → (f u).id ≡ u.id) where
  view-map_other :
      (other : ℕ) (rows : List User)
      → (other == id) ≡ false
      → view (map f rows) other ≡ view rows other
  view-map_other other [] apart = refl
  view-map_other other (u ∷ rows) apart = elim (Bool-cases (u.id == id)) [
    | inl it ↦
        let not_other : (u.id == other) ≡ false = ground (
          arith,
          nat_eq.equals_iff u.id id,
          nat_eq.equals_iff u.id other,
          nat_eq.equals_iff other id,
          it,
          apart,
        ) in
        let passed : ((f u).id == other) ≡ false = rw (ids u) not_other in
        rw (not_other, passed) (view-map_other other rows apart)
    | inr miss ↦ rw (keeps u miss, view-map_other other rows apart) refl
  ]

  module _ (g : User → User) (sets : (u : User) → (u.id == id) ≡ true → f u ≡ g u) where
    view-map_self : (rows : List User) → view (map f rows) id ≡ Option.map g (view rows id)
    view-map_self [] = refl
    view-map_self (u ∷ rows) = elim (Bool-cases (u.id == id)) [
      | inl it ↦
          let hit : ((f u).id == id) ≡ true = rw (ids u) it in rw (hit, it) (ap some (sets u it))
      | inr miss ↦ rw (keeps u miss, miss) (view-map_self rows)
    ]

    view-map :
        (other : ℕ) (rows : List User)
        → view (map f rows) other ≡ put id (Option.map g (view rows id)) (view rows) other
    view-map other rows =
        put-cases id other (Option.map g (view rows id)) (view rows) (view (map f rows))
          (view-map_self rows) (view-map_other other rows)

view-filter_self :
    (id : ℕ) (rows : List User) → view (filter_by (λ u. not (u.id == id)) rows) id ≡ none
view-filter_self id [] = refl
view-filter_self id (u ∷ rows) = elim (Bool-cases (u.id == id)) [
  | inl it ↦ rw it (view-filter_self id rows)
  | inr miss ↦ rw (miss, miss) (view-filter_self id rows)
]

view-filter_other :
    (id other : ℕ) (rows : List User)
    → (other == id) ≡ false
    → view (filter_by (λ u. not (u.id == id)) rows) other ≡ view rows other
view-filter_other id other [] apart = refl
view-filter_other id other (u ∷ rows) apart = elim (Bool-cases (u.id == id)) [
  | inl it ↦
      let not_other : (u.id == other) ≡ false = ground (
        arith,
        nat_eq.equals_iff u.id id,
        nat_eq.equals_iff u.id other,
        nat_eq.equals_iff other id,
        it,
        apart,
      ) in
      rw (it, not_other) (view-filter_other id other rows apart)
  | inr miss ↦ rw (miss, view-filter_other id other rows apart) refl
]

updated_user-id : (user u : User) → (updated_user user u).id ≡ u.id
unfolding updated_user
updated_user-id user u = elim (Bool-cases (u.id == user.id)) [
  | inl it ↦ rw it (sym (equal_ids u.id user.id it))
  | inr miss ↦ rw miss refl
]

set_role-id : (id : ℕ) (role : String) (now : ℕ) (u : User) → (set_role id role now u).id ≡ u.id
unfolding set_role
set_role-id id role now u = elim (Bool-cases (u.id == id)) [
  | inl it ↦ rw it refl
  | inr miss ↦ rw miss refl
]

-- The table behind a statement is, as a map, the change of the one before it; where the statement
-- fails, the table refuses it.
abbrev Does :
    (View → View)
    → (List User → Bool)
    → (other : ℕ) → List User
    → Result DbError (List User)
    → Type 0
Does change refuses other rows (ok rows') = view rows' other ≡ change (view rows) other
Does change refuses other rows (err e) = refuses rows ≡ true

add_user-Does :
    (user : User) (other : ℕ) (rows : List User)
    → Does (put_new user) (refuses_new user) other rows (add_user user rows)
unfolding add_user
add_user-Does user other rows = elim (Bool-cases (refuses_new user rows)) [
  | inl refused ↦ rw refused refused
  | inr taken_on ↦
      let free : any_by (duplicates user) rows ≡ false = ground (arith, taken_on) in
      let absent : any_by (λ u. u.id == user.id) rows ≡ false =
        any_by-weaker (duplicates user) (λ u. u.id == user.id) rows
          (λ u same. unfold duplicates in rw same refl) free in
      rw taken_on (
        put-cases user.id other (some user) (view rows) (view (rows ++ user ∷ []))
          (find_by-new (λ u. u.id == user.id) rows user absent (beq_refl user.id))
          (λ apart.
            find_by-last (λ u. u.id == other) rows user
              (ground
                (arith, nat_eq.equals_iff user.id other, nat_eq.equals_iff other user.id, apart))))
]

change_user-Does :
    (user : User) (other : ℕ) (rows : List User)
    → Does (put_changed user) (refuses_change user) other rows (change_user user rows)
unfolding change_user
change_user-Does user other rows = elim (Bool-cases (refuses_change user rows)) [
  | inl refused ↦ rw refused refused
  | inr taken_on ↦ rw taken_on (
      view-map (updated_user user) user.id (λ u miss. unfold updated_user in rw miss refl)
        (λ u. updated_user-id user u) (λ old. record user { created_at = old.created_at })
        (λ u it. unfold updated_user in rw it refl) other rows)
]

change_role-Does :
    (id : ℕ) (role : String) (now other : ℕ) (rows : List User)
    → Does (put_role id role now) (refuses_role id role) other rows (change_role id role now rows)
unfolding change_role
change_role-Does id role now other rows = elim (Bool-cases (refuses_role id role rows)) [
  | inl refused ↦ rw refused refused
  | inr taken_on ↦ rw taken_on (
      view-map (set_role id role now) id (λ u miss. unfold set_role in rw miss refl)
        (λ u. set_role-id id role now u) (λ (u : User). record u { role = role; updated_at = now })
        (λ u it. unfold set_role in rw it refl) other rows)
]

-- A call of the database: the map that it leaves; on an error the table of before, where this call
-- is one that fails or the table refuses the statement.
module _ {redis : Redis} where
  abbrev pub Becomes :
      (View → View)
      → (List User → Bool)
      → (other : ℕ) → Accounts redis
      → Result DbError (Unit {0}) × Accounts redis
      → Type 0
  Becomes change refuses other w =
      After (λ _ w'. view w'.users other ≡ change (view w.users) other)
        (λ e w'.
          (w'.users ≡ w.users)
          × (((rest : List Bool) × (w.faults ≡ true ∷ rest)) ⊎ (refuses w.users ≡ true)))

  module _ (change : View → View) (refuses : List User → Bool) (other : ℕ) where
    written-Becomes :
        (r : Result DbError (List User)) (v w : Accounts redis)
        → v.users ≡ w.users
        → Does change refuses other w.users r
        → Becomes change refuses other w (written r v)
    unfolding written
    written-Becomes (ok rows) v w same does = does
    written-Becomes (err e) v w same does = (same, inr does)

    write-Becomes :
        (statement : List User → Result DbError (List User))
        → ((rows : List User) → Does change refuses other rows (statement rows))
        → (faults : List Bool) (w : Accounts redis) → w.faults ≡ faults
        → Becomes change refuses other w (query (write statement) faults w)
    unfolding query write
    write-Becomes statement does [] w e =
        written-Becomes (statement w.users) w w refl (does w.users)
    write-Becomes statement does (true ∷ faults) w e = (refl, inl (faults, e))
    write-Becomes statement does (false ∷ faults) w e =
        written-Becomes (statement w.users) (record w { faults = faults }) w refl (does w.users)

  -- Each statement that writes, where it goes through, is the change of the map from ids to rows that
  -- its text says: Create puts the whole row, Update all but the time of its creation, where there is
  -- a row, Delete takes the row away, UpdateUserRole sets role and time; no row of another id
  -- changes. It fails only where the call of the database does or the table refuses the statement,
  -- which it never does with a Delete, and the table is then as before.
  pub writes-Becomes :
      (user : User) (id : ℕ) (role : String) (now other : ℕ) (w : Accounts redis)
      → Becomes (put_new user) (refuses_new user) other w (create user w)
        × Becomes (put_changed user) (refuses_change user) other w (update user w)
        × Becomes (put_nothing id) (λ rows. false) other w (delete id w)
        × Becomes
            (put_role id role now)
            (refuses_role id role)
            other
            w
            (update_user_role id role now w)
  unfolding create update delete update_user_role
  writes-Becomes user id role now other w = (
    write-Becomes (put_new user) (refuses_new user) other (add_user user) (add_user-Does user other)
        w.faults w refl,
    write-Becomes (put_changed user) (refuses_change user) other (change_user user)
        (change_user-Does user other) w.faults w refl,
    write-Becomes (put_nothing id) (λ rows. false) other
        (λ rows. ok (filter_by (λ u. not (u.id == id)) rows))
        (λ rows.
          put-cases id other none (view rows) (view (filter_by (λ u. not (u.id == id)) rows))
            (view-filter_self id rows) (view-filter_other id other rows))
        w.faults w refl,
    write-Becomes (put_role id role now) (refuses_role id role) other (change_role id role now)
        (change_role-Does id role now other) w.faults w refl,
  )
