-- ===== src/Llm/MultiClient/Sort.antt =====
-- The exchange sort of `rebuildDefaults`.
use mathlib.Core.List.{Perm}
use mathlib.Core.List.Perm
use go_saas_api.Common.{
  ℕ, zero, suc, ◌≤◌, ◌≡◌, refl, ap, true, false, List, [], ◌∷◌, arith, not, ◌||◌, ltb→lt, length,
  All, Bool-cases, inl, inr, if◌then◌else◌, string_eq,
}
use go_saas_api.Common.Int.{ℤ, ◌≤ℤ◌, lt_int}
use go_saas_api.Llm.MultiClient.{Weighted, sweep, sort_from}

abbrev pub Sorted : List Weighted → Type 0
Sorted [] = Unit
Sorted (x ∷ xs) = All (λ y. y.weight ≤ℤ x.weight) xs × Sorted xs

lt_int-le : (a b : ℤ) → lt_int a b ≡ true → a ≤ℤ b
lt_int-le a b h = omega (arith, not, ◌||◌, ltb→lt _ _ h)

lt_int-ge : (a b : ℤ) → lt_int a b ≡ false → b ≤ℤ a
lt_int-ge a b h = ground arith

sweep-perm : (x : Weighted) (ys : List Weighted) → Perm ((sweep x ys).0 ∷ (sweep x ys).1) (x ∷ ys)
unfolding sweep
sweep-perm x [] = Perm.refl (x ∷ [])
sweep-perm x (y ∷ ys) = elim (Bool-cases (lt_int x.weight y.weight)) [
  | inl less ↦
      rw less (
        let (top, r) = sweep y ys in Perm.trans (Perm.swap x top r) (Perm.cons x (sweep-perm y ys)))
  | inr more ↦ rw more (
      let (top, r) = sweep x ys in
      Perm.trans (Perm.swap y top r)
        (Perm.trans (Perm.cons y (sweep-perm x ys)) (Perm.swap x y ys)))
]

pub sort_from-perm : (rounds : ℕ) (xs : List Weighted) → Perm (sort_from rounds xs) xs
unfolding sort_from
sort_from-perm zero [] = Perm.refl []
sort_from-perm (suc rounds) [] = Perm.refl []
sort_from-perm zero (x ∷ xs) = Perm.refl (x ∷ xs)
sort_from-perm (suc rounds) (x ∷ xs) =
    let (top, r) = sweep x xs in
    Perm.trans (Perm.cons top (sort_from-perm rounds r)) (sweep-perm x xs)

-- A property of all elements before a sweep is one of all behind it.
module _ (P : Weighted → Type 0) where
  sweep-All :
      (x : Weighted) (ys : List Weighted) → P x → All P ys → P (sweep x ys).0 × All P (sweep x ys).1
  unfolding sweep
  sweep-All x [] p h = (p, tt)
  sweep-All x (y ∷ ys) p (q, h) = elim (Bool-cases (lt_int x.weight y.weight)) [
    | inl less ↦ rw less (let (a, b) = sweep-All y ys q h in (a, (p, b)))
    | inr more ↦ rw more (let (a, b) = sweep-All x ys p h in (a, (q, b)))
  ]

  sort_from-All : (rounds : ℕ) (xs : List Weighted) → All P xs → All P (sort_from rounds xs)
  unfolding sort_from
  sort_from-All zero [] h = tt
  sort_from-All (suc rounds) [] h = tt
  sort_from-All zero (x ∷ xs) h = h
  sort_from-All (suc rounds) (x ∷ xs) (p, h) =
      let (a, b) = sweep-All x xs p h in (a, sort_from-All rounds (sweep x xs).1 b)

sweep-less :
    (x y : Weighted) (ys : List Weighted)
    → lt_int x.weight y.weight ≡ true
    → sweep x (y ∷ ys) ≡ ((sweep y ys).0, x ∷ (sweep y ys).1)
unfolding sweep
sweep-less x y ys h = rw h

sweep-more :
    (x y : Weighted) (ys : List Weighted)
    → lt_int x.weight y.weight ≡ false
    → sweep x (y ∷ ys) ≡ ((sweep x ys).0, y ∷ (sweep x ys).1)
unfolding sweep
sweep-more x y ys h = rw h

abbrev IsTop : Weighted → Weighted × List Weighted → Type 0
IsTop x (top, rest) = (x.weight ≤ℤ top.weight) × All (λ y. y.weight ≤ℤ top.weight) rest

-- The element that a sweep brings to the front weighs most.
sweep-IsTop : (x : Weighted) (ys : List Weighted) → IsTop x (sweep x ys)
sweep-IsTop x [] = unfold sweep in (omega arith, tt)
sweep-IsTop x (y ∷ ys) = elim (Bool-cases (lt_int x.weight y.weight)) [
  | inl less ↦
      let (a, b) = sweep-IsTop y ys in
      let c = lt_int-le x.weight y.weight less in
      let d : x.weight ≤ℤ (sweep y ys).0.weight = omega (arith, a, c) in
      rw (sweep-less x y ys less) (d, (d, b))
  | inr more ↦
      let (a, b) = sweep-IsTop x ys in
      let c = lt_int-ge x.weight y.weight more in
      let d : y.weight ≤ℤ (sweep x ys).0.weight = omega (arith, a, c) in
      rw (sweep-more x y ys more) (a, (d, b))
]

length-sweep : (x : Weighted) (ys : List Weighted) → length (sweep x ys).1 ≡ length ys
unfolding sweep
length-sweep x [] = refl
length-sweep x (y ∷ ys) = ap suc (length-sweep (if lt_int x.weight y.weight then y else x) ys)

-- With a round for each element the list is sorted.
pub sort_from-Sorted :
    (rounds : ℕ) (xs : List Weighted) → length xs ≤ rounds → Sorted (sort_from rounds xs)
unfolding sort_from
sort_from-Sorted zero [] h = tt
sort_from-Sorted (suc rounds) [] h = tt
sort_from-Sorted zero (x ∷ xs) h = absurd (omega arith)
sort_from-Sorted (suc rounds) (x ∷ xs) h =
    let top = (sweep x xs).0 in
    let heavy = (sweep-IsTop x xs).1 in
    (
      sort_from-All (λ y. y.weight ≤ℤ top.weight) rounds (sweep x xs).1 heavy,
      sort_from-Sorted rounds (sweep x xs).1 (omega (arith, length-sweep x xs)),
    )
