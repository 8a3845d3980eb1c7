-- ===== src/Flows/Question/Single.antt =====
-- The question marks of a content before and after `EnforceSingleQuestion`
-- (internal/agent/flows/api_integration.go).
use mathlib.Core.List.{reverse, reverse-cons}
use go_saas_api.Common.{
  ℕ, zero, suc, ◌+◌, ◌-◌, ◌≤◌, ◌<◌, ◌≡◌, refl, ◌∙◌, ap, none, some, [], ◌∷◌, ◌++◌, arith, take,
  drop, nat_eq, string_eq, Option-cases, inl, inr,
}
use native.Mathlib.Numerals.{add-one}
use go_saas_api.Common.Bytes.{
  Bytes, index_of, count_byte, trim_by, trim_space, space_width, space_width_rev,
}
use go_saas_api.Flows.Question.{
  question_mark, boundary_from, cutoff_of, cut_after, cut_at_second, enforce_single_question,
}

count-append : (c : ℕ) (s t : Bytes) → count_byte c (s ++ t) ≡ count_byte c s + count_byte c t
unfolding count_byte
count-append c [] t = omega arith
count-append c (b ∷ s) t = omega (arith, count-append c s t)

count-reverse : (c : ℕ) (s : Bytes) → count_byte c (reverse s) ≡ count_byte c s
unfolding count_byte
count-reverse c [] = refl
count-reverse c (b ∷ s) =
    rw (reverse-cons b s) (omega (arith, count-append c (reverse s) (b ∷ []), count-reverse c s))

count-trim_by-le :
    (c : ℕ) (width : Bytes → ℕ) (skip : ℕ) (s : Bytes)
    → count_byte c (trim_by width skip s) ≤ count_byte c s
unfolding trim_by count_byte
count-trim_by-le c width skip [] = omega arith
count-trim_by-le c width (suc skip) (b ∷ s) = omega (arith, count-trim_by-le c width skip s)
count-trim_by-le c width zero (b ∷ s) =
    ground (arith, count-trim_by-le c width (width (b ∷ s) - 1) s)

count-trim_space-le : (c : ℕ) (s : Bytes) → count_byte c (trim_space s) ≤ count_byte c s
unfolding trim_space
count-trim_space-le c s =
    let left = trim_by space_width 0 s in
    omega (
      arith,
      count-reverse c (trim_by space_width_rev 0 (reverse left)),
      count-trim_by-le c space_width_rev 0 (reverse left),
      count-reverse c left,
      count-trim_by-le c space_width 0 s,
    )

-- Before a first occurrence there is none of the byte.
count-take_first :
    (c : ℕ) (s : Bytes) (i k : ℕ)
    → index_of (c ∷ []) s ≡ some i
    → k ≤ i
    → count_byte c (take k s) ≡ 0
unfolding index_of count_byte
count-take_first c s i zero h le = refl
count-take_first c [] i (suc k) h le = refl
count-take_first c (b ∷ s) zero (suc k) h le = elim le [ ]
count-take_first c (b ∷ s) (suc i) (suc k) h le = elim (Option-cases (index_of (c ∷ []) s)) [
  | inl e ↦ absurd (ground (arith, e))
  | inr (j, e) ↦ ground (arith, e, count-take_first c s j k e)
]

-- Up to the second there is at most one.
count-take_second :
    (c : ℕ) (s : Bytes) (i off k : ℕ)
    → index_of (c ∷ []) s ≡ some i
    → index_of (c ∷ []) (drop (suc i) s) ≡ some off
    → k ≤ suc (off + i)
    → count_byte c (take k s) ≤ 1
unfolding index_of count_byte
count-take_second c s i off zero h g le = omega arith
count-take_second c [] i off (suc k) h g le = omega arith
count-take_second c (b ∷ s) zero off (suc k) h g le = ground (arith, count-take_first c s off k g)
count-take_second c (b ∷ s) (suc i) off (suc k) h g le = elim (Option-cases (index_of (c ∷ []) s)) [
  | inl e ↦ absurd (ground (arith, e))
  | inr (j, e) ↦
      let same : j ≡ i = ground (arith, e) in
      ground (arith, count-take_second c s i off k (e ∙ ap some same) g)
]

boundary_from_bounds :
    (s : Bytes) (first_q rounds c : ℕ)
    → boundary_from s first_q rounds ≡ some c
    → (first_q + 1 < c) × (c ≤ first_q + rounds + 1)
unfolding boundary_from
boundary_from_bounds s first_q zero c h = cc
boundary_from_bounds s first_q (suc rounds) c h =
    ground (arith, boundary_from_bounds s first_q rounds c)

cutoff_bounds :
    (s : Bytes) (first_q second_q : ℕ)
    → first_q < second_q
    → (first_q < cutoff_of s first_q second_q) × (cutoff_of s first_q second_q ≤ second_q)
unfolding cutoff_of
cutoff_bounds s first_q second_q h =
    elim (Option-cases (boundary_from s first_q (second_q - 1 - first_q))) [
      | inl e ↦ rw e (ground arith)
      | inr (c, e) ↦
          rw e (ground (arith, boundary_from_bounds s first_q (second_q - 1 - first_q) c e))
    ]

cut_after-count :
    (s : Bytes) (i off : ℕ)
    → index_of (question_mark ∷ []) s ≡ some i
    → index_of (question_mark ∷ []) (drop (suc i) s) ≡ some off
    → count_byte question_mark (cut_after s i (some off)) ≤ 1
unfolding cut_after
cut_after-count s i off h g =
    let k = cutoff_of s i (off + (i + 1)) in
    omega (
      arith,
      count-trim_space-le question_mark (take k s),
      count-take_second question_mark s i off k h g
          (omega (arith, cutoff_bounds s i (off + (i + 1)) (omega arith))),
    )

count_of_none : (c : ℕ) (s : Bytes) → index_of (c ∷ []) s ≡ none → count_byte c s ≡ 0
unfolding index_of count_byte
count_of_none c [] h = refl
count_of_none c (b ∷ s) h = elim (Option-cases (index_of (c ∷ []) s)) [
  | inl e ↦ ground (arith, e, count_of_none c s e)
  | inr (j, e) ↦ absurd (ground (arith, e))
]

count_of_single :
    (c : ℕ) (s : Bytes) (i : ℕ)
    → index_of (c ∷ []) s ≡ some i
    → index_of (c ∷ []) (drop (suc i) s) ≡ none
    → count_byte c s ≤ 1
unfolding index_of count_byte
count_of_single c [] i h g = omega arith
count_of_single c (b ∷ s) zero h g = ground (arith, count_of_none c s g)
count_of_single c (b ∷ s) (suc i) h g = elim (Option-cases (index_of (c ∷ []) s)) [
  | inl e ↦ absurd (ground (arith, e))
  | inr (j, e) ↦
      let same : j ≡ i = ground (arith, e) in
      ground (arith, count_of_single c s i (e ∙ ap some same) g)
]

cut_at_second-count :
    (s : Bytes) → count_byte question_mark (cut_at_second s (index_of (question_mark ∷ []) s)) ≤ 1
unfolding cut_at_second
cut_at_second-count s = elim (Option-cases (index_of (question_mark ∷ []) s)) [
  | inl e ↦ rw e (omega (arith, count_of_none question_mark s e))
  | inr (i, e) ↦ elim (Option-cases (index_of (question_mark ∷ []) (drop (suc i) s))) [
    | inl g ↦ rw (e, add-one, g) (unfold cut_after in count_of_single question_mark s i e g)
    | inr (off, g) ↦ rw (e, add-one, g) (cut_after-count s i off e g)
  ]
]

-- While the flow is collecting, the content that is let through has one question mark at most,
-- whatever the content; and to enforce the rule twice is to enforce it once.
pub enforce_single_question_lem :
    (s : Bytes)
    → (count_byte question_mark (enforce_single_question s "collecting") ≤ 1)
      × (enforce_single_question (enforce_single_question s "collecting") "collecting"
          ≡ enforce_single_question s "collecting")
unfolding enforce_single_question
enforce_single_question_lem s =
    let most = cut_at_second-count s in (ground (arith, most), ground (arith, most))
