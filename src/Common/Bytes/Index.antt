-- ===== src/Common/Bytes/Index.antt =====
-- How strings.Index answers on a text that grows at its end.
use mathlib.Core.Option
use go_saas_api.Common.{
  ℕ, suc, ◌+◌, ◌≤◌, ◌<◌, ◌≡◌, refl, sym, ap, ◌∙◌, true, false, none, some, [], ◌∷◌, ◌++◌, arith,
  length, length-take, take, drop, take-append-drop, dec_lt, Bool-cases, Option-cases, inl, inr,
}
use go_saas_api.Common.Bytes.{Bytes, starts_with, index_of}

pub starts_with-length : (p s : Bytes) → starts_with p s ≡ true → length p ≤ length s
unfolding starts_with
starts_with-length [] s h = omega arith
starts_with-length (b ∷ p) [] h = cc
starts_with-length (b ∷ p) (c ∷ s) h = ground (arith, starts_with-length p s)

-- Where the text is as long as the prefix, more text changes nothing.
pub starts_with-append :
    (p s t : Bytes) → length p ≤ length s → starts_with p (s ++ t) ≡ starts_with p s
unfolding starts_with
starts_with-append [] s t h = refl
starts_with-append (b ∷ p) [] t h = elim h [ ]
starts_with-append (b ∷ p) (c ∷ s) t h = rw (starts_with-append p s t (omega arith))

-- The two ways to an answer `some i` on a text that is not empty.
index_of-head : (p s : Bytes) → starts_with p s ≡ true → index_of p s ≡ some 0
unfolding index_of
index_of-head p [] h = rw h
index_of-head p (b ∷ s) h = rw h

index_of-tail :
    (p : Bytes) (b : ℕ) (s : Bytes)
    → starts_with p (b ∷ s) ≡ false
    → index_of p (b ∷ s) ≡ Option.map suc (index_of p s)
unfolding index_of
index_of-tail p b s h = rw h

-- An occurrence lies inside the text.
pub index_of-length : (p s : Bytes) (i : ℕ) → index_of p s ≡ some i → i + length p ≤ length s
unfolding index_of
index_of-length p [] i h = ground (arith, starts_with-length p [])
index_of-length p (b ∷ s) i h = elim (Option-cases (index_of p s)) [
  | inl e ↦ let k = starts_with-length p (b ∷ s) in ground (arith, e, k)
  | inr (j, e) ↦
      let k = starts_with-length p (b ∷ s) in ground (arith, e, k, index_of-length p s j e)
]

-- A first occurrence stays the first when the text grows.
pub index_of-append : (p s t : Bytes) (i : ℕ) → index_of p s ≡ some i → index_of p (s ++ t) ≡ some i
index_of-append p [] t i h = elim (Bool-cases (starts_with p [])) [
  | inl e ↦
      index_of-head p t (starts_with-append p [] t (starts_with-length p [] e) ∙ e)
      ∙ sym (index_of-head p [] e)
      ∙ h
  | inr e ↦ unfold index_of in ground arith
]
index_of-append p (b ∷ s) t i h = elim (Bool-cases (starts_with p (b ∷ s))) [
  | inl e ↦
      index_of-head p (b ∷ s ++ t)
        (starts_with-append p (b ∷ s) t (starts_with-length p (b ∷ s) e) ∙ e)
      ∙ sym (index_of-head p (b ∷ s) e)
      ∙ h
  | inr e ↦ elim (Option-cases (index_of p s)) [
    | inl none_there ↦ ground (arith, index_of-tail p b s e)
    | inr (j, there) ↦
        let fits = index_of-length p s j there in
        index_of-tail p b (s ++ t) (starts_with-append p (b ∷ s) t (omega (arith, fits)) ∙ e)
        ∙ ap (Option.map suc) (index_of-append p s t j there)
        ∙ ground (arith, index_of-tail p b s e)
  ]
]

index_of-none_head :
    (p : Bytes) (b : ℕ) (s : Bytes)
    → index_of p (b ∷ s) ≡ none
    → (starts_with p (b ∷ s) ≡ false) × (index_of p s ≡ none)
unfolding index_of
index_of-none_head p b s e = ground arith

index_of-some_tail :
    (p : Bytes) (b : ℕ) (s : Bytes) (i : ℕ)
    → starts_with p (b ∷ s) ≡ false
    → index_of p (b ∷ s) ≡ some i
    → (j : ℕ) × (index_of p s ≡ some j) × (i ≡ suc j)
unfolding index_of
index_of-some_tail p b s i e h = elim (Option-cases (index_of p s)) [
  | inl q ↦ ground (arith, q)
  | inr (j, q) ↦ (j, q, ground (arith, q))
]

-- A first occurrence that more text completes ends in that text.
pub index_of-append_new :
    (p s t : Bytes) (i : ℕ)
    → 0 < length p
    → index_of p s ≡ none
    → index_of p (s ++ t) ≡ some i
    → length s < i + length p
index_of-append_new p [] t i pos e h = omega arith
index_of-append_new p (b ∷ s) t i pos e h = elim (Bool-cases (starts_with p (b ∷ s ++ t))) [
  | inl now ↦ elim (dec_lt (length (b ∷ s)) (length p)) [
    | yes short ↦ omega arith
    | no long ↦
        let before = starts_with-append p (b ∷ s) t (omega arith) in
        let clash = sym (index_of-none_head p b s e).0 ∙ sym before ∙ now in cc
  ]
  | inr later ↦
      let (j, there, at) = index_of-some_tail p b (s ++ t) i later h in
      let ih = index_of-append_new p s t j pos (index_of-none_head p b s e).1 there in
      omega (arith, ih, at)
]

-- Before the first occurrence there is none.
pub index_of-take :
    (p s : Bytes) (i : ℕ) → 0 < length p → index_of p s ≡ some i → index_of p (take i s) ≡ none
index_of-take p s i pos h = elim (Option-cases (index_of p (take i s))) [
  | inl e ↦ e
  | inr (j, e) ↦
      let again = index_of-append p (take i s) (drop i s) j e in
      let same : some j ≡ some i = sym (rw take-append-drop at again) ∙ h in
      let inside = index_of-length p (take i s) j e in absurd (ground (arith, length-take i s))
]
