-- ===== src/Common/Effect/Triple.antt =====
-- What holds behind a method that may fail: of its result and the state, where it returns, and of
-- its error and the state, where it fails.
use go_saas_api.Common.Effect.{Result, ok, err, M, andthen, ◌>>=◌, pure, fail}

module _ {S E A : Type 0} where
  abbrev pub After : (A → S → Type 0) → (E → S → Type 0) → Result E A × S → Type 0
  After R Q (ok a, s) = R a s
  After R Q (err e, s) = Q e s

  -- From a state with `P`, `m` returns with `R` or fails with `Q`.
  pub record Runs (P : S → Type 0) (m : M S E A) (R : A → S → Type 0) (Q : E → S → Type 0)
      : Type 0 where
    pub at : (s : S) → P s → After R Q (m s)

  pub Runs-pure :
      {P : S → Type 0} {R : A → S → Type 0} {Q : E → S → Type 0} (a : A)
      → ((s : S) → P s → R a s)
      → Runs P (pure a) R Q
  Runs-pure a h = record { at = h }

  pub Runs-fail :
      {P : S → Type 0} {R : A → S → Type 0} {Q : E → S → Type 0} (e : E)
      → ((s : S) → P s → Q e s)
      → Runs P (fail e) R Q
  Runs-fail e h = record { at = h }

module _ {S E A B : Type 0} where
  andthen-After :
      (f : A → M S E B) (x : Result E A × S) {R : A → S → Type 0} {T : B → S → Type 0}
      {Q : E → S → Type 0}
      → ((a : A) → Runs (R a) (f a) T Q)
      → After R Q x
      → After T Q (andthen f x)
  andthen-After f (ok a, s) next h = (next a).at s h
  andthen-After f (err e, s) next h = h

  pub Runs-bind :
      {P : S → Type 0} {R : A → S → Type 0} {T : B → S → Type 0} {Q : E → S → Type 0} (m : M S E A)
      (f : A → M S E B)
      → Runs P m R Q
      → ((a : A) → Runs (R a) (f a) T Q)
      → Runs P (m >>= f) T Q
  unfolding ◌>>=◌
  Runs-bind m f first next = record { at = λ s p. andthen-After f (m s) next (first.at s p) }

module _ {S E A : Type 0} {R T : A → S → Type 0} {Q V : E → S → Type 0} where
  After-mono :
      (x : Result E A × S)
      → ((a : A) (s : S) → R a s → T a s)
      → ((e : E) (s : S) → Q e s → V e s)
      → After R Q x
      → After T V x
  After-mono (ok a, s) f g h = f a s h
  After-mono (err e, s) f g h = g e s h

  pub Runs-mono :
      {P : S → Type 0} (m : M S E A)
      → Runs P m R Q
      → ((a : A) (s : S) → R a s → T a s)
      → ((e : E) (s : S) → Q e s → V e s)
      → Runs P m T V
  Runs-mono m h f g = record { at = λ s p. After-mono (m s) f g (h.at s p) }

-- A fact that does not depend on the state.
pub Runs-given :
    {S E A C : Type 0} {P : S → Type 0} {R : A → S → Type 0} {Q : E → S → Type 0} (m : M S E A)
    → (C → Runs P m R Q)
    → Runs (λ s. C × P s) m R Q
Runs-given m h = record { at = λ s p. (h p.0).at s p.1 }
