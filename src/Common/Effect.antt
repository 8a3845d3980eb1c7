-- ===== src/Common/Effect.antt =====
-- Methods that change a state and may fail: their result, and the state that they leave. An error
-- undoes nothing.
pub mod Triple
use mathlib.Core.Path.{◌≡◌, refl}
use mathlib.Core.Option.{Option, none, some}

pub data Result (E A : Type 0) : Type 0 where
  ok : A → Result E A
  err : E → Result E A

abbrev pub M : (S E A : Type 0) → Type 0
M S E A = S → Result E A × S

abbrev pub andthen : {S E A B : Type 0} → (A → M S E B) → Result E A × S → Result E B × S
andthen f (ok a, s) = f a s
andthen f (err e, s) = (err e, s)

infixl 5 ◌>>=◌ ◌>>◌
unfoldable pub ◌>>=◌ : {S E A B : Type 0} → M S E A → (A → M S E B) → M S E B
◌>>=◌ m f s = andthen f (m s)

abbrev pub ◌>>◌ : {S E A B : Type 0} → M S E A → M S E B → M S E B
m >> n = m >>= λ _. n

abbrev pub pure : {S E A : Type 0} → A → M S E A
pure a s = (ok a, s)

abbrev pub fail : {S E A : Type 0} → E → M S E A
fail e s = (err e, s)

-- A branch on a value that may be missing.
abbrev pub some_or : {S E A : Type 0} → E → Option A → M S E A
some_or e none = fail e
some_or e (some a) = pure a

-- `m` keeps `P`, whatever it returns.
pub record Keeps {S E A : Type 0} (P : S → Type 0) (m : M S E A) : Type 0 where
  pub at : (s : S) → P s → P (m s).1

andthen-Keeps :
    {S E A B : Type 0} (P : S → Type 0) (f : A → M S E B) (x : Result E A × S)
    → ((a : A) → x.0 ≡ ok a → Keeps P (f a))
    → P x.1
    → P (andthen f x).1
andthen-Keeps P f (ok a, s) h p = (h a refl).at s p
andthen-Keeps P f (err e, s) h p = p

module _ {S E : Type 0} (P : S → Type 0) where
  pub Keeps-pure : {A : Type 0} (a : A) → Keeps {E = E} P (pure a)
  Keeps-pure a = record { at = λ s p. p }

  pub Keeps-fail : {A : Type 0} (e : E) → Keeps {A = A} P (fail e)
  Keeps-fail e = record { at = λ s p. p }

  pub Keeps-bind :
      {A B : Type 0} (m : M S E A) (f : A → M S E B)
      → Keeps P m
      → ((a : A) → Keeps P (f a))
      → Keeps P (m >>= f)
  unfolding ◌>>=◌
  Keeps-bind m f km kf = record { at = λ s p. andthen-Keeps P f (m s) (λ a _. kf a) (km.at s p) }

  pub Keeps-some_or : {A : Type 0} (e : E) (o : Option A) → Keeps P (some_or e o)
  Keeps-some_or e none = Keeps-fail e
  Keeps-some_or e (some a) = Keeps-pure a

-- A block that succeeds has a first step that succeeds.
pub >>=-ok :
    {S E A B : Type 0} (m : M S E A) (f : A → M S E B) (s : S) (b : B)
    → ((m >>= f) s).0 ≡ ok b
    → (a : A) × ((m s).0 ≡ ok a) × ((f a (m s).1).0 ≡ ok b) × ((m >>= f) s ≡ f a (m s).1)
unfolding ◌>>=◌
>>=-ok {S} {E} {A} {B} m f s b h = go (m s) h
  where
    go :
        (x : Result E A × S)
        → (andthen f x).0 ≡ ok b
        → (a : A) × (x.0 ≡ ok a) × ((f a x.1).0 ≡ ok b) × (andthen f x ≡ f a x.1)
    go (ok a, t) e = (a, refl, e, refl)
    go (err d, t) e = cc

-- A block whose first step fails has its error.
pub >>=-err :
    {S E A B : Type 0} (m : M S E A) (f : A → M S E B) (s : S) (e : E)
    → (m s).0 ≡ err e
    → ((m >>= f) s).0 ≡ err e
unfolding ◌>>=◌
>>=-err {S} {E} {A} {B} m f s e h = go (m s) h
  where
    go : (x : Result E A × S) → x.0 ≡ err e → (andthen f x).0 ≡ err e
    go (ok a, t) q = cc
    go (err d, t) q = cc

abbrev with_error : {S E F A : Type 0} → (E → F) → Result E A × S → Result F A × S
with_error f (ok a, s) = (ok a, s)
with_error f (err e, s) = (err (f e), s)

-- The errors of `m` in the caller's words.
unfoldable pub map_error : {S E F A : Type 0} → (E → F) → M S E A → M S F A
map_error f m s = with_error f (m s)

-- The result of `m` as a value: the caller goes on after an error.
unfoldable pub attempt : {S E F A : Type 0} → M S E A → M S F (Result E A)
attempt m s = (ok (m s).0, (m s).1)

with_error-state : {S E F A : Type 0} (f : E → F) (x : Result E A × S) → (with_error f x).1 ≡ x.1
with_error-state f (ok a, s) = refl
with_error-state f (err e, s) = refl

module _ {S E F : Type 0} (P : S → Type 0) where
  pub Keeps-map_error : {A : Type 0} (f : E → F) (m : M S E A) → Keeps P m → Keeps P (map_error f m)
  unfolding map_error
  Keeps-map_error f m k = record { at = λ s p. rw (with_error-state f (m s)) (k.at s p) }

  pub Keeps-attempt : {A : Type 0} (m : M S E A) → Keeps P m → Keeps {E = F} P (attempt m)
  unfolding attempt
  Keeps-attempt m k = record { at = k.at }

-- An error that was put in other words was none before, where there is none.
pub map_error-ok :
    {S E F A : Type 0} (f : E → F) (m : M S E A) (s : S) (a : A)
    → (map_error f m s).0 ≡ ok a
    → ((m s).0 ≡ ok a) × ((map_error f m s).1 ≡ (m s).1)
unfolding map_error
map_error-ok {S} {E} {F} {A} f m s a h = go (m s) h
  where
    go :
        (x : Result E A × S) → (with_error f x).0 ≡ ok a → (x.0 ≡ ok a) × ((with_error f x).1 ≡ x.1)
    go (ok b, t) e = (cc e, refl)
    go (err d, t) e = cc
