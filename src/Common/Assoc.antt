-- ===== src/Common/Assoc.antt =====
-- Go maps as association lists. The order of iteration of a Go map is not specified; where the
-- code ranges over one, the order of the list stands for the order that was taken.
use mathlib.Core.Path.{◌≡◌, refl}
use mathlib.Core.Logic.{◌≢◌}
use mathlib.Core.Option.{Option, none, some}
use mathlib.Core.List.{List, [], ◌∷◌}
use native.Mathlib.Omega.{arith}
use go_saas_api.Common.Tests.{Comparable, ◌==◌, beq_refl, if◌then◌else◌}

module _ {ℓ κ} {K : Type ℓ} {V : Type κ} ⦃cmp : Comparable K⦄ where
  unfoldable pub lookup : K → List (K × V) → Option V
  lookup key [] = none
  lookup key ((k, v) ∷ rest) = if k == key then some v else lookup key rest

  unfoldable pub insert : K → V → List (K × V) → List (K × V)
  insert key new [] = (key, new) ∷ []
  insert key new ((k, v) ∷ rest) =
      let changed = insert key new rest in if k == key then (key, new) ∷ rest else (k, v) ∷ changed

  pub lookup-insert :
      (key other : K) (new : V) (rest : List (K × V))
      → lookup other (insert key new rest) ≡ (if key == other then some new else lookup other rest)
  unfolding lookup insert
  lookup-insert key other new [] = refl
  lookup-insert key other new ((k, v) ∷ rest) = ground (
    arith,
    cmp.equals_iff key other,
    cmp.equals_iff k key,
    cmp.equals_iff k other,
    cmp.equals_iff other other,
    lookup-insert key other new rest,
  )

  pub lookup-insert_self : (k : K) (v : V) (m : List (K × V)) → lookup k (insert k v m) ≡ some v
  lookup-insert_self k v m = rw (lookup-insert k k v m, beq_refl k)

  pub lookup-insert_ne :
      (k j : K) (v : V) (m : List (K × V)) → j ≢ k → lookup j (insert k v m) ≡ lookup j m
  lookup-insert_ne k j v m h = ground (arith, lookup-insert k j v m, cmp.equals_iff k j)
