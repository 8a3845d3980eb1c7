-- ===== src/Examples/Accounts/Tally.antt =====
-- Numbers as texts of as many characters, for the UUIDs of the examples.
use Prim.Native.Char.{nul}
use Prim.Native.String.{String, [], ◌∷◌}
use go_saas_api.Common.{ℕ, zero, suc, ◌≡◌, refl, ap}

abbrev pub tally : ℕ → String
tally zero = []
tally (suc n) = nul ∷ tally n

abbrev pub total : String → ℕ
total [] = zero
total (c ∷ s) = suc (total s)

pub total-tally : (n : ℕ) → total (tally n) ≡ n
total-tally zero = refl
total-tally (suc n) = ap suc (total-tally n)
