-- ===== src/Common/Bytes.antt =====
-- Go strings as lists of bytes, with the functions of package strings that the code calls.
pub mod Index
pub mod Ascii
use Prim.Native.Nat.{ℕ, zero, suc, ◌+◌, ◌-◌}
use mathlib.Core.Bool.{Bool, true, false, ◌&&◌, ◌||◌}
use mathlib.Core.Option
use mathlib.Core.Option.{Option, none, some}
use mathlib.Core.List.{List, [], ◌∷◌, reverse}
use go_saas_api.Common.Tests.{leb, ◌==◌, nat_eq, if◌then◌else◌}

abbrev pub Bytes : Type 0
Bytes = List ℕ

-- strings.HasPrefix(s, p), as `starts_with p s`.
unfoldable pub starts_with : Bytes → Bytes → Bool
starts_with [] s = true
starts_with (p ∷ ps) [] = false
starts_with (p ∷ ps) (b ∷ s) = p == b && starts_with ps s

-- strings.Index(s, p), as `index_of p s`; `none` is -1.
unfoldable pub index_of : Bytes → Bytes → Option ℕ
unfolding starts_with
index_of p [] = if starts_with p [] then some 0 else none
index_of p (b ∷ s) =
    let later = Option.map suc (index_of p s) in if starts_with p (b ∷ s) then some 0 else later

-- The later of two places, the first of them one byte further on.
abbrev later_or : Option ℕ → Option ℕ → Option ℕ
later_or (some i) here = some (suc i)
later_or none here = here

-- strings.LastIndex(s, p), as `last_index_of p s`; `none` is -1.
unfoldable pub last_index_of : Bytes → Bytes → Option ℕ
unfolding starts_with
last_index_of p [] = if starts_with p [] then some 0 else none
last_index_of p (b ∷ s) =
    later_or (last_index_of p s) (if starts_with p (b ∷ s) then some 0 else none)

-- strings.Count(s, c) for a string c of one byte.
unfoldable pub count_byte : ℕ → Bytes → ℕ
count_byte c [] = 0
count_byte c (b ∷ s) = (if b == c then 1 else 0) + count_byte c s

-- The bytes of the code point U+2000 to U+3000 that unicode.IsSpace accepts.
unfoldable pub is_space3 : ℕ → ℕ → ℕ → Bool
is_space3 a b c =
    (a == 225 && b == 154 && c == 128)
    || (a == 226
        && (b == 128 && (leb 128 c && leb c 138 || c == 168 || c == 169 || c == 175)
            || b == 129 && c == 159))
    || (a == 227 && b == 128 && c == 128)

unfoldable pub is_space2 : ℕ → ℕ → Bool
is_space2 a b = a == 194 && (b == 133 || b == 160)

unfoldable pub is_space1 : ℕ → Bool
is_space1 a = leb 9 a && leb a 13 || a == 32

-- The number of bytes of a white space at the head of a string, 0 if there is none.
unfoldable pub space_width : Bytes → ℕ
unfolding is_space1 is_space2 is_space3
space_width [] = 0
space_width (a ∷ []) = if is_space1 a then 1 else 0
space_width (a ∷ b ∷ []) = if is_space1 a then 1 else if is_space2 a b then 2 else 0
space_width (a ∷ b ∷ c ∷ s) =
    if is_space1 a then 1 else if is_space2 a b then 2 else if is_space3 a b c then 3 else 0

-- The same at the end of a string, which is given reversed.
unfoldable pub space_width_rev : Bytes → ℕ
unfolding is_space1 is_space2 is_space3
space_width_rev [] = 0
space_width_rev (a ∷ []) = if is_space1 a then 1 else 0
space_width_rev (a ∷ b ∷ []) = if is_space1 a then 1 else if is_space2 b a then 2 else 0
space_width_rev (a ∷ b ∷ c ∷ s) =
    if is_space1 a then 1 else if is_space2 b a then 2 else if is_space3 c b a then 3 else 0

-- Drops white space at the head, after `skip` more bytes of the one that was met.
unfoldable pub trim_by : (Bytes → ℕ) → ℕ → Bytes → Bytes
trim_by width skip [] = []
trim_by width (suc skip) (b ∷ s) = trim_by width skip s
trim_by width zero (b ∷ s) =
    let rest = trim_by width (width (b ∷ s) - 1) s in if width (b ∷ s) == 0 then b ∷ s else rest

-- strings.TrimSpace
unfoldable pub trim_space : Bytes → Bytes
unfolding trim_by space_width space_width_rev
trim_space s = reverse (trim_by space_width_rev 0 (reverse (trim_by space_width 0 s)))
