-- ===== src/Common/Bytes/Ascii.antt =====
-- The bytes of a text of ASCII characters.
use Prim.Native.Char.{code}
use Prim.Native.String.{String, [], ◌∷◌}
use mathlib.Core.List as L
use go_saas_api.Common.Bytes.{Bytes}

unfoldable pub ascii : String → Bytes
ascii [] = L.[]
ascii (c ∷ s) = L.◌∷◌ (code c) (ascii s)
