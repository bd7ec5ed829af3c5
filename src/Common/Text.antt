-- ===== src/Common/Text.antt =====
-- Text as the list of its character codes, with tests on prefixes and substrings.
use Prim.Native.Nat.{ℕ}
use Prim.Native.Char.{code}
use Prim.Native.String.{String}
use mathlib.Core.Path.{◌≡◌}
use mathlib.Core.Logic.{◌↔◌}
use mathlib.Core.Bool.{Bool, true, false, ◌&&◌, ◌||◌}
use mathlib.Core.List.{List, [], ◌∷◌}
use native.Mathlib.Omega.{arith}
use dark.Common.Tests.{◌==◌}

abbrev pub Chars : Type 0
Chars = List ℕ

abbrev pub codes : String → Chars
codes String.[] = []
codes (String.◌∷◌ c s) = code c ∷ codes s

unfoldable pub is_prefix : Chars → Chars → Bool
is_prefix [] s = true
is_prefix (p ∷ ps) [] = false
is_prefix (p ∷ ps) (c ∷ s) = p == c && is_prefix ps s

-- `/word/.test(text)`, for a word with no special characters.
unfoldable pub contains : Chars → Chars → Bool
unfolding is_prefix
contains word [] = is_prefix word []
contains word (c ∷ s) = is_prefix word (c ∷ s) || contains word s

-- `===` on texts.
unfoldable pub same_text : Chars → Chars → Bool
same_text [] [] = true
same_text [] (c ∷ t) = false
same_text (c ∷ s) [] = false
same_text (c ∷ s) (d ∷ t) = c == d && same_text s t

pub same_text_iff : (s t : Chars) → (same_text s t ≡ true) ↔ (s ≡ t)
unfolding same_text
same_text_iff [] [] = ground arith
same_text_iff [] (c ∷ t) = ground arith
same_text_iff (c ∷ s) [] = ground arith
same_text_iff (c ∷ s) (d ∷ t) = ground (arith, same_text_iff s t)
