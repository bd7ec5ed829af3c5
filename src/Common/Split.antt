-- ===== src/Common/Split.antt =====
-- A text split at its slashes, and its parts joined again.
use dark.Common.Tests.{◌==◌, if◌then◌else◌, Bool-cases}
use mathlib.Core.Logic.{inl, inr}
use dark.Common.Lists.{All}
use dark.Common.Text.{Chars}
use Prim.Native.Nat.{ℕ}
use mathlib.Core.Path.{◌≡◌, refl, ap, ◌∙◌}
use mathlib.Core.Bool.{false}
use mathlib.Core.List.{List, [], ◌∷◌, ◌++◌}

-- The part before the first slash, and the parts behind it.
abbrev pub cons_part : ℕ → List Chars → List Chars
cons_part c [] = (c ∷ []) ∷ []
cons_part c (part ∷ parts) = (c ∷ part) ∷ parts

unfoldable pub split : Chars → List Chars
split [] = [] ∷ []
split (c ∷ s) = let rest = split s in if c == b'/' then [] ∷ rest else cons_part c rest

-- The parts with slashes between them.
abbrev pub join : List Chars → Chars
join [] = []
join (part ∷ []) = part
join (part ∷ next ∷ parts) = part ++ b'/' ∷ join (next ∷ parts)

abbrev pub NoSlash : Chars → Type 0
NoSlash = All (λ c. (c == b'/') ≡ false)

pub split-part : (s rest : Chars) → NoSlash s → split (s ++ b'/' ∷ rest) ≡ s ∷ split rest
unfolding split
split-part [] rest h = refl
split-part (c ∷ s) rest (h, hs) = rw (h, split-part s rest hs)

pub split_last : (s : Chars) → NoSlash s → split s ≡ s ∷ []
unfolding split
split_last [] h = refl
split_last (c ∷ s) (h, hs) = rw (h, split_last s hs)

pub split-join :
    (part : Chars) (parts : List Chars)
    → All NoSlash (part ∷ parts)
    → split (join (part ∷ parts)) ≡ part ∷ parts
split-join part [] (h, _) = split_last part h
split-join part (next ∷ parts) (h, hs) =
    split-part part _ h ∙ ap (◌∷◌ part) (split-join next parts hs)

cons_part-NoSlash :
    (c : ℕ) (parts : List Chars)
    → (c == b'/') ≡ false
    → All NoSlash parts
    → All NoSlash (cons_part c parts)
cons_part-NoSlash c [] e h = ((e, tt), tt)
cons_part-NoSlash c (part ∷ parts) e (h, hs) = ((e, h), hs)

pub split-NoSlash : (s : Chars) → All NoSlash (split s)
unfolding split
split-NoSlash [] = (tt, tt)
split-NoSlash (c ∷ s) = elim (Bool-cases (c == b'/')) [
  | inl e ↦ rw e (tt, split-NoSlash s)
  | inr e ↦ rw e (cons_part-NoSlash c (split s) e (split-NoSlash s))
]
