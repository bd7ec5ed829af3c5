-- ===== src/Ast/Tests.antt =====
-- Runs and theorems of the positions at concrete inputs. A coordinate is a number of one digit.
use dark.Common.{ℕ, ◌+◌, ◌≡◌, refl, ◌⊎◌, true, false, some, List, [], ◌∷◌, Chars, codes}
use dark.Ast.ExtractId.{word, is_space, extract_id}
use dark.Ast.Positions.{
  Element, Sizes, Each, HasNoId, ok, type_error, selected, positions, positions_lem,
}

last_of_line : extract_id (codes "blankOr id-1 id-id-23 x\nid-4") ≡ some (codes "23")
unfolding extract_id word is_space
last_of_line = refl

abbrev digit : ℕ → Chars
digit n = (n + b'0') ∷ []

abbrev toplevel : List (Element ℕ)
toplevel =
    record {
      class_name = codes "blankOr id-7";
      nested = false;
      rect = record { left = 1; right = 2; top = 3; bottom = 4 };
    }
    ∷ record {
      class_name = codes "blankOr nested";
      nested = true;
      rect = record { left = 1; right = 2; top = 3; bottom = 4 };
    }
    ∷ []

positions_example :
    ((s : Sizes) × (positions digit (codes "5") (toplevel ∷ []) ≡ ok s)
      × Each digit (selected digit false toplevel) s.atoms
      × Each digit (selected digit true toplevel) s.nested)
    ⊎ ((positions digit (codes "5") (toplevel ∷ []) ≡ type_error)
        × (HasNoId digit false toplevel ⊎ HasNoId digit true toplevel))
positions_example = positions_lem digit (codes "5") toplevel []
