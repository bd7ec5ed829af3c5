-- ===== src/Ast/Positions.antt =====
-- `Dark.ast.positions` of client/src/appsupport.js: where the atoms of a toplevel stand.
use dark.Common.{
  ◌≡◌, refl, ap, ◌⊎◌, inl, inr, Bool, true, false, not, Option, none, some, List, [], ◌∷◌, ◌++◌,
  Chars, if◌then◌else◌, Bool-cases, Option-cases,
}
use dark.Ast.ExtractId.{extract_id, IsIdOf, extract_id-IsIdOf, extract_id-none}

-- The sides of `getBoundingClientRect()`. A coordinate is of a type of floating-point numbers.
pub record Rect (F : Type 0) : Type 0 where
  pub left : F
  pub right : F
  pub top : F
  pub bottom : F

-- An element of the toplevel that has the class `blankOr`, and whether it has the class `nested`.
pub record Element (F : Type 0) : Type 0 where
  pub class_name : Chars
  pub nested : Bool
  pub rect : Rect F

pub record Atom : Type 0 where
  pub id : Chars
  pub left : Chars
  pub right : Chars
  pub top : Chars
  pub bottom : Chars

pub record Sizes : Type 0 where
  pub atoms : List Atom
  pub nested : List Atom

pub data Result (A : Type 0) : Type 0 where
  ok : A → Result A
  cannot_find : Chars → Result A
  type_error : Result A

-- `to_text` stands for `"" + (x | 0)`.
module _ {F : Type 0} (to_text : F → Chars) where
  abbrev pub atom_of : Chars → Rect F → Atom
  atom_of id rect = record {
    id = id;
    left = to_text rect.left;
    right = to_text rect.right;
    top = to_text rect.top;
    bottom = to_text rect.bottom;
  }

  abbrev push : Option Chars → Rect F → Option (List Atom) → Option (List Atom)
  push none rect rest = none
  push (some id) rect none = none
  push (some id) rect (some atoms) = some (atom_of id rect ∷ atoms)

  -- `find`: `querySelectorAll` with `.blankOr.nested` or `.blankOr:not(.nested)`. `none` is the
  -- TypeError of `extractId`.
  unfoldable pub find : List (Element F) → Bool → Option (List Atom)
  find [] nested = some []
  find (v ∷ tl) nested =
      let rest = find tl nested in
      if (if nested then v.nested else not v.nested)
      then push (extract_id v.class_name) v.rect rest
      else rest

  abbrev both : Option (List Atom) → Option (List Atom) → Result Sizes
  both none nested = type_error
  both (some atoms) none = type_error
  both (some atoms) (some nested) = ok (record { atoms = atoms; nested = nested })

  -- `positions`: the elements of the class `toplevel tl-…`, each with its elements `blankOr`.
  unfoldable pub positions : Chars → List (List (Element F)) → Result Sizes
  positions tlid [] = cannot_find tlid
  positions tlid (tl ∷ _) = both (find tl false) (find tl true)

  -- The elements that a call of `find` selects.
  pub selected : Bool → List (Element F) → List (Element F)
  selected nested [] = []
  selected nested (v ∷ tl) =
      let rest = selected nested tl in
      if (if nested then v.nested else not v.nested) then v ∷ rest else rest

  -- An atom that tells where an element stands.
  pub record Describes (v : Element F) (a : Atom) : Type 0 where
    pub is_id : IsIdOf v.class_name a.id
    pub placed : a ≡ atom_of a.id v.rect

  abbrev pub Each : List (Element F) → List Atom → Type 0
  Each [] [] = Unit
  Each [] (a ∷ atoms) = ⊥
  Each (v ∷ tl) [] = ⊥
  Each (v ∷ tl) (a ∷ atoms) = Describes v a × Each tl atoms

  -- Whether an element of the toplevel has no id in its class name.
  abbrev pub HasNoId : Bool → List (Element F) → Type 0
  HasNoId nested tl =
      (before : List (Element F)) × (v : Element F) × (after : List (Element F)) × (selected nested
          tl
        ≡ before ++ v ∷ after)
      × ((w : Chars) → ¬ IsIdOf v.class_name w)

  HasNoId-skip :
      (nested : Bool) (v : Element F) (tl : List (Element F))
      → (if nested then v.nested else not v.nested) ≡ false
      → HasNoId nested tl
      → HasNoId nested (v ∷ tl)
  unfolding selected
  HasNoId-skip nested v tl e (before, u, after, at, bad) = (before, u, after, rw e at, bad)

  HasNoId-cons :
      (nested : Bool) (v : Element F) (tl : List (Element F))
      → (if nested then v.nested else not v.nested) ≡ true
      → HasNoId nested tl
      → HasNoId nested (v ∷ tl)
  unfolding selected
  HasNoId-cons nested v tl e (before, u, after, at, bad) =
      (v ∷ before, u, after, rw e (ap (◌∷◌ v) at), bad)

  -- What `find` does: either one atom for each element that it selects, in their order, or an
  -- exception, and then one of them has no id.
  pub find_lem :
      (tl : List (Element F)) (nested : Bool)
      → ((atoms : List Atom) × (find tl nested ≡ some atoms) × Each (selected nested tl) atoms)
        ⊎ ((find tl nested ≡ none) × HasNoId nested tl)
  unfolding find selected
  find_lem [] nested = inl ([], refl, tt)
  find_lem (v ∷ tl) nested = elim (Bool-cases (if nested then v.nested else not v.nested)) [
    | inr e ↦ elim (find_lem tl nested) [
      | inl (atoms, f, each) ↦ inl (atoms, rw e f, rw e each)
      | inr (f, bad) ↦ inr (rw e f, HasNoId-skip nested v tl e bad)
    ]
    | inl e ↦ elim (Option-cases (extract_id v.class_name)) [
      | inl x ↦
          inr
            (rw (e, x), ([], v, selected nested tl, rw e refl, (extract_id-none v.class_name).0 x))
      | inr (w, x) ↦ elim (find_lem tl nested) [
        | inl (atoms, f, each) ↦ inl (
          atom_of w v.rect ∷ atoms,
          rw (e, x, f),
          rw e (record { is_id = extract_id-IsIdOf v.class_name x; placed = refl }, each),
        )
        | inr (f, bad) ↦ inr (rw (e, x, f), HasNoId-cons nested v tl e bad)
      ]
    ]
  ]

  -- For a toplevel that is found, either the result lists one atom for each element that is not
  -- nested and one for each that is, in their order, each with the element's id and place; or a
  -- TypeError is raised, and then the class name of one of the elements holds no id.
  pub positions_lem :
      (tlid : Chars) (tl : List (Element F)) (others : List (List (Element F)))
      → ((s : Sizes) × (positions tlid (tl ∷ others) ≡ ok s)
          × Each (selected false tl) s.atoms
          × Each (selected true tl) s.nested)
        ⊎ ((positions tlid (tl ∷ others) ≡ type_error) × (HasNoId false tl ⊎ HasNoId true tl))
  unfolding positions
  positions_lem tlid tl others = elim (find_lem tl false) [
    | inr (f, bad) ↦ inr (rw f, inl bad)
    | inl (atoms, f, each) ↦ elim (find_lem tl true) [
      | inr (g, bad) ↦ inr (rw (f, g), inr bad)
      | inl (nested, g, all) ↦ inl (record { atoms = atoms; nested = nested }, rw (f, g), each, all)
    ]
  ]
