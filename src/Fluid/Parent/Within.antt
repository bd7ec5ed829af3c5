-- ===== src/Fluid/Parent/Within.antt =====
-- The parent that `findParent` returns is one of the expressions that were searched.
use dark.Common.Search.{find_map, All_at, find_map-some}
use dark.Common.{
  ℕ, ◌≡◌, sym, ap, ◌∙◌, ◌⊎◌, inl, inr, true, Option, none, some, List, [], ◌∷◌, ◌++◌, arith, ◌==◌,
  ==_iff, All, any, Bool, Bool-cases, Option-cases, subst,
}
use dark.Fluid.Expr.{Expr, children, to_id}
use dark.Fluid.Induct.{induct}
use dark.Fluid.Find.{find, find-children}
use dark.Fluid.Update.{is_found}
use dark.Fluid.Parent.{find_parent, find_parent_from, find_parent_from-children}

is_found-append :
    (t : ℕ) (before : List Expr) (c : Expr) (after : List Expr)
    → is_found (find t c) ≡ true
    → is_found (find_map (find t) (before ++ c ∷ after)) ≡ true
is_found-append t [] c after h = elim (Option-cases (find t c)) [
  | inl n ↦ absurd (ground arith)
  | inr (x, s) ↦ ground arith
]
is_found-append t (b ∷ before) c after h = elim (Option-cases (find t b)) [
  | inl n ↦ ground (arith, is_found-append t before c after h)
  | inr (x, s) ↦ ground arith
]

-- What is found in a child is found.
found_in_child :
    (t : ℕ) (e : Expr) (before : List Expr) (c : Expr) (after : List Expr)
    → children e ≡ before ++ c ∷ after
    → is_found (find t c) ≡ true
    → is_found (find t e) ≡ true
found_in_child t e before c after at h =
    let there : is_found (find_map (find t) (children e)) ≡ true =
      ap (λ cs. is_found (find_map (find t) cs)) at ∙ is_found-append t before c after h in
    ground (arith, find-children t e, there)

found_itself : (e : Expr) → is_found (find (to_id e) e) ≡ true
found_itself e = ground (arith, find-children (to_id e) e, ==_iff (to_id e) (to_id e))

found_parent : (e p : Expr) → some e ≡ some p → is_found (find (to_id p) e) ≡ true
found_parent e p same =
    ap (λ x. is_found (find (to_id (default e x)) e)) (sym same) ∙ found_itself e
  where
    default : Expr → Option Expr → Expr
    default d none = d
    default d (some x) = x

-- A parent that the search returns is the one it was given, or is within.
abbrev FoundFrom : ℕ → Expr → Type 0
FoundFrom target e =
    (parent : Option Expr) (p : Expr)
    → find_parent_from target e parent ≡ some p
    → (parent ≡ some p) ⊎ (is_found (find (to_id p) e) ≡ true)

found_from : (target : ℕ) (e : Expr) → FoundFrom target e
found_from target = induct (FoundFrom target) (λ e ih parent p h.
    elim (Bool-cases (to_id e == target)) [
      | inl here ↦ inl (ground (arith, find_parent_from-children target e parent))
      | inr other ↦
          let (before, c, after, at, deeper) =
            find_map-some (λ c. find_parent_from target c (some e)) (children e) p
              (ground (arith, find_parent_from-children target e parent)) in
          elim (All_at (FoundFrom target) before c after (subst (All (FoundFrom target)) at ih)
            (some e) p deeper) [
              | inl same ↦ inr (found_parent e p same)
              | inr within ↦ inr (found_in_child (to_id p) e before c after at within)
            ]
    ])

pub find_parent_within :
    (target : ℕ) (e p : Expr) → find_parent target e ≡ some p → is_found (find (to_id p) e) ≡ true
unfolding find_parent
find_parent_within target e p h = elim (found_from target e none p h) [
  | inl same ↦ absurd (ground arith)
  | inr within ↦ within
]

-- Whether one of the expressions has the id.
abbrev pub has_child : ℕ → List Expr → Bool
has_child target es = any (λ c. to_id c == target) es

has_child-append :
    (target : ℕ) (before : List Expr) (c : Expr) (after : List Expr)
    → to_id c ≡ target
    → has_child target (before ++ c ∷ after) ≡ true
has_child-append target [] c after h = ground (arith, ==_iff (to_id c) target)
has_child-append target (b ∷ before) c after h =
    ground (arith, has_child-append target before c after h)

-- A parent that the search returns is the one it was given, at the expression with the id, or it has
-- a child with the id.
abbrev ChildFrom : ℕ → Expr → Type 0
ChildFrom target e =
    (parent : Option Expr) (p : Expr)
    → find_parent_from target e parent ≡ some p
    → ((parent ≡ some p) × (to_id e ≡ target)) ⊎ (has_child target (children p) ≡ true)

same_children :
    (target : ℕ) (e p : Expr)
    → some e ≡ some p
    → has_child target (children e) ≡ has_child target (children p)
same_children target e p same = ap (λ x. has_child target (children (default e x))) same
  where
    default : Expr → Option Expr → Expr
    default d none = d
    default d (some x) = x

child_from : (target : ℕ) (e : Expr) → ChildFrom target e
child_from target = induct (ChildFrom target) (λ e ih parent p h.
    elim (Bool-cases (to_id e == target)) [
      | inl here ↦ inl (
        ground (arith, find_parent_from-children target e parent),
        ground (arith, ==_iff (to_id e) target),
      )
      | inr other ↦
          let (before, c, after, at, deeper) =
            find_map-some (λ c. find_parent_from target c (some e)) (children e) p
              (ground (arith, find_parent_from-children target e parent)) in
          elim (All_at (ChildFrom target) before c after (subst (All (ChildFrom target)) at ih)
            (some e) p deeper) [
              | inl (same, id) ↦ inr (
                  sym (same_children target e p same)
                  ∙ ap (has_child target) at
                  ∙ has_child-append target before c after id)
              | inr within ↦ inr within
            ]
    ])

pub find_parent-has_child :
    (target : ℕ) (e p : Expr) → find_parent target e ≡ some p → has_child target (children p) ≡ true
unfolding find_parent
find_parent-has_child target e p h = elim (child_from target e none p h) [
  | inl (same, _) ↦ absurd (ground arith)
  | inr within ↦ within
]
