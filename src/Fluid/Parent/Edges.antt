-- ===== src/Fluid/Parent/Edges.antt =====
-- `findParent` as a search among all pairs of an expression and one of its children.
use mathlib.Core.List.{flatten}
use dark.Common.Search.{
  find_map, find_map_same, find_map-flatten, map-map, or_else, All_map, All_always,
}
use dark.Common.{
  ℕ, ◌≡◌, refl, sym, ap, ◌∙◌, Bool, true, false, Option, none, some, List, ◌∷◌, map, ◌==◌,
  if◌then◌else◌, All,
}
use dark.Fluid.Expr.{Expr, children, to_id}
use dark.Fluid.Schemes.{fold_expr, fold_expr_lem}
use dark.Fluid.Induct.{induct}
use dark.Fluid.Parent.{find_parent, find_parent_from, find_parent_from-children}

-- An expression with its parent, and then the same of its children and of all within.
unfoldable pub edges_from : Expr → Expr → List (Expr × Expr)
unfolding fold_expr flatten
edges_from = fold_expr (λ e within parent. (parent, e) ∷ flatten (map (λ f. f e) within))

edges_from-children :
    (e parent : Expr)
    → edges_from e parent ≡ (parent, e) ∷ flatten (map (λ c. edges_from c e) (children e))
unfolding edges_from
edges_from-children e parent =
    let g : Expr → List (Expr → List (Expr × Expr)) → Expr → List (Expr × Expr) =
      λ x within from. (from, x) ∷ flatten (map (λ f. f x) within) in
    ap (λ f. f parent) (fold_expr_lem g e)
    ∙ ap (λ x. (parent, e) ∷ flatten x) (map-map (λ f. f e) (fold_expr g) (children e))

-- All the pairs of an expression and one of its children, within an expression.
unfoldable pub edges : Expr → List (Expr × Expr)
unfolding edges_from flatten children
edges e = flatten (map (λ c. edges_from c e) (children e))

abbrev pub parent_if_target : ℕ → Expr × Expr → Option Expr
parent_if_target target (parent, c) = if to_id c == target then some parent else none

or_else_if :
    (b : Bool) (e : Expr) (x : Option Expr)
    → (if b then some e else x) ≡ or_else (if b then some e else none) x
or_else_if true e x = refl
or_else_if false e x = refl

-- What holds of the search within each child holds of the search within them all.
search_children :
    (target : ℕ) (parent : Expr) (cs : List Expr)
    → All
        (λ c.
          find_parent_from target c (some parent)
          ≡ find_map (parent_if_target target) (edges_from c parent))
        cs
    → find_map (λ c. find_parent_from target c (some parent)) cs
      ≡ find_map (parent_if_target target) (flatten (map (λ c. edges_from c parent) cs))
search_children target parent cs h =
    find_map_same (λ c. find_parent_from target c (some parent))
      (λ c. find_map (parent_if_target target) (edges_from c parent)) cs h
    ∙ sym (find_map-flatten (parent_if_target target) (λ c. edges_from c parent) cs)

same_search :
    (target : ℕ) (e parent : Expr)
    → find_parent_from target e (some parent)
      ≡ find_map (parent_if_target target) (edges_from e parent)
same_search target =
    induct
      (λ e.
        (parent : Expr)
        → find_parent_from target e (some parent)
          ≡ find_map (parent_if_target target) (edges_from e parent))
      (λ e ih parent.
        let deeper : find_map (λ c. find_parent_from target c (some e)) (children e)
            ≡ find_map (parent_if_target target)
                (flatten (map (λ c. edges_from c e) (children e))) =
          search_children target e (children e) (
            All_map
              (λ c.
                (p : Expr)
                → find_parent_from target c (some p)
                  ≡ find_map (parent_if_target target) (edges_from c p))
              (λ c.
                find_parent_from target c (some e)
                ≡ find_map (parent_if_target target) (edges_from c e))
              (children e) (λ c h. h e) ih) in
        find_parent_from-children target e (some parent)
        ∙ ap (λ x. if to_id e == target then some parent else x) deeper
        ∙ or_else_if (to_id e == target) parent
            (find_map (parent_if_target target) (flatten (map (λ c. edges_from c e) (children e))))
        ∙ ap (find_map (parent_if_target target)) (sym (edges_from-children e parent)))

-- The parent of an expression is the first in the pairs whose child has the id; that the root has
-- it is for no parent.
pub find_parent-edges :
    (target : ℕ) (e : Expr)
    → find_parent target e
      ≡ (if to_id e == target then none else find_map (parent_if_target target) (edges e))
unfolding find_parent edges
find_parent-edges target e =
    find_parent_from-children target e none
    ∙ ap (λ x. if to_id e == target then none else x)
        (search_children target e (children e) (
          All_always
            (λ c.
              find_parent_from target c (some e)
              ≡ find_map (parent_if_target target) (edges_from c e))
            (children e) (λ c. same_search target c e)))
