-- ===== src/Fluid/Parent.antt =====
-- `findParent` and `ancestors` of libshared/FluidExpression.ml.
pub mod Within
pub mod Edges
pub mod Ancestors
use mathlib.Core.List.{flatten}
use dark.Common.Search.{find_map, find_map-map, map-map}
use dark.Common.{
  ℕ, ◌≡◌, refl, sym, ap, ◌∙◌, inl, inr, Bool, true, false, Option, none, some, List, [], ◌∷◌, ◌++◌,
  map, arith, ◌==◌, if◌then◌else◌, All, Bool-cases, Option-cases,
}
use dark.Fluid.Expr.{Expr, e_list, e_record, children, to_id}
use dark.Fluid.Schemes.{fold_expr, fold_expr_lem}
use dark.Fluid.Induct.{induct}
use dark.Fluid.Find.{find, find-children}

-- `findParent'`: what is found within an expression that has this parent.
unfoldable pub find_parent_from : ℕ → Expr → Option Expr → Option Expr
unfolding fold_expr to_id
find_parent_from target =
    fold_expr
      (λ e within parent. if to_id e == target then parent else find_map (λ f. f (some e)) within)

unfoldable pub find_parent : ℕ → Expr → Option Expr
unfolding find_parent_from
find_parent target e = find_parent_from target e none

-- The source conses `expr`, which is the expression that the search began with, where it means
-- `exp`: at lists and at records.
unfoldable pub consed : Expr → Expr → Expr
consed root (e_list _ _) = root
consed root (e_record _ _) = root
consed root e = e

-- `rec_ancestors`.
unfoldable pub rec_ancestors : Expr → ℕ → Expr → List Expr → List Expr
unfolding fold_expr to_id consed flatten
rec_ancestors root target = fold_expr (λ e within walk.
    if to_id e == target then walk else flatten (map (λ f. f (consed root e ∷ walk)) within))

unfoldable pub ancestors : ℕ → Expr → List Expr
unfolding rec_ancestors
ancestors target e = rec_ancestors e target e []

-- The recursion of `findParent'`, as the source writes it.
pub find_parent_from-children :
    (target : ℕ) (e : Expr) (parent : Option Expr)
    → find_parent_from target e parent ≡ (
        if to_id e == target
        then parent
        else find_map (λ c. find_parent_from target c (some e)) (children e))
unfolding find_parent_from
find_parent_from-children target e parent =
    let g : Expr → List (Option Expr → Option Expr) → Option Expr → Option Expr =
      λ x within from. if to_id x == target then from else find_map (λ f. f (some x)) within in
    ap (λ f. f parent) (fold_expr_lem g e)
    ∙ ap (λ x. if to_id e == target then parent else x)
        (find_map-map (λ f. f (some e)) (fold_expr g) (children e))

pub rec_ancestors-children :
    (root : Expr) (target : ℕ) (e : Expr) (walk : List Expr)
    → rec_ancestors root target e walk ≡ (
        if to_id e == target
        then walk
        else flatten (map (λ c. rec_ancestors root target c (consed root e ∷ walk)) (children e)))
unfolding rec_ancestors
rec_ancestors-children root target e walk =
    let g : Expr → List (List Expr → List Expr) → List Expr → List Expr = λ x within above.
      if to_id x == target then above else flatten (map (λ f. f (consed root x ∷ above)) within) in
    ap (λ f. f walk) (fold_expr_lem g e)
    ∙ ap (λ x. if to_id e == target then walk else flatten x)
        (map-map (λ f. f (consed root e ∷ walk)) (fold_expr g) (children e))
