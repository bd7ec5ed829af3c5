-- ===== src/Fluid/Traverse/Ends.antt =====
-- That `preTraversal` ends, and when.
use mathlib.Core.List.{flatten}
use dark.Common.Search.{All_map}
use dark.Common.{
  ℕ, zero, suc, ◌+◌, ◌≤◌, ◌≡◌, refl, ap, none, List, [], ◌∷◌, ◌++◌, map, arith, All, length,
  length-append,
}
use dark.Fluid.Expr.{Expr, expr, no_exprs, e_list, children}
use dark.Fluid.Find.{nodes, nodes-children}
use dark.Fluid.Traverse.{pre_traversal, recurse}
use dark.Fluid.Traverse.Steps.{Returns, recurse-Returns}

-- How many expressions there are within one, with itself.
abbrev pub size : Expr → ℕ
size e = length (nodes e)

sizes_below :
    (k n : ℕ) (cs : List Expr) → k + length (flatten (map nodes cs)) ≤ n → All (λ c. size c ≤ n) cs
unfolding flatten
sizes_below k n [] h = tt
sizes_below k n (c ∷ cs) h =
    let total : length (nodes c ++ flatten (map nodes cs))
        ≡ size c + length (flatten (map nodes cs)) =
      length-append (nodes c) (flatten (map nodes cs)) in
    (omega (arith, h, total), sizes_below (k + size c) n cs (omega (arith, h, total)))

children_smaller : (n : ℕ) (e : Expr) → size e ≤ suc n → All (λ c. size c ≤ n) (children e)
children_smaller n e h =
    sizes_below 0 n (children e) (omega (arith, h, ap length (nodes-children e)))

-- With a function that does not make an expression larger, as many steps as there are expressions are
-- enough.
pub pre_traversal_ends :
    (f : Expr → Expr)
    → ((e : Expr) → size (f e) ≤ size e)
    → (fuel : ℕ) (e : Expr) → size e ≤ fuel
    → Returns (pre_traversal f fuel e)
unfolding pre_traversal
pre_traversal_ends f smaller zero e h = absurd (omega (arith, h, ap length (nodes-children e)))
pre_traversal_ends f smaller (suc fuel) e h = recurse-Returns (pre_traversal f fuel) (f e) (
    All_map (λ c. size c ≤ fuel) (λ c. Returns (pre_traversal f fuel c)) (children (f e))
      (pre_traversal_ends f smaller fuel)
      (children_smaller fuel (f e) (omega (arith, h, smaller e))))

abbrev wrapped : Expr → Expr
wrapped e = e_list 0 (expr e no_exprs)

-- With the one that puts an expression into a list, no number of steps is.
pre_traversal_endless : (fuel : ℕ) (e : Expr) → pre_traversal wrapped fuel e ≡ none
unfolding pre_traversal recurse
pre_traversal_endless zero e = refl
pre_traversal_endless (suc fuel) e = rw (pre_traversal_endless fuel e) refl
