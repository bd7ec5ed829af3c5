-- ===== src/Fluid/Update.antt =====
-- `update` of libshared/FluidExpression.ml.
pub mod Laws
pub mod Replace
use dark.Common.Search.{find_map, find_map_same, find_map-map, find_map-map_option, map_option}
use dark.Common.{
  ℕ, ◌≡◌, ◌≢◌, refl, sym, ap, ◌∙◌, ◌⊎◌, inl, inr, Bool, true, false, not, ◌&&◌, ◌||◌, Option, none,
  some, List, [], ◌∷◌, ◌++◌, map, arith, ◌==◌, ==_iff, if◌then◌else◌, any, All, Bool-cases,
  Option-cases,
}
use dark.Fluid.Expr.{Expr, children, to_id, deprecated_walk}
use dark.Fluid.Schemes.{walk_with, walk_with_lem, fold_expr, fold_expr_lem}
use dark.Fluid.Induct.{induct}
use dark.Fluid.Walk.{to_id-deprecated_walk, children-deprecated_walk, deprecated_walk_fixed}
use dark.Fluid.Find.{find, find-children}

-- What is returned, and whether the assertion was reported that the id is there.
pub record Updated : Type 0 where
  pub ast : Expr
  pub reported : Bool

-- The function `run` of `update`.
unfoldable pub run : (Expr → Expr) → ℕ → Expr → Expr
unfolding walk_with to_id
run f target = walk_with (λ e walked. if target == to_id e then f e else walked)

-- `found` after `run`: one of the expressions that it came to has the id.
unfoldable pub found : ℕ → Expr → Bool
unfolding fold_expr to_id
found target = fold_expr (λ e rs. target == to_id e || any (λ r. r) rs)

unfoldable pub update : Bool → (Expr → Expr) → ℕ → Expr → Updated
unfolding run found
update fail_if_missing f target ast = record {
  ast = run f target ast;
  reported = fail_if_missing && not (found target ast);
}

-- The recursion of `run`, as the source writes it.
pub run-deprecated_walk :
    (f : Expr → Expr) (target : ℕ) (e : Expr)
    → run f target e ≡ (if target == to_id e then f e else deprecated_walk (run f target) e)
unfolding run
run-deprecated_walk f target e =
    walk_with_lem (λ x walked. if target == to_id x then f x else walked) e

pub found-children :
    (target : ℕ) (e : Expr)
    → found target e ≡ (target == to_id e || any (λ r. r) (map (found target) (children e)))
unfolding found
found-children target e = fold_expr_lem (λ x rs. target == to_id x || any (λ r. r) rs) e

abbrev pub is_found : Option Expr → Bool
is_found none = false
is_found (some e) = true

any-found :
    (target : ℕ) (cs : List Expr)
    → All (λ c. found target c ≡ is_found (find target c)) cs
    → any (λ r. r) (map (found target) cs) ≡ is_found (find_map (find target) cs)
any-found target [] h = refl
any-found target (c ∷ cs) (e, h) = ground (arith, e, any-found target cs h)

same_test : (a b : ℕ) → (a == b) ≡ (b == a)
same_test a b = ground (arith, ==_iff a b, ==_iff b a)

found-find : (target : ℕ) (e : Expr) → found target e ≡ is_found (find target e)
found-find target =
    induct (λ e. found target e ≡ is_found (find target e))
      (λ e ih. ground (
        arith,
        found-children target e,
        find-children target e,
        any-found target (children e) ih,
        same_test target (to_id e),
      ))
