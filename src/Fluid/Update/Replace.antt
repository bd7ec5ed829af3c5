-- ===== src/Fluid/Update/Replace.antt =====
-- `replace` of libshared/FluidExpression.ml. `List.splitWhen` is of a package: a parameter, and Merged
-- has what it is documented to do.
pub mod Merged
use dark.Common.Search.{
  find_map, find_map_same, find_map-map, find_map-map_option, map_option, All_apply,
}
use dark.Common.{
  ℕ, ◌≡◌, refl, sym, ap, ◌∙◌, inl, inr, Bool, true, false, not, Option, none, some, List, [], ◌∷◌,
  ◌++◌, arith, ◌==◌, ==_iff, if◌then◌else◌, Bool-cases,
}
use dark.Fluid.Expr.{
  Expr, Exprs, no_exprs, expr, exprs_of, e_pipe, children, to_id, deprecated_walk,
}
use dark.Fluid.Induct.{induct}
use dark.Fluid.Walk.{to_id-deprecated_walk, children-deprecated_walk}
use dark.Fluid.Find.{find, find-children}
use dark.Fluid.Parent.{find_parent}
use dark.Fluid.Parent.Within.{find_parent_within}
use dark.Fluid.Update.{Updated, run, update, run-deprecated_walk, is_found, same_test, found-find}
use dark.Fluid.Update.Laws.{find_here, find_deeper, none_of_children, other_id}

abbrev pub to_exprs : List Expr → Exprs
to_exprs [] = no_exprs
to_exprs (e ∷ es) = expr e (to_exprs es)

-- `List.tail` with the empty list as its default.
abbrev pub tail : List Expr → List Expr
tail [] = []
tail (e ∷ es) = es

-- The id to look for, and what to put there: a pipe that goes into another pipe takes the place of
-- that one, with its expressions in place of the target.
unfoldable pub redirected :
    ((Expr → Bool) → List Expr → List Expr × List Expr) → Expr → ℕ → Option Expr → ℕ × Expr
unfolding to_id
redirected split_when (e_pipe new_id new_exprs) target (some (e_pipe parent_id old_exprs)) =
    let (before, elem_and_after) =
      split_when (λ nested. to_id nested == target) (exprs_of old_exprs) in
    (parent_id, e_pipe new_id (to_exprs (before ++ exprs_of new_exprs ++ tail elem_and_after)))
redirected split_when replacement target _ = (target, replacement)

unfoldable pub replace :
    ((Expr → Bool) → List Expr → List Expr × List Expr) → Expr → ℕ → Expr → Updated
unfolding redirected find_parent update
replace split_when replacement target ast =
    let (there, new_expr) = redirected split_when replacement target (find_parent target ast) in
    update true (λ _. new_expr) there ast

-- An expression with a new id stands where the one with the id stood.
find_new-run :
    (new_expr : Expr) (target : ℕ) (e : Expr)
    → find (to_id new_expr) e ≡ none
    → find (to_id new_expr) (run (λ _. new_expr) target e)
      ≡ map_option (λ _. new_expr) (find target e)
find_new-run new_expr target =
    let f : Expr → Expr = λ _. new_expr in
    let new : ℕ = to_id new_expr in
    induct (λ e. find new e ≡ none → find new (run f target e) ≡ map_option f (find target e))
      (λ e ih fresh.
        let (unlike, fresh_below) =
          other_id new e (find_map (find new) (children e)) (sym (find-children new e) ∙ fresh) in
        elim (Bool-cases (target == to_id e)) [
          | inl here ↦
              let at : to_id e ≡ target = ground (arith, ==_iff target (to_id e), here) in
              ap (find new) (
                run-deprecated_walk f target e
                ∙ ap (λ b. if b then new_expr else deprecated_walk (run f target) e) here)
              ∙ find_here new new_expr refl
              ∙ sym (ap (map_option f) (find_here target e at))
          | inr other ↦
              let apart : (to_id e == target) ≡ false = same_test (to_id e) target ∙ other in
              let apart_new : (to_id e == new) ≡ false = same_test (to_id e) new ∙ unlike in
              let walked : run f target e ≡ deprecated_walk (run f target) e =
                run-deprecated_walk f target e
                ∙ ap (λ b. if b then new_expr else deprecated_walk (run f target) e) other in
              ap (find new) walked
              ∙ find_deeper new (deprecated_walk (run f target) e)
                  (ap (λ i. i == new) (to_id-deprecated_walk (run f target) e) ∙ apart_new)
              ∙ ap (find_map (find new)) (children-deprecated_walk (run f target) e)
              ∙ find_map-map (find new) (run f target) (children e)
              ∙ find_map_same (λ c. find new (run f target c)) (λ c. map_option f (find target c))
                  (children e)
                  (All_apply (λ c. find new c ≡ none)
                    (λ c. find new (run f target c) ≡ map_option f (find target c)) (children e) ih
                    (none_of_children new (children e) fresh_below))
              ∙ find_map-map_option f (find target) (children e)
              ∙ sym (ap (map_option f) (find_deeper target e apart))
        ])

module _ (split_when : (Expr → Bool) → List Expr → List Expr × List Expr) where
  to_id-redirected :
      (replacement : Expr) (target : ℕ) (parent : Option Expr)
      → to_id (redirected split_when replacement target parent).1 ≡ to_id replacement
  unfolding redirected
  to_id-redirected (e_pipe _ _) target (some (e_pipe _ _)) = refl
  to_id-redirected replacement target _ = refl

  -- It is the target, or a parent.
  redirected_there :
      (P : ℕ → Type 0) (replacement : Expr) (target : ℕ) (parent : Option Expr)
      → P target
      → ((p : Expr) → parent ≡ some p → P (to_id p))
      → P (redirected split_when replacement target parent).0
  unfolding redirected to_id
  redirected_there P (e_pipe _ _) target (some (e_pipe id es)) h k = k (e_pipe id es) refl
  redirected_there P replacement target _ h k = h

  there_found :
      (replacement : Expr) (target : ℕ) (ast : Expr)
      → is_found (find target ast) ≡ true
      → is_found (find (redirected split_when replacement target (find_parent target ast)).0 ast)
        ≡ true
  there_found replacement target ast h =
      redirected_there (λ id. is_found (find id ast) ≡ true) replacement target
        (find_parent target ast) h (λ p same. find_parent_within target ast p same)

  -- Where the target is in the tree and the replacement's id is not, then what `redirected` gives
  -- stands in the new tree under that id, and nothing is reported.
  pub find-redirected :
      (replacement : Expr) (target : ℕ) (ast : Expr)
      → is_found (find target ast) ≡ true
      → find (to_id replacement) ast ≡ none
      → (find (to_id replacement) (replace split_when replacement target ast).ast
          ≡ some (redirected split_when replacement target (find_parent target ast)).1)
        × ((replace split_when replacement target ast).reported ≡ false)
  unfolding replace update
  find-redirected replacement target ast h fresh =
      let there : ℕ = (redirected split_when replacement target (find_parent target ast)).0 in
      let new_expr : Expr = (redirected split_when replacement target (find_parent target ast)).1 in
      let same : to_id new_expr ≡ to_id replacement =
        to_id-redirected replacement target (find_parent target ast) in
      let at : is_found (find there ast) ≡ true = there_found replacement target ast h in
      (
        ap (λ id. find id (run (λ _. new_expr) there ast)) (sym same)
            ∙ find_new-run new_expr there ast (ap (λ id. find id ast) same ∙ fresh)
            ∙ always_found (find there ast) new_expr at,
        ap not (found-find there ast ∙ at),
      )
    where
      always_found :
          (o : Option Expr) (x : Expr) → is_found o ≡ true → map_option (λ _. x) o ≡ some x
      always_found none x h = absurd (ground arith)
      always_found (some y) x h = refl
