-- ===== src/Fluid/Find.antt =====
-- `find` of libshared/FluidExpression.ml, and what it is of all the expressions within one.
use mathlib.Core.List.{flatten}
use dark.Common.Search.{
  or_else, find_map, or_else_assoc, or_else-none, find_map-flatten, find_map_same,
}
use dark.Common.{
  ℕ, ◌≡◌, refl, sym, ap, ◌∙◌, Bool, true, false, Option, none, some, List, ◌∷◌, map, ◌==◌,
  if◌then◌else◌,
}
use dark.Fluid.Expr.{
  Expr, Exprs, Fields, Cases, no_exprs, expr, no_fields, field, no_cases, case, exprs_of,
  field_exprs, case_exprs, children, to_id, e_integer, e_bool, e_string, e_float, e_null, e_blank,
  e_let, e_if, e_bin_op, e_lambda, e_field_access, e_variable, e_fn_call, e_partial,
  e_right_partial, e_left_partial, e_list, e_record, e_pipe, e_constructor, e_match, e_pipe_target,
  e_feature_flag,
}
use dark.Fluid.Schemes.{fold_expr, fold_expr_lem}
use dark.Fluid.Induct.{induct}

unfoldable mutual
  pub find : ℕ → Expr → Option Expr
  find target (e_integer id value) = if id == target then some (e_integer id value) else none
  find target (e_bool id value) = if id == target then some (e_bool id value) else none
  find target (e_string id value) = if id == target then some (e_string id value) else none
  find target (e_float id whole fraction) =
      if id == target then some (e_float id whole fraction) else none
  find target (e_null id) = if id == target then some (e_null id) else none
  find target (e_blank id) = if id == target then some (e_blank id) else none
  find target (e_let id lhs rhs body) =
      let deeper = or_else (find target rhs) (find target body) in
      if id == target then some (e_let id lhs rhs body) else deeper
  find target (e_if id cond then_ else_) =
      let deeper = or_else (or_else (find target cond) (find target then_)) (find target else_) in
      if id == target then some (e_if id cond then_ else_) else deeper
  find target (e_bin_op id op left right ster) =
      let deeper = or_else (find target left) (find target right) in
      if id == target then some (e_bin_op id op left right ster) else deeper
  find target (e_lambda id vars body) =
      let deeper = find target body in if id == target then some (e_lambda id vars body) else deeper
  find target (e_field_access id obj name) =
      let deeper = find target obj in
      if id == target then some (e_field_access id obj name) else deeper
  find target (e_variable id name) = if id == target then some (e_variable id name) else none
  find target (e_fn_call id name args ster) =
      let deeper = find_exprs target args in
      if id == target then some (e_fn_call id name args ster) else deeper
  find target (e_partial id text old) =
      let deeper = find target old in if id == target then some (e_partial id text old) else deeper
  find target (e_right_partial id text old) =
      let deeper = find target old in
      if id == target then some (e_right_partial id text old) else deeper
  find target (e_left_partial id text old) =
      let deeper = find target old in
      if id == target then some (e_left_partial id text old) else deeper
  find target (e_list id exprs) =
      let deeper = find_exprs target exprs in
      if id == target then some (e_list id exprs) else deeper
  find target (e_record id fields) =
      let deeper = find_fields target fields in
      if id == target then some (e_record id fields) else deeper
  find target (e_pipe id exprs) =
      let deeper = find_exprs target exprs in
      if id == target then some (e_pipe id exprs) else deeper
  find target (e_constructor id name args) =
      let deeper = find_exprs target args in
      if id == target then some (e_constructor id name args) else deeper
  find target (e_match id cond cases) =
      let deeper = or_else (find target cond) (find_cases target cases) in
      if id == target then some (e_match id cond cases) else deeper
  find target (e_pipe_target id) = if id == target then some (e_pipe_target id) else none
  find target (e_feature_flag id name cond case_a case_b) =
      let deeper = or_else (or_else (find target cond) (find target case_a)) (find target case_b) in
      if id == target then some (e_feature_flag id name cond case_a case_b) else deeper

  pub find_exprs : ℕ → Exprs → Option Expr
  find_exprs target no_exprs = none
  find_exprs target (expr e es) = or_else (find target e) (find_exprs target es)

  pub find_fields : ℕ → Fields → Option Expr
  find_fields target no_fields = none
  find_fields target (field _ e fs) = or_else (find target e) (find_fields target fs)

  pub find_cases : ℕ → Cases → Option Expr
  find_cases target no_cases = none
  find_cases target (case _ e cs) = or_else (find target e) (find_cases target cs)

find_exprs_lem :
    (target : ℕ) (es : Exprs) → find_exprs target es ≡ find_map (find target) (exprs_of es)
unfolding find
find_exprs_lem target no_exprs = refl
find_exprs_lem target (expr e es) = ap (or_else (find target e)) (find_exprs_lem target es)

find_fields_lem :
    (target : ℕ) (fs : Fields) → find_fields target fs ≡ find_map (find target) (field_exprs fs)
unfolding find
find_fields_lem target no_fields = refl
find_fields_lem target (field _ e fs) = ap (or_else (find target e)) (find_fields_lem target fs)

find_cases_lem :
    (target : ℕ) (cs : Cases) → find_cases target cs ≡ find_map (find target) (case_exprs cs)
unfolding find
find_cases_lem target no_cases = refl
find_cases_lem target (case _ e cs) = ap (or_else (find target e)) (find_cases_lem target cs)

or_else_if :
    (b : Bool) (e : Expr) (x : Option Expr)
    → (if b then some e else x) ≡ or_else (if b then some e else none) x
or_else_if true e x = refl
or_else_if false e x = refl

-- The recursion goes to the children, in their order.
pub find-children :
    (target : ℕ) (e : Expr)
    → find target e ≡ (if to_id e == target then some e else find_map (find target) (children e))
unfolding find children to_id
find-children target (e_integer _ _) = refl
find-children target (e_bool _ _) = refl
find-children target (e_string _ _) = refl
find-children target (e_float _ _ _) = refl
find-children target (e_null _) = refl
find-children target (e_blank _) = refl
find-children target (e_let id lhs rhs body) =
    ap (λ x. if id == target then some (e_let id lhs rhs body) else x)
      (ap (or_else (find target rhs)) (sym (or_else-none (find target body))))
find-children target (e_if id cond then_ else_) =
    ap (λ x. if id == target then some (e_if id cond then_ else_) else x)
      (or_else_assoc (find target cond) (find target then_) (find target else_)
        ∙ ap (λ y. or_else (find target cond) (or_else (find target then_) y))
            (sym (or_else-none (find target else_))))
find-children target (e_bin_op id op left right ster) =
    ap (λ x. if id == target then some (e_bin_op id op left right ster) else x)
      (ap (or_else (find target left)) (sym (or_else-none (find target right))))
find-children target (e_lambda id vars body) =
    ap (λ x. if id == target then some (e_lambda id vars body) else x)
      (sym (or_else-none (find target body)))
find-children target (e_field_access id obj name) =
    ap (λ x. if id == target then some (e_field_access id obj name) else x)
      (sym (or_else-none (find target obj)))
find-children target (e_variable _ _) = refl
find-children target (e_fn_call id name args ster) =
    ap (λ x. if id == target then some (e_fn_call id name args ster) else x)
      (find_exprs_lem target args)
find-children target (e_partial id text old) =
    ap (λ x. if id == target then some (e_partial id text old) else x)
      (sym (or_else-none (find target old)))
find-children target (e_right_partial id text old) =
    ap (λ x. if id == target then some (e_right_partial id text old) else x)
      (sym (or_else-none (find target old)))
find-children target (e_left_partial id text old) =
    ap (λ x. if id == target then some (e_left_partial id text old) else x)
      (sym (or_else-none (find target old)))
find-children target (e_list id exprs) =
    ap (λ x. if id == target then some (e_list id exprs) else x) (find_exprs_lem target exprs)
find-children target (e_record id fields) =
    ap (λ x. if id == target then some (e_record id fields) else x) (find_fields_lem target fields)
find-children target (e_pipe id exprs) =
    ap (λ x. if id == target then some (e_pipe id exprs) else x) (find_exprs_lem target exprs)
find-children target (e_constructor id name args) =
    ap (λ x. if id == target then some (e_constructor id name args) else x)
      (find_exprs_lem target args)
find-children target (e_match id cond cases) =
    ap (λ x. if id == target then some (e_match id cond cases) else x)
      (ap (or_else (find target cond)) (find_cases_lem target cases))
find-children target (e_pipe_target _) = refl
find-children target (e_feature_flag id name cond case_a case_b) =
    ap (λ x. if id == target then some (e_feature_flag id name cond case_a case_b) else x)
      (or_else_assoc (find target cond) (find target case_a) (find target case_b)
        ∙ ap (λ y. or_else (find target cond) (or_else (find target case_a) y))
            (sym (or_else-none (find target case_b))))

-- All the expressions within one, itself first: an expression comes before those within it.
unfoldable pub nodes : Expr → List Expr
unfolding fold_expr flatten
nodes = fold_expr (λ e rs. e ∷ flatten rs)

pub nodes-children : (e : Expr) → nodes e ≡ e ∷ flatten (map nodes (children e))
unfolding nodes
nodes-children e = fold_expr_lem (λ e rs. e ∷ flatten rs) e

-- An expression if it has the id.
abbrev pub if_target : ℕ → Expr → Option Expr
if_target target n = if to_id n == target then some n else none

-- The expression that is found is the first one with the id, among all those within.
pub find-nodes : (target : ℕ) (e : Expr) → find target e ≡ find_map (if_target target) (nodes e)
find-nodes target =
    induct (λ e. find target e ≡ find_map (if_target target) (nodes e))
      (λ e ih.
        let deeper : find_map (find target) (children e)
            ≡ find_map (if_target target) (flatten (map nodes (children e))) =
          find_map_same (find target) (λ c. find_map (if_target target) (nodes c)) (children e) ih
          ∙ sym (find_map-flatten (if_target target) nodes (children e)) in
        find-children target e
        ∙ ap (λ x. if to_id e == target then some e else x) deeper
        ∙ or_else_if (to_id e == target) e
            (find_map (if_target target) (flatten (map nodes (children e))))
        ∙ ap (find_map (if_target target)) (sym (nodes-children e)))
