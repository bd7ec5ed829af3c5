-- ===== src/Fluid/Induct.antt =====
-- Induction on expressions.
use dark.Common.{All}
use dark.Fluid.Expr.{
  Expr, Exprs, Fields, Cases, no_exprs, expr, no_fields, field, no_cases, case, exprs_of,
  field_exprs, case_exprs, children, e_integer, e_bool, e_string, e_float, e_null, e_blank, e_let,
  e_if, e_bin_op, e_lambda, e_field_access, e_variable, e_fn_call, e_partial, e_right_partial,
  e_left_partial, e_list, e_record, e_pipe, e_constructor, e_match, e_pipe_target, e_feature_flag,
}

-- Induction: what holds of an expression if it holds of its children holds of all.
unfoldable mutual
  unfolding children

  pub induct {ℓ} : (P : Expr → Type ℓ) → ((e : Expr) → All P (children e) → P e) → (e : Expr) → P e
  induct P step (e_integer id value) = step (e_integer id value) tt
  induct P step (e_bool id value) = step (e_bool id value) tt
  induct P step (e_string id value) = step (e_string id value) tt
  induct P step (e_float id whole fraction) = step (e_float id whole fraction) tt
  induct P step (e_null id) = step (e_null id) tt
  induct P step (e_blank id) = step (e_blank id) tt
  induct P step (e_let id lhs rhs body) =
      step (e_let id lhs rhs body) (induct P step rhs, (induct P step body, tt))
  induct P step (e_if id cond then_ else_) =
      step (e_if id cond then_ else_)
        (induct P step cond, (induct P step then_, (induct P step else_, tt)))
  induct P step (e_bin_op id op left right ster) =
      step (e_bin_op id op left right ster) (induct P step left, (induct P step right, tt))
  induct P step (e_lambda id vars body) = step (e_lambda id vars body) (induct P step body, tt)
  induct P step (e_field_access id obj name) =
      step (e_field_access id obj name) (induct P step obj, tt)
  induct P step (e_variable id name) = step (e_variable id name) tt
  induct P step (e_fn_call id name args ster) =
      step (e_fn_call id name args ster) (induct_exprs P step args)
  induct P step (e_partial id text old) = step (e_partial id text old) (induct P step old, tt)
  induct P step (e_right_partial id text old) =
      step (e_right_partial id text old) (induct P step old, tt)
  induct P step (e_left_partial id text old) =
      step (e_left_partial id text old) (induct P step old, tt)
  induct P step (e_list id exprs) = step (e_list id exprs) (induct_exprs P step exprs)
  induct P step (e_record id fields) = step (e_record id fields) (induct_fields P step fields)
  induct P step (e_pipe id exprs) = step (e_pipe id exprs) (induct_exprs P step exprs)
  induct P step (e_constructor id name args) =
      step (e_constructor id name args) (induct_exprs P step args)
  induct P step (e_match id cond cases) =
      step (e_match id cond cases) (induct P step cond, induct_cases P step cases)
  induct P step (e_pipe_target id) = step (e_pipe_target id) tt
  induct P step (e_feature_flag id name cond case_a case_b) =
      step (e_feature_flag id name cond case_a case_b)
        (induct P step cond, (induct P step case_a, (induct P step case_b, tt)))

  pub induct_exprs {ℓ} :
      (P : Expr → Type ℓ)
      → ((e : Expr) → All P (children e) → P e)
      → (es : Exprs) → All P (exprs_of es)
  induct_exprs P step no_exprs = tt
  induct_exprs P step (expr e es) = (induct P step e, induct_exprs P step es)

  pub induct_fields {ℓ} :
      (P : Expr → Type ℓ)
      → ((e : Expr) → All P (children e) → P e)
      → (fs : Fields) → All P (field_exprs fs)
  induct_fields P step no_fields = tt
  induct_fields P step (field name e fs) = (induct P step e, induct_fields P step fs)

  pub induct_cases {ℓ} :
      (P : Expr → Type ℓ)
      → ((e : Expr) → All P (children e) → P e)
      → (cs : Cases) → All P (case_exprs cs)
  induct_cases P step no_cases = tt
  induct_cases P step (case p e cs) = (induct P step e, induct_cases P step cs)
