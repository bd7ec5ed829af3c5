-- ===== src/Fluid/Traverse.antt =====
-- `preTraversal` and `postTraversal` of libshared/FluidExpression.ml. The first need not end, since it
-- goes on into what the function returns: it runs on fuel.
pub mod Steps
pub mod Ends
use dark.Common.{ℕ, zero, suc, Option, none, some, List, [], ◌∷◌, Chars}
use dark.Fluid.Expr.{
  Expr, Exprs, Fields, Cases, no_exprs, expr, no_fields, field, no_cases, case, e_integer, e_bool,
  e_string, e_float, e_null, e_blank, e_let, e_if, e_bin_op, e_lambda, e_field_access, e_variable,
  e_fn_call, e_partial, e_right_partial, e_left_partial, e_list, e_record, e_pipe, e_constructor,
  e_match, e_pipe_target, e_feature_flag,
}
use dark.Fluid.Schemes.{walk_with}

infixl 5 ◌>>=◌
abbrev pub ◌>>=◌ {ℓ κ} : {A : Type ℓ} {B : Type κ} → Option A → (A → Option B) → Option B
none >>= f = none
some a >>= f = f a

abbrev pub try_exprs : (Expr → Option Expr) → Exprs → Option Exprs
try_exprs r no_exprs = some no_exprs
try_exprs r (expr e rest) = do e_ ← r e; rest_ ← try_exprs r rest; some (expr e_ rest_)

abbrev pub try_fields : (Expr → Option Expr) → Fields → Option Fields
try_fields r no_fields = some no_fields
try_fields r (field name e rest) = do
  e_ ← r e
  rest_ ← try_fields r rest
  some (field name e_ rest_)

abbrev pub try_cases : (Expr → Option Expr) → Cases → Option Cases
try_cases r no_cases = some no_cases
try_cases r (case p e rest) = do e_ ← r e; rest_ ← try_cases r rest; some (case p e_ rest_)

-- The `match` of `preTraversal`: the children are replaced by what the calls on them return.
unfoldable pub recurse : (Expr → Option Expr) → Expr → Option Expr
recurse r (e_integer id value) = some (e_integer id value)
recurse r (e_bool id value) = some (e_bool id value)
recurse r (e_string id value) = some (e_string id value)
recurse r (e_float id whole fraction) = some (e_float id whole fraction)
recurse r (e_null id) = some (e_null id)
recurse r (e_blank id) = some (e_blank id)
recurse r (e_let id lhs rhs body) = do rhs_ ← r rhs; body_ ← r body; some (e_let id lhs rhs_ body_)
recurse r (e_if id cond then_ else_) = do
  cond_ ← r cond
  then__ ← r then_
  else__ ← r else_
  some (e_if id cond_ then__ else__)
recurse r (e_bin_op id op left right ster) = do
  left_ ← r left
  right_ ← r right
  some (e_bin_op id op left_ right_ ster)
recurse r (e_lambda id vars body) = do body_ ← r body; some (e_lambda id vars body_)
recurse r (e_field_access id obj name) = do obj_ ← r obj; some (e_field_access id obj_ name)
recurse r (e_variable id name) = some (e_variable id name)
recurse r (e_fn_call id name args ster) = do
  args_ ← try_exprs r args
  some (e_fn_call id name args_ ster)
recurse r (e_partial id text old) = do old_ ← r old; some (e_partial id text old_)
recurse r (e_right_partial id text old) = do old_ ← r old; some (e_right_partial id text old_)
recurse r (e_left_partial id text old) = do old_ ← r old; some (e_left_partial id text old_)
recurse r (e_list id exprs) = do exprs_ ← try_exprs r exprs; some (e_list id exprs_)
recurse r (e_record id entries) = do entries_ ← try_fields r entries; some (e_record id entries_)
recurse r (e_pipe id exprs) = do exprs_ ← try_exprs r exprs; some (e_pipe id exprs_)
recurse r (e_constructor id name args) = do
  args_ ← try_exprs r args
  some (e_constructor id name args_)
recurse r (e_match id cond cases) = do
  cond_ ← r cond
  cases_ ← try_cases r cases
  some (e_match id cond_ cases_)
recurse r (e_pipe_target id) = some (e_pipe_target id)
recurse r (e_feature_flag id name cond case_a case_b) = do
  cond_ ← r cond
  case_a_ ← r case_a
  case_b_ ← r case_b
  some (e_feature_flag id name cond_ case_a_ case_b_)

unfoldable pub pre_traversal : (Expr → Expr) → ℕ → Expr → Option Expr
unfolding recurse
pre_traversal f zero e = none
pre_traversal f (suc fuel) e = recurse (pre_traversal f fuel) (f e)

unfoldable pub post_traversal : (Expr → Expr) → Expr → Expr
unfolding walk_with
post_traversal f = walk_with (λ _ result. f result)
