-- ===== src/Fluid/Variables/Substituted.antt =====
-- Renaming by an environment, which says what a name stands for: an independent description of
-- `renameVariableUses`.
use dark.Common.{ℕ, List, [], ◌∷◌, Chars, same_text, any, if◌then◌else◌}
use dark.Fluid.Pattern.{variable_names}
use dark.Fluid.Expr.{
  Expr, Exprs, Fields, Cases, no_exprs, expr, no_fields, field, no_cases, case, e_integer, e_bool,
  e_string, e_float, e_null, e_blank, e_let, e_if, e_bin_op, e_lambda, e_field_access, e_variable,
  e_fn_call, e_partial, e_right_partial, e_left_partial, e_list, e_record, e_pipe, e_constructor,
  e_match, e_pipe_target, e_feature_flag,
}

-- What each name stands for where it is free.
abbrev pub Env : Type 0
Env = Chars → Chars

-- A name that is bound stands for itself.
unfoldable pub bound : List Chars → Env → Env
unfolding same_text
bound names env x = if any (λ name. same_text x name) names then x else env x

abbrev pub names_of : List (ℕ × Chars) → List Chars
names_of [] = []
names_of ((_, name) ∷ vars) = name ∷ names_of vars

-- One name stands for another one, and all others for themselves.
unfoldable pub one_name : Chars → Chars → Env
unfolding same_text
one_name old_name new_name x = if same_text x old_name then new_name else x

unfoldable mutual
  unfolding bound variable_names

  pub substituted : Env → Expr → Expr
  substituted env (e_integer id value) = e_integer id value
  substituted env (e_bool id value) = e_bool id value
  substituted env (e_string id value) = e_string id value
  substituted env (e_float id whole fraction) = e_float id whole fraction
  substituted env (e_null id) = e_null id
  substituted env (e_blank id) = e_blank id
  substituted env (e_let id lhs rhs body) =
      e_let id lhs (substituted env rhs) (substituted (bound (lhs ∷ []) env) body)
  substituted env (e_if id cond then_ else_) =
      e_if id (substituted env cond) (substituted env then_) (substituted env else_)
  substituted env (e_bin_op id op left right ster) =
      e_bin_op id op (substituted env left) (substituted env right) ster
  substituted env (e_lambda id vars body) =
      e_lambda id vars (substituted (bound (names_of vars) env) body)
  substituted env (e_field_access id obj name) = e_field_access id (substituted env obj) name
  substituted env (e_variable id name) = e_variable id (env name)
  substituted env (e_fn_call id name args ster) =
      e_fn_call id name (substituted_exprs env args) ster
  substituted env (e_partial id text old) = e_partial id text (substituted env old)
  substituted env (e_right_partial id text old) = e_right_partial id text (substituted env old)
  substituted env (e_left_partial id text old) = e_left_partial id text (substituted env old)
  substituted env (e_list id exprs) = e_list id (substituted_exprs env exprs)
  substituted env (e_record id entries) = e_record id (substituted_fields env entries)
  substituted env (e_pipe id exprs) = e_pipe id (substituted_exprs env exprs)
  substituted env (e_constructor id name args) = e_constructor id name (substituted_exprs env args)
  substituted env (e_match id cond cases) =
      e_match id (substituted env cond) (substituted_cases env cases)
  substituted env (e_pipe_target id) = e_pipe_target id
  substituted env (e_feature_flag id name cond case_a case_b) =
      e_feature_flag id name (substituted env cond) (substituted env case_a)
        (substituted env case_b)

  pub substituted_exprs : Env → Exprs → Exprs
  substituted_exprs env no_exprs = no_exprs
  substituted_exprs env (expr e rest) = expr (substituted env e) (substituted_exprs env rest)

  pub substituted_fields : Env → Fields → Fields
  substituted_fields env no_fields = no_fields
  substituted_fields env (field name e rest) =
      field name (substituted env e) (substituted_fields env rest)

  pub substituted_cases : Env → Cases → Cases
  substituted_cases env no_cases = no_cases
  substituted_cases env (case p e rest) =
      case p (substituted (bound (variable_names p) env) e) (substituted_cases env rest)
