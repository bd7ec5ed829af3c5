-- ===== src/Fluid/Variables/Uses.antt =====
-- The names that an expression uses and does not bind.
use dark.Common.{Bool, false, not, ◌&&◌, ◌||◌, Chars, same_text}
use dark.Fluid.Pattern.{has_variable_named}
use dark.Fluid.Expr.{
  Expr, Exprs, Fields, Cases, no_exprs, expr, no_fields, field, no_cases, case, e_integer, e_bool,
  e_string, e_float, e_null, e_blank, e_let, e_if, e_bin_op, e_lambda, e_field_access, e_variable,
  e_fn_call, e_partial, e_right_partial, e_left_partial, e_list, e_record, e_pipe, e_constructor,
  e_match, e_pipe_target, e_feature_flag,
}
use dark.Fluid.Variables.{binds}

-- Whether the name stands in the expression as a variable that nothing there binds.
unfoldable mutual
  unfolding same_text binds has_variable_named

  pub uses : Chars → Expr → Bool
  uses x (e_integer _ _) = false
  uses x (e_bool _ _) = false
  uses x (e_string _ _) = false
  uses x (e_float _ _ _) = false
  uses x (e_null _) = false
  uses x (e_blank _) = false
  uses x (e_let _ lhs rhs body) = uses x rhs || (not (same_text x lhs) && uses x body)
  uses x (e_if _ cond then_ else_) = uses x cond || (uses x then_ || (uses x else_))
  uses x (e_bin_op _ _ left right _) = uses x left || (uses x right)
  uses x (e_lambda _ vars body) = not (binds x vars) && uses x body
  uses x (e_field_access _ obj _) = uses x obj
  uses x (e_variable _ name) = same_text name x
  uses x (e_fn_call _ _ args _) = uses_exprs x args
  uses x (e_partial _ _ old) = uses x old
  uses x (e_right_partial _ _ old) = uses x old
  uses x (e_left_partial _ _ old) = uses x old
  uses x (e_list _ exprs) = uses_exprs x exprs
  uses x (e_record _ entries) = uses_fields x entries
  uses x (e_pipe _ exprs) = uses_exprs x exprs
  uses x (e_constructor _ _ args) = uses_exprs x args
  uses x (e_match _ cond cases) = uses x cond || (uses_cases x cases)
  uses x (e_pipe_target _) = false
  uses x (e_feature_flag _ _ cond case_a case_b) = uses x cond || (uses x case_a || (uses x case_b))

  pub uses_exprs : Chars → Exprs → Bool
  uses_exprs x no_exprs = false
  uses_exprs x (expr e rest) = uses x e || uses_exprs x rest

  pub uses_fields : Chars → Fields → Bool
  uses_fields x no_fields = false
  uses_fields x (field _ e rest) = uses x e || uses_fields x rest

  pub uses_cases : Chars → Cases → Bool
  uses_cases x no_cases = false
  uses_cases x (case p e rest) = (not (has_variable_named x p) && uses x e) || uses_cases x rest
