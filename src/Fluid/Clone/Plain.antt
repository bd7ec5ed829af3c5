-- ===== src/Fluid/Clone/Plain.antt =====
-- Patterns and expressions without their ids: each is zero.
use dark.Common.{ℕ, List, [], ◌∷◌, Chars}
use dark.Fluid.Pattern.{
  Pattern, Patterns, no_patterns, pattern_, fp_variable, fp_constructor, fp_integer, fp_bool,
  fp_string, fp_float, fp_null, fp_blank,
}
use dark.Fluid.Expr.{
  Expr, Exprs, Fields, Cases, no_exprs, expr, no_fields, field, no_cases, case, e_integer, e_bool,
  e_string, e_float, e_null, e_blank, e_let, e_if, e_bin_op, e_lambda, e_field_access, e_variable,
  e_fn_call, e_partial, e_right_partial, e_left_partial, e_list, e_record, e_pipe, e_constructor,
  e_match, e_pipe_target, e_feature_flag,
}

unfoldable mutual
  pub plain_pattern : Pattern → Pattern
  plain_pattern (fp_variable _ _ name) = fp_variable 0 0 name
  plain_pattern (fp_integer _ _ value) = fp_integer 0 0 value
  plain_pattern (fp_bool _ _ value) = fp_bool 0 0 value
  plain_pattern (fp_string _ _ value) = fp_string 0 0 value
  plain_pattern (fp_float _ _ whole fraction) = fp_float 0 0 whole fraction
  plain_pattern (fp_null _ _) = fp_null 0 0
  plain_pattern (fp_blank _ _) = fp_blank 0 0
  plain_pattern (fp_constructor _ _ name patterns) =
      fp_constructor 0 0 name (plain_patterns patterns)

  pub plain_patterns : Patterns → Patterns
  plain_patterns no_patterns = no_patterns
  plain_patterns (pattern_ p ps) = pattern_ (plain_pattern p) (plain_patterns ps)

unfoldable pub plain_vars : List (ℕ × Chars) → List (ℕ × Chars)
plain_vars [] = []
plain_vars ((_, var) ∷ vars) = (0, var) ∷ plain_vars vars

unfoldable mutual
  unfolding plain_pattern plain_vars

  pub plain : Expr → Expr
  plain (e_integer _ value) = e_integer 0 value
  plain (e_bool _ value) = e_bool 0 value
  plain (e_string _ value) = e_string 0 value
  plain (e_float _ whole fraction) = e_float 0 whole fraction
  plain (e_null _) = e_null 0
  plain (e_blank _) = e_blank 0
  plain (e_let _ lhs rhs body) = e_let 0 lhs (plain rhs) (plain body)
  plain (e_if _ cond then_ else_) = e_if 0 (plain cond) (plain then_) (plain else_)
  plain (e_bin_op _ op left right ster) = e_bin_op 0 op (plain left) (plain right) ster
  plain (e_lambda _ vars body) = e_lambda 0 (plain_vars vars) (plain body)
  plain (e_field_access _ obj name) = e_field_access 0 (plain obj) name
  plain (e_variable _ name) = e_variable 0 name
  plain (e_fn_call _ name args ster) = e_fn_call 0 name (plain_exprs args) ster
  plain (e_partial _ text old) = e_partial 0 text (plain old)
  plain (e_right_partial _ text old) = e_right_partial 0 text (plain old)
  plain (e_left_partial _ text old) = e_left_partial 0 text (plain old)
  plain (e_list _ exprs) = e_list 0 (plain_exprs exprs)
  plain (e_record _ entries) = e_record 0 (plain_fields entries)
  plain (e_pipe _ exprs) = e_pipe 0 (plain_exprs exprs)
  plain (e_constructor _ name args) = e_constructor 0 name (plain_exprs args)
  plain (e_match _ cond cases) = e_match 0 (plain cond) (plain_cases cases)
  plain (e_pipe_target _) = e_pipe_target 0
  plain (e_feature_flag _ name cond case_a case_b) =
      e_feature_flag 0 name (plain cond) (plain case_a) (plain case_b)

  pub plain_exprs : Exprs → Exprs
  plain_exprs no_exprs = no_exprs
  plain_exprs (expr e rest) = expr (plain e) (plain_exprs rest)

  pub plain_fields : Fields → Fields
  plain_fields no_fields = no_fields
  plain_fields (field name e rest) = field name (plain e) (plain_fields rest)

  pub plain_cases : Cases → Cases
  plain_cases no_cases = no_cases
  plain_cases (case p e rest) = case (plain_pattern p) (plain e) (plain_cases rest)
