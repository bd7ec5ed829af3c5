-- ===== src/Fluid/Variables.antt =====
-- `updateVariableUses`, `renameVariableUses` and `removeVariableUse` of
-- libshared/FluidExpression.ml. A state goes from one call of the function to the next: `gid` draws
-- the ids from it. Arguments are evaluated from left to right.
pub mod Uses
pub mod Unused
pub mod Removed
pub mod Kept
pub mod Rename
pub mod Substituted
pub mod Identity
pub mod Renaming
use dark.Common.{ℕ, Bool, true, false, ◌||◌, List, [], ◌∷◌, Chars, same_text, if◌then◌else◌}
use dark.Fluid.Pattern.{Pattern, has_variable_named}
use dark.Fluid.Expr.{
  Expr, Exprs, Fields, Cases, no_exprs, expr, no_fields, field, no_cases, case, e_integer, e_bool,
  e_string, e_float, e_null, e_blank, e_let, e_if, e_bin_op, e_lambda, e_field_access, e_variable,
  e_fn_call, e_partial, e_right_partial, e_left_partial, e_list, e_record, e_pipe, e_constructor,
  e_match, e_pipe_target, e_feature_flag,
}

-- Whether the name is among those of a lambda.
unfoldable pub binds : Chars → List (ℕ × Chars) → Bool
unfolding same_text
binds name [] = false
binds name ((_, v) ∷ vars) = same_text name v || binds name vars

unfoldable mutual
  unfolding same_text binds has_variable_named

  pub update_variable_uses : {S : Type 0} → Chars → (Expr → S → Expr × S) → Expr → S → Expr × S
  update_variable_uses var f (e_integer id value) s = (e_integer id value, s)
  update_variable_uses var f (e_bool id value) s = (e_bool id value, s)
  update_variable_uses var f (e_string id value) s = (e_string id value, s)
  update_variable_uses var f (e_float id whole fraction) s = (e_float id whole fraction, s)
  update_variable_uses var f (e_null id) s = (e_null id, s)
  update_variable_uses var f (e_blank id) s = (e_blank id, s)
  update_variable_uses var f (e_let id lhs rhs body) s =
      let (rhs_, s0) = update_variable_uses var f rhs s in
      let (body_, s1) = update_variable_uses var f body s0 in
      if same_text var lhs then (e_let id lhs rhs_ body, s0) else (e_let id lhs rhs_ body_, s1)
  update_variable_uses var f (e_if id cond then_ else_) s =
      let (cond_, s0) = update_variable_uses var f cond s in
      let (then__, s1) = update_variable_uses var f then_ s0 in
      let (else__, s2) = update_variable_uses var f else_ s1 in (e_if id cond_ then__ else__, s2)
  update_variable_uses var f (e_bin_op id op left right ster) s =
      let (left_, s0) = update_variable_uses var f left s in
      let (right_, s1) = update_variable_uses var f right s0 in
      (e_bin_op id op left_ right_ ster, s1)
  update_variable_uses var f (e_lambda id vars body) s =
      let (body_, s0) = update_variable_uses var f body s in
      if binds var vars then (e_lambda id vars body, s) else (e_lambda id vars body_, s0)
  update_variable_uses var f (e_field_access id obj name) s =
      let (obj_, s0) = update_variable_uses var f obj s in (e_field_access id obj_ name, s0)
  update_variable_uses var f (e_variable id name) s =
      if same_text name var then f (e_variable id name) s else (e_variable id name, s)
  update_variable_uses var f (e_fn_call id name args ster) s =
      let (args_, s0) = update_variable_uses_exprs var f args s in
      (e_fn_call id name args_ ster, s0)
  update_variable_uses var f (e_partial id text old) s =
      let (old_, s0) = update_variable_uses var f old s in (e_partial id text old_, s0)
  update_variable_uses var f (e_right_partial id text old) s =
      let (old_, s0) = update_variable_uses var f old s in (e_right_partial id text old_, s0)
  update_variable_uses var f (e_left_partial id text old) s =
      let (old_, s0) = update_variable_uses var f old s in (e_left_partial id text old_, s0)
  update_variable_uses var f (e_list id exprs) s =
      let (exprs_, s0) = update_variable_uses_exprs var f exprs s in (e_list id exprs_, s0)
  update_variable_uses var f (e_record id entries) s =
      let (entries_, s0) = update_variable_uses_fields var f entries s in (e_record id entries_, s0)
  update_variable_uses var f (e_pipe id exprs) s =
      let (exprs_, s0) = update_variable_uses_exprs var f exprs s in (e_pipe id exprs_, s0)
  update_variable_uses var f (e_constructor id name args) s =
      let (args_, s0) = update_variable_uses_exprs var f args s in (e_constructor id name args_, s0)
  update_variable_uses var f (e_match id cond cases) s =
      let (cases_, s0) = update_variable_uses_cases var f cases s in
      let (cond_, s1) = update_variable_uses var f cond s0 in (e_match id cond_ cases_, s1)
  update_variable_uses var f (e_pipe_target id) s = (e_pipe_target id, s)
  update_variable_uses var f (e_feature_flag id name cond case_a case_b) s =
      let (cond_, s0) = update_variable_uses var f cond s in
      let (case_a_, s1) = update_variable_uses var f case_a s0 in
      let (case_b_, s2) = update_variable_uses var f case_b s1 in
      (e_feature_flag id name cond_ case_a_ case_b_, s2)

  pub update_variable_uses_exprs :
      {S : Type 0} → Chars → (Expr → S → Expr × S) → Exprs → S → Exprs × S
  update_variable_uses_exprs var f no_exprs s = (no_exprs, s)
  update_variable_uses_exprs var f (expr e rest) s =
      let (e_, s0) = update_variable_uses var f e s in
      let (rest_, s1) = update_variable_uses_exprs var f rest s0 in (expr e_ rest_, s1)

  pub update_variable_uses_fields :
      {S : Type 0} → Chars → (Expr → S → Expr × S) → Fields → S → Fields × S
  update_variable_uses_fields var f no_fields s = (no_fields, s)
  update_variable_uses_fields var f (field name e rest) s =
      let (e_, s0) = update_variable_uses var f e s in
      let (rest_, s1) = update_variable_uses_fields var f rest s0 in (field name e_ rest_, s1)

  pub update_variable_uses_cases :
      {S : Type 0} → Chars → (Expr → S → Expr × S) → Cases → S → Cases × S
  update_variable_uses_cases var f no_cases s = (no_cases, s)
  update_variable_uses_cases var f (case p e rest) s =
      let walked = update_variable_uses var f e s in
      let (e_, s0) = (if has_variable_named var p then (e, s) else walked) in
      let (rest_, s1) = update_variable_uses_cases var f rest s0 in (case p e_ rest_, s1)

-- `f` of `renameVariableUses`, which keeps no state.
unfoldable pub renamed : Chars → Expr → Unit {0} → Expr × Unit {0}
renamed new_name (e_variable id _) s = (e_variable id new_name, s)
renamed new_name e s = (e, s)

unfoldable pub rename_variable_uses : Chars → Chars → Expr → Expr
unfolding update_variable_uses renamed
rename_variable_uses old_name new_name ast =
    (update_variable_uses old_name (renamed new_name) ast tt).0

-- `draw` is `gid`.
unfoldable pub remove_variable_use : {S : Type 0} → (S → ℕ × S) → Chars → Expr → S → Expr × S
unfolding update_variable_uses
remove_variable_use draw old_var_name ast s =
    update_variable_uses old_var_name (λ _ s0. let (id, s1) = draw s0 in (e_blank id, s1)) ast s
