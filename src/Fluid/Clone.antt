-- ===== src/Fluid/Clone.antt =====
-- `clone` of libshared/FluidExpression.ml and of libshared/FluidPattern.ml, with the state that
-- `gid` draws the ids from. The arguments of a constructor are evaluated from left to right, as in the
-- code that BuckleScript makes.
pub mod Plain
pub mod Same
pub mod Drawn
use dark.Common.{ℕ, List, [], ◌∷◌, Chars}
use dark.Fluid.Pattern.{
  Pattern, Patterns, no_patterns, pattern_, fp_variable, fp_constructor, fp_integer, fp_bool,
  fp_string, fp_float, fp_null, fp_blank,
}
use dark.Fluid.Expr.{
  Expr, Exprs, Fields, Cases, no_exprs, expr, no_fields, field, no_cases, case, e_integer, e_bool,
  e_string, e_float, e_null, e_blank, e_let, e_if, e_bin_op, e_lambda, e_field_access, e_variable,
  e_fn_call, e_partial, e_right_partial, e_left_partial, e_list, e_record, e_pipe, e_constructor,
  e_match, e_pipe_target, e_feature_flag,
}

unfoldable mutual
  pub clone_pattern : {S : Type 0} → (S → ℕ × S) → ℕ → Pattern → S → Pattern × S
  clone_pattern draw match_id (fp_variable _ _ name) s =
      let (id, s0) = draw s in (fp_variable match_id id name, s0)
  clone_pattern draw match_id (fp_integer _ _ value) s =
      let (id, s0) = draw s in (fp_integer match_id id value, s0)
  clone_pattern draw match_id (fp_bool _ _ value) s =
      let (id, s0) = draw s in (fp_bool match_id id value, s0)
  clone_pattern draw match_id (fp_string _ _ value) s =
      let (id, s0) = draw s in (fp_string match_id id value, s0)
  clone_pattern draw match_id (fp_float _ _ whole fraction) s =
      let (id, s0) = draw s in (fp_float match_id id whole fraction, s0)
  clone_pattern draw match_id (fp_null _ _) s = let (id, s0) = draw s in (fp_null match_id id, s0)
  clone_pattern draw match_id (fp_blank _ _) s = let (id, s0) = draw s in (fp_blank match_id id, s0)
  clone_pattern draw match_id (fp_constructor _ _ name patterns) s =
      let (id, s0) = draw s in
      let (patterns_, s1) = clone_patterns draw match_id patterns s0 in
      (fp_constructor match_id id name patterns_, s1)

  pub clone_patterns : {S : Type 0} → (S → ℕ × S) → ℕ → Patterns → S → Patterns × S
  clone_patterns draw match_id no_patterns s = (no_patterns, s)
  clone_patterns draw match_id (pattern_ p ps) s =
      let (p_, s0) = clone_pattern draw match_id p s in
      let (ps_, s1) = clone_patterns draw match_id ps s0 in (pattern_ p_ ps_, s1)

unfoldable pub clone_vars : {S : Type 0} → (S → ℕ × S) → List (ℕ × Chars) → S → List (ℕ × Chars) × S
clone_vars draw [] s = ([], s)
clone_vars draw ((_, var) ∷ vars) s =
    let (id, s0) = draw s in let (vars_, s1) = clone_vars draw vars s0 in ((id, var) ∷ vars_, s1)

unfoldable mutual
  unfolding clone_pattern clone_vars

  pub clone : {S : Type 0} → (S → ℕ × S) → Expr → S → Expr × S
  clone draw (e_integer _ value) s = let (id, s0) = draw s in (e_integer id value, s0)
  clone draw (e_bool _ value) s = let (id, s0) = draw s in (e_bool id value, s0)
  clone draw (e_string _ value) s = let (id, s0) = draw s in (e_string id value, s0)
  clone draw (e_float _ whole fraction) s = let (id, s0) = draw s in (e_float id whole fraction, s0)
  clone draw (e_null _) s = let (id, s0) = draw s in (e_null id, s0)
  clone draw (e_blank _) s = let (id, s0) = draw s in (e_blank id, s0)
  clone draw (e_let _ lhs rhs body) s =
      let (id, s0) = draw s in
      let (rhs_, s1) = clone draw rhs s0 in
      let (body_, s2) = clone draw body s1 in (e_let id lhs rhs_ body_, s2)
  clone draw (e_if _ cond then_ else_) s =
      let (id, s0) = draw s in
      let (cond_, s1) = clone draw cond s0 in
      let (then__, s2) = clone draw then_ s1 in
      let (else__, s3) = clone draw else_ s2 in (e_if id cond_ then__ else__, s3)
  clone draw (e_bin_op _ op left right ster) s =
      let (id, s0) = draw s in
      let (left_, s1) = clone draw left s0 in
      let (right_, s2) = clone draw right s1 in (e_bin_op id op left_ right_ ster, s2)
  clone draw (e_lambda _ vars body) s =
      let (id, s0) = draw s in
      let (vars_, s1) = clone_vars draw vars s0 in
      let (body_, s2) = clone draw body s1 in (e_lambda id vars_ body_, s2)
  clone draw (e_field_access _ obj name) s =
      let (id, s0) = draw s in
      let (obj_, s1) = clone draw obj s0 in (e_field_access id obj_ name, s1)
  clone draw (e_variable _ name) s = let (id, s0) = draw s in (e_variable id name, s0)
  clone draw (e_fn_call _ name args ster) s =
      let (id, s0) = draw s in
      let (args_, s1) = clone_exprs draw args s0 in (e_fn_call id name args_ ster, s1)
  clone draw (e_partial _ text old) s =
      let (id, s0) = draw s in let (old_, s1) = clone draw old s0 in (e_partial id text old_, s1)
  clone draw (e_right_partial _ text old) s =
      let (id, s0) = draw s in
      let (old_, s1) = clone draw old s0 in (e_right_partial id text old_, s1)
  clone draw (e_left_partial id text old) s =
      let (old_, s1) = clone draw old s in (e_left_partial id text old_, s1)
  clone draw (e_list _ exprs) s =
      let (id, s0) = draw s in
      let (exprs_, s1) = clone_exprs draw exprs s0 in (e_list id exprs_, s1)
  clone draw (e_record _ entries) s =
      let (id, s0) = draw s in
      let (entries_, s1) = clone_fields draw entries s0 in (e_record id entries_, s1)
  clone draw (e_pipe _ exprs) s =
      let (id, s0) = draw s in
      let (exprs_, s1) = clone_exprs draw exprs s0 in (e_pipe id exprs_, s1)
  clone draw (e_constructor _ name args) s =
      let (id, s0) = draw s in
      let (args_, s1) = clone_exprs draw args s0 in (e_constructor id name args_, s1)
  clone draw (e_match _ cond cases) s =
      let (mid, s0) = draw s in
      let (cond_, s1) = clone draw cond s0 in
      let (cases_, s2) = clone_cases draw mid cases s1 in (e_match mid cond_ cases_, s2)
  clone draw (e_pipe_target _) s = let (id, s0) = draw s in (e_pipe_target id, s0)
  clone draw (e_feature_flag _ name cond case_a case_b) s =
      let (id, s0) = draw s in
      let (cond_, s1) = clone draw cond s0 in
      let (case_a_, s2) = clone draw case_a s1 in
      let (case_b_, s3) = clone draw case_b s2 in (e_feature_flag id name cond_ case_a_ case_b_, s3)

  pub clone_exprs : {S : Type 0} → (S → ℕ × S) → Exprs → S → Exprs × S
  clone_exprs draw no_exprs s = (no_exprs, s)
  clone_exprs draw (expr e rest) s =
      let (e_, s0) = clone draw e s in
      let (rest_, s1) = clone_exprs draw rest s0 in (expr e_ rest_, s1)

  pub clone_fields : {S : Type 0} → (S → ℕ × S) → Fields → S → Fields × S
  clone_fields draw no_fields s = (no_fields, s)
  clone_fields draw (field name e rest) s =
      let (e_, s0) = clone draw e s in
      let (rest_, s1) = clone_fields draw rest s0 in (field name e_ rest_, s1)

  pub clone_cases : {S : Type 0} → (S → ℕ × S) → ℕ → Cases → S → Cases × S
  clone_cases draw mid no_cases s = (no_cases, s)
  clone_cases draw mid (case p e rest) s =
      let (p_, s0) = clone_pattern draw mid p s in
      let (e_, s1) = clone draw e s0 in
      let (rest_, s2) = clone_cases draw mid rest s1 in (case p_ e_ rest_, s2)
