-- ===== src/Fluid/Clone/Same.antt =====
-- A clone differs from its expression in ids only.
use dark.Common.{ℕ, ◌≡◌, refl, ap, List, [], ◌∷◌, Chars}
use dark.Fluid.Pattern.{
  Pattern, Patterns, no_patterns, pattern_, fp_variable, fp_constructor, fp_integer, fp_bool,
  fp_string, fp_float, fp_null, fp_blank,
}
use dark.Fluid.Expr.{
  Expr, Exprs, Fields, Cases, no_exprs, expr, no_fields, field, no_cases, case, e_integer, e_bool,
  e_string, e_float, e_null, e_blank, e_let, e_if, e_bin_op, e_lambda, e_field_access, e_variable,
  e_fn_call, e_partial, e_right_partial, e_left_partial, e_list, e_record, e_pipe, e_constructor,
  e_match, e_pipe_target, e_feature_flag,
}
use dark.Fluid.Clone.{
  clone_pattern, clone_patterns, clone_vars, clone, clone_exprs, clone_fields, clone_cases,
}
use dark.Fluid.Clone.Plain.{
  plain_pattern, plain_patterns, plain_vars, plain, plain_exprs, plain_fields, plain_cases,
}

module _ {S : Type 0} (draw : S → ℕ × S) where
  mutual
    unfolding clone_pattern plain_pattern

    plain_clone_pattern :
        (mid : ℕ) (p : Pattern) (s : S)
        → plain_pattern (clone_pattern draw mid p s).0 ≡ plain_pattern p
    plain_clone_pattern mid (fp_variable _ _ _) s = refl
    plain_clone_pattern mid (fp_integer _ _ _) s = refl
    plain_clone_pattern mid (fp_bool _ _ _) s = refl
    plain_clone_pattern mid (fp_string _ _ _) s = refl
    plain_clone_pattern mid (fp_float _ _ _ _) s = refl
    plain_clone_pattern mid (fp_null _ _) s = refl
    plain_clone_pattern mid (fp_blank _ _) s = refl
    plain_clone_pattern mid (fp_constructor _ _ name patterns) s =
        let (_, s0) = draw s in ap (fp_constructor 0 0 name) (plain_clone_patterns mid patterns s0)

    plain_clone_patterns :
        (mid : ℕ) (ps : Patterns) (s : S)
        → plain_patterns (clone_patterns draw mid ps s).0 ≡ plain_patterns ps
    plain_clone_patterns mid no_patterns s = refl
    plain_clone_patterns mid (pattern_ p ps) s =
        let (_, s0) = clone_pattern draw mid p s in
        λ i. pattern_ (plain_clone_pattern mid p s i) (plain_clone_patterns mid ps s0 i)

  plain_clone_vars :
      (vars : List (ℕ × Chars)) (s : S) → plain_vars (clone_vars draw vars s).0 ≡ plain_vars vars
  unfolding clone_vars plain_vars
  plain_clone_vars [] s = refl
  plain_clone_vars ((_, var) ∷ vars) s =
      let (_, s0) = draw s in ap (◌∷◌ (0, var)) (plain_clone_vars vars s0)

  mutual
    unfolding clone plain

    unchanged : (e : Expr) (s : S) → plain (clone draw e s).0 ≡ plain e
    unchanged (e_integer _ _) s = refl
    unchanged (e_bool _ _) s = refl
    unchanged (e_string _ _) s = refl
    unchanged (e_float _ _ _) s = refl
    unchanged (e_null _) s = refl
    unchanged (e_blank _) s = refl
    unchanged (e_let _ lhs rhs body) s =
        let (_, s0) = draw s in
        let (_, s1) = clone draw rhs s0 in
        λ i. e_let 0 lhs (unchanged rhs s0 i) (unchanged body s1 i)
    unchanged (e_if _ cond then_ else_) s =
        let (_, s0) = draw s in
        let (_, s1) = clone draw cond s0 in
        let (_, s2) = clone draw then_ s1 in
        λ i. e_if 0 (unchanged cond s0 i) (unchanged then_ s1 i) (unchanged else_ s2 i)
    unchanged (e_bin_op _ op left right ster) s =
        let (_, s0) = draw s in
        let (_, s1) = clone draw left s0 in
        λ i. e_bin_op 0 op (unchanged left s0 i) (unchanged right s1 i) ster
    unchanged (e_lambda _ vars body) s =
        let (_, s0) = draw s in
        let (_, s1) = clone_vars draw vars s0 in
        λ i. e_lambda 0 (plain_clone_vars vars s0 i) (unchanged body s1 i)
    unchanged (e_field_access _ obj name) s =
        let (_, s0) = draw s in λ i. e_field_access 0 (unchanged obj s0 i) name
    unchanged (e_variable _ _) s = refl
    unchanged (e_fn_call _ name args ster) s =
        let (_, s0) = draw s in λ i. e_fn_call 0 name (plain_clone_exprs args s0 i) ster
    unchanged (e_partial _ text old) s =
        let (_, s0) = draw s in λ i. e_partial 0 text (unchanged old s0 i)
    unchanged (e_right_partial _ text old) s =
        let (_, s0) = draw s in λ i. e_right_partial 0 text (unchanged old s0 i)
    unchanged (e_left_partial _ text old) s = λ i. e_left_partial 0 text (unchanged old s i)
    unchanged (e_list _ exprs) s =
        let (_, s0) = draw s in λ i. e_list 0 (plain_clone_exprs exprs s0 i)
    unchanged (e_record _ entries) s =
        let (_, s0) = draw s in λ i. e_record 0 (plain_clone_fields entries s0 i)
    unchanged (e_pipe _ exprs) s =
        let (_, s0) = draw s in λ i. e_pipe 0 (plain_clone_exprs exprs s0 i)
    unchanged (e_constructor _ name args) s =
        let (_, s0) = draw s in λ i. e_constructor 0 name (plain_clone_exprs args s0 i)
    unchanged (e_match _ cond cases) s =
        let (mid, s0) = draw s in
        let (_, s1) = clone draw cond s0 in
        λ i. e_match 0 (unchanged cond s0 i) (plain_clone_cases mid cases s1 i)
    unchanged (e_pipe_target _) s = refl
    unchanged (e_feature_flag _ name cond case_a case_b) s =
        let (_, s0) = draw s in
        let (_, s1) = clone draw cond s0 in
        let (_, s2) = clone draw case_a s1 in
        λ i.
          e_feature_flag 0 name (unchanged cond s0 i) (unchanged case_a s1 i)
            (unchanged case_b s2 i)

    plain_clone_exprs :
        (es : Exprs) (s : S) → plain_exprs (clone_exprs draw es s).0 ≡ plain_exprs es
    plain_clone_exprs no_exprs s = refl
    plain_clone_exprs (expr e rest) s =
        let (_, s0) = clone draw e s in λ i. expr (unchanged e s i) (plain_clone_exprs rest s0 i)

    plain_clone_fields :
        (es : Fields) (s : S) → plain_fields (clone_fields draw es s).0 ≡ plain_fields es
    plain_clone_fields no_fields s = refl
    plain_clone_fields (field name e rest) s =
        let (_, s0) = clone draw e s in
        λ i. field name (unchanged e s i) (plain_clone_fields rest s0 i)

    plain_clone_cases :
        (mid : ℕ) (cs : Cases) (s : S) → plain_cases (clone_cases draw mid cs s).0 ≡ plain_cases cs
    plain_clone_cases mid no_cases s = refl
    plain_clone_cases mid (case p e rest) s =
        let (_, s0) = clone_pattern draw mid p s in
        let (_, s1) = clone draw e s0 in
        λ i.
          case (plain_clone_pattern mid p s i) (unchanged e s0 i) (plain_clone_cases mid rest s1 i)

  -- Without its ids, a clone is the expression without its ids, whatever ids are drawn.
  pub plain-clone : (e : Expr) (s : S) → plain (clone draw e s).0 ≡ plain e
  plain-clone e s = unchanged e s
