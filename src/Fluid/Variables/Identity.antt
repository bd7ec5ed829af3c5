-- ===== src/Fluid/Variables/Identity.antt =====
-- The environment in which every name stands for itself.
use dark.Common.{
  ◌≡◌, refl, ap, ◌∙◌, Bool, true, false, List, [], ◌∷◌, Chars, any, same_text, if◌then◌else◌,
}
use dark.Fluid.Pattern.{variable_names}
use dark.Fluid.Expr.{
  Expr, Exprs, Fields, Cases, no_exprs, expr, no_fields, field, no_cases, case, e_integer, e_bool,
  e_string, e_float, e_null, e_blank, e_let, e_if, e_bin_op, e_lambda, e_field_access, e_variable,
  e_fn_call, e_partial, e_right_partial, e_left_partial, e_list, e_record, e_pipe, e_constructor,
  e_match, e_pipe_target, e_feature_flag,
}
use dark.Fluid.Variables.Substituted.{
  Env, bound, names_of, substituted, substituted_exprs, substituted_fields, substituted_cases,
}

abbrev pub same : Env
same x = x

bound-same : (names : List Chars) → bound names same ≡ same
unfolding bound
bound-same names i x = either_way (any (λ name. same_text x name) names) x i
  where
    either_way : (b : Bool) (x : Chars) → (if b then x else x) ≡ x
    either_way true x = refl
    either_way false x = refl

-- Where names stand for themselves, nothing changes.
mutual
  unfolding substituted

  pub substituted-same : (e : Expr) → substituted same e ≡ e
  substituted-same (e_integer _ _) = refl
  substituted-same (e_bool _ _) = refl
  substituted-same (e_string _ _) = refl
  substituted-same (e_float _ _ _) = refl
  substituted-same (e_null _) = refl
  substituted-same (e_blank _) = refl
  substituted-same (e_let id lhs rhs body) = λ i.
      e_let id lhs (substituted-same rhs i)
        ((ap (λ env. substituted env body) (bound-same (lhs ∷ [])) ∙ substituted-same body) i)
  substituted-same (e_if id cond then_ else_) =
      λ i. e_if id (substituted-same cond i) (substituted-same then_ i) (substituted-same else_ i)
  substituted-same (e_bin_op id op left right ster) =
      λ i. e_bin_op id op (substituted-same left i) (substituted-same right i) ster
  substituted-same (e_lambda id vars body) =
      ap (e_lambda id vars)
        (ap (λ env. substituted env body) (bound-same (names_of vars)) ∙ substituted-same body)
  substituted-same (e_field_access id obj name) =
      λ i. e_field_access id (substituted-same obj i) name
  substituted-same (e_variable _ _) = refl
  substituted-same (e_fn_call id name args ster) = λ i. e_fn_call id name (exprs-same args i) ster
  substituted-same (e_partial id text old) = λ i. e_partial id text (substituted-same old i)
  substituted-same (e_right_partial id text old) =
      λ i. e_right_partial id text (substituted-same old i)
  substituted-same (e_left_partial id text old) =
      λ i. e_left_partial id text (substituted-same old i)
  substituted-same (e_list id exprs) = λ i. e_list id (exprs-same exprs i)
  substituted-same (e_record id entries) = λ i. e_record id (fields-same entries i)
  substituted-same (e_pipe id exprs) = λ i. e_pipe id (exprs-same exprs i)
  substituted-same (e_constructor id name args) = λ i. e_constructor id name (exprs-same args i)
  substituted-same (e_match id cond cases) =
      λ i. e_match id (substituted-same cond i) (cases-same cases i)
  substituted-same (e_pipe_target _) = refl
  substituted-same (e_feature_flag id name cond case_a case_b) = λ i.
      e_feature_flag id name (substituted-same cond i) (substituted-same case_a i)
        (substituted-same case_b i)

  exprs-same : (es : Exprs) → substituted_exprs same es ≡ es
  exprs-same no_exprs = refl
  exprs-same (expr e rest) = λ i. expr (substituted-same e i) (exprs-same rest i)

  fields-same : (es : Fields) → substituted_fields same es ≡ es
  fields-same no_fields = refl
  fields-same (field name e rest) = λ i. field name (substituted-same e i) (fields-same rest i)

  cases-same : (cs : Cases) → substituted_cases same cs ≡ cs
  cases-same no_cases = refl
  cases-same (case p e rest) = λ i.
      case p
        ((ap (λ env. substituted env e) (bound-same (variable_names p)) ∙ substituted-same e) i)
        (cases-same rest i)
