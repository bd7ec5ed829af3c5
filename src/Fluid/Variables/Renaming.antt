-- ===== src/Fluid/Variables/Renaming.antt =====
-- `renameVariableUses` is the renaming by an environment.
use dark.Common.{
  ℕ, ◌≡◌, refl, sym, ap, ◌∙◌, subst, Bool, true, false, ◌||◌, List, [], ◌∷◌, Chars, any, same_text,
  same_text_iff, if◌then◌else◌, Bool-cases, inl, inr,
}
use dark.Fluid.Pattern.{has_variable_named, variable_names}
use dark.Fluid.Expr.{
  Expr, Exprs, Fields, Cases, no_exprs, expr, no_fields, field, no_cases, case, e_integer, e_bool,
  e_string, e_float, e_null, e_blank, e_let, e_if, e_bin_op, e_lambda, e_field_access, e_variable,
  e_fn_call, e_partial, e_right_partial, e_left_partial, e_list, e_record, e_pipe, e_constructor,
  e_match, e_pipe_target, e_feature_flag,
}
use dark.Fluid.Variables.{
  update_variable_uses, update_variable_uses_exprs, update_variable_uses_fields,
  update_variable_uses_cases, binds, renamed, rename_variable_uses,
}
use dark.Fluid.Variables.Substituted.{
  Env, bound, names_of, one_name, substituted, substituted_exprs, substituted_fields,
  substituted_cases,
}
use dark.Fluid.Variables.Removed.{if_either}
use dark.Fluid.Variables.Identity.{substituted-same}

module _ (old_name new_name : Chars) where
  abbrev env : Env
  env = one_name old_name new_name

  two_ways : (b c : Bool) (x : Chars) → (if b then x else x) ≡ (if c then x else x)
  two_ways true true x = refl
  two_ways true false x = refl
  two_ways false true x = refl
  two_ways false false x = refl

  bound_at :
      (names : List Chars) (x : Chars)
      → bound names env x ≡ (if any (λ name. same_text old_name name) names then x else env x)
  unfolding bound one_name
  bound_at names x = elim (Bool-cases (same_text x old_name)) [
    | inl h ↦
        subst
          (λ y.
            bound names env y ≡ (if any (λ name. same_text old_name name) names then y else env y))
          (sym ((same_text_iff x old_name).0 h)) refl
    | inr h ↦ rw h (
        two_ways (any (λ name. same_text x name) names)
          (any (λ name. same_text old_name name) names) x)
  ]

  bound-one_name :
      (names : List Chars) (b : Bool)
      → any (λ name. same_text old_name name) names ≡ b
      → (x : Chars) → bound names env x ≡ (if b then x else env x)
  bound-one_name names b h x = bound_at names x ∙ ap (λ c. if c then x else env x) h

  -- Below a binder of the name nothing changes; below other binders the name is what it was.
  below_binder :
      (names : List Chars) (e : Expr)
      → any (λ name. same_text old_name name) names ≡ true
      → e ≡ substituted (bound names env) e
  below_binder names e h =
      sym (substituted-same e)
      ∙ ap (λ env_. substituted env_ e) (λ i x. sym (bound-one_name names true h x) i)

  below_other :
      (names : List Chars) (e : Expr)
      → any (λ name. same_text old_name name) names ≡ false
      → substituted env e ≡ substituted (bound names env) e
  below_other names e h =
      ap (λ env_. substituted env_ e) (λ i x. sym (bound-one_name names false h x) i)

  or_nothing : (a b : Bool) → a ≡ b → (a || false) ≡ b
  or_nothing true b h = h
  or_nothing false b h = h

  any-names_of :
      (vars : List (ℕ × Chars))
      → any (λ name. same_text old_name name) (names_of vars) ≡ binds old_name vars
  unfolding binds
  any-names_of [] = refl
  any-names_of ((_, v) ∷ vars) = ap (λ b. same_text old_name v || b) (any-names_of vars)

  mutual
    unfolding update_variable_uses renamed substituted has_variable_named one_name

    renamed_expr :
        (e : Expr) (s : Unit {0})
        → (update_variable_uses old_name (renamed new_name) e s).0 ≡ substituted env e
    renamed_expr (e_integer _ _) s = refl
    renamed_expr (e_bool _ _) s = refl
    renamed_expr (e_string _ _) s = refl
    renamed_expr (e_float _ _ _) s = refl
    renamed_expr (e_null _) s = refl
    renamed_expr (e_blank _) s = refl
    renamed_expr (e_let id lhs rhs body) s =
        let (rhs_, s0) = update_variable_uses old_name (renamed new_name) rhs s in
        let (body_, s1) = update_variable_uses old_name (renamed new_name) body s0 in
        if_either (λ (r : Expr × Unit {0}). r.0 ≡ substituted env (e_let id lhs rhs body))
          (same_text old_name lhs) (e_let id lhs rhs_ body, s0) (e_let id lhs rhs_ body_, s1)
          (λ h i.
            e_let id lhs (renamed_expr rhs s i)
              (below_binder (lhs ∷ []) body (or_nothing (same_text old_name lhs) true h) i))
          (λ h i. e_let id lhs (renamed_expr rhs s i) (
            (renamed_expr body s0
                ∙ below_other (lhs ∷ []) body (or_nothing (same_text old_name lhs) false h))
              i))
    renamed_expr (e_if id cond then_ else_) s =
        let (_, s0) = update_variable_uses old_name (renamed new_name) cond s in
        let (_, s1) = update_variable_uses old_name (renamed new_name) then_ s0 in
        λ i. e_if id (renamed_expr cond s i) (renamed_expr then_ s0 i) (renamed_expr else_ s1 i)
    renamed_expr (e_bin_op id op left right ster) s =
        let (_, s0) = update_variable_uses old_name (renamed new_name) left s in
        λ i. e_bin_op id op (renamed_expr left s i) (renamed_expr right s0 i) ster
    renamed_expr (e_lambda id vars body) s =
        let (body_, s0) = update_variable_uses old_name (renamed new_name) body s in
        if_either (λ (r : Expr × Unit {0}). r.0 ≡ substituted env (e_lambda id vars body))
          (binds old_name vars) (e_lambda id vars body, s) (e_lambda id vars body_, s0)
          (λ h. ap (e_lambda id vars) (below_binder (names_of vars) body (any-names_of vars ∙ h)))
          (λ h.
            ap (e_lambda id vars)
              (renamed_expr body s ∙ below_other (names_of vars) body (any-names_of vars ∙ h)))
    renamed_expr (e_field_access id obj name) s = λ i. e_field_access id (renamed_expr obj s i) name
    renamed_expr (e_variable id name) s =
        if_either
          (λ (r : Expr × Unit {0}).
            r.0 ≡ e_variable id (if same_text name old_name then new_name else name))
          (same_text name old_name) (e_variable id new_name, s) (e_variable id name, s)
          (λ h. ap (λ b. e_variable id (if b then new_name else name)) (sym h))
          (λ h. ap (λ b. e_variable id (if b then new_name else name)) (sym h))
    renamed_expr (e_fn_call id name args ster) s =
        λ i. e_fn_call id name (renamed_exprs args s i) ster
    renamed_expr (e_partial id text old) s = λ i. e_partial id text (renamed_expr old s i)
    renamed_expr (e_right_partial id text old) s =
        λ i. e_right_partial id text (renamed_expr old s i)
    renamed_expr (e_left_partial id text old) s = λ i. e_left_partial id text (renamed_expr old s i)
    renamed_expr (e_list id exprs) s = λ i. e_list id (renamed_exprs exprs s i)
    renamed_expr (e_record id entries) s = λ i. e_record id (renamed_fields entries s i)
    renamed_expr (e_pipe id exprs) s = λ i. e_pipe id (renamed_exprs exprs s i)
    renamed_expr (e_constructor id name args) s =
        λ i. e_constructor id name (renamed_exprs args s i)
    renamed_expr (e_match id cond cases) s =
        let (_, s0) = update_variable_uses_cases old_name (renamed new_name) cases s in
        λ i. e_match id (renamed_expr cond s0 i) (renamed_cases cases s i)
    renamed_expr (e_pipe_target _) s = refl
    renamed_expr (e_feature_flag id name cond case_a case_b) s =
        let (_, s0) = update_variable_uses old_name (renamed new_name) cond s in
        let (_, s1) = update_variable_uses old_name (renamed new_name) case_a s0 in
        λ i.
          e_feature_flag id name (renamed_expr cond s i) (renamed_expr case_a s0 i)
            (renamed_expr case_b s1 i)

    renamed_exprs :
        (es : Exprs) (s : Unit {0})
        → (update_variable_uses_exprs old_name (renamed new_name) es s).0 ≡ substituted_exprs env es
    renamed_exprs no_exprs s = refl
    renamed_exprs (expr e rest) s =
        let (_, s0) = update_variable_uses old_name (renamed new_name) e s in
        λ i. expr (renamed_expr e s i) (renamed_exprs rest s0 i)

    renamed_fields :
        (es : Fields) (s : Unit {0})
        → (update_variable_uses_fields old_name (renamed new_name) es s).0
          ≡ substituted_fields env es
    renamed_fields no_fields s = refl
    renamed_fields (field name e rest) s =
        let (_, s0) = update_variable_uses old_name (renamed new_name) e s in
        λ i. field name (renamed_expr e s i) (renamed_fields rest s0 i)

    renamed_cases :
        (cs : Cases) (s : Unit {0})
        → (update_variable_uses_cases old_name (renamed new_name) cs s).0 ≡ substituted_cases env cs
    renamed_cases no_cases s = refl
    renamed_cases (case p e rest) s =
        let walked = update_variable_uses old_name (renamed new_name) e s in
        let (_, s0) = (if has_variable_named old_name p then (e, s) else walked) in
        let body : (if has_variable_named old_name p then (e, s) else walked).0
            ≡ substituted (bound (variable_names p) env) e =
          if_either (λ (r : Expr × Unit {0}). r.0 ≡ substituted (bound (variable_names p) env) e)
            (has_variable_named old_name p) (e, s) walked (λ h. below_binder (variable_names p) e h)
            (λ h. renamed_expr e s ∙ below_other (variable_names p) e h) in
        λ i. case p (body i) (renamed_cases rest s0 i)

  -- Renaming the uses of a name is the renaming by the environment in which it stands for the new name
  -- and all other names for themselves, and in which every binder makes its names stand for themselves.
  pub rename_variable_uses-substituted :
      (ast : Expr)
      → rename_variable_uses old_name new_name ast ≡ substituted (one_name old_name new_name) ast
  unfolding rename_variable_uses
  rename_variable_uses-substituted ast = renamed_expr ast tt
