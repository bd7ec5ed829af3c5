-- ===== src/Fluid/Variables/Kept.antt =====
-- After `updateVariableUses`, another name is used as before, if the function puts nothing that uses it
-- in the place of a variable.
use dark.Common.{
  ℕ, ◌≡◌, refl, sym, ap, ◌∙◌, subst, Bool, true, false, not, ◌&&◌, ◌||◌, Chars, same_text,
  same_text_iff, if◌then◌else◌,
}
use dark.Fluid.Pattern.{has_variable_named}
use dark.Fluid.Expr.{
  Expr, Exprs, Fields, Cases, no_exprs, expr, no_fields, field, no_cases, case, e_integer, e_bool,
  e_string, e_float, e_null, e_blank, e_let, e_if, e_bin_op, e_lambda, e_field_access, e_variable,
  e_fn_call, e_partial, e_right_partial, e_left_partial, e_list, e_record, e_pipe, e_constructor,
  e_match, e_pipe_target, e_feature_flag,
}
use dark.Fluid.Variables.{
  update_variable_uses, update_variable_uses_exprs, update_variable_uses_fields,
  update_variable_uses_cases, binds,
}
use dark.Fluid.Variables.Uses.{uses, uses_exprs, uses_fields, uses_cases}
use dark.Fluid.Variables.Removed.{if_either}

both : {a b c d : Bool} → a ≡ c → b ≡ d → (a || b) ≡ (c || d)
both h k = rw (h, k) refl

unless : (b : Bool) {u v : Bool} → u ≡ v → (not b && u) ≡ (not b && v)
unless b h = ap (λ w. not b && w) h

module _ {S : Type 0} (var x : Chars) (f : Expr → S → Expr × S) (apart : same_text var x ≡ false)
    (gone : (id : ℕ) (s : S) → uses x (f (e_variable id var) s).0 ≡ false) where
  same_variable :
      (id : ℕ) (name : Chars) (s : S)
      → same_text name var ≡ true
      → uses x (f (e_variable id name) s).0 ≡ same_text name x
  same_variable id name s h =
      subst (λ n. uses x (f (e_variable id n) s).0 ≡ same_text n x)
        (sym ((same_text_iff name var).0 h)) (gone id s ∙ sym apart)

  mutual
    unfolding update_variable_uses uses

    pub kept : (e : Expr) (s : S) → uses x (update_variable_uses var f e s).0 ≡ uses x e
    kept (e_integer _ _) s = refl
    kept (e_bool _ _) s = refl
    kept (e_string _ _) s = refl
    kept (e_float _ _ _) s = refl
    kept (e_null _) s = refl
    kept (e_blank _) s = refl
    kept (e_let id lhs rhs body) s =
        let (rhs_, s0) = update_variable_uses var f rhs s in
        let (body_, s1) = update_variable_uses var f body s0 in
        if_either
          (λ (r : Expr × S). uses x r.0 ≡ (uses x rhs || (not (same_text x lhs) && uses x body)))
          (same_text var lhs) (e_let id lhs rhs_ body, s0) (e_let id lhs rhs_ body_, s1)
          (λ _. both (kept rhs s) refl)
          (λ _. both (kept rhs s) (unless (same_text x lhs) (kept body s0)))
    kept (e_if _ cond then_ else_) s =
        let (_, s0) = update_variable_uses var f cond s in
        let (_, s1) = update_variable_uses var f then_ s0 in
        both (kept cond s) (both (kept then_ s0) (kept else_ s1))
    kept (e_bin_op _ _ left right _) s =
        let (_, s0) = update_variable_uses var f left s in both (kept left s) (kept right s0)
    kept (e_lambda id vars body) s =
        if_either (λ (r : Expr × S). uses x r.0 ≡ (not (binds x vars) && uses x body))
          (binds var vars) (e_lambda id vars body, s)
          (let (body_, s0) = update_variable_uses var f body s in (e_lambda id vars body_, s0))
          (λ _. refl) (λ _. unless (binds x vars) (kept body s))
    kept (e_field_access _ obj _) s = kept obj s
    kept (e_variable id name) s =
        if_either (λ (r : Expr × S). uses x r.0 ≡ same_text name x) (same_text name var)
          (f (e_variable id name) s) (e_variable id name, s) (same_variable id name s) (λ _. refl)
    kept (e_fn_call _ _ args _) s = kept_exprs args s
    kept (e_partial _ _ old) s = kept old s
    kept (e_right_partial _ _ old) s = kept old s
    kept (e_left_partial _ _ old) s = kept old s
    kept (e_list _ exprs) s = kept_exprs exprs s
    kept (e_record _ entries) s = kept_fields entries s
    kept (e_pipe _ exprs) s = kept_exprs exprs s
    kept (e_constructor _ _ args) s = kept_exprs args s
    kept (e_match _ cond cases) s =
        let (_, s0) = update_variable_uses_cases var f cases s in
        both (kept cond s0) (kept_cases cases s)
    kept (e_pipe_target _) s = refl
    kept (e_feature_flag _ _ cond case_a case_b) s =
        let (_, s0) = update_variable_uses var f cond s in
        let (_, s1) = update_variable_uses var f case_a s0 in
        both (kept cond s) (both (kept case_a s0) (kept case_b s1))

    pub kept_exprs :
        (es : Exprs) (s : S)
        → uses_exprs x (update_variable_uses_exprs var f es s).0 ≡ uses_exprs x es
    kept_exprs no_exprs s = refl
    kept_exprs (expr e rest) s =
        let (_, s0) = update_variable_uses var f e s in both (kept e s) (kept_exprs rest s0)

    pub kept_fields :
        (es : Fields) (s : S)
        → uses_fields x (update_variable_uses_fields var f es s).0 ≡ uses_fields x es
    kept_fields no_fields s = refl
    kept_fields (field _ e rest) s =
        let (_, s0) = update_variable_uses var f e s in both (kept e s) (kept_fields rest s0)

    pub kept_cases :
        (es : Cases) (s : S)
        → uses_cases x (update_variable_uses_cases var f es s).0 ≡ uses_cases x es
    kept_cases no_cases s = refl
    kept_cases (case p e rest) s =
        let walked = update_variable_uses var f e s in
        let (_, s0) = (if has_variable_named var p then (e, s) else walked) in
        both
          (if_either
            (λ (r : Expr × S).
              (not (has_variable_named x p) && uses x r.0)
              ≡ (not (has_variable_named x p) && uses x e))
            (has_variable_named var p) (e, s) walked (λ _. refl)
            (λ _. unless (has_variable_named x p) (kept e s)))
          (kept_cases rest s0)
