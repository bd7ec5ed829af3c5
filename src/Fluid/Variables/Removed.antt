-- ===== src/Fluid/Variables/Removed.antt =====
-- After `updateVariableUses`, the name is not used any more, if the function puts nothing that uses it
-- in its place.
use dark.Common.{
  ℕ, ◌≡◌, refl, sym, subst, Bool, true, false, not, ◌&&◌, ◌||◌, Chars, arith, same_text,
  same_text_iff, if◌then◌else◌,
}
use dark.Fluid.Pattern.{has_variable_named}
use dark.Fluid.Expr.{
  Expr, Exprs, Fields, Cases, no_exprs, expr, no_fields, field, no_cases, case, e_integer, e_bool,
  e_string, e_float, e_null, e_blank, e_let, e_if, e_bin_op, e_lambda, e_field_access, e_variable,
  e_fn_call, e_partial, e_right_partial, e_left_partial, e_list, e_record, e_pipe, e_constructor,
  e_match, e_pipe_target, e_feature_flag,
}
use dark.Fluid.Variables.{
  update_variable_uses, update_variable_uses_exprs, update_variable_uses_fields,
  update_variable_uses_cases, binds,
}
use dark.Fluid.Variables.Uses.{uses, uses_exprs, uses_fields, uses_cases}

neither_of : {a b : Bool} → a ≡ false → b ≡ false → (a || b) ≡ false
neither_of h k = ground arith

pub if_either {ℓ κ} :
    {A : Type ℓ} (P : A → Type κ) (b : Bool) (x y : A)
    → (b ≡ true → P x)
    → (b ≡ false → P y)
    → P (if b then x else y)
if_either P true x y h k = h refl
if_either P false x y h k = k refl

hidden : (b u : Bool) → b ≡ true → (not b && u) ≡ false
hidden b u h = ground arith

unless : (b u : Bool) → u ≡ false → (not b && u) ≡ false
unless b u h = ground arith

module _ {S : Type 0} (var : Chars) (f : Expr → S → Expr × S)
    (gone : (id : ℕ) (s : S) → uses var (f (e_variable id var) s).0 ≡ false) where
  unused_variable :
      (id : ℕ) (name : Chars) (s : S)
      → same_text name var ≡ true
      → uses var (f (e_variable id name) s).0 ≡ false
  unused_variable id name s h =
      subst (λ n. uses var (f (e_variable id n) s).0 ≡ false) (sym ((same_text_iff name var).0 h))
        (gone id s)

  mutual
    unfolding update_variable_uses uses

    pub removed : (e : Expr) (s : S) → uses var (update_variable_uses var f e s).0 ≡ false
    removed (e_integer _ _) s = refl
    removed (e_bool _ _) s = refl
    removed (e_string _ _) s = refl
    removed (e_float _ _ _) s = refl
    removed (e_null _) s = refl
    removed (e_blank _) s = refl
    removed (e_let id lhs rhs body) s =
        let (rhs_, s0) = update_variable_uses var f rhs s in
        let (body_, s1) = update_variable_uses var f body s0 in
        if_either (λ (r : Expr × S). uses var r.0 ≡ false) (same_text var lhs)
          (e_let id lhs rhs_ body, s0) (e_let id lhs rhs_ body_, s1)
          (λ same. neither_of (removed rhs s) (hidden (same_text var lhs) (uses var body) same))
          (λ _. neither_of (removed rhs s) (unless (same_text var lhs) _ (removed body s0)))
    removed (e_if _ cond then_ else_) s =
        let (_, s0) = update_variable_uses var f cond s in
        let (_, s1) = update_variable_uses var f then_ s0 in
        neither_of (removed cond s) (neither_of (removed then_ s0) (removed else_ s1))
    removed (e_bin_op _ _ left right _) s =
        let (_, s0) = update_variable_uses var f left s in
        neither_of (removed left s) (removed right s0)
    removed (e_lambda id vars body) s =
        if_either (λ (r : Expr × S). uses var r.0 ≡ false) (binds var vars)
          (e_lambda id vars body, s)
          (let (body_, s0) = update_variable_uses var f body s in (e_lambda id vars body_, s0))
          (hidden (binds var vars) (uses var body))
          (λ _. unless (binds var vars) _ (removed body s))
    removed (e_field_access _ obj _) s = removed obj s
    removed (e_variable id name) s =
        if_either (λ (r : Expr × S). uses var r.0 ≡ false) (same_text name var)
          (f (e_variable id name) s) (e_variable id name, s) (unused_variable id name s)
          (λ other. other)
    removed (e_fn_call _ _ args _) s = removed_exprs args s
    removed (e_partial _ _ old) s = removed old s
    removed (e_right_partial _ _ old) s = removed old s
    removed (e_left_partial _ _ old) s = removed old s
    removed (e_list _ exprs) s = removed_exprs exprs s
    removed (e_record _ entries) s = removed_fields entries s
    removed (e_pipe _ exprs) s = removed_exprs exprs s
    removed (e_constructor _ _ args) s = removed_exprs args s
    removed (e_match _ cond cases) s =
        let (_, s0) = update_variable_uses_cases var f cases s in
        neither_of (removed cond s0) (removed_cases cases s)
    removed (e_pipe_target _) s = refl
    removed (e_feature_flag _ _ cond case_a case_b) s =
        let (_, s0) = update_variable_uses var f cond s in
        let (_, s1) = update_variable_uses var f case_a s0 in
        neither_of (removed cond s) (neither_of (removed case_a s0) (removed case_b s1))

    pub removed_exprs :
        (es : Exprs) (s : S) → uses_exprs var (update_variable_uses_exprs var f es s).0 ≡ false
    removed_exprs no_exprs s = refl
    removed_exprs (expr e rest) s =
        let (_, s0) = update_variable_uses var f e s in
        neither_of (removed e s) (removed_exprs rest s0)

    pub removed_fields :
        (es : Fields) (s : S) → uses_fields var (update_variable_uses_fields var f es s).0 ≡ false
    removed_fields no_fields s = refl
    removed_fields (field _ e rest) s =
        let (_, s0) = update_variable_uses var f e s in
        neither_of (removed e s) (removed_fields rest s0)

    pub removed_cases :
        (es : Cases) (s : S) → uses_cases var (update_variable_uses_cases var f es s).0 ≡ false
    removed_cases no_cases s = refl
    removed_cases (case p e rest) s =
        let walked = update_variable_uses var f e s in
        let (_, s0) = (if has_variable_named var p then (e, s) else walked) in
        neither_of
          (if_either (λ (r : Expr × S). (not (has_variable_named var p) && uses var r.0) ≡ false)
            (has_variable_named var p) (e, s) walked
            (hidden (has_variable_named var p) (uses var e))
            (λ _. unless (has_variable_named var p) _ (removed e s)))
          (removed_cases rest s0)
