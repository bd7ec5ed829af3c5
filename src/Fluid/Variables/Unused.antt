-- ===== src/Fluid/Variables/Unused.antt =====
-- A name that is not used: `updateVariableUses` leaves the expression as it is.
use dark.Common.{
  ◌≡◌, refl, Bool, true, false, not, ◌&&◌, ◌||◌, Chars, arith, same_text, if◌then◌else◌,
}
use dark.Fluid.Pattern.{has_variable_named}
use dark.Fluid.Expr.{
  Expr, Exprs, Fields, Cases, no_exprs, expr, no_fields, field, no_cases, case, e_integer, e_bool,
  e_string, e_float, e_null, e_blank, e_let, e_if, e_bin_op, e_lambda, e_field_access, e_variable,
  e_fn_call, e_partial, e_right_partial, e_left_partial, e_list, e_record, e_pipe, e_constructor,
  e_match, e_pipe_target, e_feature_flag,
}
use dark.Fluid.Variables.{
  update_variable_uses, update_variable_uses_exprs, update_variable_uses_fields,
  update_variable_uses_cases, binds,
}
use dark.Fluid.Variables.Uses.{uses, uses_exprs, uses_fields, uses_cases}

neither : (a b : Bool) → (a || b) ≡ false → (a ≡ false) × (b ≡ false)
neither a b h = (ground arith, ground arith)

if_same :
    {A : Type 0} (b : Bool) (x y z : A) → (b ≡ false → y ≡ z) → x ≡ z → (if b then x else y) ≡ z
if_same true x y z h k = k
if_same false x y z h k = h refl

behind : (b u : Bool) → (not b && u) ≡ false → b ≡ false → u ≡ false
behind b u h k = ground arith

mutual
  unfolding update_variable_uses uses

  pub unused :
      {S : Type 0} (var : Chars) (f : Expr → S → Expr × S) (e : Expr) (s : S)
      → uses var e ≡ false
      → update_variable_uses var f e s ≡ (e, s)
  unused var f (e_integer _ _) s h = refl
  unused var f (e_bool _ _) s h = refl
  unused var f (e_string _ _) s h = refl
  unused var f (e_float _ _ _) s h = refl
  unused var f (e_null _) s h = refl
  unused var f (e_blank _) s h = refl
  unused var f (e_let id lhs rhs body) s h =
      let (none_rhs, later) = neither (uses var rhs) (not (same_text var lhs) && uses var body) h in
      let at : update_variable_uses var f rhs s ≡ (rhs, s) = unused var f rhs s none_rhs in
      rw at (
        if_same (same_text var lhs) (e_let id lhs rhs body, s)
          (let (body_, s1) = update_variable_uses var f body s in (e_let id lhs rhs body_, s1))
          (e_let id lhs rhs body, s)
          (λ free.
            rw (unused var f body s (behind (same_text var lhs) (uses var body) later free)) refl)
          refl)
  unused var f (e_if _ cond then_ else_) s h =
      let (h0, r0) = neither (uses var cond) (uses var then_ || (uses var else_)) h in
      let (h1, r1) = neither (uses var then_) (uses var else_) r0 in
      rw (unused var f cond s h0, unused var f then_ s h1, unused var f else_ s r1) refl
  unused var f (e_bin_op _ _ left right _) s h =
      let (h0, r0) = neither (uses var left) (uses var right) h in
      rw (unused var f left s h0, unused var f right s r0) refl
  unused var f (e_lambda id vars body) s h =
      if_same (binds var vars) (e_lambda id vars body, s)
        (let (body_, s0) = update_variable_uses var f body s in (e_lambda id vars body_, s0))
        (e_lambda id vars body, s)
        (λ free. rw (unused var f body s (behind (binds var vars) (uses var body) h free)) refl)
        refl
  unused var f (e_field_access _ obj _) s h = rw (unused var f obj s h) refl
  unused var f (e_variable id name) s h = rw h refl
  unused var f (e_fn_call _ _ args _) s h = rw (unused_exprs var f args s h) refl
  unused var f (e_partial _ _ old) s h = rw (unused var f old s h) refl
  unused var f (e_right_partial _ _ old) s h = rw (unused var f old s h) refl
  unused var f (e_left_partial _ _ old) s h = rw (unused var f old s h) refl
  unused var f (e_list _ exprs) s h = rw (unused_exprs var f exprs s h) refl
  unused var f (e_record _ entries) s h = rw (unused_fields var f entries s h) refl
  unused var f (e_pipe _ exprs) s h = rw (unused_exprs var f exprs s h) refl
  unused var f (e_constructor _ _ args) s h = rw (unused_exprs var f args s h) refl
  unused var f (e_match _ cond cases) s h =
      let (h0, r0) = neither (uses var cond) (uses_cases var cases) h in
      rw (unused_cases var f cases s r0, unused var f cond s h0) refl
  unused var f (e_pipe_target _) s h = refl
  unused var f (e_feature_flag _ _ cond case_a case_b) s h =
      let (h0, r0) = neither (uses var cond) (uses var case_a || (uses var case_b)) h in
      let (h1, r1) = neither (uses var case_a) (uses var case_b) r0 in
      rw (unused var f cond s h0, unused var f case_a s h1, unused var f case_b s r1) refl

  pub unused_exprs :
      {S : Type 0} (var : Chars) (f : Expr → S → Expr × S) (es : Exprs) (s : S)
      → uses_exprs var es ≡ false
      → update_variable_uses_exprs var f es s ≡ (es, s)
  unused_exprs var f no_exprs s h = refl
  unused_exprs var f (expr e rest) s h =
      let (here, later) = neither (uses var e) (uses_exprs var rest) h in
      rw (unused var f e s here, unused_exprs var f rest s later) refl

  pub unused_fields :
      {S : Type 0} (var : Chars) (f : Expr → S → Expr × S) (es : Fields) (s : S)
      → uses_fields var es ≡ false
      → update_variable_uses_fields var f es s ≡ (es, s)
  unused_fields var f no_fields s h = refl
  unused_fields var f (field _ e rest) s h =
      let (here, later) = neither (uses var e) (uses_fields var rest) h in
      rw (unused var f e s here, unused_fields var f rest s later) refl

  pub unused_cases :
      {S : Type 0} (var : Chars) (f : Expr → S → Expr × S) (es : Cases) (s : S)
      → uses_cases var es ≡ false
      → update_variable_uses_cases var f es s ≡ (es, s)
  unused_cases var f no_cases s h = refl
  unused_cases var f (case p e rest) s h =
      let (here, later) =
        neither (not (has_variable_named var p) && uses var e) (uses_cases var rest) h in
      let kept : (if has_variable_named var p then (e, s) else update_variable_uses var f e s)
          ≡ (e, s) =
        if_same (has_variable_named var p) (e, s) (update_variable_uses var f e s) (e, s)
          (λ free. unused var f e s (behind (has_variable_named var p) (uses var e) here free))
          refl in
      rw (kept, unused_cases var f rest s later) refl
