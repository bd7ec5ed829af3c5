-- ===== src/Fluid/Schemes.antt =====
-- The two schemes by which the functions on expressions recurse.
use dark.Common.{◌≡◌, refl, ap, List, [], ◌∷◌, map}
use dark.Fluid.Expr.{
  Expr, Exprs, Fields, Cases, no_exprs, expr, no_fields, field, no_cases, case, exprs_of,
  field_exprs, case_exprs, children, deprecated_walk, map_exprs, map_fields, map_cases, e_integer,
  e_bool, e_string, e_float, e_null, e_blank, e_let, e_if, e_bin_op, e_lambda, e_field_access,
  e_variable, e_fn_call, e_partial, e_right_partial, e_left_partial, e_list, e_record, e_pipe,
  e_constructor, e_match, e_pipe_target, e_feature_flag,
}

-- A function that is given an expression with the expression that the same function has made of its
-- children: `run e = g e (deprecated_walk run e)`.
unfoldable mutual
  pub walk_with : (Expr → Expr → Expr) → Expr → Expr
  walk_with g (e_integer id value) = g (e_integer id value) (e_integer id value)
  walk_with g (e_bool id value) = g (e_bool id value) (e_bool id value)
  walk_with g (e_string id value) = g (e_string id value) (e_string id value)
  walk_with g (e_float id whole fraction) =
      g (e_float id whole fraction) (e_float id whole fraction)
  walk_with g (e_null id) = g (e_null id) (e_null id)
  walk_with g (e_blank id) = g (e_blank id) (e_blank id)
  walk_with g (e_let id lhs rhs body) =
      g (e_let id lhs rhs body) (e_let id lhs (walk_with g rhs) (walk_with g body))
  walk_with g (e_if id cond then_ else_) =
      g (e_if id cond then_ else_)
        (e_if id (walk_with g cond) (walk_with g then_) (walk_with g else_))
  walk_with g (e_bin_op id op left right ster) =
      g (e_bin_op id op left right ster)
        (e_bin_op id op (walk_with g left) (walk_with g right) ster)
  walk_with g (e_lambda id vars body) =
      g (e_lambda id vars body) (e_lambda id vars (walk_with g body))
  walk_with g (e_field_access id obj name) =
      g (e_field_access id obj name) (e_field_access id (walk_with g obj) name)
  walk_with g (e_variable id name) = g (e_variable id name) (e_variable id name)
  walk_with g (e_fn_call id name args ster) =
      g (e_fn_call id name args ster) (e_fn_call id name (walk_exprs g args) ster)
  walk_with g (e_partial id text old) =
      g (e_partial id text old) (e_partial id text (walk_with g old))
  walk_with g (e_right_partial id text old) =
      g (e_right_partial id text old) (e_right_partial id text (walk_with g old))
  walk_with g (e_left_partial id text old) =
      g (e_left_partial id text old) (e_left_partial id text (walk_with g old))
  walk_with g (e_list id exprs) = g (e_list id exprs) (e_list id (walk_exprs g exprs))
  walk_with g (e_record id fields) = g (e_record id fields) (e_record id (walk_fields g fields))
  walk_with g (e_pipe id exprs) = g (e_pipe id exprs) (e_pipe id (walk_exprs g exprs))
  walk_with g (e_constructor id name args) =
      g (e_constructor id name args) (e_constructor id name (walk_exprs g args))
  walk_with g (e_match id cond cases) =
      g (e_match id cond cases) (e_match id (walk_with g cond) (walk_cases g cases))
  walk_with g (e_pipe_target id) = g (e_pipe_target id) (e_pipe_target id)
  walk_with g (e_feature_flag id name cond case_a case_b) =
      g (e_feature_flag id name cond case_a case_b)
        (e_feature_flag id name (walk_with g cond) (walk_with g case_a) (walk_with g case_b))

  pub walk_exprs : (Expr → Expr → Expr) → Exprs → Exprs
  walk_exprs g no_exprs = no_exprs
  walk_exprs g (expr e es) = expr (walk_with g e) (walk_exprs g es)

  pub walk_fields : (Expr → Expr → Expr) → Fields → Fields
  walk_fields g no_fields = no_fields
  walk_fields g (field name e fs) = field name (walk_with g e) (walk_fields g fs)

  pub walk_cases : (Expr → Expr → Expr) → Cases → Cases
  walk_cases g no_cases = no_cases
  walk_cases g (case p e cs) = case p (walk_with g e) (walk_cases g cs)

-- A function that is given an expression with its results for the children:
-- `run e = g e (map run (children e))`.
unfoldable mutual
  pub fold_expr : {A : Type 0} → (Expr → List A → A) → Expr → A
  fold_expr g (e_integer id value) = g (e_integer id value) ([])
  fold_expr g (e_bool id value) = g (e_bool id value) ([])
  fold_expr g (e_string id value) = g (e_string id value) ([])
  fold_expr g (e_float id whole fraction) = g (e_float id whole fraction) ([])
  fold_expr g (e_null id) = g (e_null id) ([])
  fold_expr g (e_blank id) = g (e_blank id) ([])
  fold_expr g (e_let id lhs rhs body) =
      g (e_let id lhs rhs body) (fold_expr g rhs ∷ fold_expr g body ∷ [])
  fold_expr g (e_if id cond then_ else_) =
      g (e_if id cond then_ else_) (fold_expr g cond ∷ fold_expr g then_ ∷ fold_expr g else_ ∷ [])
  fold_expr g (e_bin_op id op left right ster) =
      g (e_bin_op id op left right ster) (fold_expr g left ∷ fold_expr g right ∷ [])
  fold_expr g (e_lambda id vars body) = g (e_lambda id vars body) (fold_expr g body ∷ [])
  fold_expr g (e_field_access id obj name) = g (e_field_access id obj name) (fold_expr g obj ∷ [])
  fold_expr g (e_variable id name) = g (e_variable id name) ([])
  fold_expr g (e_fn_call id name args ster) = g (e_fn_call id name args ster) (fold_exprs g args)
  fold_expr g (e_partial id text old) = g (e_partial id text old) (fold_expr g old ∷ [])
  fold_expr g (e_right_partial id text old) = g (e_right_partial id text old) (fold_expr g old ∷ [])
  fold_expr g (e_left_partial id text old) = g (e_left_partial id text old) (fold_expr g old ∷ [])
  fold_expr g (e_list id exprs) = g (e_list id exprs) (fold_exprs g exprs)
  fold_expr g (e_record id fields) = g (e_record id fields) (fold_fields g fields)
  fold_expr g (e_pipe id exprs) = g (e_pipe id exprs) (fold_exprs g exprs)
  fold_expr g (e_constructor id name args) = g (e_constructor id name args) (fold_exprs g args)
  fold_expr g (e_match id cond cases) =
      g (e_match id cond cases) (fold_expr g cond ∷ fold_cases g cases)
  fold_expr g (e_pipe_target id) = g (e_pipe_target id) ([])
  fold_expr g (e_feature_flag id name cond case_a case_b) =
      g (e_feature_flag id name cond case_a case_b)
        (fold_expr g cond ∷ fold_expr g case_a ∷ fold_expr g case_b ∷ [])

  pub fold_exprs : {A : Type 0} → (Expr → List A → A) → Exprs → List A
  fold_exprs g no_exprs = []
  fold_exprs g (expr e es) = fold_expr g e ∷ fold_exprs g es

  pub fold_fields : {A : Type 0} → (Expr → List A → A) → Fields → List A
  fold_fields g no_fields = []
  fold_fields g (field name e fs) = fold_expr g e ∷ fold_fields g fs

  pub fold_cases : {A : Type 0} → (Expr → List A → A) → Cases → List A
  fold_cases g no_cases = []
  fold_cases g (case p e cs) = fold_expr g e ∷ fold_cases g cs

walk_exprs-map :
    (g : Expr → Expr → Expr) (es : Exprs) → walk_exprs g es ≡ map_exprs (walk_with g) es
unfolding walk_with
walk_exprs-map g no_exprs = refl
walk_exprs-map g (expr e es) = ap (expr (walk_with g e)) (walk_exprs-map g es)

walk_fields-map :
    (g : Expr → Expr → Expr) (fs : Fields) → walk_fields g fs ≡ map_fields (walk_with g) fs
unfolding walk_with
walk_fields-map g no_fields = refl
walk_fields-map g (field name e fs) = ap (field name (walk_with g e)) (walk_fields-map g fs)

walk_cases-map :
    (g : Expr → Expr → Expr) (cs : Cases) → walk_cases g cs ≡ map_cases (walk_with g) cs
unfolding walk_with
walk_cases-map g no_cases = refl
walk_cases-map g (case p e cs) = ap (case p (walk_with g e)) (walk_cases-map g cs)

-- The first scheme is the recursion of the source.
pub walk_with_lem :
    (g : Expr → Expr → Expr) (e : Expr) → walk_with g e ≡ g e (deprecated_walk (walk_with g) e)
unfolding walk_with deprecated_walk
walk_with_lem g (e_integer _ _) = refl
walk_with_lem g (e_bool _ _) = refl
walk_with_lem g (e_string _ _) = refl
walk_with_lem g (e_float _ _ _) = refl
walk_with_lem g (e_null _) = refl
walk_with_lem g (e_blank _) = refl
walk_with_lem g (e_let _ _ _ _) = refl
walk_with_lem g (e_if _ _ _ _) = refl
walk_with_lem g (e_bin_op _ _ _ _ _) = refl
walk_with_lem g (e_lambda _ _ _) = refl
walk_with_lem g (e_field_access _ _ _) = refl
walk_with_lem g (e_variable _ _) = refl
walk_with_lem g (e_fn_call id name args ster) =
    ap (λ x. g (e_fn_call id name args ster) (e_fn_call id name x ster)) (walk_exprs-map g args)
walk_with_lem g (e_partial _ _ _) = refl
walk_with_lem g (e_right_partial _ _ _) = refl
walk_with_lem g (e_left_partial _ _ _) = refl
walk_with_lem g (e_list id exprs) =
    ap (λ x. g (e_list id exprs) (e_list id x)) (walk_exprs-map g exprs)
walk_with_lem g (e_record id fields) =
    ap (λ x. g (e_record id fields) (e_record id x)) (walk_fields-map g fields)
walk_with_lem g (e_pipe id exprs) =
    ap (λ x. g (e_pipe id exprs) (e_pipe id x)) (walk_exprs-map g exprs)
walk_with_lem g (e_constructor id name args) =
    ap (λ x. g (e_constructor id name args) (e_constructor id name x)) (walk_exprs-map g args)
walk_with_lem g (e_match id cond cases) =
    ap (λ x. g (e_match id cond cases) (e_match id (walk_with g cond) x)) (walk_cases-map g cases)
walk_with_lem g (e_pipe_target _) = refl
walk_with_lem g (e_feature_flag _ _ _ _ _) = refl

module _ {A : Type 0} (g : Expr → List A → A) where
  fold_exprs-map : (es : Exprs) → fold_exprs g es ≡ map (fold_expr g) (exprs_of es)
  unfolding fold_expr
  fold_exprs-map no_exprs = refl
  fold_exprs-map (expr e es) = ap (◌∷◌ (fold_expr g e)) (fold_exprs-map es)

  fold_fields-map : (fs : Fields) → fold_fields g fs ≡ map (fold_expr g) (field_exprs fs)
  unfolding fold_expr
  fold_fields-map no_fields = refl
  fold_fields-map (field name e fs) = ap (◌∷◌ (fold_expr g e)) (fold_fields-map fs)

  fold_cases-map : (cs : Cases) → fold_cases g cs ≡ map (fold_expr g) (case_exprs cs)
  unfolding fold_expr
  fold_cases-map no_cases = refl
  fold_cases-map (case p e cs) = ap (◌∷◌ (fold_expr g e)) (fold_cases-map cs)

  -- And so is the second one.
  pub fold_expr_lem : (e : Expr) → fold_expr g e ≡ g e (map (fold_expr g) (children e))
  unfolding fold_expr children
  fold_expr_lem (e_integer _ _) = refl
  fold_expr_lem (e_bool _ _) = refl
  fold_expr_lem (e_string _ _) = refl
  fold_expr_lem (e_float _ _ _) = refl
  fold_expr_lem (e_null _) = refl
  fold_expr_lem (e_blank _) = refl
  fold_expr_lem (e_let _ _ _ _) = refl
  fold_expr_lem (e_if _ _ _ _) = refl
  fold_expr_lem (e_bin_op _ _ _ _ _) = refl
  fold_expr_lem (e_lambda _ _ _) = refl
  fold_expr_lem (e_field_access _ _ _) = refl
  fold_expr_lem (e_variable _ _) = refl
  fold_expr_lem (e_fn_call id name args ster) =
      ap (λ x. g (e_fn_call id name args ster) (x)) (fold_exprs-map args)
  fold_expr_lem (e_partial _ _ _) = refl
  fold_expr_lem (e_right_partial _ _ _) = refl
  fold_expr_lem (e_left_partial _ _ _) = refl
  fold_expr_lem (e_list id exprs) = ap (λ x. g (e_list id exprs) (x)) (fold_exprs-map exprs)
  fold_expr_lem (e_record id fields) = ap (λ x. g (e_record id fields) (x)) (fold_fields-map fields)
  fold_expr_lem (e_pipe id exprs) = ap (λ x. g (e_pipe id exprs) (x)) (fold_exprs-map exprs)
  fold_expr_lem (e_constructor id name args) =
      ap (λ x. g (e_constructor id name args) (x)) (fold_exprs-map args)
  fold_expr_lem (e_match id cond cases) =
      ap (λ x. g (e_match id cond cases) (fold_expr g cond ∷ x)) (fold_cases-map cases)
  fold_expr_lem (e_pipe_target _) = refl
  fold_expr_lem (e_feature_flag _ _ _ _ _) = refl
