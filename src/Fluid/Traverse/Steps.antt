-- ===== src/Fluid/Traverse/Steps.antt =====
-- One step of `preTraversal`: it returns if it returns at the children.
use dark.Common.{◌≡◌, refl, Option, some, All}
use dark.Fluid.Expr.{
  Expr, Exprs, Fields, Cases, no_exprs, expr, no_fields, field, no_cases, case, e_integer, e_bool,
  e_string, e_float, e_null, e_blank, e_let, e_if, e_bin_op, e_lambda, e_field_access, e_variable,
  e_fn_call, e_partial, e_right_partial, e_left_partial, e_list, e_record, e_pipe, e_constructor,
  e_match, e_pipe_target, e_feature_flag, children, exprs_of, field_exprs, case_exprs,
}
use dark.Fluid.Traverse.{◌>>=◌, try_exprs, try_fields, try_cases, recurse}

-- What a computation returns.
abbrev pub Returns {ℓ} : {A : Type ℓ} → Option A → Type ℓ
Returns {A = A} o = (a : A) × (o ≡ some a)

Returns-then :
    {A B : Type 0} (o : Option A) (f : A → Option B)
    → Returns o
    → ((a : A) → Returns (f a))
    → Returns (o >>= f)
Returns-then o f (a, h) k = let (b, h2) = k a in (b, rw h h2)

module _ (r : Expr → Option Expr) where
  try_exprs_lem : (es : Exprs) → All (λ c. Returns (r c)) (exprs_of es) → Returns (try_exprs r es)
  try_exprs_lem no_exprs h = (no_exprs, refl)
  try_exprs_lem (expr e rest) (h, hs) = Returns-then (r e) _ h (λ e_.
      Returns-then (try_exprs r rest) _ (try_exprs_lem rest hs) (λ rest_. (expr e_ rest_, refl)))

  try_fields_lem :
      (fs : Fields) → All (λ c. Returns (r c)) (field_exprs fs) → Returns (try_fields r fs)
  try_fields_lem no_fields h = (no_fields, refl)
  try_fields_lem (field name e rest) (h, hs) = Returns-then (r e) _ h (λ e_.
      Returns-then (try_fields r rest) _ (try_fields_lem rest hs)
        (λ rest_. (field name e_ rest_, refl)))

  try_cases_lem : (cs : Cases) → All (λ c. Returns (r c)) (case_exprs cs) → Returns (try_cases r cs)
  try_cases_lem no_cases h = (no_cases, refl)
  try_cases_lem (case p e rest) (h, hs) = Returns-then (r e) _ h (λ e_.
      Returns-then (try_cases r rest) _ (try_cases_lem rest hs) (λ rest_. (case p e_ rest_, refl)))

  pub recurse-Returns : (e : Expr) → All (λ c. Returns (r c)) (children e) → Returns (recurse r e)
  unfolding recurse children
  recurse-Returns (e_integer id value) h = (e_integer id value, refl)
  recurse-Returns (e_bool id value) h = (e_bool id value, refl)
  recurse-Returns (e_string id value) h = (e_string id value, refl)
  recurse-Returns (e_float id whole fraction) h = (e_float id whole fraction, refl)
  recurse-Returns (e_null id) h = (e_null id, refl)
  recurse-Returns (e_blank id) h = (e_blank id, refl)
  recurse-Returns (e_let id lhs rhs body) (h0, (h1, _)) =
      Returns-then (r rhs) _ h0
        (λ rhs_. Returns-then (r body) _ h1 (λ body_. (e_let id lhs rhs_ body_, refl)))
  recurse-Returns (e_if id cond then_ else_) (h0, (h1, (h2, _))) =
      Returns-then (r cond) _ h0 (λ cond_.
        Returns-then (r then_) _ h1
          (λ then__. Returns-then (r else_) _ h2 (λ else__. (e_if id cond_ then__ else__, refl))))
  recurse-Returns (e_bin_op id op left right ster) (h0, (h1, _)) =
      Returns-then (r left) _ h0
        (λ left_. Returns-then (r right) _ h1 (λ right_. (e_bin_op id op left_ right_ ster, refl)))
  recurse-Returns (e_lambda id vars body) (h0, _) =
      Returns-then (r body) _ h0 (λ body_. (e_lambda id vars body_, refl))
  recurse-Returns (e_field_access id obj name) (h0, _) =
      Returns-then (r obj) _ h0 (λ obj_. (e_field_access id obj_ name, refl))
  recurse-Returns (e_variable id name) h = (e_variable id name, refl)
  recurse-Returns (e_fn_call id name args ster) h =
      Returns-then (try_exprs r args) _ (try_exprs_lem args h)
        (λ args_. (e_fn_call id name args_ ster, refl))
  recurse-Returns (e_partial id text old) (h0, _) =
      Returns-then (r old) _ h0 (λ old_. (e_partial id text old_, refl))
  recurse-Returns (e_right_partial id text old) (h0, _) =
      Returns-then (r old) _ h0 (λ old_. (e_right_partial id text old_, refl))
  recurse-Returns (e_left_partial id text old) (h0, _) =
      Returns-then (r old) _ h0 (λ old_. (e_left_partial id text old_, refl))
  recurse-Returns (e_list id exprs) h =
      Returns-then (try_exprs r exprs) _ (try_exprs_lem exprs h)
        (λ exprs_. (e_list id exprs_, refl))
  recurse-Returns (e_record id entries) h =
      Returns-then (try_fields r entries) _ (try_fields_lem entries h)
        (λ entries_. (e_record id entries_, refl))
  recurse-Returns (e_pipe id exprs) h =
      Returns-then (try_exprs r exprs) _ (try_exprs_lem exprs h)
        (λ exprs_. (e_pipe id exprs_, refl))
  recurse-Returns (e_constructor id name args) h =
      Returns-then (try_exprs r args) _ (try_exprs_lem args h)
        (λ args_. (e_constructor id name args_, refl))
  recurse-Returns (e_match id cond cases) (h0, h) = Returns-then (r cond) _ h0 (λ cond_.
      Returns-then (try_cases r cases) _ (try_cases_lem cases h)
        (λ cases_. (e_match id cond_ cases_, refl)))
  recurse-Returns (e_pipe_target id) h = (e_pipe_target id, refl)
  recurse-Returns (e_feature_flag id name cond case_a case_b) (h0, (h1, (h2, _))) =
      Returns-then (r cond) _ h0 (λ cond_. Returns-then (r case_a) _ h1 (λ case_a_.
        Returns-then (r case_b) _ h2
          (λ case_b_. (e_feature_flag id name cond_ case_a_ case_b_, refl))))
