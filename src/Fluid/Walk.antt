-- ===== src/Fluid/Walk.antt =====
-- What `deprecatedWalk` does to an expression: its id stays, and its children are mapped.
use dark.Common.{◌≡◌, refl, ap, ◌∷◌, map, All}
use dark.Fluid.Expr.{
  Expr, Exprs, Fields, Cases, no_exprs, expr, no_fields, field, no_cases, case, exprs_of,
  field_exprs, case_exprs, children, deprecated_walk, map_exprs, map_fields, map_cases, to_id,
  e_integer, e_bool, e_string, e_float, e_null, e_blank, e_let, e_if, e_bin_op, e_lambda,
  e_field_access, e_variable, e_fn_call, e_partial, e_right_partial, e_left_partial, e_list,
  e_record, e_pipe, e_constructor, e_match, e_pipe_target, e_feature_flag,
}

pub to_id-deprecated_walk : (f : Expr → Expr) (e : Expr) → to_id (deprecated_walk f e) ≡ to_id e
unfolding to_id deprecated_walk
to_id-deprecated_walk f (e_integer _ _) = refl
to_id-deprecated_walk f (e_bool _ _) = refl
to_id-deprecated_walk f (e_string _ _) = refl
to_id-deprecated_walk f (e_float _ _ _) = refl
to_id-deprecated_walk f (e_null _) = refl
to_id-deprecated_walk f (e_blank _) = refl
to_id-deprecated_walk f (e_let _ _ _ _) = refl
to_id-deprecated_walk f (e_if _ _ _ _) = refl
to_id-deprecated_walk f (e_bin_op _ _ _ _ _) = refl
to_id-deprecated_walk f (e_lambda _ _ _) = refl
to_id-deprecated_walk f (e_field_access _ _ _) = refl
to_id-deprecated_walk f (e_variable _ _) = refl
to_id-deprecated_walk f (e_fn_call _ _ _ _) = refl
to_id-deprecated_walk f (e_partial _ _ _) = refl
to_id-deprecated_walk f (e_right_partial _ _ _) = refl
to_id-deprecated_walk f (e_left_partial _ _ _) = refl
to_id-deprecated_walk f (e_list _ _) = refl
to_id-deprecated_walk f (e_record _ _) = refl
to_id-deprecated_walk f (e_pipe _ _) = refl
to_id-deprecated_walk f (e_constructor _ _ _) = refl
to_id-deprecated_walk f (e_match _ _ _) = refl
to_id-deprecated_walk f (e_pipe_target _) = refl
to_id-deprecated_walk f (e_feature_flag _ _ _ _ _) = refl

exprs_of-map_exprs :
    (f : Expr → Expr) (es : Exprs) → exprs_of (map_exprs f es) ≡ map f (exprs_of es)
exprs_of-map_exprs f no_exprs = refl
exprs_of-map_exprs f (expr e es) = ap (◌∷◌ (f e)) (exprs_of-map_exprs f es)

field_exprs-map_fields :
    (f : Expr → Expr) (fs : Fields) → field_exprs (map_fields f fs) ≡ map f (field_exprs fs)
field_exprs-map_fields f no_fields = refl
field_exprs-map_fields f (field name e fs) = ap (◌∷◌ (f e)) (field_exprs-map_fields f fs)

case_exprs-map_cases :
    (f : Expr → Expr) (cs : Cases) → case_exprs (map_cases f cs) ≡ map f (case_exprs cs)
case_exprs-map_cases f no_cases = refl
case_exprs-map_cases f (case p e cs) = ap (◌∷◌ (f e)) (case_exprs-map_cases f cs)

pub children-deprecated_walk :
    (f : Expr → Expr) (e : Expr) → children (deprecated_walk f e) ≡ map f (children e)
unfolding children deprecated_walk
children-deprecated_walk f (e_integer _ _) = refl
children-deprecated_walk f (e_bool _ _) = refl
children-deprecated_walk f (e_string _ _) = refl
children-deprecated_walk f (e_float _ _ _) = refl
children-deprecated_walk f (e_null _) = refl
children-deprecated_walk f (e_blank _) = refl
children-deprecated_walk f (e_let _ _ _ _) = refl
children-deprecated_walk f (e_if _ _ _ _) = refl
children-deprecated_walk f (e_bin_op _ _ _ _ _) = refl
children-deprecated_walk f (e_lambda _ _ _) = refl
children-deprecated_walk f (e_field_access _ _ _) = refl
children-deprecated_walk f (e_variable _ _) = refl
children-deprecated_walk f (e_fn_call _ _ args _) = exprs_of-map_exprs f args
children-deprecated_walk f (e_partial _ _ _) = refl
children-deprecated_walk f (e_right_partial _ _ _) = refl
children-deprecated_walk f (e_left_partial _ _ _) = refl
children-deprecated_walk f (e_list _ exprs) = exprs_of-map_exprs f exprs
children-deprecated_walk f (e_record _ fields) = field_exprs-map_fields f fields
children-deprecated_walk f (e_pipe _ exprs) = exprs_of-map_exprs f exprs
children-deprecated_walk f (e_constructor _ _ args) = exprs_of-map_exprs f args
children-deprecated_walk f (e_match _ cond cases) = ap (◌∷◌ (f cond)) (case_exprs-map_cases f cases)
children-deprecated_walk f (e_pipe_target _) = refl
children-deprecated_walk f (e_feature_flag _ _ _ _ _) = refl

exprs_fixed :
    (f : Expr → Expr) (es : Exprs) → All (λ c. f c ≡ c) (exprs_of es) → map_exprs f es ≡ es
exprs_fixed f no_exprs h = refl
exprs_fixed f (expr e es) (x, h) = rw (x, exprs_fixed f es h) refl

fields_fixed :
    (f : Expr → Expr) (fs : Fields) → All (λ c. f c ≡ c) (field_exprs fs) → map_fields f fs ≡ fs
fields_fixed f no_fields h = refl
fields_fixed f (field name e fs) (x, h) = rw (x, fields_fixed f fs h) refl

cases_fixed :
    (f : Expr → Expr) (cs : Cases) → All (λ c. f c ≡ c) (case_exprs cs) → map_cases f cs ≡ cs
cases_fixed f no_cases h = refl
cases_fixed f (case p e cs) (x, h) = rw (x, cases_fixed f cs h) refl

-- Where nothing changes at the children, nothing changes.
pub deprecated_walk_fixed :
    (f : Expr → Expr) (e : Expr) → All (λ c. f c ≡ c) (children e) → deprecated_walk f e ≡ e
unfolding children deprecated_walk
deprecated_walk_fixed f (e_integer _ _) h = refl
deprecated_walk_fixed f (e_bool _ _) h = refl
deprecated_walk_fixed f (e_string _ _) h = refl
deprecated_walk_fixed f (e_float _ _ _) h = refl
deprecated_walk_fixed f (e_null _) h = refl
deprecated_walk_fixed f (e_blank _) h = refl
deprecated_walk_fixed f (e_let _ _ _ _) (x, (y, _)) = rw (x, y) refl
deprecated_walk_fixed f (e_if _ _ _ _) (x, (y, (z, _))) = rw (x, y, z) refl
deprecated_walk_fixed f (e_bin_op _ _ _ _ _) (x, (y, _)) = rw (x, y) refl
deprecated_walk_fixed f (e_lambda _ _ _) (x, _) = rw x refl
deprecated_walk_fixed f (e_field_access _ _ _) (x, _) = rw x refl
deprecated_walk_fixed f (e_variable _ _) h = refl
deprecated_walk_fixed f (e_fn_call _ _ args _) h = rw (exprs_fixed f args h) refl
deprecated_walk_fixed f (e_partial _ _ _) (x, _) = rw x refl
deprecated_walk_fixed f (e_right_partial _ _ _) (x, _) = rw x refl
deprecated_walk_fixed f (e_left_partial _ _ _) (x, _) = rw x refl
deprecated_walk_fixed f (e_list _ exprs) h = rw (exprs_fixed f exprs h) refl
deprecated_walk_fixed f (e_record _ fields) h = rw (fields_fixed f fields h) refl
deprecated_walk_fixed f (e_pipe _ exprs) h = rw (exprs_fixed f exprs h) refl
deprecated_walk_fixed f (e_constructor _ _ args) h = rw (exprs_fixed f args h) refl
deprecated_walk_fixed f (e_match _ _ cases) (x, h) = rw (x, cases_fixed f cases h) refl
deprecated_walk_fixed f (e_pipe_target _) h = refl
deprecated_walk_fixed f (e_feature_flag _ _ _ _ _) (x, (y, (z, _))) = rw (x, y, z) refl
