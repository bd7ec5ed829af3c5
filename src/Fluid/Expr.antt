-- ===== src/Fluid/Expr.antt =====
-- The expressions of libshared/FluidExpression.ml, their ids and their children, and `deprecatedWalk`.
use dark.Common.{ℕ, Bool, List, [], ◌∷◌, Chars}
use dark.Fluid.Pattern.{Pattern}

pub data SendToRail : Type 0 where
  rail : SendToRail
  no_rail : SendToRail

-- The lists of expressions, of fields and of cases.
mutual
  pub data Expr : Type 0 where
    e_integer : ℕ → Chars → Expr
    e_bool : ℕ → Bool → Expr
    e_string : ℕ → Chars → Expr
    e_float : ℕ → Chars → Chars → Expr
    e_null : ℕ → Expr
    e_blank : ℕ → Expr
    e_let : ℕ → Chars → Expr → Expr → Expr
    e_if : ℕ → Expr → Expr → Expr → Expr
    e_bin_op : ℕ → Chars → Expr → Expr → SendToRail → Expr
    e_lambda : ℕ → List (ℕ × Chars) → Expr → Expr
    e_field_access : ℕ → Expr → Chars → Expr
    e_variable : ℕ → Chars → Expr
    e_fn_call : ℕ → Chars → Exprs → SendToRail → Expr
    e_partial : ℕ → Chars → Expr → Expr
    e_right_partial : ℕ → Chars → Expr → Expr
    e_left_partial : ℕ → Chars → Expr → Expr
    e_list : ℕ → Exprs → Expr
    e_record : ℕ → Fields → Expr
    e_pipe : ℕ → Exprs → Expr
    e_constructor : ℕ → Chars → Exprs → Expr
    e_match : ℕ → Expr → Cases → Expr
    e_pipe_target : ℕ → Expr
    e_feature_flag : ℕ → Chars → Expr → Expr → Expr → Expr

  pub data Exprs : Type 0 where
    no_exprs : Exprs
    expr : Expr → Exprs → Exprs

  pub data Fields : Type 0 where
    no_fields : Fields
    field : Chars → Expr → Fields → Fields

  pub data Cases : Type 0 where
    no_cases : Cases
    case : Pattern → Expr → Cases → Cases

unfoldable pub to_id : Expr → ℕ
to_id (e_integer id _) = id
to_id (e_bool id _) = id
to_id (e_string id _) = id
to_id (e_float id _ _) = id
to_id (e_null id) = id
to_id (e_blank id) = id
to_id (e_let id _ _ _) = id
to_id (e_if id _ _ _) = id
to_id (e_bin_op id _ _ _ _) = id
to_id (e_lambda id _ _) = id
to_id (e_field_access id _ _) = id
to_id (e_variable id _) = id
to_id (e_fn_call id _ _ _) = id
to_id (e_partial id _ _) = id
to_id (e_right_partial id _ _) = id
to_id (e_left_partial id _ _) = id
to_id (e_list id _) = id
to_id (e_record id _) = id
to_id (e_pipe id _) = id
to_id (e_constructor id _ _) = id
to_id (e_match id _ _) = id
to_id (e_pipe_target id) = id
to_id (e_feature_flag id _ _ _ _) = id

abbrev pub exprs_of : Exprs → List Expr
exprs_of no_exprs = []
exprs_of (expr e es) = e ∷ exprs_of es

abbrev pub field_exprs : Fields → List Expr
field_exprs no_fields = []
field_exprs (field name e fs) = e ∷ field_exprs fs

abbrev pub case_exprs : Cases → List Expr
case_exprs no_cases = []
case_exprs (case p e cs) = e ∷ case_exprs cs

unfoldable pub children : Expr → List Expr
children (e_integer _ _) = []
children (e_bool _ _) = []
children (e_string _ _) = []
children (e_float _ _ _) = []
children (e_null _) = []
children (e_blank _) = []
children (e_let _ _ rhs body) = rhs ∷ body ∷ []
children (e_if _ cond then_ else_) = cond ∷ then_ ∷ else_ ∷ []
children (e_bin_op _ _ left right _) = left ∷ right ∷ []
children (e_lambda _ _ body) = body ∷ []
children (e_field_access _ obj _) = obj ∷ []
children (e_variable _ _) = []
children (e_fn_call _ _ args _) = exprs_of args
children (e_partial _ _ old) = old ∷ []
children (e_right_partial _ _ old) = old ∷ []
children (e_left_partial _ _ old) = old ∷ []
children (e_list _ exprs) = exprs_of exprs
children (e_record _ fields) = field_exprs fields
children (e_pipe _ exprs) = exprs_of exprs
children (e_constructor _ _ args) = exprs_of args
children (e_match _ cond cases) = cond ∷ case_exprs cases
children (e_pipe_target _) = []
children (e_feature_flag _ _ cond case_a case_b) = cond ∷ case_a ∷ case_b ∷ []

abbrev pub map_exprs : (Expr → Expr) → Exprs → Exprs
map_exprs f no_exprs = no_exprs
map_exprs f (expr e es) = expr (f e) (map_exprs f es)

abbrev pub map_fields : (Expr → Expr) → Fields → Fields
map_fields f no_fields = no_fields
map_fields f (field name e fs) = field name (f e) (map_fields f fs)

abbrev pub map_cases : (Expr → Expr) → Cases → Cases
map_cases f no_cases = no_cases
map_cases f (case p e cs) = case p (f e) (map_cases f cs)

unfoldable pub deprecated_walk : (Expr → Expr) → Expr → Expr
deprecated_walk f (e_integer id value) = e_integer id value
deprecated_walk f (e_bool id value) = e_bool id value
deprecated_walk f (e_string id value) = e_string id value
deprecated_walk f (e_float id whole fraction) = e_float id whole fraction
deprecated_walk f (e_null id) = e_null id
deprecated_walk f (e_blank id) = e_blank id
deprecated_walk f (e_let id lhs rhs body) = e_let id lhs (f rhs) (f body)
deprecated_walk f (e_if id cond then_ else_) = e_if id (f cond) (f then_) (f else_)
deprecated_walk f (e_bin_op id op left right ster) = e_bin_op id op (f left) (f right) ster
deprecated_walk f (e_lambda id vars body) = e_lambda id vars (f body)
deprecated_walk f (e_field_access id obj name) = e_field_access id (f obj) name
deprecated_walk f (e_variable id name) = e_variable id name
deprecated_walk f (e_fn_call id name args ster) = e_fn_call id name (map_exprs f args) ster
deprecated_walk f (e_partial id text old) = e_partial id text (f old)
deprecated_walk f (e_right_partial id text old) = e_right_partial id text (f old)
deprecated_walk f (e_left_partial id text old) = e_left_partial id text (f old)
deprecated_walk f (e_list id exprs) = e_list id (map_exprs f exprs)
deprecated_walk f (e_record id fields) = e_record id (map_fields f fields)
deprecated_walk f (e_pipe id exprs) = e_pipe id (map_exprs f exprs)
deprecated_walk f (e_constructor id name args) = e_constructor id name (map_exprs f args)
deprecated_walk f (e_match id cond cases) = e_match id (f cond) (map_cases f cases)
deprecated_walk f (e_pipe_target id) = e_pipe_target id
deprecated_walk f (e_feature_flag id name cond case_a case_b) =
    e_feature_flag id name (f cond) (f case_a) (f case_b)
