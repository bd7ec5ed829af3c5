-- ===== src/Fluid/Empty.antt =====
-- `isBlank`, `isEmpty` and `hasEmptyWithId` of libshared/FluidExpression.ml.
use dark.Common.{
  ℕ, ◌≡◌, refl, ap, ◌∙◌, Bool, true, false, not, ◌&&◌, Option, none, some, List, [], ◌∷◌, Chars,
  arith, any,
}
use dark.Fluid.Expr.{
  Expr, Exprs, Fields, no_exprs, expr, no_fields, field, exprs_of, e_blank, e_record, e_list,
}
use dark.Fluid.Find.{find}

unfoldable pub is_blank : Expr → Bool
is_blank (e_blank _) = true
is_blank _ = false

-- `k = ""`.
abbrev pub no_text : Chars → Bool
no_text [] = true
no_text (c ∷ s) = false

-- `List.filter` with the test on a field, and `List.isEmpty` of what stays.
unfoldable pub no_filtered_fields : Fields → Bool
unfolding is_blank
no_filtered_fields no_fields = true
no_filtered_fields (field k v rest) = not (no_text k && not (is_blank v)) && no_filtered_fields rest

unfoldable pub no_filtered_exprs : Exprs → Bool
unfolding is_blank
no_filtered_exprs no_exprs = true
no_filtered_exprs (expr e rest) = not (not (is_blank e)) && no_filtered_exprs rest

unfoldable pub is_empty : Expr → Bool
unfolding no_filtered_fields no_filtered_exprs
is_empty (e_blank _) = true
is_empty (e_record _ no_fields) = true
is_empty (e_record _ l) = no_filtered_fields l
is_empty (e_list _ l) = no_filtered_exprs l
is_empty _ = false

unfoldable pub has_empty_with_id : ℕ → Expr → Bool
unfolding find is_empty
has_empty_with_id id e = is_empty_found (find id e)
  where
    is_empty_found : Option Expr → Bool
    is_empty_found none = false
    is_empty_found (some x) = is_empty x

-- Whether all the elements pass a test.
abbrev every : (Expr → Bool) → List Expr → Bool
every p [] = true
every p (e ∷ es) = p e && every p es

not-not : (b : Bool) → not (not b) ≡ b
not-not true = refl
not-not false = refl

-- A list is empty if and only if all in it is blank.
pub is_empty-e_list : (id : ℕ) (es : Exprs) → is_empty (e_list id es) ≡ every is_blank (exprs_of es)
unfolding is_empty no_filtered_exprs
is_empty-e_list id no_exprs = refl
is_empty-e_list id (expr e rest) =
    ap (λ b. b && no_filtered_exprs rest) (not-not (is_blank e))
    ∙ ap (λ b. is_blank e && b) (is_empty-e_list id rest)

abbrev pub names : Fields → List Chars
names no_fields = []
names (field k v rest) = k ∷ names rest

all_named :
    (fields_ : Fields) → any no_text (names fields_) ≡ false → no_filtered_fields fields_ ≡ true
unfolding no_filtered_fields
all_named no_fields h = refl
all_named (field k v rest) h = ground (arith, all_named rest)

-- A record whose fields all have a name is empty, whatever their expressions are.
pub is_empty-e_record :
    (id : ℕ) (fields_ : Fields)
    → any no_text (names fields_) ≡ false
    → is_empty (e_record id fields_) ≡ true
unfolding is_empty
is_empty-e_record id no_fields h = refl
is_empty-e_record id (field k v rest) h = all_named (field k v rest) h
