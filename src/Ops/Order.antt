-- ===== src/Ops/Order.antt =====
-- Which operations may come out of order, and what is loaded to validate one: of
-- backend/libserialize/op.ml, `filter_ops_received_out_of_order` and `required_context_to_validate`.
use dark.Common.{◌≡◌, Bool, true, false, none, List, [], ◌∷◌, arith, All, Bool-cases, inl, inr}
use dark.Ops.Op.{
  Payloads, Op, set_handler, set_function, set_type, move_tl, set_db_col_name, change_db_col_name,
  change_db_col_type, set_expr, create_db_migration, set_db_col_name_in_db_migration,
  set_db_col_type_in_db_migration, undo_tl, redo_tl, tl_savepoint, rename_db_name,
  create_db_with_blank_or,
}
use dark.Ops.Ast.{ast_of}
use dark.Ops.Undo.{select, undo_of, redo_of, savepoint_of}

pub data RequiredContext : Type 0 where
  no_context : RequiredContext
  all_datastores : RequiredContext

-- The greater one, in the order of the constructors.
abbrev pub max_context : RequiredContext → RequiredContext → RequiredContext
max_context all_datastores other = all_datastores
max_context no_context other = other

module _ {T : Payloads} where
  unfoldable pub is_safe : Op T → Bool
  is_safe (set_handler _ _ _) = false
  is_safe (set_function _) = false
  is_safe (set_type _) = false
  is_safe (move_tl _ _) = false
  is_safe (set_db_col_name _ _ _) = false
  is_safe (change_db_col_name _ _ _) = false
  is_safe (change_db_col_type _ _ _) = false
  is_safe (set_expr _ _ _) = false
  is_safe (create_db_migration _ _ _ _) = false
  is_safe (set_db_col_name_in_db_migration _ _ _) = false
  is_safe (set_db_col_type_in_db_migration _ _ _) = false
  is_safe (undo_tl _) = false
  is_safe (redo_tl _) = false
  is_safe (tl_savepoint _) = false
  is_safe (rename_db_name _ _) = false
  is_safe _ = true

  unfoldable pub filter_ops_received_out_of_order : List (Op T) → List (Op T)
  unfolding is_safe
  filter_ops_received_out_of_order = select is_safe

  unfoldable pub required_context_to_validate : Op T → RequiredContext
  required_context_to_validate (set_db_col_name _ _ _) = all_datastores
  required_context_to_validate (change_db_col_name _ _ _) = all_datastores
  required_context_to_validate (undo_tl _) = all_datastores
  required_context_to_validate (redo_tl _) = all_datastores
  required_context_to_validate (rename_db_name _ _) = all_datastores
  required_context_to_validate (create_db_with_blank_or _ _ _ _) = all_datastores
  required_context_to_validate _ = no_context

  -- `List.max_elt`, with its default.
  unfoldable pub required_context_to_validate_oplist : List (Op T) → RequiredContext
  unfolding required_context_to_validate
  required_context_to_validate_oplist [] = no_context
  required_context_to_validate_oplist (op ∷ ops) =
      max_context (required_context_to_validate op) (required_context_to_validate_oplist ops)

  -- Neither code nor a step of the history.
  abbrev pub IsHarmless : Op T → Type 0
  IsHarmless op =
      (ast_of op ≡ none) × (undo_of op ≡ none) × (redo_of op ≡ none) × (savepoint_of op ≡ none)

  safe-IsHarmless : (op : Op T) → is_safe op ≡ true → IsHarmless op
  unfolding is_safe ast_of
  safe-IsHarmless op e = ground arith

  -- What may come out of order overwrites no code, and is no undo, redo or savepoint.
  pub filter_ops_received_out_of_order-IsHarmless :
      (ops : List (Op T)) → All IsHarmless (filter_ops_received_out_of_order ops)
  unfolding filter_ops_received_out_of_order
  filter_ops_received_out_of_order-IsHarmless [] = tt
  filter_ops_received_out_of_order-IsHarmless (op ∷ ops) = elim (Bool-cases (is_safe op)) [
    | inl e ↦ rw e (safe-IsHarmless op e, filter_ops_received_out_of_order-IsHarmless ops)
    | inr e ↦ rw e (filter_ops_received_out_of_order-IsHarmless ops)
  ]

  -- A list needs at least what each of its operations needs.
  pub required_context_to_validate_oplist_lem :
      (ops : List (Op T))
      → required_context_to_validate_oplist ops ≡ no_context
      → All (λ op. required_context_to_validate op ≡ no_context) ops
  unfolding required_context_to_validate_oplist
  required_context_to_validate_oplist_lem [] e = tt
  required_context_to_validate_oplist_lem (op ∷ ops) e =
      (ground arith, required_context_to_validate_oplist_lem ops (ground arith))
