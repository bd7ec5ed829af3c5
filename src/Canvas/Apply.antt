-- ===== src/Canvas/Apply.antt =====
-- `apply_op` and `add_ops` of backend/libbackend/canvas.ml, and `set_expr` of
-- backend/libexecution/toplevel.ml. `none` is an exception.
pub mod Cells
pub mod Acts
pub mod Frame
pub mod Invariant
pub mod Sound
pub mod Refused
pub mod Add
use dark.Common.{
  ℕ, Bool, true, false, ◌&&◌, Option, none, some, List, [], ◌∷◌, ◌++◌, map, Chars, if◌then◌else◌,
}
use dark.Http.Handlers.{OrBlank, blank, filled, partial}
use dark.Ops.Op.{
  Payloads, Op, set_handler, create_db, add_db_col, set_db_col_name, set_db_col_type, delete_tl,
  move_tl, set_function, change_db_col_name, change_db_col_type, undo_tl, redo_tl,
  deprecated_init_dbm, set_expr, tl_savepoint, delete_function, create_db_migration,
  add_db_col_to_db_migration, set_db_col_name_in_db_migration, set_db_col_type_in_db_migration,
  abandon_db_migration, delete_col_in_db_migration, delete_db_col, rename_db_name,
  create_db_with_blank_or, delete_tl_forever, delete_function_forever, set_type, delete_type,
  delete_type_forever,
}
use dark.Ops.Undo.{preprocess}
use dark.Ops.Group.{oplist2tlid_oplists}
use dark.Canvas.Db.{
  Db, Col, create, create2, rename_db, add_col, set_col_name, change_col_name, set_col_type,
  change_col_type, delete_col, create_migration, add_col_to_migration, set_col_name_in_migration,
  set_col_type_in_migration, delete_col_in_migration, abandon_migration,
}
use dark.Canvas.State.{
  Canvas, Toplevel, handler, db, set_db, set_tipe, delete_toplevel, delete_tipe,
  delete_tipe_forever, apply_to_all_toplevels, apply_to_db, move_toplevel,
}
use dark.Canvas.State

-- What the canvas asks of code and types: `EBlank`, `Ast.set_expr ~search ~replacement`, and
-- `Dval.tipe_of_string`, which raises an exception where there is no such type.
pub record Language (Code Tipe : Type 0) : Type 0 where
  pub code_blank : ℕ → Code
  pub replace_code : ℕ → Code → Code → Code
  pub tipe_of_string : Chars → Option Tipe

abbrev pub no_name : Chars → Bool
no_name [] = true
no_name (c ∷ s) = false

module _ {Code Tipe : Type 0} (L : Language Code Tipe) where
  -- A column with its type read.
  unfoldable pub typed_col : OrBlank Chars × OrBlank Chars → Option (Col Tipe)
  typed_col (n, filled id ts) = elim (L.tipe_of_string ts) [
    | none ↦ none
    | some t ↦ some (n, filled id t)
  ]
  typed_col (n, partial id s) = some (n, partial id s)
  typed_col (n, blank id) = some (n, blank id)

  unfoldable pub typed_cols : List (OrBlank Chars × OrBlank Chars) → Option (List (Col Tipe))
  unfolding typed_col
  typed_cols [] = some []
  typed_cols (c ∷ cs) = elim (typed_col c) [
    | none ↦ none
    | some t ↦ elim (typed_cols cs) [ none ↦ none | some ts ↦ some (t ∷ ts) ]
  ]

abbrev pub marked : {T : Payloads} → Bool → List (Op T) → List (Bool × Op T)
marked is_new ops = map (λ op. (is_new, op)) ops

module _ {T : Payloads} {Tipe : Type 0} (L : Language T.expr Tipe) where
  -- `TL.set_expr`, which is not implemented for handlers.
  unfoldable pub set_tl_expr : ℕ → T.expr → Toplevel T Tipe → Option (Toplevel T Tipe)
  set_tl_expr id e tl = elim (tl.data_) [
    | handler h ↦ none
    | db d ↦ elim (d.active_migration) [
      | none ↦ some (record tl { data_ = db d })
      | some am ↦ some (record tl {
        data_ = db (record d {
          active_migration = some (record am {
            rollback = L.replace_code id e (am.rollback);
            rollforward = L.replace_code id e (am.rollforward);
          });
        });
      })
    ]
  ]

  -- An operation on a database with a type that is read first.
  unfoldable pub with_tipe :
      (Tipe → Db T.expr Tipe → Db T.expr Tipe) → Chars → ℕ → Canvas T Tipe → Option (Canvas T Tipe)
  unfolding apply_to_db
  with_tipe f tipe tlid c = elim (L.tipe_of_string tipe) [
    | none ↦ none
    | some t ↦ apply_to_db (f t) tlid c
  ]

  unfoldable pub apply_op : Bool → Op T → Canvas T Tipe → Option (Canvas T Tipe)
  unfolding apply_to_db with_tipe
  apply_op is_new (set_handler tlid pos h) c = some (State.set_handler tlid pos (handler h) c)
  apply_op is_new (create_db tlid pos name) c =
      if is_new && no_name name then none else some (set_db tlid pos (db (create name tlid)) c)
  apply_op is_new (add_db_col tlid colid typeid) c = apply_to_db (add_col colid typeid) tlid c
  apply_op is_new (set_db_col_name tlid id name) c = apply_to_db (set_col_name id name) tlid c
  apply_op is_new (change_db_col_name tlid id name) c = apply_to_db (change_col_name id name) tlid c
  apply_op is_new (set_db_col_type tlid id tipe) c = with_tipe (set_col_type id) tipe tlid c
  apply_op is_new (change_db_col_type tlid id tipe) c = with_tipe (change_col_type id) tipe tlid c
  apply_op is_new (delete_db_col tlid id) c = apply_to_db (delete_col id) tlid c
  apply_op is_new (deprecated_init_dbm _ _ _ _ _) c = some c
  apply_op is_new (create_db_migration tlid rbid rfid cols) c = elim (typed_cols L cols) [
    | none ↦ none
    | some typed ↦ apply_to_db (create_migration (L.code_blank) rbid rfid typed) tlid c
  ]
  apply_op is_new (add_db_col_to_db_migration tlid colid typeid) c =
      apply_to_db (add_col_to_migration colid typeid) tlid c
  apply_op is_new (set_db_col_name_in_db_migration tlid id name) c =
      apply_to_db (set_col_name_in_migration id name) tlid c
  apply_op is_new (set_db_col_type_in_db_migration tlid id tipe) c =
      with_tipe (set_col_type_in_migration id) tipe tlid c
  apply_op is_new (abandon_db_migration tlid) c = apply_to_db abandon_migration tlid c
  apply_op is_new (delete_col_in_db_migration tlid id) c =
      apply_to_db (delete_col_in_migration id) tlid c
  apply_op is_new (set_expr tlid id e) c = apply_to_all_toplevels (set_tl_expr id e) tlid c
  apply_op is_new (delete_tl tlid) c = some (delete_toplevel tlid c)
  apply_op is_new (move_tl tlid pos) c = move_toplevel tlid pos c
  apply_op is_new (set_function user_fn) c = some (State.set_function user_fn c)
  apply_op is_new (delete_function tlid) c = some (State.delete_function tlid c)
  apply_op is_new (tl_savepoint _) c = some c
  apply_op is_new (undo_tl _) c = none
  apply_op is_new (redo_tl _) c = none
  apply_op is_new (rename_db_name tlid name) c = apply_to_db (rename_db name) tlid c
  apply_op is_new (create_db_with_blank_or tlid pos id name) c =
      some (set_db tlid pos (db (create2 name tlid id)) c)
  apply_op is_new (delete_tl_forever tlid) c = some (State.delete_tl_forever tlid c)
  apply_op is_new (delete_function_forever tlid) c = some (State.delete_function_forever tlid c)
  apply_op is_new (set_type user_tipe) c = some (set_tipe user_tipe c)
  apply_op is_new (delete_type tlid) c = some (delete_tipe tlid c)
  apply_op is_new (delete_type_forever tlid) c = some (delete_tipe_forever tlid c)

  -- `List.iter` of `apply_op`.
  unfoldable pub apply_ops : List (Bool × Op T) → Canvas T Tipe → Option (Canvas T Tipe)
  unfolding apply_op
  apply_ops [] c = some c
  apply_ops ((is_new, op) ∷ ops) c = elim (apply_op is_new op c) [
    | none ↦ none
    | some d ↦ apply_ops ops d
  ]

  -- `dedup` is `List.stable_dedup`.
  unfoldable pub add_ops :
      (List ℕ → List ℕ) → List (Op T) → List (Op T) → Canvas T Tipe → Option (Canvas T Tipe)
  unfolding apply_ops preprocess oplist2tlid_oplists
  add_ops dedup oldops newops c = elim (preprocess (marked false oldops ++ marked true newops)) [
    | none ↦ none
    | some reduced_ops ↦ elim (apply_ops reduced_ops c) [
      | none ↦ none
      | some d ↦ some (record d { ops = oplist2tlid_oplists dedup (oldops ++ newops) })
    ]
  ]
