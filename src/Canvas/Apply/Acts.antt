-- ===== src/Canvas/Apply/Acts.antt =====
-- What an operation that is applied without an exception does to a canvas.
use dark.Common.{ℕ, ◌≡◌, refl, Bool, some, Chars, arith, inl, inr, Option-cases, Bool-cases, ◌&&◌}
use dark.Http.Handlers.{Handler}
use dark.Ops.Op.{
  Payloads, Op, tlid_of, UserFn, UserTipe, set_handler, create_db, add_db_col, set_db_col_name,
  set_db_col_type, delete_tl, move_tl, set_function, change_db_col_name, change_db_col_type,
  undo_tl, redo_tl, deprecated_init_dbm, set_expr, tl_savepoint, delete_function,
  create_db_migration, add_db_col_to_db_migration, set_db_col_name_in_db_migration,
  set_db_col_type_in_db_migration, abandon_db_migration, delete_col_in_db_migration, delete_db_col,
  rename_db_name, create_db_with_blank_or, delete_tl_forever, delete_function_forever, set_type,
  delete_type, delete_type_forever,
}
use dark.Canvas.Db.{
  Db, add_col, set_col_name, change_col_name, delete_col, create_migration, add_col_to_migration,
  set_col_name_in_migration, abandon_migration, delete_col_in_migration, rename_db, set_col_type,
  change_col_type, set_col_type_in_migration, create, create2,
}
use dark.Canvas.State.{
  Canvas, Toplevel, IdMap, TlData, handler, db, apply_to_all_toplevels, apply_to_db, moved,
  move_toplevel,
}
use dark.Canvas.State
use dark.Canvas.Apply.{Language, apply_op, with_tipe, no_name, typed_cols, set_tl_expr}

-- The change is one of the functions on canvases, under the id.
pub data Acts {T : Payloads} {Tipe : Type 0} (L : Language T.expr Tipe) (tlid : ℕ)
    (c d : Canvas T Tipe) : Type 0 where
  acts_not : c ≡ d → Acts L tlid c d
  acts_set_handler :
      (pos : T.pos) (h : Handler T.expr)
      → State.set_handler tlid pos (handler h) c ≡ d
      → Acts L tlid c d
  acts_set_db :
      (pos : T.pos) (x : Db T.expr Tipe) → State.set_db tlid pos (db x) c ≡ d → Acts L tlid c d
  acts_on_db :
      (f : Db T.expr Tipe → Db T.expr Tipe) → apply_to_db f tlid c ≡ some d → Acts L tlid c d
  acts_set_expr :
      (id : ℕ) (e : T.expr)
      → apply_to_all_toplevels (set_tl_expr L id e) tlid c ≡ some d
      → Acts L tlid c d
  acts_move : (pos : T.pos) → apply_to_all_toplevels (moved pos) tlid c ≡ some d → Acts L tlid c d
  acts_delete_toplevel : State.delete_toplevel tlid c ≡ d → Acts L tlid c d
  acts_delete_tl_forever : State.delete_tl_forever tlid c ≡ d → Acts L tlid c d
  acts_set_function : (f : UserFn T) → f.tlid ≡ tlid → State.set_function f c ≡ d → Acts L tlid c d
  acts_delete_function : State.delete_function tlid c ≡ d → Acts L tlid c d
  acts_delete_function_forever : State.delete_function_forever tlid c ≡ d → Acts L tlid c d
  acts_set_tipe : (t : UserTipe T) → t.tlid ≡ tlid → State.set_tipe t c ≡ d → Acts L tlid c d
  acts_delete_tipe : State.delete_tipe tlid c ≡ d → Acts L tlid c d
  acts_delete_tipe_forever : State.delete_tipe_forever tlid c ≡ d → Acts L tlid c d

module _ {T : Payloads} {Tipe : Type 0} (L : Language T.expr Tipe) where
  with_tipe-Acts :
      (f : Tipe → Db T.expr Tipe → Db T.expr Tipe) (tipe : Chars) (tlid : ℕ) (c d : Canvas T Tipe)
      → with_tipe L f tipe tlid c ≡ some d
      → Acts L tlid c d
  unfolding with_tipe
  with_tipe-Acts f tipe tlid c d e = elim (Option-cases (L.tipe_of_string tipe)) [
    | inl n ↦ absurd (ground arith)
    | inr (t, s) ↦ acts_on_db (f t) (ground arith)
  ]

  was : {c d : Canvas T Tipe} → some c ≡ some d → c ≡ d
  was e = ground arith

  pub apply_op-Acts :
      (is_new : Bool) (op : Op T) (c d : Canvas T Tipe)
      → apply_op L is_new op c ≡ some d
      → Acts L (tlid_of op) c d
  unfolding apply_op tlid_of move_toplevel
  apply_op-Acts is_new (set_handler tlid pos h) c d e = acts_set_handler pos h (was e)
  apply_op-Acts is_new (create_db tlid pos name) c d e =
      elim (Bool-cases (is_new && no_name name)) [
        | inl t ↦ absurd (ground arith)
        | inr n ↦ acts_set_db pos (create name tlid) (ground arith)
      ]
  apply_op-Acts is_new (add_db_col tlid colid typeid) c d e = acts_on_db (add_col colid typeid) e
  apply_op-Acts is_new (set_db_col_name tlid id name) c d e = acts_on_db (set_col_name id name) e
  apply_op-Acts is_new (change_db_col_name tlid id name) c d e =
      acts_on_db (change_col_name id name) e
  apply_op-Acts is_new (set_db_col_type tlid id tipe) c d e =
      with_tipe-Acts (set_col_type id) tipe tlid c d e
  apply_op-Acts is_new (change_db_col_type tlid id tipe) c d e =
      with_tipe-Acts (change_col_type id) tipe tlid c d e
  apply_op-Acts is_new (delete_db_col tlid id) c d e = acts_on_db (delete_col id) e
  apply_op-Acts is_new (deprecated_init_dbm _ _ _ _ _) c d e = acts_not (was e)
  apply_op-Acts is_new (create_db_migration tlid rbid rfid cols) c d e =
      elim (Option-cases (typed_cols L cols)) [
        | inl n ↦ absurd (ground arith)
        | inr (typed, s) ↦
            acts_on_db (create_migration (L.code_blank) rbid rfid typed) (ground arith)
      ]
  apply_op-Acts is_new (add_db_col_to_db_migration tlid colid typeid) c d e =
      acts_on_db (add_col_to_migration colid typeid) e
  apply_op-Acts is_new (set_db_col_name_in_db_migration tlid id name) c d e =
      acts_on_db (set_col_name_in_migration id name) e
  apply_op-Acts is_new (set_db_col_type_in_db_migration tlid id tipe) c d e =
      with_tipe-Acts (set_col_type_in_migration id) tipe tlid c d e
  apply_op-Acts is_new (abandon_db_migration tlid) c d e = acts_on_db abandon_migration e
  apply_op-Acts is_new (delete_col_in_db_migration tlid id) c d e =
      acts_on_db (delete_col_in_migration id) e
  apply_op-Acts is_new (set_expr tlid id x) c d e = acts_set_expr id x e
  apply_op-Acts is_new (delete_tl tlid) c d e = acts_delete_toplevel (was e)
  apply_op-Acts is_new (move_tl tlid pos) c d e = acts_move pos e
  apply_op-Acts is_new (set_function user_fn) c d e = acts_set_function user_fn refl (was e)
  apply_op-Acts is_new (delete_function tlid) c d e = acts_delete_function (was e)
  apply_op-Acts is_new (tl_savepoint _) c d e = acts_not (was e)
  apply_op-Acts is_new (undo_tl _) c d e = absurd (ground arith)
  apply_op-Acts is_new (redo_tl _) c d e = absurd (ground arith)
  apply_op-Acts is_new (rename_db_name tlid name) c d e = acts_on_db (rename_db name) e
  apply_op-Acts is_new (create_db_with_blank_or tlid pos id name) c d e =
      acts_set_db pos (create2 name tlid id) (was e)
  apply_op-Acts is_new (delete_tl_forever tlid) c d e = acts_delete_tl_forever (was e)
  apply_op-Acts is_new (delete_function_forever tlid) c d e = acts_delete_function_forever (was e)
  apply_op-Acts is_new (set_type user_tipe) c d e = acts_set_tipe user_tipe refl (was e)
  apply_op-Acts is_new (delete_type tlid) c d e = acts_delete_tipe (was e)
  apply_op-Acts is_new (delete_type_forever tlid) c d e = acts_delete_tipe_forever (was e)
