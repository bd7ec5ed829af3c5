-- ===== src/Ops/Op.antt =====
-- The operations on a canvas: `op` of backend/libexecution/types.ml, and of backend/libserialize/op.ml
-- what is asked of one of them.
use dark.Common.{ℕ, Bool, true, false, List, Chars}
use dark.Http.Handlers.{Handler, OrBlank}

-- What operations carry, and nothing here looks into.
pub record Payloads : Type 1 where
  pub pos : Type 0
  pub expr : Type 0
  pub metadata : Type 0
  pub definition : Type 0

pub record UserFn (T : Payloads) : Type 0 where
  pub tlid : ℕ
  pub metadata : T.metadata
  pub ast : T.expr

pub record UserTipe (T : Payloads) : Type 0 where
  pub tlid : ℕ
  pub name : OrBlank Chars
  pub version : ℕ
  pub definition : T.definition

pub data MigrationKind : Type 0 where
  deprecated_migration_kind : MigrationKind

pub data Op (T : Payloads) : Type 0 where
  set_handler : ℕ → T.pos → Handler T.expr → Op T
  create_db : ℕ → T.pos → Chars → Op T
  add_db_col : ℕ → ℕ → ℕ → Op T
  set_db_col_name : ℕ → ℕ → Chars → Op T
  set_db_col_type : ℕ → ℕ → Chars → Op T
  delete_tl : ℕ → Op T
  move_tl : ℕ → T.pos → Op T
  set_function : UserFn T → Op T
  change_db_col_name : ℕ → ℕ → Chars → Op T
  change_db_col_type : ℕ → ℕ → Chars → Op T
  undo_tl : ℕ → Op T
  redo_tl : ℕ → Op T
  deprecated_init_dbm : ℕ → ℕ → ℕ → ℕ → MigrationKind → Op T
  set_expr : ℕ → ℕ → T.expr → Op T
  tl_savepoint : ℕ → Op T
  delete_function : ℕ → Op T
  create_db_migration : ℕ → ℕ → ℕ → List (OrBlank Chars × OrBlank Chars) → Op T
  add_db_col_to_db_migration : ℕ → ℕ → ℕ → Op T
  set_db_col_name_in_db_migration : ℕ → ℕ → Chars → Op T
  set_db_col_type_in_db_migration : ℕ → ℕ → Chars → Op T
  abandon_db_migration : ℕ → Op T
  delete_col_in_db_migration : ℕ → ℕ → Op T
  delete_db_col : ℕ → ℕ → Op T
  rename_db_name : ℕ → Chars → Op T
  create_db_with_blank_or : ℕ → T.pos → ℕ → Chars → Op T
  delete_tl_forever : ℕ → Op T
  delete_function_forever : ℕ → Op T
  set_type : UserTipe T → Op T
  delete_type : ℕ → Op T
  delete_type_forever : ℕ → Op T

module _ {T : Payloads} where
  unfoldable pub tlid_of : Op T → ℕ
  tlid_of (set_handler tlid _ _) = tlid
  tlid_of (create_db tlid _ _) = tlid
  tlid_of (add_db_col tlid _ _) = tlid
  tlid_of (set_db_col_name tlid _ _) = tlid
  tlid_of (change_db_col_name tlid _ _) = tlid
  tlid_of (set_db_col_type tlid _ _) = tlid
  tlid_of (change_db_col_type tlid _ _) = tlid
  tlid_of (deprecated_init_dbm tlid _ _ _ _) = tlid
  tlid_of (set_expr tlid _ _) = tlid
  tlid_of (tl_savepoint tlid) = tlid
  tlid_of (undo_tl tlid) = tlid
  tlid_of (redo_tl tlid) = tlid
  tlid_of (delete_tl tlid) = tlid
  tlid_of (move_tl tlid _) = tlid
  tlid_of (set_function f) = f.tlid
  tlid_of (delete_function tlid) = tlid
  tlid_of (create_db_migration tlid _ _ _) = tlid
  tlid_of (add_db_col_to_db_migration tlid _ _) = tlid
  tlid_of (set_db_col_name_in_db_migration tlid _ _) = tlid
  tlid_of (set_db_col_type_in_db_migration tlid _ _) = tlid
  tlid_of (abandon_db_migration tlid) = tlid
  tlid_of (delete_col_in_db_migration tlid _) = tlid
  tlid_of (delete_db_col tlid _) = tlid
  tlid_of (rename_db_name tlid _) = tlid
  tlid_of (create_db_with_blank_or tlid _ _ _) = tlid
  tlid_of (delete_tl_forever tlid) = tlid
  tlid_of (delete_function_forever tlid) = tlid
  tlid_of (set_type ut) = ut.tlid
  tlid_of (delete_type tlid) = tlid
  tlid_of (delete_type_forever tlid) = tlid

  unfoldable pub has_effect : Op T → Bool
  has_effect (tl_savepoint _) = false
  has_effect _ = true
