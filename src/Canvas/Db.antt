-- ===== src/Canvas/Db.antt =====
-- The databases of a canvas and their migrations: backend/libbackend/user_db.ml, from `create` on.
use dark.Common.{
  ℕ, ◌+◌, ◌==◌, Bool, true, not, Option, none, some, List, [], ◌∷◌, ◌++◌, map, Chars, if◌then◌else◌,
  leb,
}
use dark.Http.Handlers.{OrBlank, blank, filled, partial}

pub data MigrationState : Type 0 where
  migration_abandoned : MigrationState
  migration_initialized : MigrationState

-- A name and a type.
abbrev pub Col : Type 0 → Type 0
Col Tipe = OrBlank Chars × OrBlank Tipe

pub record Migration (Code Tipe : Type 0) : Type 0 where
  pub starting_version : ℕ
  pub version : ℕ
  pub state : MigrationState
  pub rollforward : Code
  pub rollback : Code
  pub cols : List (Col Tipe)

pub record Db (Code Tipe : Type 0) : Type 0 where
  pub tlid : ℕ
  pub name : OrBlank Chars
  pub cols : List (Col Tipe)
  pub version : ℕ
  pub old_migrations : List (Migration Code Tipe)
  pub active_migration : Option (Migration Code Tipe)

abbrev select : {A : Type 0} → (A → Bool) → List A → List A
select test [] = []
select test (x ∷ xs) = let rest = select test xs in if test x then x ∷ rest else rest

abbrev id_of : {A : Type 0} → OrBlank A → ℕ
id_of (blank id) = id
id_of (filled id _) = id
id_of (partial id _) = id

abbrev max : ℕ → ℕ → ℕ
max a b = if leb a b then b else a

module _ {Tipe : Type 0} where
  -- The functions on columns, each of which the source passes to `List.map` or `List.filter`.
  unfoldable pub name_blank : ℕ → Chars → Col Tipe → Col Tipe
  name_blank id name (blank hid, tipe) =
      if hid == id then (filled hid name, tipe) else (blank hid, tipe)
  name_blank id name col = col

  unfoldable pub name_filled : ℕ → Chars → Col Tipe → Col Tipe
  name_filled id name (filled hid old, tipe) =
      if hid == id then (filled hid name, tipe) else (filled hid old, tipe)
  name_filled id name col = col

  unfoldable pub type_blank : ℕ → Tipe → Col Tipe → Col Tipe
  type_blank id tipe (name, blank hid) =
      if hid == id then (name, filled hid tipe) else (name, blank hid)
  type_blank id tipe col = col

  unfoldable pub type_filled : ℕ → Tipe → Col Tipe → Col Tipe
  type_filled id tipe (filled nid name, filled tid old) =
      if tid == id then (filled nid name, filled tid tipe) else (filled nid name, filled tid old)
  type_filled id tipe col = col

  unfoldable pub name_any : ℕ → Chars → Col Tipe → Col Tipe
  name_any id name (blank hid, tipe) =
      if hid == id then (filled hid name, tipe) else (blank hid, tipe)
  name_any id name (filled nid old, tipe) =
      if nid == id then (filled nid name, tipe) else (filled nid old, tipe)
  name_any id name col = col

  unfoldable pub type_any : ℕ → Tipe → Col Tipe → Col Tipe
  type_any id tipe (name, blank bid) =
      if bid == id then (name, filled bid tipe) else (name, blank bid)
  type_any id tipe (name, filled tid old) =
      if tid == id then (name, filled tid tipe) else (name, filled tid old)
  type_any id tipe col = col

  unfoldable pub stays : ℕ → Col Tipe → Bool
  stays id (blank nid, _) = not (nid == id)
  stays id (filled nid _, _) = not (nid == id)
  stays id _ = true

module _ {Code Tipe : Type 0} where
  unfoldable pub create : Chars → ℕ → Db Code Tipe
  create name id = record {
    tlid = id;
    name = filled id name;
    cols = [];
    version = 0;
    old_migrations = [];
    active_migration = none;
  }

  unfoldable pub create2 : Chars → ℕ → ℕ → Db Code Tipe
  create2 name tlid name_id = record {
    tlid = tlid;
    name = filled name_id name;
    cols = [];
    version = 0;
    old_migrations = [];
    active_migration = none;
  }

  unfoldable pub rename_db : Chars → Db Code Tipe → Db Code Tipe
  rename_db n db = record db { name = filled (id_of db.name) n }

  unfoldable pub add_col : ℕ → ℕ → Db Code Tipe → Db Code Tipe
  add_col colid typeid db = record db { cols = db.cols ++ (blank colid, blank typeid) ∷ [] }

  unfoldable pub set_col_name : ℕ → Chars → Db Code Tipe → Db Code Tipe
  unfolding name_blank
  set_col_name id name db = record db { cols = map (name_blank id name) db.cols }

  unfoldable pub change_col_name : ℕ → Chars → Db Code Tipe → Db Code Tipe
  unfolding name_filled
  change_col_name id name db = record db { cols = map (name_filled id name) db.cols }

  unfoldable pub set_col_type : ℕ → Tipe → Db Code Tipe → Db Code Tipe
  unfolding type_blank
  set_col_type id tipe db = record db { cols = map (type_blank id tipe) db.cols }

  unfoldable pub change_col_type : ℕ → Tipe → Db Code Tipe → Db Code Tipe
  unfolding type_filled
  change_col_type id newtipe db = record db { cols = map (type_filled id newtipe) db.cols }

  unfoldable pub delete_col : ℕ → Db Code Tipe → Db Code Tipe
  unfolding stays
  delete_col id db = record db { cols = select (stays id) db.cols }

  -- `List.fold_left ~init:0 ~f:max` of the versions.
  unfoldable pub max_version : ℕ → List (Migration Code Tipe) → ℕ
  max_version n [] = n
  max_version n (m ∷ ms) = max_version (max n m.version) ms

  -- `code_blank` is `EBlank`.
  unfoldable pub create_migration :
      (ℕ → Code) → ℕ → ℕ → List (Col Tipe) → Db Code Tipe → Db Code Tipe
  unfolding max_version
  create_migration code_blank rbid rfid cols db = elim (db.active_migration) [
    | some migration ↦ db
    | none ↦ record db {
      active_migration = some (record {
        starting_version = db.version;
        version = max_version 0 db.old_migrations + 1;
        state = migration_initialized;
        rollforward = code_blank rfid;
        rollback = code_blank rbid;
        cols = cols;
      });
    }
  ]

  -- The three that change the columns of the active migration, if there is one.
  unfoldable pub in_migration : (List (Col Tipe) → List (Col Tipe)) → Db Code Tipe → Db Code Tipe
  in_migration f db = elim (db.active_migration) [
    | none ↦ db
    | some migration ↦ record db {
      active_migration = some (record migration { cols = f (migration.cols) });
    }
  ]

  unfoldable pub add_col_to_migration : ℕ → ℕ → Db Code Tipe → Db Code Tipe
  unfolding in_migration
  add_col_to_migration nameid typeid =
      in_migration (λ cols. cols ++ (blank nameid, blank typeid) ∷ [])

  unfoldable pub set_col_name_in_migration : ℕ → Chars → Db Code Tipe → Db Code Tipe
  unfolding in_migration name_any
  set_col_name_in_migration id name = in_migration (map (name_any id name))

  unfoldable pub set_col_type_in_migration : ℕ → Tipe → Db Code Tipe → Db Code Tipe
  unfolding in_migration type_any
  set_col_type_in_migration id tipe = in_migration (map (type_any id tipe))

  unfoldable pub delete_col_in_migration : ℕ → Db Code Tipe → Db Code Tipe
  unfolding in_migration stays
  delete_col_in_migration id = in_migration (select (stays id))

  unfoldable pub abandon_migration : Db Code Tipe → Db Code Tipe
  abandon_migration db = elim (db.active_migration) [
    | none ↦ db
    | some migration ↦ record db {
      old_migrations = db.old_migrations ++ record migration { state = migration_abandoned } ∷ [];
      active_migration = none;
    }
  ]
