-- ===== src/Canvas/Apply/Refused.antt =====
-- Which operations raise an exception.
use dark.Common.{
  ℕ, ◌≡◌, refl, sym, ap, ◌∙◌, subst, Bool, true, false, not, Option, none, some, List, Chars, arith,
  inl, inr, Bool-cases, Option-cases, ◌&&◌, ◌||◌,
}
use dark.Http.Handlers.{OrBlank}
use dark.Ops.Op.{
  Payloads, Op, set_handler, create_db, add_db_col, set_db_col_name, set_db_col_type, delete_tl,
  move_tl, set_function, change_db_col_name, change_db_col_type, undo_tl, redo_tl,
  deprecated_init_dbm, set_expr, tl_savepoint, delete_function, create_db_migration,
  add_db_col_to_db_migration, set_db_col_name_in_db_migration, set_db_col_type_in_db_migration,
  abandon_db_migration, delete_col_in_db_migration, delete_db_col, rename_db_name,
  create_db_with_blank_or, delete_tl_forever, delete_function_forever, set_type, delete_type,
  delete_type_forever,
}
use dark.Canvas.Db.{
  Db, add_col, set_col_name, change_col_name, delete_col, create_migration, add_col_to_migration,
  set_col_name_in_migration, abandon_migration, delete_col_in_migration, rename_db, set_col_type,
  change_col_type, set_col_type_in_migration,
}
use dark.Canvas.State.{
  Canvas, Toplevel, IdMap, apply_to_toplevel, apply_to_all_toplevels, apply_to_db, on_db, moved,
  move_toplevel,
}
use dark.Canvas.Apply.{Language, apply_op, with_tipe, no_name, typed_cols, set_tl_expr}
use dark.Canvas.Apply.Cells.{cell}
use dark.Canvas.Apply.Invariant.{is_handler, IsKindAt, IsSoundAt, IsSound, data_cases}

abbrev pub is_none : {A : Type 0} → Option A → Bool
is_none none = true
is_none (some a) = false

module _ {T : Payloads} {Tipe : Type 0} (L : Language T.expr Tipe) where
  -- A new CreateDB without a name (CreateDBWithBlankOr is not checked), a type that there is not, code
  -- that is set in a handler, and undos and redos.
  unfoldable pub refuses : Bool → Op T → Canvas T Tipe → Bool
  unfolding typed_cols
  refuses is_new (create_db _ _ name) c = is_new && no_name name
  refuses is_new (set_db_col_type _ _ tipe) c = is_none (L.tipe_of_string tipe)
  refuses is_new (change_db_col_type _ _ tipe) c = is_none (L.tipe_of_string tipe)
  refuses is_new (set_db_col_type_in_db_migration _ _ tipe) c = is_none (L.tipe_of_string tipe)
  refuses is_new (create_db_migration _ _ _ cols) c = is_none (typed_cols L cols)
  refuses is_new (set_expr tlid _ _) c = not (is_none (c.handlers tlid))
  refuses is_new (undo_tl _) c = true
  refuses is_new (redo_tl _) c = true
  refuses is_new _ c = false

  toplevel_passes :
      (f : Toplevel T Tipe → Option (Toplevel T Tipe)) (tlid : ℕ) (tls : IdMap (Toplevel T Tipe))
      (b : Bool)
      → (tls tlid ≡ none → b ≡ false)
      → ((tl : Toplevel T Tipe) → tls tlid ≡ some tl → is_none (f tl) ≡ b)
      → is_none (apply_to_toplevel f tlid tls) ≡ b
  unfolding apply_to_toplevel
  toplevel_passes f tlid tls b h k = elim (Option-cases (tls tlid)) [
    | inl n ↦ ground (arith, h n)
    | inr (tl, s) ↦ elim (Option-cases (f tl)) [
      | inl g ↦ ground (arith, k tl s)
      | inr (x, g) ↦ ground (arith, k tl s)
    ]
  ]

  on_db_passes :
      (f : Db T.expr Tipe → Db T.expr Tipe) (tl : Toplevel T Tipe)
      → is_handler tl.data_ ≡ false
      → is_none (on_db {T = T} f tl) ≡ false
  unfolding on_db
  on_db_passes f tl h = elim (data_cases tl.data_) [
    | inl (d, s) ↦ rw s refl
    | inr (x, s) ↦ absurd (ground arith)
  ]

  set_tl_expr_passes :
      (id : ℕ) (e : T.expr) (tl : Toplevel T Tipe)
      → is_none (set_tl_expr {T = T} L id e tl) ≡ is_handler tl.data_
  unfolding set_tl_expr
  set_tl_expr_passes id e tl = elim (data_cases tl.data_) [
    | inl (d, s) ↦ elim (Option-cases d.active_migration) [
      | inl n ↦ rw (set_tl_expr, s, n) refl
      | inr (am, n) ↦ rw (set_tl_expr, s, n) refl
    ]
    | inr (x, s) ↦ rw s refl
  ]

  all_lem :
      (f : Toplevel T Tipe → Option (Toplevel T Tipe)) (tlid : ℕ) (c : Canvas T Tipe)
      → is_none (apply_to_all_toplevels f tlid c) ≡ (
          is_none (apply_to_toplevel f tlid c.handlers) || is_none (apply_to_toplevel f tlid c.dbs))
  unfolding apply_to_all_toplevels
  all_lem f tlid c = elim (Option-cases (apply_to_toplevel f tlid c.handlers)) [
    | inl n ↦ rw (apply_to_all_toplevels, n) refl
    | inr (h, n) ↦ elim (Option-cases (apply_to_toplevel f tlid c.dbs)) [
      | inl m ↦ rw (apply_to_all_toplevels, n, m) refl
      | inr (d, m) ↦ rw (apply_to_all_toplevels, n, m) refl
    ]
  ]

  module _ (c : Canvas T Tipe) (tlid : ℕ) (s : IsSoundAt tlid (cell tlid c)) where
    db_passes : (f : Db T.expr Tipe → Db T.expr Tipe) → is_none (apply_to_db f tlid c) ≡ false
    unfolding apply_to_db
    db_passes f =
        let passes : is_none (apply_to_toplevel (on_db f) tlid c.dbs) ≡ false =
          toplevel_passes (on_db f) tlid c.dbs false (λ _. refl)
            (λ tl e. on_db_passes f tl ((subst (IsKindAt false tlid) e s.1.0).1)) in
        elim (Option-cases (apply_to_toplevel (on_db f) tlid c.dbs)) [
          | inl n ↦ absurd (ground arith)
          | inr (x, n) ↦ rw (apply_to_db, n) refl
        ]

    moved_passes : (pos : T.pos) → is_none (apply_to_all_toplevels (moved pos) tlid c) ≡ false
    unfolding moved
    moved_passes pos = ground (
      arith,
      all_lem (moved pos) tlid c,
      toplevel_passes (moved pos) tlid c.handlers false (λ _. refl) (λ _ _. refl),
      toplevel_passes (moved pos) tlid c.dbs false (λ _. refl) (λ _ _. refl),
    )

    expr_passes :
        (id : ℕ) (e : T.expr)
        → is_none (apply_to_all_toplevels (set_tl_expr L id e) tlid c)
          ≡ not (is_none (c.handlers tlid))
    expr_passes id e =
        let f : Toplevel T Tipe → Option (Toplevel T Tipe) = set_tl_expr L id e in
        ground (
          arith,
          all_lem f tlid c,
          toplevel_passes f tlid c.handlers (not (is_none (c.handlers tlid)))
              (λ n. ap (λ o. not (is_none o)) n)
              (λ tl n.
                set_tl_expr_passes id e tl
                ∙ (subst (IsKindAt true tlid) n s.0.0).1
                ∙ sym (ap (λ o. not (is_none o)) n)),
          toplevel_passes f tlid c.dbs false (λ _. refl)
              (λ tl n. set_tl_expr_passes id e tl ∙ (subst (IsKindAt false tlid) n s.1.0).1),
        )

    tipe_passes :
        (f : Tipe → Db T.expr Tipe → Db T.expr Tipe) (tipe : Chars)
        → is_none (with_tipe L f tipe tlid c) ≡ is_none (L.tipe_of_string tipe)
    unfolding with_tipe
    tipe_passes f tipe = elim (Option-cases (L.tipe_of_string tipe)) [
      | inl n ↦ rw (with_tipe, n) refl
      | inr (t, n) ↦ rw (with_tipe, n) (db_passes (f t))
    ]

    cols_pass :
        (rbid rfid : ℕ) (cols : List (OrBlank Chars × OrBlank Chars)) (is_new : Bool)
        → is_none (apply_op L is_new (create_db_migration tlid rbid rfid cols) c)
          ≡ is_none (typed_cols L cols)
    unfolding apply_op
    cols_pass rbid rfid cols is_new = elim (Option-cases (typed_cols L cols)) [
      | inl n ↦ rw (apply_op, n) refl
      | inr (t, n) ↦ rw (apply_op, n) (db_passes (create_migration (L.code_blank) rbid rfid t))
    ]

  created :
      (is_new : Bool) (tlid : ℕ) (pos : T.pos) (name : Chars) (c : Canvas T Tipe)
      → is_none (apply_op L is_new (create_db tlid pos name) c) ≡ (is_new && no_name name)
  unfolding apply_op
  created is_new tlid pos name c = elim (Bool-cases (is_new && no_name name)) [
    | inl n ↦ rw (apply_op, n) refl
    | inr n ↦ rw (apply_op, n) refl
  ]

  -- On a sound canvas, an operation raises an exception exactly if it is a new CreateDB with an empty
  -- name, or has a type that there is not, or sets an expression in a handler, or is an undo or a
  -- redo. A CreateDBWithBlankOr raises none, whatever its name.
  pub apply_op-refuses :
      (is_new : Bool) (op : Op T) (c : Canvas T Tipe)
      → IsSound c
      → is_none (apply_op L is_new op c) ≡ refuses is_new op c
  unfolding apply_op refuses move_toplevel
  apply_op-refuses is_new (create_db tlid pos name) c s = created is_new tlid pos name c
  apply_op-refuses is_new (add_db_col tlid a b) c s = db_passes c tlid (s tlid) (add_col a b)
  apply_op-refuses is_new (set_db_col_name tlid id name) c s =
      db_passes c tlid (s tlid) (set_col_name id name)
  apply_op-refuses is_new (change_db_col_name tlid id name) c s =
      db_passes c tlid (s tlid) (change_col_name id name)
  apply_op-refuses is_new (set_db_col_type tlid id tipe) c s =
      tipe_passes c tlid (s tlid) (set_col_type id) tipe
  apply_op-refuses is_new (change_db_col_type tlid id tipe) c s =
      tipe_passes c tlid (s tlid) (change_col_type id) tipe
  apply_op-refuses is_new (delete_db_col tlid id) c s = db_passes c tlid (s tlid) (delete_col id)
  apply_op-refuses is_new (deprecated_init_dbm _ _ _ _ _) c s = refl
  apply_op-refuses is_new (create_db_migration tlid rbid rfid cols) c s =
      cols_pass c tlid (s tlid) rbid rfid cols is_new
  apply_op-refuses is_new (add_db_col_to_db_migration tlid a b) c s =
      db_passes c tlid (s tlid) (add_col_to_migration a b)
  apply_op-refuses is_new (set_db_col_name_in_db_migration tlid id name) c s =
      db_passes c tlid (s tlid) (set_col_name_in_migration id name)
  apply_op-refuses is_new (set_db_col_type_in_db_migration tlid id tipe) c s =
      tipe_passes c tlid (s tlid) (set_col_type_in_migration id) tipe
  apply_op-refuses is_new (abandon_db_migration tlid) c s =
      db_passes c tlid (s tlid) abandon_migration
  apply_op-refuses is_new (delete_col_in_db_migration tlid id) c s =
      db_passes c tlid (s tlid) (delete_col_in_migration id)
  apply_op-refuses is_new (set_expr tlid id x) c s = expr_passes c tlid (s tlid) id x
  apply_op-refuses is_new (set_handler _ _ _) c s = refl
  apply_op-refuses is_new (delete_tl _) c s = refl
  apply_op-refuses is_new (move_tl tlid pos) c s = moved_passes c tlid (s tlid) pos
  apply_op-refuses is_new (set_function _) c s = refl
  apply_op-refuses is_new (delete_function _) c s = refl
  apply_op-refuses is_new (tl_savepoint _) c s = refl
  apply_op-refuses is_new (undo_tl _) c s = refl
  apply_op-refuses is_new (redo_tl _) c s = refl
  apply_op-refuses is_new (rename_db_name tlid name) c s =
      db_passes c tlid (s tlid) (rename_db name)
  apply_op-refuses is_new (create_db_with_blank_or _ _ _ _) c s = refl
  apply_op-refuses is_new (delete_tl_forever _) c s = refl
  apply_op-refuses is_new (delete_function_forever _) c s = refl
  apply_op-refuses is_new (set_type _) c s = refl
  apply_op-refuses is_new (delete_type _) c s = refl
  apply_op-refuses is_new (delete_type_forever _) c s = refl
