-- ===== src/Canvas/Apply/Cells.antt =====
-- What a canvas holds under one id, and that an operation changes nothing under the other ids.
use dark.Common.{
  ℕ, ◌⊎◌, ◌==◌, ◌≡◌, refl, ap, ◌∙◌, false, Option, none, some, arith, inl, inr, Option-cases,
}
use dark.Ops.Op.{Payloads, UserFn, UserTipe}
use dark.Canvas.Db.{Db}
use dark.Canvas.State.{
  Canvas, Toplevel, IdMap, TlData, assign, apply_to_toplevel, apply_to_all_toplevels, apply_to_db,
  on_db,
}
use dark.Canvas.State

pub record Cell (T : Payloads) (Tipe : Type 0) : Type 0 where
  pub handlers : Option (Toplevel T Tipe)
  pub dbs : Option (Toplevel T Tipe)
  pub user_functions : Option (UserFn T)
  pub user_tipes : Option (UserTipe T)
  pub deleted_handlers : Option (Toplevel T Tipe)
  pub deleted_dbs : Option (Toplevel T Tipe)
  pub deleted_user_functions : Option (UserFn T)
  pub deleted_user_tipes : Option (UserTipe T)

pub assign_other :
    {A : Type 0} (m : IdMap A) (key : ℕ) (value : Option A) (id : ℕ)
    → (id == key) ≡ false
    → assign m key value id ≡ m id
unfolding assign
assign_other m key value id h = ground arith

module _ {T : Payloads} {Tipe : Type 0} where
  abbrev pub cell : ℕ → Canvas T Tipe → Cell T Tipe
  cell id c = record {
    handlers = c.handlers id;
    dbs = c.dbs id;
    user_functions = c.user_functions id;
    user_tipes = c.user_tipes id;
    deleted_handlers = c.deleted_handlers id;
    deleted_dbs = c.deleted_dbs id;
    deleted_user_functions = c.deleted_user_functions id;
    deleted_user_tipes = c.deleted_user_tipes id;
  }

  module _ (id tlid : ℕ) (other : (id == tlid) ≡ false) where
    pub cell-set_db :
        (pos : T.pos) (d : TlData T Tipe) (c : Canvas T Tipe)
        → cell id (State.set_db tlid pos d c) ≡ cell id c
    unfolding State.set_db assign
    cell-set_db pos d c = rw other refl

    pub cell-set_handler :
        (pos : T.pos) (d : TlData T Tipe) (c : Canvas T Tipe)
        → cell id (State.set_handler tlid pos d c) ≡ cell id c
    unfolding State.set_handler assign
    cell-set_handler pos d c = rw other refl

    pub cell-delete_function :
        (c : Canvas T Tipe) → cell id (State.delete_function tlid c) ≡ cell id c
    unfolding State.delete_function assign
    cell-delete_function c = elim (Option-cases (c.user_functions tlid)) [
      | inl n ↦ rw (State.delete_function, n) refl
      | inr (x, s) ↦ rw (State.delete_function, s, other) refl
    ]

    pub cell-delete_tipe : (c : Canvas T Tipe) → cell id (State.delete_tipe tlid c) ≡ cell id c
    unfolding State.delete_tipe assign
    cell-delete_tipe c = elim (Option-cases (c.user_tipes tlid)) [
      | inl n ↦ rw (State.delete_tipe, n) refl
      | inr (x, s) ↦ rw (State.delete_tipe, s, other) refl
    ]

    pub cell-delete_function_forever :
        (c : Canvas T Tipe) → cell id (State.delete_function_forever tlid c) ≡ cell id c
    unfolding State.delete_function_forever assign
    cell-delete_function_forever c = rw other refl

    pub cell-delete_tipe_forever :
        (c : Canvas T Tipe) → cell id (State.delete_tipe_forever tlid c) ≡ cell id c
    unfolding State.delete_tipe_forever assign
    cell-delete_tipe_forever c = rw other refl

    pub cell-delete_tl_forever :
        (c : Canvas T Tipe) → cell id (State.delete_tl_forever tlid c) ≡ cell id c
    unfolding State.delete_tl_forever assign
    cell-delete_tl_forever c = rw other refl

    pub cell-delete_toplevel :
        (c : Canvas T Tipe) → cell id (State.delete_toplevel tlid c) ≡ cell id c
    unfolding State.delete_toplevel assign
    cell-delete_toplevel c = rw other refl

  -- What an operation on a toplevel leaves under its id.
  abbrev pub ChangedBy :
      (Toplevel T Tipe → Option (Toplevel T Tipe))
      → Option (Toplevel T Tipe)
      → Option (Toplevel T Tipe)
      → Type 0
  ChangedBy f before after =
      ((before ≡ none) × (after ≡ none))
      ⊎ ((tl : Toplevel T Tipe) × (changed : Toplevel T Tipe) × (before ≡ some tl)
          × (f tl ≡ some changed)
          × (after ≡ some changed))

  pub apply_to_toplevel_cases :
      (f : Toplevel T Tipe → Option (Toplevel T Tipe)) (tlid : ℕ)
      (tls result : IdMap (Toplevel T Tipe))
      → apply_to_toplevel f tlid tls ≡ some result
      → (value : Option (Toplevel T Tipe)) × (assign tls tlid value ≡ result)
        × ChangedBy f (tls tlid) value
  unfolding apply_to_toplevel
  apply_to_toplevel_cases f tlid tls result e = elim (Option-cases (tls tlid)) [
    | inl n ↦ (none, ground arith, inl (n, refl))
    | inr (tl, s) ↦ elim (Option-cases (f tl)) [
      | inl g ↦ absurd (ground arith)
      | inr (changed, g) ↦ (some changed, ground arith, inr (tl, changed, s, g, refl))
    ]
  ]

  pub apply_to_db_cases :
      (f : Db T.expr Tipe → Db T.expr Tipe) (tlid : ℕ) (c d : Canvas T Tipe)
      → apply_to_db f tlid c ≡ some d
      → (value : Option (Toplevel T Tipe)) × (record c { dbs = assign c.dbs tlid value } ≡ d)
        × ChangedBy (on_db f) (c.dbs tlid) value
  unfolding apply_to_db
  apply_to_db_cases f tlid c d e = elim (Option-cases (apply_to_toplevel (on_db f) tlid c.dbs)) [
    | inl n ↦ absurd (ground arith)
    | inr (dbs_, s) ↦
        let (value, same, how) = apply_to_toplevel_cases (on_db f) tlid c.dbs dbs_ s in
        let at : record c { dbs = dbs_ } ≡ d = ground arith in
        (value, ap (λ m. record c { dbs = m }) same ∙ at, how)
  ]

  pub apply_to_all_cases :
      (f : Toplevel T Tipe → Option (Toplevel T Tipe)) (tlid : ℕ) (c d : Canvas T Tipe)
      → apply_to_all_toplevels f tlid c ≡ some d
      → (h : Option (Toplevel T Tipe)) × (v : Option (Toplevel T Tipe)) × (record c {
        handlers = assign c.handlers tlid h;
        dbs = assign c.dbs tlid v;
      }
          ≡ d)
        × ChangedBy f (c.handlers tlid) h
        × ChangedBy f (c.dbs tlid) v
  unfolding apply_to_all_toplevels
  apply_to_all_cases f tlid c d e = elim (Option-cases (apply_to_toplevel f tlid c.handlers)) [
    | inl n ↦ absurd (ground arith)
    | inr (handlers_, s) ↦ elim (Option-cases (apply_to_toplevel f tlid c.dbs)) [
      | inl n ↦ absurd (ground arith)
      | inr (dbs_, t) ↦
          let (h, same_h, how_h) = apply_to_toplevel_cases f tlid c.handlers handlers_ s in
          let (v, same_v, how_v) = apply_to_toplevel_cases f tlid c.dbs dbs_ t in
          let at : record c { handlers = handlers_; dbs = dbs_ } ≡ d = ground arith in
          (h, v, (λ i. record c { handlers = same_h i; dbs = same_v i }) ∙ at, how_h, how_v)
    ]
  ]
