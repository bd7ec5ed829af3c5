-- ===== src/Canvas/State.antt =====
-- The state of a canvas, and the functions on it: the first part of backend/libbackend/canvas.ml.
use dark.Common.{ℕ, ◌==◌, Option, none, some, List, if◌then◌else◌}
use dark.Http.Handlers.{Handler}
use dark.Ops.Op.{Payloads, Op, UserFn, UserTipe}
use dark.Canvas.Db.{Db}

-- An `IDMap`, by what is found under each id.
abbrev pub IdMap : Type 0 → Type 0
IdMap A = ℕ → Option A

-- `IDMap.change` with a function that returns this: `IDMap.set` and `IDMap.remove` are cases of it.
unfoldable pub assign : {A : Type 0} → IdMap A → ℕ → Option A → IdMap A
assign m key value id = if id == key then value else m id

module _ (T : Payloads) (Tipe : Type 0) where
  pub data TlData : Type 0 where
    handler : Handler T.expr → TlData
    db : Db T.expr Tipe → TlData

  pub record Toplevel : Type 0 where
    pub tlid : ℕ
    pub pos : T.pos
    pub data_ : TlData

  -- The fields that the operations change.
  pub record Canvas : Type 0 where
    pub ops : List (ℕ × List (Op T))
    pub handlers : IdMap Toplevel
    pub dbs : IdMap Toplevel
    pub user_functions : IdMap (UserFn T)
    pub user_tipes : IdMap (UserTipe T)
    pub deleted_handlers : IdMap Toplevel
    pub deleted_dbs : IdMap Toplevel
    pub deleted_user_functions : IdMap (UserFn T)
    pub deleted_user_tipes : IdMap (UserTipe T)

module _ {T : Payloads} {Tipe : Type 0} where
  unfoldable pub set_db : ℕ → T.pos → TlData T Tipe → Canvas T Tipe → Canvas T Tipe
  unfolding assign
  set_db tlid pos data_ c = record c {
    dbs = assign c.dbs tlid (some (record { tlid = tlid; pos = pos; data_ = data_ }));
    deleted_dbs = assign c.deleted_dbs tlid none;
  }

  unfoldable pub set_handler : ℕ → T.pos → TlData T Tipe → Canvas T Tipe → Canvas T Tipe
  unfolding assign
  set_handler tlid pos data_ c = record c {
    handlers = assign c.handlers tlid (some (record { tlid = tlid; pos = pos; data_ = data_ }));
    deleted_handlers = assign c.deleted_handlers tlid none;
  }

  unfoldable pub set_function : UserFn T → Canvas T Tipe → Canvas T Tipe
  unfolding assign
  set_function user_fn c = record c {
    user_functions = assign c.user_functions user_fn.tlid (some user_fn);
    deleted_user_functions = assign c.deleted_user_functions user_fn.tlid none;
  }

  unfoldable pub set_tipe : UserTipe T → Canvas T Tipe → Canvas T Tipe
  unfolding assign
  set_tipe user_tipe c = record c {
    user_tipes = assign c.user_tipes user_tipe.tlid (some user_tipe);
    deleted_user_tipes = assign c.deleted_user_tipes user_tipe.tlid none;
  }

  unfoldable pub delete_function : ℕ → Canvas T Tipe → Canvas T Tipe
  unfolding assign
  delete_function tlid c = elim (c.user_functions tlid) [
    | none ↦ c
    | some user_fn ↦ record c {
      user_functions = assign c.user_functions tlid none;
      deleted_user_functions = assign c.deleted_user_functions tlid (some user_fn);
    }
  ]

  unfoldable pub delete_function_forever : ℕ → Canvas T Tipe → Canvas T Tipe
  unfolding assign
  delete_function_forever tlid c = record c {
    user_functions = assign c.user_functions tlid none;
    deleted_user_functions = assign c.deleted_user_functions tlid none;
  }

  unfoldable pub delete_tipe : ℕ → Canvas T Tipe → Canvas T Tipe
  unfolding assign
  delete_tipe tlid c = elim (c.user_tipes tlid) [
    | none ↦ c
    | some user_tipe ↦ record c {
      user_tipes = assign c.user_tipes tlid none;
      deleted_user_tipes = assign c.deleted_user_tipes tlid (some user_tipe);
    }
  ]

  unfoldable pub delete_tipe_forever : ℕ → Canvas T Tipe → Canvas T Tipe
  unfolding assign
  delete_tipe_forever tlid c = record c {
    user_tipes = assign c.user_tipes tlid none;
    deleted_user_tipes = assign c.deleted_user_tipes tlid none;
  }

  unfoldable pub delete_tl_forever : ℕ → Canvas T Tipe → Canvas T Tipe
  unfolding assign
  delete_tl_forever tlid c = record c {
    dbs = assign c.dbs tlid none;
    handlers = assign c.handlers tlid none;
    deleted_dbs = assign c.deleted_dbs tlid none;
    deleted_handlers = assign c.deleted_handlers tlid none;
  }

  unfoldable pub delete_toplevel : ℕ → Canvas T Tipe → Canvas T Tipe
  unfolding assign
  delete_toplevel tlid c = record c {
    dbs = assign c.dbs tlid none;
    handlers = assign c.handlers tlid none;
    deleted_dbs = assign c.deleted_dbs tlid (c.dbs tlid);
    deleted_handlers = assign c.deleted_handlers tlid (c.handlers tlid);
  }

  -- A function that raises an exception is `none`.
  unfoldable pub apply_to_toplevel :
      (Toplevel T Tipe → Option (Toplevel T Tipe))
      → ℕ
      → IdMap (Toplevel T Tipe)
      → Option (IdMap (Toplevel T Tipe))
  unfolding assign
  apply_to_toplevel f tlid tls = elim (tls tlid) [
    | none ↦ some (assign tls tlid none)
    | some tl ↦ elim (f tl) [ none ↦ none | some changed ↦ some (assign tls tlid (some changed)) ]
  ]

  unfoldable pub apply_to_all_toplevels :
      (Toplevel T Tipe → Option (Toplevel T Tipe)) → ℕ → Canvas T Tipe → Option (Canvas T Tipe)
  unfolding apply_to_toplevel
  apply_to_all_toplevels f tlid c = elim (apply_to_toplevel f tlid c.handlers) [
    | none ↦ none
    | some handlers_ ↦ elim (apply_to_toplevel f tlid c.dbs) [
      | none ↦ none
      | some dbs_ ↦ some (record c { handlers = handlers_; dbs = dbs_ })
    ]
  ]

  -- `tlf`
  unfoldable pub on_db :
      (Db T.expr Tipe → Db T.expr Tipe) → Toplevel T Tipe → Option (Toplevel T Tipe)
  on_db f tl = elim (tl.data_) [ db d ↦ some (record tl { data_ = db (f d) }) | handler h ↦ none ]

  unfoldable pub apply_to_db :
      (Db T.expr Tipe → Db T.expr Tipe) → ℕ → Canvas T Tipe → Option (Canvas T Tipe)
  unfolding apply_to_toplevel on_db
  apply_to_db f tlid c = elim (apply_to_toplevel (on_db f) tlid c.dbs) [
    | none ↦ none
    | some dbs_ ↦ some (record c { dbs = dbs_ })
  ]

  unfoldable pub moved : T.pos → Toplevel T Tipe → Option (Toplevel T Tipe)
  moved pos tl = some (record tl { pos = pos })

  unfoldable pub move_toplevel : ℕ → T.pos → Canvas T Tipe → Option (Canvas T Tipe)
  unfolding apply_to_all_toplevels moved
  move_toplevel tlid pos c = apply_to_all_toplevels (moved pos) tlid c
