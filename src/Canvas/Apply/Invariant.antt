-- ===== src/Canvas/Apply/Invariant.antt =====
-- The invariant of a canvas: what lies where, and nothing is both there and deleted.
use dark.Common.{
  ℕ, ◌⊎◌, ◌≡◌, refl, sym, ap, ◌∙◌, subst, Bool, true, false, Option, none, some, arith, inl, inr,
  Option-cases,
}
use dark.Ops.Op.{Payloads}
use dark.Http.Handlers.{Handler}
use dark.Canvas.Db.{Db}
use dark.Canvas.State.{Canvas, Toplevel, TlData, handler, db, on_db, moved}
use dark.Canvas.Apply.{Language, set_tl_expr}
use dark.Canvas.Apply.Cells.{Cell, cell, ChangedBy}

abbrev pub Apart : {A B : Type 0} → Option A → Option B → Type 0
Apart a b = (a ≡ none) ⊎ (b ≡ none)

module _ {T : Payloads} {Tipe : Type 0} where
  abbrev pub is_handler : TlData T Tipe → Bool
  is_handler (handler h) = true
  is_handler (db d) = false

  -- A toplevel is of the kind, and has the id under which it lies.
  abbrev pub IsKindAt : Bool → ℕ → Option (Toplevel T Tipe) → Type 0
  IsKindAt kind id none = Unit
  IsKindAt kind id (some tl) = (tl.tlid ≡ id) × (is_handler tl.data_ ≡ kind)

  -- What is there under an id, and what was deleted.
  abbrev pub IsPair : Bool → ℕ → Option (Toplevel T Tipe) → Option (Toplevel T Tipe) → Type 0
  IsPair kind id live deleted =
      IsKindAt kind id live × IsKindAt kind id deleted × Apart live deleted

  abbrev pub IsSoundAt : ℕ → Cell T Tipe → Type 0
  IsSoundAt id x =
      IsPair true id x.handlers x.deleted_handlers
      × IsPair false id x.dbs x.deleted_dbs
      × Apart x.user_functions x.deleted_user_functions
      × Apart x.user_tipes x.deleted_user_tipes

  abbrev pub IsSound : Canvas T Tipe → Type 0
  IsSound c = (id : ℕ) → IsSoundAt id (cell id c)

  abbrev pub Keeps : (Toplevel T Tipe → Option (Toplevel T Tipe)) → Type 0
  Keeps f =
      (tl changed : Toplevel T Tipe)
      → f tl ≡ some changed
      → (changed.tlid ≡ tl.tlid) × (is_handler changed.data_ ≡ is_handler tl.data_)

  IsKindAt-ChangedBy :
      (f : Toplevel T Tipe → Option (Toplevel T Tipe)) (kind : Bool) (id : ℕ)
      (before after : Option (Toplevel T Tipe))
      → Keeps f
      → IsKindAt kind id before
      → ChangedBy f before after
      → IsKindAt kind id after
  IsKindAt-ChangedBy f kind id before after keeps h (inl (_, e)) =
      subst (IsKindAt kind id) (sym e) tt
  IsKindAt-ChangedBy f kind id before after keeps h (inr (tl, changed, b, e, a)) =
      let (same_id, same_kind) = keeps tl changed e in
      let (at, is) = subst (IsKindAt kind id) b h in
      subst (IsKindAt kind id) (sym a) (same_id ∙ at, same_kind ∙ is)

  Apart-ChangedBy :
      {B : Type 0} (f : Toplevel T Tipe → Option (Toplevel T Tipe))
      (before after : Option (Toplevel T Tipe)) (deleted : Option B)
      → Apart before deleted
      → ChangedBy f before after
      → Apart after deleted
  Apart-ChangedBy f before after deleted h (inl (_, e)) = inl e
  Apart-ChangedBy f before after deleted (inl n) (inr (tl, changed, b, e, a)) =
      absurd (ground arith)
  Apart-ChangedBy f before after deleted (inr n) (inr _) = inr n

  pub IsPair-ChangedBy :
      (f : Toplevel T Tipe → Option (Toplevel T Tipe)) (kind : Bool) (id : ℕ)
      (before after deleted : Option (Toplevel T Tipe))
      → Keeps f
      → IsPair kind id before deleted
      → ChangedBy f before after
      → IsPair kind id after deleted
  IsPair-ChangedBy f kind id before after deleted keeps (k, dk, apart) how = (
    IsKindAt-ChangedBy f kind id before after keeps k how,
    dk,
    Apart-ChangedBy f before after deleted apart how,
  )

  pub data_cases :
      (x : TlData T Tipe)
      → ((d : Db T.expr Tipe) × (x ≡ db d)) ⊎ ((h : Handler T.expr) × (x ≡ handler h))
  data_cases (db d) = inl (d, refl)
  data_cases (handler h) = inr (h, refl)

  -- A toplevel whose data stays of its kind.
  keeps_lem :
      (tl result changed : Toplevel T Tipe)
      → some result ≡ some changed
      → result.tlid ≡ tl.tlid
      → is_handler result.data_ ≡ is_handler tl.data_
      → (changed.tlid ≡ tl.tlid) × (is_handler changed.data_ ≡ is_handler tl.data_)
  keeps_lem tl result changed e at is =
      let same : result ≡ changed = ground arith in
      subst
        (λ (x : Toplevel T Tipe). (x.tlid ≡ tl.tlid) × (is_handler x.data_ ≡ is_handler tl.data_))
        same (at, is)

module _ (T : Payloads) (Tipe : Type 0) where
  pub on_db-Keeps : (f : Db T.expr Tipe → Db T.expr Tipe) → Keeps {T = T} (on_db {T = T} f)
  unfolding on_db
  on_db-Keeps f tl changed e = elim (data_cases tl.data_) [
    | inl (d, s) ↦
        keeps_lem tl (record tl { data_ = db (f d) }) changed (ground arith) refl
          (ap is_handler (sym s))
    | inr (h, s) ↦ absurd (ground arith)
  ]

  pub moved-Keeps : (pos : T.pos) → Keeps {T = T} {Tipe = Tipe} (moved pos)
  unfolding moved
  moved-Keeps pos tl changed e = keeps_lem tl (record tl { pos = pos }) changed e refl refl

  pub set_tl_expr-Keeps :
      (L : Language T.expr Tipe) (id : ℕ) (x : T.expr) → Keeps {T = T} (set_tl_expr L id x)
  unfolding set_tl_expr
  set_tl_expr-Keeps L id x tl changed e = elim (data_cases tl.data_) [
    | inr (h, s) ↦ absurd (ground arith)
    | inl (d, s) ↦ elim (Option-cases d.active_migration) [
      | inl n ↦
          keeps_lem tl (record tl { data_ = db d }) changed (ground arith) refl
            (ap is_handler (sym s))
      | inr (am, n) ↦
          let newam = record am {
            rollback = L.replace_code id x (am.rollback);
            rollforward = L.replace_code id x (am.rollforward);
          } in
          keeps_lem tl (record tl { data_ = db (record d { active_migration = some newam }) })
            changed (ground arith) refl (ap is_handler (sym s))
    ]
  ]
