-- ===== src/Canvas/Apply/Sound.antt =====
-- Every operation keeps the invariant of a canvas.
use dark.Common.{
  ℕ, ◌==◌, ==_iff, ◌≡◌, refl, sym, subst, Bool, true, false, Option, some, arith, inl, inr,
  Bool-cases, Option-cases,
}
use dark.Ops.Op.{Payloads, Op, tlid_of, UserFn, UserTipe}
use dark.Http.Handlers.{Handler}
use dark.Canvas.Db.{Db}
use dark.Canvas.State.{
  Canvas, IdMap, Toplevel, TlData, handler, db, assign, on_db, moved, apply_to_all_toplevels,
}
use dark.Canvas.State
use dark.Canvas.Apply.{Language, apply_op, set_tl_expr}
use dark.Canvas.Apply.Cells.{cell, apply_to_db_cases, apply_to_all_cases}
use dark.Canvas.Apply.Acts.{
  Acts, acts_not, acts_set_handler, acts_set_db, acts_on_db, acts_set_expr, acts_move,
  acts_delete_toplevel, acts_delete_tl_forever, acts_set_function, acts_delete_function,
  acts_delete_function_forever, acts_set_tipe, acts_delete_tipe, acts_delete_tipe_forever,
  apply_op-Acts,
}
use dark.Canvas.Apply.Frame.{apply_op-cell}
use dark.Canvas.Apply.Invariant.{
  IsPair, IsSoundAt, IsSound, Keeps, IsPair-ChangedBy, on_db-Keeps, moved-Keeps, set_tl_expr-Keeps,
}

same_id : (id : ℕ) → (id == id) ≡ true
same_id id = ground (arith, ==_iff id id)

module _ {T : Payloads} {Tipe : Type 0} (id : ℕ) (c : Canvas T Tipe)
    (s : IsSoundAt id (cell id c)) where
  sound_toplevels :
      (h v : Option (Toplevel T Tipe))
      → IsPair true id h (c.deleted_handlers id)
      → IsPair false id v (c.deleted_dbs id)
      → IsSoundAt id
          (cell id (record c { handlers = assign c.handlers id h; dbs = assign c.dbs id v }))
  unfolding assign
  sound_toplevels h v pair_h pair_v = rw (same_id id) (pair_h, pair_v, s.2, s.3)

  sound_dbs :
      (v : Option (Toplevel T Tipe))
      → IsPair false id v (c.deleted_dbs id)
      → IsSoundAt id (cell id (record c { dbs = assign c.dbs id v }))
  unfolding assign
  sound_dbs v pair = rw (same_id id) (s.0, pair, s.2, s.3)

  sound_set_handler :
      (pos : T.pos) (h : Handler T.expr)
      → IsSoundAt id (cell id (State.set_handler id pos (handler h) c))
  unfolding State.set_handler assign
  sound_set_handler pos h = rw (same_id id) (((refl, refl), tt, inr refl), s.1, s.2, s.3)

  sound_set_db :
      (pos : T.pos) (d : Db T.expr Tipe) → IsSoundAt id (cell id (State.set_db id pos (db d) c))
  unfolding State.set_db assign
  sound_set_db pos d = rw (same_id id) (s.0, ((refl, refl), tt, inr refl), s.2, s.3)

  sound_delete_toplevel : IsSoundAt id (cell id (State.delete_toplevel id c))
  unfolding State.delete_toplevel assign
  sound_delete_toplevel = rw (same_id id) ((tt, s.0.0, inl refl), (tt, s.1.0, inl refl), s.2, s.3)

  sound_delete_tl_forever : IsSoundAt id (cell id (State.delete_tl_forever id c))
  unfolding State.delete_tl_forever assign
  sound_delete_tl_forever = rw (same_id id) ((tt, tt, inl refl), (tt, tt, inl refl), s.2, s.3)

  sound_set_function :
      (f : UserFn T) → f.tlid ≡ id → IsSoundAt id (cell id (State.set_function f c))
  unfolding State.set_function assign
  sound_set_function f at = rw (at, same_id id) (s.0, s.1, inr refl, s.3)

  sound_set_tipe : (t : UserTipe T) → t.tlid ≡ id → IsSoundAt id (cell id (State.set_tipe t c))
  unfolding State.set_tipe assign
  sound_set_tipe t at = rw (at, same_id id) (s.0, s.1, s.2, inr refl)

  sound_delete_function : IsSoundAt id (cell id (State.delete_function id c))
  unfolding State.delete_function assign
  sound_delete_function = elim (Option-cases (c.user_functions id)) [
    | inl n ↦ rw (State.delete_function, n) s
    | inr (f, n) ↦ rw (State.delete_function, n, same_id id) (s.0, s.1, inl refl, s.3)
  ]

  sound_delete_tipe : IsSoundAt id (cell id (State.delete_tipe id c))
  unfolding State.delete_tipe assign
  sound_delete_tipe = elim (Option-cases (c.user_tipes id)) [
    | inl n ↦ rw (State.delete_tipe, n) s
    | inr (t, n) ↦ rw (State.delete_tipe, n, same_id id) (s.0, s.1, s.2, inl refl)
  ]

  sound_delete_function_forever : IsSoundAt id (cell id (State.delete_function_forever id c))
  unfolding State.delete_function_forever assign
  sound_delete_function_forever = rw (same_id id) (s.0, s.1, inl refl, s.3)

  sound_delete_tipe_forever : IsSoundAt id (cell id (State.delete_tipe_forever id c))
  unfolding State.delete_tipe_forever assign
  sound_delete_tipe_forever = rw (same_id id) (s.0, s.1, s.2, inl refl)

sound_all :
    {T : Payloads} {Tipe : Type 0} (id : ℕ) (c d : Canvas T Tipe)
    (f : Toplevel T Tipe → Option (Toplevel T Tipe))
    → Keeps f
    → IsSoundAt id (cell id c)
    → apply_to_all_toplevels f id c ≡ some d
    → IsSoundAt id (cell id d)
sound_all id c d f keeps s e =
    let (h, v, same, how_h, how_v) = apply_to_all_cases f id c d e in
    subst (λ x. IsSoundAt id (cell id x)) same
      (sound_toplevels id c s h v
        (IsPair-ChangedBy f true id (c.handlers id) h (c.deleted_handlers id) keeps s.0 how_h)
        (IsPair-ChangedBy f false id (c.dbs id) v (c.deleted_dbs id) keeps s.1 how_v))

module _ {T : Payloads} {Tipe : Type 0} (L : Language T.expr Tipe) where
  Acts-IsSoundAt :
      (id : ℕ) (c d : Canvas T Tipe)
      → IsSoundAt id (cell id c)
      → Acts L id c d
      → IsSoundAt id (cell id d)
  Acts-IsSoundAt id c d s (acts_not e) = subst (λ x. IsSoundAt id (cell id x)) e s
  Acts-IsSoundAt id c d s (acts_set_handler pos h e) =
      subst (λ x. IsSoundAt id (cell id x)) e (sound_set_handler id c s pos h)
  Acts-IsSoundAt id c d s (acts_set_db pos x e) =
      subst (λ x. IsSoundAt id (cell id x)) e (sound_set_db id c s pos x)
  Acts-IsSoundAt id c d s (acts_on_db f e) =
      let (v, same, how) = apply_to_db_cases f id c d e in
      subst (λ x. IsSoundAt id (cell id x)) same
        (sound_dbs id c s v (
          IsPair-ChangedBy (on_db f) false id (c.dbs id) v (c.deleted_dbs id) (on_db-Keeps T Tipe f)
            s.1 how))
  Acts-IsSoundAt id c d s (acts_set_expr i x e) =
      sound_all id c d (set_tl_expr L i x) (set_tl_expr-Keeps T Tipe L i x) s e
  Acts-IsSoundAt id c d s (acts_move pos e) =
      sound_all id c d (moved pos) (moved-Keeps T Tipe pos) s e
  Acts-IsSoundAt id c d s (acts_delete_toplevel e) =
      subst (λ x. IsSoundAt id (cell id x)) e (sound_delete_toplevel id c s)
  Acts-IsSoundAt id c d s (acts_delete_tl_forever e) =
      subst (λ x. IsSoundAt id (cell id x)) e (sound_delete_tl_forever id c s)
  Acts-IsSoundAt id c d s (acts_set_function f at e) =
      subst (λ x. IsSoundAt id (cell id x)) e (sound_set_function id c s f at)
  Acts-IsSoundAt id c d s (acts_delete_function e) =
      subst (λ x. IsSoundAt id (cell id x)) e (sound_delete_function id c s)
  Acts-IsSoundAt id c d s (acts_delete_function_forever e) =
      subst (λ x. IsSoundAt id (cell id x)) e (sound_delete_function_forever id c s)
  Acts-IsSoundAt id c d s (acts_set_tipe t at e) =
      subst (λ x. IsSoundAt id (cell id x)) e (sound_set_tipe id c s t at)
  Acts-IsSoundAt id c d s (acts_delete_tipe e) =
      subst (λ x. IsSoundAt id (cell id x)) e (sound_delete_tipe id c s)
  Acts-IsSoundAt id c d s (acts_delete_tipe_forever e) =
      subst (λ x. IsSoundAt id (cell id x)) e (sound_delete_tipe_forever id c s)

  -- Every operation keeps the invariant: under each id, handlers and databases are of their kind and
  -- have that id, and nothing is both there and deleted.
  pub apply_op-IsSound :
      (is_new : Bool) (op : Op T) (c d : Canvas T Tipe)
      → IsSound c
      → apply_op L is_new op c ≡ some d
      → IsSound d
  apply_op-IsSound is_new op c d s e id = elim (Bool-cases (id == tlid_of op)) [
    | inl own ↦
        let at : tlid_of op ≡ id = ground (arith, ==_iff id (tlid_of op)) in
        Acts-IsSoundAt id c d (s id)
          (subst (λ k. Acts L k c d) at (apply_op-Acts L is_new op c d e))
    | inr other ↦ subst (IsSoundAt id) (sym (apply_op-cell L is_new op c d id e other)) (s id)
  ]
