-- ===== src/Canvas/Apply/Frame.antt =====
-- An operation changes nothing under the ids of the other toplevels.
use dark.Common.{ℕ, ◌==◌, ◌≡◌, refl, sym, ap, ◌∙◌, Bool, false, Option, some}
use dark.Ops.Op.{Payloads, Op, tlid_of, UserFn, UserTipe}
use dark.Canvas.State.{Canvas, IdMap, Toplevel, assign}
use dark.Canvas.State
use dark.Canvas.Apply.{Language, apply_op}
use dark.Canvas.Apply.Acts.{
  Acts, acts_not, acts_set_handler, acts_set_db, acts_on_db, acts_set_expr, acts_move,
  acts_delete_toplevel, acts_delete_tl_forever, acts_set_function, acts_delete_function,
  acts_delete_function_forever, acts_set_tipe, acts_delete_tipe, acts_delete_tipe_forever,
  apply_op-Acts,
}
use dark.Canvas.Apply.Cells.{
  cell, cell-set_db, cell-set_handler, cell-delete_function, cell-delete_tipe,
  cell-delete_function_forever, cell-delete_tipe_forever, cell-delete_tl_forever,
  cell-delete_toplevel, apply_to_db_cases, apply_to_all_cases,
}

module _ {T : Payloads} {Tipe : Type 0} (L : Language T.expr Tipe) where
  cell-set_function :
      (id : ℕ) (f : UserFn T) (c : Canvas T Tipe)
      → (id == f.tlid) ≡ false
      → cell id (State.set_function f c) ≡ cell id c
  unfolding State.set_function assign
  cell-set_function id f c other = rw other refl

  cell-set_tipe :
      (id : ℕ) (t : UserTipe T) (c : Canvas T Tipe)
      → (id == t.tlid) ≡ false
      → cell id (State.set_tipe t c) ≡ cell id c
  unfolding State.set_tipe assign
  cell-set_tipe id t c other = rw other refl

  -- A change of the two maps of toplevels under another id.
  cell-toplevels :
      (id tlid : ℕ) (h v : Option (Toplevel T Tipe)) (c : Canvas T Tipe)
      → (id == tlid) ≡ false
      → cell id (record c { handlers = assign c.handlers tlid h; dbs = assign c.dbs tlid v })
        ≡ cell id c
  unfolding assign
  cell-toplevels id tlid h v c other = rw other refl

  cell-dbs :
      (id tlid : ℕ) (v : Option (Toplevel T Tipe)) (c : Canvas T Tipe)
      → (id == tlid) ≡ false
      → cell id (record c { dbs = assign c.dbs tlid v }) ≡ cell id c
  unfolding assign
  cell-dbs id tlid v c other = rw other refl

  Acts-cell :
      (id tlid : ℕ) (c d : Canvas T Tipe)
      → (id == tlid) ≡ false
      → Acts L tlid c d
      → cell id d ≡ cell id c
  Acts-cell id tlid c d other (acts_not e) = ap (cell id) (sym e)
  Acts-cell id tlid c d other (acts_set_handler pos h e) =
      ap (cell id) (sym e) ∙ cell-set_handler id tlid other pos _ c
  Acts-cell id tlid c d other (acts_set_db pos x e) =
      ap (cell id) (sym e) ∙ cell-set_db id tlid other pos _ c
  Acts-cell id tlid c d other (acts_on_db f e) =
      let (v, same, _) = apply_to_db_cases f tlid c d e in
      ap (cell id) (sym same) ∙ cell-dbs id tlid v c other
  Acts-cell id tlid c d other (acts_set_expr _ _ e) =
      let (h, v, same, _, _) = apply_to_all_cases _ tlid c d e in
      ap (cell id) (sym same) ∙ cell-toplevels id tlid h v c other
  Acts-cell id tlid c d other (acts_move _ e) =
      let (h, v, same, _, _) = apply_to_all_cases _ tlid c d e in
      ap (cell id) (sym same) ∙ cell-toplevels id tlid h v c other
  Acts-cell id tlid c d other (acts_delete_toplevel e) =
      ap (cell id) (sym e) ∙ cell-delete_toplevel id tlid other c
  Acts-cell id tlid c d other (acts_delete_tl_forever e) =
      ap (cell id) (sym e) ∙ cell-delete_tl_forever id tlid other c
  Acts-cell id tlid c d other (acts_set_function f at e) =
      ap (cell id) (sym e) ∙ cell-set_function id f c (ap (λ k. id == k) at ∙ other)
  Acts-cell id tlid c d other (acts_delete_function e) =
      ap (cell id) (sym e) ∙ cell-delete_function id tlid other c
  Acts-cell id tlid c d other (acts_delete_function_forever e) =
      ap (cell id) (sym e) ∙ cell-delete_function_forever id tlid other c
  Acts-cell id tlid c d other (acts_set_tipe t at e) =
      ap (cell id) (sym e) ∙ cell-set_tipe id t c (ap (λ k. id == k) at ∙ other)
  Acts-cell id tlid c d other (acts_delete_tipe e) =
      ap (cell id) (sym e) ∙ cell-delete_tipe id tlid other c
  Acts-cell id tlid c d other (acts_delete_tipe_forever e) =
      ap (cell id) (sym e) ∙ cell-delete_tipe_forever id tlid other c

  -- What the canvas holds under an id that is not that of the operation stays as it is.
  pub apply_op-cell :
      (is_new : Bool) (op : Op T) (c d : Canvas T Tipe) (id : ℕ)
      → apply_op L is_new op c ≡ some d
      → (id == tlid_of op) ≡ false
      → cell id d ≡ cell id c
  apply_op-cell is_new op c d id e other =
      Acts-cell id (tlid_of op) c d other (apply_op-Acts L is_new op c d e)
