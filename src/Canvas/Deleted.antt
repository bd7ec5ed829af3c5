-- ===== src/Canvas/Deleted.antt =====
-- What the second of two deletions does: backend/libbackend/canvas.ml.
use dark.Common.{ℕ, ==_iff, ◌≡◌, refl, none, arith, inl, inr, Option-cases}
use dark.Ops.Op.{Payloads}
use dark.Canvas.State.{Canvas, assign, delete_toplevel, delete_function}

-- A toplevel that is deleted twice is not among the deleted ones any more.
pub delete_toplevel_twice :
    {T : Payloads} {Tipe : Type 0} (tlid : ℕ) (c : Canvas T Tipe)
    → ((delete_toplevel tlid (delete_toplevel tlid c)).deleted_handlers tlid ≡ none)
      × ((delete_toplevel tlid (delete_toplevel tlid c)).deleted_dbs tlid ≡ none)
unfolding delete_toplevel assign
delete_toplevel_twice tlid c = (ground (arith, ==_iff tlid tlid), ground (arith, ==_iff tlid tlid))

delete_function-none :
    {T : Payloads} {Tipe : Type 0} (tlid : ℕ) (c : Canvas T Tipe)
    → c.user_functions tlid ≡ none
    → delete_function tlid c ≡ c
unfolding delete_function
delete_function-none tlid c n = rw (delete_function, n) refl

deleted_function :
    {T : Payloads} {Tipe : Type 0} (tlid : ℕ) (c : Canvas T Tipe)
    → (delete_function tlid c).user_functions tlid ≡ none
unfolding delete_function assign
deleted_function tlid c = elim (Option-cases (c.user_functions tlid)) [
  | inl n ↦ rw (delete_function, n) n
  | inr (f, n) ↦ rw (delete_function, n) (ground (arith, ==_iff tlid tlid))
]

-- A function that is deleted twice stays among them.
pub delete_function_twice :
    {T : Payloads} {Tipe : Type 0} (tlid : ℕ) (c : Canvas T Tipe)
    → delete_function tlid (delete_function tlid c) ≡ delete_function tlid c
delete_function_twice tlid c =
    delete_function-none tlid (delete_function tlid c) (deleted_function tlid c)
