-- ===== src/Ops/Undo.antt =====
-- backend/libbackend/undo.ml.
pub mod Pairs
pub mod Savepoint
pub mod Reduced
use mathlib.Core.List.{reverse}
use dark.Common.{
  ℕ, ◌==◌, if◌then◌else◌, Bool, true, false, not, Option, none, some, List, [], ◌∷◌, ◌++◌, length,
}
use dark.Ops.Op.{Payloads, Op, undo_tl, redo_tl, tl_savepoint, tlid_of}

-- `List.take_while`, `List.drop_while`, `List.filter` and `List.tl`, with the default of the last.
module _ {A : Type 0} (test : A → Bool) where
  abbrev pub take_while : List A → List A
  take_while [] = []
  take_while (x ∷ xs) = let rest = take_while xs in if test x then x ∷ rest else []

  abbrev pub drop_while : List A → List A
  drop_while [] = []
  drop_while (x ∷ xs) = let rest = drop_while xs in if test x then rest else x ∷ xs

  abbrev pub select : List A → List A
  select [] = []
  select (x ∷ xs) = let rest = select xs in if test x then x ∷ rest else rest

abbrev pub tail : {A : Type 0} → List A → List A
tail [] = []
tail (x ∷ xs) = xs

-- `op_with_newness`
abbrev pub Entry : Payloads → Type 0
Entry T = Bool × Op T

abbrev pub is_at : ℕ → Option ℕ → Bool
is_at tlid none = false
is_at tlid (some other) = tlid == other

module _ {T : Payloads} where
  -- The patterns of the two steps: the toplevel of an undo, of a redo, and of a savepoint.
  abbrev pub undo_of : Op T → Option ℕ
  undo_of (undo_tl tlid) = some tlid
  undo_of _ = none

  abbrev pub redo_of : Op T → Option ℕ
  redo_of (redo_tl tlid) = some tlid
  redo_of _ = none

  abbrev pub savepoint_of : Op T → Option ℕ
  savepoint_of (tl_savepoint tlid) = some tlid
  savepoint_of _ = none

  -- One step of `List.fold_right`; `none` is the exception.
  unfoldable pub add_op : Entry T → List (Entry T) → Option (List (Entry T))
  add_op op [] = some (op ∷ [])
  add_op op (next ∷ rest) = elim (redo_of next.1) [
    | some rid ↦
        if is_at rid (undo_of op.1)
        then some rest
        else if is_at rid (redo_of op.1)
        then some (op ∷ next ∷ rest)
        else none
    | none ↦ some (op ∷ next ∷ rest)
  ]

  unfoldable pub remove_pairs : List (Entry T) → Option (List (Entry T))
  unfolding add_op
  remove_pairs [] = some []
  remove_pairs (op ∷ ops) = elim (remove_pairs ops) [ none ↦ none | some rest ↦ add_op op rest ]

  abbrev pub not_savepoint : ℕ → Entry T → Bool
  not_savepoint tlid o = not (is_at tlid (savepoint_of o.1))

  abbrev pub is_other : ℕ → Entry T → Bool
  unfolding tlid_of
  is_other tlid o = not (tlid_of o.1 == tlid)

  -- What an undo makes of the operations before it, the last of which comes first.
  unfoldable pub undo : ℕ → List (Entry T) → List (Entry T)
  undo tlid ops =
      select (is_other tlid) (take_while (not_savepoint tlid) ops)
      ++ tail (drop_while (not_savepoint tlid) ops)

  unfoldable pub keep_op : List (Entry T) → Entry T → List (Entry T)
  unfolding undo
  keep_op ops op = elim (undo_of op.1) [ some tlid ↦ undo tlid ops | none ↦ op ∷ ops ]

  -- `List.fold_left`
  unfoldable pub keep_ops : List (Entry T) → List (Entry T) → List (Entry T)
  unfolding keep_op
  keep_ops kept [] = kept
  keep_ops kept (op ∷ ops) = keep_ops (keep_op kept op) ops

  unfoldable pub preprocess : List (Entry T) → Option (List (Entry T))
  unfolding remove_pairs keep_ops
  preprocess ops = elim (remove_pairs ops) [
    | none ↦ none
    | some reduced ↦ some (reverse (keep_ops [] reduced))
  ]

  unfoldable pub undo_count : List (Op T) → ℕ → ℕ
  undo_count ops tlid = length (take_while (λ op. is_at tlid (undo_of op)) (reverse ops))
