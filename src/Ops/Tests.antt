-- ===== src/Ops/Tests.antt =====
-- The theorems about lists of operations at concrete inputs. Code is a number.
use mathlib.Mathlib.Data.List.Defs.{dedup}
use mathlib.Mathlib.Data.List.Dedup.{mem-dedup, Nodup-dedup_self}
use dark.Common.{ℕ_discrete, ℕ, ◌≡◌, refl, true, some, List, [], ◌∷◌, ◌++◌}
use dark.Ops.Op.{Payloads, Op, set_expr, move_tl, undo_tl, redo_tl, tl_savepoint, tlid_of}
use dark.Ops.Group.{
  IsDedup, is_of, oplist2tlid_oplists, tlid_oplists2oplist, tlid_oplists2oplist-oplist2tlid_oplists,
}
use dark.Ops.Undo.{Entry, select, is_other, preprocess}
use dark.Ops.Undo.Pairs.{redo_undone}
use dark.Ops.Undo.Savepoint.{followed, undo_to_savepoint}

abbrev numbers : Payloads
numbers = record { pos = ℕ; expr = ℕ; metadata = ℕ; definition = ℕ }

-- Code for one of two toplevels.
abbrev edit : ℕ → ℕ → Entry numbers
edit tlid code = (true, set_expr tlid 0 code)

abbrev savepoint : ℕ → Entry numbers
savepoint tlid = (true, tl_savepoint tlid)

abbrev undo_now : ℕ → Entry numbers
undo_now tlid = (true, undo_tl tlid)

abbrev redo_now : ℕ → Entry numbers
redo_now tlid = (true, redo_tl tlid)

abbrev before : List (Entry numbers)
before = savepoint 1 ∷ edit 1 10 ∷ savepoint 2 ∷ edit 2 20 ∷ []

abbrev since : List (Entry numbers)
since = edit 1 11 ∷ edit 2 21 ∷ []

undone_one :
    preprocess (before ++ savepoint 1 ∷ (since ++ undo_now 1 ∷ []))
    ≡ some (savepoint 1 ∷ edit 1 10 ∷ savepoint 2 ∷ edit 2 20 ∷ edit 2 21 ∷ [])
unfolding preprocess tlid_of
undone_one = refl

-- A redo with nothing before it is not refused.
first_redo : preprocess (redo_now 1 ∷ []) ≡ some (redo_now 1 ∷ [])
unfolding preprocess
first_redo = refl

undo_to_savepoint_example :
    preprocess (before ++ savepoint 1 ∷ (since ++ undo_now 1 ∷ []))
    ≡ followed (select (is_other 1) since) (preprocess before)
undo_to_savepoint_example =
    undo_to_savepoint before since true true 1 ((refl, refl, refl), ((refl, refl, refl), tt))

redo_undone_example :
    preprocess (before ++ undo_now 1 ∷ redo_now 1 ∷ edit 1 11 ∷ [])
    ≡ preprocess (before ++ edit 1 11 ∷ [])
unfolding tlid_of
redo_undone_example = redo_undone before (edit 1 11 ∷ []) true true 1 (refl, tt)

abbrev distinct_ids : List ℕ → List ℕ
distinct_ids = dedup ℕ_discrete

distinct_ids-IsDedup : IsDedup distinct_ids
distinct_ids-IsDedup = record {
  same = λ xs x. mem-dedup ℕ_discrete;
  once = λ xs. Nodup-dedup_self ℕ_discrete xs;
}

abbrev mixed : List (Op numbers)
mixed = tl_savepoint 2 ∷ move_tl 1 5 ∷ set_expr 2 0 20 ∷ []

group_example :
    select (is_of 2) (tlid_oplists2oplist (oplist2tlid_oplists distinct_ids mixed))
    ≡ select (is_of 2) mixed
group_example = tlid_oplists2oplist-oplist2tlid_oplists distinct_ids distinct_ids-IsDedup mixed 2
