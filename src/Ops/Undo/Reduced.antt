-- ===== src/Ops/Undo/Reduced.antt =====
-- What `preprocess` leaves.
use mathlib.Core.List.{reverse}
use dark.Common.{
  ℕ, ◌≡◌, sym, ap, ◌∙◌, subst, Bool, none, some, List, [], ◌∷◌, arith, length, inl, inr, All,
  All-append, Option-cases, Bool-cases,
}
use dark.Ops.Op.{Payloads}
use dark.Ops.Undo.{
  take_while, drop_while, select, tail, Entry, is_at, undo_of, redo_of, add_op, remove_pairs, undo,
  keep_op, keep_ops, preprocess, not_savepoint, is_other,
}
use dark.Ops.Undo.Pairs.{add_op_cases}
use dark.Ops.Undo.Savepoint.{IsEdit, keep_edit, All-reverse}

module _ {A : Type 0} (P : A → Type 0) (test : A → Bool) where
  All-select : (xs : List A) → All P xs → All P (select test xs)
  All-select [] h = tt
  All-select (x ∷ xs) (p, h) = elim (Bool-cases (test x)) [
    | inl e ↦ rw e (p, All-select xs h)
    | inr e ↦ rw e (All-select xs h)
  ]

  All-take_while : (xs : List A) → All P xs → All P (take_while test xs)
  All-take_while [] h = tt
  All-take_while (x ∷ xs) (p, h) = elim (Bool-cases (test x)) [
    | inl e ↦ rw e (p, All-take_while xs h)
    | inr e ↦ rw e tt
  ]

  All-drop_while : (xs : List A) → All P xs → All P (drop_while test xs)
  All-drop_while [] h = tt
  All-drop_while (x ∷ xs) (p, h) = elim (Bool-cases (test x)) [
    | inl e ↦ rw e (All-drop_while xs h)
    | inr e ↦ rw e (p, h)
  ]

All-tail : {A : Type 0} (P : A → Type 0) (xs : List A) → All P xs → All P (tail xs)
All-tail P [] h = tt
All-tail P (x ∷ xs) (_, h) = h

module _ {T : Payloads} where
  abbrev IsNoRedo : Entry T → Type 0
  IsNoRedo o = redo_of o.1 ≡ none

  -- All the redos are in front.
  abbrev IsFronted : List (Entry T) → Type 0
  IsFronted [] = Unit
  IsFronted (o ∷ ops) = ((redo_of o.1 ≡ none) → All IsNoRedo ops) × IsFronted ops

  front :
      (op : Entry T) (ops result : List (Entry T))
      → IsFronted ops
      → add_op op ops ≡ some result
      → result ≡ op ∷ ops
      → redo_of op.1 ≡ none
      → All IsNoRedo ops
  unfolding add_op
  front op [] result h e f r = tt
  front op (next ∷ rest) result (g, h) e f r = elim (Option-cases (redo_of next.1)) [
    | inl n ↦ (n, g n)
    | inr (rid, n) ↦ elim (Bool-cases (is_at rid (undo_of op.1))) [
      | inl u ↦
          let removed : rest ≡ result = ground arith in
          absurd (omega (arith, ap length (removed ∙ f)))
      | inr u ↦ absurd (ground arith)
    ]
  ]

  add_op-IsFronted :
      (op : Entry T) (ops result : List (Entry T))
      → IsFronted ops
      → add_op op ops ≡ some result
      → IsFronted result
  add_op-IsFronted op ops result h e = elim (add_op_cases op ops result e) [
    | inl f ↦ subst IsFronted (sym f) (front op ops result h e f, h)
    | inr (next, rest, f, g, _) ↦ subst IsFronted (sym g) ((subst IsFronted f h).1)
  ]

  remove_pairs-IsFronted :
      (ops result : List (Entry T)) → remove_pairs ops ≡ some result → IsFronted result
  unfolding remove_pairs
  remove_pairs-IsFronted [] result e =
      let same : [] ≡ result = ground arith in subst IsFronted same tt
  remove_pairs-IsFronted (op ∷ ops) result e = elim (Option-cases (remove_pairs ops)) [
    | inl f ↦ absurd (ground arith)
    | inr (rest, f) ↦
        add_op-IsFronted op rest result (remove_pairs-IsFronted ops rest f) (ground arith)
  ]

  -- No redo is left behind an operation that is neither an undo nor a redo.
  add_edit-IsNoRedo :
      (op : Entry T) (ops result : List (Entry T))
      → IsEdit op
      → IsFronted ops
      → add_op op ops ≡ some result
      → All IsNoRedo result
  add_edit-IsNoRedo op ops result (u, r) h e = elim (add_op_cases op ops result e) [
    | inl f ↦ subst (All IsNoRedo) (sym f) (r, front op ops result h e f r)
    | inr (_, _, _, _, undoes) ↦ absurd (undoes u)
  ]

  undo-IsEdit : (tlid : ℕ) (kept : List (Entry T)) → All IsEdit kept → All IsEdit (undo tlid kept)
  unfolding undo
  undo-IsEdit tlid kept h =
      All-append IsEdit (select (is_other tlid) (take_while (not_savepoint tlid) kept))
        (tail (drop_while (not_savepoint tlid) kept))
        (All-select IsEdit (is_other tlid) (take_while (not_savepoint tlid) kept)
          (All-take_while IsEdit (not_savepoint tlid) kept h))
        (All-tail IsEdit (drop_while (not_savepoint tlid) kept)
          (All-drop_while IsEdit (not_savepoint tlid) kept h))

  keep_undo :
      (kept : List (Entry T)) (op : Entry T) (tlid : ℕ)
      → undo_of op.1 ≡ some tlid
      → keep_op kept op ≡ undo tlid kept
  unfolding keep_op
  keep_undo kept op tlid u = ground arith

  keep_op-IsEdit :
      (kept : List (Entry T)) (op : Entry T)
      → All IsEdit kept
      → redo_of op.1 ≡ none
      → All IsEdit (keep_op kept op)
  keep_op-IsEdit kept op h r = elim (Option-cases (undo_of op.1)) [
    | inl u ↦ subst (All IsEdit) (sym (keep_edit kept op u)) ((u, r), h)
    | inr (tlid, u) ↦ subst (All IsEdit) (sym (keep_undo kept op tlid u)) (undo-IsEdit tlid kept h)
  ]

  keep_ops-IsEdit :
      (kept ops : List (Entry T))
      → All IsEdit kept
      → All IsNoRedo ops
      → All IsEdit (keep_ops kept ops)
  unfolding keep_ops
  keep_ops-IsEdit kept [] h r = h
  keep_ops-IsEdit kept (op ∷ ops) h (r, rs) =
      keep_ops-IsEdit (keep_op kept op) ops (keep_op-IsEdit kept op h r) rs

  -- If the first operation is neither an undo nor a redo, none of those that are left is one: what
  -- `apply_op` takes for an internal error does not happen.
  pub preprocess-IsEdit :
      (first : Entry T) (ops result : List (Entry T))
      → IsEdit first
      → preprocess (first ∷ ops) ≡ some result
      → All IsEdit result
  unfolding preprocess remove_pairs
  preprocess-IsEdit first ops result edit e = elim (Option-cases (remove_pairs ops)) [
    | inl f ↦ absurd (ground arith)
    | inr (rest, f) ↦ elim (Option-cases (add_op first rest)) [
      | inl g ↦ absurd (ground arith)
      | inr (reduced, g) ↦
          let same : reverse (keep_ops [] reduced) ≡ result = ground arith in
          let free =
            add_edit-IsNoRedo first rest reduced edit (remove_pairs-IsFronted ops rest f) g in
          subst (All IsEdit) same
            (All-reverse IsEdit (keep_ops [] reduced) (keep_ops-IsEdit [] reduced tt free))
    ]
  ]
