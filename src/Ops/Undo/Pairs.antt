-- ===== src/Ops/Undo/Pairs.antt =====
-- The first step of `preprocess`: undos and redos.
use mathlib.Core.List.{reverse}
use dark.Common.{
  ℕ, ==_iff, ◌≡◌, ◌≢◌, refl, sym, ap, subst, ◌⊎◌, Bool-cases, Bool, true, false, Option, none, some,
  List, [], ◌∷◌, ◌++◌, arith, inl, inr, All, Option-cases,
}
use dark.Ops.Op.{Payloads, Op, undo_tl, redo_tl, tlid_of}
use dark.Ops.Undo.{Entry, undo_of, redo_of, is_at, add_op, remove_pairs, keep_ops, preprocess}

module _ {T : Payloads} where
  redo_tlid : (o : Op T) (rid : ℕ) → redo_of o ≡ some rid → tlid_of o ≡ rid
  unfolding tlid_of
  redo_tlid (redo_tl tlid) rid e = ground arith
  redo_tlid _ rid e = absurd (ground arith)

  undo_not_redo : (o : Op T) (uid : ℕ) → undo_of o ≡ some uid → redo_of o ≡ none
  undo_not_redo (undo_tl tlid) uid e = refl
  undo_not_redo _ uid e = absurd (ground arith)

  -- All operations are of one toplevel.
  abbrev pub AllOf : ℕ → List (Entry T) → Type 0
  AllOf tlid = All (λ o. tlid_of o.1 ≡ tlid)

  -- A step puts the operation in front, or removes it with the redo behind it.
  pub add_op_cases :
      (op : Entry T) (ops result : List (Entry T))
      → add_op op ops ≡ some result
      → (result ≡ op ∷ ops)
        ⊎ ((next : Entry T) × (rest : List (Entry T)) × (ops ≡ next ∷ rest)
            × (result ≡ rest)
            × (undo_of op.1 ≢ none))
  unfolding add_op
  add_op_cases op [] result e = inl (ground arith)
  add_op_cases op (next ∷ rest) result e = elim (Option-cases (redo_of next.1)) [
    | inl f ↦ inl (ground arith)
    | inr (rid, f) ↦ elim (Bool-cases (is_at rid (undo_of op.1))) [
      | inl g ↦ inr (next, rest, refl, ground arith, λ h. ground arith)
      | inr g ↦ inl (ground arith)
    ]
  ]

  add_op-AllOf :
      (tlid : ℕ) (op : Entry T) (ops result : List (Entry T))
      → tlid_of op.1 ≡ tlid
      → AllOf tlid ops
      → add_op op ops ≡ some result
      → AllOf tlid result
  add_op-AllOf tlid op ops result h hs e = elim (add_op_cases op ops result e) [
    | inl f ↦ subst (AllOf tlid) (sym f) (h, hs)
    | inr (next, rest, f, g, _) ↦ subst (AllOf tlid) (sym g) ((subst (AllOf tlid) f hs).1)
  ]

  remove_pairs-AllOf :
      (tlid : ℕ) (ops result : List (Entry T))
      → AllOf tlid ops
      → remove_pairs ops ≡ some result
      → AllOf tlid result
  unfolding remove_pairs
  remove_pairs-AllOf tlid [] result h e =
      let same : [] ≡ result = ground arith in subst (AllOf tlid) same tt
  remove_pairs-AllOf tlid (op ∷ ops) result (h, hs) e = elim (Option-cases (remove_pairs ops)) [
    | inl f ↦ absurd (ground arith)
    | inr (rest, f) ↦
        add_op-AllOf tlid op rest result h (remove_pairs-AllOf tlid ops rest hs f) (ground arith)
  ]

  -- A redo after operations of its toplevel, and the undo before it.
  add_pair :
      (n m : Bool) (tlid : ℕ) (rest : List (Entry T))
      → AllOf tlid rest
      → (add_op (m, redo_tl tlid) rest ≡ some ((m, redo_tl tlid) ∷ rest))
        × (add_op (n, undo_tl tlid) ((m, redo_tl tlid) ∷ rest) ≡ some rest)
  unfolding add_op
  add_pair n m tlid [] h = (refl, rw ((==_iff tlid tlid).1 refl) refl)
  add_pair n m tlid (next ∷ rest) (h, _) = elim (Option-cases (redo_of next.1)) [
    | inl e ↦ (ground arith, rw ((==_iff tlid tlid).1 refl) refl)
    | inr (rid, e) ↦ (
      ground (arith, redo_tlid next.1 rid e, (==_iff rid tlid).1),
      rw ((==_iff tlid tlid).1 refl) refl,
    )
  ]

  pair_removed :
      (n m : Bool) (tlid : ℕ) (rest : List (Entry T))
      → AllOf tlid rest
      → remove_pairs ((n, undo_tl tlid) ∷ (m, redo_tl tlid) ∷ rest) ≡ remove_pairs rest
  unfolding remove_pairs
  pair_removed n m tlid rest h = elim (Option-cases (remove_pairs rest)) [
    | inl e ↦ rw e refl
    | inr (reduced, e) ↦
        let (f, g) = add_pair n m tlid reduced (remove_pairs-AllOf tlid rest reduced h e) in
        rw e (rw f (rw g refl))
  ]

  pub remove_pairs-after :
      (ops xs ys : List (Entry T))
      → remove_pairs xs ≡ remove_pairs ys
      → remove_pairs (ops ++ xs) ≡ remove_pairs (ops ++ ys)
  unfolding remove_pairs
  remove_pairs-after [] xs ys e = e
  remove_pairs-after (op ∷ ops) xs ys e = rw (remove_pairs-after ops xs ys e) refl

  remove_pairs-none :
      (ops xs : List (Entry T)) → remove_pairs xs ≡ none → remove_pairs (ops ++ xs) ≡ none
  unfolding remove_pairs
  remove_pairs-none [] xs e = e
  remove_pairs-none (op ∷ ops) xs e = rw (remove_pairs-none ops xs e) refl

  -- What `preprocess` does after its first step.
  finish : Option (List (Entry T)) → Option (List (Entry T))
  unfolding keep_ops
  finish none = none
  finish (some reduced) = some (reverse (keep_ops [] reduced))

  -- An undo and the redo behind it leave no trace, whatever is before them, if what is behind them
  -- is of their toplevel.
  pub redo_undone :
      (ops rest : List (Entry T)) (n m : Bool) (tlid : ℕ)
      → AllOf tlid rest
      → preprocess (ops ++ (n, undo_tl tlid) ∷ (m, redo_tl tlid) ∷ rest) ≡ preprocess (ops ++ rest)
  unfolding preprocess finish
  redo_undone ops rest n m tlid h = ap finish (
      remove_pairs-after ops ((n, undo_tl tlid) ∷ (m, redo_tl tlid) ∷ rest) rest
        (pair_removed n m tlid rest h))

  refused :
      (op : Entry T) (m : Bool) (tlid : ℕ) (rest : List (Entry T))
      → is_at tlid (undo_of op.1) ≡ false
      → is_at tlid (redo_of op.1) ≡ false
      → AllOf tlid rest
      → remove_pairs (op ∷ (m, redo_tl tlid) ∷ rest) ≡ none
  unfolding remove_pairs
  refused op m tlid rest u r h = elim (Option-cases (remove_pairs rest)) [
    | inl e ↦ rw e refl
    | inr (reduced, e) ↦
        let (f, _) = add_pair true m tlid reduced (remove_pairs-AllOf tlid rest reduced h e) in
        let no : add_op op ((m, redo_tl tlid) ∷ reduced) ≡ none = unfold add_op in ground arith in
        rw e (rw f no)
  ]

  -- A redo is refused if the operation before it is neither an undo nor a redo of its toplevel,
  -- whatever is before them, if what is behind them is of that toplevel.
  pub redo_refused :
      (ops rest : List (Entry T)) (op : Entry T) (m : Bool) (tlid : ℕ)
      → is_at tlid (undo_of op.1) ≡ false
      → is_at tlid (redo_of op.1) ≡ false
      → AllOf tlid rest
      → preprocess (ops ++ op ∷ (m, redo_tl tlid) ∷ rest) ≡ none
  unfolding preprocess finish
  redo_refused ops rest op m tlid u r h =
      ap finish (remove_pairs-none ops _ (refused op m tlid rest u r h))
