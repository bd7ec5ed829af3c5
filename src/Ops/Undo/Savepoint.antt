-- ===== src/Ops/Undo/Savepoint.antt =====
-- The second step of `preprocess`: what an undo drops.
use mathlib.Core.List.{reverse, reverse-append}
use dark.Common.{
  ℕ, ==_iff, ◌≡◌, refl, sym, ap, ◌∙◌, Bool, true, false, not, Option, none, some, List, [], ◌∷◌,
  ◌++◌, arith, inl, inr, All, All-append, Bool-cases, subst, Option-cases, append_assoc,
}
use dark.Ops.Op.{Payloads, undo_tl, tl_savepoint}
use dark.Ops.Undo.{
  take_while, drop_while, select, Entry, undo_of, redo_of, savepoint_of, is_at, is_other,
  not_savepoint, add_op, remove_pairs, undo, keep_op, keep_ops, preprocess,
}

module _ {A : Type 0} (test : A → Bool) where
  pub select-append : (xs ys : List A) → select test (xs ++ ys) ≡ select test xs ++ select test ys
  select-append [] ys = refl
  select-append (x ∷ xs) ys = ground (arith, select-append xs ys)

  take_while-append :
      (xs : List A) (y : A) (ys : List A)
      → All (λ x. test x ≡ true) xs
      → test y ≡ false
      → take_while test (xs ++ y ∷ ys) ≡ xs
  take_while-append [] y ys h e = rw e refl
  take_while-append (x ∷ xs) y ys (f, h) e = rw f (ap (◌∷◌ x) (take_while-append xs y ys h e))

  drop_while-append :
      (xs : List A) (y : A) (ys : List A)
      → All (λ x. test x ≡ true) xs
      → test y ≡ false
      → drop_while test (xs ++ y ∷ ys) ≡ y ∷ ys
  drop_while-append [] y ys h e = rw e refl
  drop_while-append (x ∷ xs) y ys (f, h) e = rw f (drop_while-append xs y ys h e)

reverse-cons : {A : Type 0} (x : A) (xs : List A) → reverse (x ∷ xs) ≡ reverse xs ++ x ∷ []
reverse-cons x xs = reverse-append (x ∷ []) xs

select_one :
    {A : Type 0} (test : A → Bool) (x : A) (xs : List A)
    → reverse (select test (x ∷ [])) ++ select test xs ≡ select test (x ∷ xs)
select_one test x xs = elim (Bool-cases (test x)) [ inl e ↦ rw e refl | inr e ↦ rw e refl ]

select-reverse :
    {A : Type 0} (test : A → Bool) (xs : List A)
    → reverse (select test (reverse xs)) ≡ select test xs
select-reverse test [] = refl
select-reverse test (x ∷ xs) =
    ap (λ l. reverse (select test l)) (reverse-cons x xs)
    ∙ ap reverse (select-append test (reverse xs) (x ∷ []))
    ∙ reverse-append (select test (reverse xs)) (select test (x ∷ []))
    ∙ ap (◌++◌ (reverse (select test (x ∷ [])))) (select-reverse test xs)
    ∙ select_one test x xs

pub All-reverse : {A : Type 0} (P : A → Type 0) (xs : List A) → All P xs → All P (reverse xs)
All-reverse P [] h = tt
All-reverse P (x ∷ xs) (p, h) =
    subst (All P) (sym (reverse-cons x xs))
      (All-append P (reverse xs) (x ∷ []) (All-reverse P xs h) (p, tt))

module _ {T : Payloads} where
  -- Neither an undo nor a redo.
  abbrev pub IsEdit : Entry T → Type 0
  IsEdit o = (undo_of o.1 ≡ none) × (redo_of o.1 ≡ none)

  -- Behind a list goes another one, which does not begin with a redo.
  abbrev pub followed : List (Entry T) → Option (List (Entry T)) → Option (List (Entry T))
  followed suffix none = none
  followed suffix (some ops) = some (ops ++ suffix)

  add_edit :
      (op s : Entry T) (ops suffix : List (Entry T))
      → redo_of s.1 ≡ none
      → add_op op (ops ++ s ∷ suffix) ≡ followed (s ∷ suffix) (add_op op ops)
  unfolding add_op
  add_edit op s [] suffix h = ground arith
  add_edit op s (next ∷ ops) suffix h = ground arith

  edits_kept :
      (ops : List (Entry T)) → All (λ o. redo_of o.1 ≡ none) ops → remove_pairs ops ≡ some ops
  unfolding remove_pairs add_op
  edits_kept [] h = refl
  edits_kept (op ∷ []) h = refl
  edits_kept (op ∷ next ∷ ops) (_, h) = ground (arith, edits_kept (next ∷ ops) h)

  remove_pairs-append :
      (ops : List (Entry T)) (s : Entry T) (suffix : List (Entry T))
      → redo_of s.1 ≡ none
      → remove_pairs (s ∷ suffix) ≡ some (s ∷ suffix)
      → remove_pairs (ops ++ s ∷ suffix) ≡ followed (s ∷ suffix) (remove_pairs ops)
  unfolding remove_pairs
  remove_pairs-append [] s suffix h e = e
  remove_pairs-append (op ∷ ops) s suffix h e = elim (Option-cases (remove_pairs ops)) [
    | inl f ↦ ground (arith, remove_pairs-append ops s suffix h e)
    | inr (rest, f) ↦
        ground (arith, remove_pairs-append ops s suffix h e, add_edit op s rest suffix h)
  ]

  keep_ops-append :
      (kept xs ys : List (Entry T)) → keep_ops kept (xs ++ ys) ≡ keep_ops (keep_ops kept xs) ys
  unfolding keep_ops
  keep_ops-append kept [] ys = refl
  keep_ops-append kept (x ∷ xs) ys = keep_ops-append (keep_op kept x) xs ys

  pub keep_edit :
      (kept : List (Entry T)) (op : Entry T) → undo_of op.1 ≡ none → keep_op kept op ≡ op ∷ kept
  unfolding keep_op
  keep_edit kept op h = ground arith

  keep_edits :
      (kept edits : List (Entry T))
      → All (λ o. undo_of o.1 ≡ none) edits
      → keep_ops kept edits ≡ reverse edits ++ kept
  unfolding keep_ops keep_op
  keep_edits kept [] h = refl
  keep_edits kept (e ∷ edits) (f, h) =
      ap (λ k. keep_ops k edits) (keep_edit kept e f)
      ∙ keep_edits (e ∷ kept) edits h
      ∙ sym (append_assoc (reverse edits) (e ∷ []) kept)
      ∙ ap (λ l. l ++ kept) (sym (reverse-cons e edits))

  -- An undo drops the operations of its toplevel since its savepoint, and the savepoint.
  undo-append :
      (tlid : ℕ) (n : Bool) (edits kept : List (Entry T))
      → All (λ o. not_savepoint tlid o ≡ true) edits
      → undo tlid (edits ++ (n, tl_savepoint tlid) ∷ kept) ≡ select (is_other tlid) edits ++ kept
  unfolding undo
  undo-append tlid n edits kept h =
      let point : not_savepoint {T = T} tlid (n, tl_savepoint tlid) ≡ false =
        ground (arith, (==_iff tlid tlid).1 refl) in
      rw
        (
          take_while-append (not_savepoint tlid) edits (n, tl_savepoint tlid) kept h point,
          drop_while-append (not_savepoint tlid) edits (n, tl_savepoint tlid) kept h point,
        )
        refl

  -- Neither an undo nor a redo nor a savepoint of the toplevel.
  abbrev pub IsPlainFor : ℕ → Entry T → Type 0
  IsPlainFor tlid o =
      (undo_of o.1 ≡ none) × (redo_of o.1 ≡ none) × (is_at tlid (savepoint_of o.1) ≡ false)

  All-map :
      (P Q : Entry T → Type 0)
      → ((o : Entry T) → P o → Q o)
      → (ops : List (Entry T)) → All P ops
      → All Q ops
  All-map P Q f [] h = tt
  All-map P Q f (o ∷ ops) (p, h) = (f o p, All-map P Q f ops h)

  -- The first step, of operations that an undo follows.
  reduced_undo :
      (ops edits : List (Entry T)) (s n : Bool) (tlid : ℕ)
      → All (IsPlainFor tlid) edits
      → remove_pairs (ops ++ (s, tl_savepoint tlid) ∷ (edits ++ (n, undo_tl tlid) ∷ []))
        ≡ followed ((s, tl_savepoint tlid) ∷ (edits ++ (n, undo_tl tlid) ∷ [])) (remove_pairs ops)
  reduced_undo ops edits s n tlid h =
      let redo_free : All (λ o. redo_of o.1 ≡ none) edits =
        All-map (IsPlainFor tlid) (λ o. redo_of o.1 ≡ none) (λ o p. p.1) edits h in
      let tail_free =
        All-append (λ o. redo_of o.1 ≡ none) edits ((n, undo_tl tlid) ∷ []) redo_free (refl, tt) in
      remove_pairs-append ops (s, tl_savepoint tlid) (edits ++ (n, undo_tl tlid) ∷ []) refl
        (edits_kept ((s, tl_savepoint tlid) ∷ (edits ++ (n, undo_tl tlid) ∷ [])) (refl, tail_free))

  -- The second step, of the same operations.
  kept_undo :
      (reduced edits : List (Entry T)) (s n : Bool) (tlid : ℕ)
      → All (IsPlainFor tlid) edits
      → reverse
          (keep_ops [] (reduced ++ (s, tl_savepoint tlid) ∷ (edits ++ (n, undo_tl tlid) ∷ [])))
        ≡ reverse (keep_ops [] reduced) ++ select (is_other tlid) edits
  unfolding keep_ops keep_op
  kept_undo reduced edits s n tlid h =
      let kept = keep_ops [] reduced in
      let undo_free : All (λ o. undo_of o.1 ≡ none) edits =
        All-map (IsPlainFor tlid) (λ o. undo_of o.1 ≡ none) (λ o p. p.0) edits h in
      let not_saved : All (λ o. not_savepoint tlid o ≡ true) edits =
        All-map (IsPlainFor tlid) (λ o. not_savepoint tlid o ≡ true) (λ o p. ap not p.2) edits h in
      ap reverse (
        keep_ops-append [] reduced ((s, tl_savepoint tlid) ∷ (edits ++ (n, undo_tl tlid) ∷ []))
        ∙ keep_ops-append ((s, tl_savepoint tlid) ∷ kept) edits ((n, undo_tl tlid) ∷ [])
        ∙ ap (undo tlid) (keep_edits ((s, tl_savepoint tlid) ∷ kept) edits undo_free)
        ∙ undo-append tlid s (reverse edits) kept
            (All-reverse (λ o. not_savepoint tlid o ≡ true) edits not_saved))
      ∙ reverse-append (select (is_other tlid) (reverse edits)) kept
      ∙ ap (λ l. reverse kept ++ l) (select-reverse (is_other tlid) edits)

  -- Where the last operation is an undo, and between a savepoint of its toplevel and it there is no undo
  -- and no redo of any toplevel, and no other savepoint of this one: preprocess gives what it gives for
  -- the operations before the savepoint, followed by those between the two that are of other toplevels.
  -- If it raises an exception for those before the savepoint, it raises one here.
  pub undo_to_savepoint :
      (ops edits : List (Entry T)) (s n : Bool) (tlid : ℕ)
      → All (IsPlainFor tlid) edits
      → preprocess (ops ++ (s, tl_savepoint tlid) ∷ (edits ++ (n, undo_tl tlid) ∷ []))
        ≡ followed (select (is_other tlid) edits) (preprocess ops)
  unfolding preprocess
  undo_to_savepoint ops edits s n tlid h = elim (Option-cases (remove_pairs ops)) [
    | inl e ↦ ground (arith, reduced_undo ops edits s n tlid h)
    | inr (reduced, e) ↦
        ground (arith, reduced_undo ops edits s n tlid h, kept_undo reduced edits s n tlid h)
  ]
