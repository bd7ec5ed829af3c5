-- ===== src/Canvas/Apply/Add.antt =====
-- `add_ops`: the operations that `preprocess` leaves are applied one by one.
use dark.Common.Search.{All_at}
use dark.Common.{
  ℕ, ◌⊎◌, ◌≡◌, refl, sym, ap, ◌∙◌, subst, true, false, none, some, List, [], ◌∷◌, ◌++◌, arith, inl,
  inr, All, Option-cases,
}
use dark.Ops.Op.{Payloads, Op}
use dark.Ops.Undo.{Entry, preprocess}
use dark.Ops.Undo.Savepoint.{IsEdit}
use dark.Ops.Undo.Reduced.{preprocess-IsEdit}
use dark.Ops.Group.{oplist2tlid_oplists}
use dark.Canvas.State.{Canvas}
use dark.Canvas.Apply.{Language, apply_op, apply_ops, add_ops, marked}
use dark.Canvas.Apply.Invariant.{IsSound}
use dark.Canvas.Apply.Sound.{apply_op-IsSound}
use dark.Canvas.Apply.Refused.{is_none, refuses, apply_op-refuses}

module _ {T : Payloads} {Tipe : Type 0} (L : Language T.expr Tipe) where
  apply_ops-IsSound :
      (ops : List (Entry T)) (c d : Canvas T Tipe)
      → IsSound c
      → apply_ops L ops c ≡ some d
      → IsSound d
  unfolding apply_ops
  apply_ops-IsSound [] c d s e = let same : c ≡ d = ground arith in subst IsSound same s
  apply_ops-IsSound ((is_new, op) ∷ ops) c d s e = elim (Option-cases (apply_op L is_new op c)) [
    | inl n ↦ absurd (ground arith)
    | inr (x, n) ↦ apply_ops-IsSound ops x d (apply_op-IsSound L is_new op c x s n) (ground arith)
  ]

  -- The first operation that is refused, after the others were applied.
  abbrev pub StopsAt : List (Entry T) → Canvas T Tipe → Type 0
  StopsAt ops c =
      (before : List (Entry T)) × (op : Entry T) × (after : List (Entry T)) × (d : Canvas T Tipe)
      × (ops ≡ before ++ op ∷ after)
      × (apply_ops L before c ≡ some d)
      × (refuses L op.0 op.1 d ≡ true)

  stops_at :
      (ops : List (Entry T)) (c : Canvas T Tipe)
      → IsSound c
      → apply_ops L ops c ≡ none
      → StopsAt ops c
  unfolding apply_ops
  stops_at [] c s e = absurd (ground arith)
  stops_at ((is_new, op) ∷ ops) c s e = elim (Option-cases (apply_op L is_new op c)) [
    | inl n ↦ (
      [],
      (is_new, op),
      ops,
      c,
      refl,
      refl,
      sym (apply_op-refuses L is_new op c s) ∙ ap is_none n,
    )
    | inr (x, n) ↦
        let (before, stop, after, d, at, runs, refused) =
          stops_at ops x (apply_op-IsSound L is_new op c x s n) (ground arith) in
        ((is_new, op) ∷ before, stop, after, d, ap (◌∷◌ (is_new, op)) at, ground arith, refused)
  ]

  module _ (dedup : List ℕ → List ℕ) (oldops newops : List (Op T)) (c : Canvas T Tipe)
      (s : IsSound c) where
    -- Where operations are added to a sound canvas without an exception, it is sound afterwards, and
    -- holds all of them, the undone ones too, by toplevels.
    pub add_ops-IsSound :
        (d : Canvas T Tipe)
        → add_ops L dedup oldops newops c ≡ some d
        → IsSound d × (d.ops ≡ oplist2tlid_oplists dedup (oldops ++ newops))
    unfolding add_ops
    add_ops-IsSound d e =
        elim (Option-cases (preprocess (marked false oldops ++ marked true newops))) [
          | inl n ↦ absurd (ground arith)
          | inr (reduced, n) ↦ elim (Option-cases (apply_ops L reduced c)) [
            | inl m ↦ absurd (ground arith)
            | inr (x, m) ↦
                let same : record x { ops = oplist2tlid_oplists dedup (oldops ++ newops) } ≡ d =
                  ground arith in
                (
                  subst IsSound same (apply_ops-IsSound reduced c x s m),
                  sym (ap (λ (y : Canvas T Tipe). y.ops) same),
                )
          ]
        ]

    -- Where the first operation is neither an undo nor a redo, an exception is of `preprocess`, or of
    -- an operation that is refused on the canvas that those before it made, and is no undo or redo.
    pub add_ops_refused :
        (first : Entry T) (rest : List (Entry T))
        → marked false oldops ++ marked true newops ≡ first ∷ rest
        → IsEdit first
        → add_ops L dedup oldops newops c ≡ none
        → (preprocess (marked false oldops ++ marked true newops) ≡ none)
          ⊎ ((reduced : List (Entry T)) × (stop : StopsAt reduced c) × (preprocess
                  (marked false oldops ++ marked true newops)
                ≡ some reduced)
              × IsEdit stop.1)
    unfolding add_ops
    add_ops_refused first rest at edit e =
        elim (Option-cases (preprocess (marked false oldops ++ marked true newops))) [
          | inl n ↦ inl n
          | inr (reduced, n) ↦ elim (Option-cases (apply_ops L reduced c)) [
            | inr (x, m) ↦ absurd (ground arith)
            | inl m ↦
                let stop = stops_at reduced c s m in
                let (before, op, after, d, split, _, _) = stop in
                inr (
                  reduced,
                  stop,
                  n,
                  All_at IsEdit before op after (
                      subst (All IsEdit) split
                        (preprocess-IsEdit first rest reduced edit (ap preprocess (sym at) ∙ n))),
                )
          ]
        ]
