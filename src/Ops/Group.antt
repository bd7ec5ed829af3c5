-- ===== src/Ops/Group.antt =====
-- `oplist2tlid_oplists` and `tlid_oplists2oplist` of backend/libserialize/op.ml.
use mathlib.Core.List.{
  Mem, Nodup, Nodup-cons, flatten, mem-cons_self, mem-cons_of_mem, not-mem-nil, dec_mem,
  mem_of_ne_of_mem,
}
use dark.Common.{
  ℕ, ◌==◌, ==_iff, ◌≡◌, ◌≢◌, ◌↔◌, refl, sym, ap, ◌∙◌, subst, ℕ_discrete, append-nil, Bool, true,
  false, List, [], ◌∷◌, ◌++◌, map, arith, inl, inr, Bool-cases,
}
use dark.Ops.Op.{Payloads, Op, tlid_of}
use dark.Ops.Undo.{select}
use dark.Ops.Undo.Savepoint.{select-append}

-- `List.stable_dedup`: what its documentation says, apart from the order.
pub record IsDedup (dedup : List ℕ → List ℕ) : Type 0 where
  pub same : (xs : List ℕ) (x : ℕ) → Mem x (dedup xs) ↔ Mem x xs
  pub once : (xs : List ℕ) → Nodup (dedup xs)

distinct : (a other tlid : ℕ) → other ≢ tlid → (a == other) ≡ true → (a == tlid) ≡ false
distinct a other tlid h e = elim (Bool-cases (a == tlid)) [
  | inl f ↦ absurd (h (sym ((==_iff a other).0 e) ∙ (==_iff a tlid).0 f))
  | inr f ↦ f
]

module _ {T : Payloads} where
  abbrev pub is_of : ℕ → Op T → Bool
  unfolding tlid_of
  is_of tlid op = tlid_of op == tlid

  unfoldable pub oplist2tlid_oplists : (List ℕ → List ℕ) → List (Op T) → List (ℕ × List (Op T))
  unfolding tlid_of
  oplist2tlid_oplists dedup oplist =
      map (λ tlid. (tlid, select (is_of tlid) oplist)) (dedup (map tlid_of oplist))

  unfoldable pub tlid_oplists2oplist : List (ℕ × List (Op T)) → List (Op T)
  unfolding flatten
  tlid_oplists2oplist tos = flatten (map (λ t. t.1) tos)

  select_same :
      (tlid : ℕ) (ops : List (Op T))
      → select (is_of tlid) (select (is_of tlid) ops) ≡ select (is_of tlid) ops
  select_same tlid [] = refl
  select_same tlid (op ∷ ops) = ground (arith, select_same tlid ops)

  select_different :
      (tlid other : ℕ) (ops : List (Op T))
      → other ≢ tlid
      → select (is_of tlid) (select (is_of other) ops) ≡ []
  unfolding is_of
  select_different tlid other [] h = refl
  select_different tlid other (op ∷ ops) h = elim (Bool-cases (tlid_of op == other)) [
    | inl e ↦ rw (e, distinct (tlid_of op) other tlid h e) (select_different tlid other ops h)
    | inr e ↦ rw e (select_different tlid other ops h)
  ]

  select_absent :
      (tlid : ℕ) (ops : List (Op T)) → ¬ Mem tlid (map tlid_of ops) → select (is_of tlid) ops ≡ []
  unfolding is_of
  select_absent tlid [] h = refl
  select_absent tlid (op ∷ ops) h =
      let rest = select_absent tlid ops (λ m. h (mem-cons_of_mem _ m)) in
      elim (Bool-cases (tlid_of op == tlid)) [
        | inl e ↦
            absurd
              (h (subst (λ t. Mem t (map tlid_of (op ∷ ops))) ((==_iff _ _).0 e) mem-cons_self))
        | inr e ↦ rw e rest
      ]

  -- The operations of the groups of some toplevels.
  grouped : List (Op T) → List ℕ → List (Op T)
  unfolding flatten
  grouped ops tlids = flatten (map (λ tlid. select (is_of tlid) ops) tlids)

  flat_grouped :
      (ops : List (Op T)) (tlids : List ℕ)
      → tlid_oplists2oplist (map (λ tlid. (tlid, select (is_of tlid) ops)) tlids)
        ≡ grouped ops tlids
  unfolding tlid_oplists2oplist grouped
  flat_grouped ops [] = refl
  flat_grouped ops (tlid ∷ tlids) = ap (◌++◌ (select (is_of tlid) ops)) (flat_grouped ops tlids)

  grouped_without :
      (tlid : ℕ) (ops : List (Op T)) (tlids : List ℕ)
      → ¬ Mem tlid tlids
      → select (is_of tlid) (grouped ops tlids) ≡ []
  unfolding grouped
  grouped_without tlid ops [] h = refl
  grouped_without tlid ops (k ∷ tlids) h =
      select-append (is_of tlid) (select (is_of k) ops) (grouped ops tlids)
      ∙ rw
          (
            select_different tlid k ops (λ e. h (subst (λ t. Mem t (k ∷ tlids)) e mem-cons_self)),
            grouped_without tlid ops tlids (λ m. h (mem-cons_of_mem _ m)),
          )
          refl

  grouped_with :
      (tlid : ℕ) (ops : List (Op T)) (tlids : List ℕ)
      → Nodup tlids
      → Mem tlid tlids
      → select (is_of tlid) (grouped ops tlids) ≡ select (is_of tlid) ops
  unfolding grouped
  grouped_with tlid ops [] n m = absurd (not-mem-nil m)
  grouped_with tlid ops (k ∷ tlids) n m =
      let (fresh, later) = Nodup-cons.0 n in
      select-append (is_of tlid) (select (is_of k) ops) (grouped ops tlids)
      ∙ elim (ℕ_discrete k tlid) [
        | yes e ↦
            rw (sym e, select_same k ops, grouped_without k ops tlids fresh)
              (append-nil (select (is_of k) ops))
        | no other ↦
            rw
              (
                select_different tlid k ops other,
                grouped_with tlid ops tlids later (mem_of_ne_of_mem (λ e. other (sym e)) m),
              )
              refl
      ]

  -- Splitting a list of operations by toplevels and joining the parts loses none and adds none, and
  -- keeps the order of those of each toplevel.
  pub tlid_oplists2oplist-oplist2tlid_oplists :
      (dedup : List ℕ → List ℕ)
      → IsDedup dedup
      → (oplist : List (Op T)) (tlid : ℕ)
      → select (is_of tlid) (tlid_oplists2oplist (oplist2tlid_oplists dedup oplist))
        ≡ select (is_of tlid) oplist
  unfolding oplist2tlid_oplists
  tlid_oplists2oplist-oplist2tlid_oplists dedup h oplist tlid =
      let tlids = dedup (map tlid_of oplist) in
      ap (select (is_of tlid)) (flat_grouped oplist tlids) ∙ elim (dec_mem ℕ_discrete tlid tlids) [
        | yes m ↦ grouped_with tlid oplist tlids (h.once _) m
        | no m ↦
            grouped_without tlid oplist tlids m
            ∙ sym (select_absent tlid oplist (λ k. m ((h.same _ tlid).1 k)))
      ]
