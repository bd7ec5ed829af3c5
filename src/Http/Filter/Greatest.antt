-- ===== src/Http/Filter/Greatest.antt =====
-- What `pluck` leaves of a list that is sorted from the greatest element on.
use mathlib.Core.Bool.{Bool-discrete}
use mathlib.Core.List.{
  not-mem-nil, Pairwise, Mem, mem-filter, mem-cons_self, forall_mem-cons, rel_of_Pairwise-cons,
}
use Prim.Native.Nat.{Ordering, lt, eq, gt}
use dark.Common.{◌≡◌, ◌≢◌, ◌↔◌, refl, ◌∙◌, Bool, true, List, [], ◌∷◌, arith}
use dark.Http.Specificity.{IsPreorder, flip}
use dark.Http.Filter.{keep, is_eq, pluck}

-- Those that pass, and belong to the list.
pub keep_iff :
    {A : Type 0} (test : A → Bool) {xs : List A} {x : A}
    → Mem x (keep test xs) ↔ (Mem x xs × (test x ≡ true))
keep_iff test = mem-filter (λ x. Bool-discrete (test x) true)

flip_self : (o : Ordering) → o ≡ flip o → o ≡ eq
flip_self lt e = absurd (ground arith)
flip_self eq e = refl
flip_self gt e = absurd (ground arith)

is_eq_iff : (o : Ordering) → (is_eq o ≡ true) ↔ (o ≡ eq)
is_eq_iff o = ground arith

not_greater : (o : Ordering) → o ≡ eq → o ≢ gt
not_greater lt e = absurd (ground arith)
not_greater eq e = λ f. ground arith
not_greater gt e = absurd (ground arith)

antisymm : (o : Ordering) → o ≢ gt → flip o ≢ gt → o ≡ eq
antisymm lt p q = absurd (q refl)
antisymm eq p q = refl
antisymm gt p q = absurd (p refl)

module _ {A : Type 0} {compare : A → A → Ordering} (order : IsPreorder compare) where
  compare_refl : (a : A) → compare a a ≡ eq
  compare_refl a = flip_self (compare a a) (order.flips a a)

  pluck-keep :
      (a : A) (rest : List A)
      → pluck compare (a ∷ rest) ≡ keep (λ x. is_eq (compare a x)) (a ∷ rest)
  unfolding pluck
  pluck-keep a [] = rw (compare_refl a) refl
  pluck-keep a (b ∷ rest) = rw (compare_refl a) refl

  pluck-nil : (x : A) → ¬ Mem x (pluck compare [])
  unfolding pluck
  pluck-nil x m = not-mem-nil m

  -- No element of the list is greater.
  abbrev pub IsGreatest : A → List A → Type 0
  IsGreatest x xs = (g : A) → Mem g xs → compare g x ≢ gt

  pub pluck_iff :
      (xs : List A) (x : A)
      → Pairwise (λ a b. compare b a ≢ gt) xs
      → Mem x (pluck compare xs) ↔ (Mem x xs × IsGreatest x xs)
  pluck_iff [] x sorted = (λ m. absurd (pluck-nil x m), λ (m, _). absurd (not-mem-nil m))
  pluck_iff (a ∷ rest) x sorted =
      let first : (g : A) → Mem g (a ∷ rest) → compare g a ≢ gt =
        (forall_mem-cons (λ g. hlevel)).1
          (not_greater (compare a a) (compare_refl a), λ g m. rel_of_Pairwise-cons sorted m) in
      let same : A → Bool = λ y. is_eq (compare a y) in
      rw (pluck-keep a rest) (
        λ m.
            let (there, e) = (keep_iff same).0 m in
            let top = (is_eq_iff (compare a x)).0 e in
            (there, λ g k. order.trans g a x (first g k) (not_greater (compare a x) top)),
        λ (m, greatest). (keep_iff same).1 (
          m,
          (is_eq_iff (compare a x)).1 (
              antisymm (compare a x) (greatest a mem-cons_self)
                (λ f. first x m (order.flips a x ∙ f))),
        ),
      )
