-- ===== src/Fluid/Update/Laws.antt =====
-- What `update` does, in terms of `find`.
use dark.Common.Search.{
  find_map, find_map_same, find_map-map, find_map-map_option, map_option, All_apply,
}
use dark.Common.{
  ℕ, ◌≡◌, sym, ap, ◌∙◌, inl, inr, false, Option, none, some, List, [], ◌∷◌, arith, ◌==◌, ==_iff,
  if◌then◌else◌, All, Bool-cases, Option-cases,
}
use dark.Fluid.Expr.{Expr, children, to_id, deprecated_walk}
use dark.Fluid.Induct.{induct}
use dark.Fluid.Walk.{to_id-deprecated_walk, children-deprecated_walk, deprecated_walk_fixed}
use dark.Fluid.Find.{find, find-children}
use dark.Fluid.Update.{run, run-deprecated_walk, same_test}

pub none_of_children :
    (target : ℕ) (cs : List Expr)
    → find_map (find target) cs ≡ none
    → All (λ c. find target c ≡ none) cs
none_of_children target [] e = tt
none_of_children target (c ∷ cs) e = elim (Option-cases (find target c)) [
  | inl h ↦ (h, none_of_children target cs (ground arith))
  | inr (x, h) ↦ absurd (ground arith)
]

pub other_id :
    (target : ℕ) (e : Expr) (x : Option Expr)
    → (if to_id e == target then some e else x) ≡ none
    → ((target == to_id e) ≡ false) × (x ≡ none)
other_id target e x h = elim (Bool-cases (to_id e == target)) [
  | inl t ↦ absurd (ground arith)
  | inr n ↦ (same_test target (to_id e) ∙ n, ground arith)
]

-- Where no expression has the id, nothing changes.
pub run_missing :
    (f : Expr → Expr) (target : ℕ) (e : Expr) → find target e ≡ none → run f target e ≡ e
run_missing f target =
    induct (λ e. find target e ≡ none → run f target e ≡ e)
      (λ e ih missing.
        let (other, deeper) =
          other_id target e (find_map (find target) (children e))
            (sym (find-children target e) ∙ missing) in
        run-deprecated_walk f target e
        ∙ ap (λ b. if b then f e else deprecated_walk (run f target) e) other
        ∙ deprecated_walk_fixed (run f target) e (
            All_apply (λ c. find target c ≡ none) (λ c. run f target c ≡ c) (children e) ih
              (none_of_children target (children e) deeper)))

-- An expression with the id is what is found in it; else it is sought in the children.
pub find_here : (target : ℕ) (e : Expr) → to_id e ≡ target → find target e ≡ some e
find_here target e h = find-children target e ∙ ground (arith, ==_iff (to_id e) target)

pub find_deeper :
    (target : ℕ) (e : Expr)
    → (to_id e == target) ≡ false
    → find target e ≡ find_map (find target) (children e)
find_deeper target e h = find-children target e ∙ ground arith

module _ (f : Expr → Expr) (target : ℕ)
    (keeps : (e : Expr) → to_id e ≡ target → to_id (f e) ≡ target) where
  -- Where it keeps the id, the expression with the id is what the function makes of the one that had
  -- it.
  pub find-run : (e : Expr) → find target (run f target e) ≡ map_option f (find target e)
  find-run =
      induct (λ e. find target (run f target e) ≡ map_option f (find target e))
        (λ e ih. elim (Bool-cases (target == to_id e)) [
          | inl here ↦
              let at : to_id e ≡ target = ground (arith, ==_iff target (to_id e), here) in
              ap (find target) (
                run-deprecated_walk f target e
                ∙ ap (λ b. if b then f e else deprecated_walk (run f target) e) here)
              ∙ find_here target (f e) (keeps e at)
              ∙ sym (ap (map_option f) (find_here target e at))
          | inr other ↦
              let apart : (to_id e == target) ≡ false = same_test (to_id e) target ∙ other in
              let walked : run f target e ≡ deprecated_walk (run f target) e =
                run-deprecated_walk f target e
                ∙ ap (λ b. if b then f e else deprecated_walk (run f target) e) other in
              ap (find target) walked
              ∙ find_deeper target (deprecated_walk (run f target) e)
                  (ap (λ i. i == target) (to_id-deprecated_walk (run f target) e) ∙ apart)
              ∙ ap (find_map (find target)) (children-deprecated_walk (run f target) e)
              ∙ find_map-map (find target) (run f target) (children e)
              ∙ find_map_same (λ c. find target (run f target c))
                  (λ c. map_option f (find target c)) (children e) ih
              ∙ find_map-map_option f (find target) (children e)
              ∙ sym (ap (map_option f) (find_deeper target e apart))
        ])
