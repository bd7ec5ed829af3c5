-- ===== src/Fluid/Update/Replace/Merged.antt =====
-- What `replace` puts into the tree, and where.
use dark.Common.{
  ℕ, append-nil, ◌≡◌, refl, ap, Bool, true, false, Option, none, some, List, [], ◌∷◌, ◌++◌, arith,
  ◌==◌, ==_iff, All,
}
use dark.Fluid.Expr.{Expr, Exprs, exprs_of, e_pipe, children, to_id}
use dark.Fluid.Find.{find}
use dark.Fluid.Parent.{find_parent}
use dark.Fluid.Parent.Within.{has_child, find_parent-has_child}
use dark.Fluid.Update.{update, is_found}
use dark.Fluid.Update.Replace.{to_exprs, tail, redirected, replace, find-redirected}

-- The first element passes the test, if there is one.
abbrev pub HeadPasses : (Expr → Bool) → List Expr → Type 0
HeadPasses test [] = Unit
HeadPasses test (e ∷ es) = test e ≡ true

-- The list is cut before the first element that passes.
abbrev pub Cut : (Expr → Bool) → List Expr → List Expr × List Expr → Type 0
Cut test es parts =
    (es ≡ parts.0 ++ parts.1) × All (λ e. test e ≡ false) parts.0 × HeadPasses test parts.1

-- What `List.splitWhen` is documented to do.
abbrev pub IsSplitWhen : ((Expr → Bool) → List Expr → List Expr × List Expr) → Type 0
IsSplitWhen split_when = (test : Expr → Bool) (es : List Expr) → Cut test es (split_when test es)

-- A pipe with the expressions of the new one where the first of the old ones with the id was.
abbrev pub Merged : ℕ → ℕ → Exprs → Exprs → Expr → Type 0
Merged target new_id fresh old result =
    (before : List Expr) × (x : Expr) × (after : List Expr) × (exprs_of old ≡ before ++ x ∷ after)
    × All (λ e. (to_id e == target) ≡ false) before
    × (to_id x ≡ target)
    × (result ≡ e_pipe new_id (to_exprs (before ++ exprs_of fresh ++ after)))

-- For a pipe under a pipe, the merged pipe in place of the parent; else the replacement in place of
-- the target.
abbrev pub Replacing : ℕ → Expr → Option Expr → ℕ → Expr → Type 0
Replacing target (e_pipe new_id fresh) (some (e_pipe parent_id old)) place result =
    (place ≡ parent_id) × Merged target new_id fresh old result
Replacing target replacement _ place result = (place ≡ target) × (result ≡ replacement)

module _ (split_when : (Expr → Bool) → List Expr → List Expr × List Expr)
    (splits : IsSplitWhen split_when) where
  no_child :
      (target : ℕ) (es : List Expr)
      → All (λ e. (to_id e == target) ≡ false) es
      → has_child target es ≡ false
  no_child target [] h = refl
  no_child target (e ∷ es) (n, h) = ground (arith, no_child target es h)

  merged :
      (target new_id : ℕ) (fresh old : Exprs) (before rest : List Expr)
      → has_child target (exprs_of old) ≡ true
      → exprs_of old ≡ before ++ rest
      → All (λ e. (to_id e == target) ≡ false) before
      → HeadPasses (λ e. to_id e == target) rest
      → Merged target new_id fresh old
          (e_pipe new_id (to_exprs (before ++ exprs_of fresh ++ tail rest)))
  merged target new_id fresh old before [] h at none_before head = absurd (
      ground (
        arith,
        no_child target before none_before,
        ap (has_child target) at,
        ap (has_child target) (append-nil before),
      ))
  merged target new_id fresh old before (x ∷ after) h at none_before head =
      (before, x, after, at, none_before, ground (arith, ==_iff (to_id x) target), refl)

  redirected-Replacing :
      (replacement : Expr) (target : ℕ) (parent : Option Expr)
      → ((p : Expr) → parent ≡ some p → has_child target (children p) ≡ true)
      → Replacing target replacement parent
          (redirected split_when replacement target parent).0
          (redirected split_when replacement target parent).1
  unfolding redirected children
  redirected-Replacing (e_pipe new_id fresh) target (some (e_pipe parent_id old)) h =
      let test : Expr → Bool = λ nested. to_id nested == target in
      let (at, none_before, head) = splits test (exprs_of old) in
      (refl, merged target new_id fresh old _ _ (h (e_pipe parent_id old) refl) at none_before head)
  redirected-Replacing replacement target _ h = (refl, refl)

  -- With a splitWhen as it is documented, where the target is in the tree and the id of the
  -- replacement is not, replacing updates one place with one expression, which stands in the new tree
  -- under the id of the replacement, and nothing is reported. If the replacement and the parent of the
  -- target are pipes, the place is the parent, and the expression is a pipe of the old expressions
  -- before the first one with the target as its id, then the new ones, then the old ones after it;
  -- else it is the replacement, in place of the target.
  pub find-replace :
      (replacement : Expr) (target : ℕ) (ast : Expr)
      → is_found (find target ast) ≡ true
      → find (to_id replacement) ast ≡ none
      → (place : ℕ) × (result : Expr) × Replacing target replacement
          (find_parent target ast)
          place
          result
        × (replace split_when replacement target ast ≡ update true (λ _. result) place ast)
        × (find (to_id replacement) (replace split_when replacement target ast).ast ≡ some result)
        × ((replace split_when replacement target ast).reported ≡ false)
  unfolding replace
  find-replace replacement target ast h fresh =
      let parent : Option Expr = find_parent target ast in
      let (found, silent) = find-redirected split_when replacement target ast h fresh in
      (
        (redirected split_when replacement target parent).0,
        (redirected split_when replacement target parent).1,
        redirected-Replacing replacement target parent (find_parent-has_child target ast),
        refl,
        found,
        silent,
      )
