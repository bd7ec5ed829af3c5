-- ===== src/Common/Tests.antt =====
-- Boolean tests on the native numbers, the conditional, and case lemmas.
use Prim.Native.Nat.{ℕ, zero, suc, ◌+◌, ◌<◌, compare, Ordering}
use mathlib.Core.Path.{◌≡◌, refl, ap, ◌∙◌}
use mathlib.Core.Logic.{◌↔◌, ◌⊎◌, inl, inr}
use mathlib.Core.Bool.{Bool, true, false, ◌&&◌}
use mathlib.Core.Option.{Option, none, some}
use native.Mathlib.Omega.{arith}

abbrev pub ltb : ℕ → ℕ → Bool
ltb a b = elim (compare a b) [ Ordering.lt ↦ true | _ ↦ false ]

abbrev pub leb : ℕ → ℕ → Bool
leb a b = elim (compare a b) [ Ordering.gt ↦ false | _ ↦ true ]

infix 50 ◌==◌
abbrev pub ◌==◌ : ℕ → ℕ → Bool
a == b = elim (compare a b) [ Ordering.eq ↦ true | _ ↦ false ]

infix 1 if◌then◌else◌
abbrev pub if◌then◌else◌ {ℓ} : {A : Type ℓ} → Bool → A → A → A
if true then x else y = x
if false then x else y = y

pub ==_iff : (a b : ℕ) → ((a == b) ≡ true) ↔ (a ≡ b)
==_iff a b = ground arith

pub Bool-cases : (b : Bool) → (b ≡ true) ⊎ (b ≡ false)
Bool-cases true = inl refl
Bool-cases false = inr refl

pub Option-cases {ℓ} : {A : Type ℓ} (o : Option A) → (o ≡ none) ⊎ ((a : A) × (o ≡ some a))
Option-cases none = inl refl
Option-cases (some a) = inr (a, refl)

-- Whether each of so many numbers, from the first on, passes a test: this is for evaluation.
unfoldable pub passes : ℕ → ℕ → (ℕ → Bool) → Bool
passes first zero test = true
passes first (suc count) test = let others = passes (first + 1) count test in test first && others

passes_from :
    (first count k : ℕ) (test : ℕ → Bool)
    → passes first count test ≡ true
    → k < count
    → test (first + k) ≡ true
unfolding passes
passes_from first zero k test all lt = absurd (omega arith)
passes_from first (suc count) zero test all lt = ground arith
passes_from first (suc count) (suc k) test all lt =
    ap test (omega arith) ∙ passes_from (first + 1) count k test (ground arith) (omega arith)

-- Tested at 0, 1, … up to a bound, it holds below that.
pub test_below :
    {k : ℕ} (test : ℕ → Bool) (bound : ℕ) → passes 0 bound test ≡ true → k < bound → test k ≡ true
test_below {k} test bound all lt = ap test (omega arith) ∙ passes_from 0 bound k test all lt
