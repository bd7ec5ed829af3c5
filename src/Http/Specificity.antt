-- ===== src/Http/Specificity.antt =====
-- How specific routes are: `compare_route_specificity` of backend/libexecution/http.ml. The results -1,
-- 0 and 1 of an OCaml comparison are `lt`, `eq` and `gt`.
use Prim.Native.Nat.{Ordering, lt, eq, gt}
use dark.Common.{
  ◌≡◌, ◌≢◌, ◌↔◌, refl, Bool, false, not, ◌&&◌, List, [], ◌∷◌, map, Chars, arith, ◌==◌,
  if◌then◌else◌,
}

unfoldable pub is_wild : Chars → Bool
is_wild [] = false
is_wild (c ∷ s) = c == b':'

unfoldable pub compare_route_specificity : List Chars → List Chars → Ordering
unfolding is_wild
compare_route_specificity [] [] = eq
compare_route_specificity (l ∷ left) [] = gt
compare_route_specificity [] (r ∷ right) = lt
compare_route_specificity (l ∷ left) (r ∷ right) =
    let rest = compare_route_specificity left right in
    if not (is_wild l) && is_wild r then gt else if is_wild l && not (is_wild r) then lt else rest

abbrev pub flip : Ordering → Ordering
flip lt = gt
flip eq = eq
flip gt = lt

-- What a sort needs of a comparison.
pub record IsPreorder {A : Type 0} (compare : A → A → Ordering) : Type 0 where
  pub flips : (a b : A) → compare b a ≡ flip (compare a b)
  pub trans : (a b c : A) → compare a b ≢ gt → compare b c ≢ gt → compare a c ≢ gt

flips_lem :
    (l r : List Chars) → compare_route_specificity r l ≡ flip (compare_route_specificity l r)
unfolding compare_route_specificity
flips_lem [] [] = refl
flips_lem (x ∷ l) [] = refl
flips_lem [] (y ∷ r) = refl
flips_lem (x ∷ l) (y ∷ r) = ground (arith, flips_lem l r)

trans_lem :
    (a b c : List Chars)
    → compare_route_specificity a b ≢ gt
    → compare_route_specificity b c ≢ gt
    → compare_route_specificity a c ≢ gt
unfolding compare_route_specificity
trans_lem [] b [] p q = λ e. ground arith
trans_lem [] b (z ∷ c) p q = λ e. ground arith
trans_lem (x ∷ a) [] c p q = absurd (p refl)
trans_lem (x ∷ a) (y ∷ b) [] p q = absurd (q refl)
trans_lem (x ∷ a) (y ∷ b) (z ∷ c) p q = λ e. ground (arith, trans_lem a b c)

-- The comparison is a total preorder: it is reversed when its arguments are, and it is transitive.
pub compare_route_specificity-IsPreorder : IsPreorder compare_route_specificity
compare_route_specificity-IsPreorder = record { flips = flips_lem; trans = trans_lem }

-- Two routes are equally specific exactly if they have variables at the same places.
pub compare_route_specificity-eq :
    (l r : List Chars) → (compare_route_specificity l r ≡ eq) ↔ (map is_wild l ≡ map is_wild r)
unfolding compare_route_specificity
compare_route_specificity-eq [] [] = (λ _. refl, λ _. refl)
compare_route_specificity-eq (x ∷ l) [] = ground arith
compare_route_specificity-eq [] (y ∷ r) = ground arith
compare_route_specificity-eq (x ∷ l) (y ∷ r) = ground (arith, compare_route_specificity-eq l r)
