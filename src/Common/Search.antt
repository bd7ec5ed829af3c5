-- ===== src/Common/Search.antt =====
-- The first result that a function gives in a list: `List.findMap` and `Option.orElseLazy`.
use mathlib.Core.List.{flatten}
use dark.Common.{
  ◌≡◌, refl, sym, ap, ◌∙◌, inl, inr, Option, none, some, List, [], ◌∷◌, ◌++◌, map, arith,
  Option-cases,
}
use dark.Common.Lists.{All}

-- The second of two results where there is no first.
abbrev pub or_else {ℓ} : {A : Type ℓ} → Option A → Option A → Option A
or_else none later = later
or_else (some a) later = some a

module _ {ℓ} {B : Type ℓ} where
  pub or_else_assoc : (a b c : Option B) → or_else (or_else a b) c ≡ or_else a (or_else b c)
  or_else_assoc none b c = refl
  or_else_assoc (some x) b c = refl

  pub or_else-none : (a : Option B) → or_else a none ≡ a
  or_else-none none = refl
  or_else-none (some x) = refl

module _ {ℓ κ} {A : Type ℓ} {B : Type κ} where
  abbrev pub find_map : (A → Option B) → List A → Option B
  find_map f [] = none
  find_map f (x ∷ xs) = or_else (f x) (find_map f xs)

  pub find_map-append :
      (f : A → Option B) (xs ys : List A)
      → find_map f (xs ++ ys) ≡ or_else (find_map f xs) (find_map f ys)
  find_map-append f [] ys = refl
  find_map-append f (x ∷ xs) ys =
      ap (or_else (f x)) (find_map-append f xs ys)
      ∙ sym (or_else_assoc (f x) (find_map f xs) (find_map f ys))

  pub find_map_same :
      (f g : A → Option B) (xs : List A) → All (λ x. f x ≡ g x) xs → find_map f xs ≡ find_map g xs
  find_map_same f g [] h = refl
  find_map_same f g (x ∷ xs) (e, h) = rw (e, find_map_same f g xs h) refl

  -- A result is that of an element, none is that of all.
  pub find_map-some :
      (f : A → Option B) (xs : List A) (b : B)
      → find_map f xs ≡ some b
      → (before : List A) × (x : A) × (after : List A) × (xs ≡ before ++ x ∷ after) × (f x ≡ some b)
  find_map-some f [] b e = absurd (ground arith)
  find_map-some f (x ∷ xs) b e = elim (Option-cases (f x)) [
    | inr (c, h) ↦ ([], x, xs, refl, ground arith)
    | inl h ↦
        let (before, y, after, at, found) = find_map-some f xs b (ground arith) in
        (x ∷ before, y, after, ap (◌∷◌ x) at, found)
  ]

module _ {ℓ κ μ} {A : Type ℓ} {B : Type κ} {C : Type μ} where
  pub find_map-map :
      (f : B → Option C) (g : A → B) (xs : List A)
      → find_map f (map g xs) ≡ find_map (λ x. f (g x)) xs
  find_map-map f g [] = refl
  find_map-map f g (x ∷ xs) = ap (or_else (f (g x))) (find_map-map f g xs)

module _ {A B C : Type 0} where
  pub find_map-flatten :
      (f : B → Option C) (g : A → List B) (xs : List A)
      → find_map f (flatten (map g xs)) ≡ find_map (λ x. find_map f (g x)) xs
  unfolding flatten
  find_map-flatten f g [] = refl
  find_map-flatten f g (x ∷ xs) =
      find_map-append f (g x) (flatten (map g xs))
      ∙ ap (or_else (find_map f (g x))) (find_map-flatten f g xs)

abbrev pub map_option {ℓ κ} : {A : Type ℓ} {B : Type κ} → (A → B) → Option A → Option B
map_option f none = none
map_option f (some a) = some (f a)

pub find_map-map_option :
    {A B C : Type 0} (f : B → C) (g : A → Option B) (xs : List A)
    → find_map (λ x. map_option f (g x)) xs ≡ map_option f (find_map g xs)
find_map-map_option f g [] = refl
find_map-map_option f g (x ∷ xs) =
    ap (or_else (map_option f (g x))) (find_map-map_option f g xs)
    ∙ or_else-map_option f (g x) (find_map g xs)
  where
    or_else-map_option :
        {B C : Type 0} (f : B → C) (a b : Option B)
        → or_else (map_option f a) (map_option f b) ≡ map_option f (or_else a b)
    or_else-map_option f none b = refl
    or_else-map_option f (some x) b = refl

module _ {ℓ κ μ} {A : Type ℓ} {B : Type κ} {C : Type μ} where
  pub map-map : (f : B → C) (g : A → B) (xs : List A) → map f (map g xs) ≡ map (λ x. f (g x)) xs
  map-map f g [] = refl
  map-map f g (x ∷ xs) = ap (◌∷◌ (f (g x))) (map-map f g xs)

module _ {ℓ κ} {A : Type ℓ} {B : Type κ} where
  pub map_same : (f g : A → B) (xs : List A) → All (λ x. f x ≡ g x) xs → map f xs ≡ map g xs
  map_same f g [] h = refl
  map_same f g (x ∷ xs) (e, h) = rw (e, map_same f g xs h) refl

-- The first element: `List.head`.
abbrev pub head {ℓ} : {A : Type ℓ} → List A → Option A
head [] = none
head (x ∷ xs) = some x

module _ {ℓ} {A : Type ℓ} where
  pub head-append : (xs ys : List A) → head (xs ++ ys) ≡ or_else (head xs) (head ys)
  head-append [] ys = refl
  head-append (x ∷ xs) ys = refl

module _ {A B : Type 0} where
  pub head-flatten :
      (g : A → List B) (xs : List A) → head (flatten (map g xs)) ≡ find_map (λ x. head (g x)) xs
  unfolding flatten
  head-flatten g [] = refl
  head-flatten g (x ∷ xs) =
      head-append (g x) (flatten (map g xs)) ∙ ap (or_else (head (g x))) (head-flatten g xs)

-- What holds of the elements one by one passes from one predicate to another.
pub All_apply {ℓ κ μ} :
    {A : Type ℓ} (P : A → Type κ) (Q : A → Type μ) (xs : List A)
    → All (λ x. P x → Q x) xs
    → All P xs
    → All Q xs
All_apply P Q [] h k = tt
All_apply P Q (x ∷ xs) (f, h) (p, k) = (f p, All_apply P Q xs h k)

pub All_map {ℓ κ μ} :
    {A : Type ℓ} (P : A → Type κ) (Q : A → Type μ) (xs : List A)
    → ((x : A) → P x → Q x)
    → All P xs
    → All Q xs
All_map P Q [] f h = tt
All_map P Q (x ∷ xs) f (p, h) = (f x p, All_map P Q xs f h)

pub All_always {ℓ κ} : {A : Type ℓ} (P : A → Type κ) (xs : List A) → ((x : A) → P x) → All P xs
All_always P [] f = tt
All_always P (x ∷ xs) f = (f x, All_always P xs f)

pub All_at {ℓ κ} :
    {A : Type ℓ} (P : A → Type κ) (before : List A) (x : A) (after : List A)
    → All P (before ++ x ∷ after)
    → P x
All_at P [] x after (p, _) = p
All_at P (y ∷ before) x after (_, h) = All_at P before x after h
