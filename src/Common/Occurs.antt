-- ===== src/Common/Occurs.antt =====
-- Where a word stands in a text, and that `contains` decides it.
use dark.Common.{ℕ, ◌≡◌, refl, ap, inl, inr, true, false, [], ◌∷◌, ◌++◌, Chars, arith, Bool-cases}
use dark.Common.Text.{is_prefix, contains}

-- Between some text before it and some after it.
abbrev pub Occurs : Chars → Chars → Type 0
Occurs word s = (before : Chars) × (after : Chars) × (s ≡ before ++ (word ++ after))

is_prefix_sound : (word s : Chars) → is_prefix word s ≡ true → (after : Chars) × (s ≡ word ++ after)
unfolding is_prefix
is_prefix_sound [] s h = (s, refl)
is_prefix_sound (w ∷ word) [] h = cc
is_prefix_sound (w ∷ word) (c ∷ s) h =
    let same : w ≡ c = ground arith in
    let (after, e) = is_prefix_sound word s (ground arith) in (after, ground arith)

is_prefix-append : (word after : Chars) → is_prefix word (word ++ after) ≡ true
unfolding is_prefix
is_prefix-append [] after = refl
is_prefix-append (w ∷ word) after = ground (arith, is_prefix-append word after)

contains_here : (word s : Chars) → is_prefix word s ≡ true → contains word s ≡ true
unfolding contains
contains_here word [] h = h
contains_here word (c ∷ s) h = ground arith

contains_later :
    (word : Chars) (c : ℕ) (s : Chars) → contains word s ≡ true → contains word (c ∷ s) ≡ true
unfolding contains
contains_later word c s h = ground arith

prefix-Occurs : (word s : Chars) → is_prefix word s ≡ true → Occurs word s
prefix-Occurs word s h = let (after, e) = is_prefix_sound word s h in ([], after, e)

pub contains_sound : (word s : Chars) → contains word s ≡ true → Occurs word s
unfolding contains
contains_sound word [] h = prefix-Occurs word [] h
contains_sound word (c ∷ s) h = elim (Bool-cases (is_prefix word (c ∷ s))) [
  | inl e ↦ prefix-Occurs word (c ∷ s) e
  | inr e ↦
      let (before, after, at) = contains_sound word s (ground arith) in
      (c ∷ before, after, ap (◌∷◌ c) at)
]

pub contains_complete : (word s : Chars) → Occurs word s → contains word s ≡ true
contains_complete word s (before, after, e) = rw e (walk before)
  where
    walk : (b : Chars) → contains word (b ++ (word ++ after)) ≡ true
    walk [] = contains_here word (word ++ after) (is_prefix-append word after)
    walk (c ∷ b) = contains_later word c (b ++ (word ++ after)) (walk b)

pub not_contains : (word s : Chars) → contains word s ≡ false → ¬ Occurs word s
not_contains word s h o = cc (contains_complete word s o)

pub not_Occurs : (word s : Chars) → ¬ Occurs word s → contains word s ≡ false
not_Occurs word s h = elim (Bool-cases (contains word s)) [
  | inl e ↦ absurd (h (contains_sound word s e))
  | inr e ↦ e
]
