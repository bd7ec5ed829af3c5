-- ===== src/Http/Pattern/Escape.antt =====
-- Replacing a character does not change how a path is split.
use dark.Common.Split.{split, cons_part, NoSlash}
use dark.Common.{
  ℕ, ◌≡◌, refl, ap, ◌∙◌, true, false, List, [], ◌∷◌, ◌++◌, map, Chars, arith, ◌==◌, Bool-cases, inl,
  inr,
}
use dark.Http.Paths.{nonempty, split_uri_path}
use dark.Http.Specificity.{is_wild}
use dark.Http.Pattern.{string_replace}

-- The first of some parts continues a text.
prepend : Chars → List Chars → List Chars
prepend w [] = w ∷ []
prepend w (part ∷ parts) = (w ++ part) ∷ parts

split-cons : (s : Chars) → (part : Chars) × (parts : List Chars) × (split s ≡ part ∷ parts)
unfolding split
split-cons [] = ([], [], refl)
split-cons (c ∷ s) =
    let (part, parts, e) = split-cons s in
    elim (Bool-cases (c == b'/')) [
      | inl slash ↦ ([], split s, ground arith)
      | inr other ↦ (c ∷ part, parts, ground arith)
    ]

cons_part-prepend :
    (c : ℕ) (w : Chars) (parts : List Chars) → cons_part c (prepend w parts) ≡ prepend (c ∷ w) parts
unfolding prepend
cons_part-prepend c w [] = refl
cons_part-prepend c w (part ∷ parts) = refl

split-append : (w s : Chars) → NoSlash w → split (w ++ s) ≡ prepend w (split s)
unfolding split prepend
split-append [] s h = let (part, parts, e) = split-cons s in rw e refl
split-append (c ∷ w) s (e, h) =
    rw e (ap (cons_part c) (split-append w s h) ∙ cons_part-prepend c w (split s))

module _ (search : ℕ) (replace : Chars) (plain : NoSlash replace)
    (other : (search == b'/') ≡ false) where
  hit :
      (c : ℕ) (s : Chars)
      → (c == search) ≡ true
      → string_replace search replace (c ∷ s) ≡ replace ++ string_replace search replace s
  unfolding string_replace
  hit c s e = rw e refl

  miss :
      (c : ℕ) (s : Chars)
      → (c == search) ≡ false
      → string_replace search replace (c ∷ s) ≡ c ∷ string_replace search replace s
  unfolding string_replace
  miss c s e = rw e refl

  split_plain : (c : ℕ) (s : Chars) → (c == b'/') ≡ false → split (c ∷ s) ≡ cons_part c (split s)
  unfolding split
  split_plain c s e = rw e refl

  split_slash : (c : ℕ) (s : Chars) → (c == b'/') ≡ true → split (c ∷ s) ≡ [] ∷ split s
  unfolding split
  split_slash c s e = rw e refl

  split-string_replace :
      (s : Chars)
      → split (string_replace search replace s) ≡ map (string_replace search replace) (split s)
  unfolding prepend string_replace
  split-string_replace [] = unfold split string_replace in refl
  split-string_replace (c ∷ s) =
      let (part, parts, e) = split-cons s in
      let ih = split-string_replace s in
      elim (Bool-cases (c == search)) [
        | inl found ↦
            ap split (hit c s found)
            ∙ split-append replace (string_replace search replace s) plain
            ∙ ap (prepend replace) ih
            ∙ rw (split_plain c s (ground arith), e, hit c part found) refl
        | inr not_found ↦ ap split (miss c s not_found) ∙ elim (Bool-cases (c == b'/')) [
          | inl slash ↦ split_slash c _ slash ∙ rw (split_slash c s slash) (ap (◌∷◌ []) ih)
          | inr no_slash ↦
              split_plain c _ no_slash
              ∙ rw (split_plain c s no_slash)
                  (ap (cons_part c) ih ∙ rw (e, miss c part not_found) refl)
        ]
      ]

-- A replacement that begins with a backslash leaves no segment empty, and makes no variable.
module _ (search : ℕ) (replace : Chars) (plain : NoSlash replace)
    (other : (search == b'/') ≡ false) where
  nonempty-string_replace :
      (parts : List Chars)
      → nonempty (map (string_replace search (b'\\' ∷ replace)) parts)
        ≡ map (string_replace search (b'\\' ∷ replace)) (nonempty parts)
  unfolding nonempty string_replace
  nonempty-string_replace [] = refl
  nonempty-string_replace ([] ∷ parts) = nonempty-string_replace parts
  nonempty-string_replace ((c ∷ s) ∷ parts) = ground (arith, nonempty-string_replace parts)

  pub split_uri_path-string_replace :
      (path : Chars)
      → split_uri_path (string_replace search (b'\\' ∷ replace) path)
        ≡ map (string_replace search (b'\\' ∷ replace)) (split_uri_path path)
  unfolding split_uri_path
  split_uri_path-string_replace path =
      ap nonempty (split-string_replace search (b'\\' ∷ replace) (refl, plain) other path)
      ∙ nonempty-string_replace (split path)

  pub is_wild-string_replace :
      (s : Chars)
      → (search == b':') ≡ false
      → is_wild (string_replace search (b'\\' ∷ replace) s) ≡ is_wild s
  unfolding is_wild string_replace
  is_wild-string_replace [] h = refl
  is_wild-string_replace (c ∷ s) h = ground arith
