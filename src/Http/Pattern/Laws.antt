-- ===== src/Http/Pattern/Laws.antt =====
-- The database selects every handler whose route matches the path of a request.
use dark.Common.Split.{join}
use dark.Common.{
  ℕ, ◌≡◌, ◌≤◌, refl, sym, ap, ◌∙◌, subst, true, false, none, some, List, [], ◌∷◌, ◌++◌, map, length,
  Chars, codes, arith, ◌==◌, ◌||◌, if◌then◌else◌, All, Bool-cases, inl, inr, length-append,
  length-map, append-nil, same_text,
}
use dark.Http.Paths.{slashed, path_of-slashed, route_variable, split_uri_path, path_of}
use dark.Http.Bind.{request_path_matches_route}
use dark.Http.Bind.Matches.{Exact, done, variable, concrete, percent, Matches, exact, longer}
use dark.Http.Bind.Laws.{matched, bind_route_variables_lem}
use dark.Http.Specificity.{is_wild}
use dark.Http.Pattern.{string_replace, pattern_segment, route_to_postgres_pattern, IsLike}
use dark.Http.Pattern.Escape.{split_uri_path-string_replace, is_wild-string_replace}

-- A segment as the two replacements leave it.
escape : Chars → Chars
escape s = string_replace b'_' (codes "\\_") (string_replace b'%' (codes "\\%") s)

-- A segment of a pattern.
piece : Chars → Chars
piece s = if is_wild s then codes "%" else escape s

map-map :
    {A B C : Type 0} (f : B → C) (g : A → B) (xs : List A)
    → map f (map g xs) ≡ map (λ x. f (g x)) xs
map-map f g [] = refl
map-map f g (x ∷ xs) = ap (◌∷◌ (f (g x))) (map-map f g xs)

escape_wild : (s : Chars) → is_wild (escape s) ≡ is_wild s
unfolding escape
escape_wild s =
    is_wild-string_replace b'_' (codes "_") (refl, tt) refl (string_replace b'%' (codes "\\%") s)
      refl
    ∙ is_wild-string_replace b'%' (codes "%") (refl, tt) refl s refl

pieces : (segments : List Chars) → map pattern_segment (map escape segments) ≡ map piece segments
unfolding piece
pieces [] = refl
pieces (s ∷ segments) = rw (escape_wild s) (ap (◌∷◌ (piece s)) (pieces segments))

pattern_pieces :
    (route : Chars) → route_to_postgres_pattern route ≡ path_of (map piece (split_uri_path route))
unfolding route_to_postgres_pattern escape
pattern_pieces route =
    ap (λ parts. path_of (map pattern_segment parts))
      (split_uri_path-string_replace b'_' (codes "_") (refl, tt) refl
          (string_replace b'%' (codes "\\%") route)
        ∙ ap (map (string_replace b'_' (codes "\\_")))
            (split_uri_path-string_replace b'%' (codes "%") (refl, tt) refl route)
        ∙ map-map (string_replace b'_' (codes "\\_")) (string_replace b'%' (codes "\\%"))
            (split_uri_path route))
    ∙ ap path_of (pieces (split_uri_path route))

escape_special :
    (c : ℕ) (s : Chars) → (c == b'%' || c == b'_') ≡ true → escape (c ∷ s) ≡ b'\\' ∷ c ∷ escape s
unfolding escape string_replace
escape_special c s h = ground arith

escape_other :
    (c : ℕ) (s : Chars) → (c == b'%' || c == b'_') ≡ false → escape (c ∷ s) ≡ c ∷ escape s
unfolding escape string_replace
escape_other c s h = ground arith

-- A segment that is not the wildcard of Postgres, and holds no backslash.
abbrev pub IsPlain : Chars → Type 0
IsPlain s = (same_text s (codes "%") ≡ false) × All (λ c. (c == b'\\') ≡ false) s

module _ {Like : Chars → Chars → Type 0} (like : IsLike Like) where
  Like-escape :
      (s pattern text : Chars)
      → All (λ c. (c == b'\\') ≡ false) s
      → Like pattern text
      → Like (escape s ++ pattern) (s ++ text)
  unfolding escape string_replace
  Like-escape [] pattern text h l = l
  Like-escape (c ∷ s) pattern text (e, h) l =
      let rest = Like-escape s pattern text h l in
      elim (Bool-cases (c == b'%' || c == b'_')) [
        | inl special ↦
            subst (λ p. Like (p ++ pattern) (c ∷ (s ++ text))) (sym (escape_special c s special))
              (like.escaped c _ _ rest)
        | inr other ↦
            subst (λ p. Like (p ++ pattern) (c ∷ (s ++ text))) (sym (escape_other c s other))
              (like.character c _ _ (ground arith) rest)
      ]

slashed-join :
    (before : List Chars) (s : Chars) (after : List Chars)
    → slashed (before ++ join (s ∷ after) ∷ []) ≡ slashed (before ++ s ∷ after)
unfolding slashed
slashed-join [] s after = ap (◌∷◌ b'/') (append-nil (join (s ∷ after))) ∙ path_of-slashed s after
slashed-join (b ∷ before) s after = ap (λ t. b'/' ∷ (b ++ t)) (slashed-join before s after)

module _ {Like : Chars → Chars → Type 0} (like : IsLike Like) {D : Type 0} (dstr : Chars → D) where
  wild_variable : (r name : Chars) → route_variable r ≡ some name → is_wild r ≡ true
  unfolding route_variable is_wild
  wild_variable [] name e = ground arith
  wild_variable (c ∷ r) name e = ground arith

  wild_plain : (r : Chars) → route_variable r ≡ none → is_wild r ≡ false
  unfolding route_variable is_wild
  wild_plain [] e = refl
  wild_plain (c ∷ r) e = ground arith

  Like-Exact :
      {route path : List Chars} {bound : List (Chars × D)}
      → Exact dstr route path bound
      → All IsPlain route
      → Like (slashed (map piece route)) (slashed path)
  unfolding slashed piece same_text
  Like-Exact done plain = like.nothing
  Like-Exact (variable {r} {p} {name} {route} {path} v ex) (_, plain) =
      rw (wild_variable r name v)
        (like.character b'/' _ _ refl (like.anything p _ _ (Like-Exact ex plain)))
  Like-Exact (concrete {r} {route} {path} v ex) ((_, h), plain) =
      rw (wild_plain r v)
        (like.character b'/' _ _ refl (Like-escape like r _ _ h (Like-Exact ex plain)))
  Like-Exact (percent ex) ((not_percent, _), plain) = absurd (ground arith)

  path_of_some : (segments : List Chars) → 1 ≤ length segments → path_of segments ≡ slashed segments
  path_of_some [] h = absurd (omega arith)
  path_of_some (s ∷ segments) h = path_of-slashed s segments

  Like-some :
      (route path : List Chars)
      → 1 ≤ length route
      → 1 ≤ length path
      → Like (slashed (map piece route)) (slashed path)
      → Like (path_of (map piece route)) (path_of path)
  Like-some route path hr hp l =
      subst (λ p. Like p (path_of path))
        (sym (path_of_some (map piece route) (omega (arith, length-map route piece))))
        (subst (λ t. Like (slashed (map piece route)) t) (sym (path_of_some path hp)) l)

  Like-Matches :
      (route path : List Chars) (bound : List (Chars × D))
      → Matches dstr route path bound
      → All IsPlain route
      → Like (path_of (map piece route)) (path_of path)
  Like-Matches _ _ _ (exact done) plain = like.character b'/' _ _ refl like.nothing
  Like-Matches _ _ _ (exact (variable {r} {p} {name} {route} {path} v ex)) plain =
      Like-some (r ∷ route) (p ∷ path) (omega arith) (omega arith)
        (Like-Exact (variable v ex) plain)
  Like-Matches _ _ _ (exact (concrete {r} {route} {path} v ex)) plain =
      Like-some (r ∷ route) (r ∷ path) (omega arith) (omega arith)
        (Like-Exact (concrete v ex) plain)
  Like-Matches _ _ _ (exact (percent {p} {route} {path} ex)) plain =
      Like-some (codes "%" ∷ route) (p ∷ path) (omega arith) (omega arith)
        (Like-Exact (percent ex) plain)
  Like-Matches _ _ _ (longer wild front before [] w size two ex) plain = absurd (omega arith)
  Like-Matches _ _ _ (longer wild front before (s ∷ after) w size two ex) plain =
      Like-some (front ++ wild ∷ []) (before ++ s ∷ after)
        (omega (arith, length-append front (wild ∷ [])))
        (omega (arith, length-append before (s ∷ after)))
        (subst (λ t. Like (slashed (map piece (front ++ wild ∷ []))) t)
          (slashed-join before s after) (Like-Exact ex plain))

  -- With `LIKE` as it is documented, the pattern of a route matches every path that the route matches:
  -- no handler is missed. The path has no empty segments, as it is sanitized; the route has no
  -- segment `%` and no backslash.
  pub route_to_postgres_pattern_lem :
      (route path : Chars)
      → All IsPlain (split_uri_path route)
      → path_of (split_uri_path path) ≡ path
      → request_path_matches_route dstr route path ≡ true
      → Like (route_to_postgres_pattern route) path
  route_to_postgres_pattern_lem route path plain sanitized h =
      let (result, e) = matched dstr route path h in
      let (bound, m, _) = (bind_route_variables_lem dstr route path result).0 e in
      subst (λ p. Like p path) (sym (pattern_pieces route))
        (subst (λ t. Like (path_of (map piece (split_uri_path route))) t) sanitized
          (Like-Matches _ _ bound m plain))
