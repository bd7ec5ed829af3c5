-- ===== src/Http/Paths.antt =====
-- The segments of a path, and the variables of a route.
use dark.Common.Split.{split, join, NoSlash, split-join, split-NoSlash}
use dark.Common.{
  sym, append-nil, ◌++◌, ◌≡◌, ◌≢◌, refl, ap, ◌∙◌, Option, none, some, List, [], ◌∷◌, Chars, arith,
  ◌==◌, if◌then◌else◌, All,
}

-- `List.filter ~f:(fun x -> String.length x > 0)`
unfoldable pub nonempty : List Chars → List Chars
nonempty [] = []
nonempty ([] ∷ parts) = nonempty parts
nonempty ((c ∷ s) ∷ parts) = (c ∷ s) ∷ nonempty parts

unfoldable pub split_uri_path : Chars → List Chars
unfolding nonempty split
split_uri_path path = nonempty (split path)

-- The name behind the prefix `:`.
unfoldable pub route_variable : Chars → Option Chars
route_variable [] = none
route_variable (c ∷ s) = if c == b':' then some s else none

variables : List Chars → List Chars
unfolding route_variable
variables [] = []
variables (segment ∷ rest) = elim (route_variable segment) [
  | none ↦ variables rest
  | some name ↦ name ∷ variables rest
]

unfoldable pub route_variables : Chars → List Chars
unfolding variables split_uri_path
route_variables route = variables (split_uri_path route)

-- A segment of a path.
abbrev pub IsSegment : Chars → Type 0
IsSegment s = (s ≢ []) × NoSlash s

-- The path of some segments, as `"/" ^ String.concat ~sep:"/"` writes it.
abbrev pub path_of : List Chars → Chars
path_of segments = b'/' ∷ join segments

nonempty_segments : (segments : List Chars) → All IsSegment segments → nonempty segments ≡ segments
unfolding nonempty
nonempty_segments [] h = refl
nonempty_segments ([] ∷ rest) ((some_char, _), h) = absurd (some_char refl)
nonempty_segments ((c ∷ s) ∷ rest) (_, h) = ap (◌∷◌ (c ∷ s)) (nonempty_segments rest h)

All-NoSlash : (segments : List Chars) → All IsSegment segments → All NoSlash segments
All-NoSlash [] h = tt
All-NoSlash (s ∷ rest) ((_, no_slash), h) = (no_slash, All-NoSlash rest h)

pub split_uri_path-path_of :
    (segments : List Chars) → All IsSegment segments → split_uri_path (path_of segments) ≡ segments
unfolding split_uri_path
split_uri_path-path_of [] h = refl
split_uri_path-path_of (s ∷ rest) h =
    ap nonempty (split-join s rest (All-NoSlash (s ∷ rest) h)) ∙ nonempty_segments (s ∷ rest) h

nonempty-IsSegment : (parts : List Chars) → All NoSlash parts → All IsSegment (nonempty parts)
unfolding nonempty
nonempty-IsSegment [] h = tt
nonempty-IsSegment ([] ∷ parts) (_, h) = nonempty-IsSegment parts h
nonempty-IsSegment ((c ∷ s) ∷ parts) (no_slash, h) =
    ((λ e. ground arith, no_slash), nonempty-IsSegment parts h)

pub split_uri_path-IsSegment : (path : Chars) → All IsSegment (split_uri_path path)
unfolding split_uri_path
split_uri_path-IsSegment path = nonempty-IsSegment (split path) (split-NoSlash path)

-- The segments, each behind a slash.
unfoldable pub slashed : List Chars → Chars
slashed [] = []
slashed (s ∷ segments) = b'/' ∷ (s ++ slashed segments)

pub path_of-slashed :
    (s : Chars) (segments : List Chars) → path_of (s ∷ segments) ≡ slashed (s ∷ segments)
unfolding slashed
path_of-slashed s [] = ap (◌∷◌ b'/') (sym (append-nil s))
path_of-slashed s (next ∷ segments) = ap (λ t. b'/' ∷ (s ++ t)) (path_of-slashed next segments)
