-- ===== src/Http/Bind.antt =====
-- `bind_route_variables` of backend/libexecution/http.ml. Texts are lists of characters, so
-- `Dval.dstr_of_string_exn`, which raises on a text that is not valid UTF-8, is a total function: the
-- parameter `dstr`.
pub mod Matches
pub mod Laws
use Prim.Native.Nat.{compare, Ordering}
use dark.Common.Split.{join}
use dark.Common.{
  ℕ, zero, suc, ◌+◌, ◌-◌, ◌*◌, ◌/◌, ◌%◌, ◌<◌, ◌≤◌, ◌≡◌, ◌≢◌, ◌↔◌, refl, sym, ap, ◌∙◌, ◌⊎◌, inl, inr,
  Bool, true, false, not, ◌&&◌, ◌||◌, Option, none, some, List, [], ◌∷◌, ◌++◌, map, append_assoc,
  append-nil, Chars, codes, arith, ◌==◌, ltb, ==_iff, if◌then◌else◌, length, length-append, All,
  Bool-cases, Option-cases, last?, last?-append, same_text, same_text_iff, take, drop,
}
use dark.Http.Paths.{route_variable, split_uri_path}

-- `List.zip_exn`: where the lengths differ, `none` is its exception.
unfoldable pub zip_exn : List Chars → List Chars → Option (List (Chars × Chars))
zip_exn [] [] = some []
zip_exn [] (p ∷ path) = none
zip_exn (r ∷ route) [] = none
zip_exn (r ∷ route) (p ∷ path) = elim (zip_exn route path) [
  | none ↦ none
  | some pairs ↦ some ((r, p) ∷ pairs)
]

-- Whether a segment is a variable, or the wildcard of Postgres.
unfoldable pub is_wildcard : Option Chars → Bool
unfolding route_variable
is_wildcard none = false
is_wildcard (some s) = elim (route_variable s) [ some name ↦ true | none ↦ same_text s (codes "%") ]

-- The first segments of the path, and the others munged into one.
unfoldable pub munge : List Chars → List Chars → List Chars
munge split_route split_path =
    take (length split_route - 1) split_path ++ join (drop (length split_route - 1) split_path) ∷ []

module _ {D : Type 0} (dstr : Chars → D) where
  -- One step of the fold.
  unfoldable pub bind_segment :
      Option (List (Chars × D)) → Chars → Chars → Option (List (Chars × D))
  unfolding route_variable
  bind_segment none r p = none
  bind_segment (some acc) r p = elim (route_variable r) [
    | some rv ↦ some ((rv, dstr p) ∷ acc)
    | none ↦ if same_text r p || same_text r (codes "%") then some acc else none
  ]

  unfoldable pub fold_segments :
      Option (List (Chars × D)) → List (Chars × Chars) → Option (List (Chars × D))
  unfolding bind_segment
  fold_segments acc [] = acc
  fold_segments acc ((r, p) ∷ pairs) = fold_segments (bind_segment acc r p) pairs

  unfoldable pub do_binding : List Chars → List Chars → Option (List (Chars × D))
  unfolding fold_segments zip_exn
  do_binding route path = elim (zip_exn route path) [
    | none ↦ none
    | some pairs ↦ fold_segments (some []) pairs
  ]

  unfoldable pub bind_segments : List Chars → List Chars → Option (List (Chars × D))
  unfolding do_binding is_wildcard munge
  bind_segments split_route split_path = elim (compare (length split_path) (length split_route)) [
    | Ordering.lt ↦ none
    | Ordering.eq ↦ do_binding split_route split_path
    | Ordering.gt ↦
        if is_wildcard (last? split_route)
        then do_binding split_route (munge split_route split_path)
        else none
  ]

  unfoldable pub bind_route_variables : Chars → Chars → Option (List (Chars × D))
  unfolding bind_segments split_uri_path
  bind_route_variables route request_path =
      bind_segments (split_uri_path route) (split_uri_path request_path)

  -- `request_path_matches_route`
  unfoldable pub request_path_matches_route : Chars → Chars → Bool
  unfolding bind_route_variables
  request_path_matches_route route request_path = elim (bind_route_variables route request_path) [
    | none ↦ false
    | some bound ↦ true
  ]
