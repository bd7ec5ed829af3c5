-- ===== src/Http/Pattern.antt =====
-- `route_to_postgres_pattern` of backend/libexecution/http.ml: the pattern that the database compares
-- with the paths of requests, by `LIKE`.
pub mod Escape
pub mod Laws
use dark.Common.Split.{join}
use dark.Common.{ℕ, List, [], ◌∷◌, ◌++◌, map, Chars, codes, ◌==◌, if◌then◌else◌, ◌||◌, false, ◌≡◌}
use dark.Http.Paths.{split_uri_path, path_of}
use dark.Http.Specificity.{is_wild}

-- `Util.string_replace`, of a text of one character.
unfoldable pub string_replace : ℕ → Chars → Chars → Chars
string_replace search replace [] = []
string_replace search replace (c ∷ s) =
    let rest = string_replace search replace s in if c == search then replace ++ rest else c ∷ rest

abbrev pub pattern_segment : Chars → Chars
pattern_segment segment = if is_wild segment then codes "%" else segment

unfoldable pub route_to_postgres_pattern : Chars → Chars
unfolding string_replace split_uri_path is_wild
route_to_postgres_pattern route = path_of (
    map pattern_segment (
      split_uri_path (string_replace b'_' (codes "\\_") (string_replace b'%' (codes "\\%") route))))

-- What the documentation of Postgres says of `text LIKE pattern`: a character stands for itself, `%` for
-- any text, and a backslash takes its meaning from the character behind it.
pub record IsLike (Like : Chars → Chars → Type 0) : Type 0 where
  pub nothing : Like [] []
  pub character :
      (c : ℕ) (pattern text : Chars)
      → (c == b'%' || c == b'_' || c == b'\\') ≡ false
      → Like pattern text
      → Like (c ∷ pattern) (c ∷ text)
  pub escaped :
      (c : ℕ) (pattern text : Chars) → Like pattern text → Like (b'\\' ∷ c ∷ pattern) (c ∷ text)
  pub anything :
      (skipped pattern text : Chars) → Like pattern text → Like (b'%' ∷ pattern) (skipped ++ text)
