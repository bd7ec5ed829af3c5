-- ===== src/Fluid/Pattern.antt =====
-- libshared/FluidPattern.ml.
use dark.Common.Search.{or_else}
use dark.Common.{
  ℕ, Bool, Option, none, some, List, [], ◌∷◌, ◌++◌, Chars, ◌==◌, if◌then◌else◌, any, same_text,
}

-- A match id, and then a pattern id. The patterns of a constructor are a list of their own.
mutual
  pub data Pattern : Type 0 where
    fp_variable : ℕ → ℕ → Chars → Pattern
    fp_constructor : ℕ → ℕ → Chars → Patterns → Pattern
    fp_integer : ℕ → ℕ → Chars → Pattern
    fp_bool : ℕ → ℕ → Bool → Pattern
    fp_string : ℕ → ℕ → Chars → Pattern
    fp_float : ℕ → ℕ → Chars → Chars → Pattern
    fp_null : ℕ → ℕ → Pattern
    fp_blank : ℕ → ℕ → Pattern

  pub data Patterns : Type 0 where
    no_patterns : Patterns
    pattern_ : Pattern → Patterns → Patterns

unfoldable pub to_id : Pattern → ℕ
to_id (fp_variable _ id _) = id
to_id (fp_constructor _ id _ _) = id
to_id (fp_integer _ id _) = id
to_id (fp_bool _ id _) = id
to_id (fp_string _ id _) = id
to_id (fp_float _ id _ _) = id
to_id (fp_null _ id) = id
to_id (fp_blank _ id) = id

unfoldable pub to_match_id : Pattern → ℕ
to_match_id (fp_variable mid _ _) = mid
to_match_id (fp_constructor mid _ _ _) = mid
to_match_id (fp_integer mid _ _) = mid
to_match_id (fp_bool mid _ _) = mid
to_match_id (fp_string mid _ _) = mid
to_match_id (fp_float mid _ _ _) = mid
to_match_id (fp_null mid _) = mid
to_match_id (fp_blank mid _) = mid

-- `List.map ~f:ids` and `List.concat` are one function on the lists of the block.
unfoldable mutual
  unfolding to_id

  pub ids : Pattern → List ℕ
  ids (fp_constructor _ id _ patterns) = id ∷ ids_all patterns
  ids p = to_id p ∷ []

  pub ids_all : Patterns → List ℕ
  ids_all no_patterns = []
  ids_all (pattern_ p ps) = ids p ++ ids_all ps

unfoldable mutual
  pub variable_names : Pattern → List Chars
  variable_names (fp_variable _ _ name) = name ∷ []
  variable_names (fp_constructor _ _ _ patterns) = variable_names_all patterns
  variable_names _ = []

  pub variable_names_all : Patterns → List Chars
  variable_names_all no_patterns = []
  variable_names_all (pattern_ p ps) = variable_names p ++ variable_names_all ps

unfoldable pub has_variable_named : Chars → Pattern → Bool
unfolding variable_names same_text
has_variable_named var_name p = any (λ name. same_text var_name name) (variable_names p)

unfoldable mutual
  unfolding to_id

  pub find_pattern : ℕ → Pattern → Option Pattern
  find_pattern pat_id (fp_constructor mid pid name pats) =
      let deeper = find_patterns pat_id pats in
      if pat_id == pid then some (fp_constructor mid pid name pats) else deeper
  find_pattern pat_id within = if pat_id == to_id within then some within else none

  pub find_patterns : ℕ → Patterns → Option Pattern
  find_patterns pat_id no_patterns = none
  find_patterns pat_id (pattern_ p ps) = or_else (find_pattern pat_id p) (find_patterns pat_id ps)

unfoldable mutual
  pub post_traversal : (Pattern → Pattern) → Pattern → Pattern
  post_traversal f (fp_constructor mid pid name patterns) =
      f (fp_constructor mid pid name (post_traversal_all f patterns))
  post_traversal f p = f p

  pub post_traversal_all : (Pattern → Pattern) → Patterns → Patterns
  post_traversal_all f no_patterns = no_patterns
  post_traversal_all f (pattern_ p ps) = pattern_ (post_traversal f p) (post_traversal_all f ps)
