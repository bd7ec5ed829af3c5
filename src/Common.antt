-- ===== src/Common.antt =====
-- The names that the other modules share: those of the libraries, passed on, and those of its
-- children (tests, lists, text, permutations, parts of a path).
pub mod Tests
pub mod Lists
pub mod Text
pub mod Perms
pub mod Occurs
pub mod Split
pub mod Search
pub use Tests.{ltb, leb, ◌==◌, if◌then◌else◌, ==_iff, Bool-cases, Option-cases, test_below}
unfoldable pub use Tests.{passes}
pub use Lists.*
pub use Text.{Chars, codes, same_text_iff}
unfoldable pub use Text.{is_prefix, contains, same_text}
pub use Prim.Native.Nat.{ℕ, zero, suc, ◌+◌, ◌-◌, ◌*◌, ◌/◌, ◌%◌, ◌^◌, ◌≤◌, ◌<◌}
pub use Prim.Native.String.{String}
pub use mathlib.Core.Path.{◌≡◌, refl, sym, ap, ◌∙◌, subst}
pub use mathlib.Core.Logic.{◌≢◌, ◌↔◌, ◌⊎◌, inl, inr}
pub use mathlib.Core.Bool.{Bool, true, false, false≢true, not, ◌&&◌, ◌||◌}
pub use mathlib.Core.Option.{Option, none, some}
pub use mathlib.Core.List.{List, [], ◌∷◌, ◌++◌, map, append_assoc, append-nil}
pub use native.Mathlib.Omega.{arith}
unfoldable pub use native.Mathlib.Decide.{dec_lt, ℕ_discrete}
