-- ===== src/Http/Handlers.antt =====
-- backend/libexecution/handler.ml: what is asked of a handler.
use dark.Common.{Bool, true, false, ◌&&◌, Option, none, some, Chars}
use dark.Common.{ℕ}

pub data OrBlank (A : Type 0) : Type 0 where
  blank : ℕ → OrBlank A
  filled : ℕ → A → OrBlank A
  partial : ℕ → Chars → OrBlank A

pub record Spec : Type 0 where
  pub module_ : OrBlank Chars
  pub name : OrBlank Chars
  pub modifier : OrBlank Chars

-- Its expression is of any type. The types of its specification are deprecated, and used nowhere.
pub record Handler (Expr : Type 0) : Type 0 where
  pub tlid : ℕ
  pub ast : Expr
  pub spec : Spec

abbrev pub is_filled : OrBlank Chars → Bool
is_filled (filled i s) = true
is_filled _ = false

abbrev pub text_of : OrBlank Chars → Option Chars
text_of (filled i s) = some s
text_of _ = none

module _ {Expr : Type 0} where
  unfoldable pub is_complete : Handler Expr → Bool
  is_complete h = is_filled h.spec.module_ && is_filled h.spec.name && is_filled h.spec.modifier

  abbrev pub event_name_for : Handler Expr → Option Chars
  event_name_for h = text_of h.spec.name
