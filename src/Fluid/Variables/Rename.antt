-- ===== src/Fluid/Variables/Rename.antt =====
-- What `renameVariableUses` and `removeVariableUse` do to the names that an expression uses.
use dark.Common.{ℕ, ◌≡◌, refl, ap, false, Chars, same_text}
use dark.Fluid.Expr.{Expr, e_blank}
use dark.Fluid.Variables.{renamed, rename_variable_uses, remove_variable_use}
use dark.Fluid.Variables.Uses.{uses}
use dark.Fluid.Variables.Unused.{unused}
use dark.Fluid.Variables.Removed.{removed}
use dark.Fluid.Variables.Kept.{kept}

-- After a name is changed into a different one, it is not used any more, and every name but the two
-- is used if and only if it was.
pub rename_variable_uses_lem :
    (old_name new_name other : Chars) (ast : Expr)
    → same_text new_name old_name ≡ false
    → same_text old_name other ≡ false
    → same_text new_name other ≡ false
    → (uses old_name (rename_variable_uses old_name new_name ast) ≡ false)
      × (uses other (rename_variable_uses old_name new_name ast) ≡ uses other ast)
unfolding rename_variable_uses renamed uses
rename_variable_uses_lem old_name new_name other ast different not_old not_new = (
  removed old_name (renamed new_name) (λ _ _. different) ast tt,
  kept old_name other (renamed new_name) not_old (λ _ _. not_new) ast tt,
)

-- A name that is not used is not changed.
pub rename_variable_uses-unused :
    (old_name new_name : Chars) (ast : Expr)
    → uses old_name ast ≡ false
    → rename_variable_uses old_name new_name ast ≡ ast
unfolding rename_variable_uses
rename_variable_uses-unused old_name new_name ast h =
    ap (λ r. r.0) (unused old_name (renamed new_name) ast tt h)

-- After the uses of a name are removed there is none, and every other name is used if and only if it
-- was.
pub remove_variable_use_lem :
    {S : Type 0} (draw : S → ℕ × S) (old_var_name other : Chars) (ast : Expr) (s : S)
    → same_text old_var_name other ≡ false
    → (uses old_var_name (remove_variable_use draw old_var_name ast s).0 ≡ false)
      × (uses other (remove_variable_use draw old_var_name ast s).0 ≡ uses other ast)
unfolding remove_variable_use uses
remove_variable_use_lem {S} draw old_var_name other ast s not_old =
    let blank : Expr → S → Expr × S = λ _ s0. let (id, s1) = draw s0 in (e_blank id, s1) in
    (
      removed old_var_name blank (λ _ _. refl) ast s,
      kept old_var_name other blank not_old (λ _ _. refl) ast s,
    )

-- Where the name is not used, nothing is removed, and no id is drawn.
pub remove_variable_use-unused :
    {S : Type 0} (draw : S → ℕ × S) (old_var_name : Chars) (ast : Expr) (s : S)
    → uses old_var_name ast ≡ false
    → remove_variable_use draw old_var_name ast s ≡ (ast, s)
unfolding remove_variable_use
remove_variable_use-unused {S} draw old_var_name ast s h =
    unused old_var_name (λ _ s0. let (id, s1) = draw s0 in (e_blank id, s1)) ast s h
