-- ===== src/Common/Perms.antt =====
-- Permutations of a list of things done, followed by a list of things that wait.
use mathlib.Core.Path.{◌≡◌, subst}
use mathlib.Core.List.{List, [], ◌∷◌, ◌++◌, append_assoc, Perm, perm_append_comm}
use mathlib.Core.List.Perm

module _ {ℓ} {A : Type ℓ} where
  pub Perm-of_eq : {xs ys : List A} → xs ≡ ys → Perm xs ys
  Perm-of_eq {xs} e = subst (λ ys. Perm xs ys) e (Perm.refl xs)

  -- One is done at once, before those that wait.
  pub Perm-done : (xs ws : List A) (a : A) → Perm ((xs ++ a ∷ []) ++ ws) ((xs ++ ws) ++ a ∷ [])
  Perm-done xs ws a =
      rw (append_assoc xs (a ∷ []) ws, append_assoc xs ws (a ∷ []))
        (Perm.append_left xs (perm_append_comm (a ∷ []) ws))

  -- The first that waits is put behind the others.
  pub Perm-rotated : (xs ws : List A) (a : A) → Perm (xs ++ (ws ++ a ∷ [])) (xs ++ a ∷ ws)
  Perm-rotated xs ws a = Perm.append_left xs (perm_append_comm ws (a ∷ []))

  -- A step that adds `new`, then a run that adds `more`.
  pub Perm-run :
      {now after : List A} (before new more : List A)
      → Perm after (now ++ more)
      → Perm now (before ++ new)
      → Perm after (before ++ (new ++ more))
  Perm-run before new more run step =
      rw (← append_assoc before new more) (Perm.trans run (Perm.append_right more step))
