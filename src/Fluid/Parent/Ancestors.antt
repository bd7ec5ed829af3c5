-- ===== src/Fluid/Parent/Ancestors.antt =====
-- The first of the `ancestors`, and the `findParent`.
use mathlib.Core.List.{flatten}
use dark.Common.Search.{
  find_map, find_map_same, map_option, find_map-map_option, head, head-flatten, All_map, All_always,
}
use dark.Common.{
  ℕ, ◌≡◌, refl, sym, ap, ◌∙◌, Bool, true, false, Option, none, some, List, [], ◌∷◌, map, ◌==◌,
  if◌then◌else◌, All,
}
use dark.Fluid.Expr.{Expr, children, to_id}
use dark.Fluid.Induct.{induct}
use dark.Fluid.Parent.{
  find_parent, find_parent_from, find_parent_from-children, consed, ancestors, rec_ancestors,
  rec_ancestors-children,
}

module _ (root : Expr) (target : ℕ) where
  -- What holds below an expression holds of its children together.
  head_children :
      (e : Expr) (walk : List Expr) (cs : List Expr)
      → All
          (λ c.
            head (rec_ancestors root target c (consed root e ∷ walk))
            ≡ map_option (consed root) (find_parent_from target c (some e)))
          cs
      → head (flatten (map (λ c. rec_ancestors root target c (consed root e ∷ walk)) cs))
        ≡ map_option (consed root) (find_map (λ c. find_parent_from target c (some e)) cs)
  head_children e walk cs h =
      head-flatten (λ c. rec_ancestors root target c (consed root e ∷ walk)) cs
      ∙ find_map_same (λ c. head (rec_ancestors root target c (consed root e ∷ walk)))
          (λ c. map_option (consed root) (find_parent_from target c (some e))) cs h
      ∙ find_map-map_option (consed root) (λ c. find_parent_from target c (some e)) cs

  map_option_if :
      (b : Bool) (a : Option Expr) (x y : Option Expr)
      → y ≡ map_option (consed root) x
      → (if b then map_option (consed root) a else y)
        ≡ map_option (consed root) (if b then a else x)
  map_option_if true a x y h = refl
  map_option_if false a x y h = h

  head_if :
      (b : Bool) (walk deeper : List Expr)
      → head (if b then walk else deeper) ≡ (if b then head walk else head deeper)
  head_if true walk deeper = refl
  head_if false walk deeper = refl

  -- One step of both searches, from their equality at the children.
  head_step :
      (e : Expr) (parent : Option Expr) (walk : List Expr)
      → head walk ≡ map_option (consed root) parent
      → All
          (λ c.
            head (rec_ancestors root target c (consed root e ∷ walk))
            ≡ map_option (consed root) (find_parent_from target c (some e)))
          (children e)
      → head (rec_ancestors root target e walk)
        ≡ map_option (consed root) (find_parent_from target e parent)
  head_step e parent walk above h =
      let deeper : List Expr =
        flatten (map (λ c. rec_ancestors root target c (consed root e ∷ walk)) (children e)) in
      ap head (rec_ancestors-children root target e walk)
      ∙ head_if (to_id e == target) walk deeper
      ∙ ap (λ x. if to_id e == target then x else head deeper) above
      ∙ map_option_if (to_id e == target) parent
          (find_map (λ c. find_parent_from target c (some e)) (children e)) (head deeper)
          (head_children e walk (children e) h)
      ∙ ap (map_option (consed root)) (sym (find_parent_from-children target e parent))

  head-rec_ancestors :
      (e parent : Expr) (walk : List Expr)
      → head (rec_ancestors root target e (consed root parent ∷ walk))
        ≡ map_option (consed root) (find_parent_from target e (some parent))
  head-rec_ancestors =
      induct
        (λ e.
          (parent : Expr) (walk : List Expr)
          → head (rec_ancestors root target e (consed root parent ∷ walk))
            ≡ map_option (consed root) (find_parent_from target e (some parent)))
        (λ e ih parent walk. head_step e (some parent) (consed root parent ∷ walk) refl (
          All_map
            (λ c.
              (p : Expr) (w : List Expr)
              → head (rec_ancestors root target c (consed root p ∷ w))
                ≡ map_option (consed root) (find_parent_from target c (some p)))
            (λ c.
              head (rec_ancestors root target c (consed root e ∷ consed root parent ∷ walk))
              ≡ map_option (consed root) (find_parent_from target c (some e)))
            (children e) (λ c h. h e (consed root parent ∷ walk)) ih))

-- The nearest ancestor is the parent, but for the parents that are lists or records: there it is the
-- expression that the search began with.
pub head-ancestors :
    (target : ℕ) (e : Expr)
    → head (ancestors target e) ≡ map_option (consed e) (find_parent target e)
unfolding ancestors find_parent
head-ancestors target e = head_step e target e none [] refl (
    All_always
      (λ c.
        head (rec_ancestors e target c (consed e e ∷ []))
        ≡ map_option (consed e) (find_parent_from target c (some e)))
      (children e) (λ c. head-rec_ancestors e target c e []))
