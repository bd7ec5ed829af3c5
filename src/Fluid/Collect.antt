-- ===== src/Fluid/Collect.antt =====
-- `filterMap`, `filter`, `blanks`, `ids` and `decendants` of libshared/FluidExpression.ml. The
-- evaluation of the arguments is from left to right, as in the code that BuckleScript makes.
use mathlib.Core.List.{flatten, reverse, reverse_aux, reverse_aux-append, reverse-reverse}
use dark.Common.{
  ℕ, ◌≡◌, refl, sym, ap, ◌∙◌, Bool, true, Option, none, some, List, [], ◌∷◌, ◌++◌, map,
  if◌then◌else◌, All,
}
use dark.Fluid.Expr.{Expr, children, to_id}
use dark.Fluid.Schemes.{fold_expr, fold_expr_lem}
use dark.Fluid.Induct.{induct}
use dark.Fluid.Find.{nodes, nodes-children}
use dark.Fluid.Empty.{is_blank}

-- A new result goes in front.
abbrev push : {A : Type 0} → Option A → List A → List A
push none results = results
push (some r) results = r ∷ results

-- What a list of walks makes of the results.
abbrev run_all : {A : Type 0} → List (List A → List A) → List A → List A
run_all [] results = results
run_all (walk ∷ walks) results = run_all walks (walk results)

-- `myWalk`, by what it makes of the results.
unfoldable pub my_walk : {A : Type 0} → (Expr → Option A) → Expr → List A → List A
unfolding fold_expr
my_walk f = fold_expr (λ e walks results. run_all walks (push (f e) results))

unfoldable pub filter_map : {A : Type 0} → (Expr → Option A) → Expr → List A
unfolding my_walk
filter_map f e = reverse (my_walk f e [])

unfoldable pub filter : (Expr → Bool) → Expr → List Expr
unfolding filter_map
filter f e = filter_map (λ t. if f t then some t else none) e

unfoldable pub blanks : Expr → List Expr
unfolding filter is_blank
blanks e = filter is_blank e

unfoldable pub ids : Expr → List ℕ
unfolding filter to_id
ids ast = map to_id (filter (λ _. true) ast)

-- `preTraversal` with a function that returns its argument comes to the expressions as `myWalk` does.
unfoldable pub decendants : Expr → List ℕ
unfolding my_walk to_id
decendants e = my_walk (λ x. some (to_id x)) e []

-- The results of a function on a list, in their order.
abbrev pub somes : {A : Type 0} → (Expr → Option A) → List Expr → List A
somes f [] = []
somes f (e ∷ es) = push (f e) (somes f es)

somes-append :
    {A : Type 0} (f : Expr → Option A) (xs ys : List Expr)
    → somes f (xs ++ ys) ≡ somes f xs ++ somes f ys
somes-append f [] ys = refl
somes-append f (x ∷ xs) ys =
    ap (push (f x)) (somes-append f xs ys) ∙ push-append (f x) (somes f xs) (somes f ys)
  where
    push-append : {A : Type 0} (r : Option A) (s t : List A) → push r (s ++ t) ≡ push r s ++ t
    push-append none s t = refl
    push-append (some r) s t = refl

reverse_aux-push :
    {A : Type 0} (r : Option A) (later results : List A)
    → reverse_aux (push r later) results ≡ reverse_aux later (push r results)
reverse_aux-push none later results = refl
reverse_aux-push (some r) later results = refl

module _ {A : Type 0} (f : Expr → Option A) where
  my_walk-children :
      (e : Expr) (results : List A)
      → my_walk f e results ≡ run_all (map (my_walk f) (children e)) (push (f e) results)
  unfolding my_walk
  my_walk-children e results =
      let g : Expr → List (List A → List A) → List A → List A =
        λ x walks before. run_all walks (push (f x) before) in
      ap (λ w. w results) (fold_expr_lem g e)

  run_children :
      (cs : List Expr) (results : List A)
      → All
          (λ c. (before : List A) → my_walk f c before ≡ reverse_aux (somes f (nodes c)) before)
          cs
      → run_all (map (my_walk f) cs) results
        ≡ reverse_aux (somes f (flatten (map nodes cs))) results
  unfolding flatten
  run_children [] results h = refl
  run_children (c ∷ cs) results (e, h) =
      run_children cs (my_walk f c results) h
      ∙ ap (reverse_aux (somes f (flatten (map nodes cs)))) (e results)
      ∙ sym (reverse_aux-append (somes f (nodes c)) (somes f (flatten (map nodes cs))) results)
      ∙ ap (λ s. reverse_aux s results) (sym (somes-append f (nodes c) (flatten (map nodes cs))))

  my_walk-nodes :
      (e : Expr) (results : List A) → my_walk f e results ≡ reverse_aux (somes f (nodes e)) results
  my_walk-nodes =
      induct
        (λ e. (results : List A) → my_walk f e results ≡ reverse_aux (somes f (nodes e)) results)
        (λ e ih results.
          my_walk-children e results
          ∙ run_children (children e) (push (f e) results) ih
          ∙ sym (reverse_aux-push (f e) (somes f (flatten (map nodes (children e)))) results)
          ∙ ap (λ ns. reverse_aux (somes f ns) results) (sym (nodes-children e)))

  -- `filterMap` gives the results for all the expressions within one, in the order in which they
  -- stand.
  pub filter_map-nodes : (e : Expr) → filter_map f e ≡ somes f (nodes e)
  unfolding filter_map
  filter_map-nodes e = ap reverse (my_walk-nodes e []) ∙ reverse-reverse (somes f (nodes e))

somes-map : {A : Type 0} (f : Expr → A) (es : List Expr) → somes (λ e. some (f e)) es ≡ map f es
somes-map f [] = refl
somes-map f (e ∷ es) = ap (◌∷◌ (f e)) (somes-map f es)

-- The ids of an expression are those of all the expressions within it, its own first.
pub ids-nodes : (e : Expr) → ids e ≡ map to_id (nodes e)
unfolding ids filter
ids-nodes e =
    ap (map to_id) (filter_map-nodes some e ∙ somes-map (λ x. x) (nodes e) ∙ map_self (nodes e))
  where
    map_self : (es : List Expr) → map (λ x. x) es ≡ es
    map_self [] = refl
    map_self (e ∷ es) = ap (◌∷◌ e) (map_self es)

-- The list of descendants has the same ids as `ids`, and so that of the expression itself.
pub decendants-ids : (e : Expr) → decendants e ≡ reverse (ids e)
unfolding decendants
decendants-ids e =
    my_walk-nodes (λ x. some (to_id x)) e []
    ∙ ap reverse (somes-map to_id (nodes e) ∙ sym (ids-nodes e))
