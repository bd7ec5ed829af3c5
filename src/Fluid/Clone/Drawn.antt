-- ===== src/Fluid/Clone/Drawn.antt =====
-- Where the ids of the expressions in a clone come from.
use mathlib.Core.List.{flatten}
use dark.Common.{
  ℕ, ◌≡◌, refl, sym, subst, ◌⊎◌, inl, inr, Bool, true, false, List, [], ◌∷◌, map, All, All-append,
}
use dark.Fluid.Expr.{
  Expr, Exprs, Fields, Cases, no_exprs, expr, no_fields, field, no_cases, case, e_integer, e_bool,
  e_string, e_float, e_null, e_blank, e_let, e_if, e_bin_op, e_lambda, e_field_access, e_variable,
  e_fn_call, e_partial, e_right_partial, e_left_partial, e_list, e_record, e_pipe, e_constructor,
  e_match, e_pipe_target, e_feature_flag, children, to_id, exprs_of, field_exprs, case_exprs,
}
use dark.Fluid.Find.{nodes, nodes-children}
use dark.Fluid.Clone.{clone_pattern, clone_vars, clone, clone_exprs, clone_fields, clone_cases}

unfoldable pub is_left_partial : Expr → Bool
is_left_partial (e_left_partial _ _ _) = true
is_left_partial _ = false

All-flatten :
    {A B : Type 0} (P : B → Type 0) (f : A → List B) (xs : List A)
    → All (λ x. All P (f x)) xs
    → All P (flatten (map f xs))
unfolding flatten
All-flatten P f [] h = tt
All-flatten P f (x ∷ xs) (p, h) = All-append P (f x) (flatten (map f xs)) p (All-flatten P f xs h)

-- What holds of an expression and of all within its children holds of all within it.
all_nodes :
    (P : Expr → Type 0) (e : Expr) → P e → All (λ c. All P (nodes c)) (children e) → All P (nodes e)
all_nodes P e p h = subst (All P) (sym (nodes-children e)) (p, All-flatten P nodes (children e) h)

module _ {S : Type 0} (draw : S → ℕ × S) where
  -- Its id was drawn, or it is a left partial.
  abbrev pub Drawn : Expr → Type 0
  Drawn e = ((s : S) × ((draw s).0 ≡ to_id e)) ⊎ (is_left_partial e ≡ true)

  abbrev AllDrawn : Expr → Type 0
  AllDrawn e = All Drawn (nodes e)

  mutual
    unfolding clone children to_id is_left_partial

    drawn : (e : Expr) (s : S) → AllDrawn (clone draw e s).0
    drawn (e_integer _ value) s =
        all_nodes Drawn (clone draw (e_integer 0 value) s).0 (inl (s, refl)) tt
    drawn (e_bool _ value) s = all_nodes Drawn (clone draw (e_bool 0 value) s).0 (inl (s, refl)) tt
    drawn (e_string _ value) s =
        all_nodes Drawn (clone draw (e_string 0 value) s).0 (inl (s, refl)) tt
    drawn (e_float _ whole fraction) s =
        all_nodes Drawn (clone draw (e_float 0 whole fraction) s).0 (inl (s, refl)) tt
    drawn (e_null _) s = all_nodes Drawn (clone draw (e_null 0) s).0 (inl (s, refl)) tt
    drawn (e_blank _) s = all_nodes Drawn (clone draw (e_blank 0) s).0 (inl (s, refl)) tt
    drawn (e_let _ lhs rhs body) s =
        let (id, s0) = draw s in
        let (_, s1) = clone draw rhs s0 in
        all_nodes Drawn (clone draw (e_let 0 lhs rhs body) s).0 (inl (s, refl))
          (drawn rhs s0, (drawn body s1, tt))
    drawn (e_if _ cond then_ else_) s =
        let (id, s0) = draw s in
        let (_, s1) = clone draw cond s0 in
        let (_, s2) = clone draw then_ s1 in
        all_nodes Drawn (clone draw (e_if 0 cond then_ else_) s).0 (inl (s, refl))
          (drawn cond s0, (drawn then_ s1, (drawn else_ s2, tt)))
    drawn (e_bin_op _ op left right ster) s =
        let (id, s0) = draw s in
        let (_, s1) = clone draw left s0 in
        all_nodes Drawn (clone draw (e_bin_op 0 op left right ster) s).0 (inl (s, refl))
          (drawn left s0, (drawn right s1, tt))
    drawn (e_lambda _ vars body) s =
        let (id, s0) = draw s in
        let (vars_, s1) = clone_vars draw vars s0 in
        all_nodes Drawn (clone draw (e_lambda 0 vars body) s).0 (inl (s, refl)) (drawn body s1, tt)
    drawn (e_field_access _ obj name) s =
        let (id, s0) = draw s in
        all_nodes Drawn (clone draw (e_field_access 0 obj name) s).0 (inl (s, refl))
          (drawn obj s0, tt)
    drawn (e_variable _ name) s =
        all_nodes Drawn (clone draw (e_variable 0 name) s).0 (inl (s, refl)) tt
    drawn (e_fn_call _ name args ster) s =
        let (id, s0) = draw s in
        all_nodes Drawn (clone draw (e_fn_call 0 name args ster) s).0 (inl (s, refl))
          (drawn_exprs args s0)
    drawn (e_partial _ text old) s =
        let (id, s0) = draw s in
        all_nodes Drawn (clone draw (e_partial 0 text old) s).0 (inl (s, refl)) (drawn old s0, tt)
    drawn (e_right_partial _ text old) s =
        let (id, s0) = draw s in
        all_nodes Drawn (clone draw (e_right_partial 0 text old) s).0 (inl (s, refl))
          (drawn old s0, tt)
    drawn (e_left_partial id text old) s =
        all_nodes Drawn (clone draw (e_left_partial id text old) s).0 (inr refl) (drawn old s, tt)
    drawn (e_list _ exprs) s =
        let (id, s0) = draw s in
        all_nodes Drawn (clone draw (e_list 0 exprs) s).0 (inl (s, refl)) (drawn_exprs exprs s0)
    drawn (e_record _ entries) s =
        let (id, s0) = draw s in
        all_nodes Drawn (clone draw (e_record 0 entries) s).0 (inl (s, refl))
          (drawn_fields entries s0)
    drawn (e_pipe _ exprs) s =
        let (id, s0) = draw s in
        all_nodes Drawn (clone draw (e_pipe 0 exprs) s).0 (inl (s, refl)) (drawn_exprs exprs s0)
    drawn (e_constructor _ name args) s =
        let (id, s0) = draw s in
        all_nodes Drawn (clone draw (e_constructor 0 name args) s).0 (inl (s, refl))
          (drawn_exprs args s0)
    drawn (e_match _ cond cases) s =
        let (id, s0) = draw s in
        let (_, s1) = clone draw cond s0 in
        all_nodes Drawn (clone draw (e_match 0 cond cases) s).0 (inl (s, refl))
          (drawn cond s0, drawn_cases id cases s1)
    drawn (e_pipe_target _) s =
        all_nodes Drawn (clone draw (e_pipe_target 0) s).0 (inl (s, refl)) tt
    drawn (e_feature_flag _ name cond case_a case_b) s =
        let (id, s0) = draw s in
        let (_, s1) = clone draw cond s0 in
        let (_, s2) = clone draw case_a s1 in
        all_nodes Drawn (clone draw (e_feature_flag 0 name cond case_a case_b) s).0 (inl (s, refl))
          (drawn cond s0, (drawn case_a s1, (drawn case_b s2, tt)))

    drawn_exprs : (es : Exprs) (s : S) → All AllDrawn (exprs_of (clone_exprs draw es s).0)
    drawn_exprs no_exprs s = tt
    drawn_exprs (expr e rest) s = let (_, s0) = clone draw e s in (drawn e s, drawn_exprs rest s0)

    drawn_fields : (es : Fields) (s : S) → All AllDrawn (field_exprs (clone_fields draw es s).0)
    drawn_fields no_fields s = tt
    drawn_fields (field _ e rest) s =
        let (_, s0) = clone draw e s in (drawn e s, drawn_fields rest s0)

    drawn_cases :
        (mid : ℕ) (cs : Cases) (s : S) → All AllDrawn (case_exprs (clone_cases draw mid cs s).0)
    drawn_cases mid no_cases s = tt
    drawn_cases mid (case p e rest) s =
        let (_, s0) = clone_pattern draw mid p s in
        let (_, s1) = clone draw e s0 in (drawn e s0, drawn_cases mid rest s1)

  -- Every expression in a clone has an id that was drawn, or is a left partial.
  pub clone-Drawn : (e : Expr) (s : S) → All Drawn (nodes (clone draw e s).0)
  clone-Drawn e s = drawn e s
