-- ===== src/Http/Bind/Matches.antt =====
-- When a path matches a route, without zipping, folding and munging.
use mathlib.Core.List.{reverse, reverse_aux}
use dark.Common.Split.{join}
use dark.Common.{
  ◌≤◌, ◌≡◌, refl, sym, ap, subst, ◌∙◌, inl, inr, true, false, ◌||◌, none, some, List, [], ◌∷◌, ◌++◌,
  Chars, codes, arith, length, Bool-cases, Option-cases, same_text, same_text_iff,
}
use dark.Http.Paths.{route_variable}
use dark.Http.Bind.{zip_exn, is_wildcard, bind_segment, fold_segments, do_binding}

module _ {D : Type 0} (dstr : Chars → D) where
  -- Segment by segment; the last argument holds the variables with their values, in their order.
  pub data Exact : List Chars → List Chars → List (Chars × D) → Type 0 where
    done : Exact [] [] []
    variable :
        {r p name : Chars} {route path : List Chars} {bound : List (Chars × D)}
        → route_variable r ≡ some name
        → Exact route path bound
        → Exact (r ∷ route) (p ∷ path) ((name, dstr p) ∷ bound)
    concrete :
        {r : Chars} {route path : List Chars} {bound : List (Chars × D)}
        → route_variable r ≡ none
        → Exact route path bound
        → Exact (r ∷ route) (r ∷ path) bound
    percent :
        {p : Chars} {route path : List Chars} {bound : List (Chars × D)}
        → Exact route path bound
        → Exact (codes "%" ∷ route) (p ∷ path) bound

  -- A wildcard at the end of a route that is shorter than the path stands for the rest of the path.
  pub data Matches : List Chars → List Chars → List (Chars × D) → Type 0 where
    exact :
        {route path : List Chars} {bound : List (Chars × D)}
        → Exact route path bound
        → Matches route path bound
    longer :
        (wild : Chars) (front before after : List Chars) {bound : List (Chars × D)}
        → is_wildcard (some wild) ≡ true
        → length before ≡ length front
        → 2 ≤ length after
        → Exact (front ++ wild ∷ []) (before ++ join after ∷ []) bound
        → Matches (front ++ wild ∷ []) (before ++ after) bound

  zip_exn-cons :
      (r p : Chars) (route path : List Chars) (pairs : List (Chars × Chars))
      → zip_exn (r ∷ route) (p ∷ path) ≡ some pairs
      → (rest : List (Chars × Chars)) × (zip_exn route path ≡ some rest) × (pairs ≡ (r, p) ∷ rest)
  unfolding zip_exn
  zip_exn-cons r p route path pairs e = elim (Option-cases (zip_exn route path)) [
    | inl absent ↦ absurd (ground arith)
    | inr (rest, there) ↦ (rest, there, ground arith)
  ]

  fold_segments-none : (pairs : List (Chars × Chars)) → fold_segments dstr none pairs ≡ none
  unfolding fold_segments
  fold_segments-none [] = refl
  fold_segments-none ((r, p) ∷ pairs) = fold_segments-none pairs

  -- What the fold has bound, given what it had before.
  abbrev pub Bound : List Chars → List Chars → List (Chars × D) → List (Chars × D) → Type 0
  Bound route path acc result =
      (bound : List (Chars × D)) × Exact route path bound × (result ≡ reverse_aux bound acc)

  -- The three ways in which a step keeps what was bound, and the one in which it does not.
  bind_segment_variable :
      (acc : List (Chars × D)) (r p name : Chars)
      → route_variable r ≡ some name
      → bind_segment dstr (some acc) r p ≡ some ((name, dstr p) ∷ acc)
  unfolding bind_segment
  bind_segment_variable acc r p name v = ground arith

  bind_segment_same :
      (acc : List (Chars × D)) (r p : Chars)
      → route_variable r ≡ none
      → same_text r p || same_text r (codes "%") ≡ true
      → bind_segment dstr (some acc) r p ≡ some acc
  unfolding bind_segment
  bind_segment_same acc r p v e = ground arith

  bind_segment_other :
      (acc : List (Chars × D)) (r p : Chars)
      → route_variable r ≡ none
      → same_text r p || same_text r (codes "%") ≡ false
      → bind_segment dstr (some acc) r p ≡ none
  unfolding bind_segment
  bind_segment_other acc r p v e = ground arith

  Exact-same :
      {r p : Chars} {route path : List Chars} {bound : List (Chars × D)}
      → route_variable r ≡ none
      → same_text r p || same_text r (codes "%") ≡ true
      → Exact route path bound
      → Exact (r ∷ route) (p ∷ path) bound
  Exact-same {r} {p} {route} {path} {bound} v e ex = elim (Bool-cases (same_text r p)) [
    | inl same ↦
        subst (λ q. Exact (r ∷ route) (q ∷ path) bound) ((same_text_iff r p).0 same) (concrete v ex)
    | inr other ↦
        subst (λ q. Exact (q ∷ route) (p ∷ path) bound)
          (sym ((same_text_iff r (codes "%")).0 (ground arith))) (percent ex)
  ]

  fold_segments_sound :
      (route path : List Chars) (pairs : List (Chars × Chars)) (acc result : List (Chars × D))
      → zip_exn route path ≡ some pairs
      → fold_segments dstr (some acc) pairs ≡ some result
      → Bound route path acc result
  unfolding fold_segments zip_exn
  fold_segments_sound [] [] pairs acc result z e = ([], done, ground arith)
  fold_segments_sound [] (p ∷ path) pairs acc result z e = absurd (ground arith)
  fold_segments_sound (r ∷ route) [] pairs acc result z e = absurd (ground arith)
  fold_segments_sound (r ∷ route) (p ∷ path) pairs acc result z e =
      let (rest, there, same) = zip_exn-cons r p route path pairs z in
      let folded : fold_segments dstr (bind_segment dstr (some acc) r p) rest ≡ some result =
        sym (ap (fold_segments dstr (some acc)) same) ∙ e in
      elim (Option-cases (route_variable r)) [
        | inr (name, v) ↦
            let (bound, ex, eq) =
              fold_segments_sound route path rest ((name, dstr p) ∷ acc) result there (
                ap (λ a. fold_segments dstr a rest) (sym (bind_segment_variable acc r p name v))
                ∙ folded) in
            ((name, dstr p) ∷ bound, variable v ex, eq)
        | inl v ↦ elim (Bool-cases (same_text r p || same_text r (codes "%"))) [
          | inl s ↦
              let (bound, ex, eq) = fold_segments_sound route path rest acc result there (
                ap (λ a. fold_segments dstr a rest) (sym (bind_segment_same acc r p v s))
                ∙ folded) in
              (bound, Exact-same v s ex, eq)
          | inr s ↦ absurd (ground (arith, fold_segments-none rest, bind_segment_other acc r p v s))
        ]
      ]

  pub do_binding_sound :
      (route path : List Chars) (result : List (Chars × D))
      → do_binding dstr route path ≡ some result
      → Bound route path [] result
  unfolding do_binding
  do_binding_sound route path result e = elim (Option-cases (zip_exn route path)) [
    | inl absent ↦ absurd (ground arith)
    | inr (pairs, there) ↦ fold_segments_sound route path pairs [] result there (ground arith)
  ]

  same_refl : (s : Chars) → same_text s s ≡ true
  same_refl s = (same_text_iff s s).1 refl

  percent_plain : route_variable (codes "%") ≡ none
  unfolding route_variable
  percent_plain = refl

  -- Every exact match is found.
  fold_segments_complete :
      (route path : List Chars) (bound acc : List (Chars × D))
      → Exact route path bound
      → (pairs : List (Chars × Chars)) × (zip_exn route path ≡ some pairs)
        × (fold_segments dstr (some acc) pairs ≡ some (reverse_aux bound acc))
  unfolding fold_segments zip_exn
  fold_segments_complete _ _ _ acc done = ([], refl, refl)
  fold_segments_complete _ _ _ acc (variable {r} {p} {name} {route} {path} {bound} v ex) =
      let (pairs, there, eq) = fold_segments_complete route path bound ((name, dstr p) ∷ acc) ex in
      (
        (r, p) ∷ pairs,
        rw there refl,
        ap (λ a. fold_segments dstr a pairs) (bind_segment_variable acc r p name v) ∙ eq,
      )
  fold_segments_complete _ _ _ acc (concrete {r} {route} {path} {bound} v ex) =
      let (pairs, there, eq) = fold_segments_complete route path bound acc ex in
      (
        (r, r) ∷ pairs,
        rw there refl,
        ap (λ a. fold_segments dstr a pairs)
              (bind_segment_same acc r r v (ground (arith, same_refl r)))
            ∙ eq,
      )
  fold_segments_complete _ _ _ acc (percent {p} {route} {path} {bound} ex) =
      let (pairs, there, eq) = fold_segments_complete route path bound acc ex in
      (
        (codes "%", p) ∷ pairs,
        rw there refl,
        ap (λ a. fold_segments dstr a pairs)
              (bind_segment_same acc (codes "%") p percent_plain
                (ground (arith, same_refl (codes "%"))))
            ∙ eq,
      )

  pub do_binding_complete :
      (route path : List Chars) (bound : List (Chars × D))
      → Exact route path bound
      → do_binding dstr route path ≡ some (reverse bound)
  unfolding do_binding
  do_binding_complete route path bound ex =
      let (pairs, there, eq) = fold_segments_complete route path bound [] ex in
      ground (arith, there, eq)
