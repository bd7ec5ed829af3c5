-- ===== src/Http/Bind/Laws.antt =====
-- `bind_route_variables` finds what the route says, and nothing else.
use mathlib.Core.List.{reverse}
use dark.Common.Split.{join}
use dark.Common.{
  ℕ, suc, ◌+◌, ◌<◌, ◌≤◌, ◌≡◌, ◌↔◌, refl, sym, ap, subst, ◌∙◌, inl, inr, true, false, Option, none,
  some, List, [], ◌∷◌, ◌++◌, Chars, arith, if◌then◌else◌, length, length-append, Bool-cases,
  Option-cases, last?, last?-append, take, drop, take-append, take-drop, drop-append, length-take,
  dec_lt, dec_lt,
}
use dark.Http.Paths.{split_uri_path}
use dark.Http.Bind.{
  is_wildcard, do_binding, munge, bind_segments, bind_route_variables, request_path_matches_route,
}
use dark.Http.Bind.Matches.{
  Exact, done, variable, concrete, percent, Matches, exact, longer, do_binding_sound,
  do_binding_complete,
}

no_wildcard : {o : Option Chars} → o ≡ none → is_wildcard o ≡ false
unfolding is_wildcard
no_wildcard e = ground arith

last?-split :
    (route : List Chars) (wild : Chars)
    → last? route ≡ some wild
    → (front : List Chars) × (route ≡ front ++ wild ∷ [])
last?-split [] wild e = absurd (ground arith)
last?-split (r ∷ []) wild e = ([], ground arith)
last?-split (r ∷ s ∷ route) wild e =
    let (front, at) = last?-split (s ∷ route) wild e in (r ∷ front, ap (◌∷◌ r) at)

munge_lem :
    (k : ℕ) (route path : List Chars)
    → length route ≡ k + 1
    → munge route path ≡ take k path ++ join (drop k path) ∷ []
unfolding munge
munge_lem k route path h = ap (λ n. take n path ++ join (drop n path) ∷ []) (omega arith)

module _ {D : Type 0} (dstr : Chars → D) where
  Exact-length :
      {route path : List Chars} {bound : List (Chars × D)}
      → Exact dstr route path bound
      → length path ≡ length route
  Exact-length done = refl
  Exact-length (variable v ex) = ap suc (Exact-length ex)
  Exact-length (concrete v ex) = ap suc (Exact-length ex)
  Exact-length (percent ex) = ap suc (Exact-length ex)

  -- A result stands for a match, with the variables in reverse.
  Found : List Chars → List Chars → List (Chars × D) → Type 0
  Found route path result =
      (bound : List (Chars × D)) × Matches dstr route path bound × (result ≡ reverse bound)

  munged_sound :
      (wild : Chars) (front path : List Chars) (result : List (Chars × D))
      → is_wildcard (some wild) ≡ true
      → length front + 2 ≤ length path
      → do_binding dstr (front ++ wild ∷ []) (munge (front ++ wild ∷ []) path) ≡ some result
      → Found (front ++ wild ∷ []) path result
  unfolding Found
  munged_sound wild front path result w h e =
      let k = length front in
      let m = munge_lem k (front ++ wild ∷ []) path (length-append front (wild ∷ [])) in
      let (bound, ex, eq) =
        do_binding_sound dstr _ _ result (ap (do_binding dstr (front ++ wild ∷ [])) (sym m) ∙ e) in
      let size = length-take k path (omega arith) in
      let rest : 2 ≤ length (drop k path) =
        omega
          (arith, length-append (take k path) (drop k path), ap length (take-drop k path), size) in
      (
        bound,
        subst (λ p. Matches dstr (front ++ wild ∷ []) p bound) (take-drop k path)
            (longer wild front (take k path) (drop k path) w size rest ex),
        eq,
      )

  -- The branches of the comparison of the lengths.
  bind_segments_shorter :
      (route path : List Chars) → length path < length route → bind_segments dstr route path ≡ none
  unfolding bind_segments
  bind_segments_shorter route path h = ground arith

  bind_segments_equal :
      (route path : List Chars)
      → length path ≡ length route
      → bind_segments dstr route path ≡ do_binding dstr route path
  unfolding bind_segments
  bind_segments_equal route path h = ground arith

  bind_segments_longer :
      (route path : List Chars)
      → length route < length path
      → bind_segments dstr route path
        ≡ (if is_wildcard (last? route) then do_binding dstr route (munge route path) else none)
  unfolding bind_segments
  bind_segments_longer route path h = ground arith

  longer_sound :
      (route path : List Chars) (result : List (Chars × D)) (wild : Chars)
      → length route < length path
      → last? route ≡ some wild
      → is_wildcard (some wild) ≡ true
      → do_binding dstr route (munge route path) ≡ some result
      → Found route path result
  longer_sound route path result wild h at w e =
      let (front, split) = last?-split route wild at in
      subst (λ r. Found r path result) (sym split)
        (munged_sound wild front path result w
          (omega (arith, ap length split, length-append front (wild ∷ [])))
          (ap (λ r. do_binding dstr r (munge r path)) (sym split) ∙ e))

  bind_segments_sound :
      (route path : List Chars) (result : List (Chars × D))
      → bind_segments dstr route path ≡ some result
      → Found route path result
  unfolding Found
  bind_segments_sound route path result e = elim (dec_lt (length path) (length route)) [
    | yes p ↦ absurd (ground (arith, bind_segments_shorter route path p))
    | no p ↦ elim (dec_lt (length route) (length path)) [
      | yes q ↦ elim (Option-cases (last? route)) [
        | inl at ↦ absurd (ground (arith, bind_segments_longer route path q, no_wildcard at))
        | inr (wild, at) ↦ elim (Bool-cases (is_wildcard (some wild))) [
          | inl w ↦
              longer_sound route path result wild q at w
                (ground (arith, bind_segments_longer route path q))
          | inr w ↦ absurd (ground (arith, bind_segments_longer route path q))
        ]
      ]
      | no q ↦
          let (bound, ex, eq) =
            do_binding_sound dstr route path result
              (sym (bind_segments_equal route path (omega arith)) ∙ e) in
          (bound, exact ex, eq)
    ]
  ]

  bind_segments_complete :
      (route path : List Chars) (bound : List (Chars × D))
      → Matches dstr route path bound
      → bind_segments dstr route path ≡ some (reverse bound)
  bind_segments_complete route path bound (exact ex) =
      bind_segments_equal route path (Exact-length ex)
      ∙ do_binding_complete dstr route path bound ex
  bind_segments_complete _ _ bound (longer wild front before after w size two ex) =
      let route = front ++ wild ∷ [] in
      let path = before ++ after in
      let h = length-append front (wild ∷ []) in
      let m : munge route path ≡ before ++ join after ∷ [] =
        munge_lem (length front) route path h
        ∙ rw
            (
              take-append before after (length front) (sym size),
              drop-append (length front) before after (sym size),
            )
            refl in
      bind_segments_longer route path (omega (arith, h, length-append before after))
      ∙ rw (last?-append front wild, w)
          (ap (do_binding dstr route) m ∙ do_binding_complete dstr route _ bound ex)

  -- A route binds a path exactly if its segments match those of the path, one by one or with a wildcard
  -- at the end for all that is left; the variables come with their values, the last one first.
  pub bind_route_variables_lem :
      (route path : Chars) (result : List (Chars × D))
      → (bind_route_variables dstr route path ≡ some result) ↔ (
          (bound : List (Chars × D)) × Matches dstr
            (split_uri_path route)
            (split_uri_path path)
            bound
          × (result ≡ reverse bound))
  unfolding bind_route_variables Found
  bind_route_variables_lem route path result = (
    bind_segments_sound (split_uri_path route) (split_uri_path path) result,
    λ (bound, m, eq). bind_segments_complete _ _ bound m ∙ ap (λ r. some r) (sym eq),
  )

  pub matched :
      (route path : Chars)
      → request_path_matches_route dstr route path ≡ true
      → (result : List (Chars × D)) × (bind_route_variables dstr route path ≡ some result)
  unfolding request_path_matches_route
  matched route path h = elim (Option-cases (bind_route_variables dstr route path)) [
    | inl e ↦ absurd (ground arith)
    | inr found ↦ found
  ]
