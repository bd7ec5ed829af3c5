-- ===== src/Http/Filter/Laws.antt =====
-- The handlers that are chosen.
use mathlib.Core.List.{reverse, Mem, mem-reverse, Pairwise-reverse}
use mathlib.Core.List.Perm
use Prim.Native.Nat.{gt}
use dark.Common.{◌≡◌, ◌≢◌, ◌↔◌, sym, ap, ◌∙◌, Bool, true, some, List, Chars, arith}
use dark.Http.Paths.{split_uri_path}
use dark.Http.Bind.{request_path_matches_route}
use dark.Http.Specificity.{
  IsPreorder, compare_route_specificity, compare_route_specificity-IsPreorder,
}
use dark.Http.Handlers.{Handler, is_complete, event_name_for}
use dark.Http.Filter.Greatest.{keep_iff, pluck_iff}
use dark.Http.Filter.{
  keep, Sort, IsSort, event_name_for_exn, filter_invalid_handler_matches,
  compare_page_route_specificity, filter_matching_handlers_by_specificity, filter_matching_handlers,
}

module _ {Expr D : Type 0} (dstr : Chars → D) (raised : Chars) where
  page_order : IsPreorder (compare_page_route_specificity {Expr = Expr} raised)
  page_order = record {
    flips = λ a b. compare_route_specificity-IsPreorder.flips _ _;
    trans = λ a b c p q. compare_route_specificity-IsPreorder.trans _ _ _ p q;
  }

  -- A complete handler whose route matches the path.
  abbrev pub IsCandidate : Chars → Handler Expr → Chars → Type 0
  IsCandidate path h route =
      (is_complete h ≡ true)
      × (event_name_for h ≡ some route)
      × (request_path_matches_route dstr route path ≡ true)

  complete_name :
      (h : Handler Expr)
      → is_complete h ≡ true
      → event_name_for h ≡ some (event_name_for_exn raised h)
  unfolding is_complete
  complete_name h c = ground arith

  pub named :
      (h : Handler Expr) (route : Chars)
      → event_name_for h ≡ some route
      → event_name_for_exn raised h ≡ route
  named h route e = ground arith

  ranked :
      (g h : Handler Expr) (other route : Chars)
      → event_name_for g ≡ some other
      → event_name_for h ≡ some route
      → compare_page_route_specificity raised g h
        ≡ compare_route_specificity (split_uri_path other) (split_uri_path route)
  ranked g h other route eg eh =
      ap
        (λ r.
          compare_route_specificity (split_uri_path r)
            (split_uri_path (event_name_for_exn raised h)))
        (named g other eg)
      ∙ ap (λ r. compare_route_specificity (split_uri_path other) (split_uri_path r))
          (named h route eh)

  valid_iff :
      (path : Chars) (pages : List (Handler Expr)) (h : Handler Expr)
      → Mem h (filter_invalid_handler_matches raised dstr path (keep is_complete pages))
        ↔ (Mem h pages × ((route : Chars) × IsCandidate path h route))
  unfolding filter_invalid_handler_matches
  valid_iff path pages h =
      let test : Handler Expr → Bool =
        λ g. request_path_matches_route dstr (event_name_for_exn raised g) path in
      (
        λ m.
            let (passed, matches) = (keep_iff test).0 m in
            let (there, complete) = (keep_iff is_complete).0 passed in
            (there, (event_name_for_exn raised h, (complete, complete_name h complete, matches))),
        λ (there, (route, (complete, name, matches))). (keep_iff test).1 (
          (keep_iff is_complete).1 (there, complete),
          ap (λ r. request_path_matches_route dstr r path) (named h route name) ∙ matches,
        ),
      )

  module _ (sort : Sort (Handler Expr)) (sorts : IsSort sort) where
    by_specificity_iff :
        (pages : List (Handler Expr)) (h : Handler Expr)
        → Mem h (filter_matching_handlers_by_specificity raised sort pages) ↔ (
            Mem h pages
            × ((g : Handler Expr) → Mem g pages → compare_page_route_specificity raised g h ≢ gt))
    unfolding filter_matching_handlers_by_specificity
    by_specificity_iff pages h =
        let ordered : List (Handler Expr) =
          reverse (sort (compare_page_route_specificity raised) pages) in
        let perm = sorts.permutes (compare_page_route_specificity raised) pages page_order in
        let same : (x : Handler Expr) → Mem x ordered ↔ Mem x pages = λ x. (
          λ m. (Perm.mem_iff perm).0 (mem-reverse.0 m),
          λ m. mem-reverse.1 ((Perm.mem_iff perm).1 m),
        ) in
        let plucked =
          pluck_iff page_order ordered h
            ((Pairwise-reverse (λ a b. hlevel)).1 (sorts.ascends _ pages page_order)) in
        (
          λ m. let (there, top) = plucked.0 m in ((same h).0 there, λ g k. top g ((same g).1 k)),
          λ (there, top). plucked.1 ((same h).1 there, λ g k. top g ((same g).0 k)),
        )

    -- The handlers that a request is for are exactly the complete ones whose route matches its path
    -- and is not less specific than that of another such handler.
    pub filter_matching_handlers_lem :
        (path : Chars) (pages : List (Handler Expr)) (h : Handler Expr)
        → Mem h (filter_matching_handlers raised dstr sort path pages) ↔ (
            Mem h pages
            × ((route : Chars) × IsCandidate path h route
                × ((g : Handler Expr) (other : Chars)
                    → Mem g pages
                    → IsCandidate path g other
                    → compare_route_specificity (split_uri_path other) (split_uri_path route)
                      ≢ gt)))
    unfolding filter_matching_handlers
    filter_matching_handlers_lem path pages h =
        let valid = filter_invalid_handler_matches raised dstr path (keep is_complete pages) in
        (
          λ m.
              let (passed, top) = (by_specificity_iff valid h).0 m in
              let (there, (route, candidate)) = (valid_iff path pages h).0 passed in
              (
                there,
                (
                  route,
                  candidate,
                  λ g other k c e.
                      top g ((valid_iff path pages g).1 (k, (other, c)))
                        (ranked g h other route c.1 candidate.1 ∙ e),
                ),
              ),
          λ (there, (route, candidate, top)). (by_specificity_iff valid h).1 (
            (valid_iff path pages h).1 (there, (route, candidate)),
            λ g k e.
                let (m, (other, c)) = (valid_iff path pages g).0 k in
                top g other m c (sym (ranked g h other route c.1 candidate.1) ∙ e),
          ),
        )
