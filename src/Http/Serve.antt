-- ===== src/Http/Serve.antt =====
-- `user_page_handler` of backend/libbackend/webserver.ml, from the choice of the page to the input
-- that it is executed with, with `http_route_input_vars` of backend/libexecution/execution.ml. What is
-- stored, pushed and executed on the way is not part of it.
pub mod Raises
use mathlib.Core.List.{Mem, mem-cons_self, reverse}
use dark.Common.{
  ◌≡◌, ◌⊎◌, ◌↔◌, inl, inr, refl, sym, ap, ◌∙◌, subst, Bool, true, false, Option, none, some, List,
  [], ◌∷◌, Chars, codes, arith, same_text, if◌then◌else◌, Option-cases,
}
use dark.Http.Paths.{split_uri_path, split_uri_path-path_of, split_uri_path-IsSegment}
use dark.Http.Bind.{bind_segments, bind_route_variables}
use dark.Http.Bind.Matches.{Matches}
use dark.Http.Bind.Laws.{bind_route_variables_lem, matched}
use dark.Http.Handlers.{Handler, event_name_for}
use dark.Http.Filter.{Sort, IsSort, event_name_for_exn, filter_matching_handlers}
use dark.Http.Filter.Laws.{named, filter_matching_handlers_lem}
use dark.Http.Request.{Request, Dvals, from_request}
use dark.Http.Sanitize.{sanitize_uri_path, sanitize_uri_path_lem}

-- The answers: `executed` has the page and its `input_vars`, and `raises` is an exception of
-- `from_request` or of `bind_route_variables_exn`.
pub data Served (Expr D : Type 0) : Type 0 where
  options : Served Expr D
  icon : Served Expr D
  not_found : Served Expr D
  more_than_one : Served Expr D
  raises : Served Expr D
  executed : Handler Expr → List (Chars × D) → Served Expr D

unfoldable pub answer_404 : {Expr D : Type 0} → Option D → Served Expr D
answer_404 (some input) = not_found
answer_404 none = raises

-- What `from_request` and `http_route_input_vars` gave, in this order.
unfoldable pub execute_page :
    {Expr D : Type 0} → Handler Expr → Option D → Option (List (Chars × D)) → Served Expr D
execute_page page (some input) (some bound) = executed page ((codes "request", input) ∷ bound)
execute_page page (some input) none = raises
execute_page page none _ = raises

answer_404_other :
    {Expr D : Type 0} (o : Option D) (h : Handler Expr) (vars : List (Chars × D))
    → answer_404 o ≡ executed h vars
    → ⊥
unfolding answer_404
answer_404_other (some input) h vars e = ground arith
answer_404_other none h vars e = ground arith

execute_page_executed :
    {Expr D : Type 0} (page h : Handler Expr) (request : Option D)
    (variables : Option (List (Chars × D))) (vars : List (Chars × D))
    → execute_page page request variables ≡ executed h vars
    → (page ≡ h)
      × ((input : D) × (bound : List (Chars × D)) × (request ≡ some input)
          × (variables ≡ some bound)
          × (vars ≡ (codes "request", input) ∷ bound))
unfolding execute_page
execute_page_executed page h (some input) (some bound) vars e =
    (ground arith, (input, bound, refl, refl, ground arith))
execute_page_executed page h (some input) none vars e = absurd (ground arith)
execute_page_executed page h none variables vars e = absurd (ground arith)

-- `equal` is `String.Caseless.equal`.
module _ {Expr D : Type 0} (equal : Chars → Chars → Bool) (raised : Chars) (dstr : Chars → D)
    (sort : Sort (Handler Expr)) (V : Dvals D) where
  unfoldable pub http_route_input_vars : Handler Expr → Chars → Option (List (Chars × D))
  unfolding bind_route_variables
  http_route_input_vars h request_path =
      bind_route_variables dstr (event_name_for_exn raised h) request_path

  unfoldable pub serve_pages : Chars → Chars → Request → List (Handler Expr) → Served Expr D
  unfolding http_route_input_vars same_text answer_404 execute_page from_request
  serve_pages verb path request [] =
      if equal verb (codes "OPTIONS")
      then options
      else if same_text path (codes "/favicon.ico")
      then icon
      else answer_404 (from_request equal V true request)
  serve_pages verb path request (page ∷ []) =
      execute_page page (from_request equal V false request) (http_route_input_vars page path)
  serve_pages verb path request (a ∷ b ∷ rest) = more_than_one

  abbrev pub pages_for : Chars → List (Handler Expr) → List (Handler Expr)
  pages_for path http_handlers =
      filter_matching_handlers raised dstr sort (sanitize_uri_path path) http_handlers

  unfoldable pub user_page_handler : Chars → Chars → Request → List (Handler Expr) → Served Expr D
  unfolding serve_pages filter_matching_handlers sanitize_uri_path
  user_page_handler verb path request http_handlers =
      serve_pages verb path request (pages_for path http_handlers)

  -- Only a single page is executed, with a request that can be parsed and a route that binds the path.
  only_page :
      (verb path : Chars) (request : Request) (pages : List (Handler Expr)) (h : Handler Expr)
      (vars : List (Chars × D))
      → serve_pages verb path request pages ≡ executed h vars
      → (pages ≡ h ∷ [])
        × ((input : D) × (bound : List (Chars × D)) × (from_request equal V false request
              ≡ some input)
            × (http_route_input_vars h path ≡ some bound)
            × (vars ≡ (codes "request", input) ∷ bound))
  unfolding serve_pages
  only_page verb path request [] h vars e =
      absurd (ground (arith, answer_404_other (from_request equal V true request) h vars))
  only_page verb path request (page ∷ []) h vars e =
      let (same, (input, bound, parsed, binds, at)) =
        execute_page_executed page h _ (http_route_input_vars page path) vars e in
      (
        ap (λ p. p ∷ []) same,
        (input, bound, parsed, ap (λ p. http_route_input_vars p path) (sym same) ∙ binds, at),
      )
  only_page verb path request (a ∷ b ∷ rest) h vars e = absurd (ground arith)

  segments_same :
      (s : Chars) → split_uri_path (sanitize_uri_path (b'/' ∷ s)) ≡ split_uri_path (b'/' ∷ s)
  segments_same s =
      ap split_uri_path (sanitize_uri_path_lem s)
      ∙ split_uri_path-path_of _ (split_uri_path-IsSegment (b'/' ∷ s))

  same_variables :
      (route s : Chars)
      → bind_route_variables dstr route (sanitize_uri_path (b'/' ∷ s))
        ≡ bind_route_variables dstr route (b'/' ∷ s)
  unfolding bind_route_variables
  same_variables route s = ap (bind_segments dstr (split_uri_path route)) (segments_same s)

  -- A page that was chosen is one of the handlers, and its route binds the path as it came.
  pub chosen_binds :
      (sorts : IsSort sort) (s : Chars) (pages : List (Handler Expr)) (h : Handler Expr)
      → Mem h (pages_for (b'/' ∷ s) pages)
      → Mem h pages
        × ((route : Chars) × (bound : List (Chars × D)) × (event_name_for h ≡ some route)
            × Matches dstr (split_uri_path route) (split_uri_path (b'/' ∷ s)) bound
            × (http_route_input_vars h (b'/' ∷ s) ≡ some (reverse bound)))
  unfolding http_route_input_vars
  chosen_binds sorts s pages h m =
      let path = b'/' ∷ s in
      let (there, (route, (complete, name, match_), top)) =
        (filter_matching_handlers_lem dstr raised sort sorts (sanitize_uri_path path) pages h).0
          m in
      let (result, found) = matched dstr route (sanitize_uri_path path) match_ in
      let result_at = sym (same_variables route s) ∙ found in
      let (bound, how, eq) = (bind_route_variables_lem dstr route path result).0 result_at in
      (
        there,
        (
          route,
          bound,
          name,
          how,
          ap (λ r. bind_route_variables dstr r path) (named dstr raised h route name)
              ∙ result_at
              ∙ ap (λ r. some r) eq,
        ),
      )

  -- With a sort as it is documented, for a path that begins with a slash: a page that is executed is
  -- one of the handlers, its route matches the path of the request, also where only the path that the
  -- pages were chosen for was sanitized, and its input are the parsed request and the variables of
  -- that match.
  pub user_page_handler_lem :
      (sorts : IsSort sort) (verb s : Chars) (request : Request) (pages : List (Handler Expr))
      (h : Handler Expr) (vars : List (Chars × D))
      → user_page_handler verb (b'/' ∷ s) request pages ≡ executed h vars
      → Mem h pages
        × ((route : Chars) × (bound : List (Chars × D)) × (event_name_for h ≡ some route)
            × Matches dstr (split_uri_path route) (split_uri_path (b'/' ∷ s)) bound
            × ((input : D) × (from_request equal V false request ≡ some input)
                × (vars ≡ (codes "request", input) ∷ reverse bound)))
  unfolding user_page_handler
  user_page_handler_lem sorts verb s request pages h vars e =
      let path = b'/' ∷ s in
      let (one, (input, found, parsed, binds, at)) =
        only_page verb path request (pages_for path pages) h vars e in
      let (there, (route, bound, name, m, result_at)) =
        chosen_binds sorts s pages h (subst (λ hs. Mem h hs) (sym one) mem-cons_self) in
      let same : found ≡ reverse bound = ground (arith, sym binds ∙ result_at) in
      (
        there,
        (route, bound, name, m, (input, parsed, at ∙ ap (λ b. (codes "request", input) ∷ b) same)),
      )
