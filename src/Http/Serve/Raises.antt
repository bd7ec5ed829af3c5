-- ===== src/Http/Serve/Raises.antt =====
-- When `user_page_handler` raises an exception.
use mathlib.Core.List.{Mem, mem-cons_self, reverse}
use dark.Common.{
  ◌≡◌, ◌⊎◌, ◌↔◌, inl, inr, refl, sym, ap, ◌∙◌, Bool, true, false, Option, none, some, List, [], ◌∷◌,
  Chars, codes, arith, same_text, if◌then◌else◌,
}
use dark.Http.Handlers.{Handler}
use dark.Http.Filter.{Sort, IsSort}
use dark.Http.Request.{Request, Dvals, from_request}
use dark.Http.Serve.{
  options, icon, raises, answer_404, execute_page, http_route_input_vars, serve_pages, pages_for,
  user_page_handler, chosen_binds,
}

execute_page-raises :
    {Expr D : Type 0} (page : Handler Expr) (o : Option D) (bound : List (Chars × D))
    → (execute_page page o (some bound) ≡ raises) ↔ (o ≡ none)
unfolding execute_page
execute_page-raises page (some input) bound =
    (λ e. absurd (ground arith), λ e. absurd (ground arith))
execute_page-raises page none bound = (λ e. refl, λ e. refl)

no_page-raises :
    {Expr D : Type 0} (is_options is_icon : Bool) (o : Option D)
    → ((if is_options then options else if is_icon then icon else answer_404 {Expr = Expr} o)
        ≡ raises)
      ↔ ((is_options ≡ false) × (is_icon ≡ false) × (o ≡ none))
unfolding answer_404
no_page-raises true is_icon o = (λ e. absurd (ground arith), λ (e, _, _). absurd (ground arith))
no_page-raises false true o = (λ e. absurd (ground arith), λ (_, e, _). absurd (ground arith))
no_page-raises false false (some input) =
    (λ e. absurd (ground arith), λ (_, _, e). absurd (ground arith))
no_page-raises false false none = (λ e. (refl, refl, refl), λ e. refl)

module _ {Expr D : Type 0} (equal : Chars → Chars → Bool) (raised : Chars) (dstr : Chars → D)
    (sort : Sort (Handler Expr)) (V : Dvals D) where
  -- One page and a request that cannot be parsed, or no page, a request that is for neither the options
  -- nor the icon, and a value for it that cannot be made even if its body may be unparseable.
  abbrev pub Failing : Chars → Chars → Request → List (Handler Expr) → Type 0
  Failing verb path request chosen =
      ((h : Handler Expr) × (chosen ≡ h ∷ []) × (from_request equal V false request ≡ none))
      ⊎ ((chosen ≡ [])
          × (equal verb (codes "OPTIONS") ≡ false)
          × (same_text path (codes "/favicon.ico") ≡ false)
          × (from_request equal V true request ≡ none))

  raising :
      (verb path : Chars) (request : Request) (chosen : List (Handler Expr))
      → ((h : Handler Expr)
          → Mem h chosen
          → (bound : List (Chars × D)) × (http_route_input_vars equal raised dstr sort V h path
              ≡ some bound))
      → (serve_pages equal raised dstr sort V verb path request chosen ≡ raises)
        ↔ Failing verb path request chosen
  unfolding serve_pages
  raising verb path request [] binds =
      let iff =
        no_page-raises {Expr = Expr} (equal verb (codes "OPTIONS"))
          (same_text path (codes "/favicon.ico")) (from_request equal V true request) in
      (
        λ e. let (a, b, c) = iff.0 e in inr (refl, a, b, c),
        λ w. elim w [
          | inl (h, at, e) ↦ absurd (ground arith)
          | inr (at, a, b, c) ↦ iff.1 (a, b, c)
        ],
      )
  raising verb path request (page ∷ []) binds =
      let o = from_request equal V false request in
      let (bound, at) = binds page mem-cons_self in
      let iff = execute_page-raises page o bound in
      let same = ap (λ vars. execute_page page o vars) at in
      (
        λ e. inl (page, refl, iff.0 (sym same ∙ e)),
        λ w. elim w [
          | inl (h, _, e) ↦ same ∙ iff.1 e
          | inr (none_chosen, _, _, _) ↦ absurd (ground arith)
        ],
      )
  raising verb path request (a ∷ b ∷ rest) binds = (
    λ e. absurd (ground arith),
    λ w. elim w [
      | inl (h, at, e) ↦ absurd (ground arith)
      | inr (at, _, _, _) ↦ absurd (ground arith)
    ],
  )

  -- With a sort as it is documented and where making a value of a text raises nothing, for a path
  -- that begins with a slash: parsing the request or binding the variables of the route raises an
  -- exception if and only if the handlers that are chosen are just one and the request cannot be
  -- parsed, or they are none, the request is for neither the options nor the icon, and no value can
  -- be made of it even with allow_unparseable. So binding raises none.
  pub user_page_handler-raises :
      (sorts : IsSort sort) (verb s : Chars) (request : Request) (pages : List (Handler Expr))
      → (user_page_handler equal raised dstr sort V verb (b'/' ∷ s) request pages ≡ raises)
        ↔ Failing verb (b'/' ∷ s) request (pages_for equal raised dstr sort V (b'/' ∷ s) pages)
  unfolding user_page_handler
  user_page_handler-raises sorts verb s request pages =
      raising verb (b'/' ∷ s) request (pages_for equal raised dstr sort V (b'/' ∷ s) pages) (λ h m.
        let (_, (_, bound, _, _, at)) = chosen_binds equal raised dstr sort V sorts s pages h m in
        (reverse bound, at))
