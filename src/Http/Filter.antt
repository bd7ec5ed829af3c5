-- ===== src/Http/Filter.antt =====
-- Which handlers a request is for: the filters of backend/libexecution/http.ml.
pub mod Greatest
pub mod Laws
use mathlib.Core.Bool.{Bool-discrete}
use mathlib.Core.List.{filter, reverse, Perm, Pairwise}
use Prim.Native.Nat.{Ordering, lt, eq, gt}
use dark.Common.{◌≡◌, ◌≢◌, Bool, true, false, Option, none, some, List, [], ◌∷◌, Chars}
use dark.Http.Paths.{split_uri_path}
use dark.Http.Bind.{request_path_matches_route}
use dark.Http.Specificity.{IsPreorder, compare_route_specificity}
use dark.Http.Handlers.{Handler, is_complete, event_name_for}

-- `List.filter ~f`
abbrev pub keep {ℓ} : {A : Type ℓ} → (A → Bool) → List A → List A
keep test = filter (λ x. Bool-discrete (test x) true)

-- `List.sort ~compare`: the library's sort, and what its documentation says of it.
abbrev pub Sort : Type 0 → Type 0
Sort A = (A → A → Ordering) → List A → List A

pub record IsSort {A : Type 0} (sort : Sort A) : Type 0 where
  pub permutes :
      (compare : A → A → Ordering) (xs : List A) → IsPreorder compare → Perm (sort compare xs) xs
  pub ascends :
      (compare : A → A → Ordering) (xs : List A)
      → IsPreorder compare
      → Pairwise (λ a b. compare a b ≢ gt) (sort compare xs)

abbrev pub is_eq : Ordering → Bool
is_eq eq = true
is_eq _ = false

-- The first of the handlers and those as specific as it.
unfoldable pub pluck : {A : Type 0} → (A → A → Ordering) → List A → List A
pluck compare [] = []
pluck compare (a ∷ []) = a ∷ []
pluck compare (a ∷ b ∷ rest) = a ∷ keep (λ x. is_eq (compare a x)) (b ∷ rest)

-- `raised` stands for what `event_name_for_exn` gives of a handler without a name: an exception.
module _ {Expr : Type 0} (raised : Chars) where
  abbrev pub event_name_for_exn : Handler Expr → Chars
  event_name_for_exn h = elim (event_name_for h) [ none ↦ raised | some s ↦ s ]

  abbrev pub compare_page_route_specificity : Handler Expr → Handler Expr → Ordering
  compare_page_route_specificity left right =
      compare_route_specificity (split_uri_path (event_name_for_exn left))
        (split_uri_path (event_name_for_exn right))

  unfoldable pub filter_invalid_handler_matches :
      {D : Type 0} → (Chars → D) → Chars → List (Handler Expr) → List (Handler Expr)
  unfolding request_path_matches_route
  filter_invalid_handler_matches dstr path =
      keep (λ h. request_path_matches_route dstr (event_name_for_exn h) path)

  unfoldable pub filter_matching_handlers_by_specificity :
      Sort (Handler Expr) → List (Handler Expr) → List (Handler Expr)
  unfolding pluck compare_route_specificity split_uri_path
  filter_matching_handlers_by_specificity sort pages =
      pluck compare_page_route_specificity (reverse (sort compare_page_route_specificity pages))

  unfoldable pub filter_matching_handlers :
      {D : Type 0}
      → (Chars → D)
      → Sort (Handler Expr)
      → Chars
      → List (Handler Expr)
      → List (Handler Expr)
  unfolding filter_invalid_handler_matches filter_matching_handlers_by_specificity is_complete
  filter_matching_handlers dstr sort path pages =
      filter_matching_handlers_by_specificity sort
        (filter_invalid_handler_matches dstr path (keep is_complete pages))
