-- ===== src/Http/Tests.antt =====
-- The theorems about routes at concrete inputs, with a sort and a `LIKE` that do what is asked of them.
use Prim.Native.Nat.{Ordering, gt}
use mathlib.Core.List.{
  Mem, not-mem-nil, rel_of_Pairwise-cons, Perm, Pairwise, mem-cons_self, reverse, forall_mem-cons,
}
use mathlib.Core.List.Pairwise
use mathlib.Core.List.Perm
use dark.Common.{
  same_text, ℕ, ◌≡◌, ◌≢◌, refl, sym, subst, Bool, true, false, Option, none, some, ◌↔◌, contains,
  is_prefix, List, [], ◌∷◌, ◌++◌, Chars, codes, arith, ◌==◌, ◌||◌, if◌then◌else◌, All, Bool-cases,
  inl, inr,
}
use dark.Common.Split.{split}
use dark.Http.Paths.{route_variable, split_uri_path, path_of, nonempty}
use dark.Http.Bind.{
  bind_route_variables, request_path_matches_route, bind_segments, do_binding, zip_exn,
  fold_segments, bind_segment, is_wildcard, munge,
}
use dark.Http.Bind.Matches.{Matches}
use dark.Http.Bind.Laws.{bind_route_variables_lem}
use dark.Http.Specificity.{IsPreorder, compare_route_specificity}
use dark.Http.Handlers.{Handler, event_name_for, is_complete}
use dark.Http.Handlers.OrBlank.{filled}
use dark.Http.Filter.{
  IsSort, filter_matching_handlers, pluck, filter_invalid_handler_matches,
  filter_matching_handlers_by_specificity,
}
use dark.Http.Pattern.{IsLike, route_to_postgres_pattern}
use dark.Http.Pattern.Laws.{IsPlain, route_to_postgres_pattern_lem}
use dark.Http.Filter.Laws.{IsCandidate, filter_matching_handlers_lem}
use dark.Http.Sanitize.{sanitize_uri_path, squeeze, chop_slash}
use dark.Http.Serve.{
  executed, raises, user_page_handler, user_page_handler_lem, serve_pages, http_route_input_vars,
  execute_page, pages_for,
}
use dark.Http.Serve.Raises.{Failing, user_page_handler-raises}
use dark.Http.Request.{Request, Dvals, from_request}

abbrev is_gt : Ordering → Bool
is_gt gt = true
is_gt _ = false

gt_of : (o : Ordering) → is_gt o ≡ true → o ≡ gt
gt_of o e = ground arith

not_gt : (o : Ordering) → is_gt o ≡ false → o ≢ gt
not_gt o e f = ground arith

module _ {A : Type 0} (compare : A → A → Ordering) where
  insert : A → List A → List A
  insert x [] = x ∷ []
  insert x (y ∷ ys) = let rest = insert x ys in if is_gt (compare x y) then y ∷ rest else x ∷ y ∷ ys

  insertion_sort : List A → List A
  unfolding insert
  insertion_sort [] = []
  insertion_sort (x ∷ xs) = insert x (insertion_sort xs)

  insert-Perm : (x : A) (ys : List A) → Perm (insert x ys) (x ∷ ys)
  unfolding insert
  insert-Perm x [] = Perm.refl (x ∷ [])
  insert-Perm x (y ∷ ys) = elim (Bool-cases (is_gt (compare x y))) [
    | inl e ↦ rw e (Perm.trans (Perm.cons y (insert-Perm x ys)) (Perm.swap x y ys))
    | inr e ↦ rw e (Perm.refl (x ∷ y ∷ ys))
  ]

  insertion_sort-Perm : (xs : List A) → Perm (insertion_sort xs) xs
  unfolding insertion_sort
  insertion_sort-Perm [] = Perm.refl []
  insertion_sort-Perm (x ∷ xs) =
      Perm.trans (insert-Perm x (insertion_sort xs)) (Perm.cons x (insertion_sort-Perm xs))

  module _ (order : IsPreorder compare) where
    swap_le : (x y : A) → compare x y ≡ gt → compare y x ≢ gt
    swap_le x y e f = ground (arith, order.flips x y)

    insert-Pairwise :
        (x : A) (ys : List A)
        → Pairwise (λ a b. compare a b ≢ gt) ys
        → Pairwise (λ a b. compare a b ≢ gt) (insert x ys)
    unfolding insert
    insert-Pairwise x [] h = Pairwise.cons (λ a m. absurd (not-mem-nil m)) Pairwise.nil
    insert-Pairwise x (y ∷ ys) h = elim (Bool-cases (is_gt (compare x y))) [
      | inl e ↦ rw e (
          Pairwise.cons
            (λ z m.
              (forall_mem-cons (λ a. hlevel)).1
                (swap_le x y (gt_of (compare x y) e), λ a k. rel_of_Pairwise-cons h k) z
                ((Perm.mem_iff (insert-Perm x ys)).0 m))
            (insert-Pairwise x ys (Pairwise.of_cons h)))
      | inr e ↦ rw e (
          Pairwise.cons
            ((forall_mem-cons (λ a. hlevel)).1 (
              not_gt (compare x y) e,
              λ a k. order.trans x y a (not_gt (compare x y) e) (rel_of_Pairwise-cons h k),
            ))
            h)
    ]

    insertion_sort-Pairwise : (xs : List A) → Pairwise (λ a b. compare a b ≢ gt) (insertion_sort xs)
    unfolding insertion_sort
    insertion_sort-Pairwise [] = Pairwise.nil
    insertion_sort-Pairwise (x ∷ xs) =
        insert-Pairwise x (insertion_sort xs) (insertion_sort-Pairwise xs)

insertion_sort-IsSort : {A : Type 0} → IsSort {A = A} insertion_sort
insertion_sort-IsSort = record {
  permutes = λ compare xs order. insertion_sort-Perm compare xs;
  ascends = λ compare xs order. insertion_sort-Pairwise compare order xs;
}

-- The pattern comes first, as for `IsLike`.
data Like : Chars → Chars → Type 0 where
  nothing : Like [] []
  character :
      {c : ℕ} {pattern text : Chars}
      → (c == b'%' || c == b'_' || c == b'\\') ≡ false
      → Like pattern text
      → Like (c ∷ pattern) (c ∷ text)
  escaped :
      {c : ℕ} {pattern text : Chars} → Like pattern text → Like (b'\\' ∷ c ∷ pattern) (c ∷ text)
  anything :
      (skipped : Chars) {pattern text : Chars}
      → Like pattern text
      → Like (b'%' ∷ pattern) (skipped ++ text)

Like-IsLike : IsLike Like
Like-IsLike = record {
  nothing = nothing;
  character = λ c p t e l. character e l;
  escaped = λ c p t l. escaped l;
  anything = λ skipped p t l. anything skipped l;
}

abbrev same : Chars → Chars
same s = s

abbrev card_route : Chars
card_route = codes "/user/:id/card/:rest"

abbrev card_path : Chars
card_path = codes "/user/ann/card/1/front"

card_bound :
    bind_route_variables same card_route card_path
    ≡ some ((codes "rest", codes "1/front") ∷ (codes "id", codes "ann") ∷ [])
unfolding bind_route_variables split_uri_path split route_variable same_text
card_bound = refl

-- The text that the route finds in the path.
bind_route_variables_example :
    (bound : List (Chars × Chars)) × Matches same
      (split_uri_path card_route)
      (split_uri_path card_path)
      bound
    × ((codes "rest", codes "1/front") ∷ (codes "id", codes "ann") ∷ [] ≡ reverse bound)
bind_route_variables_example = (bind_route_variables_lem same card_route card_path _).0 card_bound

abbrev page : ℕ → Chars → Handler ℕ
page tlid name = record {
  tlid = tlid;
  ast = 0;
  spec = record {
    module_ = filled 1 (codes "HTTP");
    name = filled 2 name;
    modifier = filled 3 (codes "GET");
  };
}

abbrev general : Handler ℕ
general = page 1 card_route

abbrev special : Handler ℕ
special = page 2 (codes "/user/ann/card/:rest")

abbrev unrelated : Handler ℕ
unrelated = page 3 (codes "/about")

abbrev site : List (Handler ℕ)
site = general ∷ special ∷ unrelated ∷ []

chosen_special :
    filter_matching_handlers (codes "raised") same insertion_sort card_path site ≡ special ∷ []
unfolding filter_matching_handlers split_uri_path split route_variable same_text insertion_sort
    insert is_complete pluck filter_invalid_handler_matches filter_matching_handlers_by_specificity
    request_path_matches_route bind_route_variables bind_segments do_binding zip_exn fold_segments
    bind_segment is_wildcard munge compare_route_specificity nonempty
chosen_special = refl

-- The more specific of two routes that match.
filter_matching_handlers_example :
    Mem special site
    × ((route : Chars) × IsCandidate same (codes "raised") card_path special route
        × ((g : Handler ℕ) (other : Chars)
            → Mem g site
            → IsCandidate same (codes "raised") card_path g other
            → compare_route_specificity (split_uri_path other) (split_uri_path route) ≢ gt))
filter_matching_handlers_example =
    (filter_matching_handlers_lem same (codes "raised") insertion_sort insertion_sort-IsSort
        card_path site special).0
      (subst (λ hs. Mem special hs) (sym chosen_special) mem-cons_self)

card-IsPlain : All IsPlain (split_uri_path card_route)
unfolding split_uri_path nonempty split same_text
card-IsPlain = (
  (refl, (refl, (refl, (refl, (refl, tt))))),
  (
    (refl, (refl, (refl, (refl, tt)))),
    (
      (refl, (refl, (refl, (refl, (refl, tt))))),
      ((refl, (refl, (refl, (refl, (refl, (refl, tt)))))), tt),
    ),
  ),
)

card_sanitized : path_of (split_uri_path card_path) ≡ card_path
unfolding split_uri_path nonempty split
card_sanitized = refl

card_matches : request_path_matches_route same card_route card_path ≡ true
unfolding request_path_matches_route bind_route_variables bind_segments do_binding zip_exn
    fold_segments bind_segment is_wildcard munge split_uri_path nonempty split route_variable
    same_text
card_matches = refl

route_to_postgres_pattern_example : Like (route_to_postgres_pattern card_route) card_path
route_to_postgres_pattern_example =
    route_to_postgres_pattern_lem Like-IsLike same card_route card_path card-IsPlain card_sanitized
      card_matches

abbrev card_request : Chars
card_request = codes "/user/ann//card/1/front/"

abbrev flat : List (Chars × Chars) → Chars
flat [] = []
flat ((key, text) ∷ pairs) = key ++ codes "=" ++ text ++ codes ";" ++ flat pairs

abbrev braced : Chars → Option Chars
braced [] = none
braced (c ∷ cs) = if c == b'{' then some (c ∷ cs) else none

-- A value is a text, and only a body that begins with a brace can be parsed.
abbrev texts : Dvals Chars
texts = record {
  null = codes "null";
  empty_dobj = [];
  to_dobj_exn = λ pairs. flat pairs;
  obj_merge = λ l r. some (l ++ r);
  of_unknown_json_v0 = braced;
  of_form_encoding = λ s. some s;
  other_parts = λ r. some (r.uri ∷ []);
}

abbrev posted : Chars → Request
posted body = record {
  headers = (codes "content-type", codes "application/json") ∷ [];
  query = [];
  rbody = body;
  uri = codes "/user";
}

card_served :
    user_page_handler same_text
      (codes "raised")
      same
      insertion_sort
      texts
      (codes "GET")
      card_request
      (posted (codes "{}"))
      site
    ≡ executed special (
        (codes "request", codes "body={};jsonBody={};formBody=null;/user")
        ∷ (codes "rest", codes "1/front")
        ∷ [])
unfolding user_page_handler serve_pages http_route_input_vars sanitize_uri_path squeeze chop_slash
    filter_matching_handlers split_uri_path split route_variable same_text insertion_sort insert
    is_complete pluck filter_invalid_handler_matches filter_matching_handlers_by_specificity
    request_path_matches_route bind_route_variables bind_segments do_binding zip_exn fold_segments
    bind_segment is_wildcard munge compare_route_specificity nonempty from_request execute_page
    contains is_prefix
card_served = refl

-- A request with slashes too many.
user_page_handler_example :
    Mem special site
    × ((route : Chars) × (bound : List (Chars × Chars)) × (event_name_for special ≡ some route)
        × Matches same (split_uri_path route) (split_uri_path card_request) bound
        × ((input : Chars) × (from_request same_text texts false (posted (codes "{}")) ≡ some input)
            × ((codes "request", codes "body={};jsonBody={};formBody=null;/user")
                  ∷ (codes "rest", codes "1/front")
                  ∷ []
                ≡ (codes "request", input) ∷ reverse bound)))
user_page_handler_example =
    user_page_handler_lem same_text (codes "raised") same insertion_sort texts insertion_sort-IsSort
      (codes "GET") (codes "user/ann//card/1/front/") (posted (codes "{}")) site special _
      card_served

-- A page that is not executed, as its request cannot be parsed.
user_page_handler-raises_example :
    (user_page_handler same_text
        (codes "raised")
        same
        insertion_sort
        texts
        (codes "GET")
        card_request
        (posted (codes "?"))
        site
      ≡ raises)
    ↔ Failing same_text
        (codes "raised")
        same
        insertion_sort
        texts
        (codes "GET")
        card_request
        (posted (codes "?"))
        (pages_for same_text (codes "raised") same insertion_sort texts card_request site)
user_page_handler-raises_example =
    user_page_handler-raises same_text (codes "raised") same insertion_sort texts
      insertion_sort-IsSort (codes "GET") (codes "user/ann//card/1/front/") (posted (codes "?"))
      site
