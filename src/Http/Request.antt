-- ===== src/Http/Request.antt =====
-- `from_request` of backend/libexecution/parsed_request.ml: the value that a page gets as `request`.
-- The operations on such values, of dval.ml beside it, and the parts of the value that do not come
-- from the body are an interface.
use dark.Common.{
  Bool, true, false, ◌&&◌, ◌||◌, Option, some, none, List, [], ◌∷◌, Chars, codes, if◌then◌else◌,
  contains, ◌≡◌, refl, ap, ◌∙◌, arith,
}

infixl 5 ◌>>=◌
abbrev ◌>>=◌ : {A B : Type 0} → Option A → (A → Option B) → Option B
none >>= f = none
some a >>= f = f a

pub record Request : Type 0 where
  pub headers : List (Chars × Chars)
  pub query : List (Chars × List Chars)
  pub rbody : Chars
  pub uri : Chars

-- `none` is an exception. `other_parts` are parsed_query_string, parsed_headers, unparsed_body, cookies
-- and url.
pub record Dvals (D : Type 0) : Type 0 where
  pub null : D
  pub empty_dobj : D
  pub to_dobj_exn : List (Chars × D) → D
  pub obj_merge : D → D → Option D
  pub of_unknown_json_v0 : Chars → Option D
  pub of_form_encoding : Chars → Option D
  pub other_parts : Request → Option (List D)

pub data Parser : Type 0 where
  json : Parser
  form : Parser
  unknown : Parser

same_parser : Parser → Parser → Bool
same_parser json json = true
same_parser form form = true
same_parser unknown unknown = true
same_parser _ _ = false

-- `equal` is `String.Caseless.equal`.
module _ {D : Type 0} (equal : Chars → Chars → Bool) (V : Dvals D) where
  -- `ct_is`
  unfoldable ct_is : Chars → List (Chars × Chars) → Bool
  ct_is ct [] = false
  ct_is ct ((k, v) ∷ headers) =
      (equal k (codes "content-type") && contains ct v) || ct_is ct headers

  unfoldable body_parser_type : List (Chars × Chars) → Parser
  unfolding ct_is
  body_parser_type headers =
      if ct_is (codes "application/json") headers
      then json
      else if ct_is (codes "application/x-www-form-urlencoded") headers
      then form
      else unknown

  unfoldable parser_fn : Parser → Chars → Option D
  parser_fn json str = V.of_unknown_json_v0 str
  parser_fn form str = V.of_form_encoding str
  parser_fn unknown str = V.of_unknown_json_v0 str

  unfoldable pub parsed_body : List (Chars × Chars) → Chars → Option D
  unfolding parser_fn body_parser_type
  parsed_body headers [] = some (V.to_dobj_exn ((codes "body", V.null) ∷ []))
  parsed_body headers (c ∷ cs) = (do
    bdval ← parser_fn (body_parser_type headers) (c ∷ cs)
    some (V.to_dobj_exn ((codes "body", bdval) ∷ [])))

  unfoldable body_of_fmt : Parser → Chars → List (Chars × Chars) → Chars → Option D
  unfolding parser_fn body_parser_type same_parser
  body_of_fmt fmt key headers [] = some (V.to_dobj_exn ((key, V.null) ∷ []))
  body_of_fmt fmt key headers (c ∷ cs) = (do
    dval ←
        (if same_parser fmt (body_parser_type headers) then parser_fn fmt (c ∷ cs) else some V.null)
    some (V.to_dobj_exn ((key, dval) ∷ [])))

  -- `try … with e -> if allow_unparseable then DNull else raise e`
  unfoldable attempt : Bool → Option D → Option D
  attempt allow_unparseable (some part) = some part
  attempt allow_unparseable none = if allow_unparseable then some V.null else none

  unfoldable merge_parts : D → List D → Option D
  merge_parts acc [] = some acc
  merge_parts acc (p ∷ parts) = (do merged ← V.obj_merge acc p; merge_parts merged parts)

  unfoldable pub from_request : Bool → Request → Option D
  unfolding parsed_body body_of_fmt attempt merge_parts
  from_request allow_unparseable r = (do
    body ← attempt allow_unparseable (parsed_body r.headers r.rbody)
    json_body ← attempt allow_unparseable (body_of_fmt json (codes "jsonBody") r.headers r.rbody)
    form_body ← attempt allow_unparseable (body_of_fmt form (codes "formBody") r.headers r.rbody)
    others ← V.other_parts r
    merge_parts V.empty_dobj (body ∷ json_body ∷ form_body ∷ others))

  attempt-allowed :
      (part : Option D) (d : D) → attempt false part ≡ some d → attempt true part ≡ some d
  unfolding attempt
  attempt-allowed (some part) d h = h
  attempt-allowed none d h = absurd (ground arith)

  bind_allowed :
      (m : Option D) {m' : Option D} {f g : D → Option D} {d : D}
      → ((x : D) → m ≡ some x → m' ≡ some x)
      → ((x : D) → f x ≡ some d → g x ≡ some d)
      → (m >>= f) ≡ some d
      → (m' >>= g) ≡ some d
  bind_allowed none same_m same_f h = absurd (ground arith)
  bind_allowed (some x) {m'} {f} {g} same_m same_f h =
      ap (λ o. o >>= g) (same_m x refl) ∙ same_f x h

  -- What the value is, if there is one, does not depend on allow_unparseable.
  pub from_request_allowed :
      (r : Request) (d : D) → from_request false r ≡ some d → from_request true r ≡ some d
  unfolding from_request
  from_request_allowed r d h =
      bind_allowed _ (attempt-allowed (parsed_body r.headers r.rbody))
        (λ body.
          bind_allowed _ (attempt-allowed (body_of_fmt json (codes "jsonBody") r.headers r.rbody))
            (λ json_part.
              bind_allowed _
                (attempt-allowed (body_of_fmt form (codes "formBody") r.headers r.rbody))
                (λ form_part e. e)))
        h

  -- Without allow_unparseable, a body that cannot be parsed raises.
  pub from_request_unparseable :
      (r : Request) → parsed_body r.headers r.rbody ≡ none → from_request false r ≡ none
  unfolding from_request attempt
  from_request_unparseable r h = rw (h) refl
