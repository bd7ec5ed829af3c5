-- ===== src/Http/Sanitize.antt =====
-- `sanitize_uri_path` of backend/libbackend/webserver.ml, which every path goes through before it is
-- matched.
use dark.Common.Split.{split, cons_part, NoSlash}
use dark.Common.{
  length, length-append, same_text_iff, ℕ, ◌≡◌, ◌≢◌, refl, sym, ap, ◌∙◌, Bool, true, false, List,
  [], ◌∷◌, ◌++◌, Chars, codes, arith, ◌==◌, if◌then◌else◌, All, Bool-cases, ◌⊎◌, inl, inr,
  append-nil, same_text,
}
use dark.Http.Paths.{
  slashed, path_of-slashed, nonempty, split_uri_path, path_of, IsSegment, split_uri_path-IsSegment,
}

-- `/+` is replaced by `/`. The first argument says whether a slash stands before.
unfoldable pub squeeze : Bool → Chars → Chars
squeeze after [] = []
squeeze after (c ∷ s) =
    let within = squeeze true s in
    let behind = squeeze false s in
    if c == b'/' then (if after then within else b'/' ∷ within) else c ∷ behind

-- `Util.maybe_chop_suffix "/"`
unfoldable pub chop_slash : Chars → Chars
chop_slash [] = []
chop_slash (c ∷ []) = if c == b'/' then [] else c ∷ []
chop_slash (c ∷ d ∷ s) = c ∷ chop_slash (d ∷ s)

unfoldable pub sanitize_uri_path : Chars → Chars
unfolding squeeze chop_slash
sanitize_uri_path path =
    let str = squeeze false path in if same_text str (codes "/") then str else chop_slash str

-- With or without a slash behind it.
abbrev OrSlash : Chars → Chars → Type 0
OrSlash t x = (t ≡ x) ⊎ (t ≡ x ++ b'/' ∷ [])

-- What is left of a text that begins within a segment.
abbrev Tail : Chars → List Chars → Type 0
Tail t [] = OrSlash t []
Tail t (part ∷ parts) = OrSlash t (part ++ slashed (nonempty parts))

OrSlash-cons : (c : ℕ) {t x : Chars} → OrSlash t x → OrSlash (c ∷ t) (c ∷ x)
OrSlash-cons c (inl e) = inl (ap (◌∷◌ c) e)
OrSlash-cons c (inr e) = inr (ap (◌∷◌ c) e)

Tail-cons :
    (c : ℕ) (t : Chars) (parts : List Chars) → Tail t parts → Tail (c ∷ t) (cons_part c parts)
unfolding slashed nonempty
Tail-cons c t [] h = OrSlash-cons c h
Tail-cons c t (part ∷ parts) h = OrSlash-cons c h

Tail-slashed :
    (c : ℕ) (t : Chars) (parts : List Chars)
    → Tail t parts
    → OrSlash (b'/' ∷ c ∷ t) (slashed (nonempty (cons_part c parts)))
unfolding slashed nonempty
Tail-slashed c t [] h = OrSlash-cons b'/' (OrSlash-cons c h)
Tail-slashed c t (part ∷ parts) h = OrSlash-cons b'/' (OrSlash-cons c h)

-- Behind a slash, and within a segment.
squeezed :
    (s : Chars)
    → OrSlash (b'/' ∷ squeeze true s) (slashed (nonempty (split s)))
      × Tail (squeeze false s) (split s)
unfolding squeeze slashed nonempty split
squeezed [] = (inr refl, inl refl)
squeezed (c ∷ s) =
    let (behind, within) = squeezed s in
    elim (Bool-cases (c == b'/')) [
      | inl e ↦ rw e (behind, behind)
      | inr e ↦ rw e (
        Tail-slashed c (squeeze false s) (split s) within,
        Tail-cons c (squeeze false s) (split s) within,
      )
    ]

chop_slash-append : (x y : Chars) → y ≢ [] → chop_slash (x ++ y) ≡ x ++ chop_slash y
unfolding chop_slash
chop_slash-append [] y h = refl
chop_slash-append (c ∷ []) [] h = absurd (h refl)
chop_slash-append (c ∷ []) (d ∷ y) h = refl
chop_slash-append (c ∷ d ∷ x) y h = ap (◌∷◌ c) (chop_slash-append (d ∷ x) y h)

chop_slash-NoSlash : (s : Chars) → NoSlash s → chop_slash s ≡ s
unfolding chop_slash
chop_slash-NoSlash [] h = refl
chop_slash-NoSlash (c ∷ []) (e, _) = rw e refl
chop_slash-NoSlash (c ∷ d ∷ s) (e, h) = ap (◌∷◌ c) (chop_slash-NoSlash (d ∷ s) h)

-- What stands between slashes does not end in one.
chop_slash-slashed :
    (segments : List Chars)
    → All IsSegment segments
    → chop_slash (slashed segments) ≡ slashed segments
unfolding slashed chop_slash
chop_slash-slashed [] h = refl
chop_slash-slashed (s ∷ []) ((some_char, no_slash), _) =
    rw (append-nil s)
      (chop_slash-append (b'/' ∷ []) s some_char ∙ ap (◌∷◌ b'/') (chop_slash-NoSlash s no_slash))
chop_slash-slashed (s ∷ next ∷ segments) (_, h) =
    chop_slash-append (b'/' ∷ s) (slashed (next ∷ segments)) (λ e. ground arith)
    ∙ ap (λ t. b'/' ∷ (s ++ t)) (chop_slash-slashed (next ∷ segments) h)

chopped : Chars → Chars
chopped t = if same_text t (codes "/") then t else chop_slash t

chopped_lem :
    (segments : List Chars) (t : Chars)
    → All IsSegment segments
    → t ≢ []
    → OrSlash t (slashed segments)
    → chopped t ≡ path_of segments
unfolding chopped slashed chop_slash same_text
chopped_lem [] t h some_char (inl e) = absurd (some_char e)
chopped_lem [] t h some_char (inr e) = rw e refl
chopped_lem (s ∷ segments) t h some_char (inl e) =
    let whole = chop_slash-slashed (s ∷ segments) h in
    elim (Bool-cases (same_text t (codes "/"))) [
      | inl root ↦ rw root (e ∙ sym (path_of-slashed s segments))
      | inr other ↦ rw other (ap chop_slash e ∙ whole ∙ sym (path_of-slashed s segments))
    ]
chopped_lem (s ∷ segments) t h some_char (inr e) =
    let shorter = chop_slash-append (slashed (s ∷ segments)) (codes "/") (λ f. ground arith) in
    elim (Bool-cases (same_text t (codes "/"))) [
      | inl root ↦ absurd (
          omega (
            arith,
            ap length e,
            ap length ((same_text_iff t (codes "/")).0 root),
            length-append (slashed (s ∷ segments)) (codes "/"),
          ))
      | inr other ↦
          rw other (ap chop_slash e ∙ shorter ∙ append-nil _ ∙ sym (path_of-slashed s segments))
    ]

-- A path that begins with a slash is sanitized to the one that is written from its segments: one
-- slash before each, and none at the end.
pub sanitize_uri_path_lem :
    (s : Chars) → sanitize_uri_path (b'/' ∷ s) ≡ path_of (split_uri_path (b'/' ∷ s))
unfolding sanitize_uri_path squeeze split_uri_path split nonempty chopped
sanitize_uri_path_lem s =
    chopped_lem (split_uri_path s) (b'/' ∷ squeeze true s) (split_uri_path-IsSegment s)
      (λ e. ground arith) (squeezed s).0
