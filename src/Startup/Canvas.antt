-- ===== src/Startup/Canvas.antt =====
-- The first part of the `setTimeout` callback of client/src/appsupport.js: the canvas's name from the
-- page's path, and the start of the client.
use dark.Common.{
  ◌≡◌, refl, Bool, true, false, ◌||◌, Option, none, some, [], ◌∷◌, ◌++◌, Chars, codes,
  if◌then◌else◌, same_text, get_elem?, same_text_iff, ◌⊎◌, inl, inr, ap, sym, subst, Bool-cases,
  arith, ◌↔◌,
}
use dark.Common.Split.{split, NoSlash, split-part, split_last}

-- `new URL(window.location).pathname.split("/")[2]`; `none` is `undefined`.
unfoldable pub canvas_name : Chars → Option Chars
unfolding split
canvas_name pathname = get_elem? (split pathname) 2

-- Whether the client is started with `app.normal`: `enableDebugger` is what `urlParams.get` gave.
unfoldable pub starts_normal : Option Chars → Bool
starts_normal none = true
starts_normal (some s) = same_text s (codes "0") || same_text s (codes "false")

-- On the page of a canvas, `/a/` and its name, with or without a slash and more behind it, the name
-- is found.
pub canvas_name_lem :
    (area name rest : Chars)
    → NoSlash area
    → NoSlash name
    → (canvas_name (b'/' ∷ (area ++ b'/' ∷ name)) ≡ some name)
      × (canvas_name (b'/' ∷ (area ++ b'/' ∷ (name ++ b'/' ∷ rest))) ≡ some name)
unfolding canvas_name
canvas_name_lem area name rest ha hn = (
  rw (split-part area name ha, split_last name hn),
  rw (split-part area (name ++ b'/' ∷ rest) ha, split-part name rest hn),
)

-- What the client is started with. The first part is copied from the page's globals.
pub record Globals : Type 0 where
  pub complete : Chars
  pub user_content_host : Chars
  pub environment : Chars
  pub csrf_token : Chars
  pub is_admin : Bool
  pub build_hash : Chars
  pub username : Chars

pub record Params : Type 0 where
  pub globals : Globals
  pub canvas_name : Option Chars

-- Which of the two functions of `app` is called, with the text of the parameters.
pub data Started : Type 0 where
  normal : Chars → Started
  debugging : Chars → Started

-- `stringify` is `JSON.stringify`.
unfoldable pub start : (Params → Chars) → Globals → Chars → Option Chars → Started
unfolding canvas_name starts_normal
start stringify globals pathname debugger =
    let params = stringify (record { globals = globals; canvas_name = canvas_name pathname }) in
    if starts_normal debugger then normal params else debugging params

-- The pages that ask for no debugger.
abbrev pub PlainPage : Option Chars → Type 0
PlainPage debugger =
    (debugger ≡ none) ⊎ ((debugger ≡ some (codes "0")) ⊎ (debugger ≡ some (codes "false")))

either : {x y : Bool} → (x || y) ≡ true → (x ≡ true) ⊎ (y ≡ true)
either {x = true} h = inl refl
either {x = false} h = inr h

starts_normal_sound : (s : Chars) → starts_normal (some s) ≡ true → PlainPage (some s)
unfolding starts_normal
starts_normal_sound s h = elim (either h) [
  | inl e ↦ inr (inl (ap (λ t. some t) ((same_text_iff s (codes "0")).0 e)))
  | inr e ↦ inr (inr (ap (λ t. some t) ((same_text_iff s (codes "false")).0 e)))
]

starts_normal_iff : (debugger : Option Chars) → (starts_normal debugger ≡ true) ↔ PlainPage debugger
unfolding starts_normal same_text
starts_normal_iff none = (λ _. inl refl, λ _. refl)
starts_normal_iff (some s) = (
  starts_normal_sound s,
  λ plain. elim plain [
    | inl e ↦ absurd (ground arith)
    | inr (inl e) ↦ subst (λ o. starts_normal o ≡ true) (sym e) refl
    | inr (inr e) ↦ subst (λ o. starts_normal o ≡ true) (sym e) refl
  ],
)

-- On the page of a canvas the client is started with the canvas's name, and without the debugger
-- exactly if the parameter is missing, or is `0` or `false`.
pub start_lem :
    (stringify : Params → Chars) (globals : Globals) (area name : Chars) (debugger : Option Chars)
    → NoSlash area
    → NoSlash name
    → let params = stringify (record { globals = globals; canvas_name = some name }) in
      let started = start stringify globals (b'/' ∷ (area ++ b'/' ∷ name)) debugger in
      ((started ≡ normal params) × PlainPage debugger)
      ⊎ ((started ≡ debugging params) × (¬ PlainPage debugger))
unfolding start
start_lem stringify globals area name debugger ha hn = elim (Bool-cases (starts_normal debugger)) [
  | inl e ↦
      inl (rw ((canvas_name_lem area name [] ha hn).0, e) refl, (starts_normal_iff debugger).0 e)
  | inr e ↦ inr (
    rw ((canvas_name_lem area name [] ha hn).0, e) refl,
    λ plain. ground (arith, (starts_normal_iff debugger).1 plain),
  )
]
