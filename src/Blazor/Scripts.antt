-- ===== src/Blazor/Scripts.antt =====
-- The script of .NET in fsharp-backend/src/Wasm/static/BlazorWorker.js: `locateFile`, and what becomes of
-- the request for blazor.boot.json.
use dark.Common.{
  ◌≡◌, ◌≢◌, ◌↔◌, refl, sym, ap, ◌∙◌, ◌⊎◌, inl, inr, Bool, true, false, ◌&&◌, Option, none, some,
  List, [], ◌∷◌, ◌++◌, Chars, codes, arith, if◌then◌else◌, All, Bool-cases, is_prefix, same_text,
  same_text_iff, leb, length, drop, take, take-drop, drop-append, length-append, ◌-◌, ==_iff,
}
use dark.Blazor.AsyncLoad.{Outcome, Settled, resolved, rejected_request, rejected_event, settle}

unfoldable pub locate_file : Chars → Chars → Chars
unfolding same_text
locate_file app_root file_name =
    if same_text file_name (codes "dotnet.wasm")
    then app_root ++ codes "/blazor/dotnet.wasm"
    else file_name

-- `Array.find`, which gives `undefined` where nothing is found.
abbrev pub find {ℓ} : {A : Type ℓ} → (A → Bool) → List A → Option A
find test [] = none
find test (x ∷ xs) = let rest = find test xs in if test x then some x else rest

-- `s.endsWith(suffix)`
unfoldable pub is_suffix : Chars → Chars → Bool
unfolding same_text
is_suffix suffix s =
    leb (length suffix) (length s) && same_text (drop (length s - length suffix) s) suffix

unfoldable pub is_dotnet_script : Chars → Bool
unfolding is_prefix is_suffix
is_dotnet_script p = is_prefix (codes "dotnet.") p && is_suffix (codes ".js") p

-- `dotnetjsfilename === ""`, and the value in a template.
abbrev pub is_empty_text : Option Chars → Bool
is_empty_text (some []) = true
is_empty_text _ = false

abbrev pub in_template : Option Chars → Chars
in_template none = codes "undefined"
in_template (some s) = s

-- The script that is imported, the exception, or the error that is logged.
pub data Start : Type 0 where
  imported : Chars → Start
  raised : Start
  logged : Settled → Start

unfoldable pub import_scripts : Chars → List Chars → Start
unfolding is_dotnet_script
import_scripts app_root runtime_resources =
    let dotnetjsfilename = find is_dotnet_script runtime_resources in
    if is_empty_text dotnetjsfilename
    then raised
    else imported (app_root ++ (codes "/blazor/" ++ in_template dotnetjsfilename))

-- The two callbacks of the request for the manifest, given the names of its runtime resources.
unfoldable pub after_manifest : Chars → List Chars → Settled → Start
unfolding import_scripts
after_manifest app_root names resolved = import_scripts app_root names
after_manifest app_root names (rejected_request status) = logged (rejected_request status)
after_manifest app_root names rejected_event = logged rejected_event

unfoldable pub start_dotnet : Chars → Outcome → List Chars → Start
unfolding after_manifest settle
start_dotnet app_root outcome names = after_manifest app_root names (settle outcome)

-- The names that are looked for, without the tests.
abbrev pub IsScript : Chars → Type 0
IsScript p =
    ((rest : Chars) × (p ≡ codes "dotnet." ++ rest))
    × ((front : Chars) × (p ≡ front ++ codes ".js"))

-- No name of the list is looked for, or `p` is the first one that is.
abbrev pub IsFirst : List Chars → Chars → Type 0
IsFirst names p =
    (before after : List Chars) × (names ≡ before ++ p ∷ after)
    × IsScript p
    × All (λ q. ¬ IsScript q) before

is_prefix_sound :
    (prefix s : Chars) → is_prefix prefix s ≡ true → (rest : Chars) × (s ≡ prefix ++ rest)
unfolding is_prefix
is_prefix_sound [] s h = (s, refl)
is_prefix_sound (p ∷ prefix) [] h = absurd (ground arith)
is_prefix_sound (p ∷ prefix) (c ∷ s) h =
    let (rest, e) = is_prefix_sound prefix s (ground arith) in
    let same : p ≡ c = (==_iff p c).0 (ground arith) in
    (rest, ap (λ d. d ∷ s) (sym same) ∙ ap (◌∷◌ p) e)

is_prefix_complete : (prefix rest : Chars) → is_prefix prefix (prefix ++ rest) ≡ true
unfolding is_prefix
is_prefix_complete [] rest = refl
is_prefix_complete (p ∷ prefix) rest = rw ((==_iff p p).1 refl) (is_prefix_complete prefix rest)

is_suffix_sound :
    (suffix s : Chars) → is_suffix suffix s ≡ true → (front : Chars) × (s ≡ front ++ suffix)
unfolding is_suffix
is_suffix_sound suffix s h =
    let n = length s - length suffix in
    let last = (same_text_iff (drop n s) suffix).0 (ground arith) in
    (take n s, sym (take-drop n s) ∙ ap (λ t. take n s ++ t) last)

is_suffix_complete : (suffix front : Chars) → is_suffix suffix (front ++ suffix) ≡ true
unfolding is_suffix
is_suffix_complete suffix front =
    let size = length-append front suffix in
    let at =
      (same_text_iff _ suffix).1 (
        drop-append (length (front ++ suffix) - length suffix) front suffix
          (omega (arith, size))) in
    ground (arith, size, at)

is_dotnet_script_iff : (p : Chars) → (is_dotnet_script p ≡ true) ↔ IsScript p
unfolding is_dotnet_script
is_dotnet_script_iff p = (
  λ h. (
    is_prefix_sound (codes "dotnet.") p (ground arith),
    is_suffix_sound (codes ".js") p (ground arith),
  ),
  λ ((rest, e), (front, f)).
      let starts = ap (is_prefix (codes "dotnet.")) e ∙ is_prefix_complete (codes "dotnet.") rest in
      let ends = ap (is_suffix (codes ".js")) f ∙ is_suffix_complete (codes ".js") front in
      rw (starts, ends) refl,
)

find-IsFirst :
    (names : List Chars)
    → ((find is_dotnet_script names ≡ none) × All (λ q. ¬ IsScript q) names)
      ⊎ ((p : Chars) × (find is_dotnet_script names ≡ some p) × IsFirst names p)
find-IsFirst [] = inl (refl, tt)
find-IsFirst (q ∷ names) = elim (Bool-cases (is_dotnet_script q)) [
  | inl e ↦ inr (q, rw e refl, ([], names, refl, (is_dotnet_script_iff q).0 e, tt))
  | inr e ↦
      let other : ¬ IsScript q = λ f. absurd (ground (arith, (is_dotnet_script_iff q).1 f)) in
      elim (find-IsFirst names) [
        | inl (f, none_of) ↦ inl (rw (e, f) refl, (other, none_of))
        | inr (p, f, (before, after, at, is_script, none_before)) ↦
            inr (
              p,
              rw (e, f) refl,
              (q ∷ before, after, ap (◌∷◌ q) at, is_script, (other, none_before)),
            )
      ]
]

-- What becomes of the request for the manifest.
abbrev pub Outcomes : Chars → List Chars → Settled → Start → Type 0
Outcomes app_root names settled start =
    ((settled ≡ resolved)
      × ((p : Chars) × IsFirst names p × (start ≡ imported (app_root ++ (codes "/blazor/" ++ p)))))
    ⊎ (((settled ≡ resolved)
          × All (λ q. ¬ IsScript q) names
          × (start ≡ imported (app_root ++ codes "/blazor/undefined")))
        ⊎ ((settled ≢ resolved) × (start ≡ logged settled)))

script_not_empty :
    (names : List Chars) (p : Chars) → IsFirst names p → is_empty_text (some p) ≡ false
script_not_empty names [] (_, _, _, ((rest, e), _), _) = absurd (ground arith)
script_not_empty names (c ∷ p) first = refl

settled_lem :
    (app_root : Chars) (names : List Chars) (settled : Settled)
    → Outcomes app_root names settled (after_manifest app_root names settled)
unfolding after_manifest import_scripts
settled_lem app_root names resolved = elim (find-IsFirst names) [
  | inl (e, none_of) ↦ inr (inl (refl, none_of, rw e refl))
  | inr (p, e, first) ↦ inl (refl, (p, first, rw (e, script_not_empty names p first) refl))
]
settled_lem app_root names (rejected_request status) = inr (inr (λ e. ground arith, refl))
settled_lem app_root names rejected_event = inr (inr (λ e. ground arith, refl))

-- With a manifest, the first of its runtime resources that begins with "dotnet." and ends in ".js"
-- is imported, and where there is none a script named "undefined": nothing is ever raised. Without
-- one, the error is logged.
pub start_dotnet_lem :
    (app_root : Chars) (outcome : Outcome) (names : List Chars)
    → Outcomes app_root names (settle outcome) (start_dotnet app_root outcome names)
unfolding start_dotnet
start_dotnet_lem app_root outcome names = settled_lem app_root names (settle outcome)
