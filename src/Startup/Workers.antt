-- ===== src/Startup/Workers.antt =====
-- `Load webworkers` of client/src/appsupport.js: three scripts are fetched, and two workers are made
-- of them.
use dark.Common.{
  ◌≡◌, ◌↔◌, refl, Option, none, some, List, [], ◌∷◌, ◌++◌, Chars, codes, if◌then◌else◌, same_text,
}

-- What `fetch` gives: a response that is ok, with its text, or another one, or a network error.
pub data Fetched : Type 0 where
  response_ok : Chars → Fetched
  response_error : Fetched
  network_error : Fetched

-- `hashReplacements`, an object from file names to hashed ones.
abbrev pub Replacements : Type 0
Replacements = List (Chars × Chars)

-- `hashReplacements[url]`: `undefined` is `none`.
unfoldable pub replacement : Replacements → Chars → Option Chars
replacement [] url = none
replacement ((k, v) ∷ rest) url =
    let later = replacement rest url in if same_text k url then some v else later

-- `a || b` for a text that may be undefined; the empty one counts as undefined.
abbrev pub or_text : Option Chars → Chars → Chars
or_text none b = b
or_text (some []) b = b
or_text (some (c ∷ s)) b = c ∷ s

-- What the code of the page needs from its environment. `get` stands for `fetch`.
pub record Site : Type 0 where
  pub static_url : Chars
  pub hash_replacements : Replacements
  pub rollbar_config : Chars
  pub build_hash : Chars
  pub get : Chars → Fetched

unfoldable pub url_of : Site → Chars → Chars
unfolding replacement
url_of site url =
    codes "//" ++ (site.static_url ++ or_text (replacement site.hash_replacements url) url)

-- `fetcher`: the text, or an exception.
unfoldable pub fetcher : Site → Chars → Option Chars
unfolding url_of
fetcher site url = elim (site.get (url_of site url)) [
  | response_ok body ↦ some body
  | response_error ↦ none
  | network_error ↦ none
]

abbrev pub header : Site → Chars
header site =
    (codes "const rollbarConfig = '" ++ (site.rollbar_config ++ codes "';\n\n"))
    ++ (codes "const buildHash = '" ++ (site.build_hash ++ codes "';\n\n"))

pub record Workers : Type 0 where
  pub analysis_worker : Option Chars
  pub fetcher_worker : Option Chars

infixl 5 ◌>>=◌
abbrev pub ◌>>=◌ : Option Chars → (Chars → Option Chars) → Option Chars
none >>= f = none
some a >>= f = f a

-- The two `async` functions: `await` of a promise that was rejected ends the function, and the
-- worker is not made.
unfoldable pub load_workers : Site → Workers
load_workers site = record {
  analysis_worker = (do
    analysis ← fetcher site (codes "/analysis.js")
    wrapper ← fetcher site (codes "/analysiswrapper.js")
    some (header site ++ (analysis ++ (codes "\n\n" ++ wrapper))));
  fetcher_worker = (do script ← fetcher site (codes "/fetcher.js"); some (header site ++ script));
}

>>=-some :
    (m : Option Chars) (f : Chars → Option Chars) {w : Chars}
    → (m >>= f) ≡ some w
    → (a : Chars) × (m ≡ some a) × (f a ≡ some w)
>>=-some none f h = cc
>>=-some (some a) f h = (a, refl, h)

abbrev pub Served : Site → Chars → Type 0
Served site url = (body : Chars) × (fetcher site url ≡ some body)

-- A worker is made exactly if all its scripts can be fetched; the other one does not depend on that.
pub load_workers_lem :
    (site : Site)
    → (((w : Chars) × ((load_workers site).analysis_worker ≡ some w))
        ↔ (Served site (codes "/analysis.js") × Served site (codes "/analysiswrapper.js")))
      × (((w : Chars) × ((load_workers site).fetcher_worker ≡ some w))
          ↔ Served site (codes "/fetcher.js"))
unfolding load_workers
load_workers_lem site = (
  (
    λ (w, h).
        let (a, ea, rest) = >>=-some (fetcher site (codes "/analysis.js")) _ h in
        let (b, eb, _) = >>=-some (fetcher site (codes "/analysiswrapper.js")) _ rest in
        ((a, ea), (b, eb)),
    λ ((a, ea), (b, eb)). (header site ++ (a ++ (codes "\n\n" ++ b)), rw (ea, eb)),
  ),
  (
    λ (w, h). let (a, ea, _) = >>=-some (fetcher site (codes "/fetcher.js")) _ h in (a, ea),
    λ (a, ea). (header site ++ a, rw ea),
  ),
)
