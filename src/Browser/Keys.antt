-- ===== src/Browser/Keys.antt =====
-- Keys and platforms in client/src/appsupport.js.
use dark.Common.{
  ℕ, ◌+◌, ◌<◌, ◌≤◌, ◌≡◌, ◌↔◌, refl, inl, inr, Bool, true, false, ◌&&◌, ◌||◌, Chars, codes, arith,
  if◌then◌else◌, Bool-cases, same_text, same_text_iff,
}
use dark.Common.{contains, dec_lt}
use dark.Common.Occurs.{Occurs, contains_sound, contains_complete}

pub record KeyEvent : Type 0 where
  pub ctrl_key : Bool
  pub meta_key : Bool
  pub key : Chars

-- `stopKeys`: how often `preventDefault` is called, on a page with this `navigator.platform`.
unfoldable pub stop_keys : Chars → KeyEvent → ℕ
stop_keys platform event =
    let save =
      if (event.ctrl_key || event.meta_key) && same_text event.key (codes "s") then 1 else 0 in
    let omnibox =
      if event.ctrl_key && (same_text event.key (codes "k") && contains (codes "Linux") platform)
      then 1
      else 0 in
    save + omnibox

-- What the comments ask for: saving the page is stopped everywhere, and the focus on the address bar
-- on Linux.
pub data IsStopped (platform : Chars) (event : KeyEvent) : Type 0 where
  save_ctrl : event.ctrl_key ≡ true → event.key ≡ codes "s" → IsStopped platform event
  save_meta : event.meta_key ≡ true → event.key ≡ codes "s" → IsStopped platform event
  omnibox :
      event.ctrl_key ≡ true
      → event.key ≡ codes "k"
      → Occurs (codes "Linux") platform
      → IsStopped platform event

stop_keys_sound :
    (platform : Chars) (event : KeyEvent) → 0 < stop_keys platform event → IsStopped platform event
unfolding stop_keys
stop_keys_sound platform event h = elim (Bool-cases (same_text event.key (codes "s"))) [
  | inl s ↦ elim (Bool-cases event.ctrl_key) [
    | inl c ↦ save_ctrl c ((same_text_iff _ _).0 s)
    | inr c ↦ save_meta (ground arith) ((same_text_iff _ _).0 s)
  ]
  | inr s ↦
      omnibox (ground arith) ((same_text_iff event.key (codes "k")).0 (ground arith))
        (contains_sound (codes "Linux") platform (ground arith))
]

key_tests :
    (k t : Chars) (b c : Bool)
    → k ≡ t
    → same_text t (codes "s") ≡ b
    → same_text t (codes "k") ≡ c
    → (same_text k (codes "s") ≡ b) × (same_text k (codes "k") ≡ c)
key_tests k t b c e hb hc = rw e (hb, hc)

s_tests : (same_text (codes "s") (codes "s") ≡ true) × (same_text (codes "s") (codes "k") ≡ false)
unfolding same_text
s_tests = (refl, refl)

k_tests : (same_text (codes "k") (codes "s") ≡ false) × (same_text (codes "k") (codes "k") ≡ true)
unfolding same_text
k_tests = (refl, refl)

stop_keys_complete :
    (platform : Chars) (event : KeyEvent) → IsStopped platform event → stop_keys platform event ≡ 1
unfolding stop_keys
stop_keys_complete platform event (save_ctrl c e) =
    let facts = key_tests event.key (codes "s") true false e s_tests.0 s_tests.1 in ground arith
stop_keys_complete platform event (save_meta c e) =
    let facts = key_tests event.key (codes "s") true false e s_tests.0 s_tests.1 in ground arith
stop_keys_complete platform event (omnibox c e l) =
    let facts = key_tests event.key (codes "k") false true e k_tests.0 k_tests.1 in
    let found = contains_complete (codes "Linux") platform l in ground arith

stop_keys-le : (platform : Chars) (event : KeyEvent) → stop_keys platform event ≤ 1
stop_keys-le platform event = elim (dec_lt 0 (stop_keys platform event)) [
  | yes p ↦ omega (arith, stop_keys_complete platform event (stop_keys_sound platform event p))
  | no p ↦ omega arith
]

-- A key is kept from the browser exactly in the cases that `IsStopped` lists, and at most once.
pub stop_keys_lem :
    (platform : Chars) (event : KeyEvent)
    → ((stop_keys platform event ≡ 1) ↔ IsStopped platform event) × (stop_keys platform event ≤ 1)
stop_keys_lem platform event = (
  (λ e. stop_keys_sound platform event (omega arith), stop_keys_complete platform event),
  stop_keys-le platform event,
)

-- `getBrowserPlatform`: Mac, Linux, Windows, or none of these.
unfoldable pub get_browser_platform : Chars → ℕ
get_browser_platform platform =
    if same_text platform (codes "MacIntel")
    then 0
    else if contains (codes "Linux") platform
    then 1
    else if same_text platform (codes "Win32")
    then 2
    else 3

-- The three tests exclude one another.
mac_only :
    (platform : Chars)
    → same_text platform (codes "MacIntel") ≡ true
    → contains (codes "Linux") platform ≡ false
unfolding contains
mac_only platform h = rw ((same_text_iff _ _).0 h) refl

windows_only :
    (platform : Chars)
    → same_text platform (codes "Win32") ≡ true
    → (same_text platform (codes "MacIntel") ≡ false) × (contains (codes "Linux") platform ≡ false)
unfolding same_text contains
windows_only platform h = rw ((same_text_iff platform (codes "Win32")).0 h) (refl, refl)

platform_tests :
    (platform : Chars)
    → ((get_browser_platform platform ≡ 0) ↔ (same_text platform (codes "MacIntel") ≡ true))
      × ((get_browser_platform platform ≡ 1) ↔ (contains (codes "Linux") platform ≡ true))
      × ((get_browser_platform platform ≡ 2) ↔ (same_text platform (codes "Win32") ≡ true))
      × (get_browser_platform platform ≤ 3)
unfolding get_browser_platform
platform_tests platform = ground (arith, mac_only platform, windows_only platform)

-- Linux is told by a word anywhere in the platform's name, the others by the whole name; a platform
-- that is not known is 3, and the result is never more.
pub get_browser_platform_lem :
    (platform : Chars)
    → ((get_browser_platform platform ≡ 0) ↔ (platform ≡ codes "MacIntel"))
      × ((get_browser_platform platform ≡ 1) ↔ Occurs (codes "Linux") platform)
      × ((get_browser_platform platform ≡ 2) ↔ (platform ≡ codes "Win32"))
      × (get_browser_platform platform ≤ 3)
get_browser_platform_lem platform =
    let (mac, linux, windows, most) = platform_tests platform in
    let is_mac = same_text_iff platform (codes "MacIntel") in
    let is_windows = same_text_iff platform (codes "Win32") in
    (
      (λ e. is_mac.0 (mac.0 e), λ e. mac.1 (is_mac.1 e)),
      (
        λ e. contains_sound (codes "Linux") platform (linux.0 e),
        λ o. linux.1 (contains_complete (codes "Linux") platform o),
      ),
      (λ e. is_windows.0 (windows.0 e), λ e. windows.1 (is_windows.1 e)),
      most,
    )
