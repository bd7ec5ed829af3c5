-- ===== src/Browser/Tests.antt =====
-- The theorems about the browser at concrete inputs.
use dark.Common.{◌≡◌, ◌↔◌, false, codes}
use dark.Browser.Support.{Navigator, unsupported_browser, IsSupported, IsSupported-iff}

abbrev android : Navigator
android = record { user_agent = codes "Android Chrome/90"; vendor = codes "Google Inc." }

IsSupported-iff_example : (unsupported_browser android ≡ false) ↔ IsSupported android
IsSupported-iff_example = IsSupported-iff android
