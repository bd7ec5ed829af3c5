-- ===== src/Startup/Consent.antt =====
-- `fullstory` of client/src/appsupport.js: whether a session is recorded.
use dark.Common.{
  ℕ, ◌*◌, ◌≤◌, ◌≡◌, ◌≢◌, ◌↔◌, Bool, true, false, not, ◌||◌, Option, none, some, List, [], ◌∷◌, ◌++◌,
  ◌∙◌, ap, ◌&&◌, inl, inr, Bool-cases, arith, ltb, if◌then◌else◌,
}

pub data Effect : Type 0 where
  log_too_old : Effect
  init_sdk : Bool → Effect
  identify : Effect
  consent : Bool → Effect
  restart : Effect
  shutdown : Effect
  log_error : Effect

-- `setConsent`
unfoldable pub set_consent : Bool → List Effect
set_consent given = consent given ∷ (if given then restart else shutdown) ∷ []

-- `JSON.parse` of what is stored, and its `recordConsent`: an exception, or whether it passes an `if`.
pub data Parsed : Type 0 where
  raised : Parsed
  consents : Bool → Parsed

-- The user and the stored state: `none` where `localStorage.getItem` gives nothing.
pub record User : Type 0 where
  pub is_admin : Bool
  pub account_age_ms : ℕ
  pub stored : Option Parsed

abbrev pub max_account_age_to_record_ms : ℕ
max_account_age_to_record_ms = 48 * 60 * 60 * 1000

unfoldable pub is_dev_mode : User → Bool
is_dev_mode u = u.is_admin || ltb max_account_age_to_record_ms u.account_age_ms

abbrev stored_consent : Option Parsed → List Effect
stored_consent none = []
stored_consent (some raised) = log_error ∷ []
stored_consent (some (consents given)) = set_consent given

-- `init`
unfoldable pub init : User → List Effect
unfolding is_dev_mode set_consent
init u =
    (if is_dev_mode u then log_too_old ∷ [] else [])
    ++ (init_sdk (is_dev_mode u) ∷ identify ∷ stored_consent u.stored)

-- The FullStory library with its state: what its calls do, whether it is in dev mode, and whether it
-- records.
pub record FullStory (S : Type 0) : Type 0 where
  pub call : Effect → S → S
  pub is_dev : S → Bool
  pub is_recording : S → Bool

-- What its documentation says: recording starts with `init` unless that sets the dev mode, which keeps
-- it off; `shutdown` ends it and `restart` resumes it; the other calls only give information.
pub record IsDocumented {S : Type 0} (f : FullStory S) : Type 0 where
  pub init_dev : (dev : Bool) (s : S) → f.is_dev (f.call (init_sdk dev) s) ≡ dev
  pub init_starts : (dev : Bool) (s : S) → f.is_recording (f.call (init_sdk dev) s) ≡ not dev
  pub identify_dev : (s : S) → f.is_dev (f.call identify s) ≡ f.is_dev s
  pub identify_keeps : (s : S) → f.is_recording (f.call identify s) ≡ f.is_recording s
  pub consent_dev : (given : Bool) (s : S) → f.is_dev (f.call (consent given) s) ≡ f.is_dev s
  pub consent_keeps :
      (given : Bool) (s : S) → f.is_recording (f.call (consent given) s) ≡ f.is_recording s
  pub restart_resumes : (s : S) → f.is_recording (f.call restart s) ≡ not (f.is_dev s)
  pub shutdown_ends : (s : S) → f.is_recording (f.call shutdown s) ≡ false

-- What is logged is no call of the library.
abbrev pub after : {S : Type 0} → FullStory S → List Effect → S → S
after f [] s = s
after f (log_too_old ∷ es) s = after f es s
after f (log_error ∷ es) s = after f es s
after f (e ∷ es) s = after f es (f.call e s)

module _ {S : Type 0} (f : FullStory S) (documented : IsDocumented f) where
  -- The start of a session, before the stored answer is read.
  started : Bool → S → S
  started dev s = f.call identify (f.call (init_sdk dev) s)

  started_lem :
      (dev : Bool) (s : S)
      → (f.is_dev (started dev s) ≡ dev) × (f.is_recording (started dev s) ≡ not dev)
  unfolding started
  started_lem dev s = (
    documented.identify_dev _ ∙ documented.init_dev dev s,
    documented.identify_keeps _ ∙ documented.init_starts dev s,
  )

  -- Whether what is stored keeps a session from being recorded.
  refuses : Option Parsed → Bool
  refuses none = false
  refuses (some raised) = false
  refuses (some (consents given)) = not given

  stored_consent-after :
      (stored : Option Parsed) (dev : Bool) (s : S)
      → f.is_recording (after f (stored_consent stored) (started dev s))
        ≡ (not dev && not (refuses stored))
  unfolding set_consent refuses
  stored_consent-after none dev s = ground (arith, started_lem dev s)
  stored_consent-after (some raised) dev s = ground (arith, started_lem dev s)
  stored_consent-after (some (consents true)) dev s =
      documented.restart_resumes _
      ∙ ap not (documented.consent_dev true _ ∙ (started_lem dev s).0)
      ∙ ground arith
  stored_consent-after (some (consents false)) dev s = documented.shutdown_ends _ ∙ ground arith

  init-after :
      (u : User) (s : S)
      → f.is_recording (after f (init u) s) ≡ (not (is_dev_mode u) && not (refuses u.stored))
  unfolding init started
  init-after u s = elim (Bool-cases (is_dev_mode u)) [
    | inl e ↦ rw e (stored_consent-after u.stored true s)
    | inr e ↦ rw e (stored_consent-after u.stored false s)
  ]

  refuses_iff :
      (stored : Option Parsed) → (refuses stored ≡ true) ↔ (stored ≡ some (consents false))
  unfolding refuses
  refuses_iff none = ground arith
  refuses_iff (some raised) = ground arith
  refuses_iff (some (consents given)) = ground arith

  -- A session is recorded exactly for a user who is no admin, whose account is not older than 48
  -- hours, and whose stored answer, if one is stored and can be read, is consent.
  pub init_recording :
      (u : User) (s : S)
      → (f.is_recording (after f (init u) s) ≡ true) ↔ (
          (u.is_admin ≡ false)
          × (u.account_age_ms ≤ max_account_age_to_record_ms)
          × (u.stored ≢ some (consents false)))
  unfolding is_dev_mode
  init_recording u s = ground (arith, init-after u s, refuses_iff u.stored)
