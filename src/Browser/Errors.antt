-- ===== src/Browser/Errors.antt =====
-- The handlers of uncaught errors of client/src/appsupport.js: `window.onerror` and
-- `window.onunhandledrejection`, which report to Rollbar and tell the client by `displayError`.
use dark.Common.{
  ◌≡◌, refl, ap, ◌∙◌, sym, Option, some, List, [], ◌∷◌, ◌++◌, map, append_assoc, append-nil, Chars,
  codes,
}

-- What is not caught: an error with its message, or a promise's rejection, whose type and reason are
-- turned into text.
pub data Failure (E : Type 0) : Type 0 where
  uncaught : Chars → E → Failure E
  rejected : Chars → Chars → E → Failure E

-- `window.lastError`, `window.lastRejection`, the messages given to Rollbar with what caused them, and
-- the details of the `displayError` events.
pub record Page (E : Type 0) : Type 0 where
  pub last_error : Option E
  pub last_rejection : Option E
  pub reported : List (Chars × E)
  pub displayed : List Chars

module _ {E : Type 0} where
  -- `displayError`
  unfoldable pub display_error : Chars → Page E → Page E
  display_error msg p = record p { displayed = p.displayed ++ msg ∷ [] }

  unfoldable pub on_error : Chars → E → Page E → Page E
  unfolding display_error
  on_error msg error p =
      display_error msg
        (record p { reported = p.reported ++ (msg, error) ∷ []; last_error = some error })

  unfoldable pub on_unhandled_rejection : Chars → Chars → E → Page E → Page E
  unfolding display_error
  on_unhandled_rejection type reason error p =
      display_error (codes "Unhandled promise rejection: " ++ (type ++ (codes ", " ++ reason)))
        (record p {
          last_rejection = some error;
          reported = p.reported ++ (codes "Unhandled promise rejection", error) ∷ [];
        })

  unfoldable pub handle : Failure E → Page E → Page E
  unfolding on_error on_unhandled_rejection
  handle (uncaught msg error) p = on_error msg error p
  handle (rejected type reason error) p = on_unhandled_rejection type reason error p

  unfoldable pub run : List (Failure E) → Page E → Page E
  unfolding handle
  run [] p = p
  run (f ∷ fs) p = run fs (handle f p)

  abbrev pub report_of : Failure E → Chars × E
  report_of (uncaught msg error) = (msg, error)
  report_of (rejected type reason error) = (codes "Unhandled promise rejection", error)

  abbrev pub text_of : Failure E → Chars
  text_of (uncaught msg error) = msg
  text_of (rejected type reason error) =
      codes "Unhandled promise rejection: " ++ (type ++ (codes ", " ++ reason))

  -- The last error among some failures, or the one before them.
  abbrev pub last_uncaught : Option E → List (Failure E) → Option E
  last_uncaught before [] = before
  last_uncaught before (uncaught msg error ∷ fs) = last_uncaught (some error) fs
  last_uncaught before (rejected type reason error ∷ fs) = last_uncaught before fs

  handle_lem :
      (f : Failure E) (p : Page E)
      → let q = handle f p in
        (q.reported ≡ p.reported ++ report_of f ∷ [])
        × (q.displayed ≡ p.displayed ++ text_of f ∷ [])
        × (q.last_error ≡ last_uncaught p.last_error (f ∷ []))
  unfolding handle
  handle_lem (uncaught msg error) p = (refl, refl, refl)
  handle_lem (rejected type reason error) p = (refl, refl, refl)

  last_uncaught-cons :
      (f : Failure E) (fs : List (Failure E)) (before : Option E)
      → last_uncaught (last_uncaught before (f ∷ [])) fs ≡ last_uncaught before (f ∷ fs)
  last_uncaught-cons (uncaught msg error) fs before = refl
  last_uncaught-cons (rejected type reason error) fs before = refl

  -- Every failure is reported once and shown once, in their order, and the last one that was no
  -- rejection is kept as the last error.
  pub failures_lem :
      (fs : List (Failure E)) (p : Page E)
      → let q = run fs p in
        (q.reported ≡ p.reported ++ map report_of fs)
        × (q.displayed ≡ p.displayed ++ map text_of fs)
        × (q.last_error ≡ last_uncaught p.last_error fs)
  unfolding run
  failures_lem [] p = (sym (append-nil _), sym (append-nil _), refl)
  failures_lem (f ∷ fs) p =
      let (reported, displayed, last) = failures_lem fs (handle f p) in
      let (reported1, displayed1, last1) = handle_lem f p in
      (
        reported ∙ rw reported1 (append_assoc p.reported _ _),
        displayed ∙ rw displayed1 (append_assoc p.displayed _ _),
        last ∙ ap (λ e. last_uncaught e fs) last1 ∙ last_uncaught-cons f fs p.last_error,
      )
