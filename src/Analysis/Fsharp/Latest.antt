-- ===== src/Analysis/Fsharp/Latest.antt =====
-- Which request the worker runs last.
use dark.Common.{
  ℕ, ◌≡◌, refl, sym, ap, ◌∙◌, inl, inr, Bool, true, false, Option, none, some, List, [], ◌∷◌, ◌++◌,
  map, Chars, arith, if◌then◌else◌, Option-cases, last?, last?-append, same_text,
}
use dark.Analysis.Wrapper.{Json, decode_output}
use dark.Analysis.Fsharp.{
  Message, Fsharp, message_of, request_analysis, retry, retry_with, on_message, initialized_message,
  created,
}
use dark.Analysis.Fsharp.Queue.{
  IsSound, created-IsSound, request_analysis-IsSound, retry-IsSound, on_message-IsSound,
}

pub data Event (P : Type 0) : Type 0 where
  request : Option P → Event P
  timer : Event P
  message : ℕ → Chars → Event P

-- The newer one of two requests, if there is one.
abbrev pub or_newest : Option Message → Option Message → Option Message
or_newest none before = before
or_newest (some m) before = some m

module _ {P R : Type 0} (codec : Json P R) where
  -- The handler that the browser calls for an event.
  unfoldable pub handle : Event P → Fsharp P R → Fsharp P R
  handle (request params) s = request_analysis codec params s
  handle timer s = retry codec s
  handle (message now output) s = on_message codec now output s

  unfoldable pub run : List (Event P) → Fsharp P R → Fsharp P R
  unfolding handle
  run [] s = s
  run (e ∷ es) s = run es (handle e s)

  -- The request that an event hands to the queue, once the worker is loaded.
  abbrev accepted_first : List (Option P) → Bool → Option Message
  accepted_first [] initialized = none
  accepted_first (params ∷ _) initialized =
      if initialized then some (message_of codec params) else none

  pub accepted : Event P → Fsharp P R → Option Message
  accepted (request params) s = if s.initialized then some (message_of codec params) else none
  accepted timer s = accepted_first s.waiting s.initialized
  accepted (message now output) s = none

  -- The newest request of a run that was handed to the queue, if there is one, else `before`.
  unfoldable pub newest_of : Option Message → List (Event P) → Fsharp P R → Option Message
  unfolding accepted handle
  newest_of before [] s = before
  newest_of before (e ∷ es) s = newest_of (or_newest (accepted e s) before) es (handle e s)

-- The newest request that the queue still has: the stored one, or the last one posted.
abbrev pub newest : {P R : Type 0} → Fsharp P R → Option Message
newest s = or_newest s.next (last? s.posted)

module _ {P R : Type 0} (codec : Json P R) where
  handle-IsSound : (e : Event P) (s : Fsharp P R) → IsSound s → IsSound (handle codec e s)
  unfolding handle
  handle-IsSound (request params) s h = request_analysis-IsSound codec params s h
  handle-IsSound timer s h = retry-IsSound codec s h
  handle-IsSound (message now output) s h = on_message-IsSound codec now output s h

  newest-request :
      (params : Option P) (s : Fsharp P R)
      → IsSound s
      → newest (request_analysis codec params s)
        ≡ or_newest (if s.initialized then some (message_of codec params) else none) (newest s)
  unfolding request_analysis
  newest-request params s h = ground (arith, last?-append s.posted (message_of codec params))

  newest-retry_with :
      (w : List (Option P)) (s : Fsharp P R)
      → IsSound s
      → newest (retry_with codec w s) ≡ or_newest (accepted_first codec w s.initialized) (newest s)
  unfolding retry_with
  newest-retry_with [] s h = refl
  newest-retry_with (params ∷ rest) s h =
      ground (arith, last?-append s.posted (message_of codec params))

  pub newest-on_message :
      (now : ℕ) (output : Chars) (s : Fsharp P R)
      → newest (on_message codec now output s) ≡ newest s
  unfolding on_message
  newest-on_message now output s = elim (Option-cases s.next) [
    | inl e ↦ ground arith
    | inr (m, e) ↦ ground (arith, last?-append s.posted m)
  ]

  newest-handle :
      (e : Event P) (s : Fsharp P R)
      → IsSound s
      → newest (handle codec e s) ≡ or_newest (accepted codec e s) (newest s)
  unfolding handle accepted retry
  newest-handle (request params) s h = newest-request params s h
  newest-handle timer s h = newest-retry_with s.waiting s h
  newest-handle (message now output) s h = newest-on_message now output s

  pub newest-run :
      (es : List (Event P)) (s : Fsharp P R)
      → IsSound s
      → newest (run codec es s) ≡ newest_of codec (newest s) es s
  unfolding run newest_of
  newest-run [] s h = refl
  newest-run (e ∷ es) s h =
      newest-run es (handle codec e s) (handle-IsSound e s h)
      ∙ ap (λ before. newest_of codec before es (handle codec e s)) (newest-handle e s h)

  pub run-IsSound : (es : List (Event P)) (s : Fsharp P R) → IsSound s → IsSound (run codec es s)
  unfolding run
  run-IsSound [] s h = h
  run-IsSound (e ∷ es) s h = run-IsSound es (handle codec e s) (handle-IsSound e s h)

  -- After any events, if the queue is not busy, the message that was posted last is the newest
  -- request that was made while the worker was loaded, where one that a timer makes again is made at
  -- that time: an older request can count as the newest then.
  pub last_posted :
      (es : List (Event P))
      → (run codec es (created {R = R})).busy ≡ false
      → last? (run codec es (created {R = R})).posted ≡ newest_of codec none es created
  last_posted es idle =
      let s : Fsharp P R = run codec es created in
      ap (λ next. or_newest next (last? s.posted))
        (sym ((run-IsSound es created (created-IsSound codec)).stored idle))
      ∙ newest-run es created (created-IsSound codec)

  -- Requests while the worker is busy post nothing, and replace one another.
  stored_busy :
      (p : Option P) (s : Fsharp P R)
      → s.initialized ≡ true
      → s.busy ≡ true
      → request_analysis codec p s ≡ record s { next = some (message_of codec p) }
  unfolding request_analysis
  stored_busy p s i b = ground arith

  asked_busy :
      (ps : List (Option P)) (p : Option P) (s : Fsharp P R)
      → s.initialized ≡ true
      → s.busy ≡ true
      → run codec (map request (ps ++ p ∷ [])) s ≡ record s { next = some (message_of codec p) }
  unfolding run
  asked_busy [] p s i b = stored_busy p s i b
  asked_busy (q ∷ ps) p s i b =
      ap (run codec (map request (ps ++ p ∷ []))) (stored_busy q s i b)
      ∙ asked_busy ps p (record s { next = some (message_of codec q) }) i b

  pub run-append :
      (ds es : List (Event P)) (s : Fsharp P R)
      → run codec (ds ++ es) s ≡ run codec es (run codec ds s)
  unfolding run
  run-append [] es s = refl
  run-append (d ∷ ds) es s = run-append ds es (handle codec d s)

  -- However many requests are made while an analysis runs, when its result comes just one of them is
  -- posted, the last one; the queue stays busy, and stores nothing.
  pub burst :
      (ps : List (Option P)) (p : Option P) (now : ℕ) (output : Chars) {r : R} (s : Fsharp P R)
      → s.initialized ≡ true
      → s.busy ≡ true
      → same_text output initialized_message ≡ false
      → decode_output codec output ≡ some r
      → let s' = run codec (map request (ps ++ p ∷ []) ++ message now output ∷ []) s in
        (s'.posted ≡ s.posted ++ message_of codec p ∷ []) × (s'.next ≡ none) × (s'.busy ≡ true)
  burst ps p now output s i b ne d =
      rw
        (run-append (map request (ps ++ p ∷ [])) (message now output ∷ []) s, asked_busy ps p s i b)
        (unfold run on_message in ground arith)
