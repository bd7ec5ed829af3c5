-- ===== src/Analysis/Fsharp/Early.antt =====
-- Requests to the F# analysis that come before its worker is loaded: timers make them again.
use dark.Common.{
  ℕ, zero, suc, ◌≡◌, refl, sym, ap, ◌∙◌, true, false, Option, none, some, List, [], ◌∷◌, ◌++◌, map,
  Chars, arith, length, append-nil, append_assoc, replicate, same_text,
}
use dark.Analysis.Wrapper.{Json, decode_output}
use dark.Analysis.Fsharp.{
  Fsharp, message_of, request_analysis, retry, retry_with, on_message, initialized_message,
}
use dark.Analysis.Fsharp.Latest.{request, timer, message, run}

module _ {P R : Type 0} (codec : Json P R) where
  -- Before the worker is loaded, requests are kept in their order, and nothing is posted.
  kept_early :
      (p : Option P) (s : Fsharp P R)
      → s.initialized ≡ false
      → request_analysis codec p s ≡ record s { waiting = s.waiting ++ p ∷ [] }
  unfolding request_analysis
  kept_early p s i = ground arith

  pub asked_early :
      (ps : List (Option P)) (s : Fsharp P R)
      → s.initialized ≡ false
      → run codec (map request ps) s ≡ record s { waiting = s.waiting ++ ps }
  unfolding run
  asked_early [] s i = ap (λ w. record s { waiting = w }) (sym (append-nil s.waiting))
  asked_early (p ∷ ps) s i =
      ap (run codec (map request ps)) (kept_early p s i)
      ∙ asked_early ps (record s { waiting = s.waiting ++ p ∷ [] }) i
      ∙ ap (λ w. record s { waiting = w }) (append_assoc s.waiting (p ∷ []) ps)

  -- A timer takes the request that waits longest: it is posted, or stored if the queue is busy, or
  -- it waits again.
  timer_idle :
      (p : Option P) (w : List (Option P)) (s : Fsharp P R)
      → s.waiting ≡ p ∷ w
      → s.initialized ≡ true
      → s.busy ≡ false
      → retry codec s
        ≡ record s { waiting = w; posted = s.posted ++ message_of codec p ∷ []; busy = true }
  unfolding retry retry_with request_analysis
  timer_idle p w s e i b = ground arith

  timer_busy :
      (p : Option P) (w : List (Option P)) (s : Fsharp P R)
      → s.waiting ≡ p ∷ w
      → s.initialized ≡ true
      → s.busy ≡ true
      → retry codec s ≡ record s { waiting = w; next = some (message_of codec p) }
  unfolding retry retry_with request_analysis
  timer_busy p w s e i b = ground arith

  timers_busy :
      (w : List (Option P)) (q : Option P) (s : Fsharp P R)
      → s.waiting ≡ w ++ q ∷ []
      → s.initialized ≡ true
      → s.busy ≡ true
      → run codec (replicate (suc (length w)) timer) s
        ≡ record s { waiting = []; next = some (message_of codec q) }
  unfolding run
  timers_busy [] q s e i b = timer_busy q [] s e i b
  timers_busy (p ∷ w) q s e i b =
      ap (run codec (replicate (suc (length w)) timer)) (timer_busy p (w ++ q ∷ []) s e i b)
      ∙ timers_busy w q (record s { waiting = w ++ q ∷ []; next = some (message_of codec p) }) refl
          i b

  -- The timers of requests that waited while the worker was loaded: the first one is posted, and the
  -- others replace one another.
  pub timers_idle :
      (p : Option P) (w : List (Option P)) (q : Option P) (s : Fsharp P R)
      → s.waiting ≡ p ∷ (w ++ q ∷ [])
      → s.initialized ≡ true
      → s.busy ≡ false
      → run codec (replicate (suc (suc (length w))) timer) s ≡ record s {
        waiting = [];
        posted = s.posted ++ message_of codec p ∷ [];
        next = some (message_of codec q);
        busy = true;
      }
  unfolding run
  timers_idle p w q s e i b =
      ap (run codec (replicate (suc (length w)) timer)) (timer_idle p (w ++ q ∷ []) s e i b)
      ∙ timers_busy w q
          (record s {
            waiting = w ++ q ∷ [];
            posted = s.posted ++ message_of codec p ∷ [];
            busy = true;
          })
          refl i refl

  -- Before the worker is loaded, timers post and store nothing.
  timer_early :
      (waiting : List (Option P)) (s : Fsharp P R)
      → s.initialized ≡ false
      → (w : List (Option P)) × (retry_with codec waiting s ≡ record s { waiting = w })
  unfolding retry_with request_analysis
  timer_early [] s i = (s.waiting, refl)
  timer_early (p ∷ rest) s i = (rest ++ p ∷ [], ground arith)

  pub timers_early :
      (n : ℕ) (s : Fsharp P R)
      → s.initialized ≡ false
      → (w : List (Option P)) × (run codec (replicate n timer) s ≡ record s { waiting = w })
  unfolding run retry
  timers_early zero s i = (s.waiting, refl)
  timers_early (suc n) s i =
      let (w, e) = timer_early s.waiting s i in
      let (v, f) = timers_early n (record s { waiting = w }) i in
      (v, ap (run codec (replicate n timer)) e ∙ f)

  -- A request that is made while an analysis runs is lost if a timer makes an older request again
  -- before the result comes: the older one is posted next.
  pub stale_request :
      (older newer : Option P) (rest : List (Option P)) (now : ℕ) (output : Chars) {r : R}
      (s : Fsharp P R)
      → s.waiting ≡ older ∷ rest
      → s.initialized ≡ true
      → s.busy ≡ true
      → same_text output initialized_message ≡ false
      → decode_output codec output ≡ some r
      → let t = run codec (request newer ∷ timer ∷ message now output ∷ []) s in
        (t.posted ≡ s.posted ++ message_of codec older ∷ []) × (t.next ≡ none)
  unfolding run on_message
  stale_request older newer rest now output s e i b ne d =
      let stored = record s { next = some (message_of codec newer) } in
      let kept : request_analysis codec newer s ≡ stored =
        unfold request_analysis in ground arith in
      let replaced = ap (retry codec) kept ∙ timer_busy older rest stored e i b in
      rw replaced (ground arith)
