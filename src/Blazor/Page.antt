-- ===== src/Blazor/Page.antt =====
-- The page and the start of its F# worker together: client/src/appsupport.js, with what
-- fsharp-backend/src/Wasm/static/BlazorWorker.js posts to it.
use dark.Common.{
  ℕ, suc, ◌≤◌, ◌≡◌, refl, ap, ◌∙◌, Bool, true, false, Option, none, some, List, [], ◌∷◌, ◌++◌, map,
  Chars, arith, ◌==◌, if◌then◌else◌, length, replicate, same_text,
}
use dark.Analysis.Wrapper.{Json}
use dark.Analysis.Fsharp.{Fsharp, message_of, on_message, initialized_message, created}
use dark.Analysis.Fsharp.Latest.{Event, request, timer, message, run, run-append}
use dark.Analysis.Fsharp.Early.{asked_early, timers_idle, timers_early}
use dark.Blazor.Boot.{Boot, File, pre_run}
use dark.Blazor.Boot
use dark.Blazor.Boot.Ready.{boot_lem}

-- The messages of a worker that has come so far, as the page gets them.
abbrev pub greetings : {P : Type 0} → ℕ → Boot → List (Event P)
greetings now b = replicate b.ready_posted (message now initialized_message)

-- Some requests, what the worker posts, and then the timers of the requests.
abbrev pub early_events :
    {P : Type 0} → ℕ → Boot → Option P → List (Option P) → Option P → List (Event P)
early_events now b first between last =
    map request (first ∷ (between ++ last ∷ []))
    ++ (greetings now b ++ replicate (suc (suc (length between))) timer)

module _ {P R : Type 0} (codec : Json P R) where
  greeted :
      (now : ℕ) (loaded : Bool) (s : Fsharp P R)
      → s.initialized ≡ false
      → run codec (replicate (if loaded then 1 else 0) (message now initialized_message)) s
        ≡ record s { initialized = loaded }
  unfolding run on_message same_text
  greeted now true s i = refl
  greeted now false s i = ground arith

  -- What the page has done with those requests, when the worker is loaded or not.
  abbrev pub HasServed : Option P → Option P → Bool → Fsharp P R → Type 0
  HasServed first last loaded t =
      (t.initialized ≡ loaded)
      × (t.posted ≡ (if loaded then message_of codec first ∷ [] else []))
      × (t.next ≡ (if loaded then some (message_of codec last) else none))
      × (t.busy ≡ loaded)

  timers_lem :
      (loaded : Bool) (first : Option P) (between : List (Option P)) (last : Option P)
      (s : Fsharp P R)
      → s ≡ record created { waiting = first ∷ (between ++ last ∷ []); initialized = loaded }
      → HasServed first last loaded (run codec (replicate (suc (suc (length between))) timer) s)
  timers_lem true first between last s e =
      let f =
        timers_idle codec first between last s (ap (λ t. t.waiting) e) (ap (λ t. t.initialized) e)
          (ap (λ t. t.busy) e) in
      rw f (rw e (refl, refl, refl, refl))
  timers_lem false first between last s e =
      let (w, f) = timers_early codec (suc (suc (length between))) s (ap (λ t. t.initialized) e) in
      rw f (rw e (refl, refl, refl, refl))

  -- Requests that are made before the worker is loaded: if all the files of the manifest have been
  -- settled when their timers run out, the first one is posted, the last one is stored to be posted
  -- next, and those between are dropped; if not, none is posted or stored.
  pub early_requests :
      (urls : List Chars) (files : List File) (now : ℕ) (first last : Option P)
      (between : List (Option P))
      → length files ≤ length urls
      → HasServed first last
          (length files == length urls)
          (run codec (early_events now (Boot.run files (pre_run urls)) first between last) created)
  early_requests urls files now first last between h =
      let asked = map request (first ∷ (between ++ last ∷ [])) in
      let worker = Boot.run files (pre_run urls) in
      let timers : List (Event P) = replicate (suc (suc (length between))) timer in
      let kept = asked_early codec (first ∷ (between ++ last ∷ [])) created refl in
      let told =
        ap
          (λ n. run codec (replicate n (message now initialized_message)) (run codec asked created))
          (boot_lem urls files h).0
        ∙ ap (run codec (replicate _ (message now initialized_message))) kept
        ∙ greeted now (length files == length urls) _ refl in
      rw
        (
          run-append codec asked (greetings now worker ++ timers) created,
          run-append codec (greetings now worker) timers (run codec asked created),
        )
        (timers_lem (length files == length urls) first between last _ told)
