-- ===== src/Analysis/Ocaml.antt =====
-- `ocamlAnalysis` of client/src/appsupport.js: the analysis worker compiled from OCaml. The record
-- holds the object's fields, whether `window.analysisWorker` and its `onmessage` are set, and what the page has done so
-- far: messages posted, requests that wait for a timer, results dispatched as events.
pub mod Flood
use dark.Common.{
  ℕ, zero, suc, ◌+◌, ◌-◌, ◌*◌, ◌/◌, ◌%◌, ◌<◌, ◌≤◌, ◌≡◌, ◌≢◌, ◌↔◌, refl, sym, ap, ◌∙◌, ◌⊎◌, inl, inr,
  Bool, true, false, not, ◌&&◌, ◌||◌, Option, none, some, List, [], ◌∷◌, ◌++◌, map, append_assoc,
  append-nil, Chars, codes, arith, ◌==◌, ltb, ==_iff, if◌then◌else◌, length, length-append, All,
  Bool-cases, Option-cases, last?, last?-append, same_text, same_text_iff,
}

pub record Ocaml (P R : Type 0) : Type 0 where
  pub next : Option P
  pub busy : Bool
  pub loaded : Bool
  pub listening : Bool
  pub waiting : List P
  pub posted : List P
  pub received : List R
  pub last_run : ℕ

-- The property `busy` of the object `window.Dark.analysis`, whose literal declares `useBlazor`,
-- `requestAnalysis` and `lastRun`, and to which nothing else is ever assigned: `undefined`.
abbrev pub analysis_busy : Option Bool
analysis_busy = none

-- Whether a property that may be undefined passes an `if`.
abbrev pub truthy : Option Bool → Bool
truthy none = false
truthy (some b) = b

module _ {P R : Type 0} where
  -- `requestAnalysis`; `worker.onmessage` is set on both branches of the queue.
  unfoldable pub request_analysis : P → Ocaml P R → Ocaml P R
  request_analysis params s =
      if s.loaded
      then (if truthy analysis_busy
          then record s { next = some params; listening = true }
          else record s { posted = s.posted ++ params ∷ []; busy = true; listening = true })
      else record s { waiting = s.waiting ++ params ∷ [] }

  pub retry_with : List P → Ocaml P R → Ocaml P R
  unfolding request_analysis
  retry_with [] s = s
  retry_with (params ∷ rest) s = request_analysis params (record s { waiting = rest })

  -- The timer that was set first runs out.
  unfoldable pub retry : Ocaml P R → Ocaml P R
  unfolding retry_with
  retry s = retry_with s.waiting s

  -- `worker.onmessage`, if it is set, at the time `now`.
  unfoldable pub on_message : ℕ → R → Ocaml P R → Ocaml P R
  on_message now result s =
      let t : Ocaml P R = record s { received = s.received ++ result ∷ []; last_run = now } in
      let u : Ocaml P R = elim (s.next) [
        | none ↦ record t { busy = false }
        | some params ↦ record t { next = none; posted = s.posted ++ params ∷ [] }
      ] in
      if s.listening then u else s

  -- `window.analysisWorker = new Worker(…)`
  unfoldable pub load : Ocaml P R → Ocaml P R
  load s = record s { loaded = true }

  abbrev pub created : Ocaml P R
  created = record {
    next = none;
    busy = false;
    loaded = false;
    listening = false;
    waiting = [];
    posted = [];
    received = [];
    last_run = 0;
  }

pub data Event (P R : Type 0) : Type 0 where
  request : P → Event P R
  timer : Event P R
  message : ℕ → R → Event P R
  ready : Event P R

module _ {P R : Type 0} where
  unfoldable pub handle : Event P R → Ocaml P R → Ocaml P R
  unfolding request_analysis retry on_message load
  handle (request params) s = request_analysis params s
  handle timer s = retry s
  handle (message now result) s = on_message now result s
  handle ready s = load s

  unfoldable pub run : List (Event P R) → Ocaml P R → Ocaml P R
  unfolding handle
  run [] s = s
  run (e ∷ es) s = run es (handle e s)
