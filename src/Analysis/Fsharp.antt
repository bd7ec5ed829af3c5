-- ===== src/Analysis/Fsharp.antt =====
-- `fsharpAnalysis` of client/src/appsupport.js, and the messages of the worker as
-- fsharp-backend/src/Wasm/static/BlazorWorker.js hands them over. The record holds the object's
-- fields and what the page has done so far: the messages posted to the worker, the requests that
-- wait for a timer, the results dispatched as `receiveAnalysis` events.
pub mod Queue
pub mod System
pub mod Latest
pub mod Garbled
pub mod Drain
pub mod Early
use dark.Common.{
  ℕ, zero, suc, ◌+◌, ◌-◌, ◌*◌, ◌/◌, ◌%◌, ◌<◌, ◌≤◌, ◌≡◌, ◌≢◌, ◌↔◌, refl, sym, ap, ◌∙◌, ◌⊎◌, inl, inr,
  Bool, true, false, not, ◌&&◌, ◌||◌, Option, none, some, List, [], ◌∷◌, ◌++◌, map, append_assoc,
  append-nil, Chars, codes, arith, ◌==◌, ltb, ==_iff, if◌then◌else◌, length, length-append, All,
  Bool-cases, Option-cases, last?, last?-append, same_text, same_text_iff,
}
use dark.Analysis.Wrapper.{
  Json, ResponseType, Response, error, success, stringify_input, decode_output,
}

-- What is posted to the worker: the JSON text, or the response object itself where there was none.
pub data Message : Type 0 where
  text : Chars → Message
  object : Response → Message

pub record Fsharp (P R : Type 0) : Type 0 where
  pub next : Option Message
  pub busy : Bool
  pub initialized : Bool
  pub waiting : List (Option P)
  pub posted : List Message
  pub received : List R
  pub last_run : ℕ

-- The text by which the worker says that it is loaded.
abbrev pub initialized_message : Chars
initialized_message = codes "darkWebWorkerInitializedMessage"

module _ {P R : Type 0} (codec : Json P R) where
  -- What `params` is after the call of `stringifyInput`: in the case of an error it is only logged.
  unfoldable pub message_of : Option P → Message
  message_of params = elim ((stringify_input codec params).response_type) [
    | error ↦ object (stringify_input codec params)
    | success ↦ text (stringify_input codec params).json
  ]

  -- `analysis queue: run immediately or store if busy`
  unfoldable pub enqueue : Message → Fsharp P R → Fsharp P R
  enqueue m s =
      if s.busy
      then record s { next = some m }
      else record s { posted = s.posted ++ m ∷ []; busy = true }

  -- `requestAnalysis`; `setTimeout` keeps the parameters for a later call.
  unfoldable pub request_analysis : Option P → Fsharp P R → Fsharp P R
  unfolding enqueue message_of
  request_analysis params s =
      if s.initialized
      then enqueue (message_of params) s
      else record s { waiting = s.waiting ++ params ∷ [] }

  -- The timer that was set first runs out: all have the same delay.
  pub retry_with : List (Option P) → Fsharp P R → Fsharp P R
  unfolding request_analysis
  retry_with [] s = s
  retry_with (params ∷ rest) s = request_analysis params (record s { waiting = rest })

  unfoldable pub retry : Fsharp P R → Fsharp P R
  unfolding retry_with
  retry s = retry_with s.waiting s

  -- `analysis queue: run the next analysis or mark not busy`
  unfoldable pub run_next : Fsharp P R → Fsharp P R
  run_next s = elim (s.next) [
    | none ↦ record s { busy = false }
    | some m ↦ record s { next = none; posted = s.posted ++ m ∷ [] }
  ]

  -- `callback` at the time `now`. Where `decodeOutput` raises, nothing more is done.
  unfoldable pub callback : ℕ → Chars → Fsharp P R → Fsharp P R
  unfolding run_next
  callback now output s = elim (decode_output codec output) [
    | none ↦ s
    | some r ↦ record (run_next (record s { received = s.received ++ r ∷ [] })) { last_run = now }
  ]

  -- `worker.onmessage` of BlazorWorker.js, with the two callbacks of `initializeBlazorWorker`.
  unfoldable pub on_message : ℕ → Chars → Fsharp P R → Fsharp P R
  unfolding callback
  on_message now output s =
      if same_text output initialized_message
      then record s { initialized = true }
      else callback now output s

-- The object as the page creates it.
abbrev pub created : {P R : Type 0} → Fsharp P R
created = record {
  next = none;
  busy = false;
  initialized = false;
  waiting = [];
  posted = [];
  received = [];
  last_run = 0;
}
