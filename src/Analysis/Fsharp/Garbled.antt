-- ===== src/Analysis/Fsharp/Garbled.antt =====
-- What happens when `decodeOutput` raises in `callback`.
use dark.Common.{
  ℕ, ◌+◌, ◌<◌, ◌≤◌, ◌≡◌, ap, ◌∙◌, true, false, Option, none, List, Chars, arith, length, same_text,
}
use dark.Analysis.Wrapper.{Json, decode_output}
use dark.Analysis.Fsharp.{Message, Fsharp, request_analysis, retry, on_message, initialized_message}
use dark.Analysis.Fsharp.System.{
  System, Step, ask, tick, load, reply, Reach, here, next, start, Reach-Inv, IsCounted,
}

module _ {P R : Type 0} (codec : Json P R) where
  -- The queue takes itself for busy, but the worker has nothing left to answer.
  record IsStuck (posted : List Message) (s : System P R) : Type 0 where
    busy : s.page.busy ≡ true
    answered : length s.page.posted ≤ s.replied
    same : s.page.posted ≡ posted

  request_analysis-busy :
      (params : Option P) (s : Fsharp P R)
      → s.busy ≡ true
      → ((request_analysis codec params s).busy ≡ true)
        × ((request_analysis codec params s).posted ≡ s.posted)
  unfolding request_analysis
  request_analysis-busy params s b = ground arith

  retry-busy :
      (s : Fsharp P R)
      → s.busy ≡ true
      → ((retry codec s).busy ≡ true) × ((retry codec s).posted ≡ s.posted)
  unfolding retry
  retry-busy s b = ground arith

  load-busy :
      (now : ℕ) (s : Fsharp P R)
      → s.busy ≡ true
      → let t = on_message codec now initialized_message s in
        (t.busy ≡ true) × (t.posted ≡ s.posted)
  unfolding on_message same_text
  load-busy now s b = ground arith

  Step-IsStuck :
      {s t : System P R} (posted : List Message)
      → Step codec s t
      → IsStuck posted s
      → IsStuck posted t
  Step-IsStuck posted (ask {s} params) h = ground (arith, request_analysis-busy params s.page)
  Step-IsStuck posted (tick {s}) h = ground (arith, retry-busy s.page)
  Step-IsStuck posted (load {s} now) h = ground (arith, load-busy now s.page)
  Step-IsStuck posted (reply {s} now output lt ne) h = absurd (omega (arith, h.answered))

  Reach-IsStuck :
      {s t : System P R} (posted : List Message)
      → Reach codec s t
      → IsStuck posted s
      → IsStuck posted t
  Reach-IsStuck posted here h = h
  Reach-IsStuck posted (next r st) h = Step-IsStuck posted st (Reach-IsStuck posted r h)

  busy_of_owed :
      (s : System P R)
      → IsCounted codec s.replied s.page
      → s.replied < length s.page.posted
      → s.page.busy ≡ true
  busy_of_owed s c lt = ground arith

  on_message_garbled :
      (now : ℕ) (output : Chars) (s : Fsharp P R)
      → same_text output initialized_message ≡ false
      → decode_output codec output ≡ none
      → on_message codec now output s ≡ s
  unfolding on_message
  on_message_garbled now output s ne bad = ground arith

  -- A result that cannot be decoded stops the queue for good: whatever happens afterwards, nothing
  -- more is posted to the worker.
  pub garbled_stops :
      {s t : System P R} (now : ℕ) (output : Chars)
      → Reach codec (start codec) s
      → s.replied < length s.page.posted
      → same_text output initialized_message ≡ false
      → decode_output codec output ≡ none
      → Reach codec
          (record { page = on_message codec now output s.page; replied = s.replied + 1 })
          t
      → (t.page.posted ≡ s.page.posted) × (t.page.busy ≡ true)
  garbled_stops {s} now output r lt ne bad later =
      let c = (Reach-Inv codec r).counted in
      let same : on_message codec now output s.page ≡ s.page =
        on_message_garbled now output s.page ne bad in
      let stuck = Reach-IsStuck s.page.posted later (record {
        busy = ap (λ (q : Fsharp P R). q.busy) same ∙ busy_of_owed s c lt;
        answered = rw same c.single;
        same = ap (λ (q : Fsharp P R). q.posted) same;
      }) in
      (stuck.same, stuck.busy)
