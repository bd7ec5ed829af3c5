-- ===== src/Analysis/Fsharp/Drain.antt =====
-- How many results it takes until the F# queue is at rest.
use dark.Common.{ℕ, ◌≡◌, sym, ap, ◌∙◌, false, none, some, List, Chars, arith, last?, same_text}
use dark.Analysis.Wrapper.{Json, decode_output}
use dark.Analysis.Fsharp.{Fsharp, on_message, initialized_message, created}
use dark.Analysis.Fsharp.Queue.{created-IsSound}
use dark.Analysis.Fsharp.Latest.{Event, or_newest, run, newest_of, newest-on_message, newest-run}

module _ {P R : Type 0} (codec : Json P R) where
  result_clears :
      (now : ℕ) (output : Chars) {r : R} (s : Fsharp P R)
      → same_text output initialized_message ≡ false
      → decode_output codec output ≡ some r
      → (on_message codec now output s).next ≡ none
  unfolding on_message
  result_clears now output s ne d = ground arith

  result_rests :
      (now : ℕ) (output : Chars) {r : R} (s : Fsharp P R)
      → s.next ≡ none
      → same_text output initialized_message ≡ false
      → decode_output codec output ≡ some r
      → (on_message codec now output s).busy ≡ false
  unfolding on_message
  result_rests now output s e ne d = ground arith

  -- After any events, two results that can be decoded bring the queue to rest, with nothing stored, and
  -- then the message that was posted last is the newest request that was made while the worker was
  -- loaded.
  pub two_results :
      (es : List (Event P)) (now later : ℕ) (first second : Chars) {r q : R}
      → same_text first initialized_message ≡ false
      → same_text second initialized_message ≡ false
      → decode_output codec first ≡ some r
      → decode_output codec second ≡ some q
      → let t : Fsharp P R =
          on_message codec later second (on_message codec now first (run codec es created)) in
        (t.busy ≡ false)
        × (t.next ≡ none)
        × (last? t.posted ≡ newest_of codec none es (created {R = R}))
  two_results es now later first second ne1 ne2 d1 d2 =
      let s : Fsharp P R = run codec es created in
      let u = on_message codec now first s in
      let t = on_message codec later second u in
      let empty : t.next ≡ none = result_clears later second u ne2 d2 in
      (
        result_rests later second u (result_clears now first s ne1 d1) ne2 d2,
        empty,
        ap (λ next. or_newest next (last? t.posted)) (sym empty)
            ∙ newest-on_message codec later second u
            ∙ newest-on_message codec now first s
            ∙ newest-run codec es created (created-IsSound codec),
      )
