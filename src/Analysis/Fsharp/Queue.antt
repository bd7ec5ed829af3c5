-- ===== src/Analysis/Fsharp/Queue.antt =====
-- The queue of the F# analysis against its specification.
use dark.Common.{
  ℕ, ◌≡◌, Bool, true, false, Option, none, some, [], ◌∷◌, ◌++◌, append-nil, Chars, arith,
}
use dark.Analysis.Wrapper.{Json, decode_output}
use dark.Analysis.Fsharp.{
  Message, Fsharp, message_of, request_analysis, retry, callback, on_message, created,
}
use dark.Analysis.Slot.{Slot, idle, running, queued, submit, complete}

-- The slot that the fields stand for.
abbrev pub slot_of : Bool → Option Message → Slot Message
slot_of false next = idle
slot_of true none = running
slot_of true (some m) = queued m

module _ {P R : Type 0} where
  -- A request is stored only while the worker is busy, and nothing is posted before it is loaded.
  pub record IsSound (s : Fsharp P R) : Type 0 where
    pub stored : s.busy ≡ false → s.next ≡ none
    pub silent : s.initialized ≡ false → (s.posted ≡ []) × (s.busy ≡ false)

  -- The slot of an object.
  abbrev pub slot : Fsharp P R → Slot Message
  slot s = slot_of s.busy s.next

module _ {P R : Type 0} (codec : Json P R) where
  pub created-IsSound : IsSound (created {P = P} {R = R})
  created-IsSound = ground arith

  pub request_analysis-IsSound :
      (params : Option P) (s : Fsharp P R) → IsSound s → IsSound (request_analysis codec params s)
  unfolding request_analysis
  request_analysis-IsSound params s h = ground arith

  pub retry-IsSound : (s : Fsharp P R) → IsSound s → IsSound (retry codec s)
  unfolding retry
  retry-IsSound s h = ground arith

  pub on_message-IsSound :
      (now : ℕ) (output : Chars) (s : Fsharp P R)
      → IsSound s
      → IsSound (on_message codec now output s)
  unfolding on_message
  on_message-IsSound now output s h = ground arith

  -- In a sound object whose worker is loaded, a request changes the slot as the specification's
  -- request does, and posts what that one sends.
  pub request_analysis-submit :
      (params : Option P) (s : Fsharp P R)
      → IsSound s
      → s.initialized ≡ true
      → let s' = request_analysis codec params s in
        let (next, sent) = submit (message_of codec params) (slot s) in
        (slot s' ≡ next) × (s'.posted ≡ s.posted ++ sent)
  unfolding request_analysis submit
  request_analysis-submit params s h i = ground (arith, append-nil s.posted)

  -- A result that can be decoded changes the slot of a sound object as the specification's result
  -- does, posts what that one sends, and is dispatched.
  pub callback-complete :
      (now : ℕ) (output : Chars) {r : R} (s : Fsharp P R)
      → IsSound s
      → decode_output codec output ≡ some r
      → let s' = callback codec now output s in
        let (next, sent) = complete (slot s) in
        (slot s' ≡ next) × (s'.posted ≡ s.posted ++ sent) × (s'.received ≡ s.received ++ r ∷ [])
  unfolding callback complete
  callback-complete now output s h d = ground (arith, append-nil s.posted)
