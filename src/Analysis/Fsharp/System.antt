-- ===== src/Analysis/Fsharp/System.antt =====
-- The page together with its worker: requests, timers and messages in any order. The worker answers
-- each message once, as `OnMessage` of fsharp-backend/src/Wasm/EvalWorker.fs does.
use dark.Common.{
  ℕ, ◌+◌, ◌<◌, ◌≤◌, ◌≡◌, refl, inl, inr, false, Option, List, [], ◌∷◌, Chars, arith, length,
  length-append, Option-cases, if◌then◌else◌, same_text,
}
use dark.Analysis.Wrapper.{Json}
use dark.Analysis.Fsharp.{
  Fsharp, message_of, request_analysis, retry, retry_with, on_message, initialized_message, created,
}
use dark.Analysis.Fsharp.Queue.{
  IsSound, created-IsSound, request_analysis-IsSound, retry-IsSound, on_message-IsSound,
}

pub record System (P R : Type 0) : Type 0 where
  pub page : Fsharp P R
  pub replied : ℕ

module _ {P R : Type 0} (codec : Json P R) where
  -- A result is any text but the one that says that the worker is loaded.
  pub data Step : System P R → System P R → Type 0 where
    ask :
        {s : System P R} (params : Option P)
        → Step s (record s { page = request_analysis codec params s.page })
    tick : {s : System P R} → Step s (record s { page = retry codec s.page })
    load :
        {s : System P R} (now : ℕ)
        → Step s (record s { page = on_message codec now initialized_message s.page })
    reply :
        {s : System P R} (now : ℕ) (output : Chars)
        → s.replied < length s.page.posted
        → same_text output initialized_message ≡ false
        → Step s (record { page = on_message codec now output s.page; replied = s.replied + 1 })

  pub data Reach (s : System P R) : System P R → Type 0 where
    here : Reach s s
    next : {t u : System P R} → Reach s t → Step t u → Reach s u

  -- How many messages the worker still has to answer: none if the queue is not busy, else at most one.
  pub record IsCounted (replied : ℕ) (s : Fsharp P R) : Type 0 where
    pub answered : replied ≤ length s.posted
    pub single : length s.posted ≤ replied + 1
    pub resting : s.busy ≡ false → length s.posted ≡ replied

  pub record Inv (s : System P R) : Type 0 where
    pub sound : IsSound s.page
    pub counted : IsCounted s.replied s.page

  abbrev pub start : System P R
  start = record { page = created; replied = 0 }

  start-Inv : Inv start
  start-Inv = record {
    sound = created-IsSound codec;
    counted = record { answered = omega arith; single = omega arith; resting = λ _. refl };
  }

  request_analysis-IsCounted :
      (params : Option P) (s : Fsharp P R) (n : ℕ)
      → IsCounted n s
      → IsCounted n (request_analysis codec params s)
  unfolding request_analysis
  request_analysis-IsCounted params s n h =
      ground (arith, length-append s.posted (message_of codec params ∷ []))

  retry_with-IsCounted :
      (w : List (Option P)) (s : Fsharp P R) (n : ℕ)
      → IsCounted n s
      → IsCounted n (retry_with codec w s)
  unfolding retry_with
  retry_with-IsCounted [] s n h = h
  retry_with-IsCounted (params ∷ rest) s n h =
      ground (arith, length-append s.posted (message_of codec params ∷ []))

  retry-IsCounted : (s : Fsharp P R) (n : ℕ) → IsCounted n s → IsCounted n (retry codec s)
  unfolding retry
  retry-IsCounted s n h = retry_with-IsCounted s.waiting s n h

  load-IsCounted :
      (now n : ℕ) (s : Fsharp P R)
      → IsCounted n s
      → IsCounted n (on_message codec now initialized_message s)
  unfolding on_message same_text
  load-IsCounted now n s h = ground arith

  reply-IsCounted :
      (now : ℕ) (output : Chars) (n : ℕ) (s : Fsharp P R)
      → IsSound s
      → n < length s.posted
      → same_text output initialized_message ≡ false
      → IsCounted n s
      → IsCounted (n + 1) (on_message codec now output s)
  unfolding on_message
  reply-IsCounted now output n s sound lt ne h = elim (Option-cases s.next) [
    | inl e ↦ ground arith
    | inr (m, e) ↦ ground (arith, length-append s.posted (m ∷ []))
  ]

  Step-Inv : {s t : System P R} → Step s t → Inv s → Inv t
  Step-Inv (ask {s} params) h = record {
    sound = request_analysis-IsSound codec params s.page h.sound;
    counted = request_analysis-IsCounted params s.page s.replied h.counted;
  }
  Step-Inv (tick {s}) h = record {
    sound = retry-IsSound codec s.page h.sound;
    counted = retry-IsCounted s.page s.replied h.counted;
  }
  Step-Inv (load {s} now) h = record {
    sound = on_message-IsSound codec now initialized_message s.page h.sound;
    counted = load-IsCounted now s.replied s.page h.counted;
  }
  Step-Inv (reply {s} now output lt ne) h = record {
    sound = on_message-IsSound codec now output s.page h.sound;
    counted = reply-IsCounted now output s.replied s.page h.sound lt ne h.counted;
  }

  pub Reach-Inv : {s : System P R} → Reach start s → Inv s
  Reach-Inv here = start-Inv
  Reach-Inv (next r st) = Step-Inv st (Reach-Inv r)

  -- In every reachable state the worker has answered no more messages than it was posted, at most
  -- one is unanswered, and none is if the queue is not busy.
  pub single_flight :
      {s : System P R}
      → Reach start s
      → (s.replied ≤ length s.page.posted)
        × (length s.page.posted ≤ s.replied + (if s.page.busy then 1 else 0))
  single_flight r =
      let c = (Reach-Inv r).counted in (c.answered, ground (arith, c.single, c.resting))
