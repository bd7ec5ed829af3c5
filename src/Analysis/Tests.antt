-- ===== src/Analysis/Tests.antt =====
-- The theorems about the analyses and the fetcher at concrete inputs. Parameters and results are
-- numbers; the text of a result is one character.
use mathlib.Core.List.{Perm}
use dark.Common.{
  if◌then◌else◌, ℕ, ◌<◌, ◌≤◌, ◌≡◌, ◌≢◌, refl, true, false, Option, none, some, List, [], ◌∷◌, ◌++◌,
  map, Chars, codes, arith, length, last?, same_text,
}
use dark.Analysis.Wrapper.{Json}
use dark.Analysis.Slot.{submit, complete}
use dark.Analysis.Fsharp
use dark.Analysis.Fsharp.{
  Fsharp, Message, message_of, request_analysis, callback, on_message, initialized_message, created,
}
use dark.Analysis.Fsharp.Queue.{IsSound, slot, request_analysis-submit, callback-complete}
use dark.Analysis.Fsharp.System.{System, Reach, here, next, ask, load, start, single_flight}
use dark.Analysis.Fsharp.Latest.{Event, request, timer, message, run, newest_of, last_posted, burst}
use dark.Analysis.Fsharp.Drain.{two_results}
use dark.Analysis.Fsharp.Garbled.{garbled_stops}
use dark.Analysis.Ocaml
use dark.Analysis.Ocaml.{Ocaml}
use dark.Analysis.Ocaml.Flood.{slot_of, request_while_busy}
use dark.Analysis.Fetcher
use dark.Analysis.Fetcher.{Fetcher, all_fetches, timers_post}
use dark.Analysis.Dispatch.{Dark}

-- A text that is empty is not understood.
abbrev first_char : Chars → Option ℕ
first_char [] = none
first_char (c ∷ s) = some c

abbrev codec : Json ℕ ℕ
codec = record { stringify = λ n. n ∷ []; parse = first_char }

abbrev loaded : Fsharp ℕ ℕ
loaded = record (created {P = ℕ} {R = ℕ}) { initialized = true }

abbrev working : Fsharp ℕ ℕ
working = record loaded { busy = true; posted = message_of codec (some 1) ∷ [] }

loaded-IsSound : IsSound loaded
loaded-IsSound = ground arith

working-IsSound : IsSound working
working-IsSound = ground arith

abbrev asked : System ℕ ℕ
asked = record {
  page = request_analysis codec (some 3) (on_message codec 5 initialized_message created);
  replied = 0;
}

asked-Reach : Reach codec (start codec) asked
asked-Reach = next (next here (load 5)) (ask (some 3))

single_flight_example :
    (0 ≤ length asked.page.posted) × (length asked.page.posted ≤ (if asked.page.busy then 1 else 0))
unfolding request_analysis on_message same_text
single_flight_example = single_flight codec asked-Reach

asked_posted : 0 < length asked.page.posted
unfolding request_analysis on_message same_text
asked_posted = omega arith

empty_differs : same_text [] initialized_message ≡ false
unfolding same_text
empty_differs = refl

seven_differs : same_text (7 ∷ []) initialized_message ≡ false
unfolding same_text
seven_differs = refl

abbrev garbled : System ℕ ℕ
garbled = record { page = on_message codec 9 [] asked.page; replied = 1 }

abbrev garbled_later : System ℕ ℕ
garbled_later = record garbled { page = request_analysis codec (some 4) garbled.page }

garbled_stops_example :
    (garbled_later.page.posted ≡ asked.page.posted) × (garbled_later.page.busy ≡ true)
garbled_stops_example =
    garbled_stops codec 9 [] asked-Reach asked_posted empty_differs refl (next here (ask (some 4)))

submit_example :
    let s' = request_analysis codec (some 2) working in
    let (after, sent) = submit (message_of codec (some 2)) (slot working) in
    (slot s' ≡ after) × (s'.posted ≡ working.posted ++ sent)
submit_example = request_analysis-submit codec (some 2) working working-IsSound refl

complete_example :
    let s' = callback codec 9 (7 ∷ []) working in
    let (after, sent) = complete (slot working) in
    (slot s' ≡ after)
    × (s'.posted ≡ working.posted ++ sent)
    × (s'.received ≡ working.received ++ 7 ∷ [])
complete_example = callback-complete codec 9 (7 ∷ []) working working-IsSound refl

abbrev session : List (Event ℕ)
session =
    request (some 1)
    ∷ message 2 initialized_message
    ∷ timer
    ∷ request (some 3)
    ∷ message 4 (7 ∷ [])
    ∷ message 5 (8 ∷ [])
    ∷ []

session_rests : (run codec session (created {R = ℕ})).busy ≡ false
unfolding run request_analysis on_message same_text Fsharp.retry
session_rests = refl

last_posted_example :
    last? (run codec session (created {R = ℕ})).posted ≡ newest_of codec none session created
last_posted_example = last_posted codec session session_rests

abbrev busy_session : List (Event ℕ)
busy_session =
    message 2 initialized_message ∷ request (some 1) ∷ request (some 3) ∷ request (some 4) ∷ []

eight_differs : same_text (8 ∷ []) initialized_message ≡ false
unfolding same_text
eight_differs = refl

two_results_example :
    let t =
      on_message codec 9
        (8 ∷ [])
        (on_message codec 5 (7 ∷ []) (run codec busy_session (created {R = ℕ}))) in
    (t.busy ≡ false)
    × (t.next ≡ none)
    × (last? t.posted ≡ newest_of codec none busy_session created)
two_results_example =
    two_results codec busy_session 5 9 (7 ∷ []) (8 ∷ []) seven_differs eight_differs refl refl

burst_example :
    let s' =
      run codec
        (map request ((some 2 ∷ none ∷ []) ++ some 3 ∷ []) ++ message 9 (7 ∷ []) ∷ [])
        working in
    (s'.posted ≡ working.posted ++ message_of codec (some 3) ∷ [])
    × (s'.next ≡ none)
    × (s'.busy ≡ true)
burst_example =
    burst codec (some 2 ∷ none ∷ []) (some 3) 9 (7 ∷ []) working refl refl seven_differs refl

abbrev ocaml_busy : Ocaml ℕ ℕ
ocaml_busy = record (Ocaml.created {P = ℕ} {R = ℕ}) { loaded = true; busy = true; posted = 1 ∷ [] }

request_while_busy_example :
    (Ocaml.request_analysis 2 ocaml_busy).posted
    ≢ ocaml_busy.posted ++ (submit 2 (slot_of ocaml_busy.busy ocaml_busy.next)).1
request_while_busy_example = request_while_busy 2 ocaml_busy refl refl

abbrev ocaml_session : List (Ocaml.Event ℕ ℕ)
ocaml_session =
    Ocaml.request 1 ∷ Ocaml.ready ∷ Ocaml.request 2 ∷ Ocaml.timer ∷ Ocaml.message 5 7 ∷ []

abbrev fetches : List (Fetcher.Event ℕ ℕ)
fetches =
    Fetcher.request 1 ∷ Fetcher.ready ∷ Fetcher.request 2 ∷ Fetcher.timer ∷ Fetcher.message 7 ∷ []

all_fetches_example :
    let s = Fetcher.run fetches Fetcher.created in
    Perm (s.posted ++ s.waiting) (Fetcher.requested fetches)
all_fetches_example = all_fetches fetches

abbrev put_off : Fetcher ℕ ℕ
put_off = record (Fetcher.created {P = ℕ} {R = ℕ}) { loaded = true; waiting = 1 ∷ 2 ∷ [] }

abbrev page : Dark ℕ ℕ ℕ
page = record { use_blazor = some (codes "false"); fsharp = loaded; ocaml = Ocaml.created }

abbrev working_early : Fsharp ℕ ℕ
working_early = record working { waiting = some 2 ∷ [] }
