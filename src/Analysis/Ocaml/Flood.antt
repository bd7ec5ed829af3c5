-- ===== src/Analysis/Ocaml/Flood.antt =====
-- What becomes of requests to the OCaml analysis: the queue tests a property that is never set.
use mathlib.Core.List.{Perm}
use dark.Common.Perms.{Perm-of_eq, Perm-done, Perm-rotated, Perm-run}
use dark.Common.{
  ℕ, ◌≡◌, ◌≢◌, refl, sym, ap, ◌∙◌, ◌⊎◌, inl, inr, Bool, true, false, Option, none, some, List, [],
  ◌∷◌, ◌++◌, map, append_assoc, append-nil, arith, length, length-append, Bool-cases,
}
use dark.Analysis.Slot.{Slot, idle, running, queued, submit}
use dark.Analysis.Ocaml.{
  Ocaml, request_analysis, retry_with, on_message, created, Event, request, timer, message, ready,
  handle, run,
}

-- The slot that the fields stand for.
abbrev pub slot_of : {P : Type 0} → Bool → Option P → Slot P
slot_of false next = idle
slot_of true none = running
slot_of true (some m) = queued m

module _ {P R : Type 0} where
  -- Nothing is ever stored as the next analysis.
  handle-next : (e : Event P R) (s : Ocaml P R) → s.next ≡ none → (handle e s).next ≡ none
  unfolding handle
  handle-next e s h = ground arith

  pub run-next : (es : List (Event P R)) (s : Ocaml P R) → s.next ≡ none → (run es s).next ≡ none
  unfolding run
  run-next [] s h = h
  run-next (e ∷ es) s h = run-next es (handle e s) (handle-next e s h)

  request_analysis_loaded :
      (p : P) (s : Ocaml P R)
      → s.loaded ≡ true
      → let t = request_analysis p s in
        (t.loaded ≡ true) × (t.posted ≡ s.posted ++ p ∷ []) × (t.next ≡ s.next)
  unfolding request_analysis
  request_analysis_loaded p s l = ground arith

  -- While the worker is loaded, requests are posted at once and in order, also while the object is
  -- busy, and none is stored or dropped.
  pub posted_at_once :
      (ps : List P) (s : Ocaml P R)
      → s.loaded ≡ true
      → let t = run (map request ps) s in (t.posted ≡ s.posted ++ ps) × (t.next ≡ s.next)
  unfolding run
  posted_at_once [] s l = (sym (append-nil s.posted), refl)
  posted_at_once (p ∷ ps) s l =
      let (all, same) =
        posted_at_once ps (request_analysis p s) (request_analysis_loaded p s l).0 in
      (
        all ∙ rw ((request_analysis_loaded p s l).1) (append_assoc s.posted (p ∷ []) ps),
        same ∙ (request_analysis_loaded p s l).2,
      )

  -- Every request that comes while the worker is loaded and the object is busy breaks the
  -- specification of the queue: what is posted is not what the specification's request sends.
  pub request_while_busy :
      (p : P) (s : Ocaml P R)
      → s.loaded ≡ true
      → s.busy ≡ true
      → (request_analysis p s).posted ≢ s.posted ++ (submit p (slot_of s.busy s.next)).1
  unfolding request_analysis submit
  request_while_busy p s l b e =
      ground (arith, length-append s.posted (p ∷ []), length-append s.posted [], ap length e)

  -- The requests among some events.
  abbrev pub asked : Event P R → List P
  asked (request p) = p ∷ []
  asked timer = []
  asked (message now r) = []
  asked ready = []

  abbrev pub requested : List (Event P R) → List P
  requested [] = []
  requested (e ∷ es) = asked e ++ requested es

  -- A request is posted, or waits for a timer.
  request_analysis-cases :
      (p : P) (s : Ocaml P R)
      → let t = request_analysis p s in
        ((t.posted ≡ s.posted ++ p ∷ []) × (t.waiting ≡ s.waiting))
        ⊎ ((t.posted ≡ s.posted) × (t.waiting ≡ s.waiting ++ p ∷ []))
  unfolding request_analysis
  request_analysis-cases p s = elim (Bool-cases s.loaded) [
    | inl l ↦ inl (ground arith, ground arith)
    | inr l ↦ inr (ground arith, ground arith)
  ]

  request_analysis-perm :
      (p : P) (s : Ocaml P R)
      → let t = request_analysis p s in
        Perm (t.posted ++ t.waiting) ((s.posted ++ s.waiting) ++ p ∷ [])
  request_analysis-perm p s = elim (request_analysis-cases p s) [
    | inl (e, w) ↦ rw (e, w) (Perm-done s.posted s.waiting p)
    | inr (e, w) ↦ rw (e, w) (Perm-of_eq (sym (append_assoc s.posted s.waiting (p ∷ []))))
  ]

  retry_with-perm :
      (ws : List P) (s : Ocaml P R)
      → ws ≡ s.waiting
      → let t = retry_with ws s in Perm (t.posted ++ t.waiting) ((s.posted ++ s.waiting) ++ [])
  unfolding retry_with
  retry_with-perm [] s e = Perm-of_eq (sym (append-nil _))
  retry_with-perm (p ∷ ws) s e =
      rw (append-nil (s.posted ++ s.waiting), ← e)
        (elim (request_analysis-cases p (record s { waiting = ws })) [
          | inl (e, w) ↦ rw (e, w) (Perm-of_eq (append_assoc s.posted (p ∷ []) ws))
          | inr (e, w) ↦ rw (e, w) (Perm-rotated s.posted ws p)
        ])

  on_message_idle :
      (now : ℕ) (r : R) (s : Ocaml P R)
      → s.next ≡ none
      → let t = on_message now r s in (t.posted ≡ s.posted) × (t.waiting ≡ s.waiting)
  unfolding on_message
  on_message_idle now r s h = ground arith

  handle-perm :
      (e : Event P R) (s : Ocaml P R)
      → s.next ≡ none
      → Perm ((handle e s).posted ++ (handle e s).waiting) ((s.posted ++ s.waiting) ++ asked e)
  unfolding handle
  handle-perm (request p) s h = request_analysis-perm p s
  handle-perm timer s h = retry_with-perm s.waiting s refl
  handle-perm (message now r) s h =
      let (p, w) = on_message_idle now r s h in rw (p, w) (Perm-of_eq (sym (append-nil _)))
  handle-perm ready s h = Perm-of_eq (sym (append-nil _))

  run-perm :
      (es : List (Event P R)) (s : Ocaml P R)
      → s.next ≡ none
      → Perm ((run es s).posted ++ (run es s).waiting) ((s.posted ++ s.waiting) ++ requested es)
  unfolding run
  run-perm [] s h = Perm-of_eq (sym (append-nil _))
  run-perm (e ∷ es) s h =
      Perm-run _ (asked e) (requested es) (run-perm es (handle e s) (handle-next e s h))
        (handle-perm e s h)

  -- After any events, the requests are those posted and those that wait for a timer, each as often
  -- as it was made. The order may be another.
  pub all_requests :
      (es : List (Event P R))
      → let s = run es created in Perm (s.posted ++ s.waiting) (requested es)
  all_requests es = run-perm es created refl
