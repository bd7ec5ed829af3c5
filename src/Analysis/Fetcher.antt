-- ===== src/Analysis/Fetcher.antt =====
-- `fetcher` of client/src/appsupport.js: parameters go to the worker that fetches traces, and what it
-- sends back is dispatched as `receiveFetch` events.
use mathlib.Core.List.{Perm}
use dark.Common.Perms.{Perm-of_eq, Perm-done, Perm-rotated, Perm-run}
use dark.Common.{
  ℕ, zero, suc, ◌≡◌, refl, sym, ap, ◌∙◌, ◌⊎◌, inl, inr, Bool, true, false, List, [], ◌∷◌, ◌++◌,
  append_assoc, append-nil, arith, if◌then◌else◌, length, Bool-cases,
}

pub record Fetcher (P R : Type 0) : Type 0 where
  pub loaded : Bool
  pub listening : Bool
  pub waiting : List P
  pub posted : List P
  pub received : List R

pub data Event (P R : Type 0) : Type 0 where
  request : P → Event P R
  timer : Event P R
  message : R → Event P R
  ready : Event P R

module _ {P R : Type 0} where
  -- `fetch`; `window.fetcherWorker.onmessage` is set after the message is posted.
  unfoldable pub fetch : P → Fetcher P R → Fetcher P R
  fetch params s =
      if s.loaded
      then record s { posted = s.posted ++ params ∷ []; listening = true }
      else record s { waiting = s.waiting ++ params ∷ [] }

  pub retry_with : List P → Fetcher P R → Fetcher P R
  unfolding fetch
  retry_with [] s = s
  retry_with (params ∷ rest) s = fetch params (record s { waiting = rest })

  -- `worker.onmessage`, if it is set.
  unfoldable pub on_message : R → Fetcher P R → Fetcher P R
  on_message result s = if s.listening then record s { received = s.received ++ result ∷ [] } else s

  unfoldable pub handle : Event P R → Fetcher P R → Fetcher P R
  unfolding fetch retry_with on_message
  handle (request params) s = fetch params s
  handle timer s = retry_with s.waiting s
  handle (message result) s = on_message result s
  handle ready s = record s { loaded = true }

  unfoldable pub run : List (Event P R) → Fetcher P R → Fetcher P R
  unfolding handle
  run [] s = s
  run (e ∷ es) s = run es (handle e s)

  abbrev pub created : Fetcher P R
  created = record { loaded = false; listening = false; waiting = []; posted = []; received = [] }

  abbrev pub asked : Event P R → List P
  asked (request p) = p ∷ []
  asked timer = []
  asked (message r) = []
  asked ready = []

  abbrev pub requested : List (Event P R) → List P
  requested [] = []
  requested (e ∷ es) = asked e ++ requested es

  fetch-cases :
      (p : P) (s : Fetcher P R)
      → let t = fetch p s in
        ((t.posted ≡ s.posted ++ p ∷ []) × (t.waiting ≡ s.waiting))
        ⊎ ((t.posted ≡ s.posted) × (t.waiting ≡ s.waiting ++ p ∷ []))
  unfolding fetch
  fetch-cases p s = elim (Bool-cases s.loaded) [
    | inl l ↦ inl (ground arith, ground arith)
    | inr l ↦ inr (ground arith, ground arith)
  ]

  retry_with-perm :
      (ws : List P) (s : Fetcher P R)
      → ws ≡ s.waiting
      → let t = retry_with ws s in Perm (t.posted ++ t.waiting) ((s.posted ++ s.waiting) ++ [])
  unfolding retry_with
  retry_with-perm [] s e = Perm-of_eq (sym (append-nil _))
  retry_with-perm (p ∷ ws) s e =
      rw (append-nil (s.posted ++ s.waiting), ← e)
        (elim (fetch-cases p (record s { waiting = ws })) [
          | inl (e, w) ↦ rw (e, w) (Perm-of_eq (append_assoc s.posted (p ∷ []) ws))
          | inr (e, w) ↦ rw (e, w) (Perm-rotated s.posted ws p)
        ])

  on_message_keeps :
      (r : R) (s : Fetcher P R)
      → ((on_message r s).posted ≡ s.posted) × ((on_message r s).waiting ≡ s.waiting)
  unfolding on_message
  on_message_keeps r s = ground arith

  handle-perm :
      (e : Event P R) (s : Fetcher P R)
      → Perm ((handle e s).posted ++ (handle e s).waiting) ((s.posted ++ s.waiting) ++ asked e)
  unfolding handle
  handle-perm (request p) s = elim (fetch-cases p s) [
    | inl (e, w) ↦ rw (e, w) (Perm-done s.posted s.waiting p)
    | inr (e, w) ↦ rw (e, w) (Perm-of_eq (sym (append_assoc s.posted s.waiting (p ∷ []))))
  ]
  handle-perm timer s = retry_with-perm s.waiting s refl
  handle-perm (message r) s =
      let (p, w) = on_message_keeps r s in rw (p, w) (Perm-of_eq (sym (append-nil _)))
  handle-perm ready s = Perm-of_eq (sym (append-nil _))

  run-perm :
      (es : List (Event P R)) (s : Fetcher P R)
      → Perm ((run es s).posted ++ (run es s).waiting) ((s.posted ++ s.waiting) ++ requested es)
  unfolding run
  run-perm [] s = Perm-of_eq (sym (append-nil _))
  run-perm (e ∷ es) s =
      Perm-run _ (asked e) (requested es) (run-perm es (handle e s)) (handle-perm e s)

  -- No request for a trace is lost or made twice: after any events, those posted and those that wait
  -- for a timer are the requests, each as often as it was made. The order may be another.
  pub all_fetches :
      (es : List (Event P R))
      → let s = run es created in Perm (s.posted ++ s.waiting) (requested es)
  all_fetches es = run-perm es created

  abbrev pub timers : ℕ → List (Event P R)
  timers zero = []
  timers (suc n) = timer ∷ timers n

  retried :
      (p : P) (ws : List P) (s : Fetcher P R)
      → s.loaded ≡ true
      → p ∷ ws ≡ s.waiting
      → handle timer s ≡ record s { waiting = ws; posted = s.posted ++ p ∷ []; listening = true }
  unfolding handle
  retried p ws s l e = ground arith

  drain-posted :
      (ws : List P) (s : Fetcher P R)
      → s.loaded ≡ true
      → ws ≡ s.waiting
      → let t = run (timers (length ws)) s in (t.posted ≡ s.posted ++ ws) × (t.waiting ≡ [])
  unfolding run
  drain-posted [] s l e = (sym (append-nil s.posted), sym e)
  drain-posted (p ∷ ws) s l e =
      let s' : Fetcher P R = record s {
        waiting = ws;
        posted = s.posted ++ p ∷ [];
        listening = true;
      } in
      let (all, none_left) = drain-posted ws s' l refl in
      let same = ap (run (timers (length ws))) (retried p ws s l e) in
      (
        ap (λ (t : Fetcher P R). t.posted) same ∙ all ∙ append_assoc s.posted (p ∷ []) ws,
        ap (λ (t : Fetcher P R). t.waiting) same ∙ none_left,
      )

  -- Once the worker is loaded, every request that waits is posted as its timer runs out, in the
  -- order in which they were put off, and none is put off again.
  pub timers_post :
      (s : Fetcher P R)
      → s.loaded ≡ true
      → let t = run (timers (length s.waiting)) s in
        (t.posted ≡ s.posted ++ s.waiting) × (t.waiting ≡ [])
  timers_post s l = drain-posted s.waiting s l refl
