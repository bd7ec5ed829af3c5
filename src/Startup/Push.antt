-- ===== src/Startup/Push.antt =====
-- `Pusher channels` of client/src/appsupport.js: the messages that the server pushes to a canvas are
-- dispatched as events to the client.
use dark.Common.{
  ◌≡◌, refl, ap, ◌∙◌, sym, subst, Bool, true, false, Option, none, some, List, [], ◌∷◌, Chars,
  codes, arith, if◌then◌else◌, same_text, same_text_iff, All, Bool-cases, inl, inr,
}

-- A CustomEvent: its name and its detail.
pub record CustomEvent (D : Type 0) : Type 0 where
  pub name : Chars
  pub detail : D

-- The calls of `pusherChannel.bind`, in their order: the message, and the event of its handler.
unfoldable pub bindings : List (Chars × Chars)
bindings =
    (codes "new_trace", codes "newTracePush")
    ∷ (codes "new_404", codes "new404Push")
    ∷ (codes "new_static_deploy", codes "newStaticDeploy")
    ∷ (codes "new_presence", codes "newPresencePush")
    ∷ (codes "add_op", codes "addOp")
    ∷ (codes "worker_state", codes "workerStatePush")
    ∷ []

-- The events that the handlers bound to a message dispatch.
unfoldable pub handlers : {D : Type 0} → List (Chars × Chars) → Chars → D → List (CustomEvent D)
handlers [] message detail = []
handlers ((bound, name) ∷ rest) message detail =
    let others = handlers rest message detail in
    if same_text bound message then record { name = name; detail = detail } ∷ others else others

-- Without `pusherConfig.enabled` there is no channel.
unfoldable pub on_push : {D : Type 0} → Bool → Chars → D → List (CustomEvent D)
unfolding handlers bindings
on_push enabled message detail = if enabled then handlers bindings message detail else []

-- The message behind an event's name.
origin : List (Chars × Chars) → Chars → Option Chars
origin [] event = none
origin ((bound, name) ∷ rest) event =
    let later = origin rest event in if same_text name event then some bound else later

abbrev OwnNames : List (Chars × Chars) → Type 0
OwnNames bs = All (λ (bound, name). origin bindings name ≡ some bound) bs

bindings-OwnNames : OwnNames bindings
unfolding origin bindings same_text
bindings-OwnNames = (refl, (refl, (refl, (refl, (refl, (refl, tt))))))

handlers-origin :
    {D : Type 0} (bs : List (Chars × Chars)) (message : Chars) (detail : D)
    → OwnNames bs
    → All
        (λ e. (origin bindings e.name ≡ some message) × (e.detail ≡ detail))
        (handlers bs message detail)
unfolding handlers
handlers-origin [] message detail own = tt
handlers-origin ((bound, name) ∷ rest) message detail (own, others) =
    elim (Bool-cases (same_text bound message)) [
      | inl e ↦ rw e (
        (own ∙ ap (λ t. some t) ((same_text_iff bound message).0 e), refl),
        handlers-origin rest message detail others,
      )
      | inr e ↦ rw e (handlers-origin rest message detail others)
    ]

pushed-origin :
    {D : Type 0} (enabled : Bool) (message : Chars) (detail : D) (e : CustomEvent D)
    {es : List (CustomEvent D)}
    → on_push enabled message detail ≡ e ∷ es
    → (enabled ≡ true) × (origin bindings e.name ≡ some message) × (e.detail ≡ detail)
unfolding on_push
pushed-origin false message detail e h = ground arith
pushed-origin true message detail e h =
    let all =
      subst (All (λ e. (origin bindings e.name ≡ some message) × (e.detail ≡ detail))) h
        (handlers-origin bindings message detail bindings-OwnNames) in
    (refl, all.0.0, all.0.1)

-- An event tells which message was pushed and what came with it: two messages that dispatch the same
-- event first are the same, with the same detail. Nothing is dispatched unless pushing is enabled.
pub on_push_lem :
    {D : Type 0} (enabled : Bool) (m n : Chars) (x y : D) (e : CustomEvent D)
    {es fs : List (CustomEvent D)}
    → on_push enabled m x ≡ e ∷ es
    → on_push enabled n y ≡ e ∷ fs
    → (enabled ≡ true) × (m ≡ n) × (x ≡ y)
on_push_lem enabled m n x y e h k =
    let (on, a, b) = pushed-origin enabled m x e h in
    let (_, c, d) = pushed-origin enabled n y e k in (on, cc, sym b ∙ d)
