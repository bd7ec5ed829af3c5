-- ===== src/Ast/ExtractId.antt =====
-- `extractId` of client/src/appsupport.js: the regular expression `.*id-(\S+).*` on a class name.
use dark.Common.{
  ℕ, ◌≡◌, ◌≢◌, ◌↔◌, refl, ap, ◌∙◌, ◌⊎◌, inl, inr, Bool, true, false, ◌&&◌, ◌||◌, Option, none, some,
  [], ◌∷◌, ◌++◌, Chars, codes, arith, ◌==◌, if◌then◌else◌, All, Bool-cases, Option-cases, leb,
}

-- The characters that `.` does not match.
abbrev pub is_line_end : ℕ → Bool
is_line_end c = c == 10 || c == 13 || c == 0x2028 || c == 0x2029

-- White space: the characters that `\S` does not match.
unfoldable pub is_space : ℕ → Bool
is_space c =
    (leb 9 c && leb c 13)
    || c == 32
    || c == 160
    || c == 0x1680
    || (leb 0x2000 c && leb c 0x200a)
    || c == 0x2028
    || c == 0x2029
    || c == 0x202f
    || c == 0x205f
    || c == 0x3000
    || c == 0xfeff

-- `\S*`: what it matches, and what is left.
unfoldable pub word : Chars → Chars
word [] = []
word (c ∷ s) = let rest = word s in if is_space c then [] else c ∷ rest

abbrev pub marker : Chars
marker = codes "id-"

abbrev nonempty : Chars → Option Chars
nonempty [] = none
nonempty (c ∷ w) = some (c ∷ w)

-- `id-(\S+)` at the start of a text.
match_here : Chars → Option Chars
match_here (a ∷ b ∷ c ∷ s) =
    if a == b'i' && (b == b'd' && c == b'-') then nonempty (word s) else none
match_here s = none

abbrev pub or_else {ℓ} : {A : Type ℓ} → Option A → Option A → Option A
or_else none b = b
or_else (some a) b = some a

-- The whole expression at the start of a text. `.*` is greedy: it gives up a character at a time, and
-- never goes over the end of a line.
match_from : Chars → Option Chars
unfolding match_here
match_from [] = none
match_from (c ∷ s) =
    let further = or_else (match_from s) (match_here (c ∷ s)) in
    if is_line_end c then match_here (c ∷ s) else further

-- `exec` tries one start after the other.
unfoldable pub exec : Chars → Option Chars
unfolding match_from
exec [] = none
exec (c ∷ s) = let later = exec s in or_else (match_from (c ∷ s)) later

-- `none` is the TypeError that `matches[1]` raises where nothing matches: the test for an undefined
-- `id` behind it is never reached with one, since the group takes part in every match.
unfoldable pub extract_id : Chars → Option Chars
unfolding exec
extract_id class_name = exec class_name

-- An id in a text: `id-`, then a word that is not empty, up to white space or the end.
abbrev pub StartsApart : Chars → Type 0
StartsApart [] = Unit
StartsApart (c ∷ s) = is_space c ≡ true

pub record IsIdOf (s w : Chars) : Type 0 where
  pub before : Chars
  pub after : Chars
  pub at : s ≡ before ++ (marker ++ (w ++ after))
  pub some_word : w ≢ []
  pub solid : All (λ c. is_space c ≡ false) w
  pub ends : StartsApart after

word-split :
    (s : Chars)
    → (after : Chars) × (s ≡ word s ++ after)
      × All (λ c. is_space c ≡ false) (word s)
      × StartsApart after
unfolding word
word-split [] = ([], refl, tt, tt)
word-split (c ∷ s) = elim (Bool-cases (is_space c)) [
  | inl e ↦ (c ∷ s, rw e refl, rw e tt, e)
  | inr e ↦
      let (after, at, solid, ends) = word-split s in
      (after, rw e (ap (◌∷◌ c) at), rw e (e, solid), ends)
]

nonempty-some : (v : Chars) {w : Chars} → nonempty v ≡ some w → (v ≡ w) × (w ≢ [])
nonempty-some [] h = cc
nonempty-some (c ∷ v) h = (ground arith, ground arith)

match_here-IsIdOf : (s : Chars) {w : Chars} → match_here s ≡ some w → IsIdOf s w
unfolding match_here
match_here-IsIdOf (a ∷ b ∷ c ∷ s) {w} h =
    elim (Bool-cases (a == b'i' && (b == b'd' && c == b'-'))) [
      | inr e ↦ absurd (ground arith)
      | inl e ↦
          let found : nonempty (word s) ≡ some w = ground arith in
          let (same, some_word) = nonempty-some (word s) found in
          let (after, at, solid, ends) = word-split s in
          let ia : a ≡ b'i' = ground arith in
          let db : b ≡ b'd' = ground arith in
          let dash : c ≡ b'-' = ground arith in
          record {
            before = [];
            after = after;
            at = rw (ia, db, dash) (ap (λ t. marker ++ t) (at ∙ ap (λ v. v ++ after) same));
            some_word = some_word;
            solid = rw (← same) solid;
            ends = ends;
          }
    ]
match_here-IsIdOf s h = cc

IsIdOf-cons : (c : ℕ) {s w : Chars} → IsIdOf s w → IsIdOf (c ∷ s) w
IsIdOf-cons c i = record {
  before = c ∷ i.before;
  after = i.after;
  at = ap (◌∷◌ c) i.at;
  some_word = i.some_word;
  solid = i.solid;
  ends = i.ends;
}

match_from-cases :
    (c : ℕ) (s : Chars) {w : Chars}
    → match_from (c ∷ s) ≡ some w
    → (match_from s ≡ some w) ⊎ (match_here (c ∷ s) ≡ some w)
unfolding match_from
match_from-cases c s h = elim (Option-cases (match_from s)) [
  | inl e ↦ inr (ground arith)
  | inr (v, e) ↦ elim (Bool-cases (is_line_end c)) [
    | inl l ↦ inr (ground arith)
    | inr l ↦ inl (ground arith)
  ]
]

match_from-IsIdOf : (s : Chars) {w : Chars} → match_from s ≡ some w → IsIdOf s w
match_from-IsIdOf [] h = unfold match_from in cc
match_from-IsIdOf (c ∷ s) {w} h = elim (match_from-cases c s h) [
  | inl e ↦ IsIdOf-cons c (match_from-IsIdOf s e)
  | inr e ↦ match_here-IsIdOf (c ∷ s) e
]

exec-cases :
    (c : ℕ) (s : Chars) {w : Chars}
    → exec (c ∷ s) ≡ some w
    → (match_from (c ∷ s) ≡ some w) ⊎ (exec s ≡ some w)
unfolding exec
exec-cases c s h = elim (Option-cases (match_from (c ∷ s))) [
  | inl e ↦ inr (ground arith)
  | inr (v, e) ↦ inl (ground arith)
]

exec-IsIdOf : (s : Chars) {w : Chars} → exec s ≡ some w → IsIdOf s w
exec-IsIdOf [] h = unfold exec in cc
exec-IsIdOf (c ∷ s) {w} h = elim (exec-cases c s h) [
  | inl e ↦ match_from-IsIdOf (c ∷ s) e
  | inr e ↦ IsIdOf-cons c (exec-IsIdOf s e)
]

-- What is returned is an id of the class name.
pub extract_id-IsIdOf : (s : Chars) {w : Chars} → extract_id s ≡ some w → IsIdOf s w
unfolding extract_id
extract_id-IsIdOf s h = exec-IsIdOf s h

word-append :
    (w after : Chars) → All (λ c. is_space c ≡ false) w → StartsApart after → word (w ++ after) ≡ w
unfolding word
word-append [] [] solid ends = refl
word-append [] (c ∷ after) solid ends = rw ends
word-append (c ∷ w) after (h, solid) ends = rw h (ap (◌∷◌ c) (word-append w after solid ends))

match_here_id :
    (w after : Chars)
    → w ≢ []
    → All (λ c. is_space c ≡ false) w
    → StartsApart after
    → match_here (marker ++ (w ++ after)) ≡ some w
unfolding match_here
match_here_id [] after h solid ends = absurd (h refl)
match_here_id (c ∷ w) after h solid ends = rw (word-append (c ∷ w) after solid ends)

exec_here : (s : Chars) {w : Chars} → match_here (b'i' ∷ s) ≡ some w → exec (b'i' ∷ s) ≢ none
unfolding exec match_from
exec_here s h e = ground arith

exec-none : (before rest : Chars) → exec (before ++ rest) ≡ none → exec rest ≡ none
unfolding exec
exec-none [] rest h = h
exec-none (c ∷ before) rest h = exec-none before rest (ground arith)

-- The exception is raised exactly on the class names that hold no id.
pub extract_id-none : (s : Chars) → (extract_id s ≡ none) ↔ ((w : Chars) → ¬ IsIdOf s w)
unfolding extract_id
extract_id-none s = (
  none_there,
  λ h. elim (Option-cases (exec s)) [ inl e ↦ e | inr (w, e) ↦ absurd (h w (exec-IsIdOf s e)) ],
)
  where
    none_there : exec s ≡ none → (w : Chars) → ¬ IsIdOf s w
    none_there e w i =
        exec_here (b'd' ∷ b'-' ∷ (w ++ i.after))
          (match_here_id w i.after i.some_word i.solid i.ends)
          (exec-none i.before (marker ++ (w ++ i.after)) (rw (← i.at) e))
