-- ===== src/Base64/Decode/Padding.antt =====
-- How the decoder sizes its buffer.
use dark.Common.{
  ℕ, zero, suc, ◌+◌, ◌-◌, ◌*◌, ◌/◌, ◌%◌, ◌<◌, ◌≤◌, ◌≡◌, refl, sym, ◌∙◌, ◌⊎◌, inl, inr, false, List,
  [], ◌∷◌, ◌++◌, map, Chars, arith, ◌==◌, ==_iff, false≢true, length-map, ap, length, get_elem?,
  All, Bool-cases,
}
use dark.Base64.Alphabet.{chars, char_of, in_alphabet, char_of-in_alphabet}
use dark.Base64.Rfc.{IsByte, quad, rfc, length-rfc}
use dark.Base64.Decode.{from_end, is_pad, padding, buffer_length}

pad_outside : in_alphabet b'=' ≡ false
unfolding in_alphabet
pad_outside = refl

not_pad : (k : ℕ) → k < 64 → (char_of chars k == b'=') ≡ false
not_pad k h = elim (Bool-cases (char_of chars k == b'=')) [
  | inl e ↦ absurd (
      false≢true
        (sym pad_outside ∙ ap in_alphabet (sym ((==_iff _ _).0 e)) ∙ char_of-in_alphabet k h))
  | inr e ↦ e
]

from_end-cons :
    (x : ℕ) (s : Chars) (k : ℕ) → 0 < k → k ≤ length s → from_end (x ∷ s) k ≡ from_end s k
unfolding from_end
from_end-cons x s k pos h =
    let e : suc (length s) - k ≡ suc (length s - k) = omega arith in rw e (ground arith)

padding-cons : (x : ℕ) (s : Chars) → 2 ≤ length s → padding (x ∷ s) ≡ padding s
unfolding padding
padding-cons x s h =
    rw (from_end-cons x s 1 (omega arith) (omega arith), from_end-cons x s 2 (omega arith) h)

padding_last : (x y z w : ℕ) → (w == b'=') ≡ false → padding (x ∷ y ∷ z ∷ w ∷ []) ≡ 0
unfolding padding
padding_last x y z w h = rw h

padding_third : (x y z : ℕ) → (z == b'=') ≡ false → padding (x ∷ y ∷ z ∷ b'=' ∷ []) ≡ 1
unfolding padding
padding_third x y z h = rw h

padding_nil : padding [] ≡ 0
unfolding padding
padding_nil = refl

padding-quad :
    (v : ℕ) (s : Chars)
    → v < 16777216
    → (s ≡ []) ⊎ (2 ≤ length s)
    → padding (quad chars v ++ s) ≡ padding s
padding-quad v s hv (inl e) =
    rw e (padding_last _ _ _ _ (not_pad (v % 64) (omega arith)) ∙ sym padding_nil)
padding-quad v s hv (inr h) =
    padding-cons _ _ (omega arith)
    ∙ padding-cons _ _ (omega arith)
    ∙ padding-cons _ _ (omega arith)
    ∙ padding-cons _ s h

rfc_size : (bytes : List ℕ) → (rfc chars bytes ≡ []) ⊎ (2 ≤ length (rfc chars bytes))
unfolding rfc
rfc_size [] = inl refl
rfc_size bytes = inr (omega (arith, length-rfc chars bytes))

padding-rfc :
    (bytes : List ℕ) → All IsByte bytes → padding (rfc chars bytes) ≡ (3 - length bytes % 3) % 3
unfolding rfc
padding-rfc [] h = unfold padding in refl
padding-rfc (a ∷ []) (ha, _) = unfold padding in refl
padding-rfc (a ∷ b ∷ []) (ha, (hb, _)) =
    padding_third _ _ _ (not_pad ((a * 65536 + b * 256) / 64 % 64) (omega arith))
padding-rfc (a ∷ b ∷ c ∷ bytes) (ha, (hb, (hc, h))) =
    padding-quad _ _ (omega arith) (rfc_size bytes) ∙ padding-rfc bytes h ∙ omega arith

pub buffer_length-rfc :
    (bytes : List ℕ) → All IsByte bytes → buffer_length (rfc chars bytes) ≡ length bytes
unfolding buffer_length
buffer_length-rfc bytes h = rw (padding-rfc bytes h, length-rfc chars bytes) (omega arith)

-- Only where the text has pads, and its length, bear on the length of the buffer.
module _ (f : ℕ → ℕ) (keeps : (c : ℕ) → (f c == b'=') ≡ (c == b'=')) where
  get_elem?-map : (s : Chars) (i : ℕ) → is_pad (get_elem? (map f s) i) ≡ is_pad (get_elem? s i)
  unfolding is_pad
  get_elem?-map [] i = refl
  get_elem?-map (c ∷ s) zero = keeps c
  get_elem?-map (c ∷ s) (suc i) = get_elem?-map s i

  from_end-map : (s : Chars) (k : ℕ) → is_pad (from_end (map f s) k) ≡ is_pad (from_end s k)
  unfolding from_end
  from_end-map s k = rw (length-map s f) (ground (arith, get_elem?-map s (length s - k)))

  pub buffer_length-map : (s : Chars) → buffer_length (map f s) ≡ buffer_length s
  unfolding buffer_length padding
  buffer_length-map s = rw (from_end-map s 1, from_end-map s 2, length-map s f)
