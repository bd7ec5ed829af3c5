-- ===== src/Base64/Unsafe.antt =====
-- The note above dark_arrayBuffer_from_padded_b64url: characters outside the alphabet are silently
-- interpreted as 0.
use dark.Common.{
  ℕ, ◌≡◌, refl, sym, ◌∙◌, inl, inr, Bool, [], ◌∷◌, map, Chars, arith, ◌==◌, if◌then◌else◌, ◌||◌,
  Bool-cases,
}
use dark.Base64.Alphabet.{lookup, look_up, value_of, value_of_other, in_alphabet}
use dark.Base64.Decode.{decode}
use dark.Base64.Decode.Padding.{buffer_length-map}
use dark.Base64.Decode.Matches.{spelled, decode-spelled}

-- What the guard allows: the alphabet and the pad.
unfoldable pub is_allowed : ℕ → Bool
is_allowed c = in_alphabet c || c == b'='

-- A character that is not allowed, replaced by `A`.
unfoldable pub clean : ℕ → ℕ
unfolding is_allowed
clean c = if is_allowed c then c else b'A'

value_A : value_of b'A' ≡ 0
unfolding look_up lookup
value_A = refl

value_of-clean : (c : ℕ) → value_of (clean c) ≡ value_of c
unfolding clean
value_of-clean c = elim (Bool-cases (in_alphabet c)) [
  | inl e ↦ rw e
  | inr e ↦ elim (Bool-cases (c == b'=')) [
    | inl e2 ↦ rw (e, e2)
    | inr e2 ↦ rw (e, e2) (value_A ∙ sym (value_of_other c e))
  ]
]

clean_keeps_pad : (c : ℕ) → (clean c == b'=') ≡ (c == b'=')
unfolding clean
clean_keeps_pad c = elim (Bool-cases (c == b'=')) [ inl e ↦ ground arith | inr e ↦ ground arith ]

spelled-clean : (s : Chars) → spelled (map clean s) ≡ spelled s
unfolding spelled
spelled-clean [] = refl
spelled-clean (c1 ∷ []) = rw (value_of-clean c1)
spelled-clean (c1 ∷ c2 ∷ []) = rw (value_of-clean c1, value_of-clean c2)
spelled-clean (c1 ∷ c2 ∷ c3 ∷ []) = rw (value_of-clean c1, value_of-clean c2, value_of-clean c3)
spelled-clean (c1 ∷ c2 ∷ c3 ∷ c4 ∷ s) =
    rw (value_of-clean c1, value_of-clean c2, value_of-clean c3, value_of-clean c4, spelled-clean s)

-- The result is the one for the text in which every character that is neither in the alphabet nor a
-- pad is an `A`: no text is refused.
pub decode-clean : (s : Chars) → decode (map clean s) ≡ decode s
decode-clean s = rw (
  decode-spelled (map clean s),
  decode-spelled s,
  spelled-clean s,
  buffer_length-map clean clean_keeps_pad s,
)
