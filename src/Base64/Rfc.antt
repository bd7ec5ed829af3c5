-- ===== src/Base64/Rfc.antt =====
-- Base 64 as RFC 4648 describes it, over any alphabet: three bytes are a number of 24 bits, whose
-- four digits in base 64 are written; a last group of one or two bytes is filled with zeros, and
-- its digits that hold nothing of the input are written as `=`.
use dark.Common.{
  ℕ, ◌+◌, ◌*◌, ◌/◌, ◌%◌, ◌<◌, ◌≡◌, refl, List, [], ◌∷◌, ◌++◌, Chars, codes, arith, length, take,
}
use dark.Base64.Alphabet.{char_of}

abbrev pub IsByte : ℕ → Type 0
IsByte b = b < 256

module _ (alphabet : Chars) where
  abbrev pub quad : ℕ → Chars
  quad v =
      char_of alphabet (v / 262144)
      ∷ char_of alphabet (v / 4096 % 64)
      ∷ char_of alphabet (v / 64 % 64)
      ∷ char_of alphabet (v % 64)
      ∷ []

  unfoldable pub rfc : List ℕ → Chars
  rfc [] = []
  rfc (a ∷ []) = take 2 (quad (a * 65536)) ++ codes "=="
  rfc (a ∷ b ∷ []) = take 3 (quad (a * 65536 + b * 256)) ++ codes "="
  rfc (a ∷ b ∷ c ∷ bytes) = quad (a * 65536 + b * 256 + c) ++ rfc bytes

  -- The length of the text is a multiple of four.
  pub length-rfc : (bytes : List ℕ) → length (rfc bytes) ≡ 4 * ((length bytes + 2) / 3)
  unfolding rfc
  length-rfc [] = refl
  length-rfc (a ∷ []) = refl
  length-rfc (a ∷ b ∷ []) = refl
  length-rfc (a ∷ b ∷ c ∷ bytes) = omega (arith, length-rfc bytes)
