-- ===== src/Base64/RoundTrip.antt =====
-- Both functions of libtarget.js together.
use dark.Common.{
  ℕ, ◌+◌, ◌*◌, ◌/◌, ◌%◌, ◌<◌, ◌≡◌, refl, ◌∙◌, some, List, [], ◌∷◌, ◌++◌, arith, take-append, ap,
  All,
}
use dark.Base64.Alphabet.{chars, lookup, look_up, char_of, value_of, value_of-char_of}
use dark.Base64.Rfc.{IsByte, rfc}
use dark.Base64.Encode.{encode}
use dark.Base64.Encode.Matches.{encode-rfc}
use dark.Base64.Decode.{decode}
use dark.Base64.Decode.Padding.{buffer_length-rfc}
use dark.Base64.Decode.Groups.{digit, number, triple}
use dark.Base64.Decode.Matches.{spelled, decode-spelled}

-- `=` has no entry in the table and counts as 0.
digit_pad : digit (some b'=') ≡ 0
unfolding look_up lookup
digit_pad = refl

number-quad :
    (v : ℕ)
    → v < 16777216
    → number
        (value_of (char_of chars (v / 262144)))
        (value_of (char_of chars (v / 4096 % 64)))
        (value_of (char_of chars (v / 64 % 64)))
        (value_of (char_of chars (v % 64)))
      ≡ v
number-quad v h =
    rw
      (
        value_of-char_of (v / 262144) (omega arith),
        value_of-char_of (v / 4096 % 64) (omega arith),
        value_of-char_of (v / 64 % 64) (omega arith),
        value_of-char_of (v % 64) (omega arith),
      )
      (omega arith)

triple_at :
    (n a b c : ℕ)
    → n ≡ a * 65536 + b * 256 + c
    → IsByte a
    → IsByte b
    → IsByte c
    → triple n ≡ a ∷ b ∷ c ∷ []
triple_at n a b c e ha hb hc = ground arith

-- The zeros with which the last group is filled.
zeros : List ℕ → List ℕ
zeros [] = []
zeros (a ∷ []) = 0 ∷ 0 ∷ []
zeros (a ∷ b ∷ []) = 0 ∷ []
zeros (a ∷ b ∷ c ∷ bytes) = zeros bytes

spelled-rfc : (bytes : List ℕ) → All IsByte bytes → spelled (rfc chars bytes) ≡ bytes ++ zeros bytes
unfolding spelled rfc zeros
spelled-rfc [] h = refl
spelled-rfc (a ∷ []) (ha, _) =
    let v = a * 65536 in
    rw
      (
        value_of-char_of (v / 262144) (omega arith),
        value_of-char_of (v / 4096 % 64) (omega arith),
        digit_pad,
      )
      (triple_at _ a 0 0 (omega arith) ha (omega arith) (omega arith))
spelled-rfc (a ∷ b ∷ []) (ha, (hb, _)) =
    let v = a * 65536 + b * 256 in
    rw
      (
        value_of-char_of (v / 262144) (omega arith),
        value_of-char_of (v / 4096 % 64) (omega arith),
        value_of-char_of (v / 64 % 64) (omega arith),
        digit_pad,
      )
      (triple_at _ a b 0 (omega arith) ha hb (omega arith))
spelled-rfc (a ∷ b ∷ c ∷ bytes) (ha, (hb, (hc, h))) =
    let v = a * 65536 + b * 256 + c in
    ap (λ t. t ++ spelled (rfc chars bytes))
      (triple_at _ a b c (number-quad v (omega arith)) ha hb hc)
    ∙ ap (λ t. a ∷ b ∷ c ∷ t) (spelled-rfc bytes h)

-- Decoding the encoding of any bytes gives them back.
pub decode-encode : (bytes : List ℕ) → All IsByte bytes → decode (encode bytes) ≡ bytes
decode-encode bytes h =
    rw (encode-rfc bytes h, decode-spelled (rfc chars bytes), spelled-rfc bytes h)
      (take-append bytes (zeros bytes) _ (buffer_length-rfc bytes h))
