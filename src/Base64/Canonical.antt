-- ===== src/Base64/Canonical.antt =====
-- The texts that the coder of libtarget.js writes: RFC 4648, section 3.5, calls an encoding canonical
-- whose last character before the padding holds no bits but those of the input.
use dark.Common.{
  ℕ, ◌+◌, ◌*◌, ◌/◌, ◌%◌, ◌≡◌, ◌↔◌, refl, sym, ap, subst, ◌∙◌, true, List, [], ◌∷◌, Chars, arith,
  All,
}
use dark.Base64.Alphabet.{
  chars, char_of, value_of, value_of-lt, value_of-char_of, char_of-in_alphabet, in_alphabet,
  char_of-value_of,
}
use dark.Base64.Rfc.{IsByte, rfc}
use dark.Base64.Encode.{encode}
use dark.Base64.Encode.Matches.{encode-rfc}
use dark.Base64.Decode.{decode}
use dark.Base64.RoundTrip.{decode-encode}

abbrev pub InAlphabet : ℕ → Type 0
InAlphabet c = in_alphabet c ≡ true

pub data IsCanonical : Chars → Type 0 where
  empty : IsCanonical []
  one_byte :
      {a b : ℕ}
      → InAlphabet a
      → InAlphabet b
      → value_of b % 16 ≡ 0
      → IsCanonical (a ∷ b ∷ b'=' ∷ b'=' ∷ [])
  two_bytes :
      {a b c : ℕ}
      → InAlphabet a
      → InAlphabet b
      → InAlphabet c
      → value_of c % 4 ≡ 0
      → IsCanonical (a ∷ b ∷ c ∷ b'=' ∷ [])
  three_bytes :
      {a b c d : ℕ} {s : Chars}
      → InAlphabet a
      → InAlphabet b
      → InAlphabet c
      → InAlphabet d
      → IsCanonical s
      → IsCanonical (a ∷ b ∷ c ∷ d ∷ s)

char_at : (k c : ℕ) → InAlphabet c → k ≡ value_of c → char_of chars k ≡ c
char_at k c h e = ap (char_of chars) e ∙ char_of-value_of c h

-- The bytes that a canonical text is the encoding of.
abbrev Written : Chars → Type 0
Written s = (bytes : List ℕ) × All IsByte bytes × (rfc chars bytes ≡ s)

Written-one :
    (a b : ℕ)
    → InAlphabet a
    → InAlphabet b
    → value_of b % 16 ≡ 0
    → Written (a ∷ b ∷ b'=' ∷ b'=' ∷ [])
unfolding rfc
Written-one a b ha hb zero_bits =
    let la = value_of-lt a in
    let lb = value_of-lt b in
    let x = value_of a * 4 + value_of b / 16 in
    (
      x ∷ [],
      omega arith,
      rw
          (
            char_at (x * 65536 / 262144) a ha (omega arith),
            char_at (x * 65536 / 4096 % 64) b hb (omega arith),
          )
          refl,
    )

Written-two :
    (a b c : ℕ)
    → InAlphabet a
    → InAlphabet b
    → InAlphabet c
    → value_of c % 4 ≡ 0
    → Written (a ∷ b ∷ c ∷ b'=' ∷ [])
unfolding rfc
Written-two a b c ha hb hc zero_bits =
    let la = value_of-lt a in
    let lb = value_of-lt b in
    let lc = value_of-lt c in
    let x = value_of a * 4 + value_of b / 16 in
    let y = value_of b % 16 * 16 + value_of c / 4 in
    let v = x * 65536 + y * 256 in
    (
      x ∷ y ∷ [],
      omega arith,
      rw
          (
            char_at (v / 262144) a ha (omega arith),
            char_at (v / 4096 % 64) b hb (omega arith),
            char_at (v / 64 % 64) c hc (omega arith),
          )
          refl,
    )

Written-three :
    (a b c d : ℕ) (s : Chars)
    → InAlphabet a
    → InAlphabet b
    → InAlphabet c
    → InAlphabet d
    → Written s
    → Written (a ∷ b ∷ c ∷ d ∷ s)
unfolding rfc
Written-three a b c d s ha hb hc hd (bytes, h, e) =
    let la = value_of-lt a in
    let lb = value_of-lt b in
    let lc = value_of-lt c in
    let ld = value_of-lt d in
    let x = value_of a * 4 + value_of b / 16 in
    let y = value_of b % 16 * 16 + value_of c / 4 in
    let z = value_of c % 4 * 64 + value_of d in
    let v = x * 65536 + y * 256 + z in
    (
      x ∷ y ∷ z ∷ bytes,
      (omega arith, (omega arith, (omega arith, h))),
      rw
          (
            char_at (v / 262144) a ha (omega arith),
            char_at (v / 4096 % 64) b hb (omega arith),
            char_at (v / 64 % 64) c hc (omega arith),
            char_at (v % 64) d hd (omega arith),
            e,
          )
          refl,
    )

IsCanonical-Written : {s : Chars} → IsCanonical s → Written s
unfolding rfc
IsCanonical-Written empty = ([], tt, refl)
IsCanonical-Written (one_byte {a} {b} ha hb z) = Written-one a b ha hb z
IsCanonical-Written (two_bytes {a} {b} {c} ha hb hc z) = Written-two a b c ha hb hc z
IsCanonical-Written (three_bytes {a} {b} {c} {d} {s} ha hb hc hd rest) =
    Written-three a b c d s ha hb hc hd (IsCanonical-Written rest)

-- Encoding what a canonical text decodes to gives the text back.
pub encode-decode : (s : Chars) → IsCanonical s → encode (decode s) ≡ s
encode-decode s canonical =
    let (bytes, h, e) = IsCanonical-Written canonical in
    let text : encode bytes ≡ s = encode-rfc bytes h ∙ e in
    sym (ap (λ t. encode (decode t)) text) ∙ ap encode (decode-encode bytes h) ∙ text

rfc-IsCanonical : (bytes : List ℕ) → All IsByte bytes → IsCanonical (rfc chars bytes)
unfolding rfc
rfc-IsCanonical [] h = empty
rfc-IsCanonical (a ∷ []) (ha, _) =
    let v = a * 65536 in
    one_byte (char_of-in_alphabet (v / 262144) (omega arith))
      (char_of-in_alphabet (v / 4096 % 64) (omega arith))
      (rw (value_of-char_of (v / 4096 % 64) (omega arith)) (omega arith))
rfc-IsCanonical (a ∷ b ∷ []) (ha, (hb, _)) =
    let v = a * 65536 + b * 256 in
    two_bytes (char_of-in_alphabet (v / 262144) (omega arith))
      (char_of-in_alphabet (v / 4096 % 64) (omega arith))
      (char_of-in_alphabet (v / 64 % 64) (omega arith))
      (rw (value_of-char_of (v / 64 % 64) (omega arith)) (omega arith))
rfc-IsCanonical (a ∷ b ∷ c ∷ bytes) (ha, (hb, (hc, h))) =
    let v = a * 65536 + b * 256 + c in
    three_bytes (char_of-in_alphabet (v / 262144) (omega arith))
      (char_of-in_alphabet (v / 4096 % 64) (omega arith))
      (char_of-in_alphabet (v / 64 % 64) (omega arith)) (char_of-in_alphabet (v % 64) (omega arith))
      (rfc-IsCanonical bytes h)

-- The texts that the encoder writes for bytes are exactly the canonical ones.
pub IsCanonical-iff :
    (s : Chars) → IsCanonical s ↔ ((bytes : List ℕ) × All IsByte bytes × (encode bytes ≡ s))
IsCanonical-iff s = (
  λ canonical.
      let (bytes, h, e) = IsCanonical-Written canonical in (bytes, h, encode-rfc bytes h ∙ e),
  λ (bytes, h, e). subst IsCanonical (sym (encode-rfc bytes h) ∙ e) (rfc-IsCanonical bytes h),
)
