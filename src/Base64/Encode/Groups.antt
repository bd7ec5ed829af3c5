-- ===== src/Base64/Encode/Groups.antt =====
-- A round of the encoder writes the four digits of its three bytes.
use Prim.Native.Nat.{bit_and, bit_or}
use dark.Common.{ℕ, ◌+◌, ◌*◌, ◌/◌, ◌%◌, ◌<◌, ◌≡◌, ◌∙◌, Option, [], ◌∷◌, arith}
use dark.Base64.Words.{to_int, and_three, and_fifteen, and_sixty_three, or_two, or_four}
use dark.Base64.Alphabet.{chars, char_of, symbol, symbol_lem}
use dark.Base64.Rfc.{quad}
use dark.Base64.Encode.{encode_group}

module _ (a b c : ℕ) (ha : a < 256) (hb : b < 256) (hc : c < 256) where
  abbrev bits : ℕ
  bits = a * 65536 + b * 256 + c

  second : bit_or (bit_and a 3 * 16) (b / 16) ≡ bits / 4096 % 64
  second = rw (and_three a ha) (or_four (a % 4) (b / 16) (omega arith) (omega arith) ∙ omega arith)

  third : bit_or (bit_and b 15 * 4) (c / 64) ≡ bits / 64 % 64
  third = rw (and_fifteen b hb) (or_two (b % 16) (c / 64) (omega arith) (omega arith) ∙ omega arith)

  fourth : bit_and c 63 ≡ bits % 64
  fourth = and_sixty_three c hc ∙ omega arith

symbol_at : (k m : ℕ) → k ≡ m → m < 64 → symbol k ≡ char_of chars m ∷ []
symbol_at k m e h = rw e (symbol_lem m h)

pub encode_group_lem :
    (x y z : Option ℕ)
    → to_int x < 256
    → to_int y < 256
    → to_int z < 256
    → encode_group x y z ≡ quad chars (to_int x * 65536 + to_int y * 256 + to_int z)
unfolding encode_group
encode_group_lem x y z hx hy hz =
    let a = to_int x in
    let b = to_int y in
    let c = to_int z in
    let v = bits a b c hx hy hz in
    rw (
      symbol_at (a / 4) (v / 262144) (omega arith) (omega arith),
      symbol_at _ (v / 4096 % 64) (second a b c hx hy hz) (omega arith),
      symbol_at _ (v / 64 % 64) (third a b c hx hy hz) (omega arith),
      symbol_at _ (v % 64) (fourth a b c hx hy hz) (omega arith),
    )
