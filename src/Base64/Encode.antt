-- ===== src/Base64/Encode.antt =====
-- dark_arrayBuffer_to_padded_b64url of backend/libtarget.js/libtarget.js: the loop over groups of
-- three bytes, and the cut at the end. The loop reads what is left of the bytes; a byte past the
-- end is `undefined`, here `none`.
pub mod Groups
pub mod Matches
use Prim.Native.Nat.{bit_and, bit_or}
use dark.Common.{
  ℕ, zero, suc, ◌+◌, ◌-◌, ◌*◌, ◌/◌, ◌%◌, ◌<◌, ◌≤◌, ◌≡◌, refl, sym, ap, ◌∙◌, ◌⊎◌, inl, inr, Bool,
  true, false, ◌&&◌, Option, none, some, List, [], ◌∷◌, ◌++◌, map, append_assoc, append-nil, Chars,
  codes, arith, ◌==◌, ltb, ==_iff, if◌then◌else◌, length, get_elem?, get_or, set, take, replicate,
  All, Bool-cases,
}
use dark.Base64.Words.{to_int, shl, shr}
use dark.Base64.Alphabet.{symbol}

-- One round: four characters from bytes[i], bytes[i + 1], bytes[i + 2].
pub encode_group : Option ℕ → Option ℕ → Option ℕ → Chars
encode_group a b c =
    symbol (shr (to_int a) 2)
    ++ (symbol (bit_or (shl (bit_and (to_int a) 3) 4) (shr (to_int b) 4))
        ++ (symbol (bit_or (shl (bit_and (to_int b) 15) 2) (shr (to_int c) 6))
            ++ symbol (bit_and (to_int c) 63)))

pub encode_rounds : List ℕ → Chars → Chars
unfolding encode_group
encode_rounds [] base64 = base64
encode_rounds (a ∷ []) base64 = base64 ++ encode_group (some a) none none
encode_rounds (a ∷ b ∷ []) base64 = base64 ++ encode_group (some a) (some b) none
encode_rounds (a ∷ b ∷ c ∷ bytes) base64 =
    encode_rounds bytes (base64 ++ encode_group (some a) (some b) (some c))

-- The `if (len % 3 === 2) … else if (len % 3 === 1) …` at the end; `substring` clamps at 0.
pub encode_end : ℕ → Chars → Chars
encode_end len base64 =
    if len % 3 == 2
    then take (length base64 - 1) base64 ++ codes "="
    else if len % 3 == 1
    then take (length base64 - 2) base64 ++ codes "=="
    else base64

unfoldable pub encode : List ℕ → Chars
unfolding encode_rounds encode_end
encode bytes = encode_end (length bytes) (encode_rounds bytes [])
