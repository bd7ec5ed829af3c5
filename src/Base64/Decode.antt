-- ===== src/Base64/Decode.antt =====
-- dark_arrayBuffer_from_padded_b64url of backend/libtarget.js/libtarget.js.
pub mod Groups
pub mod Padding
pub mod Matches
use Prim.Native.Nat.{bit_and, bit_or}
use dark.Common.{
  ℕ, zero, suc, ◌+◌, ◌-◌, ◌*◌, ◌/◌, ◌%◌, ◌<◌, ◌≤◌, ◌≡◌, refl, sym, ap, ◌∙◌, ◌⊎◌, inl, inr, Bool,
  true, false, ◌&&◌, Option, none, some, List, [], ◌∷◌, ◌++◌, map, append_assoc, append-nil, Chars,
  codes, arith, ◌==◌, ltb, ==_iff, if◌then◌else◌, length, get_elem?, get_or, set, take, replicate,
  All, Bool-cases,
}
use dark.Base64.Words.{to_int, shl, shr}
use dark.Base64.Alphabet.{look_up}

-- `base64[base64.length - k]`, which is `undefined` before the start of the text.
pub from_end : Chars → ℕ → Option ℕ
from_end s k = if ltb (length s) k then none else get_elem? s (length s - k)

pub is_pad : Option ℕ → Bool
is_pad none = false
is_pad (some c) = c == b'='

-- How often `bufferLength--` is executed.
pub padding : Chars → ℕ
unfolding from_end is_pad
padding s = if is_pad (from_end s 1) then (if is_pad (from_end s 2) then 2 else 1) else 0

-- `base64.length * 0.75` less the padding, as `new ArrayBuffer` truncates it. A negative length
-- lies above -1 (for the texts "=" and "=="), and is truncated to 0.
unfoldable pub buffer_length : Chars → ℕ
unfolding padding
buffer_length s = (3 * length s - 4 * padding s) / 4

-- One round: three writes at `p`. A write past the end of a Uint8Array is ignored, and one within
-- it keeps the low 8 bits.
pub decode_group : Option ℕ → Option ℕ → Option ℕ → Option ℕ → ℕ → List ℕ → List ℕ
decode_group c1 c2 c3 c4 p bytes =
    let e1 = to_int (look_up c1) in
    let e2 = to_int (look_up c2) in
    let e3 = to_int (look_up c3) in
    let e4 = to_int (look_up c4) in
    let bytes1 = set bytes p (bit_or (shl e1 2) (shr e2 4) % 256) in
    let bytes2 = set bytes1 (p + 1) (bit_or (shl (bit_and e2 15) 4) (shr e3 2) % 256) in
    set bytes2 (p + 2) (bit_or (shl (bit_and e3 3) 6) (bit_and e4 63) % 256)

-- The loop, over what is left of the text.
pub decode_rounds : Chars → ℕ → List ℕ → List ℕ
unfolding decode_group
decode_rounds [] p bytes = bytes
decode_rounds (c1 ∷ []) p bytes = decode_group (some c1) none none none p bytes
decode_rounds (c1 ∷ c2 ∷ []) p bytes = decode_group (some c1) (some c2) none none p bytes
decode_rounds (c1 ∷ c2 ∷ c3 ∷ []) p bytes = decode_group (some c1) (some c2) (some c3) none p bytes
decode_rounds (c1 ∷ c2 ∷ c3 ∷ c4 ∷ s) p bytes =
    decode_rounds s (p + 3) (decode_group (some c1) (some c2) (some c3) (some c4) p bytes)

unfoldable pub decode : Chars → List ℕ
unfolding decode_rounds buffer_length
decode s = decode_rounds s 0 (replicate (buffer_length s) 0)
