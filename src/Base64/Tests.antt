-- ===== src/Base64/Tests.antt =====
-- Runs of the coder on small inputs, and its theorems at concrete ones.
use dark.Common.{ℕ, ◌≡◌, refl, List, [], ◌∷◌, codes, arith, take}
use dark.Base64.Alphabet.{in_alphabet, symbol, chars, look_up, lookup}
use dark.Base64.Encode.{encode}
use dark.Base64.Decode.{decode, buffer_length}
use dark.Base64.Rfc.{rfc}
use dark.Base64.Encode.Matches.{encode-rfc}
use dark.Base64.Decode.Matches.{spelled, decode-spelled}
use dark.Base64.RoundTrip.{decode-encode}
use dark.Base64.Canonical.{IsCanonical, two_bytes, encode-decode}

encodes_ab : encode (codes "ab") ≡ codes "YWI="
unfolding encode symbol chars
encodes_ab = refl

encodes_url : encode (251 ∷ 255 ∷ 191 ∷ 0 ∷ []) ≡ codes "-_-_AA=="
unfolding encode symbol chars
encodes_url = refl

decodes_ab : decode (codes "YWI=") ≡ codes "ab"
unfolding decode look_up lookup
decodes_ab = refl

-- An incomplete group: the length 3.75 is cut to 3, and the last write is ignored.
decodes_five : decode (codes "YWJjZ") ≡ codes "abc"
unfolding decode look_up lookup
decodes_five = refl

decodes_pad : decode (codes "=") ≡ []
unfolding decode look_up lookup
decodes_pad = refl

abbrev sample : List ℕ
sample = 0 ∷ 255 ∷ 104 ∷ 105 ∷ []

decode-encode_example : decode (encode sample) ≡ sample
decode-encode_example = decode-encode sample (omega arith)

encode-rfc_example : encode sample ≡ rfc chars sample
encode-rfc_example = encode-rfc sample (omega arith)

decode-spelled_example :
    decode (codes "YW?") ≡ take (buffer_length (codes "YW?")) (spelled (codes "YW?"))
decode-spelled_example = decode-spelled (codes "YW?")

ab-IsCanonical : IsCanonical (codes "YWI=")
unfolding in_alphabet chars look_up lookup
ab-IsCanonical = two_bytes refl refl refl refl

encode-decode_example : encode (decode (codes "YWI=")) ≡ codes "YWI="
encode-decode_example = encode-decode (codes "YWI=") ab-IsCanonical
