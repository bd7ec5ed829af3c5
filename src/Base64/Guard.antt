-- ===== src/Base64/Guard.antt =====
-- bytes_from_base64url of backend/libtarget.js/libtarget.ml, the guard in front of the decoder.
use dark.Common.{
  ℕ, suc, ◌<◌, ◌≡◌, refl, ◌∙◌, ◌⊎◌, inl, inr, Bool, true, false, ◌&&◌, Option, none, some, List, [],
  ◌∷◌, ◌++◌, Chars, arith, if◌then◌else◌, ap, get_elem?, All, Bool-cases,
}
use dark.Base64.Alphabet.{chars, char_of, in_alphabet, char_of-in_alphabet}
use dark.Base64.Rfc.{IsByte, quad, rfc}
use dark.Base64.Encode.{encode}
use dark.Base64.Encode.Matches.{encode-rfc}
use dark.Base64.Decode.{decode}
use dark.Base64.RoundTrip.{decode-encode}
use dark.Base64.Unsafe.{is_allowed}

all_allowed : Chars → Bool
unfolding is_allowed
all_allowed [] = true
all_allowed (c ∷ s) = is_allowed c && all_allowed s

-- `regexp_replace` with the pattern `^[…=]*$` and no flag for lines: a text that matches is replaced
-- whole, by nothing.
replaced_string : Chars → Chars
unfolding all_allowed
replaced_string s = if all_allowed s then [] else s

-- `none` is the exception `Invalid_B64`.
unfoldable pub valid_rfc4648_b64_or_exn : Chars → Option Chars
unfolding replaced_string
valid_rfc4648_b64_or_exn s = elim (replaced_string s) [ [] ↦ some s | _ ∷ _ ↦ none ]

decode_valid : Option Chars → Option (List ℕ)
decode_valid none = none
decode_valid (some b64) = some (decode b64)

unfoldable pub bytes_from_base64url : Chars → Option (List ℕ)
unfolding decode_valid
bytes_from_base64url b64 = decode_valid (valid_rfc4648_b64_or_exn b64)

-- `base64url_bytes`
unfoldable pub base64url_bytes : List ℕ → Chars
base64url_bytes input = encode input

valid_lem : (s : Chars) → valid_rfc4648_b64_or_exn s ≡ (if all_allowed s then some s else none)
unfolding valid_rfc4648_b64_or_exn
valid_lem [] = refl
valid_lem (c ∷ s) = ground arith

bytes_from_lem :
    (s : Chars) (b : Bool)
    → all_allowed s ≡ b
    → bytes_from_base64url s ≡ (if b then some (decode s) else none)
unfolding bytes_from_base64url
bytes_from_lem s true e = ap decode_valid (valid_lem s ∙ ap (λ b. if b then some s else none) e)
bytes_from_lem s false e = ap decode_valid (valid_lem s ∙ ap (λ b. if b then some s else none) e)

-- A character that the pattern does not allow, with its place.
abbrev pub Bad : Chars → Type 0
Bad s = (i : ℕ) × (c : ℕ) × (get_elem? s i ≡ some c) × (is_allowed c ≡ false)

abbrev pub AllAllowed : Chars → Type 0
AllAllowed = All (λ c. is_allowed c ≡ true)

all_allowed-cases :
    (s : Chars) → ((all_allowed s ≡ true) × AllAllowed s) ⊎ ((all_allowed s ≡ false) × Bad s)
unfolding all_allowed
all_allowed-cases [] = inl (refl, tt)
all_allowed-cases (c ∷ s) = elim (Bool-cases (is_allowed c)) [
  | inr e ↦ inr (rw e, (0, c, refl, e))
  | inl e ↦ elim (all_allowed-cases s) [
    | inl (h, all) ↦ inl (rw e h, (e, all))
    | inr (h, (i, x, at, bad)) ↦ inr (rw e h, (suc i, x, at, bad))
  ]
]

-- Every text is either accepted, and then all its characters are allowed and the result is the
-- decoder's, or it raises, and then it holds a character that is not allowed.
pub bytes_from_base64url_lem :
    (s : Chars)
    → (AllAllowed s × (bytes_from_base64url s ≡ some (decode s)))
      ⊎ (Bad s × (bytes_from_base64url s ≡ none))
bytes_from_base64url_lem s = elim (all_allowed-cases s) [
  | inl (h, all) ↦ inl (all, bytes_from_lem s true h)
  | inr (h, bad) ↦ inr (bad, bytes_from_lem s false h)
]

allowed_pad : is_allowed b'=' ≡ true
unfolding is_allowed in_alphabet
allowed_pad = refl

allowed_char : (k : ℕ) → k < 64 → is_allowed (char_of chars k) ≡ true
unfolding is_allowed
allowed_char k h = rw (char_of-in_alphabet k h)

all_allowed-cons :
    (c : ℕ) (s : Chars) → is_allowed c ≡ true → all_allowed s ≡ true → all_allowed (c ∷ s) ≡ true
unfolding all_allowed
all_allowed-cons c s h t = rw h t

all_allowed_nil : all_allowed [] ≡ true
unfolding all_allowed
all_allowed_nil = refl

-- The alphabet's characters and pads, one by one.
ruleset allowed = (all_allowed-cons, all_allowed_nil, allowed_pad)

quad_allowed :
    (v : ℕ) (s : Chars)
    → v < 16777216
    → all_allowed s ≡ true
    → all_allowed (quad chars v ++ s) ≡ true
quad_allowed v s hv h = all_allowed-cons _ _ (allowed_char _ (omega arith)) (
    all_allowed-cons _ _ (allowed_char _ (omega arith)) (
      all_allowed-cons _ _ (allowed_char _ (omega arith))
        (all_allowed-cons _ _ (allowed_char _ (omega arith)) h)))

all_allowed-rfc : (bytes : List ℕ) → All IsByte bytes → all_allowed (rfc chars bytes) ≡ true
unfolding rfc
all_allowed-rfc [] h = all_allowed_nil
all_allowed-rfc (a ∷ []) (ha, _) =
    all_allowed-cons _ _ (allowed_char _ (omega arith))
      (all_allowed-cons _ _ (allowed_char _ (omega arith)) (search allowed))
all_allowed-rfc (a ∷ b ∷ []) (ha, (hb, _)) = all_allowed-cons _ _ (allowed_char _ (omega arith)) (
    all_allowed-cons _ _ (allowed_char _ (omega arith))
      (all_allowed-cons _ _ (allowed_char _ (omega arith)) (search allowed)))
all_allowed-rfc (a ∷ b ∷ c ∷ bytes) (ha, (hb, (hc, h))) =
    quad_allowed _ _ (omega arith) (all_allowed-rfc bytes h)

-- The guard lets every encoded text pass: reading back what `base64url_bytes` wrote gives the bytes.
pub bytes_from_base64url-base64url_bytes :
    (bytes : List ℕ) → All IsByte bytes → bytes_from_base64url (base64url_bytes bytes) ≡ some bytes
unfolding base64url_bytes
bytes_from_base64url-base64url_bytes bytes h =
    let accepted : all_allowed (encode bytes) ≡ true =
      rw (encode-rfc bytes h) (all_allowed-rfc bytes h) in
    bytes_from_lem (encode bytes) true accepted ∙ ap some (decode-encode bytes h)
