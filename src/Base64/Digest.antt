-- ===== src/Base64/Digest.antt =====
-- The digests of backend/libtarget.js/libtarget.js: the SHA-2 library gives standard base 64, in
-- which two characters are replaced by those of the url alphabet.
use dark.Common.{
  ℕ, ◌<◌, ◌≡◌, refl, sym, ◌∙◌, true, List, [], ◌∷◌, Chars, codes, arith, ◌==◌, ==_iff,
  if◌then◌else◌, passes, test_below, All,
}
use dark.Base64.Alphabet.{chars, char_of}
use dark.Base64.Rfc.{IsByte, rfc}
use dark.Base64.Encode.{encode}
use dark.Base64.Encode.Matches.{encode-rfc}

-- The alphabet of RFC 4648, section 4.
unfoldable pub standard : Chars
standard = codes "ABCDEFGHIJKLMNOPQRSTUVWXYZabcdefghijklmnopqrstuvwxyz0123456789+/"

-- `text.replace(/x/g, "y")`, for single characters.
unfoldable pub replace_all : ℕ → ℕ → Chars → Chars
replace_all x y [] = []
replace_all x y (c ∷ text) = (if c == x then y else c) ∷ replace_all x y text

-- `b64.replace(/\//g, "_").replace(/\+/g, "-")`
unfoldable pub to_url : Chars → Chars
unfolding replace_all
to_url b64 = replace_all b'+' b'-' (replace_all b'/' b'_' b64)

-- What `analysiswrapper.sha2` is used for: a hash of some input, as bytes, and its
-- `toString("base64")`, which is documented to be standard base 64 with padding.
pub record Sha2 (Input : Type 0) : Type 0 where
  pub hash : Input → List ℕ
  pub to_base64 : Input → Chars
  pub bytes : (s : Input) → All IsByte (hash s)
  pub encodes : (s : Input) → to_base64 s ≡ rfc standard (hash s)

module _ {Input : Type 0} (sha2 : Sha2 Input) where
  -- dark_targetjs_digest384 (over a text), dark_targetjs_digest384_bytes (over a Uint8Array) and
  -- dark_targetjs_digest256 (with SHA256 for SHA384) have this body.
  unfoldable pub digest : Input → Chars
  unfolding to_url
  digest s = to_url (sha2.to_base64 s)

to_url_char : ℕ → ℕ
to_url_char c = let d = if c == b'/' then b'_' else c in if d == b'+' then b'-' else d

to_url-cons : (c : ℕ) (s : Chars) → to_url (c ∷ s) ≡ to_url_char c ∷ to_url s
unfolding to_url to_url_char
to_url-cons c s = refl

url_table : passes 0 64 (λ k. to_url_char (char_of standard k) == char_of chars k) ≡ true
unfolding passes to_url_char standard chars
url_table = refl

to_url_sextet : (k : ℕ) → k < 64 → to_url_char (char_of standard k) ≡ char_of chars k
to_url_sextet k h =
    (==_iff _ _).0
      (test_below (λ k. to_url_char (char_of standard k) == char_of chars k) 64 url_table h)

to_url_step :
    (k : ℕ) (s t : Chars)
    → k < 64
    → to_url s ≡ t
    → to_url (char_of standard k ∷ s) ≡ char_of chars k ∷ t
to_url_step k s t h e = to_url-cons (char_of standard k) s ∙ rw (to_url_sextet k h, e)

to_url_pads : (to_url (codes "=") ≡ codes "=") × (to_url (codes "==") ≡ codes "==")
unfolding to_url
to_url_pads = (refl, refl)

to_url-rfc : (bytes : List ℕ) → All IsByte bytes → to_url (rfc standard bytes) ≡ rfc chars bytes
unfolding rfc
to_url-rfc [] h = unfold to_url in refl
to_url-rfc (a ∷ []) (ha, _) =
    to_url_step _ _ _ (omega arith) (to_url_step _ _ _ (omega arith) to_url_pads.1)
to_url-rfc (a ∷ b ∷ []) (ha, (hb, _)) =
    to_url_step _ _ _ (omega arith)
      (to_url_step _ _ _ (omega arith) (to_url_step _ _ _ (omega arith) to_url_pads.0))
to_url-rfc (a ∷ b ∷ c ∷ bytes) (ha, (hb, (hc, h))) = to_url_step _ _ _ (omega arith) (
    to_url_step _ _ _ (omega arith)
      (to_url_step _ _ _ (omega arith) (to_url_step _ _ _ (omega arith) (to_url-rfc bytes h))))

-- The digest is the hash, written by the function that encodes bytes.
pub digest-encode :
    {Input : Type 0} (sha2 : Sha2 Input) (s : Input) → digest sha2 s ≡ encode (sha2.hash s)
unfolding digest
digest-encode sha2 s =
    rw (sha2.encodes s) (to_url-rfc _ (sha2.bytes s) ∙ sym (encode-rfc _ (sha2.bytes s)))
