-- ===== src/Base64/Alphabet.antt =====
-- The alphabet and the lookup table that both functions of libtarget.js build.
use dark.Common.{
  ℕ, ◌+◌, ◌<◌, ◌≤◌, ◌≡◌, refl, Bool, true, false, ◌&&◌, Option, none, some, List, [], ◌∷◌, Chars,
  codes, arith, ◌==◌, if◌then◌else◌, passes, test_below, get_elem?, get_or, set, replicate,
  get_elem?-get_or, any, ltb, get_elem?-beyond, dec_lt,
}
use dark.Base64.Words.{to_int}

-- `chars`
unfoldable pub chars : Chars
chars = codes "ABCDEFGHIJKLMNOPQRSTUVWXYZabcdefghijklmnopqrstuvwxyz0123456789-_"

-- `for (var i = 0; i < chars.length; i++) lookup[chars.charCodeAt(i)] = i`, from round `i`.
fill : Chars → ℕ → List ℕ → List ℕ
fill [] i lookup = lookup
fill (c ∷ cs) i lookup = fill cs (i + 1) (set lookup c i)

-- `lookup`, a Uint8Array(256).
unfoldable pub lookup : List ℕ
unfolding fill chars
lookup = fill chars 0 (replicate 256 0)

-- `lookup[base64.charCodeAt(i)]`: past the end of the text `charCodeAt` gives NaN, and NaN or a code
-- outside the table gives `undefined`.
unfoldable pub look_up : Option ℕ → Option ℕ
look_up none = none
look_up (some c) = get_elem? lookup c

-- The character of a sextet, in the given alphabet.
abbrev pub char_of : Chars → ℕ → ℕ
char_of alphabet k = get_or alphabet k 0

-- `base64 += chars[k]`: out of range the text "undefined" would be appended.
unfoldable pub symbol : ℕ → Chars
symbol k = elim (get_elem? chars k) [ none ↦ codes "undefined" | some c ↦ c ∷ [] ]

-- The value of a character of the text, as the bit operations read it.
abbrev pub value_of : ℕ → ℕ
value_of c = to_int (look_up (some c))

-- Whether a character stands in the alphabet.
unfoldable pub in_alphabet : ℕ → Bool
unfolding chars
in_alphabet c = any (λ x. x == c) chars

-- A sextet is appended as its one character.
pub symbol_lem : (k : ℕ) → k < 64 → symbol k ≡ char_of chars k ∷ []
unfolding symbol chars
symbol_lem k h = rw (get_elem?-get_or chars k 0 h)

-- What the table holds, checked at every index.
holds_sextet : ℕ → Bool
unfolding look_up lookup chars
holds_sextet k = value_of (char_of chars k) == k && in_alphabet (char_of chars k)

sextet_table : passes 0 64 holds_sextet ≡ true
unfolding passes holds_sextet in_alphabet
sextet_table = refl

abbrev entry_holds : Bool → ℕ → ℕ → Bool
entry_holds known v c = ltb v 64 && (if known then char_of chars v == c else v == 0)

holds_char : ℕ → Bool
unfolding look_up lookup in_alphabet chars
holds_char c = entry_holds (in_alphabet c) (value_of c) c

char_table : passes 0 256 holds_char ≡ true
unfolding passes holds_char
char_table = refl

char_holds : (c : ℕ) → c < 256 → entry_holds (in_alphabet c) (value_of c) c ≡ true
unfolding holds_char
char_holds c h = test_below holds_char 256 char_table h

pub value_of-char_of : (k : ℕ) → k < 64 → value_of (char_of chars k) ≡ k
unfolding holds_sextet
value_of-char_of k h = ground (arith, test_below holds_sextet 64 sextet_table h)

pub char_of-in_alphabet : (k : ℕ) → k < 64 → in_alphabet (char_of chars k) ≡ true
unfolding holds_sextet
char_of-in_alphabet k h = ground (arith, test_below holds_sextet 64 sextet_table h)

-- Every index gives a sextet: what is out of the table counts as 0.
look_up_beyond : (c : ℕ) → 256 ≤ c → look_up (some c) ≡ none
unfolding look_up lookup chars
look_up_beyond c h = get_elem?-beyond lookup c h

pub value_of-lt : (c : ℕ) → value_of c < 64
value_of-lt c = elim (dec_lt c 256) [
  | yes p ↦ ground (arith, char_holds c p)
  | no p ↦ rw (look_up_beyond c (omega arith)) (omega arith)
]

in_alphabet-lt : (c : ℕ) → in_alphabet c ≡ true → c < 256
unfolding in_alphabet
in_alphabet-lt c h = ground arith

pub char_of-value_of : (c : ℕ) → in_alphabet c ≡ true → char_of chars (value_of c) ≡ c
char_of-value_of c h = ground (arith, char_holds c (in_alphabet-lt c h))

-- A character out of the alphabet has the value of `A`.
pub value_of_other : (c : ℕ) → in_alphabet c ≡ false → value_of c ≡ 0
value_of_other c h = elim (dec_lt c 256) [
  | yes p ↦ ground (arith, char_holds c p)
  | no p ↦ rw (look_up_beyond c (omega arith))
]
