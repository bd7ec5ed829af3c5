-- ===== src/Base64/Decode/Groups.antt =====
-- What a round of the decoder writes.
use Prim.Native.Nat.{bit_and, bit_or}
use dark.Common.{
  ℕ, ◌+◌, ◌*◌, ◌/◌, ◌%◌, ◌<◌, ◌≤◌, ◌≡◌, refl, Option, none, some, List, [], ◌∷◌, ◌++◌, arith,
  set-append, set_beyond, length, set,
}
use dark.Base64.Words.{to_int, and_three, and_fifteen, and_sixty_three, or_two, or_four, or_six}
use dark.Base64.Alphabet.{look_up, value_of-lt}
use dark.Base64.Decode.{decode_group}

-- What the bit operations read for a character that may be missing.
abbrev pub digit : Option ℕ → ℕ
digit c = to_int (look_up c)

pub digit-lt : (c : Option ℕ) → digit c < 64
unfolding look_up
digit-lt none = omega arith
digit-lt (some c) = value_of-lt c

-- The 24 bits of four digits, and their three bytes.
abbrev pub number : ℕ → ℕ → ℕ → ℕ → ℕ
number e1 e2 e3 e4 = e1 * 262144 + e2 * 4096 + e3 * 64 + e4

abbrev pub triple : ℕ → List ℕ
triple v = v / 65536 ∷ v / 256 % 256 ∷ v % 256 ∷ []

abbrev pub write_triple : List ℕ → ℕ → ℕ → List ℕ
write_triple bytes p v =
    set (set (set bytes p (v / 65536)) (p + 1) (v / 256 % 256)) (p + 2) (v % 256)

module _ (e1 e2 e3 e4 : ℕ) (h1 : e1 < 64) (h2 : e2 < 64) (h3 : e3 < 64) (h4 : e4 < 64) where
  first : bit_or (e1 * 4) (e2 / 16) % 256 ≡ number e1 e2 e3 e4 / 65536
  first = rw (or_two e1 (e2 / 16) h1 (omega arith)) (omega arith)

  second : bit_or (bit_and e2 15 * 16) (e3 / 4) % 256 ≡ number e1 e2 e3 e4 / 256 % 256
  second =
      rw (and_fifteen e2 (omega arith))
        (rw (or_four (e2 % 16) (e3 / 4) (omega arith) (omega arith)) (omega arith))

  third : bit_or (bit_and e3 3 * 64) (bit_and e4 63) % 256 ≡ number e1 e2 e3 e4 % 256
  third =
      rw (and_three e3 (omega arith), and_sixty_three e4 (omega arith))
        (rw (or_six (e3 % 4) (e4 % 64) (omega arith) (omega arith)) (omega arith))

pub decode_group_lem :
    (c1 c2 c3 c4 : Option ℕ) (p : ℕ) (bytes : List ℕ)
    → decode_group c1 c2 c3 c4 p bytes
      ≡ write_triple bytes p (number (digit c1) (digit c2) (digit c3) (digit c4))
unfolding decode_group
decode_group_lem c1 c2 c3 c4 p bytes =
    let h1 = digit-lt c1 in
    let h2 = digit-lt c2 in
    let h3 = digit-lt c3 in
    let h4 = digit-lt c4 in
    rw (
      first _ _ (digit c3) (digit c4) h1 h2 h3 h4,
      second (digit c1) _ _ (digit c4) h1 h2 h3 h4,
      third (digit c1) (digit c2) _ _ h1 h2 h3 h4,
    )

-- Writes over the bytes of a buffer, from its start; those past its end are ignored.
abbrev pub overlay : List ℕ → List ℕ → List ℕ
overlay rest [] = rest
overlay [] (x ∷ w) = []
overlay (r ∷ rest) (x ∷ w) = x ∷ overlay rest w

overlay-triple : (rest : List ℕ) (v : ℕ) → write_triple rest 0 v ≡ overlay rest (triple v)
overlay-triple [] v = refl
overlay-triple (r1 ∷ []) v = refl
overlay-triple (r1 ∷ r2 ∷ []) v = refl
overlay-triple (r1 ∷ r2 ∷ r3 ∷ rest) v = refl

set_at :
    (pre rest : List ℕ) (i j v : ℕ)
    → j ≡ length pre + i
    → set (pre ++ rest) j v ≡ pre ++ set rest i v
set_at pre rest i j v e = rw e (set-append pre rest i v)

pub write_triple_lem :
    (pre rest : List ℕ) (p v : ℕ)
    → p ≡ length pre
    → write_triple (pre ++ rest) p v ≡ pre ++ overlay rest (triple v)
write_triple_lem pre rest p v e = rw (
  set_at pre rest 0 p (v / 65536) (omega arith),
  set_at pre _ 1 (p + 1) (v / 256 % 256) (omega arith),
  set_at pre _ 2 (p + 2) (v % 256) (omega arith),
  overlay-triple rest v,
)

pub write_triple_beyond :
    (bytes : List ℕ) (p v : ℕ) → length bytes ≤ p → write_triple bytes p v ≡ bytes
write_triple_beyond bytes p v h =
    rw (set_beyond bytes p (v / 65536) h, set_beyond bytes (p + 1) (v / 256 % 256) (omega arith))
      (set_beyond bytes (p + 2) (v % 256) (omega arith))
