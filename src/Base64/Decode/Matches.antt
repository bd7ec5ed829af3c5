-- ===== src/Base64/Decode/Matches.antt =====
-- The decoder as one equation, for every text.
use dark.Common.{
  ℕ, zero, suc, ◌+◌, ◌*◌, ◌/◌, ◌≤◌, ◌≡◌, refl, ◌∙◌, Option, none, some, List, [], ◌∷◌, ◌++◌,
  append_assoc, Chars, arith, length-append, ap, length, take, replicate,
}
use dark.Base64.Decode.{decode, decode_group, decode_rounds, buffer_length}
use dark.Base64.Decode.Groups.{
  digit, number, triple, decode_group_lem, overlay, write_triple_lem, write_triple_beyond,
}

-- The bytes that a text spells, with missing characters of the last group read as 0.
unfoldable pub spelled : Chars → List ℕ
spelled [] = []
spelled (c1 ∷ []) = triple (number (digit (some c1)) (digit none) (digit none) (digit none))
spelled (c1 ∷ c2 ∷ []) =
    triple (number (digit (some c1)) (digit (some c2)) (digit none) (digit none))
spelled (c1 ∷ c2 ∷ c3 ∷ []) =
    triple (number (digit (some c1)) (digit (some c2)) (digit (some c3)) (digit none))
spelled (c1 ∷ c2 ∷ c3 ∷ c4 ∷ s) =
    triple (number (digit (some c1)) (digit (some c2)) (digit (some c3)) (digit (some c4)))
    ++ spelled s

rounds_beyond :
    (s : Chars) (p : ℕ) (bytes : List ℕ) → length bytes ≤ p → decode_rounds s p bytes ≡ bytes
unfolding decode_rounds
rounds_beyond [] p bytes h = refl
rounds_beyond (c1 ∷ []) p bytes h =
    decode_group_lem _ _ _ _ p bytes ∙ write_triple_beyond bytes p _ h
rounds_beyond (c1 ∷ c2 ∷ []) p bytes h =
    decode_group_lem _ _ _ _ p bytes ∙ write_triple_beyond bytes p _ h
rounds_beyond (c1 ∷ c2 ∷ c3 ∷ []) p bytes h =
    decode_group_lem _ _ _ _ p bytes ∙ write_triple_beyond bytes p _ h
rounds_beyond (c1 ∷ c2 ∷ c3 ∷ c4 ∷ s) p bytes h =
    rw
      (decode_group_lem (some c1) (some c2) (some c3) (some c4) p bytes
        ∙ write_triple_beyond bytes p _ h)
      (rounds_beyond s (p + 3) bytes (omega arith))

last_group :
    (c1 c2 c3 c4 : Option ℕ) (pre rest : List ℕ) (p : ℕ)
    → p ≡ length pre
    → decode_group c1 c2 c3 c4 p (pre ++ rest)
      ≡ pre ++ overlay rest (triple (number (digit c1) (digit c2) (digit c3) (digit c4)))
last_group c1 c2 c3 c4 pre rest p e =
    decode_group_lem c1 c2 c3 c4 p (pre ++ rest) ∙ write_triple_lem pre rest p _ e

rounds_full :
    (s : Chars) (pre rest : List ℕ) (p : ℕ)
    → p ≡ length pre
    → length rest ≤ 3
    → decode_rounds s (p + 3) (pre ++ rest) ≡ pre ++ rest
rounds_full s pre rest p e h =
    rounds_beyond s (p + 3) (pre ++ rest) (omega (arith, length-append pre rest))

rounds_overlay :
    (s : Chars) (pre rest : List ℕ) (p : ℕ)
    → p ≡ length pre
    → decode_rounds s p (pre ++ rest) ≡ pre ++ overlay rest (spelled s)
unfolding decode_rounds spelled
rounds_overlay [] pre rest p e = refl
rounds_overlay (c1 ∷ []) pre rest p e = last_group _ _ _ _ pre rest p e
rounds_overlay (c1 ∷ c2 ∷ []) pre rest p e = last_group _ _ _ _ pre rest p e
rounds_overlay (c1 ∷ c2 ∷ c3 ∷ []) pre rest p e = last_group _ _ _ _ pre rest p e
rounds_overlay (c1 ∷ c2 ∷ c3 ∷ c4 ∷ s) pre [] p e =
    rw (last_group (some c1) (some c2) (some c3) (some c4) pre [] p e)
      (rounds_full s pre [] p e (omega arith))
rounds_overlay (c1 ∷ c2 ∷ c3 ∷ c4 ∷ s) pre (r1 ∷ []) p e =
    rw (last_group (some c1) (some c2) (some c3) (some c4) pre (r1 ∷ []) p e)
      (rounds_full s pre (_ ∷ []) p e (omega arith))
rounds_overlay (c1 ∷ c2 ∷ c3 ∷ c4 ∷ s) pre (r1 ∷ r2 ∷ []) p e =
    rw (last_group (some c1) (some c2) (some c3) (some c4) pre (r1 ∷ r2 ∷ []) p e)
      (rounds_full s pre (_ ∷ _ ∷ []) p e (omega arith))
rounds_overlay (c1 ∷ c2 ∷ c3 ∷ c4 ∷ s) pre (r1 ∷ r2 ∷ r3 ∷ rest) p e =
    let v = number (digit (some c1)) (digit (some c2)) (digit (some c3)) (digit (some c4)) in
    rw
      (
        last_group (some c1) (some c2) (some c3) (some c4) pre (r1 ∷ r2 ∷ r3 ∷ rest) p e,
        ← append_assoc pre (triple v) rest,
      )
      (rounds_overlay s (pre ++ triple v) rest (p + 3) (omega (arith, length-append pre (triple v)))
        ∙ append_assoc pre (triple v) (overlay rest (spelled s)))

length-spelled : (s : Chars) → length (spelled s) ≡ 3 * ((length s + 3) / 4)
unfolding spelled
length-spelled [] = refl
length-spelled (c1 ∷ []) = refl
length-spelled (c1 ∷ c2 ∷ []) = refl
length-spelled (c1 ∷ c2 ∷ c3 ∷ []) = refl
length-spelled (c1 ∷ c2 ∷ c3 ∷ c4 ∷ s) = omega (arith, length-spelled s)

overlay-replicate : (n : ℕ) (w : List ℕ) → n ≤ length w → overlay (replicate n 0) w ≡ take n w
overlay-replicate zero [] h = refl
overlay-replicate zero (x ∷ w) h = refl
overlay-replicate (suc n) [] h = absurd (omega arith)
overlay-replicate (suc n) (x ∷ w) h = ap (◌∷◌ x) (overlay-replicate n w (omega arith))

pub buffer_length-le : (s : Chars) → buffer_length s ≤ length (spelled s)
unfolding buffer_length
buffer_length-le s = omega (arith, length-spelled s)

-- For every text, also an incomplete or an invalid one, the function returns the bytes that the
-- text spells, cut to the length of the buffer.
pub decode-spelled : (s : Chars) → decode s ≡ take (buffer_length s) (spelled s)
unfolding decode
decode-spelled s =
    rounds_overlay s [] (replicate (buffer_length s) 0) 0 refl
    ∙ overlay-replicate (buffer_length s) (spelled s) (buffer_length-le s)
