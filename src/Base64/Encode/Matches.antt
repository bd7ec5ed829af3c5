-- ===== src/Base64/Encode/Matches.antt =====
-- The encoder against RFC 4648.
use dark.Common.{
  ℕ, ◌+◌, ◌-◌, ◌*◌, ◌%◌, ◌≡◌, refl, sym, ap, ◌∙◌, none, some, List, [], ◌∷◌, ◌++◌, append_assoc,
  append-nil, Chars, codes, arith, length-append, take-length-append, length, take, All,
}
use dark.Base64.Alphabet.{chars}
use dark.Base64.Rfc.{IsByte, quad, rfc}
use dark.Base64.Encode.{encode, encode_group, encode_rounds, encode_end}
use dark.Base64.Encode.Groups.{encode_group_lem}

end_none : (n : ℕ) (out : Chars) → n % 3 ≡ 0 → encode_end n out ≡ out
unfolding encode_end
end_none n out h = ground arith

cut :
    (out t : Chars) (i j : ℕ)
    → length t ≡ i + j
    → take (length (out ++ t) - i) (out ++ t) ≡ out ++ take j t
cut out t i j e =
    ap (λ k. take k (out ++ t)) (omega (arith, length-append out t)) ∙ take-length-append out t j

end_one :
    (n : ℕ) (out : Chars) (x y z w : ℕ)
    → n % 3 ≡ 1
    → encode_end n (out ++ x ∷ y ∷ z ∷ w ∷ []) ≡ out ++ x ∷ y ∷ codes "=="
unfolding encode_end
end_one n out x y z w h =
    rw h (rw (cut out (x ∷ y ∷ z ∷ w ∷ []) 2 2 refl) (append_assoc out (x ∷ y ∷ []) (codes "==")))

end_two :
    (n : ℕ) (out : Chars) (x y z w : ℕ)
    → n % 3 ≡ 2
    → encode_end n (out ++ x ∷ y ∷ z ∷ w ∷ []) ≡ out ++ x ∷ y ∷ z ∷ codes "="
unfolding encode_end
end_two n out x y z w h =
    rw h
      (rw (cut out (x ∷ y ∷ z ∷ w ∷ []) 1 3 refl) (append_assoc out (x ∷ y ∷ z ∷ []) (codes "=")))

group_one : (a : ℕ) → IsByte a → encode_group (some a) none none ≡ quad chars (a * 65536)
group_one a h =
    encode_group_lem (some a) none none h (omega arith) (omega arith)
    ∙ ap (quad chars) (omega arith)

group_two :
    (a b : ℕ)
    → IsByte a
    → IsByte b
    → encode_group (some a) (some b) none ≡ quad chars (a * 65536 + b * 256)
group_two a b ha hb =
    encode_group_lem (some a) (some b) none ha hb (omega arith) ∙ ap (quad chars) (omega arith)

rounds_rfc :
    (bytes : List ℕ) (out : Chars) (n : ℕ)
    → All IsByte bytes
    → n % 3 ≡ length bytes % 3
    → encode_end n (encode_rounds bytes out) ≡ out ++ rfc chars bytes
unfolding encode_rounds rfc
rounds_rfc [] out n h e = end_none n out e ∙ sym (append-nil out)
rounds_rfc (a ∷ []) out n (ha, _) e = rw (group_one a ha) (end_one n out _ _ _ _ e)
rounds_rfc (a ∷ b ∷ []) out n (ha, (hb, _)) e = rw (group_two a b ha hb) (end_two n out _ _ _ _ e)
rounds_rfc (a ∷ b ∷ c ∷ bytes) out n (ha, (hb, (hc, h))) e =
    rw (encode_group_lem (some a) (some b) (some c) ha hb hc)
      (rounds_rfc bytes _ n h (omega arith) ∙ append_assoc out (quad chars _) (rfc chars bytes))

-- For every sequence of bytes the function returns the padded base64url text of RFC 4648.
pub encode-rfc : (bytes : List ℕ) → All IsByte bytes → encode bytes ≡ rfc chars bytes
unfolding encode
encode-rfc bytes h = rounds_rfc bytes [] (length bytes) h refl
