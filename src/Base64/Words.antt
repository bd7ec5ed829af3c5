-- ===== src/Base64/Words.antt =====
-- The bitwise operators that backend/libtarget.js/libtarget.js applies to values of a Uint8Array,
-- and what they are in arithmetic. An `undefined` operand is coerced to 0.
use Prim.Native.Nat.{bit_and, bit_or}
use dark.Common.{
  ℕ, ◌+◌, ◌*◌, ◌/◌, ◌%◌, ◌^◌, ◌<◌, ◌≡◌, refl, Bool, true, Option, none, some, ◌==◌, ==_iff, passes,
  test_below,
}

-- ToInt32 of what an index into a typed array or a string gave.
abbrev pub to_int : Option ℕ → ℕ
to_int none = 0
to_int (some n) = n

-- `x << k` of a number so small that the sign bit stays clear, and `x >> k`.
abbrev pub shl : ℕ → ℕ → ℕ
shl x k = x * 2 ^ k

abbrev pub shr : ℕ → ℕ → ℕ
shr x k = x / 2 ^ k

-- The bit operations at every value that occurs, by evaluation.
and_holds : ℕ → ℕ → Bool
and_holds m x = bit_and x m == x % (m + 1)

or_holds : ℕ → ℕ → ℕ → Bool
or_holds k x y = bit_or (shl x k) y == shl x k + y

and_table :
    (passes 0 256 (and_holds 3) ≡ true)
    × (passes 0 256 (and_holds 15) ≡ true)
    × (passes 0 256 (and_holds 63) ≡ true)
unfolding passes and_holds
and_table = (refl, refl, refl)

or_table :
    (passes 0 64 (λ x. passes 0 4 (or_holds 2 x)) ≡ true)
    × (passes 0 16 (λ x. passes 0 16 (or_holds 4 x)) ≡ true)
    × (passes 0 4 (λ x. passes 0 64 (or_holds 6 x)) ≡ true)
unfolding passes or_holds
or_table = (refl, refl, refl)

pub and_three : (x : ℕ) → x < 256 → bit_and x 3 ≡ x % 4
unfolding and_holds
and_three x h = (==_iff _ _).0 (test_below (and_holds 3) 256 and_table.0 h)

pub and_fifteen : (x : ℕ) → x < 256 → bit_and x 15 ≡ x % 16
unfolding and_holds
and_fifteen x h = (==_iff _ _).0 (test_below (and_holds 15) 256 and_table.1 h)

pub and_sixty_three : (x : ℕ) → x < 256 → bit_and x 63 ≡ x % 64
unfolding and_holds
and_sixty_three x h = (==_iff _ _).0 (test_below (and_holds 63) 256 and_table.2 h)

or_at :
    (k n m : ℕ)
    → passes 0 n (λ x. passes 0 m (or_holds k x)) ≡ true
    → (x y : ℕ) → x < n
    → y < m
    → bit_or (shl x k) y ≡ shl x k + y
unfolding or_holds
or_at k n m table x y hx hy =
    (==_iff _ _).0 (test_below (or_holds k x) m (test_below _ n table hx) hy)

pub or_two : (x y : ℕ) → x < 64 → y < 4 → bit_or (x * 4) y ≡ x * 4 + y
or_two = or_at 2 64 4 or_table.0

pub or_four : (x y : ℕ) → x < 16 → y < 16 → bit_or (x * 16) y ≡ x * 16 + y
or_four = or_at 4 16 16 or_table.1

pub or_six : (x y : ℕ) → x < 4 → y < 64 → bit_or (x * 64) y ≡ x * 64 + y
or_six = or_at 6 4 64 or_table.2
