-- ===== src/Base/Bits.antt =====
-- Masks and unions of bit fields as arithmetic, at every width.
use Prim.Native.Nat.{
  ℕ, zero, suc, ◌+◌, ◌*◌, ◌/◌, ◌%◌, ◌^◌, ◌≤◌, ◌<◌, min, max, bit_and, bit_or, digits, bitwise,
  bit_and-bitwise, bit_or-bitwise,
}
use mathlib.Core.Bool.{Bool, true, ◌&&◌}
use webtransport_rs.Base.Tests.{◌==◌}
use mathlib.Core.Path.{◌≡◌, refl, ap, ◌∙◌}
use native.Mathlib.Omega.{arith}
use native.Mathlib.Nat.{
  le_refl, pow-suc, mod-lt, mod-eq_of_lt, div-add-mod', add-mul-mod_self_right, mul-add-div_right,
  div-eq_of_lt, div-div-eq-div-mul,
}

module _ (z : ℕ → ℕ) (f : ℕ → ℕ → ℕ) where
  -- The count of digits to go plays no part once it is large enough.
  any_count : (a b : ℕ) (k c : ℕ) → a ≤ k → a ≤ c → digits z f c a b ≡ digits z f k a b
  any_count zero b zero zero below fits = refl
  any_count zero b zero (suc c) below fits = refl
  any_count zero b (suc k) zero below fits = refl
  any_count zero b (suc k) (suc c) below fits = refl
  any_count (suc a) b (suc k) (suc c) below fits =
      let more = any_count (suc a / 2) (b / 2) k c (omega arith) (omega arith) in rw more refl
  any_count (suc a) b zero c below fits = absurd (omega arith)
  any_count (suc a) b (suc k) zero below fits = absurd (omega arith)

  lowest_digit :
      (a b : ℕ)
      → bitwise z f (suc a) b ≡ bitwise z f (suc a / 2) (b / 2) * 2 + f (suc a % 2) (b % 2)
  lowest_digit a b =
      let half = any_count (suc a / 2) (b / 2) (suc a / 2) a (le_refl _) (omega arith) in
      omega arith

or_digit : (a b : ℕ) → bit_or a b ≡ bit_or (a / 2) (b / 2) * 2 + max (a % 2) (b % 2)
or_digit zero b = simp bit_or-bitwise (omega arith)
or_digit (suc a) b = simp bit_or-bitwise (lowest_digit (λ y. y) max a b)

and_digit : (a b : ℕ) → bit_and a b ≡ bit_and (a / 2) (b / 2) * 2 + min (a % 2) (b % 2)
and_digit zero b = simp bit_and-bitwise (omega arith)
and_digit (suc a) b = simp bit_and-bitwise (lowest_digit (λ y. 0) min a b)

or_zero_fuel : (n a : ℕ) → a ≤ n → bit_or a 0 ≡ a
or_zero_fuel n zero h = refl
or_zero_fuel zero (suc a) h = absurd (omega arith)
or_zero_fuel (suc n) (suc a) h =
    omega (arith, or_digit (suc a) 0, or_zero_fuel n (suc a / 2) (omega arith))

pub or_zero : (a : ℕ) → bit_or a 0 ≡ a
or_zero a = or_zero_fuel a a (omega arith)

and_zero_fuel : (n a : ℕ) → a ≤ n → bit_and a 0 ≡ 0
and_zero_fuel n zero h = refl
and_zero_fuel zero (suc a) h = absurd (omega arith)
and_zero_fuel (suc n) (suc a) h =
    omega (arith, and_digit (suc a) 0, and_zero_fuel n (suc a / 2) (omega arith))

pub and_zero : (a : ℕ) → bit_and a 0 ≡ 0
and_zero a = and_zero_fuel a a (omega arith)

pub pow-pos_two : (k : ℕ) → 0 < 2 ^ k
pow-pos_two zero = omega arith
pow-pos_two (suc k) = omega (arith, pow-pos_two k, pow-suc 2 k)

halve_field : (k c : ℕ) → (c * 2 ^ suc k / 2 ≡ c * 2 ^ k) × (c * 2 ^ suc k % 2 ≡ 0)
halve_field k c = let e = ap (λ (t : ℕ). c * t) (pow-suc 2 k) in (omega arith, omega arith)

-- A field above bit `k` and a number below it do not meet.
pub or_field : (k c x : ℕ) → x < 2 ^ k → bit_or (c * 2 ^ k) x ≡ c * 2 ^ k + x
or_field zero c x h = let e : x ≡ 0 = omega arith in rw e (or_zero (c * 1) ∙ omega arith)
or_field (suc k) c x h =
    let below : x / 2 < 2 ^ k = omega (arith, pow-suc 2 k) in
    let step = or_digit (c * 2 ^ suc k) x in
    let (halved, even) = halve_field k c in
    let rest = or_field k c (x / 2) below in
    let high : c * 2 ^ suc k ≡ c * 2 ^ k * 2 = omega arith in
    step ∙ rw (halved, even, rest) (omega arith)

-- A remainder is known by its range and the equation of the division.
pub mod_unique : (a q r p : ℕ) → r < p → a ≡ r + q * p → a % p ≡ r
mod_unique a q r p h e = rw e (add-mul-mod_self_right r q p ∙ mod-eq_of_lt h)

split_mod : (k a : ℕ) → a % 2 ^ suc k ≡ a / 2 % 2 ^ k * 2 + a % 2
split_mod k a =
    let positive : 0 < 2 ^ k = pow-pos_two k in
    let low = mod-lt (a / 2) positive in
    let whole = div-add-mod' (a / 2) (2 ^ k) in
    let double = ap (λ (t : ℕ). a / 2 / 2 ^ k * t) (pow-suc 2 k) in
    mod_unique a (a / 2 / 2 ^ k) (a / 2 % 2 ^ k * 2 + a % 2) (2 ^ suc k)
      (omega (arith, pow-suc 2 k)) (omega arith)

-- A mask of `k` ones keeps the lowest `k` bits.
pub and_mask : (k a m : ℕ) → m + 1 ≡ 2 ^ k → bit_and a m ≡ a % 2 ^ k
and_mask zero a m h = let e : m ≡ 0 = omega arith in rw e (and_zero a ∙ omega arith)
and_mask (suc k) a m h =
    let rest = and_mask k (a / 2) (m / 2) (omega (arith, pow-suc 2 k)) in
    let odd : m % 2 ≡ 1 = omega (arith, pow-suc 2 k, h) in
    and_digit a m ∙ rw rest (omega (arith, split_mod k a))

or_zero_left : (b : ℕ) → bit_or 0 b ≡ b
or_zero_left b = simp bit_or-bitwise refl

-- The same union with the field behind the number.
pub field_or : (k c x : ℕ) → x < 2 ^ k → bit_or x (c * 2 ^ k) ≡ c * 2 ^ k + x
field_or zero c x h = let e : x ≡ 0 = omega arith in rw e (or_zero_left (c * 1) ∙ omega arith)
field_or (suc k) c x h =
    let below : x / 2 < 2 ^ k = omega (arith, pow-suc 2 k) in
    let (halved, even) = halve_field k c in
    let rest = field_or k c (x / 2) below in
    let high : c * 2 ^ suc k ≡ c * 2 ^ k * 2 = omega arith in
    or_digit x (c * 2 ^ suc k) ∙ rw (halved, even, rest) (omega arith)

-- The two fields, taken apart again.
pub field_mod : (k c x : ℕ) → x < 2 ^ k → (c * 2 ^ k + x) % 2 ^ k ≡ x
field_mod k c x h = mod_unique (c * 2 ^ k + x) c x (2 ^ k) h (omega arith)

pub field_div : (k c x : ℕ) → x < 2 ^ k → (c * 2 ^ k + x) / 2 ^ k ≡ c
field_div k c x h = mul-add-div_right (pow-pos_two k) c x ∙ rw (div-eq_of_lt h) (omega arith)

-- A mask of one bit.
pub and_bit : (k a : ℕ) → bit_and a (2 ^ k) ≡ a / 2 ^ k % 2 * 2 ^ k
and_bit zero a = omega (arith, and_digit a 1, and_zero (a / 2))
and_bit (suc k) a =
    let rest = and_bit k (a / 2) in
    let double = pow-suc 2 k in
    let half : 2 ^ suc k / 2 ≡ 2 ^ k = omega arith in
    let even : 2 ^ suc k % 2 ≡ 0 = omega arith in
    let whole : a / 2 / 2 ^ k ≡ a / 2 ^ suc k =
      div-div-eq-div-mul a 2 (2 ^ k) ∙ ap (◌/◌ a) (omega arith) in
    and_digit a (2 ^ suc k) ∙ rw (half, even, rest, whole, double) (omega arith)

-- Over a small range, a fact is checked at every value.
all_below : ℕ → (ℕ → Bool) → Bool
all_below zero p = true
all_below (suc n) p = p n && all_below n p

all_below-at : (n : ℕ) (p : ℕ → Bool) (x : ℕ) → all_below n p ≡ true → x < n → p x ≡ true
unfolding all_below
all_below-at zero p x h lt = absurd (omega arith)
all_below-at (suc n) p x h lt = ground (arith, all_below-at n p x)

-- Masks of the high bits of a byte.
masks_agree : ℕ → Bool
masks_agree b =
    bit_and b 0b1100_0000 == b / 64 * 64
    && bit_and b 0b1101_0000 == b / 64 * 64 + b / 16 % 2 * 16
    && bit_and b 0b1110_0000 == b / 32 * 32
    && bit_and b 0b1111_0000 == b / 16 * 16

masks_table : all_below 256 masks_agree ≡ true
unfolding all_below masks_agree
masks_table = refl

pub byte_masks :
    (b : ℕ)
    → b < 256
    → (bit_and b 0b1100_0000 ≡ b / 64 * 64)
      × (bit_and b 0b1101_0000 ≡ b / 64 * 64 + b / 16 % 2 * 16)
      × (bit_and b 0b1110_0000 ≡ b / 32 * 32)
      × (bit_and b 0b1111_0000 ≡ b / 16 * 16)
unfolding masks_agree
byte_masks b h =
    let checked = all_below-at 256 masks_agree b masks_table h in
    (ground arith, ground arith, ground arith, ground arith)
