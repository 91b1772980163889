-- ===== src/Qpack/Prefix/RoundTrip.antt =====
-- `decode_prefix` reads back what `encode_prefix` wrote.
use webtransport_rs.Base.{
  ℕ, zero, suc, ◌+◌, ◌-◌, ◌*◌, ◌/◌, ◌%◌, ◌^◌, ◌≤◌, ◌<◌, ◌≡◌, refl, ap, some, List, ◌∷◌, ◌++◌,
  bit_and, ok, arith,
}
use webtransport_rs.Base.Bits.{and_mask, field_mod, field_div, pow-pos_two, and_bit}
use webtransport_rs.Qpack.Prefix.{encode_prefix, decode_prefix, decode_loop}
use webtransport_rs.Qpack.Prefix.Wire.{
  groups, prefix_wire, encode_prefix-wire, size-Masks, flags-fit,
}
use native.Mathlib.Nat.{div-add-mod, pow-suc, pow-le-pow_right, mul-le-mul_right}
use native.Mathlib.Decide.{dec_lt}
use native.Mathlib.Numerals.{towards_suc}

-- The top bit of a byte says that a group follows.
pub top_bit : (b : ℕ) → bit_and b 128 ≡ b / 128 % 2 * 128
top_bit = and_bit 7

pub low_seven : (b : ℕ) → bit_and b 127 ≡ b % 128
low_seven b = and_mask 7 b 127 refl

-- One round of the loop, on the last group and on one before it.
final_round :
    (w value power : ℕ) (rest : List ℕ)
    → w < 128
    → power < 64
    → value + w * 2 ^ power < 2 ^ 64
    → decode_loop value power (w ∷ rest) ≡ ok (value + w * 2 ^ power, rest)
unfolding decode_loop
final_round w value power rest hw hp fits = ground (arith, low_seven w, top_bit w)

middle_round :
    (g value power : ℕ) (rest : List ℕ)
    → g < 128
    → power + 7 < 64
    → value + g * 2 ^ power < 2 ^ 64
    → decode_loop value power ((g + 128) ∷ rest)
      ≡ decode_loop (value + g * 2 ^ power) (power + 7) rest
unfolding decode_loop
middle_round g value power rest hg hp fits = ground (arith, low_seven (g + 128), top_bit (g + 128))

pub seven_bits_up : (power : ℕ) → 2 ^ (power + 7) ≡ 2 ^ power * 128
seven_bits_up power = simp towards_suc (omega arith)

-- The weight of a number is that of its low group and that of the others, seven bits up.
group_weights : (power w : ℕ) → w % 128 * 2 ^ power + w / 128 * 2 ^ (power + 7) ≡ w * 2 ^ power
group_weights power w =
    let parts = ap (λ (t : ℕ). 2 ^ power * t) (div-add-mod w 128) in
    let others = ap (λ (t : ℕ). w / 128 * t) (seven_bits_up power) in omega arith

-- A number of more than one group is read below bit 57.
power-lt : (w power : ℕ) → 128 ≤ w → w * 2 ^ power < 2 ^ 64 → power + 7 < 64
power-lt w power hw fits = elim (dec_lt (power + 7) 64) [
  | yes h ↦ h
  | no h ↦
      let wide = pow-le-pow_right {n = 2} (omega arith) {i = 64} {j = power + 7} (omega arith) in
      let scaled = mul-le-mul_right (2 ^ power) hw in absurd (omega (arith, seven_bits_up power))
]

-- `w` is what is still to be read, from the bit `power` on.
decode_loop-groups :
    (k w value power : ℕ) (rest : List ℕ)
    → w < 128 ^ suc k
    → power < 64
    → value + w * 2 ^ power < 2 ^ 64
    → decode_loop value power (groups k w ++ rest) ≡ ok (value + w * 2 ^ power, rest)
unfolding groups
decode_loop-groups zero w value power rest hw hp fits =
    final_round w value power rest (omega arith) hp fits
decode_loop-groups (suc k) w value power rest hw hp fits = ground (
  arith,
  final_round w value power rest,
  group_weights power w,
  power-lt w power,
  middle_round (w % 128) value power (groups k (w / 128) ++ rest),
  decode_loop-groups k (w / 128) (value + w % 128 * 2 ^ power) (power + 7) rest,
  pow-suc 128 (suc k),
)

pub decode_prefix-wire :
    (size flags value : ℕ) (rest : List ℕ)
    → 0 < size
    → size ≤ 8
    → flags < 2 ^ (8 - size)
    → value < 2 ^ 64
    → decode_prefix (prefix_wire size flags value ++ rest) size ≡ ok (flags, value, rest)
unfolding decode_prefix prefix_wire
decode_prefix-wire size flags value rest hs hs8 hf hv =
    let m = size-Masks size hs hs8 in
    let top = 2 ^ size - 1 in
    let positive = pow-pos_two size in
    ground (
      arith,
      m.to_get,
      flags-fit size flags m hf,
      and_mask size (flags * 2 ^ size + value) top (omega arith),
      and_mask size (flags * 2 ^ size + top) top (omega arith),
      field_mod size flags value,
      field_mod size flags top,
      field_div size flags value,
      field_div size flags top,
      decode_loop-groups 10 (value - top) top 0 rest,
    )

-- An integer of 64 bits, and flags that fit beside it, survive the trip at every size of the prefix
-- from 1 to 8, whatever follows.
pub decode_prefix-encode_prefix :
    (size flags value : ℕ) (rest : List ℕ)
    → 0 < size
    → size ≤ 8
    → flags < 2 ^ (8 - size)
    → value < 2 ^ 64
    → (bs : List ℕ) × (encode_prefix size flags value ≡ some bs)
      × (decode_prefix (bs ++ rest) size ≡ ok (flags, value, rest))
decode_prefix-encode_prefix size flags value rest hs hs8 hf hv = (
  prefix_wire size flags value,
  encode_prefix-wire size flags value hs hs8 hf hv,
  decode_prefix-wire size flags value rest hs hs8 hf hv,
)
