-- ===== src/Qpack/Prefix/Total.antt =====
-- `decode_prefix` does not panic on bytes of which no seven in a row are 255: no shift and no sum is out
-- of range.
use webtransport_rs.Base.{
  ℕ, zero, suc, ◌+◌, ◌-◌, ◌*◌, ◌/◌, ◌%◌, ◌^◌, ◌<◌, ◌≤◌, ◌≡◌, ◌⊎◌, ◌||◌, List, [], ◌∷◌, length,
  arith, ok, err, ltb, leb, ◌==◌, true, false, refl, Bool-cases, inl, inr, bit_and,
}
use webtransport_rs.Base.Yields.{Yields, Yields-elim, Yields-weaken}
use webtransport_rs.Qpack.Prefix.{decode_loop, decode_prefix}
use webtransport_rs.Qpack.Prefix.Mixed.{Breaks, Mixed, Mixed-tail, Mixed-Breaks}
use webtransport_rs.Qpack.Prefix.RoundTrip.{seven_bits_up, top_bit, low_seven}
use native.Mathlib.Nat.{div-le_self, pow-le-pow_right, mul-le-mul_right}
use native.Mathlib.Decide.{dec_lt}

-- What is left of `n` bytes: such bytes, and fewer.
abbrev pub Less : ℕ → List ℕ → Type 0
Less n left = Mixed left × (length left < n)

-- Before the group at `power`, with `m` groups more before the tenth: the value is below 2 ^ power, or
-- no more than 254 above it with a group to come that is not full.
abbrev Fits : ℕ → ℕ → ℕ → List ℕ → Type 0
Fits power m value buf =
    (value < 2 ^ power) ⊎ ((value < 2 ^ power + 255) × ((power < 14) ⊎ Breaks m buf))

abbrev group : ℕ → ℕ → ℕ
group byte power = bit_and byte 127 * 2 ^ power % 2 ^ 64

-- One group more, where `p` is the weight of the group and `q` that of the next one.
module _ (value p q g : ℕ) (up : q ≡ p * 128) where
  next-lt : value < p → g ≤ 127 → value + g * p < q
  next-lt h hg = let scaled = mul-le-mul_right p hg in omega (arith, up)

  next-near : value < p + 255 → g ≤ 127 → value + g * p < q + 255
  next-near h hg = let scaled = mul-le-mul_right p hg in omega (arith, up)

  next-gap : value < p + 255 → 255 ≤ p → g ≤ 126 → value + g * p < q
  next-gap h hp hg = let scaled = mul-le-mul_right p hg in omega (arith, up)

-- Below the tenth group no bits are lost.
group-whole :
    (byte power : ℕ)
    → power ≤ 56
    → (group byte power ≡ byte % 128 * 2 ^ power) × (2 ^ power ≤ 2 ^ 56)
group-whole byte power h =
    let low = pow-le-pow_right {n = 2} (omega arith) {i = power} {j = 56} h in
    let small : byte % 128 ≤ 127 = omega arith in
    let scaled = mul-le-mul_right (2 ^ power) small in (rw (low_seven byte) (omega arith), low)

-- The third group comes with all that is to follow.
Fits-early :
    (power m value byte : ℕ) (rest : List ℕ)
    → power + 7 * suc m ≡ 63
    → Mixed rest
    → value < 2 ^ power + 255
    → power < 14
    → Fits (power + 7) m (value + byte % 128 * 2 ^ power) rest
Fits-early power m value byte rest at mixed near early =
    let near' =
      next-near value (2 ^ power) _ (byte % 128) (seven_bits_up power) near (omega arith) in
    elim (dec_lt power 7) [
      | yes first ↦ inr (near', inl (omega arith))
      | no second ↦
          let seven : m ≡ 7 = omega arith in inr (near', inr (rw seven (Mixed-Breaks rest mixed)))
    ]

-- A round before the tenth group that another one follows.
Fits-round :
    (power m value byte : ℕ) (rest : List ℕ)
    → power + 7 * suc m ≡ 63
    → byte < 256
    → 128 ≤ byte
    → Mixed rest
    → Fits power (suc m) value (byte ∷ rest)
    → Fits (power + 7) m (value + byte % 128 * 2 ^ power) rest
unfolding Breaks
Fits-round power m value byte rest at small further mixed (inl less) =
    inl (next-lt value (2 ^ power) _ (byte % 128) (seven_bits_up power) less (omega arith))
Fits-round power m value byte rest at small further mixed (inr (near, inl early)) =
    Fits-early power m value byte rest at mixed near early
Fits-round power m value byte rest at small further mixed (inr (near, inr (inr later))) =
    inr (
      next-near value (2 ^ power) _ (byte % 128) (seven_bits_up power) near (omega arith),
      inr later,
    )
Fits-round power m value byte rest at small further mixed (inr (near, inr (inl gap))) =
    elim (dec_lt power 8) [
      | yes early ↦ Fits-early power m value byte rest at mixed near (omega arith)
      | no late ↦
          let wide = pow-le-pow_right {n = 2} (omega arith) {i = 8} {j = power} (omega arith) in
          inl (
            next-gap value (2 ^ power) _ (byte % 128) (seven_bits_up power) near (omega arith)
              (omega arith))
    ]

last-sum : (value byte : ℕ) → value < 2 ^ 63 → value + group byte 63 < 2 ^ 64
last-sum value byte h = rw (low_seven byte) (omega arith)

-- No sum is out of range.
Fits-sum :
    (power m value byte : ℕ) (rest : List ℕ)
    → power + 7 * m ≡ 63
    → Fits power m value (byte ∷ rest)
    → value + group byte power < 2 ^ 64
unfolding Breaks
Fits-sum power zero value byte rest at (inl less) =
    let tenth : power ≡ 63 = omega arith in rw tenth (last-sum value byte (rw tenth at less))
Fits-sum power zero value byte rest at (inr (near, inl early)) = absurd (omega arith)
Fits-sum power zero value byte rest at (inr (near, inr broken)) = absurd broken
Fits-sum power (suc m) value byte rest at fits =
    let (whole, low) = group-whole byte power (omega arith) in
    let near : value < 2 ^ power + 255 = elim fits [ inl less ↦ omega arith | inr wide ↦ wide.0 ] in
    let small : byte % 128 ≤ 127 = omega arith in
    let scaled = mul-le-mul_right (2 ^ power) small in omega (arith, whole)

decode_loop-Yields :
    (m value power : ℕ) (buf : List ℕ)
    → power + 7 * m ≡ 63
    → Mixed buf
    → Fits power m value buf
    → Yields (λ r. Less (length buf) r.1) (decode_loop value power buf)
unfolding decode_loop
decode_loop-Yields m value power [] at h fits = tt
decode_loop-Yields zero value power (byte ∷ rest) at h fits =
    let sum = Fits-sum power zero value byte rest at fits in
    let safe : leb 64 power || leb (2 ^ 64) (value + group byte power) ≡ false = ground arith in
    let long : leb 70 (power + 7) ≡ true = ground arith in
    elim (Bool-cases (bit_and byte 128 == 0)) [
      | inl last ↦ rw (safe, last) ((Mixed-tail byte rest h).1, omega arith)
      | inr further ↦ rw (safe, further, long) tt
    ]
decode_loop-Yields (suc m) value power (byte ∷ rest) at h fits =
    let sum = Fits-sum power (suc m) value byte rest at fits in
    let safe : leb 64 power || leb (2 ^ 64) (value + group byte power) ≡ false = ground arith in
    let short : leb 70 (power + 7) ≡ false = ground arith in
    let (whole, _) = group-whole byte power (omega arith) in
    let (small, mixed) = Mixed-tail byte rest h in
    elim (Bool-cases (bit_and byte 128 == 0)) [
      | inl last ↦ rw (safe, last) (mixed, omega arith)
      | inr further ↦
          let top : 128 ≤ byte = ground (arith, further, top_bit byte) in
          let fits' = Fits-round power m value byte rest at small top mixed fits in
          rw (safe, further, short)
            (Yields-weaken (λ r. Less (length rest) r.1) (λ r. Less (suc (length rest)) r.1)
              (decode_loop (value + group byte power) (power + 7) rest)
              (rw whole (
                decode_loop-Yields m (value + byte % 128 * 2 ^ power) (power + 7) rest (omega arith)
                  mixed fits'))
              (λ r less. (less.0, omega arith)))
    ]

pub decode_prefix-Yields :
    (buf : List ℕ) (size : ℕ)
    → 0 < size
    → size ≤ 8
    → Mixed buf
    → Yields (λ r. Less (length buf) r.2) (decode_prefix buf size)
unfolding decode_prefix
decode_prefix-Yields [] size pos hs h = ground arith
decode_prefix-Yields (first ∷ rest) size pos hs h =
    let flags = first / 2 ^ size % 2 ^ 8 in
    let mask = 0xFF / 2 ^ (8 - size) in
    let within : ltb 8 size ≡ false = ground arith in
    let shifts : size == 0 ≡ false = ground arith in
    let (_, mixed) = Mixed-tail first rest h in
    let byte : mask < 2 ^ 0 + 255 = omega (arith, div-le_self 0xFF (2 ^ (8 - size))) in
    elim (Bool-cases (ltb (bit_and first mask) mask)) [
      | inl short ↦ rw (within, shifts, short) (mixed, omega arith)
      | inr long ↦
          rw (within, shifts, long)
            (Yields-elim (λ r. Less (length rest) r.1) (λ r. Less (suc (length rest)) r.2)
              (decode_loop mask 0 rest) (λ r. ok (flags, r.0, r.1)) (λ e. err e)
              (decode_loop-Yields 9 mask 0 rest refl mixed (inr (byte, inl (omega arith))))
              (λ r less. (less.0, omega arith)) (λ e. tt))
    ]
