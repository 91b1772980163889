-- ===== src/Qpack/Prefix.antt =====
-- `decode_prefix` and `encode_prefix` of qpack.rs (RFC 7541, 5.1): an integer in the low `size` bits of
-- a byte, or in groups of seven bits behind it. usize has 64 bits.
pub mod Wire
pub mod RoundTrip
pub mod Mixed
pub mod Total
mod Runs
use webtransport_rs.Base.{
  ℕ, zero, suc, ◌+◌, ◌-◌, ◌*◌, ◌/◌, ◌%◌, ◌^◌, ◌&&◌, ◌||◌, Option, none, some, List, [], ◌∷◌, ltb,
  leb, ◌==◌, if◌then◌else◌, bit_and, bit_or, Outcome, ok, err, panic,
}
use webtransport_rs.Base.Panics.{◌>>=◌}
use webtransport_rs.Qpack.Error.{DecodeError, unexpected_end, bounds_exceeded}

abbrev pub max_power : ℕ
max_power = 10 * 7

-- The loop, on the bytes that are left. Overflow is checked: a shift by 64 or more and a sum of 2 ^ 64 or
-- more panic; the bits that a shift moves out are lost.
unfoldable pub decode_loop : ℕ → ℕ → List ℕ → Outcome DecodeError (ℕ × List ℕ)
decode_loop value power [] = err unexpected_end
decode_loop value power (byte ∷ rest) =
    let value' = value + bit_and byte 127 * 2 ^ power % 2 ^ 64 in
    let power' = power + 7 in
    let more = decode_loop value' power' rest in
    if leb 64 power || leb (2 ^ 64) value'
    then panic
    else if bit_and byte 128 == 0
    then ok (value', rest)
    else if leb max_power power'
    then err bounds_exceeded
    else more

-- The value that follows a first byte, with the flags that it held.
decode_more : ℕ → ℕ → List ℕ → Outcome DecodeError (ℕ × ℕ × List ℕ)
decode_more flags mask rest = elim (decode_loop mask 0 rest) [
  | ok (value, left) ↦ ok (flags, value, left)
  | err e ↦ err e
  | panic ↦ panic
]

-- The result is the flags, the value and what is left of the buffer. At the size 0 the shift of the u8
-- 0xFF is out of range.
unfoldable pub decode_prefix : List ℕ → ℕ → Outcome DecodeError (ℕ × ℕ × List ℕ)
unfolding decode_more
decode_prefix buf size = if ltb 8 size then panic else elim buf [
  | [] ↦ err unexpected_end
  | first ∷ rest ↦
      if size == 0
      then panic
      else let flags = first / 2 ^ size % 2 ^ 8 in
        let mask = 0xFF / 2 ^ (8 - size) in
        let low = bit_and first mask in
        if ltb low mask then ok (flags, low, rest) else decode_more flags mask rest
]

-- The groups that the loop puts, and the last one behind it. A usize has ten groups at most, so ten
-- rounds of the loop are enough; `none` is a loop that ran out of them.
unfoldable pub encode_loop : ℕ → ℕ → Option (List ℕ)
encode_loop zero remaining = if ltb remaining 128 then some ((remaining % 2 ^ 8) ∷ []) else none
encode_loop (suc fuel) remaining =
    let rest = encode_loop fuel (remaining / 128) in
    if ltb remaining 128
    then some ((remaining % 2 ^ 8) ∷ [])
    else rest >>= λ more. some ((remaining % 128 % 2 ^ 8 + 128) ∷ more)

-- The bytes for a mask of the prefix and the flags above it.
encode_masked : ℕ → ℕ → ℕ → Option (List ℕ)
encode_masked mask flags value =
    if ltb value mask
    then some (bit_or flags (value % 2 ^ 8) ∷ [])
    else encode_loop 10 (value - mask) >>= λ more. some (bit_or mask flags ∷ more)

-- `none` is the panic of `assert!`. `!(0xFF << size) as u8` takes the complement of the low byte.
unfoldable pub encode_prefix : ℕ → ℕ → ℕ → Option (List ℕ)
unfolding encode_masked
encode_prefix size flags value =
    if ltb 0 size && leb size 8
    then encode_masked (0xFF - 0xFF * 2 ^ size % 2 ^ 8) (flags * 2 ^ size % 2 ^ 64 % 2 ^ 8) value
    else none
