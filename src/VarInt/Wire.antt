-- ===== src/VarInt/Wire.antt =====
-- What `encode` puts on the wire, in plain arithmetic (RFC 9000, 16): the number with the tag above.
use webtransport_rs.Base.{
  ℕ, ◌+◌, ◌/◌, ◌%◌, ◌^◌, ◌≤◌, ◌<◌, ◌≡◌, refl, bit_and, some, List, ◌++◌, ltb, if◌then◌else◌, length,
  ok, arith, All, IsByte,
}
use webtransport_rs.Base.Bits.{or_field, and_mask}
use webtransport_rs.VarInt.{VarInt, IsVarInt, encode, decode}
use webtransport_rs.VarInt.Bytes.{to_be_bytes, length-to_be_bytes, to_be_bytes-IsByte}

unfoldable pub wire : VarInt → List ℕ
wire x =
    if ltb x (2 ^ 6)
    then to_be_bytes 1 x
    else if ltb x (2 ^ 14)
    then to_be_bytes 2 (2 ^ 14 + x)
    else if ltb x (2 ^ 30)
    then to_be_bytes 4 (2 ^ 31 + x)
    else to_be_bytes 8 (2 ^ 63 + 2 ^ 62 + x)

pub encode-wire : (x : VarInt) → IsVarInt x → encode x ≡ some (wire x)
unfolding encode wire
encode-wire x h =
    ground (arith, or_field 14 1 (x % 2 ^ 16), or_field 30 2 (x % 2 ^ 32), or_field 62 3 x)

pub wire-IsByte : (x : VarInt) → All IsByte (wire x)
unfolding wire
wire-IsByte x = ground (
  arith,
  to_be_bytes-IsByte 1 x,
  to_be_bytes-IsByte 2 (2 ^ 14 + x),
  to_be_bytes-IsByte 4 (2 ^ 31 + x),
  to_be_bytes-IsByte 8 (2 ^ 63 + 2 ^ 62 + x),
)

-- The first byte without its tag.
low_six : (b : ℕ) → bit_and b 0b0011_1111 ≡ b % 64
low_six b = and_mask 6 b 63 refl

decode-one : (x : ℕ) (rest : List ℕ) → x < 2 ^ 6 → decode (to_be_bytes 1 x ++ rest) ≡ ok (x, rest)
unfolding decode to_be_bytes
decode-one x rest h = ground (arith, low_six (x % 256))

decode-two :
    (x : ℕ) (rest : List ℕ)
    → x < 2 ^ 14
    → decode (to_be_bytes 2 (2 ^ 14 + x) ++ rest) ≡ ok (x, rest)
unfolding decode to_be_bytes
decode-two x rest h = ground (arith, low_six ((2 ^ 14 + x) / 256 % 256))

decode-four :
    (x : ℕ) (rest : List ℕ)
    → x < 2 ^ 30
    → decode (to_be_bytes 4 (2 ^ 31 + x) ++ rest) ≡ ok (x, rest)
unfolding decode to_be_bytes
decode-four x rest h = ground (arith, low_six ((2 ^ 31 + x) / 256 / 256 / 256 % 256))

decode-eight :
    (x : ℕ) (rest : List ℕ)
    → x < 2 ^ 62
    → decode (to_be_bytes 8 (2 ^ 63 + 2 ^ 62 + x) ++ rest) ≡ ok (x, rest)
unfolding decode to_be_bytes
decode-eight x rest h =
    ground (arith, low_six ((2 ^ 63 + 2 ^ 62 + x) / 256 / 256 / 256 / 256 / 256 / 256 / 256 % 256))

-- `decode` reads what is on the wire, and leaves what follows.
pub decode-wire : (x : VarInt) (rest : List ℕ) → IsVarInt x → decode (wire x ++ rest) ≡ ok (x, rest)
unfolding wire
decode-wire x rest h =
    ground (arith, decode-one x rest, decode-two x rest, decode-four x rest, decode-eight x rest)

pub length-wire : (x : VarInt) → (1 ≤ length (wire x)) × (length (wire x) ≤ 8)
unfolding wire
length-wire x = ground (
  arith,
  length-to_be_bytes 1 x,
  length-to_be_bytes 2 (2 ^ 14 + x),
  length-to_be_bytes 4 (2 ^ 31 + x),
  length-to_be_bytes 8 (2 ^ 63 + 2 ^ 62 + x),
)

pub wire_unique : (x : VarInt) (bs : List ℕ) → IsVarInt x → encode x ≡ some bs → wire x ≡ bs
wire_unique x bs h e = cc (encode-wire x h)
