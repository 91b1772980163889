-- ===== src/VarInt.antt =====
-- webtransport-proto/src/varint.rs. A VarInt is the u64 in it. A buffer to read is the list of the
-- bytes left in it, and a buffer to write the list of the bytes put so far.
pub mod Bytes
pub mod Bounds
pub mod Wire
pub mod RoundTrip
pub mod Streaming
pub mod FirstByte
pub mod Conversions
mod Runs
use webtransport_rs.Base.{
  ℕ, zero, suc, ◌+◌, ◌-◌, ◌*◌, ◌/◌, ◌%◌, ◌^◌, ◌<◌, bit_and, bit_or, Option, none, some, List, [],
  ◌∷◌, ◌++◌, ltb, ◌==◌, if◌then◌else◌, length, take, drop, Outcome, ok, err, panic, ◌>>=◌,
}
use Bytes.{from_be_bytes, to_be_bytes}

abbrev pub VarInt : Type 0
VarInt = ℕ

-- The range that the type documents: the top two bits are free.
abbrev pub IsVarInt : VarInt → Type 0
IsVarInt x = x < 2 ^ 62

pub data VarIntBoundsExceeded : Type 0 where
  bounds_exceeded : VarIntBoundsExceeded

pub data VarIntUnexpectedEnd : Type 0 where
  unexpected_end : VarIntUnexpectedEnd

-- `VarInt::MAX` and `VarInt::MAX_SIZE`.
abbrev pub max : VarInt
max = 2 ^ 62 - 1

abbrev pub max_size : ℕ
max_size = 8

-- `x as u64` keeps a u32.
abbrev pub from_u32 : ℕ → VarInt
from_u32 x = x

unfoldable pub from_u64 : ℕ → Outcome VarIntBoundsExceeded VarInt
from_u64 x = if ltb x (2 ^ 62) then ok x else err bounds_exceeded

-- `TryFrom<u128>`: first the conversion to u64, then `from_u64`.
to_u64 : ℕ → Outcome VarIntBoundsExceeded ℕ
to_u64 x = if ltb x (2 ^ 64) then ok x else err bounds_exceeded

unfoldable pub try_from_u128 : ℕ → Outcome VarIntBoundsExceeded VarInt
unfolding to_u64 from_u64
try_from_u128 x = to_u64 x >>= from_u64

-- `none` is the panic of `unreachable!`.
unfoldable pub size : VarInt → Option ℕ
size x =
    if ltb x (2 ^ 6)
    then some 1
    else if ltb x (2 ^ 14)
    then some 2
    else if ltb x (2 ^ 30)
    then some 4
    else if ltb x (2 ^ 62)
    then some 8
    else none

-- One arm of the match: the test of `remaining`, `copy_to_slice` behind the first byte, and
-- `from_be_bytes`.
decode_word : ℕ → List ℕ → ℕ → Outcome VarIntUnexpectedEnd (VarInt × List ℕ)
decode_word first rest n =
    if ltb (length rest) n
    then err unexpected_end
    else ok (from_be_bytes (first ∷ take n rest), drop n rest)

-- The match on the tag: `first` is the first byte without its tag, `rest` what follows it.
decode_tag : ℕ → ℕ → List ℕ → Outcome VarIntUnexpectedEnd (VarInt × List ℕ)
unfolding decode_word
decode_tag tag first rest =
    if tag == 0b00
    then ok (first, rest)
    else if tag == 0b01
    then decode_word first rest 1
    else if tag == 0b10
    then decode_word first rest 3
    else if tag == 0b11
    then decode_word first rest 7
    else panic

unfoldable pub decode : List ℕ → Outcome VarIntUnexpectedEnd (VarInt × List ℕ)
unfolding decode_tag from_be_bytes
decode [] = err unexpected_end
decode (b ∷ rest) = decode_tag (b / 2 ^ 6) (bit_and b 0b0011_1111) rest

-- The bytes that `encode` puts; `none` is the panic of `unreachable!`.
unfoldable pub encode : VarInt → Option (List ℕ)
unfolding to_be_bytes
encode x =
    if ltb x (2 ^ 6)
    then some (to_be_bytes 1 x)
    else if ltb x (2 ^ 14)
    then some (to_be_bytes 2 (bit_or (0b01 * 2 ^ 14) (x % 2 ^ 16)))
    else if ltb x (2 ^ 30)
    then some (to_be_bytes 4 (bit_or (0b10 * 2 ^ 30) (x % 2 ^ 32)))
    else if ltb x (2 ^ 62)
    then some (to_be_bytes 8 (bit_or (0b11 * 2 ^ 62) x))
    else none
