-- ===== src/Qpack/Text.antt =====
-- Texts as the bytes of their UTF-8, `str::from_utf8`, and `decode_string` of qpack.rs.
pub mod RoundTrip
pub mod Total
pub mod Coded
mod Runs
use Prim.Native.Char.{code}
use Prim.Native.String.{String}
use webtransport_rs.Base.{
  ℕ, ◌+◌, ◌-◌, ◌*◌, ◌&&◌, Bool, true, false, Option, none, some, List, [], ◌∷◌, length, take, drop,
  ltb, leb, ◌==◌, if◌then◌else◌, bit_and, Outcome, ok, err, panic, ◌>>=◌, map_err,
}
use webtransport_rs.Huffman.Window.{new}
use webtransport_rs.Huffman.Tree.{hpack_decode}
use webtransport_rs.Qpack.Error.{DecodeError, unexpected_end, huffman_error, Utf8Error, utf8_error}
use webtransport_rs.Qpack.Prefix.{decode_prefix}

abbrev pub Bytes : Type 0
Bytes = List ℕ

-- The bytes of an ASCII literal.
abbrev pub codes : String → Bytes
codes String.[] = []
codes (String.◌∷◌ c s) = code c ∷ codes s

-- The ranges that must follow a first byte (Unicode, table 3-7), or `none` for no first byte.
utf8_lead : ℕ → Option (List (ℕ × ℕ))
utf8_lead b =
    let tail : ℕ × ℕ = (0x80, 0xBF) in
    if ltb b 0x80
    then some []
    else if leb 0xC2 b && leb b 0xDF
    then some (tail ∷ [])
    else if b == 0xE0
    then some ((0xA0, 0xBF) ∷ tail ∷ [])
    else if b == 0xED
    then some ((0x80, 0x9F) ∷ tail ∷ [])
    else if leb 0xE1 b && leb b 0xEF
    then some (tail ∷ tail ∷ [])
    else if b == 0xF0
    then some ((0x90, 0xBF) ∷ tail ∷ tail ∷ [])
    else if leb 0xF1 b && leb b 0xF3
    then some (tail ∷ tail ∷ tail ∷ [])
    else if b == 0xF4
    then some ((0x80, 0x8F) ∷ tail ∷ tail ∷ [])
    else none

-- `pending` holds the ranges that the next bytes must lie in.
unfoldable pub is_utf8 : List (ℕ × ℕ) → Bytes → Bool
unfolding utf8_lead
is_utf8 [] [] = true
is_utf8 (r ∷ pending) [] = false
is_utf8 [] (b ∷ bs) = elim (utf8_lead b) [ none ↦ false | some pending ↦ is_utf8 pending bs ]
is_utf8 ((lo, hi) ∷ pending) (b ∷ bs) = leb lo b && leb b hi && is_utf8 pending bs

unfoldable pub from_utf8 : Bytes → Outcome Utf8Error Bytes
from_utf8 bs = if is_utf8 [] bs then ok bs else err utf8_error

-- The payload, plain or in the Huffman code. The iterator has fuel for a byte in every five bits.
decode_payload : ℕ → Bytes → Outcome DecodeError Bytes
decode_payload flags payload =
    if bit_and flags 1 == 0
    then ok payload
    else map_err huffman_error (hpack_decode (2 * length payload + 1) new payload)

-- The test of `remaining`, and `copy_to_bytes`.
pub take_payload : ℕ × ℕ × List ℕ → Outcome DecodeError (Bytes × List ℕ)
take_payload (flags, len, rest) =
    if ltb (length rest) len
    then err unexpected_end
    else decode_payload flags (take len rest) >>= λ value. ok (value, drop len rest)

unfoldable pub decode_string : List ℕ → ℕ → Outcome DecodeError (Bytes × List ℕ)
unfolding take_payload decode_payload
decode_string [] size = err unexpected_end
decode_string (b ∷ bs) size = decode_prefix (b ∷ bs) (size - 1) >>= take_payload
