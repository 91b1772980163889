-- ===== src/Qpack/Headers.antt =====
-- `Headers` of qpack.rs: a map of fields, and its field section on the wire.
pub mod Encode
pub mod Lines
pub mod RoundTrip
pub mod Total
mod Runs
use webtransport_rs.Base.{
  ℕ, zero, suc, Bool, Option, none, some, List, [], ◌∷◌, length, ◌==◌, if◌then◌else◌, bit_and,
  Outcome, ok, err, panic, ◌>>=◌, map_err,
}
use webtransport_rs.HashMap
use webtransport_rs.HashMap.{HashMap, bytes_eq}
use webtransport_rs.Qpack.Error.{DecodeError, dynamic_entry, unknown_entry, invalid_utf8}
use webtransport_rs.Qpack.Prefix.{decode_prefix}
use webtransport_rs.Qpack.Text.{Bytes, from_utf8, decode_string}
use webtransport_rs.Qpack.StaticTable

abbrev pub Headers : Type 0
Headers = HashMap Bytes Bytes

unfoldable pub get : Headers → Bytes → Option Bytes
get headers name = HashMap.get headers name

unfoldable pub set : Headers → Bytes → Bytes → Headers
set headers name value = HashMap.insert headers name value

-- A line of the section: its name, its value, and what is left of the buffer.
abbrev pub Line : Type 0
Line = Outcome DecodeError (Bytes × Bytes × List ℕ)

unfoldable pub decode_index : List ℕ → Line
decode_index buf = do
  (_, index, rest) ← decode_prefix buf 6
  (name, value) ← StaticTable.get index
  ok (name, value, rest)

unfoldable pub decode_literal_value : List ℕ → Line
decode_literal_value buf = do
  (_, index, rest) ← decode_prefix buf 4
  (name, _) ← StaticTable.get index
  (value, rest') ← decode_string rest 8
  text ← map_err invalid_utf8 (from_utf8 value)
  ok (name, text, rest')

unfoldable pub decode_literal : List ℕ → Line
decode_literal buf = do
  (name, rest) ← decode_string buf 4
  name_text ← map_err invalid_utf8 (from_utf8 name)
  (value, rest') ← decode_string rest 8
  text ← map_err invalid_utf8 (from_utf8 value)
  ok (name_text, text, rest')

-- The three nested matches on the first byte, which each decoder reads again.
unfoldable pub decode_line : ℕ → List ℕ → Line
decode_line peek chain =
    if bit_and peek 0b1100_0000 == 0b1100_0000
    then decode_index chain
    else if bit_and peek 0b1100_0000 == 0b1000_0000
    then err dynamic_entry
    else if bit_and peek 0b1101_0000 == 0b0101_0000
    then decode_literal_value chain
    else if bit_and peek 0b1101_0000 == 0b0100_0000
    then err dynamic_entry
    else if bit_and peek 0b1110_0000 == 0b0010_0000
    then decode_literal chain
    else if bit_and peek 0b1111_0000 == 0b0001_0000
    then err dynamic_entry
    else if bit_and peek 0b1111_0000 == 0b0000_0000
    then err dynamic_entry
    else err unknown_entry

-- The loop over the lines. A line takes a byte at least, so the length of the buffer is enough fuel;
-- a loop that ran out of it would show as a panic.
unfoldable pub decode_lines : ℕ → Headers → List ℕ → Outcome DecodeError Headers
decode_lines fuel fields [] = ok fields
decode_lines zero fields (b ∷ bs) = panic
decode_lines (suc fuel) fields (b ∷ bs) = do
  (name, value, rest) ← decode_line b (b ∷ bs)
  decode_lines fuel (HashMap.insert fields name value) rest

-- The section is read to the end of the buffer.
unfoldable pub decode : List ℕ → Outcome DecodeError Headers
decode buf = do
  (_, _insert_count, buf) ← decode_prefix buf 8
  (_sign, _delta_base, buf) ← decode_prefix buf 7
  decode_lines (length buf) [] buf
