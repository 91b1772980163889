-- ===== src/Huffman/Tree.antt =====
-- The walk down the tree of tables, and the iterator over the decoded bytes.
use webtransport_rs.Base.{
  ℕ, zero, suc, ◌+◌, ◌-◌, ◌*◌, ◌%◌, ◌^◌, Option, none, some, List, [], ◌∷◌, length, ltb, ◌==◌,
  if◌then◌else◌, bit_and, Outcome, ok, err, panic, ◌>>=◌,
}
use webtransport_rs.Huffman.Window.{
  BitWindow, forwards, opposite_bit_window, Error, missing_bits, unhandled, read_bits,
}
use webtransport_rs.Huffman.Table.Types.{
  HuffmanDecoder, decoder, DecodeValue, partial, sym, Values, nil, cons,
}
use webtransport_rs.Huffman.Table.Short.{hpack_string}

-- `((2u16 << (count - 1)) - 1) as u8`.
abbrev eof_filler : ℕ → ℕ
eof_filler count = (2 * 2 ^ (count - 1) - 1) % 2 ^ 8

-- The bits that are left on the last byte, from `side` on.
check_side : BitWindow → BitWindow → List ℕ → Outcome Error (Option ℕ)
check_side bit_pos side input = elim (read_bits input side.byte side.bit side.count) [
  | ok rest ↦
      let filler = eof_filler side.count in
      if bit_and rest filler == filler then ok none else err (missing_bits bit_pos)
  | err _ ↦ err (missing_bits side)
  | panic ↦ panic
]

unfoldable pub check_eof : BitWindow → List ℕ → Outcome Error (Option ℕ)
unfolding check_side
check_eof bit_pos input =
    let here = (bit_pos.byte + 1) % 2 ^ 32 in
    if ltb (length input) here
    then ok none
    else if here == length input
    then check_side bit_pos (opposite_bit_window bit_pos) input
    else err (missing_bits bit_pos)

unfoldable pub fetch_value : BitWindow → List ℕ → Outcome Error (Option ℕ)
fetch_value bit_pos input = elim (read_bits input bit_pos.byte bit_pos.bit bit_pos.count) [
  | ok value ↦ ok (some value)
  | err _ ↦ check_eof bit_pos input
  | panic ↦ panic
]

-- `decode_next` of a table, with the window that it leaves; `decode_at` is the rest of it behind
-- `fetch_value`: the value picks an entry, and the entry is a symbol or the next table.
unfoldable mutual
  pub decode_next : HuffmanDecoder → BitWindow → List ℕ → Outcome Error (Option ℕ × BitWindow)
  decode_next (decoder lookup table) bit_pos input =
      let w = forwards bit_pos lookup in
      elim (fetch_value w input) [
        | ok none ↦ ok (none, w)
        | ok (some value) ↦ decode_at table value value w input
        | err e ↦ err e
        | panic ↦ panic
      ]

  pub decode_at : Values → ℕ → ℕ → BitWindow → List ℕ → Outcome Error (Option ℕ × BitWindow)
  decode_at nil i value w input = err (unhandled w value)
  decode_at (cons v table) zero value w input = decode_value v w input
  decode_at (cons v table) (suc i) value w input = decode_at table i value w input

  pub decode_value : DecodeValue → BitWindow → List ℕ → Outcome Error (Option ℕ × BitWindow)
  decode_value (partial d) w input = decode_next d w input
  decode_value (sym x) w input = ok (some x, w)

-- The loop over `hpack_decode()` that collects the bytes. Each byte takes five bits at least, so twice
-- the length of the content is enough fuel; a loop that ran out of it would show as a panic.
unfoldable pub hpack_decode : ℕ → BitWindow → List ℕ → Outcome Error (List ℕ)
hpack_decode zero bit_pos content = panic
hpack_decode (suc fuel) bit_pos content = elim (decode_next hpack_string bit_pos content) [
  | ok (none, w) ↦ ok []
  | ok (some x, w) ↦ do more ← hpack_decode fuel w content; ok (x ∷ more)
  | err e ↦ err e
  | panic ↦ panic
]
