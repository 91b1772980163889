-- ===== src/Qpack/Text/Coded.antt =====
-- A string in the Huffman code is read.
use webtransport_rs.Base.{
  ℕ, ◌-◌, ◌^◌, ◌≤◌, ◌<◌, ◌≡◌, ◌∙◌, refl, some, List, ◌++◌, length, length-append, All, IsByte,
  take-append, drop-append, bit_and, ok, arith, ltb, false, ◌==◌,
}
use webtransport_rs.Huffman.Bits.{bits}
use webtransport_rs.Huffman.Padding.{ones}
use webtransport_rs.Huffman.Coded.{coded, hpack_decode-coded}
use webtransport_rs.Qpack.Prefix.{encode_prefix}
use webtransport_rs.Qpack.Prefix.Wire.{prefix_wire, encode_prefix-wire}
use webtransport_rs.Qpack.Prefix.RoundTrip.{decode_prefix-wire}
use webtransport_rs.Qpack.Text.{Bytes, take_payload, decode_payload, decode_string}
use webtransport_rs.Qpack.Text.RoundTrip.{decode_string_lem}

module _ (text payload : Bytes) (k : ℕ) (bytes : All IsByte payload)
    (small : length payload < 2 ^ 28) (h : All IsByte text)
    (e : bits payload ≡ coded text ++ ones k) (short : k < 8) where
  take_payload-coded :
      (flags : ℕ) (rest : List ℕ)
      → bit_and flags 1 ≡ 1
      → take_payload (flags, length payload, payload ++ rest) ≡ ok (text, rest)
  unfolding take_payload decode_payload
  take_payload-coded flags rest marked =
      let enough : ltb (length (payload ++ rest)) (length payload) ≡ false =
        ground (arith, length-append payload rest) in
      let huffman : (bit_and flags 1 == 0) ≡ false = ground (arith, marked) in
      rw
        (
          enough,
          huffman,
          take-append payload rest,
          drop-append payload rest,
          hpack_decode-coded payload bytes small text k h e short,
        )
        refl

  -- A string whose payload, of fewer than 2 ^ 28 bytes, holds the codes of RFC 7541 for the bytes of a
  -- text and fewer than eight ones behind them, with the flag of the Huffman code set, and its length
  -- written by encode_prefix, is read as the text, and what follows is left.
  pub decode_string-coded :
      (size flags : ℕ) (rest : List ℕ)
      → 2 ≤ size
      → size ≤ 9
      → flags < 2 ^ (8 - (size - 1))
      → bit_and flags 1 ≡ 1
      → (front : List ℕ) × (encode_prefix (size - 1) flags (length payload) ≡ some front)
        × (decode_string (front ++ (payload ++ rest)) size ≡ ok (text, rest))
  decode_string-coded size flags rest hs hs9 hf marked = (
    prefix_wire (size - 1) flags (length payload),
    encode_prefix-wire (size - 1) flags (length payload) (omega arith) (omega arith) hf
        (omega arith),
    decode_string_lem _ size hs9
        ∙ rw
            (decode_prefix-wire (size - 1) flags (length payload) (payload ++ rest) (omega arith)
              (omega arith) hf (omega arith))
            (take_payload-coded flags rest marked),
  )
