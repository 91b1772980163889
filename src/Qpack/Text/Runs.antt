-- ===== src/Qpack/Text/Runs.antt =====
-- Runs of the reader of strings.
use webtransport_rs.Huffman.Bits.{bits}
use webtransport_rs.Huffman.Padding.{ones}
use webtransport_rs.Huffman.Code.{code}
use webtransport_rs.Huffman.Coded.{coded}
use webtransport_rs.Qpack.Prefix.{encode_prefix}
use webtransport_rs.Qpack.Text.Coded.{decode_string-coded}
use webtransport_rs.Base.{ℕ, some, List, ◌++◌, arith, ◌≡◌, refl, [], ◌∷◌, ok, true, false}
use webtransport_rs.Huffman.Window.{forwards, opposite_bit_window, read_bits}
use webtransport_rs.Huffman.Tree.{hpack_decode, decode_next, fetch_value, check_eof}
use webtransport_rs.Qpack.Prefix.{decode_prefix}
use webtransport_rs.Qpack.Text.{codes, decode_string, is_utf8}

decode_plain : decode_string (2 ∷ b'h' ∷ b'i' ∷ 9 ∷ []) 8 ≡ ok (codes "hi", 9 ∷ [])
unfolding decode_string decode_prefix
decode_plain = refl

decode_coded :
    decode_string (0x86 ∷ 0xa8 ∷ 0xeb ∷ 0x10 ∷ 0x64 ∷ 0x9c ∷ 0xbf ∷ []) 8
    ≡ ok (codes "no-cache", [])
unfolding decode_string decode_prefix hpack_decode decode_next fetch_value check_eof forwards
    opposite_bit_window read_bits
decode_coded = refl

utf8_runs : (is_utf8 [] (0xE2 ∷ 0x82 ∷ 0xAC ∷ []) ≡ true) × (is_utf8 [] (0xC0 ∷ 0x80 ∷ []) ≡ false)
unfolding is_utf8
utf8_runs = (refl, refl)

abbrev no_cache_bytes : List ℕ
no_cache_bytes = 0xa8 ∷ 0xeb ∷ 0x10 ∷ 0x64 ∷ 0x9c ∷ 0xbf ∷ []

no_cache_bits : bits no_cache_bytes ≡ coded (codes "no-cache") ++ ones 5
unfolding code
no_cache_bits = refl

decode_string-coded_example :
    (front : List ℕ) × (encode_prefix 7 1 6 ≡ some front)
    × (decode_string (front ++ (no_cache_bytes ++ 9 ∷ [])) 8 ≡ ok (codes "no-cache", 9 ∷ []))
decode_string-coded_example =
    decode_string-coded (codes "no-cache") no_cache_bytes 5 (omega arith) (omega arith)
      (omega arith) no_cache_bits (omega arith) 8 1 (9 ∷ []) (omega arith) (omega arith)
      (omega arith) refl
