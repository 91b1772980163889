-- ===== src/Huffman/Runs.antt =====
-- Runs of the decoder, on strings of RFC 7541, C.4.
use webtransport_rs.Base.{ℕ, ◌+◌, ◌*◌, ◌≡◌, refl, List, [], ◌∷◌, ◌++◌, ok, arith}
use webtransport_rs.Huffman.Bits.{bits}
use webtransport_rs.Huffman.Padding.{ones}
use webtransport_rs.Huffman.Code.{code}
use webtransport_rs.Huffman.Coded.{coded, hpack_decode-coded}
use webtransport_rs.Huffman.Window.{new, forwards, opposite_bit_window, read_bits}
use webtransport_rs.Huffman.Tree.{hpack_decode, decode_next, fetch_value, check_eof}

-- "no-cache"
no_cache :
    hpack_decode 12 new (0xa8 ∷ 0xeb ∷ 0x10 ∷ 0x64 ∷ 0x9c ∷ 0xbf ∷ [])
    ≡ ok (b'n' ∷ b'o' ∷ b'-' ∷ b'c' ∷ b'a' ∷ b'c' ∷ b'h' ∷ b'e' ∷ [])
unfolding hpack_decode decode_next fetch_value check_eof forwards opposite_bit_window read_bits
no_cache = refl

abbrev no_cache_bytes : List ℕ
no_cache_bytes = 0xa8 ∷ 0xeb ∷ 0x10 ∷ 0x64 ∷ 0x9c ∷ 0xbf ∷ []

abbrev no_cache_text : List ℕ
no_cache_text = b'n' ∷ b'o' ∷ b'-' ∷ b'c' ∷ b'a' ∷ b'c' ∷ b'h' ∷ b'e' ∷ []

-- Five ones stand behind the codes.
no_cache_bits : bits no_cache_bytes ≡ coded no_cache_text ++ ones 5
unfolding code
no_cache_bits = refl

hpack_decode-coded_example : hpack_decode (2 * 6 + 1) new no_cache_bytes ≡ ok no_cache_text
hpack_decode-coded_example =
    hpack_decode-coded no_cache_bytes (omega arith) (omega arith) no_cache_text 5 (omega arith)
      no_cache_bits (omega arith)
