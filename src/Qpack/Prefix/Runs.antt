-- ===== src/Qpack/Prefix/Runs.antt =====
-- Runs of the integer codec, on the examples of RFC 7541, C.1.
use webtransport_rs.Base.{ℕ, List, ◌++◌, ◌≡◌, refl, [], ◌∷◌, some, ok, panic, arith}
use webtransport_rs.Qpack.Prefix.RoundTrip.{decode_prefix-encode_prefix}
use webtransport_rs.Qpack.Prefix.{encode_prefix, encode_loop, decode_prefix, decode_loop}

encode_ten : encode_prefix 5 0 10 ≡ some (10 ∷ [])
unfolding encode_prefix
encode_ten = refl

encode_1337 : encode_prefix 5 0b101 1337 ≡ some (0b10111111 ∷ 154 ∷ 10 ∷ [])
unfolding encode_prefix encode_loop
encode_1337 = refl

decode_1337 : decode_prefix (0b10111111 ∷ 154 ∷ 10 ∷ 7 ∷ []) 5 ≡ ok (0b101, 1337, 7 ∷ [])
unfolding decode_prefix decode_loop
decode_1337 = refl

decode_prefix-encode_prefix_example :
    (bs : List ℕ) × (encode_prefix 5 0b101 1337 ≡ some bs)
    × (decode_prefix (bs ++ 7 ∷ []) 5 ≡ ok (0b101, 1337, 7 ∷ []))
decode_prefix-encode_prefix_example =
    decode_prefix-encode_prefix 5 0b101 1337 (7 ∷ []) (omega arith) (omega arith) (omega arith)
      (omega arith)

-- The tenth group can take the sum past 2 ^ 64, and the u8 0xFF cannot be shifted by 8.
decode_past :
    decode_prefix (255 ∷ 255 ∷ 255 ∷ 255 ∷ 255 ∷ 255 ∷ 255 ∷ 255 ∷ 255 ∷ 255 ∷ 1 ∷ []) 8 ≡ panic
unfolding decode_prefix decode_loop
decode_past = refl

decode_no_prefix : decode_prefix (0 ∷ []) 0 ≡ panic
unfolding decode_prefix
decode_no_prefix = refl
