-- ===== src/VarInt/Runs.antt =====
-- Runs of the codec on concrete inputs, among them those of RFC 9000, A.1.
use webtransport_rs.Base.{◌≡◌, refl, ℕ, ◌≤◌, ◌+◌, ◌++◌, List, arith, [], ◌∷◌, some, ok}
use webtransport_rs.VarInt.{encode, decode}
use webtransport_rs.VarInt.RoundTrip.{decode-encode}
use webtransport_rs.VarInt.Bounds.{decode-Decodes, Decodes, encode_shortest}

encode_two : encode 15293 ≡ some (0x7b ∷ 0xbd ∷ [])
unfolding encode
encode_two = refl

decode_four : decode (0x9d ∷ 0x7f ∷ 0x3e ∷ 0x7d ∷ 1 ∷ []) ≡ ok (494_878_333, 1 ∷ [])
unfolding decode
decode_four = refl

encode_eight :
    encode 151_288_809_941_952_652
    ≡ some (0xc2 ∷ 0x19 ∷ 0x7c ∷ 0x5e ∷ 0xff ∷ 0x14 ∷ 0xe8 ∷ 0x8c ∷ [])
unfolding encode
encode_eight = refl

decode-encode_example :
    (bs : List ℕ) × (encode 15293 ≡ some bs) × (decode (bs ++ 7 ∷ []) ≡ ok (15293, 7 ∷ []))
decode-encode_example = decode-encode 15293 (7 ∷ []) (omega arith)

decode-Decodes_example : Decodes (0x9d ∷ 0x7f ∷ 0x3e ∷ 0x7d ∷ 1 ∷ []) 494_878_333 (1 ∷ [])
decode-Decodes_example =
    decode-Decodes (0x9d ∷ 0x7f ∷ 0x3e ∷ 0x7d ∷ 1 ∷ []) 494_878_333 (1 ∷ []) (omega arith)
      decode_four

-- 37 on two bytes, which `encode` never writes.
decode_padded : decode (0x40 ∷ 0x25 ∷ []) ≡ ok (37, [])
unfolding decode
decode_padded = refl

encode_short : encode 37 ≡ some (0x25 ∷ [])
unfolding encode
encode_short = refl

encode_shortest_example : 1 + 0 ≤ 2
encode_shortest_example =
    encode_shortest (0x40 ∷ 0x25 ∷ []) [] (0x25 ∷ []) 37 (omega arith) decode_padded encode_short
