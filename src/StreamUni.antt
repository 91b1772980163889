-- ===== src/StreamUni.antt =====
-- webtransport-proto/src/stream.rs: the type at the start of a unidirectional stream. A `StreamUni`
-- is the VarInt in it.
use webtransport_rs.Base.{
  ◌≡◌, refl, >>=-pair, ℕ, ◌-◌, ◌%◌, Bool, false, List, Option, ltb, ◌==◌, if◌then◌else◌, Outcome,
  ok, ◌>>=◌,
}
use webtransport_rs.VarInt
use webtransport_rs.VarInt.{VarInt, VarIntUnexpectedEnd}

abbrev pub StreamUni : Type 0
StreamUni = VarInt

unfoldable pub decode : List ℕ → Outcome VarIntUnexpectedEnd (StreamUni × List ℕ)
decode buf = do (value, rest) ← VarInt.decode buf; ok (value, rest)

unfoldable pub encode : StreamUni → Option (List ℕ)
encode stream = VarInt.encode stream

unfoldable pub is_reserved : StreamUni → Bool
is_reserved stream = if ltb stream 0x21 then false else (stream - 0x21) % 0x1f == 0

-- The macro `streams_uni!`.
abbrev pub control : StreamUni
control = VarInt.from_u32 0x00

abbrev pub push : StreamUni
push = VarInt.from_u32 0x01

abbrev pub qpack_encoder : StreamUni
qpack_encoder = VarInt.from_u32 0x02

abbrev pub qpack_decoder : StreamUni
qpack_decoder = VarInt.from_u32 0x03

abbrev pub webtransport : StreamUni
webtransport = VarInt.from_u32 0x54

pub decode_lem : (buf : List ℕ) → decode buf ≡ VarInt.decode buf
unfolding decode
decode_lem buf = >>=-pair (VarInt.decode buf)

pub encode_lem : (x : StreamUni) → encode x ≡ VarInt.encode x
unfolding encode
encode_lem x = refl
