-- ===== src/Frame.antt =====
-- webtransport-proto/src/frame.rs: the type at the start of a bidirectional stream. A `Frame` is the
-- VarInt in it.
use webtransport_rs.Base.{◌≡◌, refl, >>=-pair, ℕ, List, Option, Outcome, ok, ◌>>=◌}
use webtransport_rs.VarInt
use webtransport_rs.VarInt.{VarInt, VarIntUnexpectedEnd}

abbrev pub Frame : Type 0
Frame = VarInt

unfoldable pub decode : List ℕ → Outcome VarIntUnexpectedEnd (Frame × List ℕ)
decode buf = do (value, rest) ← VarInt.decode buf; ok (value, rest)

unfoldable pub encode : Frame → Option (List ℕ)
encode frame = VarInt.encode frame

-- The macro `frames!`.
abbrev pub data_frame : Frame
data_frame = VarInt.from_u32 0x00

abbrev pub headers : Frame
headers = VarInt.from_u32 0x01

abbrev pub settings : Frame
settings = VarInt.from_u32 0x04

abbrev pub webtransport : Frame
webtransport = VarInt.from_u32 0x41

pub decode_lem : (buf : List ℕ) → decode buf ≡ VarInt.decode buf
unfolding decode
decode_lem buf = >>=-pair (VarInt.decode buf)

pub encode_lem : (x : Frame) → encode x ≡ VarInt.encode x
unfolding encode
encode_lem x = refl
