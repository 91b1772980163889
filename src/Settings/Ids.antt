-- ===== src/Settings/Ids.antt =====
-- The identifiers of settings.rs, and their codec. A `Setting` is the VarInt in it.
use webtransport_rs.Base.{◌≡◌, refl, >>=-pair, ℕ, List, Option, Outcome, ok, ◌>>=◌}
use webtransport_rs.VarInt
use webtransport_rs.VarInt.{VarInt, VarIntUnexpectedEnd}

abbrev pub Setting : Type 0
Setting = VarInt

unfoldable pub decode : List ℕ → Outcome VarIntUnexpectedEnd (Setting × List ℕ)
decode buf = do (value, rest) ← VarInt.decode buf; ok (value, rest)

unfoldable pub encode : Setting → Option (List ℕ)
encode id = VarInt.encode id

-- The macro `settings!`.
abbrev pub qpack_max_table_capacity : Setting
qpack_max_table_capacity = VarInt.from_u32 0x1

abbrev pub max_field_section_size : Setting
max_field_section_size = VarInt.from_u32 0x6

abbrev pub qpack_blocked_streams : Setting
qpack_blocked_streams = VarInt.from_u32 0x7

abbrev pub enable_connect_protocol : Setting
enable_connect_protocol = VarInt.from_u32 0x8

abbrev pub enable_datagram : Setting
enable_datagram = VarInt.from_u32 0x33

abbrev pub enable_datagram_deprecated : Setting
enable_datagram_deprecated = VarInt.from_u32 0xFFD277

abbrev pub webtransport_enable_deprecated : Setting
webtransport_enable_deprecated = VarInt.from_u32 0x2b603742

abbrev pub webtransport_max_sessions_deprecated : Setting
webtransport_max_sessions_deprecated = VarInt.from_u32 0x2b603743

abbrev pub webtransport_max_sessions : Setting
webtransport_max_sessions = VarInt.from_u32 0xc671706a

pub decode_lem : (buf : List ℕ) → decode buf ≡ VarInt.decode buf
unfolding decode
decode_lem buf = >>=-pair (VarInt.decode buf)

pub encode_lem : (x : Setting) → encode x ≡ VarInt.encode x
unfolding encode
encode_lem x = refl
