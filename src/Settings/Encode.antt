-- ===== src/Settings/Encode.antt =====
-- The sending side of settings.rs: what is put into the map, and how the map is written.
use webtransport_rs.Base.{ℕ, ◌%◌, ◌^◌, Option, some, List, [], ◌∷◌, ◌++◌, length}
use webtransport_rs.Base.Panics.{◌>>=◌}
use webtransport_rs.HashMap
use webtransport_rs.HashMap.{HashMap, nat_eq}
use webtransport_rs.VarInt
use webtransport_rs.VarInt.{VarInt}
use webtransport_rs.Frame
use webtransport_rs.StreamUni
use webtransport_rs.Settings.{Settings}
use webtransport_rs.Settings.Ids
use webtransport_rs.Settings.Ids.{
  Setting, enable_connect_protocol, enable_datagram, enable_datagram_deprecated,
  webtransport_enable_deprecated, webtransport_max_sessions_deprecated, webtransport_max_sessions,
}

-- The loop that fills the temporary buffer, over the entries in the order of the iteration.
unfoldable pub encode_entries : List (Setting × VarInt) → Option (List ℕ)
encode_entries [] = some []
encode_entries ((id, value) ∷ entries) = do
  key ← Ids.encode id
  val ← VarInt.encode value
  rest ← encode_entries entries
  some (key ++ (val ++ rest))

-- `iter` is the iteration over the map, whose order the standard library leaves open.
unfoldable pub encode : (Settings → List (Setting × VarInt)) → Settings → Option (List ℕ)
unfolding encode_entries
encode iter settings = do
  typ ← StreamUni.encode StreamUni.control
  frame ← Frame.encode Frame.settings
  tmp ← encode_entries (iter settings)
  size ← VarInt.encode (VarInt.from_u32 (length tmp % 2 ^ 32))
  some (typ ++ (frame ++ (size ++ tmp)))

unfoldable pub enable_webtransport : Settings → ℕ → Settings
enable_webtransport settings max_sessions =
    let max = VarInt.from_u32 max_sessions in
    let s = HashMap.insert settings enable_connect_protocol (VarInt.from_u32 1) in
    let s = HashMap.insert s enable_datagram (VarInt.from_u32 1) in
    let s = HashMap.insert s enable_datagram_deprecated (VarInt.from_u32 1) in
    let s = HashMap.insert s webtransport_max_sessions max in
    let s = HashMap.insert s webtransport_max_sessions_deprecated max in
    HashMap.insert s webtransport_enable_deprecated (VarInt.from_u32 1)
