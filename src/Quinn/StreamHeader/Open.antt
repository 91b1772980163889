-- ===== src/Quinn/StreamHeader/Open.antt =====
-- The bytes that session.rs writes in front of a stream that it opens.
use webtransport_rs.Base.{ℕ, Option, some, List, ◌++◌}
use webtransport_rs.Base.Panics.{◌>>=◌}
use webtransport_rs.Frame
use webtransport_rs.StreamUni
use webtransport_rs.VarInt
use webtransport_rs.VarInt.{VarInt}

-- `header_uni` and `header_bi` of `Session::new`.
unfoldable pub header_uni : VarInt → Option (List ℕ)
header_uni session_id = do
  typ ← StreamUni.encode StreamUni.webtransport
  id ← VarInt.encode session_id
  some (typ ++ id)

unfoldable pub header_bi : VarInt → Option (List ℕ)
header_bi session_id = do
  typ ← Frame.encode Frame.webtransport
  id ← VarInt.encode session_id
  some (typ ++ id)
