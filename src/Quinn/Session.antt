-- ===== src/Quinn/Session.antt =====
-- `Session` of webtransport-quinn/src/session.rs, as it is made. `C` is quinn's error of a connection.
pub mod Calls
pub mod Awaited
pub mod PollOpen
pub mod Peers
pub mod PeersBi
mod Runs
use webtransport_rs.Base.{ℕ, Option, some, List}
use webtransport_rs.Base.Panics.{◌>>=◌}
use webtransport_rs.Quinn.ConnectStream.{session_id}
use webtransport_rs.Quinn.StreamHeader.Open
use webtransport_rs.Quinn.Accept
use webtransport_rs.Quinn.Accept.{SessionAccept}

-- The connection is left out: each call takes quinn's answer.
pub record Session (C : Type 0) : Type 0 where
  pub accept : SessionAccept C
  pub header_uni : List ℕ
  pub header_bi : List ℕ

-- By the ID of the CONNECT stream. `none` is a panic.
unfoldable pub new : {C : Type 0} → ℕ → Option (Session C)
new stream_id = do
  id ← session_id stream_id
  uni ← Open.header_uni id
  bi ← Open.header_bi id
  some (record { accept = Accept.new id; header_uni = uni; header_bi = bi })
