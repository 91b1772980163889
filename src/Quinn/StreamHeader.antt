-- ===== src/Quinn/StreamHeader.antt =====
-- The headers of webtransport-quinn/src/session.rs: the bytes in front of each stream of a session, and
-- how they are read. `C` is quinn's error of a connection.
pub mod Open
pub mod Laws
mod Runs
use webtransport_rs.Base.{
  ℕ, ◌-◌, ◌/◌, ◌^◌, Option, none, some, List, [], ◌∷◌, ◌++◌, length, take, drop, ltb, ◌==◌,
  if◌then◌else◌, Outcome, ok, err, panic, ◌>>=◌,
}
use mathlib.Core.Bool.{not}
use webtransport_rs.Frame
use webtransport_rs.StreamUni
use webtransport_rs.StreamUni.{StreamUni}
use webtransport_rs.VarInt
use webtransport_rs.VarInt.{VarInt}
use webtransport_rs.Quinn.QuinnCrate.{ReadError, ReadExactError, finished_early}
use webtransport_rs.Quinn.QuinnCrate.ReadError.{
  reset, connection_lost, illegal_ordered_read, unknown_stream, zero_rtt_rejected,
}
use webtransport_rs.Quinn.Errors.{
  WebTransportError, SessionError, unknown_session, connection_error, web_transport_error,
}
use webtransport_rs.Quinn.Errors.WebTransportError.{read_error}

-- A stream to read: the bytes that arrive on it, and how it ends behind them.
pub record RecvStream (C : Type 0) : Type 0 where
  pub bytes : List ℕ
  pub ends : ReadExactError C

-- `buf[0]`: the buffer holds one byte at least.
abbrev pub first_byte : List ℕ → ℕ
first_byte [] = 0
first_byte (b ∷ bs) = b

module _ {C : Type 0} where
  -- The errors that `read_full` makes of those of `read_exact`.
  abbrev pub read_failure : ReadExactError C → SessionError C
  read_failure finished_early = web_transport_error (read_error finished_early)
  read_failure (ReadExactError.read_error (connection_lost e)) = connection_error e
  read_failure (ReadExactError.read_error (reset code)) =
      web_transport_error (read_error (ReadExactError.read_error (reset code)))
  read_failure (ReadExactError.read_error illegal_ordered_read) =
      web_transport_error (read_error (ReadExactError.read_error illegal_ordered_read))
  read_failure (ReadExactError.read_error unknown_stream) =
      web_transport_error (read_error (ReadExactError.read_error unknown_stream))
  read_failure (ReadExactError.read_error zero_rtt_rejected) =
      web_transport_error (read_error (ReadExactError.read_error zero_rtt_rejected))

  unfoldable pub read_full : RecvStream C → ℕ → Outcome (SessionError C) (List ℕ × RecvStream C)
  read_full recv n =
      if ltb (length recv.bytes) n
      then err (read_failure recv.ends)
      else ok (take n recv.bytes, record { bytes = drop n recv.bytes; ends = recv.ends })

  -- `VarInt::decode(..).unwrap()`.
  abbrev unwrap_decode : List ℕ → RecvStream C → Outcome (SessionError C) (VarInt × RecvStream C)
  unwrap_decode buf recv = elim (VarInt.decode buf) [
    | ok (v, left) ↦ ok (v, recv)
    | err e ↦ panic
    | panic ↦ panic
  ]

  unfoldable pub read_varint : RecvStream C → Outcome (SessionError C) (VarInt × RecvStream C)
  read_varint recv = do
    (first, recv) ← read_full recv 1
    let size = 2 ^ (first_byte first / 2 ^ 6)
    (tail, recv) ← read_full recv (size - 1)
    unwrap_decode (first ++ tail) recv

  -- The session ID, read and validated: both decoders do it.
  unfoldable pub check_session : RecvStream C → VarInt → Outcome (SessionError C) (RecvStream C)
  check_session recv expected_session = do
    (session_id, recv) ← read_varint recv
    if not (session_id == expected_session)
        then err (web_transport_error unknown_session)
        else ok recv

  unfoldable pub decode_uni :
      RecvStream C → VarInt → Outcome (SessionError C) (StreamUni × RecvStream C)
  decode_uni recv expected_session = do
    (typ, recv) ← read_varint recv
    if typ == StreamUni.webtransport
        then (check_session recv expected_session >>= λ recv. ok (typ, recv))
        else ok (typ, recv)

  -- The answer `None` is a stream to ignore.
  unfoldable pub decode_bi :
      RecvStream C → VarInt → Outcome (SessionError C) (Option (RecvStream C))
  decode_bi recv expected_session = do
    (typ, recv) ← read_varint recv
    if not (typ == Frame.webtransport)
        then ok none
        else check_session recv expected_session >>= λ recv. ok (some recv)
