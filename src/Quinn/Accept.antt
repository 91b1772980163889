-- ===== src/Quinn/Accept.antt =====
-- `SessionAccept` of webtransport-quinn/src/session.rs: the loops that accept streams and read their
-- headers side by side. The runtime is the list of what happens, one `Turn` for a round of a loop.
pub mod Polling
pub mod InOrder
pub mod Conserved
pub mod Fair
pub mod FairBi
mod Runs
use webtransport_rs.Base.{
  ℕ, zero, suc, Option, none, some, List, [], ◌∷◌, ◌++◌, ◌==◌, if◌then◌else◌, Outcome, ok, err,
  panic,
}
use webtransport_rs.Base.Counting.{remove_at}
use webtransport_rs.StreamUni
use webtransport_rs.StreamUni.{StreamUni}
use webtransport_rs.VarInt.{VarInt}
use webtransport_rs.Quinn.Errors.{SessionError, connection_error}
use webtransport_rs.Quinn.StreamHeader.{RecvStream, decode_uni, decode_bi}
use Polling.{Poll, ready, pending, poll_rounds}

-- A future that reads a header is the stream that it reads from. The settings and the CONNECT stream,
-- which are only kept open, are left out, and so is the sending half of a bidirectional stream.
pub record SessionAccept (C : Type 0) : Type 0 where
  pub session_id : VarInt
  pub qpack_encoder : Option (RecvStream C)
  pub qpack_decoder : Option (RecvStream C)
  pub pending_uni : List (RecvStream C)
  pub pending_bi : List (RecvStream C)

unfoldable pub new : {C : Type 0} → VarInt → SessionAccept C
new session_id = record {
  session_id = session_id;
  qpack_encoder = none;
  qpack_decoder = none;
  pending_uni = [];
  pending_bi = [];
}

-- What a round finds: a stream of the connection; the loss of the connection; no stream, but the
-- header of the pending stream at an index has been read, or its reading has failed; or nothing.
pub data Turn (C : Type 0) : Type 0 where
  accepted : RecvStream C → Turn C
  lost : C → Turn C
  decoded : ℕ → Turn C
  idle : Turn C

module _ {C : Type 0} where
  -- The match on the type of a stream whose header has been read. `none` is another round.
  unfoldable pub finish_uni :
      Outcome (SessionError C) (StreamUni × RecvStream C)
      → SessionAccept C
      → Option (Poll (Outcome (SessionError C) (RecvStream C))) × SessionAccept C
  finish_uni (ok (typ, recv)) s =
      if typ == StreamUni.webtransport
      then (some (ready (ok recv)), s)
      else if typ == StreamUni.qpack_decoder
      then (none, record s { qpack_decoder = some recv })
      else if typ == StreamUni.qpack_encoder
      then (none, record s { qpack_encoder = some recv })
      else (none, s)
  finish_uni (err e) s = (some (ready (err e)), s)
  finish_uni panic s = (some (ready panic), s)

  unfoldable pub round_uni :
      Turn C
      → SessionAccept C
      → Option (Poll (Outcome (SessionError C) (RecvStream C))) × SessionAccept C
  unfolding remove_at finish_uni
  round_uni (accepted recv) s = (none, record s { pending_uni = s.pending_uni ++ recv ∷ [] })
  round_uni (lost e) s = (some (ready (err (connection_error e))), s)
  round_uni (decoded i) s = elim (remove_at i s.pending_uni) [
    | none ↦ (some pending, s)
    | some (recv, left) ↦
        finish_uni (decode_uni recv s.session_id) (record s { pending_uni = left })
  ]
  round_uni idle s = (some pending, s)

  -- A stream of another type is ignored.
  unfoldable pub finish_bi :
      Outcome (SessionError C) (Option (RecvStream C))
      → SessionAccept C
      → Option (Poll (Outcome (SessionError C) (RecvStream C))) × SessionAccept C
  finish_bi (ok (some recv)) s = (some (ready (ok recv)), s)
  finish_bi (ok none) s = (none, s)
  finish_bi (err e) s = (some (ready (err e)), s)
  finish_bi panic s = (some (ready panic), s)

  unfoldable pub round_bi :
      Turn C
      → SessionAccept C
      → Option (Poll (Outcome (SessionError C) (RecvStream C))) × SessionAccept C
  unfolding remove_at finish_bi
  round_bi (accepted recv) s = (none, record s { pending_bi = s.pending_bi ++ recv ∷ [] })
  round_bi (lost e) s = (some (ready (err (connection_error e))), s)
  round_bi (decoded i) s = elim (remove_at i s.pending_bi) [
    | none ↦ (some pending, s)
    | some (recv, left) ↦ finish_bi (decode_bi recv s.session_id) (record s { pending_bi = left })
  ]
  round_bi idle s = (some pending, s)

  -- The result of a poll: the answer, the state, and the turns that are still to come.
  unfoldable pub poll_accept_uni :
      List (Turn C)
      → SessionAccept C
      → Poll (Outcome (SessionError C) (RecvStream C)) × SessionAccept C × List (Turn C)
  poll_accept_uni = poll_rounds round_uni

  unfoldable pub poll_accept_bi :
      List (Turn C)
      → SessionAccept C
      → Poll (Outcome (SessionError C) (RecvStream C)) × SessionAccept C × List (Turn C)
  poll_accept_bi = poll_rounds round_bi
