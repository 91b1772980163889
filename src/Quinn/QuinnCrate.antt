-- ===== src/Quinn/QuinnCrate.antt =====
-- The errors of the crate quinn that the code matches on. `C` is `quinn::ConnectionError`; a code is
-- the u64 of a `quinn::VarInt`.
use webtransport_rs.Base.{ℕ}

pub data ReadError (C : Type 0) : Type 0 where
  reset : ℕ → ReadError C
  connection_lost : C → ReadError C
  illegal_ordered_read : ReadError C
  unknown_stream : ReadError C
  zero_rtt_rejected : ReadError C

pub data ReadExactError (C : Type 0) : Type 0 where
  finished_early : ReadExactError C
  read_error : ReadError C → ReadExactError C

pub data ReadToEndError (C : Type 0) : Type 0 where
  too_long : ReadToEndError C
  read : ReadError C → ReadToEndError C

pub data WriteError (C : Type 0) : Type 0 where
  stopped : ℕ → WriteError C
  connection_lost : C → WriteError C
  unknown_stream : WriteError C
  zero_rtt_rejected : WriteError C

pub data StoppedError (C : Type 0) : Type 0 where
  connection_lost : C → StoppedError C
  unknown_stream : StoppedError C
  zero_rtt_rejected : StoppedError C

pub data UnknownStream : Type 0 where
  unknown_stream : UnknownStream
