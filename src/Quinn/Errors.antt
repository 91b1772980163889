-- ===== src/Quinn/Errors.antt =====
-- webtransport-quinn/src/error.rs: the errors of the crate, how those of quinn become such errors, and
-- the codes that the traits of webtransport-generic take out of them.
pub mod Codes
use webtransport_rs.Base.{ℕ, Option, none, some}
use mathlib.Core.Option
use webtransport_rs.Base.Panics.{◌>>=◌}
use webtransport_rs.ErrorCode.{error_from_http3}
use webtransport_rs.Quinn.QuinnCrate

-- An error that comes up while the header of a stream is read or written.
pub data WebTransportError (C : Type 0) : Type 0 where
  unknown_session : WebTransportError C
  read_error : QuinnCrate.ReadExactError C → WebTransportError C
  write_error : QuinnCrate.WriteError C → WebTransportError C

pub data SessionError (C : Type 0) : Type 0 where
  connection_error : C → SessionError C
  web_transport_error : WebTransportError C → SessionError C

pub data WriteError (C : Type 0) : Type 0 where
  stopped : ℕ → WriteError C
  invalid_stopped : ℕ → WriteError C
  session_error : SessionError C → WriteError C
  closed : WriteError C

pub data ReadError (C : Type 0) : Type 0 where
  session_error : SessionError C → ReadError C
  reset : ℕ → ReadError C
  invalid_reset : ℕ → ReadError C
  closed : ReadError C
  illegal_ordered_read : ReadError C

pub data ReadExactError (C : Type 0) : Type 0 where
  finished_early : ReadExactError C
  read_error : ReadError C → ReadExactError C

pub data ReadToEndError (C : Type 0) : Type 0 where
  too_long : ReadToEndError C
  read_error : ReadError C → ReadToEndError C

pub data StreamClosed : Type 0 where
  stream_closed : StreamClosed

pub data StoppedError (C : Type 0) : Type 0 where
  session_error : SessionError C → StoppedError C
  closed : StoppedError C

-- The match on the code: `valid` on what it stands for, `invalid` on any other.
abbrev pub with_code {ℓ} : {A : Type ℓ} → (ℕ → A) → (ℕ → A) → ℕ → Option A
with_code valid invalid code = do
  found ← error_from_http3 code
  elim found [ some c ↦ some (valid c) | none ↦ some (invalid code) ]

-- The implementations of `From`. `none` is a panic: that of `unreachable!("0-RTT not supported")`.
module _ {C : Type 0} where
  unfoldable pub from_write : QuinnCrate.WriteError C → Option (WriteError C)
  from_write (QuinnCrate.WriteError.stopped code) =
      with_code WriteError.stopped WriteError.invalid_stopped code
  from_write QuinnCrate.WriteError.unknown_stream = some WriteError.closed
  from_write (QuinnCrate.WriteError.connection_lost e) =
      some (WriteError.session_error (connection_error e))
  from_write QuinnCrate.WriteError.zero_rtt_rejected = none

  unfoldable pub from_read : QuinnCrate.ReadError C → Option (ReadError C)
  from_read (QuinnCrate.ReadError.reset code) =
      with_code ReadError.reset ReadError.invalid_reset code
  from_read (QuinnCrate.ReadError.connection_lost e) =
      some (ReadError.session_error (connection_error e))
  from_read QuinnCrate.ReadError.illegal_ordered_read = some ReadError.illegal_ordered_read
  from_read QuinnCrate.ReadError.unknown_stream = some ReadError.closed
  from_read QuinnCrate.ReadError.zero_rtt_rejected = none

  unfoldable pub from_read_exact : QuinnCrate.ReadExactError C → Option (ReadExactError C)
  from_read_exact QuinnCrate.ReadExactError.finished_early = some ReadExactError.finished_early
  from_read_exact (QuinnCrate.ReadExactError.read_error e) =
      Option.map ReadExactError.read_error (from_read e)

  unfoldable pub from_read_to_end : QuinnCrate.ReadToEndError C → Option (ReadToEndError C)
  from_read_to_end QuinnCrate.ReadToEndError.too_long = some ReadToEndError.too_long
  from_read_to_end (QuinnCrate.ReadToEndError.read e) =
      Option.map ReadToEndError.read_error (from_read e)

  unfoldable pub from_stopped : QuinnCrate.StoppedError C → Option (StoppedError C)
  from_stopped (QuinnCrate.StoppedError.connection_lost e) =
      some (StoppedError.session_error (connection_error e))
  from_stopped QuinnCrate.StoppedError.unknown_stream = some StoppedError.closed
  from_stopped QuinnCrate.StoppedError.zero_rtt_rejected = none

abbrev pub from_unknown : QuinnCrate.UnknownStream → StreamClosed
from_unknown e = stream_closed

-- The traits `SessionError` and `StreamError`. `application_code` is the code of
-- `ConnectionError::ApplicationClosed`, and `none` on all other errors of a connection. The outer
-- `none` of a result is a panic.
module _ {C : Type 0} (application_code : C → Option ℕ) where
  unfoldable pub session_code : SessionError C → Option (Option ℕ)
  session_code (connection_error e) = elim (application_code e) [
    | some code ↦ error_from_http3 code
    | none ↦ some none
  ]
  session_code (web_transport_error e) = some none

  unfoldable pub write_session_code : WriteError C → Option (Option ℕ)
  write_session_code (WriteError.session_error e) = session_code e
  write_session_code (WriteError.stopped code) = some none
  write_session_code (WriteError.invalid_stopped code) = some none
  write_session_code WriteError.closed = some none

  unfoldable pub read_session_code : ReadError C → Option (Option ℕ)
  read_session_code (ReadError.session_error e) = session_code e
  read_session_code (ReadError.reset code) = some none
  read_session_code (ReadError.invalid_reset code) = some none
  read_session_code ReadError.closed = some none
  read_session_code ReadError.illegal_ordered_read = some none

module _ {C : Type 0} where
  unfoldable pub write_stream_code : WriteError C → Option ℕ
  write_stream_code (WriteError.stopped code) = some code
  write_stream_code (WriteError.invalid_stopped code) = none
  write_stream_code (WriteError.session_error e) = none
  write_stream_code WriteError.closed = none

  unfoldable pub read_stream_code : ReadError C → Option ℕ
  read_stream_code (ReadError.reset code) = some code
  read_stream_code (ReadError.invalid_reset code) = none
  read_stream_code (ReadError.session_error e) = none
  read_stream_code ReadError.closed = none
  read_stream_code ReadError.illegal_ordered_read = none
