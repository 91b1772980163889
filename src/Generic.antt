-- ===== src/Generic.antt =====
-- webtransport-generic/src/lib.rs: the traits of a WebTransport session and its streams, each a record of
-- the operations of a type `Self`. A poll gets the list of what happens from then on, as its context, and
-- leaves what it did not take; `T`, `A` and `O` are what can happen.
pub mod Ext
pub mod Quinn
pub mod Streams
pub mod Awaits
mod Runs
use webtransport_rs.Base.{ℕ, Option, List, Outcome}
use webtransport_rs.Quinn.Accept.Polling.{Poll}

abbrev pub Polled : Type 0 → Type 0 → Type 0 → Type 0
Polled T Self Output = List T → Self → Poll Output × Self × List T

-- The outer `none` of a code is a panic.
pub record SessionError (Self : Type 0) : Type 0 where
  pub session_error : Self → Option (Option ℕ)

pub record StreamError (Self : Type 0) : Type 0 where
  pub is_session : SessionError Self
  pub stream_error : Self → Option ℕ

-- `A` happens while a poll accepts, `O` while one opens a stream. `close` may panic.
pub record Session (A O Self : Type 0) : Type 1 where
  pub SendStream : Type 0
  pub RecvStream : Type 0
  pub Error : Type 0
  pub error : SessionError Error
  pub poll_accept_uni : Polled A Self (Outcome Error RecvStream)
  pub poll_accept_bidi : Polled A Self (Outcome Error (SendStream × RecvStream))
  pub poll_open_bidi : Polled O Self (Outcome Error (SendStream × RecvStream))
  pub poll_open_uni : Polled O Self (Outcome Error SendStream)
  pub close : ℕ → List ℕ → Self → Option Self

-- The polls of `Buf` and `BufMut` also change the buffer. `reset`, `set_priority` and `stop` may panic;
-- the i32 of a priority is its bit pattern.
pub record SendStream (T Self : Type 0) : Type 1 where
  pub Error : Type 0
  pub error : StreamError Error
  pub poll_send : Polled T (Self × List ℕ) (Outcome Error ℕ)
  pub poll_finish : Polled T Self (Outcome Error (Unit {0}))
  pub reset : ℕ → Self → Option Self
  pub set_priority : ℕ → Self → Option Self

pub record RecvStream (T Self : Type 0) : Type 1 where
  pub Error : Type 0
  pub error : StreamError Error
  pub poll_recv : Polled T (Self × List ℕ) (Outcome Error (Option ℕ))
  pub stop : ℕ → Self → Option Self
