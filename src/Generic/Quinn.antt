-- ===== src/Generic/Quinn.antt =====
-- The traits of webtransport-generic for the types of webtransport-quinn, in session.rs, stream.rs and
-- error.rs.
use webtransport_rs.Base.{ℕ, ◌+◌, Option, some, List, [], ◌∷◌, Outcome, ok, ◌>>=◌}
use mathlib.Core.Option
use webtransport_rs.Generic
use webtransport_rs.Generic.{SessionError, StreamError}
use webtransport_rs.Quinn.Errors
use webtransport_rs.Quinn.Errors.{
  WriteError, ReadError, session_code, write_session_code, read_session_code, write_stream_code,
  read_stream_code,
}
use webtransport_rs.Quinn.StreamHeader.{RecvStream}
use webtransport_rs.Quinn.Accept.{Turn, SessionAccept}
use webtransport_rs.Quinn.Accept
use webtransport_rs.Quinn.Accept.Polling.{Poll, ready, pending}
use webtransport_rs.Quinn.Session.{Session}
use webtransport_rs.Quinn.Session.Calls.{close}
use webtransport_rs.Quinn.Session.PollOpen.{Answered}
use webtransport_rs.Quinn.Session.PollOpen

-- A session with its connection: how many streams it has opened, and how it was closed.
pub record Endpoint (C : Type 0) : Type 0 where
  pub session : Session C
  pub opened : ℕ
  pub closed : Option (ℕ × List ℕ)

module _ {C : Type 0} where
  abbrev pub with_accept : Endpoint C → SessionAccept C → Endpoint C
  with_accept e accept = record e { session = record e.session { accept = accept } }

  unfoldable pub poll_accept_uni :
      Generic.Polled (Turn C) (Endpoint C) (Outcome (Errors.SessionError C) (RecvStream C))
  poll_accept_uni cx e =
      let (answer, accept, cx') = Accept.poll_accept_uni cx e.session.accept in
      (answer, with_accept e accept, cx')

  -- A sending half is the bytes that stand on it: none on an accepted stream.
  abbrev pub with_sending :
      Poll (Outcome (Errors.SessionError C) (RecvStream C))
      → Poll (Outcome (Errors.SessionError C) (List ℕ × RecvStream C))
  with_sending (ready res) = ready (res >>= λ recv. ok ([], recv))
  with_sending pending = pending

  unfoldable pub poll_accept_bidi :
      Generic.Polled (Turn C) (Endpoint C) (Outcome (Errors.SessionError C) (List ℕ × RecvStream C))
  poll_accept_bidi cx e =
      let (answer, accept, cx') = Accept.poll_accept_bi cx e.session.accept in
      (with_sending answer, with_accept e accept, cx')

  -- One answer of quinn for each poll, with the receiving half of a bidirectional stream.
  unfoldable pub poll_open_uni :
      Generic.Polled
        (Answered C × RecvStream C)
        (Endpoint C)
        (Outcome (Errors.SessionError C) (List ℕ))
  poll_open_uni [] e = (pending, e, [])
  poll_open_uni ((a, recv) ∷ cx) e =
      let (answer, n) = PollOpen.poll_open_uni a e.session in
      (answer, record e { opened = e.opened + n }, cx)

  abbrev pub with_receiving :
      RecvStream C
      → Poll (Outcome (Errors.SessionError C) (List ℕ))
      → Poll (Outcome (Errors.SessionError C) (List ℕ × RecvStream C))
  with_receiving recv (ready res) = ready (res >>= λ header. ok (header, recv))
  with_receiving recv pending = pending

  unfoldable pub poll_open_bidi :
      Generic.Polled
        (Answered C × RecvStream C)
        (Endpoint C)
        (Outcome (Errors.SessionError C) (List ℕ × RecvStream C))
  poll_open_bidi [] e = (pending, e, [])
  poll_open_bidi ((a, recv) ∷ cx) e =
      let (answer, n) = PollOpen.poll_open_bidi a e.session in
      (with_receiving recv answer, record e { opened = e.opened + n }, cx)

unfoldable pub close_session :
    {C : Type 0} → (ℕ → Option ℕ) → ℕ → List ℕ → Endpoint C → Option (Endpoint C)
close_session try_from code reason e =
    Option.map (λ code. record e { closed = some (code, reason) }) (close try_from code)

module _ {C : Type 0} (application_code : C → Option ℕ) where
  abbrev pub session_error : SessionError (Errors.SessionError C)
  session_error = record { session_error = session_code application_code }

  abbrev pub write_error : StreamError (WriteError C)
  write_error = record {
    is_session = record { session_error = write_session_code application_code };
    stream_error = write_stream_code;
  }

  abbrev pub read_error : StreamError (ReadError C)
  read_error = record {
    is_session = record { session_error = read_session_code application_code };
    stream_error = read_stream_code;
  }

  abbrev pub quinn_session :
      (ℕ → Option ℕ) → Generic.Session (Turn C) (Answered C × RecvStream C) (Endpoint C)
  quinn_session try_from = record {
    SendStream = List ℕ;
    RecvStream = RecvStream C;
    Error = Errors.SessionError C;
    error = session_error;
    poll_accept_uni = poll_accept_uni;
    poll_accept_bidi = poll_accept_bidi;
    poll_open_bidi = poll_open_bidi;
    poll_open_uni = poll_open_uni;
    close = close_session try_from;
  }
