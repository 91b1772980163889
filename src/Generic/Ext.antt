-- ===== src/Generic/Ext.antt =====
-- webtransport-generic/src/ext.rs: a future for each poll of the traits. A future borrows the object, and
-- the buffer; the object behind it is that of the state that a poll leaves.
use webtransport_rs.Base.{ℕ, Option, List, Outcome}
use webtransport_rs.Generic.{Polled, Session, SendStream, RecvStream}

pub record AcceptUni (Self : Type 0) : Type 0 where
  pub conn : Self

pub record AcceptBidi (Self : Type 0) : Type 0 where
  pub conn : Self

pub record OpenUni (Self : Type 0) : Type 0 where
  pub conn : Self

pub record OpenBidi (Self : Type 0) : Type 0 where
  pub conn : Self

module _ {A O Self : Type 0} (session : Session A O Self) where
  unfoldable pub poll_accept_uni :
      Polled A (AcceptUni Self) (Outcome session.Error session.RecvStream)
  poll_accept_uni cx this =
      let (answer, conn, cx') = session.poll_accept_uni cx this.conn in
      (answer, record { conn = conn }, cx')

  unfoldable pub poll_accept_bidi :
      Polled A (AcceptBidi Self) (Outcome session.Error (session.SendStream × session.RecvStream))
  poll_accept_bidi cx this =
      let (answer, conn, cx') = session.poll_accept_bidi cx this.conn in
      (answer, record { conn = conn }, cx')

  unfoldable pub poll_open_uni : Polled O (OpenUni Self) (Outcome session.Error session.SendStream)
  poll_open_uni cx this =
      let (answer, conn, cx') = session.poll_open_uni cx this.conn in
      (answer, record { conn = conn }, cx')

  unfoldable pub poll_open_bidi :
      Polled O (OpenBidi Self) (Outcome session.Error (session.SendStream × session.RecvStream))
  poll_open_bidi cx this =
      let (answer, conn, cx') = session.poll_open_bidi cx this.conn in
      (answer, record { conn = conn }, cx')

-- `SessionExt`, `SendStreamExt` and `RecvStreamExt`: the futures as they are made.
unfoldable pub accept_uni : {Self : Type 0} → Self → AcceptUni Self
accept_uni conn = record { conn = conn }

unfoldable pub accept_bidi : {Self : Type 0} → Self → AcceptBidi Self
accept_bidi conn = record { conn = conn }

unfoldable pub open_bidi : {Self : Type 0} → Self → OpenBidi Self
open_bidi conn = record { conn = conn }

unfoldable pub open_uni : {Self : Type 0} → Self → OpenUni Self
open_uni conn = record { conn = conn }

pub record SendBuf (Self : Type 0) : Type 0 where
  pub stream : Self
  pub buf : List ℕ

pub record Finish (Self : Type 0) : Type 0 where
  pub stream : Self

pub record Recv (Self : Type 0) : Type 0 where
  pub stream : Self
  pub buf : List ℕ

unfoldable pub send : {Self : Type 0} → Self → List ℕ → SendBuf Self
send stream buf = record { stream = stream; buf = buf }

unfoldable pub finish : {Self : Type 0} → Self → Finish Self
finish stream = record { stream = stream }

unfoldable pub recv : {Self : Type 0} → Self → List ℕ → Recv Self
recv stream buf = record { stream = stream; buf = buf }

module _ {T Self : Type 0} where
  unfoldable pub poll_send : (s : SendStream T Self) → Polled T (SendBuf Self) (Outcome s.Error ℕ)
  poll_send s cx this =
      let (answer, (stream, buf), cx') = s.poll_send cx (this.stream, this.buf) in
      (answer, record { stream = stream; buf = buf }, cx')

  unfoldable pub poll_finish :
      (s : SendStream T Self) → Polled T (Finish Self) (Outcome s.Error (Unit {0}))
  poll_finish s cx this =
      let (answer, stream, cx') = s.poll_finish cx this.stream in
      (answer, record { stream = stream }, cx')

  unfoldable pub poll_recv :
      (s : RecvStream T Self) → Polled T (Recv Self) (Outcome s.Error (Option ℕ))
  poll_recv s cx this =
      let (answer, (stream, buf), cx') = s.poll_recv cx (this.stream, this.buf) in
      (answer, record { stream = stream; buf = buf }, cx')
