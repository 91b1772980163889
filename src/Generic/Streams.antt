-- ===== src/Generic/Streams.antt =====
-- The traits of webtransport-generic for the streams of webtransport-quinn/src/stream.rs. `H` is quinn's
-- stream, and its calls are parameters.
use webtransport_rs.Base.{ℕ, Option, none, some, List, [], ◌∷◌, Outcome, ok, err, panic}
use webtransport_rs.Generic
use webtransport_rs.Generic.Quinn.{write_error, read_error}
use webtransport_rs.Quinn.QuinnCrate
use webtransport_rs.Quinn.QuinnCrate.{UnknownStream}
use webtransport_rs.Quinn.Errors.{WriteError, ReadError}
use webtransport_rs.Quinn.Accept.Polling.{Poll, ready, pending}
use webtransport_rs.Quinn.Streams.SendStream
use webtransport_rs.Quinn.Streams.RecvStream

-- `.ok()`: an error is dropped, a panic is not.
abbrev pub dropped {ℓ κ} : {E : Type ℓ} {A : Type κ} {S : Type 0} → S → Outcome E A → Option S
dropped s (ok a) = some s
dropped s (err e) = some s
dropped s panic = none

abbrev pub polled {ℓ} : {A : Type ℓ} → Option A → Poll A
polled none = pending
polled (some a) = ready a

-- What quinn answers on the stream: to a poll of `write`, and to `poll_finish`.
pub record Sends (C : Type 0) : Type 0 where
  pub write : List ℕ → Option (Outcome (QuinnCrate.WriteError C) ℕ)
  pub finish : Option (Outcome (QuinnCrate.WriteError C) (Unit {0}))

module _ {C H : Type 0} where
  -- `chunk` is `Buf::chunk`.
  unfoldable pub poll_send :
      (List ℕ → List ℕ) → Generic.Polled (Sends C) (H × List ℕ) (Outcome (WriteError C) ℕ)
  poll_send chunk [] this = (pending, this, [])
  poll_send chunk (a ∷ cx) (stream, buf) =
      let (buf', answer) = SendStream.poll_send chunk a.write buf in
      (polled answer, (stream, buf'), cx)

  unfoldable pub poll_finish : Generic.Polled (Sends C) H (Outcome (WriteError C) (Unit {0}))
  poll_finish [] stream = (pending, stream, [])
  poll_finish (a ∷ cx) stream = elim a.finish [
    | none ↦ (pending, stream, cx)
    | some res ↦ (ready (SendStream.write res), stream, cx)
  ]

  -- `room` is `BufMut::remaining_mut`, and the context what quinn answers to the polls of `read_chunk`.
  unfoldable pub poll_recv :
      (List ℕ → ℕ)
      → Generic.Polled
          (ℕ → Option (Outcome (QuinnCrate.ReadError C) (Option (List ℕ))))
          (H × List ℕ)
          (Outcome (ReadError C) (Option ℕ))
  poll_recv room [] this = (pending, this, [])
  poll_recv room (inner ∷ cx) (stream, buf) =
      let (buf', answer) = RecvStream.poll_recv inner (room buf) buf in
      (polled answer, (stream, buf'), cx)

-- `call` is quinn's `reset`, `stop` or `set_priority`.
module _ {H : Type 0} (call : H → ℕ → Outcome UnknownStream (Unit {0})) where
  unfoldable pub reset : (ℕ → Option ℕ) → ℕ → H → Option H
  reset try_from code stream = dropped stream (SendStream.reset try_from (call stream) code)

  unfoldable pub stop : (ℕ → Option ℕ) → ℕ → H → Option H
  stop try_from code stream = dropped stream (RecvStream.stop try_from (call stream) code)

  unfoldable pub set_priority : ℕ → H → Option H
  set_priority order stream = dropped stream (SendStream.priority (call stream order))

module _ {C H : Type 0} (application_code : C → Option ℕ) (try_from : ℕ → Option ℕ)
    (call : H → ℕ → Outcome UnknownStream (Unit {0})) where
  abbrev pub quinn_recv :
      (List ℕ → ℕ)
      → Generic.RecvStream (ℕ → Option (Outcome (QuinnCrate.ReadError C) (Option (List ℕ)))) H
  quinn_recv room = record {
    Error = ReadError C;
    error = read_error application_code;
    poll_recv = poll_recv room;
    stop = stop call try_from;
  }

  abbrev pub quinn_send :
      (List ℕ → List ℕ)
      → (H → ℕ → Outcome UnknownStream (Unit {0}))
      → Generic.SendStream (Sends C) H
  quinn_send chunk priority_call = record {
    Error = WriteError C;
    error = write_error application_code;
    poll_send = poll_send chunk;
    poll_finish = poll_finish;
    reset = reset call try_from;
    set_priority = set_priority priority_call;
  }
