-- ===== src/Quinn/Session/Calls.antt =====
-- The calls of a `Session`. What quinn answers is an argument.
use webtransport_rs.Base.{
  ℕ, zero, suc, Option, none, some, List, length, Outcome, ok, err, panic, ◌>>=◌, map_err,
}
use mathlib.Core.Option
use webtransport_rs.ErrorCode.{error_to_http3}
use webtransport_rs.Quinn.QuinnCrate
use webtransport_rs.Quinn.Errors.{SessionError, connection_error, web_transport_error}
use webtransport_rs.Quinn.Errors.WebTransportError.{write_error}
use webtransport_rs.Quinn.StreamHeader.{RecvStream}
use webtransport_rs.Quinn.Accept.{Turn, poll_accept_uni, poll_accept_bi}
use webtransport_rs.Quinn.Accept.Polling.{Poll, ready, pending}
use webtransport_rs.Quinn.Session.{Session}

-- `poll_fn(..).await`: a poll is repeated until it is ready, here as long as there are turns to come;
-- `none` is a call that still waits then. `n` is fuel: the number of turns is enough.
unfoldable pub awaited {ℓ κ μ} :
    {T : Type ℓ} {S : Type κ} {A : Type μ}
    → (List T → S → Poll A × S × List T)
    → ℕ
    → List T
    → S
    → Option A × S × List T
awaited poll zero ts s = (none, s, ts)
awaited poll (suc n) ts s =
    let (answer, s', ts') = poll ts s in
    let later = awaited poll n ts' s' in
    elim answer [ ready a ↦ (some a, s', ts') | pending ↦ later ]

-- The code that quinn's `close` is called with; `none` is a panic of `try_into().unwrap()`, where
-- `try_from` is quinn's.
unfoldable pub close : (ℕ → Option ℕ) → ℕ → Option ℕ
close try_from code = try_from (error_to_http3 code)

module _ {C : Type 0} where
  unfoldable pub accept_uni :
      List (Turn C)
      → Session C
      → Option (Outcome (SessionError C) (RecvStream C)) × Session C × List (Turn C)
  accept_uni ts s =
      let (answer, accept, ts') = awaited poll_accept_uni (length ts) ts s.accept in
      (answer, record s { accept = accept }, ts')

  unfoldable pub accept_bi :
      List (Turn C)
      → Session C
      → Option (Outcome (SessionError C) (RecvStream C)) × Session C × List (Turn C)
  accept_bi ts s =
      let (answer, accept, ts') = awaited poll_accept_bi (length ts) ts s.accept in
      (answer, record s { accept = accept }, ts')

  -- By the answer of `write_all`.
  unfoldable pub write_full :
      Outcome (QuinnCrate.WriteError C) (Unit {0}) → Outcome (SessionError C) (Unit {0})
  write_full (ok done) = ok done
  write_full (err (QuinnCrate.WriteError.connection_lost e)) = err (connection_error e)
  write_full (err (QuinnCrate.WriteError.stopped code)) =
      err (web_transport_error (write_error (QuinnCrate.WriteError.stopped code)))
  write_full (err QuinnCrate.WriteError.unknown_stream) =
      err (web_transport_error (write_error QuinnCrate.WriteError.unknown_stream))
  write_full (err QuinnCrate.WriteError.zero_rtt_rejected) =
      err (web_transport_error (write_error QuinnCrate.WriteError.zero_rtt_rejected))
  write_full panic = panic

  -- `opened` is the answer of quinn's `open_uni`. The result is the bytes that stand on the stream.
  unfoldable pub open_uni :
      Outcome C (Unit {0})
      → (List ℕ → Outcome (QuinnCrate.WriteError C) (Unit {0}))
      → Session C
      → Outcome (SessionError C) (List ℕ)
  open_uni opened write_all s = do
    _ ← map_err connection_error opened
    _ ← write_full (write_all s.header_uni)
    ok s.header_uni

  unfoldable pub open_bi :
      Outcome C (Unit {0})
      → (List ℕ → Outcome (QuinnCrate.WriteError C) (Unit {0}))
      → Session C
      → Outcome (SessionError C) (List ℕ)
  open_bi opened write_all s = do
    _ ← map_err connection_error opened
    _ ← write_full (write_all s.header_bi)
    ok s.header_bi

  abbrev pub closed : C → SessionError C
  closed e = connection_error e

  abbrev pub close_reason : Option C → Option (SessionError C)
  close_reason reason = Option.map connection_error reason
