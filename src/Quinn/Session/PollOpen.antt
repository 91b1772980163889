-- ===== src/Quinn/Session/PollOpen.antt =====
-- `poll_open_uni` and `poll_open_bidi` of the trait of webtransport-generic, in session.rs: each poll makes
-- a new future of `open_uni` or `open_bi`, polls it once and drops it.
use webtransport_rs.Base.{
  ℕ, ◌+◌, ◌≡◌, List, [], ◌∷◌, ◌++◌, length, Outcome, ok, err, panic, ◌>>=◌, arith, All,
}
use webtransport_rs.Quinn.QuinnCrate
use webtransport_rs.Quinn.Errors.{SessionError, connection_error}
use webtransport_rs.Quinn.Accept.Polling.{Poll, ready, pending}
use webtransport_rs.Quinn.Session.{Session}
use webtransport_rs.Quinn.Session.Calls.{write_full}

-- What quinn answers within one poll: to `open_uni` or `open_bi`, and to the `write_all` behind it.
pub record Answered (C : Type 0) : Type 0 where
  pub opened : Poll (Outcome C (Unit {0}))
  pub written : Poll (Outcome (QuinnCrate.WriteError C) (Unit {0}))

module _ {C : Type 0} where
  -- The future of `open_uni` or `open_bi`, polled once: its answer, the header on the stream, and how
  -- many streams were opened.
  abbrev pub poll_write :
      List ℕ
      → Poll (Outcome (QuinnCrate.WriteError C) (Unit {0}))
      → Poll (Outcome (SessionError C) (List ℕ)) × ℕ
  poll_write header pending = (pending, 1)
  poll_write header (ready res) = (ready (write_full res >>= λ _. ok header), 1)

  abbrev pub poll_open : List ℕ → Answered C → Poll (Outcome (SessionError C) (List ℕ)) × ℕ
  poll_open header a = elim a.opened [
    | pending ↦ (pending, 0)
    | ready (ok _) ↦ poll_write header a.written
    | ready (err e) ↦ (ready (err (connection_error e)), 0)
    | ready panic ↦ (ready panic, 0)
  ]

  unfoldable pub poll_open_uni :
      Answered C → Session C → Poll (Outcome (SessionError C) (List ℕ)) × ℕ
  poll_open_uni a s = poll_open s.header_uni a

  unfoldable pub poll_open_bidi :
      Answered C → Session C → Poll (Outcome (SessionError C) (List ℕ)) × ℕ
  poll_open_bidi a s = poll_open s.header_bi a

  -- A task that polls until it has an answer, and how many streams it opened.
  abbrev pub poll_until :
      (Answered C → Poll (Outcome (SessionError C) (List ℕ)) × ℕ)
      → List (Answered C)
      → Poll (Outcome (SessionError C) (List ℕ)) × ℕ
  poll_until poll [] = (pending, 0)
  poll_until poll (a ∷ more) =
      let (answer, n) = poll a in
      let (later, m) = poll_until poll more in
      elim answer [ ready r ↦ (ready r, n) | pending ↦ (later, n + m) ]

  -- A poll whose stream opens, but whose write has to wait.
  abbrev pub Blocked : Answered C → Type 0
  Blocked a = (a.opened ≡ ready (ok tt)) × (a.written ≡ pending)

  -- However often a write has to wait before a poll whose write succeeds, each of the polls opens a
  -- stream of its own, and just the last of them is returned.
  pub poll_open_uni-streams :
      (s : Session C) (waits : List (Answered C)) (last : Answered C)
      → All Blocked waits
      → last.opened ≡ ready (ok tt)
      → last.written ≡ ready (ok tt)
      → poll_until (λ a. poll_open_uni a s) (waits ++ last ∷ [])
        ≡ (ready (ok s.header_uni), length waits + 1)
  unfolding poll_open_uni write_full
  poll_open_uni-streams s [] last h o w = ground (arith, o, w)
  poll_open_uni-streams s (a ∷ waits) last h o w =
      let rest = poll_open_uni-streams s waits last h.1 o w in ground (arith, h.0.0, h.0.1, rest)
