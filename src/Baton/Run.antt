-- ===== src/Baton/Run.antt =====
-- `run` of baton/mod.rs. What happens is a list of events, one for each round of its loop, and any list
-- is a schedule; a task of a `JoinSet` is what its closure holds, and completes in its event.
use webtransport_rs.Base.{
  ℕ, zero, suc, ◌+◌, ◌%◌, ◌-◌, List, [], ◌∷◌, ◌++◌, Bool, true, false, ◌||◌, ltb, ◌==◌, Option,
  none, some, if◌then◌else◌, Outcome, ok, err, panic, ◌>>=◌, map_err,
}
use mathlib.Core.Bool.{not}
use webtransport_rs.Base.Counting.{remove_at}
use webtransport_rs.Quinn.Errors.{SessionError}
use webtransport_rs.Baton.{
  Error, session, join_error, Inbound, Outbound, Answers, send_baton, recv_baton,
}

-- The tasks of `outbound`: to send a baton on a new stream, or on the stream that it came from.
pub data Sending (S : Type 0) : Type 0 where
  send_uni : ℕ → Sending S
  send_bi : ℕ → Sending S
  send_reply : S → ℕ → Sending S

-- A task of `inbound` is the stream that it reads, and where that comes from.
pub record Run (S R : Type 0) : Type 0 where
  pub outbound : List (Sending S)
  pub inbound : List (R × Inbound S)
  pub count : ℕ

-- What `select!` finds: the task at an index has completed, with these answers; a stream of the peer, or
-- the error of `accept_uni` or `accept_bi`; the end of the session.
pub data Event (C S R : Type 0) : Type 0 where
  sent : ℕ → Answers C S R → Event C S R
  received : ℕ → Answers C S R → Event C S R
  accepted_uni : R → Event C S R
  accepted_bi : S → R → Event C S R
  refused : SessionError C → Event C S R
  closed : SessionError C → Event C S R

-- The lines that are logged.
pub data Log (S R : Type 0) : Type 0 where
  sent : ℕ → Outbound R → Log S R
  received : ℕ → Inbound S → Log S R

-- What is logged; the result, or `none` when nothing more happens; and the state in which the last
-- round began.
abbrev pub Trace : Type 0 → Type 0 → Type 0 → Type 0
Trace C S R = List (Log S R) × Option (Outcome (Error C) (Unit {0})) × Run S R

-- `res.unwrap()??`: a panic of the task is an error of `join_next`.
unfoldable pub join {ℓ} : {C : Type 0} {A : Type ℓ} → Outcome (Error C) A → Outcome (Error C) A
join (ok a) = ok a
join (err e) = err e
join panic = err join_error

unfoldable pub reply : {S : Type 0} → Inbound S → ℕ → Sending S
reply Inbound.uni baton = send_bi baton
reply Inbound.local_bi baton = send_uni baton
reply (Inbound.remote_bi send) baton = send_reply send baton

is_empty {ℓ} : {A : Type ℓ} → List A → Bool
is_empty [] = true
is_empty (x ∷ xs) = false

-- The condition of the loop.
unfoldable pub goes_on : {S R : Type 0} → Run S R → Bool
unfolding is_empty
goes_on s = ltb 0 s.count || not (is_empty s.outbound) || is_empty s.inbound

-- `for _ in 0..count`.
unfoldable pub initial : {S : Type 0} → ℕ → ℕ → List (Sending S)
initial zero baton = []
initial (suc n) baton = send_uni baton ∷ initial n baton

unfoldable pub start : {S R : Type 0} → Option ℕ → ℕ → Run S R
unfolding initial
start none count = record { outbound = []; inbound = []; count = count }
start (some init) count = record { outbound = initial count init; inbound = []; count = count }

module _ {C S R : Type 0} where
  unfoldable pub send_task : Answers C S R → Sending S → Outcome (Error C) (ℕ × Outbound R)
  send_task a (send_uni baton) = do
    send ← map_err session a.open_uni
    _ ← send_baton a send baton
    ok (baton, Outbound.uni)
  send_task a (send_bi baton) = do
    (send, recv) ← map_err session a.open_bi
    _ ← send_baton a send baton
    ok (baton, Outbound.local_bi recv)
  send_task a (send_reply send baton) = do
    _ ← send_baton a send baton
    ok (baton, Outbound.remote_bi)

  unfoldable pub receive_task : Answers C S R → R × Inbound S → Outcome (Error C) (ℕ × Inbound S)
  receive_task a (recv, source) = do baton ← recv_baton a recv; ok (baton, source)

  unfoldable pub on_sent :
      Run S R → Outcome (Error C) (ℕ × Outbound R) → List (Log S R) × Outcome (Error C) (Run S R)
  on_sent s (ok (baton, Outbound.uni)) = (Log.sent baton Outbound.uni ∷ [], ok s)
  on_sent s (ok (baton, Outbound.local_bi recv)) = (
    Log.sent baton (Outbound.local_bi recv) ∷ [],
    ok (record s { inbound = s.inbound ++ (recv, Inbound.local_bi) ∷ [] }),
  )
  on_sent s (ok (baton, Outbound.remote_bi)) = (Log.sent baton Outbound.remote_bi ∷ [], ok s)
  on_sent s (err e) = ([], err e)
  on_sent s panic = ([], panic)

  -- `count -= 1` panics on an underflow, as it does with overflow checks.
  unfoldable pub pass : Run S R → ℕ → Inbound S → Outcome (Error C) (Run S R)
  pass s baton source =
      if baton == 0
      then (if s.count == 0 then panic else ok (record s { count = s.count - 1 }))
      else ok (record s { outbound = s.outbound ++ reply source ((baton + 1) % 256) ∷ [] })

  unfoldable pub on_received :
      Run S R → Outcome (Error C) (ℕ × Inbound S) → List (Log S R) × Outcome (Error C) (Run S R)
  on_received s (ok (baton, source)) = (Log.received baton source ∷ [], pass s baton source)
  on_received s (err e) = ([], err e)
  on_received s panic = ([], panic)

  -- One round of `select!`. Where no task is at the index, the event does not happen.
  unfoldable pub select : Event C S R → Run S R → List (Log S R) × Outcome (Error C) (Run S R)
  unfolding remove_at
  select (sent i a) s = elim (remove_at i s.outbound) [
    | none ↦ ([], ok s)
    | some (task, left) ↦ on_sent (record s { outbound = left }) (join (send_task a task))
  ]
  select (received i a) s = elim (remove_at i s.inbound) [
    | none ↦ ([], ok s)
    | some (task, left) ↦ on_received (record s { inbound = left }) (join (receive_task a task))
  ]
  select (accepted_uni recv) s =
      ([], ok (record s { inbound = s.inbound ++ (recv, Inbound.uni) ∷ [] }))
  select (accepted_bi send recv) s =
      ([], ok (record s { inbound = s.inbound ++ (recv, Inbound.remote_bi send) ∷ [] }))
  select (refused e) s = ([], err (session e))
  select (closed e) s = ([], err (session e))

  -- Behind a round that began in the state `s`.
  unfoldable pub after :
      Run S R → List (Log S R) → Outcome (Error C) (Run S R) → (Run S R → Trace C S R) → Trace C S R
  after s log (ok s') later = let (more, result, last) = later s' in (log ++ more, result, last)
  after s log (err e) later = (log, some (err e), s)
  after s log panic later = (log, some panic, s)

  unfoldable pub rounds : List (Event C S R) → Run S R → Trace C S R
  unfolding goes_on after
  rounds [] s = ([], if goes_on s then none else some (ok tt), s)
  rounds (e ∷ es) s =
      if goes_on s then after s (select e s).0 (select e s).1 (rounds es) else ([], some (ok tt), s)

  unfoldable pub run : Option ℕ → ℕ → List (Event C S R) → Trace C S R
  run init count es = rounds es (start init count)
