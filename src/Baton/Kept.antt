-- ===== src/Baton/Kept.antt =====
-- What one end of the game keeps, whatever happens: each baton that it is to send comes from the start
-- or from a baton that it received, and each 0 that it received is counted.
pub mod Rounds
use webtransport_rs.Base.{
  ℕ, ◌+◌, ◌%◌, ◌≡◌, ◌≢◌, refl, List, [], ◌∷◌, Bool, ◌==◌, some, Option-cases, if◌then◌else◌,
  Outcome, ok, err, panic, ◌>>=◌, map_err, inl, inr, ◌⊎◌, arith,
}
use webtransport_rs.Base.Counting.{remove_at, sum, sum_append, sum-remove_at}
use webtransport_rs.Baton.{Error, session, Inbound, Outbound, Answers, send_baton}
use webtransport_rs.Baton.Run.{
  Run, Sending, send_uni, send_bi, send_reply, Event, sent, received, accepted_uni, accepted_bi,
  refused, closed, Log, send_task, receive_task, join, on_sent, on_received, reply, pass, select,
  select,
}

abbrev pub baton_of : {S : Type 0} → Sending S → ℕ
baton_of (send_uni baton) = baton
baton_of (send_bi baton) = baton
baton_of (send_reply send baton) = baton

abbrev pub one_if : Bool → ℕ
one_if b = if b then 1 else 0

abbrev pub offers : {S : Type 0} → ℕ → Sending S → ℕ
offers v task = one_if (baton_of task == v)

module _ {S R : Type 0} (v : ℕ) where
  -- How many tasks are to send the value `v`.
  abbrev pub waiting : Run S R → ℕ
  waiting s = sum (offers v) s.outbound

  abbrev pub sent_of : Log S R → ℕ
  sent_of (Log.sent baton source) = one_if (baton == v)
  sent_of (Log.received baton source) = 0

  abbrev pub received_of : Log S R → ℕ
  received_of (Log.sent baton source) = 0
  received_of (Log.received baton source) = one_if (baton == v)

  -- The batons received that are to go on as `v`.
  abbrev pub passed_of : Log S R → ℕ
  passed_of (Log.sent baton source) = 0
  passed_of (Log.received baton source) = if baton == 0 then 0 else one_if ((baton + 1) % 256 == v)

abbrev pub underflow {ℓ} : {C : Type 0} {A : Type ℓ} → Outcome (Error C) A → ℕ
underflow (ok a) = 0
underflow (err e) = 0
underflow panic = 1

-- The state behind a round; a round that ends the loop leaves the state in which it began.
abbrev pub behind : {C S R : Type 0} → Run S R → Outcome (Error C) (Run S R) → Run S R
behind s (ok s') = s'
behind s (err e) = s
behind s panic = s

module _ {C S R : Type 0} where
  pub record RoundKeeps (s : Run S R) (log : List (Log S R)) (next : Outcome (Error C) (Run S R))
      : Type 0 where
    pub batons :
        (v : ℕ)
        → sum (sent_of v) log + waiting v (behind s next) ≡ waiting v s + sum (passed_of v) log
    pub zeros : (behind s next).count + sum (received_of 0) log ≡ s.count + underflow next
    pub drained : (underflow next ≡ 0) ⊎ ((behind s next).count ≡ 0)
