-- ===== src/Baton/Play.antt =====
-- A game of one baton, played to the end by two ends whose calls all succeed.
use webtransport_rs.Base.{
  ℕ, zero, suc, ◌+◌, ◌-◌, ◌%◌, ◌≡◌, ◌<◌, refl, List, [], ◌∷◌, ◌++◌, none, ok, err, true,
  if◌then◌else◌, arith,
}
use webtransport_rs.HashMap.{bytes_beq, bytes_beq_iff}
use webtransport_rs.Quinn.Errors.{WriteError}
use webtransport_rs.Baton.{Inbound, Outbound, Answers, send_baton, recv_baton}
use webtransport_rs.Baton.Run.{
  Run, Sending, send_uni, send_bi, send_reply, Event, accepted_uni, accepted_bi, Log, Trace, select,
  rounds, goes_on, after, on_sent, on_received, pass, join, reply, send_task, receive_task,
}

-- How the baton is to be sent: the three ways take turns.
pub data Way : Type 0 where
  by_uni : Way
  by_bi : Way
  by_reply : Way

pub next : Way → Way
next by_uni = by_bi
next by_bi = by_reply
next by_reply = by_uni

-- The baton that is to be sent `k` times more after this.
abbrev pub baton : ℕ → ℕ
baton k = (256 - k) % 256

-- The counts that are left.
unfoldable pub counts : ℕ → ℕ × ℕ
counts zero = (1, 0)
counts (suc k) = ((counts k).1, (counts k).0)

-- The message of a baton.
abbrev pub message : ℕ → List ℕ
message b = 0 ∷ b ∷ []

same_message : (b : ℕ) → bytes_beq (message b) (message b) ≡ true
same_message b = ground (arith, bytes_beq_iff (message b) (message b))

module _ {S R : Type 0} (s : S) (r : R) where
  unfoldable pub task : Way → ℕ → Sending S
  task by_uni b = send_uni b
  task by_bi b = send_bi b
  task by_reply b = send_reply s b

  abbrev pub holding : ℕ → Way → Run S R
  holding k way = record { outbound = task way (baton k) ∷ []; inbound = []; count = 1 }

  unfoldable pub reading : Way → List (R × Inbound S)
  reading by_uni = []
  reading by_bi = []
  reading by_reply = (r, Inbound.local_bi) ∷ []

  abbrev pub idle : Way → Run S R
  idle way = record { outbound = []; inbound = reading way; count = 1 }

  pub sent_by : Way → Outbound R
  sent_by by_uni = Outbound.uni
  sent_by by_bi = Outbound.local_bi r
  sent_by by_reply = Outbound.remote_bi

  pub received_by : Way → Inbound S
  received_by by_uni = Inbound.uni
  received_by by_bi = Inbound.remote_bi s
  received_by by_reply = Inbound.local_bi

  unfoldable pub logs : ℕ → Way → List (Log S R) × List (Log S R)
  logs zero way = (Log.sent 0 (sent_by way) ∷ [], Log.received 0 (received_by way) ∷ [])
  logs (suc k) way =
      let (holder, other) = logs k (next way) in
      (
        Log.sent (baton (suc k)) (sent_by way) ∷ other,
        Log.received (baton (suc k)) (received_by way) ∷ holder,
      )

module _ {C S R : Type 0} (s : S) (r : R) where
  -- A session whose streams carry this message only: a write of other bytes fails, and a read finds it.
  unfoldable pub carries : ℕ → Answers C S R
  carries b = record {
    open_uni = ok s;
    open_bi = ok (s, r);
    write_all = λ send buf. if bytes_beq buf (message b) then ok tt else err WriteError.closed;
    finish = λ send. ok tt;
    read_to_end = λ recv limit. ok (message b);
  }

  pub accepts : Way → List (Event C S R) → List (Event C S R)
  accepts by_uni es = accepted_uni r ∷ es
  accepts by_bi es = accepted_bi s r ∷ es
  accepts by_reply es = es

  abbrev receives : ℕ → Event C S R
  receives b = Event.received 0 (carries b)

  abbrev sends : ℕ → Event C S R
  sends b = Event.sent 0 (carries b)

  -- The events at the end that has the baton, and at the other one.
  pub events : ℕ → Way → List (Event C S R) × List (Event C S R)
  events zero way = (sends 0 ∷ [], accepts way (receives 0 ∷ []))
  events (suc k) way =
      let (holder, other) = events k (next way) in
      (sends (baton (suc k)) ∷ other, accepts way (receives (baton (suc k)) ∷ holder))

  abbrev prepend : Log S R → Trace C S R → Trace C S R
  prepend l (log, result, last) = (l ∷ log, result, last)

  holder_step :
      (k : ℕ) (way : Way) (es : List (Event C S R))
      → rounds (sends (baton k) ∷ es) (holding s r k way)
        ≡ prepend (Log.sent (baton k) (sent_by s r way)) (rounds es (idle s r (next way)))
  unfolding rounds goes_on after select on_sent join send_task send_baton task sent_by reading next
      carries
  holder_step k by_uni es = rw (same_message (baton k)) refl
  holder_step k by_bi es = rw (same_message (baton k)) refl
  holder_step k by_reply es = rw (same_message (baton k)) refl

  pass-baton :
      (k : ℕ) (state : Run S R) (source : Inbound S)
      → k < 255
      → pass {C = C} state (baton (suc k)) source
        ≡ ok (record state { outbound = state.outbound ++ reply source (baton k) ∷ [] })
  unfolding pass
  pass-baton k state source h =
      let up : (baton (suc k) + 1) % 256 ≡ baton k = omega arith in
      let more : 0 < baton (suc k) = omega arith in ground arith

  other_step :
      (k : ℕ) (way : Way) (es : List (Event C S R))
      → k < 255
      → rounds (accepts way (receives (baton (suc k)) ∷ es)) (idle s r way)
        ≡ prepend
            (Log.received (baton (suc k)) (received_by s r way))
            (rounds es (holding s r k (next way)))
  unfolding rounds goes_on after select on_received reply join receive_task recv_baton accepts task
      received_by reading next carries
  other_step k by_uni es h =
      rw (pass-baton k (record { outbound = []; inbound = []; count = 1 }) Inbound.uni h) refl
  other_step k by_bi es h =
      rw (pass-baton k (record { outbound = []; inbound = []; count = 1 }) (Inbound.remote_bi s) h)
        refl
  other_step k by_reply es h =
      rw (pass-baton k (record { outbound = []; inbound = []; count = 1 }) Inbound.local_bi h) refl

  -- The end of the end that sent the 0, and of the one that received it.
  other_end :
      (way : Way)
      → rounds (accepts way (receives 0 ∷ [])) (idle s r way) ≡ (
        Log.received 0 (received_by s r way) ∷ [],
        none,
        record { outbound = []; inbound = []; count = 0 },
      )
  unfolding rounds goes_on after select on_received pass join receive_task recv_baton accepts
      received_by reading carries
  other_end by_uni = refl
  other_end by_bi = refl
  other_end by_reply = refl

  idle_end : (way : Way) → rounds {C = C} [] (idle s r way) ≡ ([], none, idle s r way)
  unfolding rounds goes_on
  idle_end way = refl

  abbrev pub Plays : List (Event C S R) → Run S R → List (Log S R) → ℕ → Type 0
  Plays es state log count =
      ((rounds es state).0 ≡ log)
      × ((rounds es state).1 ≡ none)
      × ((rounds es state).2.outbound ≡ [])
      × ((rounds es state).2.count ≡ count)

  pub plays :
      (k : ℕ) (way : Way)
      → k < 256
      → Plays (events k way).0 (holding s r k way) (logs s r k way).0 (counts k).0
        × Plays (events k way).1 (idle s r way) (logs s r k way).1 (counts k).1
  unfolding events logs counts
  plays zero way h = (
    rw (holder_step zero way [], idle_end (next way)) (refl, refl, refl, refl),
    rw (other_end way) (refl, refl, refl, refl),
  )
  plays (suc k) way h =
      let (by_holder, by_other) = plays k (next way) (omega arith) in
      (
        rw (holder_step (suc k) way (events k (next way)).1)
            (rw (by_other.0) (refl, by_other.1, by_other.2, by_other.3)),
        rw (other_step k way (events k (next way)).0 (omega arith))
            (rw (by_holder.0) (refl, by_holder.1, by_holder.2, by_holder.3)),
      )
