-- ===== src/Baton/Played.antt =====
-- That a game of one baton can be played to the 0, from any first baton.
use webtransport_rs.Base.{ℕ, zero, suc, ◌+◌, ◌-◌, ◌≡◌, ◌<◌, refl, ap, List, none, some, arith}
use webtransport_rs.Base.Counting.{sum}
use webtransport_rs.Baton.Run.{Run, Event, Log, Trace, rounds, run, start, initial}
use webtransport_rs.Baton.Kept.{sent_of, received_of, waiting, offers}
use webtransport_rs.Baton.Game.{Delivers, offered}
use webtransport_rs.Baton.Ends.{most}
use webtransport_rs.Baton.Play.{
  Way, by_uni, next, baton, task, holding, idle, reading, logs, counts, events, Plays, plays,
}

module _ {S R : Type 0} (s : S) (r : R) where
  -- Each end logs as received what the other logs as sent.
  logs_match :
      (v k : ℕ) (way : Way)
      → (sum (received_of v) (logs s r k way).0 ≡ sum (sent_of v) (logs s r k way).1)
        × (sum (received_of v) (logs s r k way).1 ≡ sum (sent_of v) (logs s r k way).0)
  unfolding logs
  logs_match v zero way = (omega arith, omega arith)
  logs_match v (suc k) way =
      let (one, two) = logs_match v k (next way) in (omega arith, omega arith)

  logs_sent :
      (v k : ℕ) (way : Way)
      → k < 256
      → sum (sent_of v) (logs s r k way).0 + sum (sent_of v) (logs s r k way).1 ≡ most 1 (256 - k) v
  unfolding logs
  logs_sent v zero way h = ground arith
  logs_sent v (suc k) way h = let rest = logs_sent v k (next way) (omega arith) in ground arith

counts_sum : (k : ℕ) → (counts k).0 + (counts k).1 ≡ 1
unfolding counts
counts_sum zero = refl
counts_sum (suc k) = omega (arith, counts_sum k)

module _ {S R : Type 0} (s : S) (r : R) where
  start-holding : (b : ℕ) → 0 < b → b < 256 → start (some b) 1 ≡ holding s r (256 - b) by_uni
  unfolding start initial task
  start-holding b pos small = let back : baton (256 - b) ≡ b = omega arith in rw back refl

  start-idle : start none 1 ≡ idle s r by_uni
  unfolding start reading
  start-idle = refl

module _ {C S R : Type 0} (s : S) (r : R) where
  Plays-offered :
      (v : ℕ) (es : List (Event C S R)) (state : Run S R) (log : List (Log S R)) (count : ℕ)
      → Plays s r es state log count
      → offered v (rounds es state) ≡ sum (sent_of v) log
  Plays-offered v es state log count p =
      let sent_there : sum (sent_of v) (rounds es state).0 ≡ sum (sent_of v) log =
        ap (sum (sent_of v)) p.0 in
      let none_left : waiting v (rounds es state).2 ≡ 0 = ap (sum (offers v)) p.2 in omega arith

  -- What is claimed of the two ends, by what they come to.
  record IsPlayed (b : ℕ) (server client : Trace C S R) : Type 0 where
    to_client : Delivers server client
    to_server : Delivers client server
    offered_once : (v : ℕ) → offered v server + offered v client ≡ most 1 b v
    zero_received : sum (received_of 0) server.0 + sum (received_of 0) client.0 ≡ 1
    server_waits : server.1 ≡ none
    client_waits : client.1 ≡ none
    counted : server.2.count + client.2.count ≡ 1

  IsPlayed-events :
      (b k : ℕ)
      → 256 - k ≡ b
      → k < 256
      → IsPlayed b
          (rounds (events s r k by_uni).0 (holding s r k by_uni))
          (rounds (events s r k by_uni).1 (idle s r by_uni))
  IsPlayed-events b k e h =
      let (server, client) = plays {C = C} s r k by_uni h in
      let server_offers = λ (v : ℕ). Plays-offered v _ _ _ _ server in
      let client_offers = λ (v : ℕ). Plays-offered v _ _ _ _ client in
      let match = λ (v : ℕ). logs_match s r v k by_uni in
      record {
        to_client = λ v. rw (client.0) (omega (arith, server_offers v, match v));
        to_server = λ v. rw (server.0) (omega (arith, client_offers v, match v));
        offered_once = λ v. omega (
          arith,
          server_offers v,
          client_offers v,
          logs_sent s r v k by_uni h,
          ap (λ x. most 1 x v) e,
        );
        zero_received =
            rw (server.0, client.0) (omega (arith, match 0, logs_sent s r 0 k by_uni h));
        server_waits = server.1;
        client_waits = client.1;
        counted = omega (arith, server.3, client.3, counts_sum k);
      }

  -- The game of one baton is played to its end from any first baton, a u8 other than 0, on a session whose
  -- streams carry only the message of the baton whose turn it is (a write of other bytes fails, a read
  -- finds these), where the three kinds of streams take turns: neither end receives a value more often than
  -- the other sends it, each value from the first one to 255, and 0, is sent just once, and no other; the
  -- 0 is received; and then both ends still wait, with a count of 1 together.
  pub played :
      (b : ℕ)
      → 0 < b
      → b < 256
      → let server = run (some b) 1 (events {C = C} s r (256 - b) by_uni).0 in
        let client = run none 1 (events {C = C} s r (256 - b) by_uni).1 in
        Delivers server client
        × Delivers client server
        × ((v : ℕ) → offered v server + offered v client ≡ most 1 b v)
        × (sum (received_of 0) server.0 + sum (received_of 0) client.0 ≡ 1)
        × (server.1 ≡ none)
        × (client.1 ≡ none)
        × (server.2.count + client.2.count ≡ 1)
  unfolding run
  played b pos small =
      let k = 256 - b in
      let q : IsPlayed b (run (some b) 1 (events s r k by_uni).0)
          (run none 1 (events s r k by_uni).1) =
        rw (start-holding s r b pos small, start-idle s r)
          (IsPlayed-events b k (omega arith) (omega arith)) in
      (
        q.to_client, q.to_server, q.offered_once, q.zero_received, q.server_waits, q.client_waits,
        q.counted,
      )
