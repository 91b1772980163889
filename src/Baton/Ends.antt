-- ===== src/Baton/Ends.antt =====
-- What a game comes to.
use webtransport_rs.Base.{
  ℕ, zero, suc, ◌+◌, ◌≡◌, ◌≢◌, ◌≤◌, ◌<◌, ◌⊎◌, ap, List, [], false, ltb, leb, ◌||◌, ◌==◌, Bool-cases,
  ltb→lt, ltb→le, if◌then◌else◌, Option, none, some, ok, panic, inl, inr, arith,
}
use webtransport_rs.Base.Counting.{sum}
use webtransport_rs.Baton.Run.{Run, Event, Trace, run, start, goes_on}
use webtransport_rs.Baton.Kept.{received_of}
use webtransport_rs.Baton.Loop.{TraceKeeps, underflows, rounds-keeps, rounds-ok}
use webtransport_rs.Baton.Game.{
  Delivers, offered, all_offered-le, all_offered_0, passed_large, offered-server, offered-client,
}

not_goes_on :
    {S R : Type 0} (s : Run S R)
    → goes_on s ≡ false
    → (s.count ≡ 0) × (s.outbound ≡ []) × (s.inbound ≢ [])
unfolding goes_on
not_goes_on s h = (ground (arith, h), ground (arith, h), ground (arith, h))

-- The values of a game of `n` batons from `b` on, with how often each may be sent.
abbrev pub most : ℕ → ℕ → ℕ → ℕ
most n b v = if v == 0 then n else if ltb v b || leb 256 v then 0 else n

module _ {C S R : Type 0} where
  -- Whatever happens, a run returns `Ok` only with a count of 0, no baton left to send, and at least one
  -- stream that it is still to read a baton from.
  pub run-ok :
      (init : Option ℕ) (count : ℕ) (es : List (Event C S R))
      → (run init count es).1 ≡ some (ok tt)
      → let s = (run init count es).2 in (s.count ≡ 0) × (s.outbound ≡ []) × (s.inbound ≢ [])
  unfolding run
  run-ok init count es h = not_goes_on _ (rounds-ok es (start init count) h)

  -- Whatever happens, the batons of each value that an end has sent or is about to send are those that it
  -- began with and those that it received as one less, other than 0; and its count and the zeros that it
  -- received make the count that it began with, until an underflow, which happens at a count of 0.
  pub run-keeps :
      (init : Option ℕ) (count : ℕ) (es : List (Event C S R))
      → TraceKeeps (start init count) (run init count es)
  unfolding run
  run-keeps init count es = rounds-keeps es (start init count)

  no_panic :
      (s : Run S R) (t : Trace C S R)
      → TraceKeeps s t
      → sum (received_of 0) t.0 ≤ s.count
      → t.1 ≢ some panic
  no_panic s t keeps h e =
      let once : underflows t.1 ≡ 1 = ap underflows e in
      let counted = keeps.zeros in
      elim keeps.drained [ inl never ↦ absurd (omega arith) | inr at_zero ↦ absurd (omega arith) ]

  module _ (n b : ℕ) (positive : 0 < b) (small : b < 256) (server client : List (Event C S R))
      (to_client : Delivers (run (some b) n server) (run none n client))
      (to_server : Delivers (run none n client) (run (some b) n server)) where
    offered_large :
        (v : ℕ) → 256 ≤ v → offered v (run (some b) n server) + offered v (run none n client) ≡ 0
    offered_large v large =
        let by_server = offered-server v n b server in
        let by_client = offered-client v n client in
        let no_server = passed_large v (run (some b) n server).0 large in
        let no_client = passed_large v (run none n client).0 large in ground arith

    -- In a game of `n` batons that start at `b`, where each end receives a value no more often than the
    -- other has sent it or is about to, whatever happens at the two ends, together they send each value
    -- from `b` to 255, and 0, `n` times at most, and no other value.
    pub offered_bounded :
        (v : ℕ) → offered v (run (some b) n server) + offered v (run none n client) ≤ most n b v
    offered_bounded zero =
        ground (arith, all_offered_0 n b positive small server client to_client to_server)
    offered_bounded (suc v) = elim (Bool-cases (ltb v 255)) [
      | inl below ↦
          let le =
            all_offered-le n b positive small server client to_client to_server v
              (ltb→lt v 255 below) in
          ground arith
      | inr above ↦
          let none_left = offered_large (suc v) (omega (arith, ltb→le v 255 above)) in ground arith
    ]

    -- In such a game of one baton or more no count underflows, and one of the two ends does not return
    -- `Ok`.
    pub ends :
        0 < n
        → ((run (some b) n server).1 ≢ some panic)
          × ((run none n client).1 ≢ some panic)
          × (((run (some b) n server).1 ≢ some (ok tt)) ⊎ ((run none n client).1 ≢ some (ok tt)))
    unfolding start
    ends h =
        let server_keeps = run-keeps (some b) n server in
        let client_keeps = run-keeps none n client in
        let server_zeros = server_keeps.zeros in
        let client_zeros = client_keeps.zeros in
        let zeros = all_offered_0 n b positive small server client to_client to_server in
        let from_server = to_client 0 in
        let from_client = to_server 0 in
        (
          no_panic (start (some b) n) (run (some b) n server) server_keeps (omega arith),
          no_panic (start none n) (run none n client) client_keeps (omega arith),
          elim (Bool-cases (ltb 0 (run (some b) n server).2.count)) [
            | inl more ↦ inl (λ e. absurd (ground (arith, run-ok (some b) n server e, more)))
            | inr none_left ↦ inr (λ e. absurd (ground (arith, run-ok none n client e, none_left)))
          ],
        )
