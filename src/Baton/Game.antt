-- ===== src/Baton/Game.antt =====
-- The two ends of the game. Each end has its schedule; what joins them is that a stream gives its reader
-- no baton that was not sent on it.
use webtransport_rs.Base.{
  ℕ, zero, suc, ◌+◌, ◌≡◌, ◌≤◌, ◌<◌, refl, List, [], ◌∷◌, ◌==◌, ltb, Bool-cases, ltb→lt, ltb→le,
  if◌then◌else◌, none, some, inl, inr, arith, All, IsByte,
}
use webtransport_rs.Base.Counting.{sum}
use webtransport_rs.Baton.Run.{Event, Log, Trace, run, start, initial}
use webtransport_rs.Baton.Kept.{sent_of, received_of, passed_of, waiting, offers}
use webtransport_rs.Baton.Loop.{rounds-keeps}

module _ {S R : Type 0} where
  abbrev pub IsSmall : Log S R → Type 0
  IsSmall (Log.sent baton source) = Unit {0}
  IsSmall (Log.received baton source) = IsByte baton

  -- A baton that goes on was received as one less.
  passed-le-received :
      (v : ℕ) (log : List (Log S R))
      → v < 255
      → All IsSmall log
      → sum (passed_of (v + 1)) log ≤ sum (received_of v) log
  passed-le-received v [] h small = omega arith
  passed-le-received v (Log.sent baton source ∷ log) h small =
      omega (arith, passed-le-received v log h small.1)
  passed-le-received v (Log.received baton source ∷ log) h small =
      ground (arith, passed-le-received v log h small.1)

  passed-0-le :
      (log : List (Log S R)) → All IsSmall log → sum (passed_of 0) log ≤ sum (received_of 255) log
  passed-0-le [] small = omega arith
  passed-0-le (Log.sent baton source ∷ log) small = omega (arith, passed-0-le log small.1)
  passed-0-le (Log.received baton source ∷ log) small = ground (arith, passed-0-le log small.1)

  -- A 0 does not go on.
  passed-1 : (log : List (Log S R)) → All IsSmall log → sum (passed_of 1) log ≡ 0
  passed-1 [] small = refl
  passed-1 (Log.sent baton source ∷ log) small = omega (arith, passed-1 log small.1)
  passed-1 (Log.received baton source ∷ log) small = ground (arith, passed-1 log small.1)

  pub passed_large : (v : ℕ) (log : List (Log S R)) → 256 ≤ v → sum (passed_of v) log ≡ 0
  passed_large v [] h = refl
  passed_large v (Log.sent baton source ∷ log) h = omega (arith, passed_large v log h)
  passed_large v (Log.received baton source ∷ log) h = ground (arith, passed_large v log h)

  All-IsSmall :
      (log : List (Log S R)) → ((v : ℕ) → 256 ≤ v → sum (received_of v) log ≡ 0) → All IsSmall log
  All-IsSmall [] h = tt
  All-IsSmall (Log.sent baton source ∷ log) h =
      (tt, All-IsSmall log (λ v large. omega (arith, h v large)))
  All-IsSmall (Log.received baton source ∷ log) h = (
    elim (Bool-cases (ltb baton 256)) [
      | inl small ↦ ltb→lt baton 256 small
      | inr large ↦ absurd (ground (arith, large, h baton (ltb→le baton 256 large)))
    ],
    All-IsSmall log (λ v large. omega (arith, h v large)),
  )

sum-initial :
    (S : Type 0) (v n b : ℕ) → sum (offers v) (initial {S = S} n b) ≡ (if b == v then n else 0)
unfolding initial
sum-initial S v zero b = ground arith
sum-initial S v (suc n) b = ground (arith, sum-initial S v n b)

module _ {C S R : Type 0} where
  -- How often an end has sent a value, or is about to.
  abbrev pub offered : ℕ → Trace C S R → ℕ
  offered v t = sum (sent_of v) t.0 + waiting v t.2

  -- No end has received a value more often than the other has sent it or is about to.
  abbrev pub Delivers : Trace C S R → Trace C S R → Type 0
  Delivers from to = (v : ℕ) → sum (received_of v) to.0 ≤ offered v from

  pub offered-server :
      (v n b : ℕ) (es : List (Event C S R))
      → offered v (run (some b) n es)
        ≡ (if b == v then n else 0) + sum (passed_of v) (run (some b) n es).0
  unfolding run start
  offered-server v n b es =
      let kept = (rounds-keeps es (start (some b) n)).batons v in
      let first = sum-initial S v n b in omega (arith, kept, first)

  pub offered-client :
      (v n : ℕ) (es : List (Event C S R))
      → offered v (run none n es) ≡ sum (passed_of v) (run none n es).0
  unfolding run start
  offered-client v n es = let kept = (rounds-keeps es (start none n)).batons v in omega arith

  module _ (n b : ℕ) (positive : 0 < b) (small : b < 256) (server client : List (Event C S R))
      (to_client : Delivers (run (some b) n server) (run none n client))
      (to_server : Delivers (run none n client) (run (some b) n server)) where
    abbrev pub all_offered : ℕ → ℕ
    all_offered v = offered v (run (some b) n server) + offered v (run none n client)

    pub server-IsSmall : All IsSmall (run (some b) n server).0
    server-IsSmall = All-IsSmall _ (λ v large.
        omega (
          arith,
          to_server v,
          offered-client v n client,
          passed_large v (run none n client).0 large,
        ))

    pub client-IsSmall : All IsSmall (run none n client).0
    client-IsSmall = All-IsSmall _ (λ v large. ground (
      arith,
      to_client v,
      offered-server v n b server,
      passed_large v (run (some b) n server).0 large,
    ))

    -- Below the first value nothing is offered, and from it on no value more than `n` times.
    abbrev pub bound : ℕ → ℕ
    bound v = if ltb v b then 0 else n

    pub all_offered-le : (v : ℕ) → v < 255 → all_offered (v + 1) ≤ bound (v + 1)
    all_offered-le zero h =
        let by_server = offered-server 1 n b server in
        let by_client = offered-client 1 n client in
        let no_server = passed-1 (run (some b) n server).0 server-IsSmall in
        let no_client = passed-1 (run none n client).0 client-IsSmall in ground arith
    all_offered-le (suc v) h =
        let earlier = all_offered-le v (omega arith) in
        let by_server = offered-server (suc v + 1) n b server in
        let by_client = offered-client (suc v + 1) n client in
        let from_server = to_client (suc v) in
        let from_client = to_server (suc v) in
        let on_server = passed-le-received (suc v) (run (some b) n server).0 h server-IsSmall in
        let on_client = passed-le-received (suc v) (run none n client).0 h client-IsSmall in
        ground arith

    pub all_offered_0 : all_offered 0 ≤ n
    all_offered_0 =
        let last = all_offered-le 254 (omega arith) in
        let by_server = offered-server 0 n b server in
        let by_client = offered-client 0 n client in
        let from_server = to_client 255 in
        let from_client = to_server 255 in
        let on_server = passed-0-le (run (some b) n server).0 server-IsSmall in
        let on_client = passed-0-le (run none n client).0 client-IsSmall in ground arith
