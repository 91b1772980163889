-- ===== src/Quinn/Session/Runs.antt =====
-- The theorems of a session at concrete streams and codes.
use webtransport_rs.Base.{
  ℕ, ◌<◌, ◌≡◌, refl, Option, none, some, List, [], ◌∷◌, ltb, if◌then◌else◌, ok, arith,
}
use webtransport_rs.Quinn.QuinnCrate.{finished_early}
use webtransport_rs.Quinn.Errors.{session_code}
use webtransport_rs.Quinn.Accept.{poll_accept_uni, poll_accept_bi}
use webtransport_rs.Quinn.Accept.Polling.{polls}
use webtransport_rs.Quinn.Accept.Fair.{arrivals, in_order}
use webtransport_rs.Quinn.Session
use webtransport_rs.Quinn.Session.{Session}
use webtransport_rs.Quinn.Session.Calls.{open_uni, open_bi, close, closed}
use webtransport_rs.Quinn.Session.PeersBi.{open_bi-accept}
use webtransport_rs.Quinn.Session.Peers.{sent, delivered, open_uni-accept, close-session_code}

abbrev Lost : Type 0
Lost = Unit {0}

abbrev contents : List (List ℕ)
contents = (1 ∷ 2 ∷ []) ∷ [] ∷ (3 ∷ []) ∷ []

open_uni-accept_example :
    (s : Session Lost) × (bs : List ℕ) × (Session.new 4 ≡ some s)
    × (open_uni (ok tt) (λ _. ok tt) s ≡ ok bs)
    × ((polls poll_accept_uni 4
          (arrivals (sent finished_early bs contents) (in_order (sent finished_early bs contents)))
          s.accept).0
        ≡ delivered finished_early contents)
    × ((polls poll_accept_uni 4
          (arrivals (sent finished_early bs contents) (in_order (sent finished_early bs contents)))
          s.accept).1.pending_uni
        ≡ [])
open_uni-accept_example =
    open_uni-accept {C = Lost} finished_early 4 contents 4 (omega arith) (omega arith) (omega arith)

abbrev try_from : ℕ → Option ℕ
try_from x = if ltb x 0x4000000000000000 then some x else none

try_from_small : (x : ℕ) → x < 0x4000000000000000 → try_from x ≡ some x
try_from_small x h = ground arith

-- An error of a connection is the code of the peer's close.
close-session_code_example :
    (q : ℕ) × (close try_from 60 ≡ some q)
    × (session_code (λ code. some code) (closed q) ≡ some (some 2))
close-session_code_example =
    close-session_code ℕ (λ code. some code) (λ code. code) try_from (λ q. refl) try_from_small 60
      (omega arith)

open_bi-accept_example :
    (s : Session Lost) × (bs : List ℕ) × (Session.new 4 ≡ some s)
    × (open_bi (ok tt) (λ _. ok tt) s ≡ ok bs)
    × ((polls poll_accept_bi 4
          (arrivals (sent finished_early bs contents) (in_order (sent finished_early bs contents)))
          s.accept).0
        ≡ delivered finished_early contents)
    × ((polls poll_accept_bi 4
          (arrivals (sent finished_early bs contents) (in_order (sent finished_early bs contents)))
          s.accept).1.pending_bi
        ≡ [])
open_bi-accept_example =
    open_bi-accept {C = Lost} finished_early 4 contents 4 (omega arith) (omega arith) (omega arith)
