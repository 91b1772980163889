-- ===== src/Quinn/Accept/Runs.antt =====
-- The theorems of the accept loops at concrete streams.
use webtransport_rs.Base.{ℕ, ◌+◌, ◌≡◌, refl, List, [], ◌∷◌, Outcome, ok, err, panic, arith}
use webtransport_rs.VarInt
use webtransport_rs.Quinn.QuinnCrate.{finished_early}
use webtransport_rs.Quinn.Errors.{SessionError}
use webtransport_rs.Quinn.StreamHeader.{
  RecvStream, decode_uni, read_varint, read_full, check_session,
}
use webtransport_rs.Quinn.Accept.{Turn, lost, decoded, idle, new, round_uni, poll_accept_uni}
use webtransport_rs.Base.Counting.{sum}
use webtransport_rs.Quinn.Accept.Polling.{polls, poll_rounds}
use webtransport_rs.Quinn.Accept.Conserved.{of_recv_uni, of_turn_uni, poll_accept_uni-kept}
use webtransport_rs.Quinn.Accept.Fair.{all_owed, arrivals, in_order, poll_accept_uni-all}

abbrev Lost : Type 0
Lost = Unit {0}

abbrev arriving : List ℕ → RecvStream Lost
arriving bs = record { bytes = bs; ends = finished_early }

-- A stream of session 4, a QPACK encoder stream, and a stream of session 8.
abbrev streams : List (RecvStream Lost)
streams =
    arriving (0x40 ∷ 0x54 ∷ 4 ∷ 7 ∷ [])
    ∷ arriving (2 ∷ 9 ∷ [])
    ∷ arriving (0x40 ∷ 0x54 ∷ 8 ∷ [])
    ∷ []

abbrev one_each : Outcome (SessionError Lost) (RecvStream Lost) → ℕ
one_each (ok recv) = 100
one_each (err e) = 10
one_each panic = 1

-- The last stream to arrive is read first, and the connection is lost in between.
abbrev turns : List (Turn Lost)
turns = arrivals streams (decoded 2 ∷ idle ∷ lost tt ∷ decoded 0 ∷ decoded 0 ∷ [])

poll_accept_uni_test : sum one_each (polls poll_accept_uni 4 turns (new 4)).0 ≡ 120
unfolding new polls poll_accept_uni poll_rounds round_uni decode_uni read_varint read_full
    VarInt.decode check_session
poll_accept_uni_test = refl

poll_accept_uni-kept_example :
    ((polls poll_accept_uni 2 turns (new 4)).1.session_id ≡ 4)
    × (sum one_each (polls poll_accept_uni 2 turns (new 4)).0
          + sum (of_recv_uni 4 one_each) (polls poll_accept_uni 2 turns (new 4)).1.pending_uni
          + sum (of_turn_uni 4 one_each) (polls poll_accept_uni 2 turns (new 4)).2
        ≡ sum (of_turn_uni 4 one_each) turns)
poll_accept_uni-kept_example = poll_accept_uni-kept 4 one_each 2 turns

poll_accept_uni-all_example :
    ((polls poll_accept_uni 4 (arrivals streams (in_order streams)) (new 4)).0 ≡ all_owed 4 streams)
    × ((polls poll_accept_uni 4 (arrivals streams (in_order streams)) (new 4)).1.pending_uni ≡ [])
poll_accept_uni-all_example = poll_accept_uni-all 4 streams 4 (omega arith)
