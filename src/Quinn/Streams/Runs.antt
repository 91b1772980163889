-- ===== src/Quinn/Streams/Runs.antt =====
-- The theorems of the stream wrappers at concrete calls.
use webtransport_rs.Base.{
  ℕ, append-nil, ◌<◌, ◌≡◌, refl, Option, none, some, List, [], ◌∷◌, ◌++◌, take, length, ltb,
  if◌then◌else◌, Outcome, ok, err, map_err, arith,
}
use webtransport_rs.ErrorCode.{error_from_http3}
use webtransport_rs.Quinn.QuinnCrate
use webtransport_rs.Quinn.Errors.{ReadError, from_unknown, from_write}
use webtransport_rs.Quinn.Streams.SendStream
use webtransport_rs.Quinn.Streams.RecvStream
use webtransport_rs.Quinn.Streams.Transfer.{reset-read, IsHonest, poll_sends, poll_sends-kept}

abbrev Lost : Type 0
Lost = Unit {0}

-- A quinn that knows every stream.
abbrev accepts : ℕ → Outcome QuinnCrate.UnknownStream (Unit {0})
accepts q = ok tt

abbrev try_from : ℕ → Option ℕ
try_from x = if ltb x 0x4000000000000000 then some x else none

try_from_converts : (x : ℕ) → x < 0x4000000000000000 → try_from x ≡ some x
try_from_converts x h = ground arith

reset-read_example :
    (q : ℕ) × (SendStream.reset try_from accepts 60 ≡ map_err from_unknown (accepts q))
    × (RecvStream.read {C = Lost} {A = Option ℕ} (err (QuinnCrate.ReadError.reset q))
        ≡ err (ReadError.reset 2))
reset-read_example = reset-read try_from try_from_converts Lost accepts 60 (omega arith)

-- quinn takes two bytes, has no room, takes one, and is stopped.
abbrev at_most : ℕ → List ℕ → Option (Outcome (QuinnCrate.WriteError Lost) ℕ)
at_most n offered = some (ok (if ltb (length offered) n then length offered else n))

abbrev answers : List (List ℕ → Option (Outcome (QuinnCrate.WriteError Lost) ℕ))
answers =
    at_most 2
    ∷ (λ offered. none)
    ∷ at_most 1
    ∷ (λ offered. some (err (QuinnCrate.WriteError.stopped 0)))
    ∷ []

at_most-IsHonest : (n : ℕ) → IsHonest (at_most n)
at_most-IsHonest n offered size e = ground (arith, e)

poll_sends_test :
    poll_sends (λ b. take 3 b) answers (5 ∷ 6 ∷ 7 ∷ 8 ∷ []) ≡ (5 ∷ 6 ∷ 7 ∷ [], 8 ∷ [], 3)
unfolding poll_sends SendStream.poll_send from_write error_from_http3
poll_sends_test = refl

poll_sends-kept_example :
    ((poll_sends (λ b. b) answers (5 ∷ 6 ∷ 7 ∷ 8 ∷ [])).0
        ++ (poll_sends (λ b. b) answers (5 ∷ 6 ∷ 7 ∷ 8 ∷ [])).1
      ≡ 5 ∷ 6 ∷ 7 ∷ 8 ∷ [])
    × (length (poll_sends (λ b. b) answers (5 ∷ 6 ∷ 7 ∷ 8 ∷ [])).0
        ≡ (poll_sends (λ b. b) answers (5 ∷ 6 ∷ 7 ∷ 8 ∷ [])).2)
poll_sends-kept_example =
    poll_sends-kept (λ b. b) answers (5 ∷ 6 ∷ 7 ∷ 8 ∷ []) (λ b. ([], append-nil b))
      (
        at_most-IsHonest 2,
        (
          λ offered size e. ground (arith, e),
          (at_most-IsHonest 1, (λ offered size e. ground (arith, e), tt)),
        ),
      )
