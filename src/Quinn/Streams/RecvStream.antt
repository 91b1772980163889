-- ===== src/Quinn/Streams/RecvStream.antt =====
-- `RecvStream` of stream.rs, and its side of webtransport-generic.
use webtransport_rs.Base.{
  ℕ, Option, none, some, List, ◌++◌, length, ltb, if◌then◌else◌, Outcome, ok, err, panic,
}
use webtransport_rs.Quinn.QuinnCrate
use webtransport_rs.Quinn.Errors.{
  ReadError, ReadExactError, ReadToEndError, from_read, from_read_exact, from_read_to_end,
}
use webtransport_rs.Quinn.Streams.{into_err, call_with_code}

unfoldable pub stop {ℓ} :
    {A : Type ℓ}
    → (ℕ → Option ℕ)
    → (ℕ → Outcome QuinnCrate.UnknownStream A)
    → ℕ
    → Outcome QuinnCrate.UnknownStream A
stop try_from inner code = call_with_code try_from inner code

-- `read`, `read_chunk` and `read_chunks`.
unfoldable pub read {ℓ} :
    {C : Type 0} {A : Type ℓ} → Outcome (QuinnCrate.ReadError C) A → Outcome (ReadError C) A
read inner = into_err from_read inner

unfoldable pub read_exact {ℓ} :
    {C : Type 0} {A : Type ℓ}
    → Outcome (QuinnCrate.ReadExactError C) A
    → Outcome (ReadExactError C) A
read_exact inner = into_err from_read_exact inner

unfoldable pub read_to_end {ℓ} :
    {C : Type 0} {A : Type ℓ}
    → Outcome (QuinnCrate.ReadToEndError C) A
    → Outcome (ReadToEndError C) A
read_to_end inner = into_err from_read_to_end inner

-- `poll_recv` of the trait: `room` is `remaining_mut`, `inner` what the poll of `read_chunk` answers
-- for that size, and `buf` what has been put. `put` panics on more than the room.
unfoldable pub poll_recv :
    {C : Type 0}
    → (ℕ → Option (Outcome (QuinnCrate.ReadError C) (Option (List ℕ))))
    → ℕ
    → List ℕ
    → List ℕ × Option (Outcome (ReadError C) (Option ℕ))
unfolding read
poll_recv inner room buf = elim (inner room) [
  | none ↦ (buf, none)
  | some res ↦ elim (read res) [
    | ok (some chunk) ↦
        if ltb room (length chunk)
        then (buf, some panic)
        else (buf ++ chunk, some (ok (some (length chunk))))
    | ok none ↦ (buf, some (ok none))
    | err e ↦ (buf, some (err e))
    | panic ↦ (buf, some panic)
  ]
]
