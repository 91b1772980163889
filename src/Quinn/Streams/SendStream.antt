-- ===== src/Quinn/Streams/SendStream.antt =====
-- `SendStream` of stream.rs, and its side of webtransport-generic.
use webtransport_rs.Base.{
  ℕ, Option, none, some, List, drop, Outcome, ok, err, panic, ◌>>=◌, map_err,
}
use webtransport_rs.ErrorCode.{error_from_http3}
use webtransport_rs.Quinn.QuinnCrate
use webtransport_rs.Quinn.Errors.{
  WriteError, StoppedError, StreamClosed, from_unknown, from_write, from_stopped,
}
use webtransport_rs.Quinn.Streams.{into_err, call_with_code}

unfoldable pub reset :
    (ℕ → Option ℕ)
    → (ℕ → Outcome QuinnCrate.UnknownStream (Unit {0}))
    → ℕ
    → Outcome StreamClosed (Unit {0})
reset try_from inner code = map_err from_unknown (call_with_code try_from inner code)

pub unwrap_code {ℓ} : {E : Type ℓ} → Option (Option ℕ) → Outcome E (Option ℕ)
unwrap_code none = panic
unwrap_code (some code) = ok code

unfoldable pub stopped :
    {C : Type 0} → Outcome (QuinnCrate.StoppedError C) ℕ → Outcome (StoppedError C) (Option ℕ)
unfolding unwrap_code
stopped inner = do code ← into_err from_stopped inner; unwrap_code (error_from_http3 code)

-- `write`, `write_all`, `write_chunks`, `write_chunk`, `write_all_chunks` and `finish`: the answer
-- of quinn's call of that name, with its error wrapped.
unfoldable pub write {ℓ} :
    {C : Type 0} {A : Type ℓ} → Outcome (QuinnCrate.WriteError C) A → Outcome (WriteError C) A
write inner = into_err from_write inner

-- `set_priority` and `priority`.
unfoldable pub priority {ℓ} :
    {A : Type ℓ} → Outcome QuinnCrate.UnknownStream A → Outcome StreamClosed A
priority inner = map_err from_unknown inner

-- `poll_send` of the trait. `chunk` is `Buf::chunk`, and `inner` what the poll of `write` answers to
-- a chunk; `none` is `Pending`. The result is the buffer that is left, and the answer.
unfoldable pub poll_send :
    {C : Type 0}
    → (List ℕ → List ℕ)
    → (List ℕ → Option (Outcome (QuinnCrate.WriteError C) ℕ))
    → List ℕ
    → List ℕ × Option (Outcome (WriteError C) ℕ)
unfolding write
poll_send chunk inner buf = elim (inner (chunk buf)) [
  | none ↦ (buf, none)
  | some res ↦ elim (write res) [
    | ok size ↦ (drop size buf, some (ok size))
    | err e ↦ (buf, some (err e))
    | panic ↦ (buf, some panic)
  ]
]
