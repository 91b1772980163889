-- ===== src/Quinn/Streams.antt =====
-- webtransport-quinn/src/stream.rs: the wrappers of the two halves of a stream. What quinn answers to a
-- call is an argument; `C` is quinn's error of a connection.
pub mod SendStream
pub mod RecvStream
pub mod Transfer
mod Runs
use webtransport_rs.Base.{ℕ, Option, none, some, Outcome, ok, err, panic}
use webtransport_rs.ErrorCode.{error_to_http3}

-- `map_err(Into::into)`, with a conversion that may panic.
abbrev pub into_err {ℓ κ μ} :
    {E : Type ℓ} {F : Type κ} {A : Type μ} → (E → Option F) → Outcome E A → Outcome F A
into_err f (ok a) = ok a
into_err f (err e) = elim (f e) [ some e' ↦ err e' | none ↦ panic ]
into_err f panic = panic

-- `quinn::VarInt::try_from(..).unwrap()` of the mapped code, where `try_from` is quinn's, and the call
-- that takes it.
abbrev pub call_with_code {ℓ κ} :
    {E : Type ℓ} {A : Type κ} → (ℕ → Option ℕ) → (ℕ → Outcome E A) → ℕ → Outcome E A
call_with_code try_from call code = elim (try_from (error_to_http3 code)) [
  | some code ↦ call code
  | none ↦ panic
]
