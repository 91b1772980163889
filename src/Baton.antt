-- ===== src/Baton.antt =====
-- webtransport-quinn/examples/baton/mod.rs: the game of the devious baton. A baton is a u8 that the
-- two ends of a session pass back and forth, one more each time, until it wraps to 0.
--
-- `C` is quinn's error of a connection, `S` and `R` are the handles of the two halves of a stream.
pub mod Parse
pub mod Run
pub mod Kept
pub mod Loop
pub mod Game
pub mod Ends
pub mod Play
pub mod Played
pub mod Server
pub mod Client
pub mod Pair
mod Runs
use webtransport_rs.Base.{
  ℕ, zero, suc, ◌-◌, ◌^◌, List, [], ◌∷◌, length, ltb, get_elem?, Option, none, some, if◌then◌else◌,
  Outcome, ok, err, panic, ◌>>=◌, map_err,
}
use webtransport_rs.Quinn.Errors.{SessionError, WriteError, ReadToEndError}

-- What `anyhow` wraps; `join_error` is that of a task that has panicked.
pub data Error (C : Type 0) : Type 0 where
  session : SessionError C → Error C
  write : WriteError C → Error C
  read : ReadToEndError C → Error C
  too_small : Error C
  join_error : Error C

-- Where a baton came from.
pub data Inbound (S : Type 0) : Type 0 where
  uni : Inbound S
  local_bi : Inbound S
  remote_bi : S → Inbound S

-- Where a baton was sent.
pub data Outbound (R : Type 0) : Type 0 where
  uni : Outbound R
  local_bi : R → Outbound R
  remote_bi : Outbound R

-- What the session and its streams answer to one task.
pub record Answers (C S R : Type 0) : Type 0 where
  pub open_uni : Outcome (SessionError C) S
  pub open_bi : Outcome (SessionError C) (S × R)
  pub write_all : S → List ℕ → Outcome (WriteError C) (Unit {0})
  pub finish : S → Outcome (WriteError C) (Unit {0})
  pub read_to_end : R → ℕ → Outcome (ReadToEndError C) (List ℕ)

-- `buf[i]`, which panics out of range.
index : {C : Type 0} → List ℕ → ℕ → Outcome (Error C) ℕ
index buf i = elim (get_elem? buf i) [ none ↦ panic | some b ↦ ok b ]

module _ {C S R : Type 0} where
  unfoldable pub send_baton : Answers C S R → S → ℕ → Outcome (Error C) (Unit {0})
  send_baton a send baton = do
    _ ← map_err write (a.write_all send (0 ∷ baton ∷ []))
    map_err write (a.finish send)

  unfoldable pub recv_baton : Answers C S R → R → Outcome (Error C) ℕ
  unfolding index
  recv_baton a recv = do
    buf ← map_err read (a.read_to_end recv (2 ^ 16 - 1))
    if ltb (length buf) 2 then err too_small else index buf (length buf - 1)
