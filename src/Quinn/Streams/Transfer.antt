-- ===== src/Quinn/Streams/Transfer.antt =====
-- Codes and bytes on the way from one endpoint to the other.
use webtransport_rs.Base.{
  All, Option-cases, Outcome-cases, inl, inr, ℕ, ◌+◌, ◌/◌, ◌^◌, ◌≤◌, ◌<◌, ◌≡◌, ◌∙◌, refl, ap, sym,
  Option, none, some, List, [], ◌∷◌, ◌++◌, append_assoc, length, length-append, length-take, take,
  drop, Outcome, ok, err, panic, map_err, arith, take-append-drop, take-append_le,
}
use webtransport_rs.ErrorCode.{error_to_http3}
use webtransport_rs.ErrorCode.Range.{error_to_http3_range}
use webtransport_rs.Quinn.QuinnCrate
use webtransport_rs.Quinn.Errors
use webtransport_rs.Quinn.Errors.{ReadError, WriteError, from_read, from_write}
use webtransport_rs.Quinn.Errors.Codes.{from_read-sent, from_write-sent}
use webtransport_rs.Quinn.Streams.SendStream
use webtransport_rs.Quinn.Streams.RecvStream

module _ (try_from : ℕ → Option ℕ) (converts : (x : ℕ) → x < 2 ^ 62 → try_from x ≡ some x) where
  -- A reset with the code `c`, a u32, reaches quinn without a panic, as a code `q`, and the reader of
  -- the stream, when quinn reports a reset with `q`, is told of a reset with `c / 30`.
  pub reset-read :
      (C : Type 0) (inner : ℕ → Outcome QuinnCrate.UnknownStream (Unit {0})) (c : ℕ)
      → c < 2 ^ 32
      → (q : ℕ) × (SendStream.reset try_from inner c ≡ map_err Errors.from_unknown (inner q))
        × (RecvStream.read {C = C} {A = Option ℕ} (err (QuinnCrate.ReadError.reset q))
            ≡ err (ReadError.reset (c / 30)))
  unfolding SendStream.reset RecvStream.read
  reset-read C inner c h =
      let (_, _, small, _) = error_to_http3_range c h in
      (
        error_to_http3 c,
        ground (arith, converts (error_to_http3 c) small),
        ground (arith, from_read-sent {C = C} c h),
      )

  -- A stop with the code `c`, a u32, reaches quinn without a panic, as a code `q`, and the writer of
  -- the stream, when quinn reports a stop with `q`, is told of a stop with `c / 30`.
  pub stop-write :
      (C : Type 0) (inner : ℕ → Outcome QuinnCrate.UnknownStream (Unit {0})) (c : ℕ)
      → c < 2 ^ 32
      → (q : ℕ) × (RecvStream.stop try_from inner c ≡ inner q)
        × (SendStream.write {C = C} {A = ℕ} (err (QuinnCrate.WriteError.stopped q))
            ≡ err (WriteError.stopped (c / 30)))
  unfolding RecvStream.stop SendStream.write
  stop-write C inner c h =
      let (_, _, small, _) = error_to_http3_range c h in
      (
        error_to_http3 c,
        ground (arith, converts (error_to_http3 c) small),
        ground (arith, from_write-sent {C = C} c h),
      )

-- What quinn took of what it was offered, by its own answer.
abbrev pub taken {ℓ} : {E : Type ℓ} → Option (Outcome E ℕ) → List ℕ → List ℕ
taken none offered = []
taken (some (ok size)) offered = take size offered
taken (some (err e)) offered = []
taken (some panic) offered = []

-- How many bytes `poll_send` says it has sent.
abbrev pub reported : {C : Type 0} → Option (Outcome (WriteError C) ℕ) → ℕ
reported none = 0
reported (some (ok size)) = size
reported (some (err e)) = 0
reported (some panic) = 0

-- Calls of `poll_send`, one for each answer of quinn: the bytes that quinn took, those left, and how many
-- the calls reported.
unfoldable pub poll_sends :
    {C : Type 0}
    → (List ℕ → List ℕ)
    → List (List ℕ → Option (Outcome (QuinnCrate.WriteError C) ℕ))
    → List ℕ
    → List ℕ × List ℕ × ℕ
poll_sends chunk [] buf = ([], buf, 0)
poll_sends chunk (inner ∷ more) buf =
    let (left, res) = SendStream.poll_send chunk inner buf in
    let (later, rest, count) = poll_sends chunk more left in
    (taken (inner (chunk buf)) (chunk buf) ++ later, rest, reported res + count)

-- quinn never takes more than it is offered.
abbrev pub IsHonest :
    {C : Type 0} → (List ℕ → Option (Outcome (QuinnCrate.WriteError C) ℕ)) → Type 0
IsHonest inner =
    (offered : List ℕ) (size : ℕ) → inner offered ≡ some (ok size) → size ≤ length offered

take_within :
    (size : ℕ) (front buf rest : List ℕ)
    → front ++ rest ≡ buf
    → size ≤ length front
    → take size front ++ drop size buf ≡ buf
take_within size front buf rest whole h =
    rw (sym (take-append_le size front rest h), whole) (take-append-drop size buf)

poll_send-taken :
    {C : Type 0} (chunk : List ℕ → List ℕ)
    (inner : List ℕ → Option (Outcome (QuinnCrate.WriteError C) ℕ)) (buf rest : List ℕ)
    → chunk buf ++ rest ≡ buf
    → IsHonest inner
    → (taken (inner (chunk buf)) (chunk buf) ++ (SendStream.poll_send chunk inner buf).0 ≡ buf)
      × (length (taken (inner (chunk buf)) (chunk buf))
          ≡ reported (SendStream.poll_send chunk inner buf).1)
unfolding SendStream.poll_send
poll_send-taken chunk inner buf rest front honest = elim (Option-cases (inner (chunk buf))) [
  | inl pending ↦ ground (arith, pending)
  | inr (res, e) ↦ elim (Outcome-cases res) [
    | inl (size, e') ↦
        let small = honest (chunk buf) size (e ∙ ap some e') in
        ground (
          arith,
          e,
          e',
          take_within size (chunk buf) buf rest front small,
          length-take size (chunk buf) small,
        )
    | inr (inl (x, e')) ↦ ground (arith, e, e', Option-cases (from_write x))
    | inr (inr e') ↦ ground (arith, e, e')
  ]
]

-- Whatever quinn answers, call after call (`Pending`, an error, or a number of bytes within the chunk
-- that it was offered), the bytes that it took and the bytes left are the buffer, in its order, and
-- `poll_send` reported as many bytes as quinn took.
pub poll_sends-kept :
    {C : Type 0} (chunk : List ℕ → List ℕ)
    (answers : List (List ℕ → Option (Outcome (QuinnCrate.WriteError C) ℕ))) (buf : List ℕ)
    → ((b : List ℕ) → (rest : List ℕ) × (chunk b ++ rest ≡ b))
    → All IsHonest answers
    → ((poll_sends chunk answers buf).0 ++ (poll_sends chunk answers buf).1 ≡ buf)
      × (length (poll_sends chunk answers buf).0 ≡ (poll_sends chunk answers buf).2)
unfolding poll_sends
poll_sends-kept chunk [] buf front honest = (refl, refl)
poll_sends-kept chunk (inner ∷ more) buf front honest =
    let res = SendStream.poll_send chunk inner buf in
    let took = taken (inner (chunk buf)) (chunk buf) in
    let (rest, e) = front buf in
    let (whole, counted) = poll_send-taken chunk inner buf rest e honest.0 in
    let (later, counted') = poll_sends-kept chunk more res.0 front honest.1 in
    (
      append_assoc took (poll_sends chunk more res.0).0 (poll_sends chunk more res.0).1
          ∙ rw later whole,
      omega (arith, counted, counted', length-append took (poll_sends chunk more res.0).0),
    )
