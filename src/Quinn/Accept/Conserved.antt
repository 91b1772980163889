-- ===== src/Quinn/Accept/Conserved.antt =====
-- What the loops owe for each stream, and that it is neither lost nor returned twice.
use webtransport_rs.Base.{
  ℕ, ◌+◌, ◌≡◌, ◌∙◌, refl, Option, none, some, Option-cases, List, [], ◌∷◌, ◌==◌, if◌then◌else◌,
  Outcome, ok, err, panic, inl, inr, arith,
}
use webtransport_rs.Base.Counting.{remove_at, sum, sum_append, sum-remove_at}
use webtransport_rs.StreamUni
use webtransport_rs.StreamUni.{StreamUni}
use webtransport_rs.VarInt.{VarInt}
use webtransport_rs.Quinn.Errors.{SessionError, connection_error}
use webtransport_rs.Quinn.StreamHeader.{RecvStream, decode_uni, decode_bi}
use webtransport_rs.Quinn.Accept.{
  SessionAccept, new, Turn, accepted, lost, decoded, idle, finish_uni, round_uni, finish_bi,
  round_bi, poll_accept_uni, poll_accept_bi,
}
use webtransport_rs.Quinn.Accept.Polling.{
  RoundKeeps, polls, poll_rounds-kept, polls-kept, of_option,
}

pub round_uni-decoded :
    {C : Type 0} (i : ℕ) (s : SessionAccept C) (recv : RecvStream C) (left : List (RecvStream C))
    → remove_at i s.pending_uni ≡ some (recv, left)
    → round_uni (decoded i) s
      ≡ finish_uni (decode_uni recv s.session_id) (record s { pending_uni = left })
unfolding round_uni
round_uni-decoded i s recv left e = ground (arith, e)

pub round_bi-decoded :
    {C : Type 0} (i : ℕ) (s : SessionAccept C) (recv : RecvStream C) (left : List (RecvStream C))
    → remove_at i s.pending_bi ≡ some (recv, left)
    → round_bi (decoded i) s
      ≡ finish_bi (decode_bi recv s.session_id) (record s { pending_bi = left })
unfolding round_bi
round_bi-decoded i s recv left e = ground (arith, e)

module _ {C : Type 0} (id : VarInt) (f : Outcome (SessionError C) (RecvStream C) → ℕ) where
  -- What the loop is to return for a unidirectional stream, by its header.
  abbrev pub of_header_uni : Outcome (SessionError C) (StreamUni × RecvStream C) → ℕ
  of_header_uni (ok (typ, recv)) = if typ == StreamUni.webtransport then f (ok recv) else 0
  of_header_uni (err e) = f (err e)
  of_header_uni panic = f panic

  abbrev pub of_recv_uni : RecvStream C → ℕ
  of_recv_uni recv = of_header_uni (decode_uni recv id)

  abbrev pub of_turn_uni : Turn C → ℕ
  of_turn_uni (accepted recv) = of_recv_uni recv
  of_turn_uni (lost e) = f (err (connection_error e))
  of_turn_uni (decoded i) = 0
  of_turn_uni idle = 0

  finish_uni-kept :
      (res : Outcome (SessionError C) (StreamUni × RecvStream C)) (s : SessionAccept C)
      → ((finish_uni res s).1.session_id ≡ s.session_id)
        × ((finish_uni res s).1.pending_uni ≡ s.pending_uni)
        × (of_option f (finish_uni res s).0 ≡ of_header_uni res)
  unfolding finish_uni
  finish_uni-kept (ok (typ, recv)) s = ground arith
  finish_uni-kept (err e) s = ground arith
  finish_uni-kept panic s = ground arith

  abbrev pub of_state_uni : SessionAccept C → ℕ
  of_state_uni s = sum of_recv_uni s.pending_uni

  round_uni-kept : RoundKeeps (λ s. s.session_id ≡ id) f of_turn_uni of_state_uni round_uni
  unfolding round_uni
  round_uni-kept (accepted recv) s p =
      (p, rw (sum_append of_recv_uni s.pending_uni (recv ∷ [])) (omega arith))
  round_uni-kept (lost e) s p = (p, omega arith)
  round_uni-kept (decoded i) s p = elim (Option-cases (remove_at i s.pending_uni)) [
    | inl e ↦ ground (arith, e)
    | inr ((recv, left), e) ↦
        let (same, kept, owed) =
          finish_uni-kept (decode_uni recv s.session_id) (record s { pending_uni = left }) in
        let taken = sum-remove_at of_recv_uni i s.pending_uni recv left e in
        rw (round_uni-decoded i s recv left e) (same ∙ p, rw (owed, kept, p) (omega arith))
  ]
  round_uni-kept idle s p = (p, omega arith)

  -- Whatever happens, in whatever order the headers of the streams complete, and after any number of
  -- polls: the answers returned are, by any count `f` of them, those owed for the streams that
  -- arrived and for the losses of the connection, but for those of the streams that are still pending
  -- and of the turns to come; and the session stays the one that streams are checked for.
  pub poll_accept_uni-kept :
      (n : ℕ) (ts : List (Turn C))
      → ((polls poll_accept_uni n ts (new id)).1.session_id ≡ id)
        × (sum f (polls poll_accept_uni n ts (new id)).0
              + sum of_recv_uni (polls poll_accept_uni n ts (new id)).1.pending_uni
              + sum of_turn_uni (polls poll_accept_uni n ts (new id)).2
            ≡ sum of_turn_uni ts)
  unfolding poll_accept_uni new
  poll_accept_uni-kept n ts =
      let (same, kept) =
        polls-kept (λ s. s.session_id ≡ id) f of_turn_uni of_state_uni poll_accept_uni
          (poll_rounds-kept (λ s. s.session_id ≡ id) f of_turn_uni of_state_uni round_uni
            round_uni-kept)
          n ts (new id) refl in
      (same, omega arith)

  -- What the loop is to return for a bidirectional stream, by its header.
  abbrev pub of_header_bi : Outcome (SessionError C) (Option (RecvStream C)) → ℕ
  of_header_bi (ok (some recv)) = f (ok recv)
  of_header_bi (ok none) = 0
  of_header_bi (err e) = f (err e)
  of_header_bi panic = f panic

  abbrev pub of_recv_bi : RecvStream C → ℕ
  of_recv_bi recv = of_header_bi (decode_bi recv id)

  abbrev pub of_turn_bi : Turn C → ℕ
  of_turn_bi (accepted recv) = of_recv_bi recv
  of_turn_bi (lost e) = f (err (connection_error e))
  of_turn_bi (decoded i) = 0
  of_turn_bi idle = 0

  finish_bi-kept :
      (res : Outcome (SessionError C) (Option (RecvStream C))) (s : SessionAccept C)
      → ((finish_bi res s).1.session_id ≡ s.session_id)
        × ((finish_bi res s).1.pending_bi ≡ s.pending_bi)
        × (of_option f (finish_bi res s).0 ≡ of_header_bi res)
  unfolding finish_bi
  finish_bi-kept (ok (some recv)) s = ground arith
  finish_bi-kept (ok none) s = ground arith
  finish_bi-kept (err e) s = ground arith
  finish_bi-kept panic s = ground arith

  abbrev pub of_state_bi : SessionAccept C → ℕ
  of_state_bi s = sum of_recv_bi s.pending_bi

  round_bi-kept : RoundKeeps (λ s. s.session_id ≡ id) f of_turn_bi of_state_bi round_bi
  unfolding round_bi
  round_bi-kept (accepted recv) s p =
      (p, rw (sum_append of_recv_bi s.pending_bi (recv ∷ [])) (omega arith))
  round_bi-kept (lost e) s p = (p, omega arith)
  round_bi-kept (decoded i) s p = elim (Option-cases (remove_at i s.pending_bi)) [
    | inl e ↦ ground (arith, e)
    | inr ((recv, left), e) ↦
        let (same, kept, owed) =
          finish_bi-kept (decode_bi recv s.session_id) (record s { pending_bi = left }) in
        let taken = sum-remove_at of_recv_bi i s.pending_bi recv left e in
        rw (round_bi-decoded i s recv left e) (same ∙ p, rw (owed, kept, p) (omega arith))
  ]
  round_bi-kept idle s p = (p, omega arith)

  -- Of bidirectional streams too, whatever happens, in whatever order the headers complete, and after
  -- any number of polls: the answers returned are, by any count `f` of them, those owed for the
  -- streams that arrived and for the losses of the connection, but for those of the streams that are
  -- still pending and of the turns to come; and the session stays the one that streams are checked
  -- for.
  pub poll_accept_bi-kept :
      (n : ℕ) (ts : List (Turn C))
      → ((polls poll_accept_bi n ts (new id)).1.session_id ≡ id)
        × (sum f (polls poll_accept_bi n ts (new id)).0
              + sum of_recv_bi (polls poll_accept_bi n ts (new id)).1.pending_bi
              + sum of_turn_bi (polls poll_accept_bi n ts (new id)).2
            ≡ sum of_turn_bi ts)
  unfolding poll_accept_bi new
  poll_accept_bi-kept n ts =
      let (same, kept) =
        polls-kept (λ s. s.session_id ≡ id) f of_turn_bi of_state_bi poll_accept_bi
          (poll_rounds-kept (λ s. s.session_id ≡ id) f of_turn_bi of_state_bi round_bi
            round_bi-kept)
          n ts (new id) refl in
      (same, omega arith)
