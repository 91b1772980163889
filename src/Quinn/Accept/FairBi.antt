-- ===== src/Quinn/Accept/FairBi.antt =====
-- The loop of the bidirectional streams when every stream arrives whole: what it comes to.
use webtransport_rs.Base.{
  ℕ, zero, suc, ◌<◌, ◌≡◌, ◌∙◌, refl, ap, Option, none, some, List, [], ◌∷◌, ◌++◌, length,
  append_assoc, append-nil, Outcome, ok, err, panic, inl, inr, arith,
}
use webtransport_rs.Base.Counting.{remove_at}
use webtransport_rs.VarInt.{VarInt}
use webtransport_rs.Quinn.Errors.{SessionError}
use webtransport_rs.Quinn.StreamHeader.{RecvStream, decode_bi}
use webtransport_rs.Quinn.Accept.{
  SessionAccept, new, Turn, decoded, finish_bi, round_bi, poll_accept_bi,
}
use webtransport_rs.Quinn.Accept.Conserved.{round_bi-decoded}
use webtransport_rs.Quinn.Accept.Fair.{arrivals, in_order}
use webtransport_rs.Quinn.Accept.InOrder.{all_of, Finishes, polls-one_each}
use webtransport_rs.Quinn.Accept.Polling.{polls, polls-poll, poll_rounds}

module _ {C : Type 0} where
  -- The answer for a stream, by its header: none for a stream of another type.
  abbrev pub owed_bi :
      Outcome (SessionError C) (Option (RecvStream C))
      → List (Outcome (SessionError C) (RecvStream C))
      → List (Outcome (SessionError C) (RecvStream C))
  owed_bi (ok (some recv)) more = ok recv ∷ more
  owed_bi (ok none) more = more
  owed_bi (err e) more = err e ∷ more
  owed_bi panic more = panic ∷ more

  abbrev pub all_owed_bi :
      VarInt → List (RecvStream C) → List (Outcome (SessionError C) (RecvStream C))
  all_owed_bi id = all_of (λ recv. owed_bi (decode_bi recv id))

  abbrev PendingBi : VarInt → List (RecvStream C) → SessionAccept C → Type 0
  PendingBi id recvs s = (s.session_id ≡ id) × (s.pending_bi ≡ recvs)

  finish_bi-Finishes :
      (id : VarInt) (recv : RecvStream C) (more : List (RecvStream C)) (s : SessionAccept C)
      (res : Outcome (SessionError C) (Option (RecvStream C)))
      → PendingBi id more s
      → PendingBi id more (finish_bi res s).1
        × Finishes (λ recv. owed_bi res) recv (finish_bi res s).0
  unfolding finish_bi
  finish_bi-Finishes id recv more s (ok (some found)) p = (p, inr (ok found, refl, λ more. refl))
  finish_bi-Finishes id recv more s (ok none) p = (p, inl (refl, λ more. refl))
  finish_bi-Finishes id recv more s (err e) p = (p, inr (err e, refl, λ more. refl))
  finish_bi-Finishes id recv more s panic p = (p, inr (panic, refl, λ more. refl))

  round_bi-Finishes :
      (id : VarInt) (recv : RecvStream C) (more : List (RecvStream C)) (s : SessionAccept C)
      → PendingBi id (recv ∷ more) s
      → PendingBi id more (round_bi (decoded 0) s).1
        × Finishes (λ recv. owed_bi (decode_bi recv id)) recv (round_bi (decoded 0) s).0
  unfolding remove_at
  round_bi-Finishes id recv more s (same, whole) =
      let s' : SessionAccept C = record s { pending_bi = more } in
      let r : round_bi (decoded 0) s ≡ finish_bi (decode_bi recv id) s' =
        round_bi-decoded 0 s recv more (ground (arith, whole))
        ∙ ap (λ i. finish_bi (decode_bi recv i) s') same in
      rw r (finish_bi-Finishes id recv more s' (decode_bi recv id) (same, refl))

  poll-arrivals_bi :
      (recvs : List (RecvStream C)) (ts : List (Turn C)) (s : SessionAccept C)
      → poll_accept_bi (arrivals recvs ts) s
        ≡ poll_accept_bi ts (record s { pending_bi = s.pending_bi ++ recvs })
  unfolding poll_accept_bi poll_rounds round_bi
  poll-arrivals_bi [] ts s = rw (append-nil s.pending_bi) refl
  poll-arrivals_bi (recv ∷ more) ts s =
      poll-arrivals_bi more ts (record s { pending_bi = s.pending_bi ++ recv ∷ [] })
      ∙ rw (append_assoc s.pending_bi (recv ∷ []) more) refl

  -- When all of the bidirectional streams `recvs` arrive, and their headers are then read in order, one
  -- poll more than there are streams returns every answer that is owed for them, in that order, and leaves
  -- no stream pending.
  pub poll_accept_bi-all :
      (id : VarInt) (recvs : List (RecvStream C)) (n : ℕ)
      → length recvs < n
      → ((polls poll_accept_bi n (arrivals recvs (in_order recvs)) (new id)).0
          ≡ all_owed_bi id recvs)
        × ((polls poll_accept_bi n (arrivals recvs (in_order recvs)) (new id)).1.pending_bi ≡ [])
  unfolding new poll_accept_bi
  poll_accept_bi-all id recvs zero h = absurd (omega arith)
  poll_accept_bi-all id recvs (suc n) h =
      let s : SessionAccept C = record (new id) { pending_bi = recvs } in
      let (all, left) =
        polls-one_each round_bi (decoded 0) (PendingBi id) (λ recv. owed_bi (decode_bi recv id))
          (round_bi-Finishes id) (suc n) recvs s (refl, refl) h in
      rw
        (polls-poll poll_accept_bi n (arrivals recvs (in_order recvs)) (in_order recvs) (new id) s
          (poll-arrivals_bi recvs (in_order recvs) (new id)))
        (all, left.1)
