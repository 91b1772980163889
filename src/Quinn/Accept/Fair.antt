-- ===== src/Quinn/Accept/Fair.antt =====
-- The loop of the unidirectional streams when every stream arrives whole: what it comes to.
use webtransport_rs.Base.{
  ℕ, zero, suc, ◌<◌, ◌≡◌, ◌∙◌, refl, ap, none, some, List, [], ◌∷◌, ◌++◌, length, append_assoc,
  ◌==◌, if◌then◌else◌, Outcome, ok, err, panic, inl, inr, arith, Bool-cases, ◌⊎◌, append-nil,
}
use webtransport_rs.Base.Counting.{remove_at}
use webtransport_rs.StreamUni
use webtransport_rs.StreamUni.{StreamUni}
use webtransport_rs.VarInt.{VarInt}
use webtransport_rs.Quinn.Errors.{SessionError}
use webtransport_rs.Quinn.StreamHeader.{RecvStream, decode_uni}
use webtransport_rs.Quinn.Accept.{
  SessionAccept, new, Turn, accepted, decoded, finish_uni, round_uni, poll_accept_uni,
}
use webtransport_rs.Quinn.Accept.Conserved.{round_uni-decoded}
use webtransport_rs.Quinn.Accept.InOrder.{one_each, all_of, Finishes, polls-one_each}
use webtransport_rs.Quinn.Accept.Polling.{ready, polls, polls-poll, poll_rounds}

module _ {C : Type 0} where
  -- The answer for a stream, by its header: none for a stream of another type.
  abbrev pub owed :
      Outcome (SessionError C) (StreamUni × RecvStream C)
      → List (Outcome (SessionError C) (RecvStream C))
      → List (Outcome (SessionError C) (RecvStream C))
  owed (ok (typ, recv)) more = if typ == StreamUni.webtransport then ok recv ∷ more else more
  owed (err e) more = err e ∷ more
  owed panic more = panic ∷ more

  abbrev pub all_owed :
      VarInt → List (RecvStream C) → List (Outcome (SessionError C) (RecvStream C))
  all_owed id = all_of (λ recv. owed (decode_uni recv id))

  -- The streams arrive, and their headers are read, in order.
  abbrev pub arrivals : List (RecvStream C) → List (Turn C) → List (Turn C)
  arrivals [] ts = ts
  arrivals (recv ∷ more) ts = accepted recv ∷ arrivals more ts

  abbrev pub in_order : List (RecvStream C) → List (Turn C)
  in_order = one_each (decoded 0)

  finish_uni_cases :
      (res : Outcome (SessionError C) (StreamUni × RecvStream C)) (s : SessionAccept C)
      → ((finish_uni res s).1.session_id ≡ s.session_id)
        × ((finish_uni res s).1.pending_uni ≡ s.pending_uni)
        × ((((finish_uni res s).0 ≡ none)
              × ((more : List (Outcome (SessionError C) (RecvStream C))) → owed res more ≡ more))
            ⊎ ((answer : Outcome (SessionError C) (RecvStream C)) × ((finish_uni res s).0
                  ≡ some (ready answer))
                × ((more : List (Outcome (SessionError C) (RecvStream C)))
                    → owed res more ≡ answer ∷ more)))
  unfolding finish_uni
  finish_uni_cases (ok (typ, recv)) s = elim (Bool-cases (typ == StreamUni.webtransport)) [
    | inl e ↦ (
      ground (arith, e),
      ground (arith, e),
      inr (ok recv, ground (arith, e), λ more. ground (arith, e)),
    )
    | inr ne ↦ (
      ground (arith, ne),
      ground (arith, ne),
      inl (ground (arith, ne), λ more. ground (arith, ne)),
    )
  ]
  finish_uni_cases (err e) s = (refl, refl, inr (err e, refl, λ more. refl))
  finish_uni_cases panic s = (refl, refl, inr (panic, refl, λ more. refl))

  -- The session, and the streams that are pending.
  abbrev PendingUni : VarInt → List (RecvStream C) → SessionAccept C → Type 0
  PendingUni id recvs s = (s.session_id ≡ id) × (s.pending_uni ≡ recvs)

  round_uni-Finishes :
      (id : VarInt) (recv : RecvStream C) (more : List (RecvStream C)) (s : SessionAccept C)
      → PendingUni id (recv ∷ more) s
      → PendingUni id more (round_uni (decoded 0) s).1
        × Finishes (λ recv. owed (decode_uni recv id)) recv (round_uni (decoded 0) s).0
  unfolding remove_at
  round_uni-Finishes id recv more s (same, whole) =
      let s' : SessionAccept C = record s { pending_uni = more } in
      let r : round_uni (decoded 0) s ≡ finish_uni (decode_uni recv id) s' =
        round_uni-decoded 0 s recv more (ground (arith, whole))
        ∙ ap (λ i. finish_uni (decode_uni recv i) s') same in
      let (same', left, found) = finish_uni_cases (decode_uni recv id) s' in
      rw r ((same' ∙ same, left), found)

  polls-in_order :
      (id : VarInt) (n : ℕ) (recvs : List (RecvStream C)) (s : SessionAccept C)
      → PendingUni id recvs s
      → length recvs < n
      → ((polls poll_accept_uni n (in_order recvs) s).0 ≡ all_owed id recvs)
        × ((polls poll_accept_uni n (in_order recvs) s).1.pending_uni ≡ [])
  unfolding poll_accept_uni
  polls-in_order id n recvs s at h =
      let (all, left) =
        polls-one_each round_uni (decoded 0) (PendingUni id) (λ recv. owed (decode_uni recv id))
          (round_uni-Finishes id) n recvs s at h in
      (all, left.1)

  poll-arrivals :
      (recvs : List (RecvStream C)) (ts : List (Turn C)) (s : SessionAccept C)
      → poll_accept_uni (arrivals recvs ts) s
        ≡ poll_accept_uni ts (record s { pending_uni = s.pending_uni ++ recvs })
  unfolding poll_accept_uni poll_rounds round_uni
  poll-arrivals [] ts s = rw (append-nil s.pending_uni) refl
  poll-arrivals (recv ∷ more) ts s =
      poll-arrivals more ts (record s { pending_uni = s.pending_uni ++ recv ∷ [] })
      ∙ rw (append_assoc s.pending_uni (recv ∷ []) more) refl

  -- When all of the streams `recvs` arrive, and their headers are then read in order, one poll more
  -- than there are streams returns every answer that is owed for them, in that order, and leaves no
  -- stream pending.
  pub poll_accept_uni-all :
      (id : VarInt) (recvs : List (RecvStream C)) (n : ℕ)
      → length recvs < n
      → ((polls poll_accept_uni n (arrivals recvs (in_order recvs)) (new id)).0 ≡ all_owed id recvs)
        × ((polls poll_accept_uni n (arrivals recvs (in_order recvs)) (new id)).1.pending_uni ≡ [])
  unfolding new
  poll_accept_uni-all id recvs zero h = absurd (omega arith)
  poll_accept_uni-all id recvs (suc n) h =
      rw
        (polls-poll poll_accept_uni n (arrivals recvs (in_order recvs)) (in_order recvs) (new id)
          (record (new id) { pending_uni = recvs }) (poll-arrivals recvs (in_order recvs) (new id)))
        (polls-in_order id (suc n) recvs (record (new id) { pending_uni = recvs }) (refl, refl) h)
