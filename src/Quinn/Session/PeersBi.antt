-- ===== src/Quinn/Session/PeersBi.antt =====
-- The two ends of a session: the bidirectional streams that one opens, the other accepts.
use webtransport_rs.Base.{
  ℕ, ◌<◌, ◌≡◌, ◌∙◌, refl, some, List, [], ◌∷◌, ◌++◌, length, ok, arith, All, IsByte,
}
use webtransport_rs.VarInt.{VarInt, IsVarInt}
use webtransport_rs.Quinn.QuinnCrate.{ReadExactError}
use webtransport_rs.Quinn.StreamHeader.{decode_bi}
use webtransport_rs.Quinn.StreamHeader.Open
use webtransport_rs.Quinn.StreamHeader.Laws.{decode_bi-header_bi}
use webtransport_rs.Quinn.Accept
use webtransport_rs.Quinn.Accept.{poll_accept_bi}
use webtransport_rs.Quinn.Accept.Polling.{polls}
use webtransport_rs.Quinn.Accept.Fair.{arrivals, in_order}
use webtransport_rs.Quinn.Accept.FairBi.{all_owed_bi, poll_accept_bi-all}
use webtransport_rs.Quinn.Session
use webtransport_rs.Quinn.Session.{Session}
use webtransport_rs.Quinn.Session.Calls.{open_bi, write_full}
use webtransport_rs.Quinn.Session.Peers.{new_lem, sent, delivered, length-arrivals}

module _ {C : Type 0} (ends : ReadExactError C) where
  all_owed_bi-sent :
      (id : VarInt) (bs : List ℕ) (contents : List (List ℕ))
      → IsVarInt id
      → Open.header_bi id ≡ some bs
      → All (All IsByte) contents
      → all_owed_bi id (sent ends bs contents) ≡ delivered ends contents
  all_owed_bi-sent id bs [] h e bytes = refl
  all_owed_bi-sent id bs (content ∷ more) h e bytes =
      let (bs', e', read) = decode_bi-header_bi id id content ends h bytes.0 in
      let same : bs ≡ bs' = cc (e, e') in
      let here : decode_bi (record { bytes = bs ++ content; ends = ends }) id
          ≡ ok (some (record { bytes = content; ends = ends })) =
        rw same (read ∙ ground arith) in
      rw (here, all_owed_bi-sent id bs more h e bytes.1) refl

  -- The session of a CONNECT stream, which both ends have the ID of: `new` makes it, `open_bi` puts the
  -- same bytes on each stream, and when any number of bidirectional streams arrive that were opened so,
  -- each with any bytes behind, and their headers are read in order, one poll more than there are streams
  -- returns them all, in order, each with just the bytes behind, and leaves no stream pending.
  pub open_bi-accept :
      (id : VarInt) (contents : List (List ℕ)) (n : ℕ)
      → IsVarInt id
      → All (All IsByte) contents
      → length contents < n
      → (s : Session C) × (bs : List ℕ) × (Session.new id ≡ some s)
        × (open_bi (ok tt) (λ _. ok tt) s ≡ ok bs)
        × ((polls poll_accept_bi n
              (arrivals (sent ends bs contents) (in_order (sent ends bs contents)))
              s.accept).0
            ≡ delivered ends contents)
        × ((polls poll_accept_bi n
              (arrivals (sent ends bs contents) (in_order (sent ends bs contents)))
              s.accept).1.pending_bi
            ≡ [])
  unfolding open_bi write_full
  open_bi-accept id contents n h bytes enough =
      let (bs, bi, made, _, e) = new_lem {C = C} id h in
      let (all, none_left) =
        poll_accept_bi-all id (sent ends bi contents) n
          (rw (length-arrivals ends bi contents) enough) in
      (
        record { accept = Accept.new id; header_uni = bs; header_bi = bi },
        bi,
        made,
        refl,
        all ∙ all_owed_bi-sent id bi contents h e bytes,
        none_left,
      )
