-- ===== src/Quinn/Session/Peers.antt =====
-- The two ends of a session: what one opens, the other accepts, and what it learns of a close.
use webtransport_rs.Base.{
  ℕ, suc, ◌/◌, ◌^◌, ◌<◌, ◌≡◌, ◌∙◌, refl, ap, Option, some, List, [], ◌∷◌, ◌++◌, length, Outcome, ok,
  arith, All, IsByte,
}
use webtransport_rs.StreamUni
use webtransport_rs.ErrorCode.{error_to_http3}
use webtransport_rs.ErrorCode.Range.{error_to_http3_range}
use webtransport_rs.ErrorCode.RoundTrip.{error_from_http3-error_to_http3}
use webtransport_rs.VarInt
use webtransport_rs.VarInt.{VarInt, IsVarInt}
use webtransport_rs.Quinn.QuinnCrate
use webtransport_rs.Quinn.QuinnCrate.{ReadExactError}
use webtransport_rs.Quinn.Errors.{SessionError, session_code}
use webtransport_rs.Quinn.ConnectStream.{session_id}
use webtransport_rs.Quinn.StreamHeader.{RecvStream, decode_uni}
use webtransport_rs.Quinn.StreamHeader.Open
use webtransport_rs.Quinn.StreamHeader.Laws.{decode_uni-header_uni, decode_bi-header_bi}
use webtransport_rs.Quinn.Accept
use webtransport_rs.Quinn.Accept.{poll_accept_uni}
use webtransport_rs.Quinn.Accept.Polling.{polls}
use webtransport_rs.Quinn.Accept.Fair.{all_owed, arrivals, in_order, poll_accept_uni-all}
use webtransport_rs.Quinn.Session
use webtransport_rs.Quinn.Session.{Session}
use webtransport_rs.Quinn.Session.Calls.{open_uni, write_full, close, closed}

-- The session of a CONNECT stream: the two headers, and the accept loops of that ID.
pub new_lem :
    {C : Type 0} (id : VarInt)
    → IsVarInt id
    → (uni : List ℕ) × (bi : List ℕ) × (Session.new {C = C} id
        ≡ some (record { accept = Accept.new id; header_uni = uni; header_bi = bi }))
      × (Open.header_uni id ≡ some uni)
      × (Open.header_bi id ≡ some bi)
unfolding Session.new session_id VarInt.from_u64
new_lem {C = C} id h =
    let (uni, eu, _) = decode_uni-header_uni {C = C} id id [] QuinnCrate.finished_early h tt in
    let (bi, eb, _) = decode_bi-header_bi {C = C} id id [] QuinnCrate.finished_early h tt in
    (uni, bi, ground (arith, eu, eb), eu, eb)

module _ {C : Type 0} (ends : ReadExactError C) where
  -- Streams that were opened with the header `bs`, and then carried these contents.
  abbrev pub sent : List ℕ → List (List ℕ) → List (RecvStream C)
  sent bs [] = []
  sent bs (content ∷ more) = record { bytes = bs ++ content; ends = ends } ∷ sent bs more

  abbrev pub delivered : List (List ℕ) → List (Outcome (SessionError C) (RecvStream C))
  delivered [] = []
  delivered (content ∷ more) = ok (record { bytes = content; ends = ends }) ∷ delivered more

  all_owed-sent :
      (id : VarInt) (bs : List ℕ) (contents : List (List ℕ))
      → IsVarInt id
      → Open.header_uni id ≡ some bs
      → All (All IsByte) contents
      → all_owed id (sent bs contents) ≡ delivered contents
  all_owed-sent id bs [] h e bytes = refl
  all_owed-sent id bs (content ∷ more) h e bytes =
      let (bs', e', read) = decode_uni-header_uni id id content ends h bytes.0 in
      let same : bs ≡ bs' = cc (e, e') in
      let here : decode_uni (record { bytes = bs ++ content; ends = ends }) id
          ≡ ok (StreamUni.webtransport, record { bytes = content; ends = ends }) =
        rw same (read ∙ ground arith) in
      rw (here, all_owed-sent id bs more h e bytes.1) refl

  pub length-arrivals :
      (bs : List ℕ) (contents : List (List ℕ)) → length (sent bs contents) ≡ length contents
  length-arrivals bs [] = refl
  length-arrivals bs (content ∷ more) = ap suc (length-arrivals bs more)

  -- The session of a CONNECT stream, which both ends have the ID of: `new` makes it, `open_uni` puts
  -- the same bytes on each stream, and when any number of streams arrive that were opened so, each
  -- with any bytes behind, and their headers are read in order, one poll more than there are streams
  -- returns them all, in order, each with just the bytes behind, and leaves no stream pending.
  pub open_uni-accept :
      (id : VarInt) (contents : List (List ℕ)) (n : ℕ)
      → IsVarInt id
      → All (All IsByte) contents
      → length contents < n
      → (s : Session C) × (bs : List ℕ) × (Session.new id ≡ some s)
        × (open_uni (ok tt) (λ _. ok tt) s ≡ ok bs)
        × ((polls poll_accept_uni n
              (arrivals (sent bs contents) (in_order (sent bs contents)))
              s.accept).0
            ≡ delivered contents)
        × ((polls poll_accept_uni n
              (arrivals (sent bs contents) (in_order (sent bs contents)))
              s.accept).1.pending_uni
            ≡ [])
  unfolding open_uni write_full
  open_uni-accept id contents n h bytes enough =
      let (bs, bi, made, e, _) = new_lem {C = C} id h in
      let (all, none_left) =
        poll_accept_uni-all id (sent bs contents) n (rw (length-arrivals bs contents) enough) in
      (
        record { accept = Accept.new id; header_uni = bs; header_bi = bi },
        bs,
        made,
        refl,
        all ∙ all_owed-sent id bs contents h e bytes,
        none_left,
      )

-- A close with the code `c`, a u32, does not panic, and the peer, to whom quinn reports an application
-- close with the code that quinn was called with, finds the code `c / 30` in its error.
pub close-session_code :
    (C : Type 0) (application_code : C → Option ℕ) (report : ℕ → C) (try_from : ℕ → Option ℕ)
    → ((q : ℕ) → application_code (report q) ≡ some q)
    → ((x : ℕ) → x < 2 ^ 62 → try_from x ≡ some x)
    → (c : ℕ) → c < 2 ^ 32
    → (q : ℕ) × (close try_from c ≡ some q)
      × (session_code application_code (closed (report q)) ≡ some (some (c / 30)))
unfolding close session_code
close-session_code C application_code report try_from reported converts c h =
    let (_, _, small, _) = error_to_http3_range c h in
    (
      error_to_http3 c,
      converts (error_to_http3 c) small,
      ground (arith, reported (error_to_http3 c), error_from_http3-error_to_http3 c h),
    )
