-- ===== src/Quinn/ConnectStream/Exchange.antt =====
-- What the client writes, the server accepts; neither side depends on how the streams are cut.
use webtransport_rs.Base.{ℕ, ◌≡◌, ◌↔◌, refl, true, some, List, [], Outcome, ok, err, ◌>>=◌, arith}
use webtransport_rs.HashMap.{bytes_eq}
use webtransport_rs.Frame
use webtransport_rs.VarInt
use webtransport_rs.Qpack.Text.{Bytes}
use webtransport_rs.Qpack.Headers.{Headers}
use webtransport_rs.Connect
use webtransport_rs.Connect.{
  ConnectRequest, ConnectResponse, decode_request, decode_response, decode_headers,
}
use webtransport_rs.Connect.Encode.{encode_request}
use webtransport_rs.Connect.HttpCrate.{Http}
use webtransport_rs.Connect.Stream.{decode_request-IsStreaming, decode_response-IsStreaming}
use webtransport_rs.Quinn.Reading.{chunks, joined, read_loop-joined, at_end}
use webtransport_rs.Quinn.ConnectStream.{
  ConnectError, unexpected_end, read_error, proto_error, is_unexpected_end, accept, expect_ok,
  open_connect,
}

module _ {h : Http} where
  again_iff :
      (e : Connect.ConnectError h) → (is_unexpected_end e ≡ true) ↔ (e ≡ Connect.unexpected_end)
  again_iff Connect.unexpected_end = (λ q. refl, λ q. refl)
  again_iff (Connect.qpack_error x) = (λ q. cc, λ q. cc)
  again_iff (Connect.unexpected_frame x) = (λ q. cc, λ q. cc)
  again_iff (Connect.invalid_method x) = (λ q. cc, λ q. cc)
  again_iff (Connect.invalid_uri x) = (λ q. cc, λ q. cc)
  again_iff (Connect.invalid_uri_parts x) = (λ q. cc, λ q. cc)
  again_iff (Connect.invalid_status x) = (λ q. cc, λ q. cc)
  again_iff (Connect.wrong_status x) = (λ q. cc, λ q. cc)
  again_iff (Connect.wrong_method x) = (λ q. cc, λ q. cc)
  again_iff (Connect.wrong_scheme x) = (λ q. cc, λ q. cc)
  again_iff Connect.wrong_authority = (λ q. cc, λ q. cc)
  again_iff (Connect.wrong_protocol x) = (λ q. cc, λ q. cc)
  again_iff (Connect.error_status x) = (λ q. cc, λ q. cc)

  decode_request-nil : decode_request h [] ≡ err Connect.unexpected_end
  unfolding decode_request decode_headers Frame.decode VarInt.decode
  decode_request-nil = refl

  decode_response-nil : decode_response h [] ≡ err Connect.unexpected_end
  unfolding decode_response decode_headers Frame.decode VarInt.decode
  decode_response-nil = refl

module _ {h : Http} {C R W : Type 0} where
  -- What a side makes of its whole stream.
  abbrev pub request_answer :
      Outcome (Connect.ConnectError h) (ConnectRequest h × List ℕ)
      → Outcome (ConnectError h C R W) (ConnectRequest h)
  request_answer r =
      at_end {R = R} unexpected_end read_error proto_error is_unexpected_end (decode_request h) r

  abbrev pub response_answer :
      Outcome (Connect.ConnectError h) (ConnectResponse h × List ℕ)
      → Outcome (ConnectError h C R W) (ConnectResponse h)
  response_answer r =
      at_end {R = R} unexpected_end read_error proto_error is_unexpected_end (decode_response h) r

  -- However the stream of a request is cut into chunks, and it then ends, `accept` comes to one
  -- decoding of the whole stream.
  pub accept-chunks_connect :
      (cs : List (List ℕ))
      → accept {h = h} {C = C} {R = R} {W = W} (ok (chunks cs))
        ≡ request_answer (decode_request h (joined cs))
  unfolding accept
  accept-chunks_connect cs =
      read_loop-joined unexpected_end read_error proto_error is_unexpected_end (decode_request h)
        Connect.unexpected_end again_iff (decode_request-IsStreaming h) cs [] decode_request-nil

  -- However the stream of a response is cut into chunks, and it then ends, the client, whose request
  -- was written, comes to one decoding of the whole stream.
  pub open_connect-chunks :
      (iter : Headers → List (Bytes × Bytes)) (uri : h.Uri) (bs : List ℕ) (cs : List (List ℕ))
      → encode_request h iter (record { uri = uri }) ≡ some bs
      → open_connect {h = h} {C = C} {R = R} {W = W} iter (ok (chunks cs)) (λ _. ok tt) uri
        ≡ (response_answer (decode_response h (joined cs)) >>= expect_ok uri)
  unfolding open_connect
  open_connect-chunks iter uri bs cs e = ground (
    arith,
    e,
    read_loop-joined {R = R} {X = ConnectError h C R W} unexpected_end read_error proto_error
        is_unexpected_end (decode_response h) Connect.unexpected_end again_iff
        (decode_response-IsStreaming h) cs [] decode_response-nil,
  )
