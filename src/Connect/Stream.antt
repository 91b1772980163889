-- ===== src/Connect/Stream.antt =====
-- The decoders on a buffer that grows: the callers try again exactly while the answer is `UnexpectedEnd`.
use webtransport_rs.Base.{◌≢◌, ◌++◌, ℕ, ◌≡◌, List, ◌==◌, if◌then◌else◌, Outcome, err, map_err}
use mathlib.Core.Bool.{not}
use mathlib.Core.Path.{fun_ext}
use webtransport_rs.Frame
use webtransport_rs.VarInt.{VarInt}
use webtransport_rs.VarInt.Streaming.{
  extend, IsStreaming-settled, IsStreaming, after_varint, after_varint-IsStreaming,
  guarded-IsStreaming, limited-IsStreaming, then-IsStreaming,
}
use webtransport_rs.Qpack.Headers
use webtransport_rs.Qpack.Headers.{Headers}
use webtransport_rs.Connect.HttpCrate.{Http}
use webtransport_rs.Connect.{
  ConnectError, unexpected_end, qpack_error, unexpected_frame, decode_limited, decode_headers,
  decode_request, decode_response, validate, check_status,
}

module _ (h : Http) where
  decode_limited-IsStreaming :
      (size : VarInt) → IsStreaming {E = ConnectError h} unexpected_end (decode_limited h size)
  unfolding decode_limited
  decode_limited-IsStreaming size =
      limited-IsStreaming unexpected_end (λ limit. map_err qpack_error (Headers.decode limit)) size

  after_type : VarInt → List ℕ → Outcome (ConnectError h) (Headers × List ℕ)
  after_type typ buf =
      if not (typ == Frame.headers)
      then err (unexpected_frame typ)
      else after_varint unexpected_end (decode_limited h) buf

  after_type-IsStreaming :
      (typ : VarInt) → IsStreaming {E = ConnectError h} unexpected_end (after_type typ)
  unfolding after_type
  after_type-IsStreaming typ =
      guarded-IsStreaming unexpected_end (unexpected_frame typ) _ _
        (after_varint-IsStreaming unexpected_end (decode_limited h) decode_limited-IsStreaming)

  decode_headers-after_varint :
      (buf : List ℕ) → decode_headers h buf ≡ after_varint unexpected_end after_type buf
  unfolding decode_headers after_type
  decode_headers-after_varint buf = simp Frame.decode_lem

  decode_headers-IsStreaming : IsStreaming {E = ConnectError h} unexpected_end (decode_headers h)
  decode_headers-IsStreaming =
      rw (fun_ext decode_headers-after_varint)
        (after_varint-IsStreaming unexpected_end after_type after_type-IsStreaming)

  pub decode_request-IsStreaming :
      IsStreaming {E = ConnectError h} unexpected_end (decode_request h)
  unfolding decode_request
  decode_request-IsStreaming =
      then-IsStreaming unexpected_end (decode_headers h) (validate h) decode_headers-IsStreaming

  pub decode_response-IsStreaming :
      IsStreaming {E = ConnectError h} unexpected_end (decode_response h)
  unfolding decode_response
  decode_response-IsStreaming =
      then-IsStreaming unexpected_end (decode_headers h) (check_status h) decode_headers-IsStreaming

  -- Once `ConnectRequest::decode` has answered anything but `UnexpectedEnd`, more bytes change
  -- neither the request nor the error, and are left over.
  pub decode_request_settled :
      (bs more : List ℕ)
      → decode_request h bs ≢ err unexpected_end
      → decode_request h (bs ++ more) ≡ extend more (decode_request h bs)
  decode_request_settled bs more settled =
      IsStreaming-settled unexpected_end (decode_request h) bs more decode_request-IsStreaming
        settled

  -- Once `ConnectResponse::decode` has answered anything but `UnexpectedEnd`, more bytes change
  -- neither the response nor the error, and are left over.
  pub decode_response_settled :
      (bs more : List ℕ)
      → decode_response h bs ≢ err unexpected_end
      → decode_response h (bs ++ more) ≡ extend more (decode_response h bs)
  decode_response_settled bs more settled =
      IsStreaming-settled unexpected_end (decode_response h) bs more decode_response-IsStreaming
        settled
