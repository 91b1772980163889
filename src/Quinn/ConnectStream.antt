-- ===== src/Quinn/ConnectStream.antt =====
-- webtransport-quinn/src/connect.rs: the two sides of the CONNECT exchange. The errors of quinn are the
-- parameters `C` (of a connection), `R` (of a read) and `W` (of a write).
pub mod Exchange
mod Runs
use webtransport_rs.Base.{
  ℕ, Bool, true, false, Option, none, some, List, [], if◌then◌else◌, Outcome, ok, err, panic, ◌>>=◌,
  map_err,
}
use webtransport_rs.Qpack.Text.{Bytes}
use webtransport_rs.Qpack.Headers.{Headers}
use webtransport_rs.VarInt
use webtransport_rs.VarInt.{VarInt}
use webtransport_rs.Connect
use webtransport_rs.Connect.{ConnectRequest, ConnectResponse, decode_request, decode_response}
use webtransport_rs.Connect.Encode.{encode_request, encode_response}
use webtransport_rs.Connect.HttpCrate.{Http}
use webtransport_rs.Quinn.Reading.{Event, read_loop}

module _ (h : Http) (C R W : Type 0) where
  pub data ConnectError : Type 0 where
    unexpected_end : ConnectError
    proto_error : Connect.ConnectError h → ConnectError
    connection_error : C → ConnectError
    read_error : R → ConnectError
    write_error : W → ConnectError
    error_status : h.StatusCode → ConnectError

-- The arm that tries again: there was not enough data in the buffer.
abbrev pub is_unexpected_end : {h : Http} → Connect.ConnectError h → Bool
is_unexpected_end Connect.unexpected_end = true
is_unexpected_end (Connect.qpack_error x) = false
is_unexpected_end (Connect.unexpected_frame x) = false
is_unexpected_end (Connect.invalid_method x) = false
is_unexpected_end (Connect.invalid_uri x) = false
is_unexpected_end (Connect.invalid_uri_parts x) = false
is_unexpected_end (Connect.invalid_status x) = false
is_unexpected_end (Connect.wrong_status x) = false
is_unexpected_end (Connect.wrong_method x) = false
is_unexpected_end (Connect.wrong_scheme x) = false
is_unexpected_end Connect.wrong_authority = false
is_unexpected_end (Connect.wrong_protocol x) = false
is_unexpected_end (Connect.error_status x) = false

-- The session ID is the stream ID of the CONNECT request: a VarInt of quinn, converted.
unfoldable pub session_id : ℕ → Option VarInt
session_id stream_id = elim (VarInt.from_u64 stream_id) [
  | ok x ↦ some x
  | err e ↦ none
  | panic ↦ none
]

-- The bytes that `respond` writes, and the answer of `write_all`.
unfoldable pub respond :
    (h : Http) {W : Type 0}
    → (Headers → List (Bytes × Bytes))
    → h.StatusCode
    → (List ℕ → Outcome W (Unit {0}))
    → Outcome W (List ℕ)
respond h iter status write_all = elim (encode_response h iter (record { status = status })) [
  | none ↦ panic
  | some buf ↦ write_all buf >>= λ _. ok buf
]

module _ {h : Http} {C R W : Type 0} where
  -- `stream` is the answer of `accept_bi`: what arrives on the stream. The streams that the code
  -- keeps in the result are left out.
  unfoldable pub accept :
      Outcome C (List (Event R)) → Outcome (ConnectError h C R W) (ConnectRequest h)
  accept stream = do
    recv ← map_err connection_error stream
    read_loop unexpected_end read_error proto_error is_unexpected_end (decode_request h) [] recv

  -- The test behind the loop of `open`.
  abbrev pub expect_ok :
      h.Uri → ConnectResponse h → Outcome (ConnectError h C R W) (ConnectRequest h)
  expect_ok uri response =
      if h.is_ok response.status
      then ok (record { uri = uri })
      else err (error_status response.status)

  -- `open`: the answer of `open_bi` holds what will arrive on the stream.
  unfoldable pub open_connect :
      (Headers → List (Bytes × Bytes))
      → Outcome C (List (Event R))
      → (List ℕ → Outcome W (Unit {0}))
      → h.Uri
      → Outcome (ConnectError h C R W) (ConnectRequest h)
  open_connect iter stream write_all uri = do
    recv ← map_err connection_error stream
    elim (encode_request h iter (record { uri = uri })) [
      | none ↦ panic
      | some buf ↦ do
        _ ← map_err write_error (write_all buf)
        response ←
            read_loop unexpected_end read_error proto_error is_unexpected_end (decode_response h) []
              recv
        expect_ok uri response
    ]
