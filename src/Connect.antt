-- ===== src/Connect.antt =====
-- webtransport-proto/src/connect.rs: the CONNECT request and its response.
pub mod HttpCrate
pub mod Encode
pub mod Stream
pub mod Total
pub mod RoundTrip
pub mod ResponseTrip
pub mod Plain
mod Runs
use webtransport_rs.Base.{
  ℕ, ◌%◌, ◌^◌, Bool, true, false, Option, none, some, List, [], ◌∷◌, ◌++◌, length, take, drop, ltb,
  ◌==◌, if◌then◌else◌, Outcome, ok, err, panic, ◌>>=◌, map_err,
}
use mathlib.Core.Bool.{not}
use webtransport_rs.HashMap.{bytes_beq}
use webtransport_rs.VarInt
use webtransport_rs.Frame
use webtransport_rs.Frame.{Frame}
use webtransport_rs.Qpack.Error.{DecodeError}
use webtransport_rs.Qpack.Text.{Bytes, codes}
use webtransport_rs.Qpack.Headers
use webtransport_rs.Qpack.Headers.{Headers}
use HttpCrate.{Http}

module _ (h : Http) where
  pub data ConnectError : Type 0 where
    unexpected_end : ConnectError
    qpack_error : DecodeError → ConnectError
    unexpected_frame : Frame → ConnectError
    invalid_method : h.InvalidMethod → ConnectError
    invalid_uri : h.InvalidUri → ConnectError
    invalid_uri_parts : h.InvalidUriParts → ConnectError
    invalid_status : h.InvalidStatusCode → ConnectError
    wrong_status : Option h.StatusCode → ConnectError
    wrong_method : Option h.Method → ConnectError
    wrong_scheme : Option h.Scheme → ConnectError
    wrong_authority : ConnectError
    wrong_protocol : Option Bytes → ConnectError
    error_status : h.StatusCode → ConnectError

  pub record ConnectRequest : Type 0 where
    pub uri : h.Uri

  pub record ConnectResponse : Type 0 where
    pub status : h.StatusCode

  -- `headers.get(..).map(..).transpose()?`.
  abbrev convert {ℓ κ} :
      {F : Type ℓ} {A : Type κ}
      → (F → ConnectError)
      → (Bytes → Outcome F A)
      → Option Bytes
      → Outcome ConnectError (Option A)
  convert wrap f none = ok none
  convert wrap f (some text) = map_err wrap (f text) >>= λ a. ok (some a)

  -- The frame, up to its headers: both decoders start with it.
  unfoldable pub decode_limited : ℕ → List ℕ → Outcome ConnectError (Headers × List ℕ)
  decode_limited size buf =
      let limit = take size buf in
      if ltb (length limit) size
      then err unexpected_end
      else do headers ← map_err qpack_error (Headers.decode limit); ok (headers, drop size buf)

  unfoldable pub decode_headers : List ℕ → Outcome ConnectError (Headers × List ℕ)
  decode_headers buf = do
    (typ, buf) ← map_err (λ _. unexpected_end) (Frame.decode buf)
    if not (typ == Frame.headers) then err (unexpected_frame typ) else do
      (size, buf) ← map_err (λ _. unexpected_end) (VarInt.decode buf)
      decode_limited size buf

  -- The headers `:scheme`, `:authority` and `:path`, put together.
  unfoldable pub decode_uri : Headers → Outcome ConnectError h.Uri
  decode_uri headers = do
    scheme ← convert invalid_uri h.to_scheme (Headers.get headers (codes ":scheme"))
    authority ← convert invalid_uri h.to_authority (Headers.get headers (codes ":authority"))
    path ← convert invalid_uri h.to_path_and_query (Headers.get headers (codes ":path"))
    map_err invalid_uri_parts (h.from_parts scheme authority path)

  is_method_connect : Option h.Method → Bool
  is_method_connect none = false
  is_method_connect (some m) = h.is_connect m

  is_protocol_webtransport : Option Bytes → Bool
  is_protocol_webtransport none = false
  is_protocol_webtransport (some p) = bytes_beq p (codes "webtransport")

  is_scheme_https : Option h.Scheme → Bool
  is_scheme_https none = false
  is_scheme_https (some s) = h.is_https s

  -- The tests of the headers, in the order of the code.
  unfoldable pub validate : Headers → Outcome ConnectError ConnectRequest
  unfolding is_method_connect is_protocol_webtransport is_scheme_https
  validate headers = do
    uri ← decode_uri headers
    method ← convert invalid_method h.to_method (Headers.get headers (codes ":method"))
    let protocol = Headers.get headers (codes ":protocol")
    if not (is_method_connect method)
        then err (wrong_method method)
        else if not (is_protocol_webtransport protocol)
        then err (wrong_protocol protocol)
        else if not (is_scheme_https (h.scheme uri))
        then err (wrong_scheme (h.scheme uri))
        else elim (h.authority uri) [
          | none ↦ err wrong_authority
          | some authority ↦ ok (record { uri = uri })
        ]

  unfoldable pub decode_request : List ℕ → Outcome ConnectError (ConnectRequest × List ℕ)
  decode_request buf = do
    (headers, rest) ← decode_headers buf
    request ← validate headers
    ok (request, rest)

  -- The test of the status.
  unfoldable pub check_status : Headers → Outcome ConnectError ConnectResponse
  check_status headers = do
    status ← convert invalid_status h.to_status (Headers.get headers (codes ":status"))
    elim status [
      | none ↦ err (wrong_status none)
      | some status ↦
          if h.is_success status
          then ok (record { status = status })
          else err (wrong_status (some status))
    ]

  unfoldable pub decode_response : List ℕ → Outcome ConnectError (ConnectResponse × List ℕ)
  decode_response buf = do
    (headers, rest) ← decode_headers buf
    response ← check_status headers
    ok (response, rest)
