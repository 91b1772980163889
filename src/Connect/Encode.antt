-- ===== src/Connect/Encode.antt =====
-- The sending side of connect.rs.
use webtransport_rs.Base.{ℕ, ◌%◌, ◌^◌, Option, none, some, List, [], ◌++◌, length}
use mathlib.Core.Option
use webtransport_rs.Base.Panics.{◌>>=◌}
use webtransport_rs.VarInt
use webtransport_rs.Frame
use webtransport_rs.Qpack.Text.{Bytes, codes}
use webtransport_rs.Qpack.Headers
use webtransport_rs.Qpack.Headers.{Headers}
use webtransport_rs.Qpack.Headers.Encode
use webtransport_rs.Connect.HttpCrate.{Http}
use webtransport_rs.Connect.{ConnectRequest, ConnectResponse}

-- The frame around the headers, with which both encoders end.
unfoldable pub encode_headers : (Headers → List (Bytes × Bytes)) → Headers → Option (List ℕ)
encode_headers iter headers = do
  tmp ← Encode.encode iter headers
  typ ← Frame.encode Frame.headers
  size ← VarInt.encode (VarInt.from_u32 (length tmp % 2 ^ 32))
  some (typ ++ (size ++ tmp))

-- `if let Some(value)`.
set_some : Headers → Bytes → Option Bytes → Headers
set_some headers name none = headers
set_some headers name (some value) = Headers.set headers name value

module _ (h : Http) where
  unfoldable pub request_headers : ConnectRequest h → Headers
  unfolding set_some
  request_headers request =
      let headers = Headers.set [] (codes ":method") (codes "CONNECT") in
      let headers =
        set_some headers (codes ":scheme") (Option.map h.scheme_as_str (h.scheme request.uri)) in
      let headers =
        set_some headers (codes ":authority")
          (Option.map h.authority_as_str (h.authority request.uri)) in
      let headers = Headers.set headers (codes ":path") (h.path request.uri) in
      Headers.set headers (codes ":protocol") (codes "webtransport")

  unfoldable pub encode_request :
      (Headers → List (Bytes × Bytes)) → ConnectRequest h → Option (List ℕ)
  encode_request iter request = encode_headers iter (request_headers request)

  unfoldable pub response_headers : ConnectResponse h → Headers
  response_headers response =
      let headers = Headers.set [] (codes ":status") (h.status_as_str response.status) in
      let headers = Headers.set headers (codes ":protocol") (codes "webtransport") in
      Headers.set headers (codes "sec-webtransport-http3-draft") (codes "draft02")

  unfoldable pub encode_response :
      (Headers → List (Bytes × Bytes)) → ConnectResponse h → Option (List ℕ)
  encode_response iter response = encode_headers iter (response_headers response)
