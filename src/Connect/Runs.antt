-- ===== src/Connect/Runs.antt =====
-- The codec of the CONNECT request over a plain model of `http`, and the theorems at concrete requests.
use webtransport_rs.Connect.Total.{HttpReturns, decode-ne-panic_connect}
use webtransport_rs.Base.{
  ◌≢◌, panic, Option-cases, ok, err, ℕ, ◌≡◌, refl, Option, some, List, [], ◌∷◌, ◌++◌, ok, arith,
}
use webtransport_rs.HashMap
use webtransport_rs.HashMap.{bytes_eq, Distinct, Iterates}
use webtransport_rs.VarInt
use webtransport_rs.Frame
use webtransport_rs.Qpack.StaticTable.Entries.{predefined_headers}
use webtransport_rs.Qpack.Prefix.{decode_prefix}
use webtransport_rs.Qpack.Prefix.Mixed.{Breaks, Mixed}
use webtransport_rs.Qpack.Text.{Bytes, codes, is_utf8}
use webtransport_rs.Qpack.StaticTable
use webtransport_rs.Qpack.Headers
use webtransport_rs.Qpack.Headers.{Headers}
use webtransport_rs.Connect.{
  unexpected_frame, decode_request, decode_response, decode_headers, decode_limited, check_status,
}
use webtransport_rs.Connect.Encode.{encode_request, encode_response}
use webtransport_rs.Connect.ResponseTrip.{decode-encode_response}
use webtransport_rs.Connect.Plain.{
  plain_http, plain_laws, stored, stored-Iterates, chat, chat_fits, response_fits,
}
use webtransport_rs.Connect.RoundTrip.{decode-encode_request}

decode-encode_request_example :
    (bs : List ℕ) × (v : Option Bytes × Option Bytes × Bytes) × (encode_request plain_http stored
        (record { uri = chat })
      ≡ some bs)
    × (decode_request plain_http (bs ++ 9 ∷ []) ≡ ok (record { uri = v }, 9 ∷ []))
    × (v.0 ≡ some (codes "https"))
    × (v.1 ≡ some (codes "a.example"))
    × (v.2 ≡ codes "/chat")
unfolding is_utf8
decode-encode_request_example =
    decode-encode_request plain_http plain_laws stored stored-Iterates chat (codes "https")
      (codes "a.example") (9 ∷ []) refl refl refl (record { valid = refl; fits = omega arith })
      (record { valid = refl; fits = omega arith }) (record { valid = refl; fits = omega arith })
      chat_fits

-- A frame of data where the headers are expected: an answer that more bytes do not change.
decode_data : decode_request plain_http (0 ∷ []) ≡ err (unexpected_frame 0)
unfolding decode_request decode_headers Frame.decode VarInt.decode
decode_data = refl

-- The response `:status` 200.
decode_ok :
    decode_response plain_http (1 ∷ 3 ∷ 0 ∷ 0 ∷ 0xd9 ∷ [])
    ≡ ok (record { status = codes "200" }, [])
unfolding decode_response decode_headers decode_limited check_status Headers.decode
    Headers.decode_lines Headers.decode_line Headers.decode_index Headers.get HashMap.insert
    HashMap.get decode_prefix StaticTable.get predefined_headers Frame.decode VarInt.decode
decode_ok = refl

decode-encode_response_example :
    (bs : List ℕ) × (encode_response plain_http stored (record { status = codes "200" }) ≡ some bs)
    × (decode_response plain_http (bs ++ 9 ∷ []) ≡ ok (record { status = codes "200" }, 9 ∷ []))
unfolding is_utf8
decode-encode_response_example =
    decode-encode_response plain_http stored stored-Iterates (codes "200") (9 ∷ []) refl refl
      (record { valid = refl; fits = omega arith }) response_fits

plain_returns : HttpReturns plain_http
plain_returns = record {
  scheme = λ t e. cc;
  authority = λ t e. cc;
  path = λ t e. cc;
  method = λ t e. cc;
  status = λ t e. cc;
  parts = λ s a p e. ground (arith, e, Option-cases p);
}

-- A field section whose only line is an index of ten groups, which is refused.
abbrev long_index : List ℕ
long_index =
    1 ∷ 13 ∷ 0 ∷ 0 ∷ 0xff ∷ 0xfe ∷ 0xfe ∷ 0xfe ∷ 0xfe ∷ 0xfe ∷ 0xfe ∷ 0xfe ∷ 0xfe ∷ 0xfe ∷ 0xfe ∷ []

long_index-Mixed : Mixed long_index
unfolding Mixed Breaks
long_index-Mixed = ground arith

decode-ne-panic_connect_example :
    (decode_request plain_http long_index ≢ panic) × (decode_response plain_http long_index ≢ panic)
decode-ne-panic_connect_example =
    decode-ne-panic_connect plain_http plain_returns long_index long_index-Mixed (omega arith)
