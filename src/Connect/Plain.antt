-- ===== src/Connect/Plain.antt =====
-- A plain model of `http`, on which the codec can be run: it satisfies the laws.
use webtransport_rs.Base.{
  ok, err, ℕ, ◌^◌, ◌<◌, ◌≡◌, refl, Bool, true, Option, none, some, List, length, ok, ltb, arith,
}
use webtransport_rs.HashMap
use webtransport_rs.HashMap.{bytes_eq, Distinct, Iterates}
use webtransport_rs.Qpack.Prefix.{encode_prefix, encode_loop}
use webtransport_rs.Qpack.Text.{Bytes, codes}
use webtransport_rs.Qpack.StaticTable
use webtransport_rs.Qpack.StaticTable.FindArms.{find_arms}
use webtransport_rs.Qpack.StaticTable.NameArms.{find_name_arms}
use webtransport_rs.Qpack.Headers
use webtransport_rs.Qpack.Headers.{Headers}
use webtransport_rs.Qpack.Headers.Encode
use webtransport_rs.Connect.Encode.{request_headers, response_headers}
use webtransport_rs.Connect.RoundTrip.{HttpLaws}
use webtransport_rs.Connect.HttpCrate.{Http}
use webtransport_rs.HashMap.{bytes_beq}

-- A URI is its parts, each text is a part, and a status is its number.
abbrev pub plain_http : Http
plain_http = record {
  Scheme = Bytes;
  Authority = Bytes;
  PathAndQuery = Bytes;
  Uri = Option Bytes × Option Bytes × Bytes;
  Method = Bytes;
  StatusCode = Bytes;
  InvalidMethod = Unit {0};
  InvalidUri = Unit {0};
  InvalidUriParts = Unit {0};
  InvalidStatusCode = Unit {0};
  to_scheme = λ t. ok t;
  to_authority = λ t. ok t;
  to_path_and_query = λ t. ok t;
  to_method = λ t. ok t;
  to_status = λ t. ok t;
  from_parts = λ s a p. elim p [ none ↦ err tt | some path ↦ ok (s, a, path) ];
  scheme = λ u. u.0;
  authority = λ u. u.1;
  path = λ u. u.2;
  scheme_as_str = λ s. s;
  authority_as_str = λ a. a;
  is_https = λ s. bytes_beq s (codes "https");
  is_connect = λ m. bytes_beq m (codes "CONNECT");
  is_ok = λ s. bytes_beq s (codes "200");
  is_success = λ s. bytes_beq s (codes "200");
  status_as_str = λ s. s;
}

abbrev pub plain_laws : HttpLaws plain_http
plain_laws = record {
  path_of = λ p. p;
  scheme_trip = λ s. refl;
  authority_trip = λ a. refl;
  path_trip = λ u s e. (u.2, refl, refl);
  parts_trip = λ s a p. ((some s, some a, p), refl, refl, refl, refl);
  method_connect = (codes "CONNECT", refl, refl);
}

abbrev pub stored : Headers → List (Bytes × Bytes)
stored m = m

pub stored-Iterates : (m : Headers) → Distinct m → Iterates (stored m) m
stored-Iterates m d = record { distinct = d; same = λ k. refl; count = refl }

abbrev pub chat : Option Bytes × Option Bytes × Bytes
chat = (some (codes "https"), some (codes "a.example"), codes "/chat")

abbrev pub is_short : Option (List ℕ) → Bool
is_short none = true
is_short (some t) = ltb (length t) 1000

chat_short :
    is_short (Encode.encode stored (request_headers plain_http (record { uri = chat }))) ≡ true
unfolding request_headers Headers.set HashMap.insert Encode.encode Encode.encode_lines
    Encode.encode_line Encode.encode_index Encode.encode_literal_value Encode.encode_literal
    encode_prefix encode_loop StaticTable.find StaticTable.find_name find_arms find_name_arms
chat_short = refl

pub chat_fits :
    (tmp : List ℕ)
    → Encode.encode stored (request_headers plain_http (record { uri = chat })) ≡ some tmp
    → length tmp < 2 ^ 32
chat_fits tmp e = let short : ltb (length tmp) 1000 ≡ true = rw e at chat_short in ground arith

response_short :
    is_short (Encode.encode stored (response_headers plain_http (record { status = codes "200" })))
    ≡ true
unfolding response_headers Headers.set HashMap.insert Encode.encode Encode.encode_lines
    Encode.encode_line Encode.encode_index Encode.encode_literal_value Encode.encode_literal
    encode_prefix encode_loop StaticTable.find StaticTable.find_name find_arms find_name_arms
response_short = refl

pub response_fits :
    (tmp : List ℕ)
    → Encode.encode stored (response_headers plain_http (record { status = codes "200" }))
      ≡ some tmp
    → length tmp < 2 ^ 32
response_fits tmp e =
    let short : ltb (length tmp) 1000 ≡ true = rw e at response_short in ground arith
