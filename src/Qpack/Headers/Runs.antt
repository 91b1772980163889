-- ===== src/Qpack/Headers/Runs.antt =====
-- Runs of the header codec.
use webtransport_rs.Base.{ℕ, List, ◌≡◌, refl, [], ◌∷◌, some, ok, arith}
use webtransport_rs.HashMap
use webtransport_rs.HashMap.{bytes_eq, Distinct, Iterates}
use webtransport_rs.Qpack.Text.{Bytes}
use webtransport_rs.Qpack.Text.RoundTrip.{IsText}
use webtransport_rs.Qpack.Headers.RoundTrip.{IsFields, decode-encode_headers}
use webtransport_rs.Qpack.Prefix.{encode_prefix, encode_loop}
use webtransport_rs.Qpack.Text.{codes, is_utf8}
use webtransport_rs.Qpack.StaticTable
use webtransport_rs.Qpack.StaticTable.FindArms.{find_arms}
use webtransport_rs.Qpack.StaticTable.NameArms.{find_name_arms}
use webtransport_rs.Qpack.Headers.{Headers, decode}
use webtransport_rs.Qpack.Headers.Encode.{
  encode, encode_lines, encode_line, encode_index, encode_literal,
}

abbrev connect : Headers
connect = (codes ":method", codes "CONNECT") ∷ (codes ":protocol", codes "wt") ∷ []

encode-connect :
    encode (λ h. h) connect
    ≡ some (
        0 ∷ 0 ∷ 0xcf ∷ 0x37 ∷ 2 ∷ 58 ∷ 112 ∷ 114 ∷ 111 ∷ 116 ∷ 111 ∷ 99 ∷ 111 ∷ 108 ∷ 2 ∷ 119 ∷ 116
        ∷ [])
unfolding encode encode_lines encode_line encode_index encode_literal encode_prefix encode_loop
    StaticTable.find StaticTable.find_name find_arms find_name_arms
encode-connect = refl

abbrev in_order : Headers → List (Bytes × Bytes)
in_order h = h

in_order-Iterates : (h : Headers) → Distinct h → Iterates (in_order h) h
in_order-Iterates h d = record { distinct = d; same = λ k. refl; count = refl }

method-IsText : IsText (codes ":method")
unfolding is_utf8
method-IsText = record { valid = refl; fits = omega arith }

get-IsText : IsText (codes "GET")
unfolding is_utf8
get-IsText = record { valid = refl; fits = omega arith }

abbrev get_request : Headers
get_request = (codes ":method", codes "GET") ∷ []

get_request-IsFields : IsFields get_request
unfolding HashMap.get
get_request-IsFields = record {
  distinct = (refl, tt);
  texts = λ k v found. ground (arith, method-IsText, get-IsText);
}

decode-encode_headers_example :
    (bs : List ℕ) × (t : Headers) × (encode in_order get_request ≡ some bs)
    × (decode bs ≡ ok t)
    × ((k : Bytes) → HashMap.get t k ≡ HashMap.get get_request k)
decode-encode_headers_example =
    decode-encode_headers in_order in_order-Iterates get_request get_request-IsFields
