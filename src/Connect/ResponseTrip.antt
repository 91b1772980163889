-- ===== src/Connect/ResponseTrip.antt =====
-- A client reads the response that a server wrote.
use webtransport_rs.Base.{
  ℕ, ◌^◌, ◌<◌, ◌≡◌, refl, true, some, List, [], ◌∷◌, ◌++◌, length, ok, arith,
}
use webtransport_rs.HashMap
use webtransport_rs.HashMap.{bytes_eq, Distinct, Iterates}
use webtransport_rs.Qpack.Text.{Bytes, codes, is_utf8}
use webtransport_rs.Qpack.Text.RoundTrip.{IsText}
use webtransport_rs.Qpack.Headers
use webtransport_rs.Qpack.Headers.{Headers}
use webtransport_rs.Qpack.Headers.Encode
use webtransport_rs.Qpack.Headers.RoundTrip.{IsFields, entries-IsFields, decode-encode_headers}
use webtransport_rs.Connect.HttpCrate.{Http}
use webtransport_rs.Connect.{decode_response, check_status}
use webtransport_rs.Connect.Encode.{response_headers, encode_response}
use webtransport_rs.Connect.RoundTrip.{
  literal, framed, encode_headers-framed, decode_headers-framed,
}

abbrev pub three : Bytes → Headers
three status =
    (codes ":status", status)
    ∷ (codes ":protocol", codes "webtransport")
    ∷ (codes "sec-webtransport-http3-draft", codes "draft02")
    ∷ []

three-IsFields : (s : Bytes) → IsText s → IsFields (three s)
unfolding is_utf8 HashMap.get
three-IsFields s ts =
    entries-IsFields (three s) (refl, (refl, (refl, tt)))
      (
        (literal _ refl (omega arith), ts),
        (
          (literal _ refl (omega arith), literal _ refl (omega arith)),
          ((literal _ refl (omega arith), literal _ refl (omega arith)), tt),
        ),
      )

module _ (h : Http) where
  response_headers-three :
      (s : h.StatusCode) → response_headers h (record { status = s }) ≡ three (h.status_as_str s)
  unfolding response_headers Headers.set HashMap.insert
  response_headers-three s = refl

  check_status-ext :
      (s t : Headers)
      → ((k : Bytes) → HashMap.get s k ≡ HashMap.get t k)
      → check_status h s ≡ check_status h t
  unfolding check_status Headers.get
  check_status-ext s t same = rw (same (codes ":status")) refl

  check_status-three :
      (s : h.StatusCode)
      → h.to_status (h.status_as_str s) ≡ ok s
      → h.is_success s ≡ true
      → check_status h (three (h.status_as_str s)) ≡ ok (record { status = s })
  unfolding check_status Headers.get HashMap.get
  check_status-three s trip success = ground (arith, trip, success)

  -- A response with a status that counts as a success, whose text is read back as the status, and
  -- whose headers take less than 2 ^ 32 bytes, is written in any iteration order, and
  -- `ConnectResponse::decode` reads it back, whatever follows.
  pub decode-encode_response :
      (iter : Headers → List (Bytes × Bytes))
      → ((m : Headers) → Distinct m → Iterates (iter m) m)
      → (s : h.StatusCode) (rest : List ℕ) → h.to_status (h.status_as_str s) ≡ ok s
      → h.is_success s ≡ true
      → IsText (h.status_as_str s)
      → ((tmp : List ℕ)
          → Encode.encode iter (response_headers h (record { status = s })) ≡ some tmp
          → length tmp < 2 ^ 32)
      → (bs : List ℕ) × (encode_response h iter (record { status = s }) ≡ some bs)
        × (decode_response h (bs ++ rest) ≡ ok (record { status = s }, rest))
  unfolding encode_response decode_response
  decode-encode_response iter iterates s rest trip success ts fits =
      let sent = three (h.status_as_str s) in
      let put = response_headers-three s in
      let (tmp, t, written, read, same) =
        decode-encode_headers iter iterates sent (three-IsFields _ ts) in
      let small = fits tmp (rw put written) in
      (
        framed tmp,
        rw put (encode_headers-framed iter sent tmp written small),
        rw
            (
              decode_headers-framed h tmp rest t small read,
              check_status-ext t sent same,
              check_status-three s trip success,
            )
            refl,
      )
