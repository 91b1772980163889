-- ===== src/Connect/RoundTrip.antt =====
-- A server reads the request that a client wrote.
use webtransport_rs.Base.{
  ℕ, ◌%◌, ◌^◌, ◌<◌, ◌≡◌, ◌∙◌, refl, true, some, List, [], ◌∷◌, ◌++◌, append_assoc, length,
  take-append, drop-append, ok, arith,
}
use webtransport_rs.HashMap
use webtransport_rs.HashMap.{bytes_eq, Distinct, Iterates}
use webtransport_rs.Frame
use webtransport_rs.VarInt.Wire.{wire, encode-wire, decode-wire}
use webtransport_rs.Qpack.Text.{Bytes, codes, is_utf8}
use webtransport_rs.Qpack.Text.RoundTrip.{IsText}
use webtransport_rs.Qpack.Headers
use webtransport_rs.Qpack.Headers.{Headers}
use webtransport_rs.Qpack.Headers.Encode
use webtransport_rs.Qpack.Headers.RoundTrip.{IsFields, entries-IsFields, decode-encode_headers}
use webtransport_rs.Connect.HttpCrate.{Http}
use webtransport_rs.Connect.{decode_limited, decode_headers, decode_uri, decode_request, validate}
use webtransport_rs.Connect.Encode.{encode_headers, request_headers, encode_request}

-- What `http` documents of the conversions that a request goes through.
pub record HttpLaws (h : Http) : Type 0 where
  -- The path in a `PathAndQuery`.
  pub path_of : h.PathAndQuery → Bytes
  pub scheme_trip : (s : h.Scheme) → h.to_scheme (h.scheme_as_str s) ≡ ok s
  pub authority_trip : (a : h.Authority) → h.to_authority (h.authority_as_str a) ≡ ok a
  -- The path of an absolute URI is a path without a query.
  pub path_trip :
      (u : h.Uri) (s : h.Scheme)
      → h.scheme u ≡ some s
      → (p : h.PathAndQuery) × (h.to_path_and_query (h.path u) ≡ ok p) × (path_of p ≡ h.path u)
  pub parts_trip :
      (s : h.Scheme) (a : h.Authority) (p : h.PathAndQuery)
      → (u : h.Uri) × (h.from_parts (some s) (some a) (some p) ≡ ok u)
        × (h.scheme u ≡ some s)
        × (h.authority u ≡ some a)
        × (h.path u ≡ path_of p)
  pub method_connect :
      (m : h.Method) × (h.to_method (codes "CONNECT") ≡ ok m) × (h.is_connect m ≡ true)

-- The headers of a request to an absolute URI.
abbrev pub five : Bytes → Bytes → Bytes → Headers
five scheme authority path =
    (codes ":method", codes "CONNECT")
    ∷ (codes ":scheme", scheme)
    ∷ (codes ":authority", authority)
    ∷ (codes ":path", path)
    ∷ (codes ":protocol", codes "webtransport")
    ∷ []

pub literal : (bs : Bytes) → is_utf8 [] bs ≡ true → length bs < 2 ^ 64 → IsText bs
literal bs u f = record { valid = u; fits = f }

five-IsFields : (s a p : Bytes) → IsText s → IsText a → IsText p → IsFields (five s a p)
unfolding is_utf8 HashMap.get
five-IsFields s a p ts ta tp =
    entries-IsFields (five s a p) (refl, (refl, (refl, (refl, (refl, tt)))))
      (
        (literal _ refl (omega arith), literal _ refl (omega arith)),
        (
          (literal _ refl (omega arith), ts),
          (
            (literal _ refl (omega arith), ta),
            (
              (literal _ refl (omega arith), tp),
              ((literal _ refl (omega arith), literal _ refl (omega arith)), tt),
            ),
          ),
        ),
      )

-- The frame around the bytes of the headers.
unfoldable pub framed : List ℕ → List ℕ
framed tmp = wire Frame.headers ++ (wire (length tmp) ++ tmp)

pub encode_headers-framed :
    (iter : Headers → List (Bytes × Bytes)) (headers : Headers) (tmp : List ℕ)
    → Encode.encode iter headers ≡ some tmp
    → length tmp < 2 ^ 32
    → encode_headers iter headers ≡ some (framed tmp)
unfolding encode_headers framed
encode_headers-framed iter headers tmp e fits = ground (
  arith,
  e,
  Frame.encode_lem Frame.headers,
  encode-wire Frame.headers,
  encode-wire (length tmp),
  encode-wire (length tmp % 2 ^ 32),
)

module _ (h : Http) where
  decode_limited-append :
      (tmp rest : List ℕ) (t : Headers)
      → Headers.decode tmp ≡ ok t
      → decode_limited h (length tmp) (tmp ++ rest) ≡ ok (t, rest)
  unfolding decode_limited
  decode_limited-append tmp rest t e =
      rw (take-append tmp rest, drop-append tmp rest, e) (ground arith)

  pub decode_headers-framed :
      (tmp rest : List ℕ) (t : Headers)
      → length tmp < 2 ^ 32
      → Headers.decode tmp ≡ ok t
      → decode_headers h (framed tmp ++ rest) ≡ ok (t, rest)
  unfolding decode_headers framed
  decode_headers-framed tmp rest t fits e =
      simp
        (
          append_assoc,
          Frame.decode_lem,
          decode-wire Frame.headers _ (omega arith),
          decode-wire (length tmp) _ (omega arith),
        )
        (decode_limited-append tmp rest t e)

  -- Only the values of the headers count, not how the map stores them.
  validate-ext :
      (s t : Headers)
      → ((k : Bytes) → HashMap.get s k ≡ HashMap.get t k)
      → validate h s ≡ validate h t
  unfolding validate decode_uri Headers.get
  validate-ext s t same =
      rw
        (
          same (codes ":scheme"),
          same (codes ":authority"),
          same (codes ":path"),
          same (codes ":method"),
          same (codes ":protocol"),
        )
        refl

  request_headers-five :
      (u : h.Uri) (s : h.Scheme) (a : h.Authority)
      → h.scheme u ≡ some s
      → h.authority u ≡ some a
      → request_headers h (record { uri = u })
        ≡ five (h.scheme_as_str s) (h.authority_as_str a) (h.path u)
  unfolding request_headers Headers.set HashMap.insert
  request_headers-five u s a es ea = rw (es, ea) refl

  module _ (laws : HttpLaws h) where
    -- What the tests make of the five headers.
    validate-five :
        (u : h.Uri) (s : h.Scheme) (a : h.Authority)
        → h.scheme u ≡ some s
        → h.is_https s ≡ true
        → (v : h.Uri) × (validate h (five (h.scheme_as_str s) (h.authority_as_str a) (h.path u))
            ≡ ok (record { uri = v }))
          × (h.scheme v ≡ some s)
          × (h.authority v ≡ some a)
          × (h.path v ≡ h.path u)
    unfolding validate decode_uri Headers.get HashMap.get
    validate-five u s a es https =
        let (p, ep, kept) = laws.path_trip u s es in
        let (v, ev, sv, av, pv) = laws.parts_trip s a p in
        let (m, em, connect) = laws.method_connect in
        (
          v,
          rw (laws.scheme_trip s, laws.authority_trip a, ep, ev, em, connect, sv, https, av) refl,
          sv,
          av,
          pv ∙ kept,
        )

    -- A request to an absolute https URI, whose parts are texts and whose headers take less than
    -- 2 ^ 32 bytes, is written in any iteration order, and `ConnectRequest::decode` reads, whatever
    -- follows, a request to a URI with the same scheme, authority and path.
    pub decode-encode_request :
        (iter : Headers → List (Bytes × Bytes))
        → ((m : Headers) → Distinct m → Iterates (iter m) m)
        → (u : h.Uri) (s : h.Scheme) (a : h.Authority) (rest : List ℕ) → h.scheme u ≡ some s
        → h.authority u ≡ some a
        → h.is_https s ≡ true
        → IsText (h.scheme_as_str s)
        → IsText (h.authority_as_str a)
        → IsText (h.path u)
        → ((tmp : List ℕ)
            → Encode.encode iter (request_headers h (record { uri = u })) ≡ some tmp
            → length tmp < 2 ^ 32)
        → (bs : List ℕ) × (v : h.Uri) × (encode_request h iter (record { uri = u }) ≡ some bs)
          × (decode_request h (bs ++ rest) ≡ ok (record { uri = v }, rest))
          × (h.scheme v ≡ some s)
          × (h.authority v ≡ some a)
          × (h.path v ≡ h.path u)
    unfolding encode_request decode_request
    decode-encode_request iter iterates u s a rest es ea https ts ta tp fits =
        let sent = five (h.scheme_as_str s) (h.authority_as_str a) (h.path u) in
        let put = request_headers-five u s a es ea in
        let (tmp, t, written, read, same) =
          decode-encode_headers iter iterates sent (five-IsFields _ _ _ ts ta tp) in
        let (v, checked, sv, av, pv) = validate-five u s a es https in
        let small = fits tmp (rw put written) in
        (
          framed tmp,
          v,
          rw put (encode_headers-framed iter sent tmp written small),
          rw (decode_headers-framed tmp rest t small read, validate-ext t sent same, checked) refl,
          sv,
          av,
          pv,
        )
