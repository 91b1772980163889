-- ===== src/Connect/Total.antt =====
-- The decoders of connect.rs return, whatever the bytes.
use webtransport_rs.Base.{
  ℕ, ◌^◌, ◌≤◌, ◌≢◌, refl, ap, Option, none, some, List, length, length-append, length-take-le, take,
  arith, ok, err, panic, map_err, Outcome, Outcome-cases, Option-cases, ltb, ◌==◌, Bool-cases, inl,
  inr,
}
use webtransport_rs.Base.Yields.{
  Yields, Yields-if, Yields-option, Yields-bind, Yields-map_err, Yields-ne-panic,
}
use webtransport_rs.VarInt
use webtransport_rs.VarInt.Bounds.{decode-Decodes, decode-ne-panic}
use webtransport_rs.Frame
use webtransport_rs.Qpack.Text.{Bytes, codes}
use webtransport_rs.Qpack.Headers
use webtransport_rs.Qpack.Headers.{Headers}
use webtransport_rs.Qpack.Prefix.Mixed.{Mixed, Mixed-take, Mixed-append_right, Mixed-IsByte}
use webtransport_rs.Qpack.Headers.Total.{decode-Yields_headers}
use webtransport_rs.Connect.HttpCrate.{Http}
use webtransport_rs.Connect.{
  ConnectError, decode_limited, decode_headers, decode_uri, validate, decode_request, check_status,
  decode_response, convert, qpack_error, unexpected_end, invalid_uri, invalid_uri_parts,
  invalid_method, invalid_status,
}

-- The conversions of `http` are documented to return errors, not to panic.
pub record HttpReturns (h : Http) : Type 0 where
  pub scheme : (t : Bytes) → h.to_scheme t ≢ panic
  pub authority : (t : Bytes) → h.to_authority t ≢ panic
  pub path : (t : Bytes) → h.to_path_and_query t ≢ panic
  pub method : (t : Bytes) → h.to_method t ≢ panic
  pub status : (t : Bytes) → h.to_status t ≢ panic
  pub parts :
      (s : Option h.Scheme) (a : Option h.Authority) (p : Option h.PathAndQuery)
      → h.from_parts s a p ≢ panic

abbrev Returns {ℓ κ} : {E : Type ℓ} {A : Type κ} → Outcome E A → Type 0
Returns r = Yields (λ a. Unit {0}) r

ne-panic-Returns {ℓ κ} : {E : Type ℓ} {A : Type κ} (r : Outcome E A) → r ≢ panic → Returns r
ne-panic-Returns (ok a) h = tt
ne-panic-Returns (err e) h = tt
ne-panic-Returns panic h = h refl

decode-Yields_varint :
    (bs : List ℕ) → Mixed bs → Yields (λ r. Mixed r.1 × (length r.1 ≤ length bs)) (VarInt.decode bs)
decode-Yields_varint bs h = elim (Outcome-cases (VarInt.decode bs)) [
  | inl ((v, left), e) ↦
      let d = decode-Decodes bs v left (Mixed-IsByte bs h) e in
      rw e (
        Mixed-append_right d.used left (rw d.splits at h),
        omega (arith, ap length d.splits, length-append d.used left),
      )
  | inr (inl (x, e)) ↦ rw e tt
  | inr (inr e) ↦ absurd (decode-ne-panic bs (Mixed-IsByte bs h) e)
]

module _ (h : Http) (returns : HttpReturns h) where
  decode_limited-Returns :
      (size : ℕ) (buf : List ℕ)
      → Mixed buf
      → length buf ≤ 2 ^ 28
      → Returns (decode_limited h size buf)
  unfolding decode_limited
  decode_limited-Returns size buf bytes small =
      let limit = take size buf in
      elim (Bool-cases (ltb (length limit) size)) [
        | inl short ↦ rw short tt
        | inr enough ↦ rw enough (
            Yields-bind (λ a. Unit {0}) (λ a. Unit {0}) (map_err qpack_error (Headers.decode limit))
              _
              (Yields-map_err (λ a. Unit {0}) qpack_error (Headers.decode limit)
                (decode-Yields_headers limit (Mixed-take size buf bytes)
                  (omega (arith, length-take-le size buf))))
              (λ headers _. tt))
      ]

  decode_headers-Returns :
      (buf : List ℕ) → Mixed buf → length buf ≤ 2 ^ 28 → Returns (decode_headers h buf)
  unfolding decode_headers
  decode_headers-Returns buf bytes small = rw (Frame.decode_lem buf) (
      Yields-bind (λ r. Mixed r.1 × (length r.1 ≤ length buf)) (λ a. Unit {0})
        (map_err (λ _. unexpected_end) (VarInt.decode buf)) _
        (Yields-map_err (λ r. Mixed r.1 × (length r.1 ≤ length buf)) (λ _. unexpected_end)
          (VarInt.decode buf) (decode-Yields_varint buf bytes))
        λ r left. elim (Bool-cases (r.0 == Frame.headers)) [
          | inl right_frame ↦ rw right_frame (
              Yields-bind (λ s. Mixed s.1 × (length s.1 ≤ length r.1)) (λ a. Unit {0})
                (map_err (λ _. unexpected_end) (VarInt.decode r.1)) _
                (Yields-map_err (λ s. Mixed s.1 × (length s.1 ≤ length r.1)) (λ _. unexpected_end)
                  (VarInt.decode r.1) (decode-Yields_varint r.1 left.0))
                (λ s after. decode_limited-Returns s.0 s.1 after.0 (omega arith)))
          | inr other ↦ rw other tt
        ])

  convert-Returns {ℓ κ} :
      {F : Type ℓ} {A : Type κ} (wrap : F → ConnectError h) (f : Bytes → Outcome F A)
      (o : Option Bytes)
      → ((t : Bytes) → f t ≢ panic)
      → Returns (convert h wrap f o)
  convert-Returns wrap f none safe = tt
  convert-Returns wrap f (some t) safe =
      Yields-bind (λ a. Unit {0}) (λ a. Unit {0}) (map_err wrap (f t)) (λ a. ok (some a))
        (Yields-map_err (λ a. Unit {0}) wrap (f t) (ne-panic-Returns (f t) (safe t))) (λ a _. tt)

  decode_uri-Returns : (headers : Headers) → Returns (decode_uri h headers)
  unfolding decode_uri
  decode_uri-Returns headers =
      Yields-bind (λ a. Unit {0}) (λ a. Unit {0}) _ _
        (convert-Returns invalid_uri h.to_scheme (Headers.get headers (codes ":scheme"))
          returns.scheme)
        λ s _.
          Yields-bind (λ a. Unit {0}) (λ a. Unit {0}) _ _
            (convert-Returns invalid_uri h.to_authority (Headers.get headers (codes ":authority"))
              returns.authority)
            λ a _.
              Yields-bind (λ a. Unit {0}) (λ a. Unit {0}) _ _
                (convert-Returns invalid_uri h.to_path_and_query
                  (Headers.get headers (codes ":path")) returns.path)
                λ p _.
                  Yields-map_err (λ a. Unit {0}) invalid_uri_parts (h.from_parts s a p)
                    (ne-panic-Returns (h.from_parts s a p) (returns.parts s a p))

  validate-Returns : (headers : Headers) → Returns (validate h headers)
  unfolding validate
  validate-Returns headers =
      Yields-bind (λ a. Unit {0}) (λ a. Unit {0}) (decode_uri h headers) _
        (decode_uri-Returns headers)
        λ uri _.
          Yields-bind (λ a. Unit {0}) (λ a. Unit {0}) _ _
            (convert-Returns invalid_method h.to_method (Headers.get headers (codes ":method"))
              returns.method)
            λ method _. ground (arith, Option-cases (h.authority uri))

  check_status-Returns : (headers : Headers) → Returns (check_status h headers)
  unfolding check_status
  check_status-Returns headers =
      Yields-bind (λ a. Unit {0}) (λ a. Unit {0}) _ _
        (convert-Returns invalid_status h.to_status (Headers.get headers (codes ":status"))
          returns.status)
        λ status _.
          Yields-option (λ a. Unit {0}) status _ _ tt
            (λ status e. Yields-if (λ a. Unit {0}) (h.is_success status) _ _ tt tt)

  -- On any bytes, 2 ^ 28 at most, of which no seven in a row are 255, both decoders return a message or an
  -- error, if the conversions of the crate http do.
  pub decode-ne-panic_connect :
      (buf : List ℕ)
      → Mixed buf
      → length buf ≤ 2 ^ 28
      → (decode_request h buf ≢ panic) × (decode_response h buf ≢ panic)
  unfolding decode_request decode_response
  decode-ne-panic_connect buf bytes small =
      let headers = decode_headers-Returns buf bytes small in
      (
        Yields-ne-panic (λ a. Unit {0}) _
            (Yields-bind (λ a. Unit {0}) (λ a. Unit {0}) (decode_headers h buf) _ headers
              λ r _.
                Yields-bind (λ a. Unit {0}) (λ a. Unit {0}) (validate h r.0) _
                  (validate-Returns r.0) λ request _. tt),
        Yields-ne-panic (λ a. Unit {0}) _
            (Yields-bind (λ a. Unit {0}) (λ a. Unit {0}) (decode_headers h buf) _ headers
              λ r _.
                Yields-bind (λ a. Unit {0}) (λ a. Unit {0}) (check_status h r.0) _
                  (check_status-Returns r.0) λ response _. tt),
      )
