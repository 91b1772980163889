-- ===== src/Quinn/StreamHeader/Laws.antt =====
-- Reading from a stream against decoding a buffer, and the headers of one session.
use webtransport_rs.Base.{
  ℕ, ◌≡◌, ◌≢◌, ◌∙◌, refl, some, List, [], ◌∷◌, ◌++◌, append_assoc, Outcome-cases, inl, inr, Outcome,
  ok, err, panic, if◌then◌else◌, arith, All, All-append, IsByte, ◌==◌,
}
use webtransport_rs.Frame
use webtransport_rs.StreamUni
use webtransport_rs.StreamUni.{StreamUni}
use webtransport_rs.VarInt
use webtransport_rs.VarInt.Bounds.{decode-ne-panic}
use webtransport_rs.VarInt.{VarInt, IsVarInt, VarIntUnexpectedEnd}
use webtransport_rs.VarInt.Wire.{wire, encode-wire, decode-wire, wire-IsByte}
use webtransport_rs.Quinn.QuinnCrate.{ReadExactError}
use webtransport_rs.Quinn.Errors.{SessionError, web_transport_error, unknown_session}
use webtransport_rs.Quinn.StreamHeader.{
  RecvStream, read_failure, read_full, read_varint, check_session, decode_uni, decode_bi,
}
use webtransport_rs.Quinn.StreamHeader.Open.{header_uni, header_bi}
use webtransport_rs.VarInt.FirstByte.{decode-Announces}

module _ {C : Type 0} where
  -- What a decoding of all that arrives comes to, on the stream.
  abbrev pub on_stream :
      ReadExactError C
      → Outcome VarIntUnexpectedEnd (VarInt × List ℕ)
      → Outcome (SessionError C) (VarInt × RecvStream C)
  on_stream ends (ok (v, left)) = ok (v, record { bytes = left; ends = ends })
  on_stream ends (err e) = err (read_failure ends)
  on_stream ends panic = panic

  read_varint-bytes :
      (bs : List ℕ) (ends : ReadExactError C)
      → All IsByte bs
      → read_varint (record { bytes = bs; ends = ends }) ≡ on_stream ends (VarInt.decode bs)
  unfolding read_varint read_full
  read_varint-bytes [] ends h = unfold VarInt.decode in refl
  read_varint-bytes (b ∷ rest) ends h = elim (decode-Announces b rest h.0) [
    | inl (short, e) ↦ ground (arith, e)
    | inr (enough, v, e, e') ↦ ground (arith, e, e')
  ]

  -- On a stream of bytes `read_varint` comes to what `VarInt::decode` makes of all that arrives: its
  -- number, with the stream behind it, or else, if the stream ends too early, the error of the
  -- stream. So it does not read past the number, and its `unwrap` does not panic.
  pub read_varint-decode :
      (recv : RecvStream C)
      → All IsByte recv.bytes
      → (read_varint recv ≡ on_stream recv.ends (VarInt.decode recv.bytes))
        × (read_varint recv ≢ panic)
  read_varint-decode recv h =
      let same : read_varint recv ≡ on_stream recv.ends (VarInt.decode recv.bytes) =
        read_varint-bytes recv.bytes recv.ends h in
      (
        same,
        λ stuck. elim (Outcome-cases (VarInt.decode recv.bytes)) [
          | inl ((v, left), e) ↦ cc
          | inr (inl (x, e)) ↦ cc
          | inr (inr e) ↦ decode-ne-panic recv.bytes h e
        ],
      )

  read_varint-wire :
      (x : VarInt) (content : List ℕ) (ends : ReadExactError C)
      → IsVarInt x
      → All IsByte content
      → read_varint (record { bytes = wire x ++ content; ends = ends })
        ≡ ok (x, record { bytes = content; ends = ends })
  read_varint-wire x content ends hx hd =
      read_varint-bytes (wire x ++ content) ends
        (All-append IsByte (wire x) content (wire-IsByte x) hd)
      ∙ rw (decode-wire x content hx) refl

  check_session-wire :
      (id expected : VarInt) (content : List ℕ) (ends : ReadExactError C)
      → IsVarInt id
      → All IsByte content
      → check_session (record { bytes = wire id ++ content; ends = ends }) expected ≡ (
          if id == expected
          then ok (record { bytes = content; ends = ends })
          else err (web_transport_error unknown_session))
  unfolding check_session
  check_session-wire id expected content ends hid hd =
      rw (read_varint-wire id content ends hid hd) (ground arith)

  -- The header of a unidirectional stream of the session `id`, with bytes behind it, is accepted by
  -- the session `id`, which is left with just those bytes, and refused as unknown by any other.
  pub decode_uni-header_uni :
      (id expected : VarInt) (content : List ℕ) (ends : ReadExactError C)
      → IsVarInt id
      → All IsByte content
      → (bs : List ℕ) × (header_uni id ≡ some bs)
        × (decode_uni (record { bytes = bs ++ content; ends = ends }) expected ≡ (
            if id == expected
            then ok (StreamUni.webtransport, record { bytes = content; ends = ends })
            else err (web_transport_error unknown_session)))
  unfolding decode_uni header_uni
  decode_uni-header_uni id expected content ends hid hd =
      let bytes = All-append IsByte (wire id) content (wire-IsByte id) hd in
      (
        wire StreamUni.webtransport ++ wire id,
        ground (
          arith,
          StreamUni.encode_lem StreamUni.webtransport,
          encode-wire StreamUni.webtransport,
          encode-wire id hid,
        ),
        rw
            (
              append_assoc (wire StreamUni.webtransport) (wire id) content,
              read_varint-wire StreamUni.webtransport (wire id ++ content) ends (omega arith) bytes,
            )
            (ground (arith, check_session-wire id expected content ends hid hd)),
      )

  -- The header of a bidirectional stream of the session `id`, with bytes behind it, is accepted by
  -- the session `id`, which is left with just those bytes, and refused as unknown by any other.
  pub decode_bi-header_bi :
      (id expected : VarInt) (content : List ℕ) (ends : ReadExactError C)
      → IsVarInt id
      → All IsByte content
      → (bs : List ℕ) × (header_bi id ≡ some bs)
        × (decode_bi (record { bytes = bs ++ content; ends = ends }) expected ≡ (
            if id == expected
            then ok (some (record { bytes = content; ends = ends }))
            else err (web_transport_error unknown_session)))
  unfolding decode_bi header_bi
  decode_bi-header_bi id expected content ends hid hd =
      let bytes = All-append IsByte (wire id) content (wire-IsByte id) hd in
      (
        wire Frame.webtransport ++ wire id,
        ground (
          arith,
          Frame.encode_lem Frame.webtransport,
          encode-wire Frame.webtransport,
          encode-wire id hid,
        ),
        rw
            (
              append_assoc (wire Frame.webtransport) (wire id) content,
              read_varint-wire Frame.webtransport (wire id ++ content) ends (omega arith) bytes,
            )
            (ground (arith, check_session-wire id expected content ends hid hd)),
      )
