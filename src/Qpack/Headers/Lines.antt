-- ===== src/Qpack/Headers/Lines.antt =====
-- One line of the field section: how its first byte picks the decoder, and that it is read back.
use webtransport_rs.Base.{
  ℕ, ◌/◌, ◌%◌, ◌<◌, ◌≡◌, ◌∙◌, refl, none, some, List, ◌∷◌, ◌++◌, append_assoc, length, leb, ◌==◌,
  if◌then◌else◌, ok, err, arith, Option-cases, inl, inr,
}
use webtransport_rs.Base.Bits.{byte_masks}
use webtransport_rs.Qpack.Error.{dynamic_entry}
use webtransport_rs.Qpack.Prefix.Wire.{
  prefix_wire, encode_prefix-wire, prefix_first, prefix_tail, prefix_wire-cons,
}
use webtransport_rs.Qpack.Prefix.RoundTrip.{decode_prefix-wire}
use webtransport_rs.Qpack.Text.{Bytes}
use webtransport_rs.Qpack.Text.RoundTrip.{IsText, from_utf8-IsText, decode_string-wire}
use webtransport_rs.Qpack.StaticTable
use webtransport_rs.Qpack.StaticTable.Laws.{find-get, find_name-get, get-lt}
use webtransport_rs.Qpack.Headers.{decode_line, decode_index, decode_literal_value, decode_literal}
use webtransport_rs.Qpack.Headers.Encode.{
  encode_line, encode_index, encode_literal_value, encode_literal,
}

-- The ranges of the first byte. Every byte below 256 picks a decoder or is a dynamic reference: the last
-- arm of the match, `UnknownEntry`, is never taken.
decode_line_cases :
    (b : ℕ) (chain : List ℕ)
    → b < 256
    → decode_line b chain ≡ (
        if leb 192 b
        then decode_index chain
        else if leb 128 b
        then err dynamic_entry
        else if leb 64 b
        then (if b / 16 % 2 == 1 then decode_literal_value chain else err dynamic_entry)
        else if leb 32 b
        then decode_literal chain
        else err dynamic_entry)
unfolding decode_line
decode_line_cases b chain h = let (m1, m2, m3, m4) = byte_masks b h in ground arith

-- `line` is read as the field, whatever follows it.
pub record Reads (name value : Bytes) (line : List ℕ) : Type 0 where
  pub first : ℕ
  pub tail : List ℕ
  pub starts : line ≡ first ∷ tail
  pub reads : (rest : List ℕ) → decode_line first (line ++ rest) ≡ ok (name, value, rest)

decode_index-wire :
    (i : ℕ) (n v : Bytes) (rest : List ℕ)
    → StaticTable.get i ≡ ok (n, v)
    → decode_index (prefix_wire 6 3 i ++ rest) ≡ ok (n, v, rest)
unfolding decode_index
decode_index-wire i n v rest e =
    let small = get-lt i n v e in
    rw (decode_prefix-wire 6 3 i rest (omega arith) (omega arith) (omega arith) (omega arith), e)

index-Reads : (i : ℕ) (n v : Bytes) → StaticTable.get i ≡ ok (n, v) → Reads n v (prefix_wire 6 3 i)
index-Reads i n v e = record {
  first = prefix_first 6 3 i;
  tail = prefix_tail 6 i;
  starts = prefix_wire-cons 6 3 i;
  reads = λ rest.
      decode_line_cases (prefix_first 6 3 i) (prefix_wire 6 3 i ++ rest) (ground arith)
      ∙ ground (arith, decode_index-wire i n v rest e);
}

value_wire : Bytes → List ℕ
value_wire v = prefix_wire 7 0 (length v) ++ v

decode_literal_value-wire :
    (i : ℕ) (n w v : Bytes) (rest : List ℕ)
    → StaticTable.get i ≡ ok (n, w)
    → IsText v
    → decode_literal_value (prefix_wire 4 7 i ++ (value_wire v ++ rest)) ≡ ok (n, v, rest)
unfolding decode_literal_value value_wire
decode_literal_value-wire i n w v rest e t =
    let small = get-lt i n w e in
    rw (
      decode_prefix-wire 4 7 i ((prefix_wire 7 0 (length v) ++ v) ++ rest) (omega arith)
          (omega arith) (omega arith) (omega arith),
      e,
      append_assoc (prefix_wire 7 0 (length v)) v rest,
      decode_string-wire 8 0 v rest (omega arith) (omega arith) (omega arith) refl t.fits,
      from_utf8-IsText v t,
    )

decode_literal-wire :
    (n v : Bytes) (rest : List ℕ)
    → IsText n
    → IsText v
    → decode_literal (prefix_wire 3 6 (length n) ++ (n ++ (value_wire v ++ rest))) ≡ ok (n, v, rest)
unfolding decode_literal value_wire
decode_literal-wire n v rest tn tv = rw (
  decode_string-wire 4 6 n ((prefix_wire 7 0 (length v) ++ v) ++ rest) (omega arith) (omega arith)
      (omega arith) refl tn.fits,
  from_utf8-IsText n tn,
  append_assoc (prefix_wire 7 0 (length v)) v rest,
  decode_string-wire 8 0 v rest (omega arith) (omega arith) (omega arith) refl tv.fits,
  from_utf8-IsText v tv,
)

-- A line that starts with a prefixed integer whose flags pick the decoder.
literal_value-Reads :
    (i : ℕ) (n w v : Bytes)
    → StaticTable.get i ≡ ok (n, w)
    → IsText v
    → Reads n v (prefix_wire 4 7 i ++ value_wire v)
literal_value-Reads i n w v e t = record {
  first = prefix_first 4 7 i;
  tail = prefix_tail 4 i ++ value_wire v;
  starts = rw (prefix_wire-cons 4 7 i);
  reads = λ rest.
      decode_line_cases (prefix_first 4 7 i) ((prefix_wire 4 7 i ++ value_wire v) ++ rest)
        (ground arith)
      ∙ ground (
        arith,
        append_assoc (prefix_wire 4 7 i) (value_wire v) rest,
        decode_literal_value-wire i n w v rest e t,
      );
}

literal-Reads :
    (n v : Bytes)
    → IsText n
    → IsText v
    → Reads n v (prefix_wire 3 6 (length n) ++ (n ++ value_wire v))
literal-Reads n v tn tv = record {
  first = prefix_first 3 6 (length n);
  tail = prefix_tail 3 (length n) ++ (n ++ value_wire v);
  starts = rw (prefix_wire-cons 3 6 (length n));
  reads = λ rest.
      decode_line_cases (prefix_first 3 6 (length n))
        ((prefix_wire 3 6 (length n) ++ (n ++ value_wire v)) ++ rest) (ground arith)
      ∙ ground (
        arith,
        append_assoc (prefix_wire 3 6 (length n)) (n ++ value_wire v) rest,
        append_assoc n (value_wire v) rest,
        decode_literal-wire n v rest tn tv,
      );
}

encode_literal_value-wire :
    (i : ℕ) (v : Bytes)
    → i < 99
    → IsText v
    → encode_literal_value i v ≡ some (prefix_wire 4 7 i ++ value_wire v)
unfolding encode_literal_value value_wire
encode_literal_value-wire i v h t = rw (
  encode_prefix-wire 4 7 i (omega arith) (omega arith) (omega arith) (omega arith),
  encode_prefix-wire 7 0 (length v) (omega arith) (omega arith) (omega arith) t.fits,
)

encode_literal-wire :
    (n v : Bytes)
    → IsText n
    → IsText v
    → encode_literal n v ≡ some (prefix_wire 3 6 (length n) ++ (n ++ value_wire v))
unfolding encode_literal value_wire
encode_literal-wire n v tn tv = rw (
  encode_prefix-wire 3 6 (length n) (omega arith) (omega arith) (omega arith) tn.fits,
  encode_prefix-wire 7 0 (length v) (omega arith) (omega arith) (omega arith) tv.fits,
)

by_name-Reads :
    (n v : Bytes)
    → IsText n
    → IsText v
    → StaticTable.find n v ≡ none
    → (line : List ℕ) × (encode_line n v ≡ some line) × Reads n v line
unfolding encode_line
by_name-Reads n v tn tv e = elim (Option-cases (StaticTable.find_name n)) [
  | inl missing ↦ (
    prefix_wire 3 6 (length n) ++ (n ++ value_wire v),
    rw (e, missing) (encode_literal-wire n v tn tv),
    literal-Reads n v tn tv,
  )
  | inr (i, found) ↦
      let (w, at) = find_name-get n i found in
      (
        prefix_wire 4 7 i ++ value_wire v,
        rw (e, found) (encode_literal_value-wire i v (get-lt i n w at) tv),
        literal_value-Reads i n w v at tv,
      )
]

-- Whichever form `encode_line` picks for a field, its line is read as the same field.
pub encode_line-Reads :
    (n v : Bytes)
    → IsText n
    → IsText v
    → (line : List ℕ) × (encode_line n v ≡ some line) × Reads n v line
encode_line-Reads n v tn tv = elim (Option-cases (StaticTable.find n v)) [
  | inl missing ↦ by_name-Reads n v tn tv missing
  | inr (i, found) ↦
      let at = (find-get n v i).0 found in
      let small = get-lt i n v at in
      (
        prefix_wire 6 3 i,
        unfold encode_line encode_index in
            rw found
              (encode_prefix-wire 6 3 i (omega arith) (omega arith) (omega arith) (omega arith)),
        index-Reads i n v at,
      )
]
