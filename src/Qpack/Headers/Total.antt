-- ===== src/Qpack/Headers/Total.antt =====
-- The decoder of a field section returns, whatever the bytes.
use webtransport_rs.Base.{
  ℕ, zero, suc, ◌^◌, ◌≤◌, ◌≢◌, List, [], ◌∷◌, length, arith, ok, panic, ◌>>=◌, map_err, Outcome,
}
use webtransport_rs.Base.Yields.{Yields, Yields-bind, Yields-ne-panic}
use webtransport_rs.HashMap
use webtransport_rs.HashMap.{bytes_eq}
use webtransport_rs.Qpack.Error.{DecodeError, invalid_utf8}
use webtransport_rs.Qpack.Prefix.{decode_prefix}
use webtransport_rs.Qpack.Text.{Bytes, decode_string, from_utf8}
use webtransport_rs.Qpack.Prefix.Mixed.{Mixed}
use webtransport_rs.Qpack.Prefix.Total.{Less, decode_prefix-Yields}
use webtransport_rs.Qpack.Text.Total.{decode_string-Yields, from_utf8-Yields}
use webtransport_rs.Qpack.StaticTable
use webtransport_rs.Qpack.Headers
use webtransport_rs.Qpack.Headers.{
  Headers, Line, decode_index, decode_literal_value, decode_literal, decode_line, decode_lines,
}

get-Yields : (i : ℕ) → Yields (λ r. Unit {0}) (StaticTable.get i)
unfolding StaticTable.get
get-Yields i = ground arith

-- What a line leaves.
abbrev LeavesLess : ℕ → Outcome DecodeError (Bytes × Bytes × List ℕ) → Type 0
LeavesLess n r = Yields (λ r. Less n r.2) r

decode_index-Yields : (buf : List ℕ) → Mixed buf → LeavesLess (length buf) (decode_index buf)
unfolding decode_index
decode_index-Yields buf h =
    Yields-bind (λ r. Less (length buf) r.2) (λ r. Less (length buf) r.2) (decode_prefix buf 6) _
      (decode_prefix-Yields buf 6 (omega arith) (omega arith) h)
      λ r less.
        Yields-bind (λ r. Unit {0}) (λ r. Less (length buf) r.2) (StaticTable.get r.1) _
          (get-Yields r.1) λ p _. less

decode_value-Yields :
    (n : ℕ) (name : Bytes) (rest : List ℕ)
    → Less n rest
    → n ≤ 2 ^ 28
    → LeavesLess n (
        decode_string rest 8 >>= λ (value, rest').
        map_err invalid_utf8 (from_utf8 value) >>= λ text. ok (name, text, rest'))
decode_value-Yields n name rest less small =
    Yields-bind (λ r. Less (length rest) r.1) (λ r. Less n r.2) (decode_string rest 8) _
      (decode_string-Yields rest 8 (omega arith) (omega arith) less.0 (omega arith))
      λ r fewer.
        Yields-bind (λ text. Unit {0}) (λ r. Less n r.2) (map_err invalid_utf8 (from_utf8 r.0)) _
          (from_utf8-Yields r.0) λ text _. (fewer.0, omega arith)

decode_literal_value-Yields :
    (buf : List ℕ)
    → Mixed buf
    → length buf ≤ 2 ^ 28
    → LeavesLess (length buf) (decode_literal_value buf)
unfolding decode_literal_value
decode_literal_value-Yields buf h small =
    Yields-bind (λ r. Less (length buf) r.2) (λ r. Less (length buf) r.2) (decode_prefix buf 4) _
      (decode_prefix-Yields buf 4 (omega arith) (omega arith) h)
      λ r less.
        Yields-bind (λ r. Unit {0}) (λ r. Less (length buf) r.2) (StaticTable.get r.1) _
          (get-Yields r.1) λ p _. decode_value-Yields (length buf) p.0 r.2 less small

decode_literal-Yields :
    (buf : List ℕ) → Mixed buf → length buf ≤ 2 ^ 28 → LeavesLess (length buf) (decode_literal buf)
unfolding decode_literal
decode_literal-Yields buf h small =
    Yields-bind (λ r. Less (length buf) r.1) (λ r. Less (length buf) r.2) (decode_string buf 4) _
      (decode_string-Yields buf 4 (omega arith) (omega arith) h small)
      λ r less.
        Yields-bind (λ text. Unit {0}) (λ r. Less (length buf) r.2)
          (map_err invalid_utf8 (from_utf8 r.0)) _ (from_utf8-Yields r.0)
          λ name _. decode_value-Yields (length buf) name r.1 less small

decode_line-Yields :
    (peek : ℕ) (buf : List ℕ)
    → Mixed buf
    → length buf ≤ 2 ^ 28
    → LeavesLess (length buf) (decode_line peek buf)
unfolding decode_line
decode_line-Yields peek buf h small =
    let one = decode_index-Yields buf h in
    let two = decode_literal_value-Yields buf h small in
    let three = decode_literal-Yields buf h small in ground (arith, one, two, three)

decode_lines-Yields :
    (fuel : ℕ) (fields : Headers) (buf : List ℕ)
    → Mixed buf
    → length buf ≤ fuel
    → length buf ≤ 2 ^ 28
    → Yields (λ fields. Unit {0}) (decode_lines fuel fields buf)
unfolding decode_lines
decode_lines-Yields fuel fields [] h enough small = tt
decode_lines-Yields zero fields (b ∷ bs) h enough small = absurd (omega arith)
decode_lines-Yields (suc fuel) fields (b ∷ bs) h enough small =
    Yields-bind (λ r. Less (suc (length bs)) r.2) (λ fields. Unit {0}) (decode_line b (b ∷ bs)) _
      (decode_line-Yields b (b ∷ bs) h small)
      λ r less.
        decode_lines-Yields fuel (HashMap.insert fields r.0 r.1) r.2 less.0 (omega arith)
          (omega arith)

pub decode-Yields_headers :
    (buf : List ℕ)
    → Mixed buf
    → length buf ≤ 2 ^ 28
    → Yields (λ fields. Unit {0}) (Headers.decode buf)
unfolding Headers.decode
decode-Yields_headers buf h small =
    Yields-bind (λ r. Less (length buf) r.2) (λ fields. Unit {0}) (decode_prefix buf 8) _
      (decode_prefix-Yields buf 8 (omega arith) (omega arith) h)
      λ r less.
        Yields-bind (λ s. Less (length r.2) s.2) (λ fields. Unit {0}) (decode_prefix r.2 7) _
          (decode_prefix-Yields r.2 7 (omega arith) (omega arith) less.0)
          λ s fewer. decode_lines-Yields (length s.2) [] s.2 fewer.0 (omega arith) (omega arith)

-- On any bytes, 2 ^ 28 at most, of which no seven in a row are 255, `Headers::decode` returns: its loop
-- ends, and no shift and no sum of the prefixed integers is out of range.
decode-ne-panic_headers :
    (buf : List ℕ) → Mixed buf → length buf ≤ 2 ^ 28 → Headers.decode buf ≢ panic
decode-ne-panic_headers buf h small =
    Yields-ne-panic (λ fields. Unit {0}) (Headers.decode buf) (decode-Yields_headers buf h small)
