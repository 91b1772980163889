-- ===== src/Qpack/Headers/RoundTrip.antt =====
-- A peer reads back the headers that were written.
use webtransport_rs.Base.{
  ℕ, zero, suc, ◌≤◌, ◌≡◌, ◌∙◌, refl, sym, some, List, [], ◌∷◌, ◌++◌, length, length-append, ok, All,
  arith,
}
use webtransport_rs.HashMap
use webtransport_rs.HashMap.{bytes_eq, Distinct, Iterates}
use webtransport_rs.HashMap.Laws.{All-get, get-All, get-insert_all_copy}
use webtransport_rs.Qpack.Prefix.Wire.{prefix_wire, encode_prefix-wire}
use webtransport_rs.Qpack.Prefix.RoundTrip.{decode_prefix-wire}
use webtransport_rs.Qpack.Text.{Bytes}
use webtransport_rs.Qpack.Text.RoundTrip.{IsText}
use webtransport_rs.Qpack.Headers.{Headers, decode, decode_lines}
use webtransport_rs.Qpack.Headers.Encode.{encode, encode_lines}
use webtransport_rs.Qpack.Headers.Lines.{Reads, encode_line-Reads}

abbrev pub IsField : Bytes × Bytes → Type 0
IsField (name, value) = IsText name × IsText value

-- No name twice, and every name and value is a text.
pub record IsFields (h : Headers) : Type 0 where
  pub distinct : Distinct h
  pub texts : (k v : Bytes) → HashMap.get h k ≡ some v → IsText k × IsText v

pub entries-IsFields : (es : Headers) → Distinct es → All IsField es → IsFields es
entries-IsFields es d h = record {
  distinct = d;
  texts = λ k v found. get-All IsField es k v h found;
}

-- One round of the loop, on a line that is read.
decode_lines_step :
    (fuel : ℕ) (m : Headers) (name value : Bytes) (line rest : List ℕ)
    → Reads name value line
    → decode_lines (suc fuel) m (line ++ rest)
      ≡ decode_lines fuel (HashMap.insert m name value) rest
unfolding decode_lines
decode_lines_step fuel m name value line rest r = ground (arith, r.starts, r.reads rest)

-- `bs` is what the loop reads as the fields `es`.
record ReadsAll (es : List (Bytes × Bytes)) (bs : List ℕ) : Type 0 where
  reads :
      (fuel : ℕ) (m : Headers)
      → length bs ≤ fuel
      → decode_lines fuel m bs ≡ ok (HashMap.insert_all m es)

ReadsAll-cons :
    (name value : Bytes) (es : List (Bytes × Bytes)) (line bs : List ℕ)
    → Reads name value line
    → ReadsAll es bs
    → (fuel : ℕ) (m : Headers) → length (line ++ bs) ≤ fuel
    → decode_lines fuel m (line ++ bs) ≡ ok (HashMap.insert_all m ((name, value) ∷ es))
ReadsAll-cons name value es line bs r rs zero m h = absurd (ground (arith, r.starts))
ReadsAll-cons name value es line bs r rs (suc fuel) m h =
    decode_lines_step fuel m name value line bs r
    ∙ unfold HashMap.insert_all in
      rs.reads fuel (HashMap.insert m name value)
        (ground (arith, r.starts, length-append r.tail bs))

encode_lines-ReadsAll :
    (es : List (Bytes × Bytes))
    → All IsField es
    → (bs : List ℕ) × (encode_lines es ≡ some bs) × ReadsAll es bs
unfolding encode_lines
encode_lines-ReadsAll [] h =
    ([], refl, record { reads = λ fuel m hf. unfold decode_lines HashMap.insert_all in refl })
encode_lines-ReadsAll ((name, value) ∷ es) h =
    let (line, written, r) = encode_line-Reads name value h.0.0 h.0.1 in
    let (bs, written', rs) = encode_lines-ReadsAll es h.1 in
    (
      line ++ bs,
      rw (written, written'),
      record { reads = ReadsAll-cons name value es line bs r rs },
    )

module _ (iter : Headers → List (Bytes × Bytes))
    (iterates : (h : Headers) → Distinct h → Iterates (iter h) h) where
  fields_valid : (h : Headers) → IsFields h → All IsField (iter h)
  fields_valid h f =
      let it = iterates h f.distinct in
      All-get IsField (iter h) it.distinct (λ k v found. f.texts k v (sym (it.same k) ∙ found))

  -- Whatever the order in which the map is iterated: headers whose names and values are texts can
  -- be written, and a peer that decodes the bytes has a map with the same value for every name.
  pub decode-encode_headers :
      (h : Headers)
      → IsFields h
      → (bs : List ℕ) × (t : Headers) × (encode iter h ≡ some bs)
        × (decode bs ≡ ok t)
        × ((k : Bytes) → HashMap.get t k ≡ HashMap.get h k)
  decode-encode_headers h f =
      let (lines, written, r) = encode_lines-ReadsAll (iter h) (fields_valid h f) in
      let bs = prefix_wire 8 0 0 ++ (prefix_wire 7 0 0 ++ lines) in
      (
        bs,
        HashMap.insert_all [] (iter h),
        unfold encode in
            rw (
              encode_prefix-wire 8 0 0 (omega arith) (omega arith) (omega arith) (omega arith),
              encode_prefix-wire 7 0 0 (omega arith) (omega arith) (omega arith) (omega arith),
              written,
            ),
        unfold decode in
            rw
              (
                decode_prefix-wire 8 0 0 (prefix_wire 7 0 0 ++ lines) (omega arith) (omega arith)
                    (omega arith) (omega arith),
                decode_prefix-wire 7 0 0 lines (omega arith) (omega arith) (omega arith)
                    (omega arith),
              )
              (r.reads (length lines) [] (omega arith)),
        λ k. get-insert_all_copy k (iterates h f.distinct),
      )
