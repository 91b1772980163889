-- ===== src/Qpack/Text/Total.antt =====
-- `decode_string` does not panic.
use webtransport_rs.Base.{
  ℕ, suc, ◌+◌, ◌-◌, ◌*◌, ◌^◌, ◌<◌, ◌≤◌, List, [], ◌∷◌, length, length-take-le, length-drop, take,
  drop, All, IsByte, arith, ok, map_err, Outcome-cases, ltb, ◌==◌, Bool-cases, inl, inr, bit_and,
}
use webtransport_rs.Base.Yields.{Yields, Yields-bind, Yields-map_err}
use webtransport_rs.Huffman.Window.{new}
use webtransport_rs.Huffman.Tree.{hpack_decode}
use webtransport_rs.Huffman.Total.{hpack_decode-ne-panic}
use webtransport_rs.Qpack.Error.{huffman_error, invalid_utf8}
use webtransport_rs.Qpack.Prefix.{decode_prefix}
use webtransport_rs.Qpack.Text.{Bytes, decode_string, take_payload, decode_payload, from_utf8}
use webtransport_rs.Qpack.Prefix.Mixed.{Mixed, Mixed-take, Mixed-drop, Mixed-IsByte}
use webtransport_rs.Qpack.Prefix.Total.{Less, decode_prefix-Yields}

-- Nothing is asked of the value.
hpack_decode-Yields_text :
    (payload : Bytes)
    → All IsByte payload
    → length payload < 2 ^ 28
    → Yields (λ text. Unit {0}) (hpack_decode (2 * length payload + 1) new payload)
hpack_decode-Yields_text payload h small =
    elim (Outcome-cases (hpack_decode (2 * length payload + 1) new payload)) [
      | inl (text, e) ↦ rw e tt
      | inr (inl (x, e)) ↦ rw e tt
      | inr (inr e) ↦ absurd (hpack_decode-ne-panic payload h small e)
    ]

take_payload-Yields :
    (flags len n : ℕ) (rest : List ℕ)
    → Less n rest
    → n ≤ 2 ^ 28
    → Yields (λ r. Less n r.1) (take_payload (flags, len, rest))
unfolding take_payload decode_payload
take_payload-Yields flags len n rest less small =
    let payload = take len rest in
    let left = drop len rest in
    let fewer = length-take-le len rest in
    let shorter : Less n left = (Mixed-drop len rest less.0, omega (arith, length-drop len rest)) in
    elim (Bool-cases (ltb (length rest) len)) [
      | inl missing ↦ rw missing tt
      | inr enough ↦ elim (Bool-cases (bit_and flags 1 == 0)) [
        | inl plain ↦ rw (enough, plain) shorter
        | inr coded ↦
            rw (enough, coded)
              (Yields-bind (λ text. Unit {0}) (λ r. Less n r.1)
                (map_err huffman_error (hpack_decode (2 * length payload + 1) new payload))
                (λ value. ok (value, left))
                (Yields-map_err (λ text. Unit {0}) huffman_error
                  (hpack_decode (2 * length payload + 1) new payload)
                  (hpack_decode-Yields_text payload
                    (Mixed-IsByte payload (Mixed-take len rest less.0)) (omega arith)))
                (λ value _. shorter))
      ]
    ]

pub decode_string-Yields :
    (buf : List ℕ) (size : ℕ)
    → 2 ≤ size
    → size ≤ 9
    → Mixed buf
    → length buf ≤ 2 ^ 28
    → Yields (λ r. Less (length buf) r.1) (decode_string buf size)
unfolding decode_string
decode_string-Yields [] size pos hs h small = tt
decode_string-Yields (b ∷ bs) size pos hs h small =
    Yields-bind (λ r. Less (suc (length bs)) r.2) (λ r. Less (suc (length bs)) r.1)
      (decode_prefix (b ∷ bs) (size - 1)) take_payload
      (decode_prefix-Yields (b ∷ bs) (size - 1) (omega arith) (omega arith) h)
      (λ r less. take_payload-Yields r.0 r.1 (suc (length bs)) r.2 less small)

pub from_utf8-Yields :
    (bs : Bytes) → Yields (λ text. Unit {0}) (map_err invalid_utf8 (from_utf8 bs))
unfolding from_utf8
from_utf8-Yields bs = ground arith
