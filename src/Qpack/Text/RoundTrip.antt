-- ===== src/Qpack/Text/RoundTrip.antt =====
-- A plain string is read back.
use webtransport_rs.Base.{
  ℕ, ◌-◌, ◌^◌, ◌≤◌, ◌<◌, ◌≡◌, ◌∙◌, refl, true, List, [], ◌∷◌, ◌++◌, length, length-append,
  take-append, drop-append, bit_and, ok, ◌>>=◌, arith, map_err,
}
use webtransport_rs.Qpack.Error.{invalid_utf8}
use webtransport_rs.Qpack.Prefix.{decode_prefix}
use webtransport_rs.Qpack.Prefix.Wire.{prefix_wire}
use webtransport_rs.Qpack.Prefix.RoundTrip.{decode_prefix-wire}
use webtransport_rs.Qpack.Text.{
  Bytes, is_utf8, from_utf8, take_payload, decode_payload, decode_string,
}

-- What a Rust `String` guarantees of its bytes, and what a usize allows of their number.
pub record IsText (bs : Bytes) : Type 0 where
  pub valid : is_utf8 [] bs ≡ true
  pub fits : length bs < 2 ^ 64

pub from_utf8-IsText : (bs : Bytes) → IsText bs → map_err invalid_utf8 (from_utf8 bs) ≡ ok bs
unfolding from_utf8
from_utf8-IsText bs t = ground (arith, t.valid)

-- The test for an empty buffer only repeats that of `decode_prefix`.
pub decode_string_lem :
    (buf : List ℕ) (size : ℕ)
    → size ≤ 9
    → decode_string buf size ≡ (decode_prefix buf (size - 1) >>= take_payload)
decode_string_lem [] size h = unfold decode_string decode_prefix in ground arith
decode_string_lem (b ∷ bs) size h = unfold decode_string in refl

take_payload-plain :
    (flags : ℕ) (value rest : List ℕ)
    → bit_and flags 1 ≡ 0
    → take_payload (flags, length value, value ++ rest) ≡ ok (value, rest)
unfolding take_payload decode_payload
take_payload-plain flags value rest h =
    ground (arith, length-append value rest, take-append value rest, drop-append value rest)

pub decode_string-wire :
    (size flags : ℕ) (value rest : List ℕ)
    → 2 ≤ size
    → size ≤ 9
    → flags < 2 ^ (8 - (size - 1))
    → bit_and flags 1 ≡ 0
    → length value < 2 ^ 64
    → decode_string (prefix_wire (size - 1) flags (length value) ++ (value ++ rest)) size
      ≡ ok (value, rest)
decode_string-wire size flags value rest hs hs9 hf plain hv =
    decode_string_lem _ size hs9
    ∙ rw
        (decode_prefix-wire (size - 1) flags (length value) (value ++ rest) (omega arith)
          (omega arith) hf hv)
        (take_payload-plain flags value rest plain)
