-- ===== src/VarInt/RoundTrip.antt =====
-- `encode` and `decode` are inverse, and a cut encoding is never mistaken for a number.
use webtransport_rs.Base.{
  ◌⊎◌, Bool-cases, ltb, ◌≡◌, ◌≤◌, ◌^◌, arith, List, [], ◌∷◌, ◌++◌, append-nil, length-append, some,
  ok, err, inl, inr, IsByte, ℕ, Outcome-cases, All-append_left,
}
use webtransport_rs.VarInt.{
  VarInt, IsVarInt, encode, decode, unexpected_end, bounds_exceeded, from_u64, try_from_u128,
}
use webtransport_rs.VarInt.Wire.{wire, wire_unique, encode-wire, decode-wire, wire-IsByte}
use webtransport_rs.VarInt.Bounds.{decode-append, decode-ne-panic}

-- Every VarInt has an encoding, and `decode` reads it back, whatever follows it.
pub decode-encode :
    (x : VarInt) (rest : List ℕ)
    → IsVarInt x
    → (bs : List ℕ) × (encode x ≡ some bs) × (decode (bs ++ rest) ≡ ok (x, rest))
decode-encode x rest h = (wire x, encode-wire x h, decode-wire x rest h)

-- On every proper prefix of an encoding `decode` reports the end of the buffer.
decode_truncated :
    (x : VarInt) (front back : List ℕ) (b : ℕ)
    → IsVarInt x
    → encode x ≡ some (front ++ b ∷ back)
    → decode front ≡ err unexpected_end
decode_truncated x front back b h e = elim (Outcome-cases (decode front)) [
  | inl ((v, left), r) ↦
      ground (arith, whole, decode-append front (b ∷ back) v left r, length-append left (b ∷ back))
  | inr (inl (unexpected_end, r)) ↦ r
  | inr (inr r) ↦ absurd (
      decode-ne-panic front (All-append_left IsByte front (b ∷ back) (rw same at (wire-IsByte x)))
        r)
]
  where
    same : wire x ≡ front ++ b ∷ back
    same = wire_unique x _ h e

    whole : decode (front ++ b ∷ back) ≡ ok (x, [])
    whole = rw (append-nil, same) at (decode-wire x [] h)

-- The checked conversions succeed on exactly the VarInts, and keep the number; the u128 one is not
-- fooled by a number that is too wide for a u64.
pub try_from_cases :
    (x : ℕ)
    → (try_from_u128 x ≡ from_u64 x)
      × ((IsVarInt x × (from_u64 x ≡ ok x)) ⊎ ((2 ^ 62 ≤ x) × (from_u64 x ≡ err bounds_exceeded)))
unfolding try_from_u128 from_u64
try_from_cases x = elim (Bool-cases (ltb x (2 ^ 62))) [
  | inl small ↦ (ground arith, inl (ground arith, ground arith))
  | inr large ↦ (ground arith, inr (ground arith, ground arith))
]
