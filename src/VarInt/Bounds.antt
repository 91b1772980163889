-- ===== src/VarInt/Bounds.antt =====
-- How long an encoding is, how much `decode` takes, and what range it returns.
use mathlib.Core.Option
use webtransport_rs.VarInt.Wire.{wire, wire_unique}
use webtransport_rs.Base.{
  ℕ, ◌+◌, ◌*◌, ◌^◌, ◌≤◌, ◌<◌, ◌≡◌, ◌≢◌, refl, bit_and, List, [], ◌∷◌, ◌++◌, ltb, if◌then◌else◌,
  length, take, drop, ok, panic, arith, All, IsByte, ap, length-take, take-append-drop,
  take-append_le, drop-append_le, All-take, length-append, All-append_right, some, length-drop, sym,
}
use webtransport_rs.Base.Bits.{and_mask}
use mathlib.Core.List.{foldl}
use native.Mathlib.Nat.{mul-le-mul_right, pow-suc, pow-le-pow_right}
use webtransport_rs.VarInt.{VarInt, IsVarInt, decode_word, size, encode, decode}
use webtransport_rs.VarInt.Bytes.{length-to_be_bytes, from_be_bytes}

-- `size` is the length of what `encode` writes, and the two panic on the same values.
size-length-encode : (x : VarInt) → size x ≡ Option.map (length {A = ℕ}) (encode x)
unfolding size encode
size-length-encode x = ground arith

-- Whatever the bytes, `decode` does not reach `unreachable!`.
pub decode-ne-panic : (bs : List ℕ) → All IsByte bs → decode bs ≢ panic
unfolding decode
decode-ne-panic [] h = λ e. cc
decode-ne-panic (b ∷ bs) h = ground arith

byte_step : (a b : ℕ) → b < 256 → a * 256 + b + 1 ≤ (a + 1) * 256
byte_step a b h = omega arith

-- A number read from bytes stays below the weight of its first place.
fold-lt :
    (acc : ℕ) (bs : List ℕ)
    → All IsByte bs
    → foldl (λ a b. a * 256 + b) acc bs < (acc + 1) * 256 ^ length bs
fold-lt acc [] h = omega arith
fold-lt acc (b ∷ bs) h =
    let rest = fold-lt (acc * 256 + b) bs h.1 in
    let room = mul-le-mul_right (256 ^ length bs) (byte_step acc b h.0) in
    let scale = ap (λ (t : ℕ). (acc + 1) * t) (pow-suc 256 (length bs)) in omega arith

word-lt :
    (first : ℕ) (bs : List ℕ)
    → first < 64
    → All IsByte bs
    → from_be_bytes (first ∷ bs) < 64 * 256 ^ length bs
unfolding from_be_bytes
word-lt first bs hf hb =
    let below : from_be_bytes (first ∷ bs) < (0 * 256 + first + 1) * 256 ^ length bs =
      fold-lt (0 * 256 + first) bs hb in
    let top : 0 * 256 + first + 1 ≤ 64 = omega arith in
    let room = mul-le-mul_right (256 ^ length bs) top in omega arith

decode_word-used :
    (first : ℕ) (rest : List ℕ) (n : ℕ) (v : VarInt) (left : List ℕ)
    → first < 64
    → All IsByte rest
    → decode_word first rest n ≡ ok (v, left)
    → (v < 64 * 256 ^ n) × (n ≤ length rest) × (left ≡ drop n rest)
unfolding decode_word
decode_word-used first rest n v left hf hr e =
    ground (arith, word-lt first (take n rest) hf (All-take IsByte n rest hr), length-take n rest)

decode_word-local :
    (first : ℕ) (rest more : List ℕ) (n : ℕ) (v : VarInt) (left : List ℕ)
    → decode_word first rest n ≡ ok (v, left)
    → decode_word first (rest ++ more) n ≡ ok (v, left ++ more)
unfolding decode_word
decode_word-local first rest more n v left e =
    ground (arith, length-append rest more, take-append_le n rest more, drop-append_le n rest more)

decode_word-ne-panic : (first : ℕ) (rest : List ℕ) (n : ℕ) → decode_word first rest n ≢ panic
unfolding decode_word
decode_word-ne-panic first rest n = ground arith

-- How many bytes follow a first byte `b`.
tail_length : ℕ → ℕ
tail_length b = if ltb b 64 then 0 else if ltb b 128 then 1 else if ltb b 192 then 3 else 7

tail_length-le : (b : ℕ) → tail_length b ≤ 7
unfolding tail_length
tail_length-le b = ground arith

decode-used :
    (b : ℕ) (rest : List ℕ) (v : VarInt) (left : List ℕ)
    → IsByte b
    → All IsByte rest
    → decode (b ∷ rest) ≡ ok (v, left)
    → (v < 64 * 256 ^ tail_length b)
      × (tail_length b ≤ length rest)
      × (left ≡ drop (tail_length b) rest)
unfolding decode tail_length
decode-used b rest v left hb hr e = ground (
  arith,
  and_mask 6 b 63 refl,
  decode_word-used (bit_and b 63) rest 1 v left,
  decode_word-used (bit_and b 63) rest 3 v left,
  decode_word-used (bit_and b 63) rest 7 v left,
)

pub decode-append :
    (bs more : List ℕ) (v : VarInt) (left : List ℕ)
    → decode bs ≡ ok (v, left)
    → decode (bs ++ more) ≡ ok (v, left ++ more)
unfolding decode
decode-append [] more v left e = cc
decode-append (b ∷ rest) more v left e = ground (
  arith,
  decode_word-local (bit_and b 63) rest more 1 v left,
  decode_word-local (bit_and b 63) rest more 3 v left,
  decode_word-local (bit_and b 63) rest more 7 v left,
)

pub decode-append_panic : (bs more : List ℕ) → decode bs ≡ panic → decode (bs ++ more) ≡ panic
unfolding decode
decode-append_panic [] more e = cc
decode-append_panic (b ∷ rest) more e = ground (
  arith,
  decode_word-ne-panic (bit_and b 63) rest 1,
  decode_word-ne-panic (bit_and b 63) rest 3,
  decode_word-ne-panic (bit_and b 63) rest 7,
)

-- What a successful `decode` of `bs` has done: the range of the number, the bytes used up, and
-- that the bytes behind them play no part.
pub record Decodes (bs : List ℕ) (v : VarInt) (left : List ℕ) : Type 0 where
  pub in_range : IsVarInt v
  pub used : List ℕ
  pub splits : bs ≡ used ++ left
  pub at_least : 1 ≤ length used
  pub at_most : length used ≤ 8
  pub local : (more : List ℕ) → decode (bs ++ more) ≡ ok (v, left ++ more)

-- Every success of `decode` on bytes is such a step.
pub decode-Decodes :
    (bs : List ℕ) (v : VarInt) (left : List ℕ)
    → All IsByte bs
    → decode bs ≡ ok (v, left)
    → Decodes bs v left
decode-Decodes [] v left h e = unfold decode in cc
decode-Decodes (b ∷ rest) v left h e =
    let (below, fits, cut) = decode-used b rest v left h.0 h.1 e in
    let width = pow-le-pow_right {n = 256} (omega arith) (tail_length-le b) in
    let taken = length-take (tail_length b) rest fits in
    record {
      in_range = omega arith;
      used = b ∷ take (tail_length b) rest;
      splits = rw cut (ap (◌∷◌ b) (sym (take-append-drop (tail_length b) rest)));
      at_least = omega arith;
      at_most = omega (arith, tail_length-le b);
      local = λ more. decode-append (b ∷ rest) more v left e;
    }

length-wire_cases :
    (x : VarInt)
    → (length (wire x) ≡ (
        if ltb x (2 ^ 6) then 1 else if ltb x (2 ^ 14) then 2 else if ltb x (2 ^ 30) then 4 else 8))
unfolding wire
length-wire_cases x = ground (
  arith,
  length-to_be_bytes 1 x,
  length-to_be_bytes 2 (2 ^ 14 + x),
  length-to_be_bytes 4 (2 ^ 31 + x),
  length-to_be_bytes 8 (2 ^ 63 + 2 ^ 62 + x),
)

length-wire-le : (b x : ℕ) → x < 64 * 256 ^ tail_length b → length (wire x) ≤ 1 + tail_length b
unfolding tail_length
length-wire-le b x h = ground (arith, length-wire_cases x)

-- No bytes that `decode` reads as `x` are fewer than those that `encode` writes for it.
pub encode_shortest :
    (bs left out : List ℕ) (x : VarInt)
    → All IsByte bs
    → decode bs ≡ ok (x, left)
    → encode x ≡ some out
    → length out + length left ≤ length bs
encode_shortest [] left out x h e w = unfold decode in cc
encode_shortest (b ∷ rest) left out x h e w =
    let (below, fits, cut) = decode-used b rest x left h.0 h.1 e in
    let width = pow-le-pow_right {n = 256} (omega arith) (tail_length-le b) in
    let same : wire x ≡ out = wire_unique x out (omega arith) w in
    omega (
      arith,
      length-wire-le b x below,
      ap length same,
      ap length cut,
      length-drop (tail_length b) rest,
    )

-- What is left is a part of the input, and shorter.
pub decode_left :
    (bs left : List ℕ) (v : VarInt)
    → All IsByte bs
    → decode bs ≡ ok (v, left)
    → All IsByte left × (length left < length bs)
decode_left bs left v h e =
    let d = decode-Decodes bs v left h e in
    (
      All-append_right IsByte d.used left (rw d.splits at h),
      omega (arith, d.at_least, ap length d.splits, length-append d.used left),
    )
