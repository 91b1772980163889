-- ===== src/Huffman/Walk.antt =====
-- The walk down the tables against the bits of the content.
use webtransport_rs.Base.{
  ℕ, zero, suc, ◌+◌, ◌*◌, ◌^◌, ◌<◌, ◌≤◌, ◌≡◌, ◌∙◌, refl, sym, ap, Option, none, some, List, [], ◌∷◌,
  ◌++◌, append_assoc, length, length-append, length-take, take, drop, take-append-drop, All, IsByte,
  arith, ok, Outcome, if◌then◌else◌, ltb, ◌==◌, ◌||◌, Bool-cases, inl, inr,
}
use webtransport_rs.Huffman.Reads.Words.{length-bits}
use webtransport_rs.Huffman.Bits.{value, bits}
use webtransport_rs.Huffman.Reads.{read_bits-value, length-parts}
use webtransport_rs.Huffman.Window.{BitWindow, forwards, read_bits, Error}
use webtransport_rs.Huffman.Table.Types.{
  HuffmanDecoder, decoder, DecodeValue, partial, Values, nil, cons,
}
use webtransport_rs.Huffman.Tree.{fetch_value, decode_next, decode_at, decode_value}

-- The symbol whose code is just these bits.
abbrev mutual
  pub find : HuffmanDecoder → List ℕ → Option ℕ
  find (decoder lookup table) c =
      let later = find_at table (value (take lookup c)) (drop lookup c) in
      if lookup == 0 || (ltb 8 lookup || ltb (length c) lookup) then none else later

  pub find_at : Values → ℕ → List ℕ → Option ℕ
  find_at nil i c = none
  find_at (cons v table) zero c = find_value v c
  find_at (cons v table) (suc i) c = find_at table i c

  pub find_value : DecodeValue → List ℕ → Option ℕ
  find_value (partial d) c = find d c
  find_value (DecodeValue.sym x) [] = some x
  find_value (DecodeValue.sym x) (b ∷ c) = none

find-parts :
    (lookup : ℕ) (table : Values) (c : List ℕ) (x : ℕ)
    → find (decoder lookup table) c ≡ some x
    → (0 < lookup)
      × (lookup ≤ 8)
      × (lookup ≤ length c)
      × (find_at table (value (take lookup c)) (drop lookup c) ≡ some x)
find-parts lookup table c x found =
    elim (Bool-cases (lookup == 0 || (ltb 8 lookup || ltb (length c) lookup))) [
      | inl bad ↦ ground (arith, bad)
      | inr good ↦
          (ground (arith, good), ground (arith, good), ground (arith, good), ground (arith, good))
    ]

-- The number of bits in front of what a window reads next.
abbrev pub position : BitWindow → ℕ
position w = w.byte * 8 + w.bit + w.count

pub forwards_lem :
    (w : BitWindow) (step : ℕ)
    → position w < 2 ^ 32
    → ((forwards w step).byte * 8 + (forwards w step).bit ≡ position w)
      × ((forwards w step).bit < 8)
      × ((forwards w step).count ≡ step)
unfolding forwards
forwards_lem w step h = (omega arith, omega arith, refl)

fetch_value-read :
    (w : BitWindow) (src : List ℕ) (v : ℕ)
    → read_bits src w.byte w.bit w.count ≡ ok v
    → fetch_value w src ≡ ok (some v)
unfolding fetch_value
fetch_value-read w src v e = ground (arith, e)

-- The next `length v` bits, at the position behind `pre`.
pub fetch_value-value :
    (src pre v post : List ℕ) (w : BitWindow)
    → All IsByte src
    → length src < 2 ^ 28
    → bits src ≡ pre ++ (v ++ post)
    → position w ≡ length pre
    → 0 < length v
    → length v ≤ 8
    → fetch_value (forwards w (length v)) src ≡ ok (some (value v))
fetch_value-value src pre v post w bytes small e at_pre some_bits few =
    let w' = forwards w (length v) in
    let total = ap length e ∙ length-parts pre v post in
    let (there, within, count) = forwards_lem w (length v) (omega (arith, length-bits src)) in
    fetch_value-read w' src (value v) (
      ap (λ (n : ℕ). read_bits src w'.byte w'.bit n) count
      ∙ read_bits-value src pre v post w'.byte w'.bit bytes small e (omega arith) within some_bits
          few)

module _ (src : List ℕ) (bytes : All IsByte src) (small : length src < 2 ^ 28) where
  pub decode_next-fetched :
      (lookup v : ℕ) (table : Values) (w : BitWindow)
      → fetch_value (forwards w lookup) src ≡ ok (some v)
      → decode_next (decoder lookup table) w src ≡ decode_at table v v (forwards w lookup) src
  unfolding decode_next
  decode_next-fetched lookup v table w e = ground (arith, e)

  abbrev Reaches : (pre c : List ℕ) (x : ℕ) → Outcome Error (Option ℕ × BitWindow) → Type 0
  Reaches pre c x answer =
      (w' : BitWindow) × (answer ≡ ok (some x, w')) × (position w' ≡ length pre + length c)

  mutual
    unfolding decode_next decode_at decode_value

    -- From the position behind `pre`, a table comes to the symbol whose code follows.
    pub decode_next-find :
        (d : HuffmanDecoder) (pre c post : List ℕ) (w : BitWindow) (x : ℕ)
        → bits src ≡ pre ++ (c ++ post)
        → position w ≡ length pre
        → find d c ≡ some x
        → Reaches pre c x (decode_next d w src)
    decode_next-find (decoder lookup table) pre c post w x e at_pre found =
        let (some_bits, few, enough, further) = find-parts lookup table c x found in
        let v = take lookup c in
        let left = drop lookup c in
        let size : length v ≡ lookup = length-take lookup c enough in
        let whole : v ++ left ≡ c = take-append-drop lookup c in
        let next : bits src ≡ pre ++ (v ++ (left ++ post)) =
          e
          ∙ ap (λ c. pre ++ (c ++ post)) (sym whole)
          ∙ ap (λ c. pre ++ c) (append_assoc v left post) in
        let behind : bits src ≡ (pre ++ v) ++ (left ++ post) =
          next ∙ sym (append_assoc pre v (left ++ post)) in
        let read : fetch_value (forwards w lookup) src ≡ ok (some (value v)) = rw size at (
          fetch_value-value src pre v (left ++ post) w bytes small next at_pre (omega arith)
            (omega arith)) in
        let total = ap length e ∙ length-parts pre c post in
        let (there, within, count) = forwards_lem w lookup (omega (arith, length-bits src)) in
        let (w', answer, reached) =
          decode_at-find table (value v) (value v) (pre ++ v) left post (forwards w lookup) x behind
            (omega (arith, length-append pre v)) further in
        (
          w',
          decode_next-fetched lookup (value v) table w read ∙ answer,
          omega (arith, length-append pre v, ap length whole, length-append v left),
        )

    decode_at-find :
        (table : Values) (i value : ℕ) (pre c post : List ℕ) (w : BitWindow) (x : ℕ)
        → bits src ≡ pre ++ (c ++ post)
        → position w ≡ length pre
        → find_at table i c ≡ some x
        → Reaches pre c x (decode_at table i value w src)
    decode_at-find nil i value pre c post w x e at_pre found = absurd (cc found)
    decode_at-find (cons v table) zero value pre c post w x e at_pre found =
        decode_value-find v pre c post w x e at_pre found
    decode_at-find (cons v table) (suc i) value pre c post w x e at_pre found =
        decode_at-find table i value pre c post w x e at_pre found

    decode_value-find :
        (v : DecodeValue) (pre c post : List ℕ) (w : BitWindow) (x : ℕ)
        → bits src ≡ pre ++ (c ++ post)
        → position w ≡ length pre
        → find_value v c ≡ some x
        → Reaches pre c x (decode_value v w src)
    decode_value-find (partial d) pre c post w x e at_pre found =
        decode_next-find d pre c post w x e at_pre found
    decode_value-find (DecodeValue.sym y) pre [] post w x e at_pre found =
        (w, ap (λ (z : ℕ). ok (some z, w)) (cc found), omega arith)
    decode_value-find (DecodeValue.sym y) pre (b ∷ c) post w x e at_pre found = absurd (cc found)
