-- ===== src/Huffman/Padding.antt =====
-- The end of the content: fewer than eight ones.
use webtransport_rs.Base.{
  ℕ, zero, suc, ◌+◌, ◌-◌, ◌*◌, ◌%◌, ◌^◌, ◌<◌, ◌≤◌, ◌≡◌, ◌∙◌, refl, sym, ap, Option, none, some,
  List, [], ◌∷◌, ◌++◌, append_assoc, append-nil, length, length-append, All, IsByte, arith, ok, err,
  Outcome, if◌then◌else◌, ltb, ◌==◌, ◌||◌, Bool, false, true, Bool-cases, inl, inr, ◌⊎◌, bit_and,
}
use webtransport_rs.Base.Bits.{and_mask}
use native.Mathlib.Nat.{pow-suc, mod-eq_of_lt}
use webtransport_rs.Huffman.Reads.Words.{length-bits}
use webtransport_rs.Huffman.Bits.{value, bits, pow_within}
use webtransport_rs.Huffman.Reads.{read_bits-value}
use webtransport_rs.Huffman.Window.{BitWindow, forwards, opposite_bit_window, read_bits, Error}
use webtransport_rs.Huffman.Table.Types.{
  HuffmanDecoder, decoder, DecodeValue, partial, Values, nil, cons,
}
use webtransport_rs.Huffman.Tree.{fetch_value, check_eof, decode_next, decode_at, decode_value}
use webtransport_rs.Huffman.Walk.{position, forwards_lem, fetch_value-value, decode_next-fetched}

abbrev pub ones : ℕ → List ℕ
ones zero = []
ones (suc k) = 1 ∷ ones k

pub length-ones : (k : ℕ) → length (ones k) ≡ k
length-ones zero = refl
length-ones (suc k) = ap suc (length-ones k)

value-ones : (k : ℕ) → value (ones k) + 1 ≡ 2 ^ k
value-ones zero = refl
value-ones (suc k) = rw (length-ones k, pow-suc 2 k) (omega (arith, value-ones k))

ones_sum : (j k : ℕ) → ones j ++ ones k ≡ ones (j + k)
ones_sum zero k = let e : 0 + k ≡ k = omega arith in rw e refl
ones_sum (suc j) k =
    let e : suc j + k ≡ suc (j + k) = omega arith in rw e (ap (λ xs. 1 ∷ xs) (ones_sum j k))

ones_cut : (j k : ℕ) → j ≤ k → ones k ≡ ones j ++ ones (k - j)
ones_cut j k h = let e : k ≡ j + (k - j) = omega arith in ap ones e ∙ sym (ones_sum j (k - j))

-- A table that `k` ones, and no more, lead to no symbol.
abbrev mutual
  pub ends : HuffmanDecoder → ℕ → Bool
  ends (decoder lookup table) k =
      let later = ends_at table (2 ^ lookup - 1) (k - lookup) in
      if lookup == 0 || ltb 8 lookup then false else if ltb k lookup then true else later

  pub ends_at : Values → ℕ → ℕ → Bool
  ends_at nil i k = false
  ends_at (cons v table) zero k = ends_value v k
  ends_at (cons v table) (suc i) k = ends_at table i k

  pub ends_value : DecodeValue → ℕ → Bool
  ends_value (partial d) k = ends d k
  ends_value (DecodeValue.sym x) k = false

-- The filler of `check_eof`.
filler : (k : ℕ) → 0 < k → k < 8 → (2 * 2 ^ (k - 1) - 1) % 2 ^ 8 ≡ value (ones k)
filler zero h h' = absurd (omega arith)
filler (suc k) h h' =
    let e : suc k - 1 ≡ k = omega arith in
    let wide = pow_within (suc k) 8 (omega arith) in
    rw e (omega (arith, pow-suc 2 k, value-ones (suc k)))

filled : (k : ℕ) → bit_and (value (ones k)) (value (ones k)) ≡ value (ones k)
filled k =
    let below : value (ones k) < 2 ^ k = omega (arith, value-ones k) in
    and_mask k (value (ones k)) (value (ones k)) (value-ones k) ∙ mod-eq_of_lt below

module _ (src : List ℕ) (bytes : All IsByte src) (small : length src < 2 ^ 28) where
  check_eof-ones :
      (pre : List ℕ) (k : ℕ) (w : BitWindow)
      → bits src ≡ pre ++ ones k
      → k < 8
      → w.byte * 8 + w.bit ≡ length pre
      → w.bit < 8
      → check_eof w src ≡ ok none
  unfolding check_eof opposite_bit_window
  check_eof-ones pre k w e h there within =
      let total = ap length e ∙ length-append pre (ones k) in
      elim (Bool-cases (k == 0)) [
        | inl none_left ↦
            let past : ltb (length src) ((w.byte + 1) % 2 ^ 32) ≡ true =
              ground (arith, total, length-bits src, length-ones k) in
            rw past refl
        | inr some_left ↦
            let positive : 0 < k = ground arith in
            let within_src : ltb (length src) ((w.byte + 1) % 2 ^ 32) ≡ false =
              ground (arith, total, length-bits src, length-ones k) in
            let last : ((w.byte + 1) % 2 ^ 32 == length src) ≡ true =
              ground (arith, total, length-bits src, length-ones k) in
            let rest : 8 - w.bit % 8 ≡ k = omega (arith, total, length-bits src, length-ones k) in
            let read : read_bits src w.byte w.bit k ≡ ok (value (ones k)) = rw (length-ones k) at (
              read_bits-value src pre (ones k) [] w.byte w.bit bytes small
                (e ∙ ap (λ xs. pre ++ xs) (sym (append-nil (ones k)))) (sym there) within
                (omega (arith, length-ones k)) (omega (arith, length-ones k))) in
            rw (within_src, last, rest) (ground (arith, read, filler k positive h, filled k))
      ]

  read_bits-short :
      (pre : List ℕ) (k : ℕ) (w : BitWindow)
      → bits src ≡ pre ++ ones k
      → w.byte * 8 + w.bit ≡ length pre
      → k < w.count
      → w.count ≤ 8
      → read_bits src w.byte w.bit w.count ≡ err tt
  unfolding read_bits
  read_bits-short pre k w e there short few =
      let total = ap length e ∙ length-append pre (ones k) in
      ground (arith, total, length-bits src, length-ones k)

  fetch_value-ones :
      (pre : List ℕ) (j k : ℕ) (w : BitWindow)
      → bits src ≡ pre ++ (ones j ++ ones k)
      → position w ≡ length pre
      → 0 < j
      → j ≤ 8
      → fetch_value (forwards w j) src ≡ ok (some (2 ^ j - 1))
  fetch_value-ones pre j k w e at_pre some_bits few =
      let worth : value (ones j) ≡ 2 ^ j - 1 = omega (arith, value-ones j) in
      rw (length-ones j, worth) at
        (fetch_value-value src pre (ones j) (ones k) w bytes small e at_pre
          (omega (arith, length-ones j)) (omega (arith, length-ones j)))

  fetch_value-checked :
      (w : BitWindow)
      → read_bits src w.byte w.bit w.count ≡ err tt
      → fetch_value w src ≡ check_eof w src
  unfolding fetch_value
  fetch_value-checked w e = ground (arith, e)

  decode_next-none :
      (lookup : ℕ) (table : Values) (w : BitWindow)
      → fetch_value (forwards w lookup) src ≡ ok none
      → decode_next (decoder lookup table) w src ≡ ok (none, forwards w lookup)
  unfolding decode_next
  decode_next-none lookup table w e = ground (arith, e)

  ends-parts :
      (lookup : ℕ) (table : Values) (k : ℕ)
      → ends (decoder lookup table) k ≡ true
      → (0 < lookup)
        × (lookup ≤ 8)
        × ((k < lookup) ⊎ ((lookup ≤ k) × (ends_at table (2 ^ lookup - 1) (k - lookup) ≡ true)))
  ends-parts lookup table k e = elim (Bool-cases (lookup == 0 || ltb 8 lookup)) [
    | inl bad ↦ ground (arith, bad)
    | inr good ↦ elim (Bool-cases (ltb k lookup)) [
      | inl short ↦ (ground (arith, good), ground (arith, good), inl (ground arith))
      | inr long ↦ (
        ground (arith, good),
        ground (arith, good),
        inr (ground arith, ground (arith, good, long)),
      )
    ]
  ]

  abbrev NoSymbol : Outcome Error (Option ℕ × BitWindow) → Type 0
  NoSymbol answer = (w' : BitWindow) × (answer ≡ ok (none, w'))

  mutual
    unfolding decode_next decode_at decode_value

    -- From the position behind `pre`, where just ones are left, a table that ends there has no symbol.
    pub decode_next-ends :
        (d : HuffmanDecoder) (pre : List ℕ) (k : ℕ) (w : BitWindow)
        → bits src ≡ pre ++ ones k
        → k < 8
        → position w ≡ length pre
        → ends d k ≡ true
        → NoSymbol (decode_next d w src)
    decode_next-ends (decoder lookup table) pre k w e h at_pre ending =
        let (some_bits, few, next) = ends-parts lookup table k ending in
        let total = ap length e ∙ length-append pre (ones k) in
        let (there, within, count) = forwards_lem w lookup (omega (arith, length-bits src)) in
        elim next [
          | inl short ↦ (
            forwards w lookup,
            decode_next-none lookup table w (
                fetch_value-checked (forwards w lookup) (
                  read_bits-short pre k (forwards w lookup) e (there ∙ at_pre) (rw count short)
                    (rw count few))
                ∙ check_eof-ones pre k (forwards w lookup) e h (there ∙ at_pre) within),
          )
          | inr (long, later) ↦
              let behind : ones k ≡ ones lookup ++ ones (k - lookup) = ones_cut lookup k long in
              let whole : bits src ≡ pre ++ (ones lookup ++ ones (k - lookup)) =
                e ∙ ap (λ xs. pre ++ xs) behind in
              let read : fetch_value (forwards w lookup) src ≡ ok (some (2 ^ lookup - 1)) =
                fetch_value-ones pre lookup (k - lookup) w whole at_pre some_bits few in
              let (w', answer) =
                decode_at-ends table (2 ^ lookup - 1) (2 ^ lookup - 1) (pre ++ ones lookup)
                  (k - lookup) (forwards w lookup)
                  (whole ∙ sym (append_assoc pre (ones lookup) (ones (k - lookup)))) (omega arith)
                  (omega (arith, length-append pre (ones lookup), length-ones lookup)) later in
              (
                w',
                decode_next-fetched src bytes small lookup (2 ^ lookup - 1) table w read ∙ answer,
              )
        ]

    decode_at-ends :
        (table : Values) (i value : ℕ) (pre : List ℕ) (k : ℕ) (w : BitWindow)
        → bits src ≡ pre ++ ones k
        → k < 8
        → position w ≡ length pre
        → ends_at table i k ≡ true
        → NoSymbol (decode_at table i value w src)
    decode_at-ends nil i value pre k w e h at_pre ending = absurd (cc ending)
    decode_at-ends (cons v table) zero value pre k w e h at_pre ending =
        decode_value-ends v pre k w e h at_pre ending
    decode_at-ends (cons v table) (suc i) value pre k w e h at_pre ending =
        decode_at-ends table i value pre k w e h at_pre ending

    decode_value-ends :
        (v : DecodeValue) (pre : List ℕ) (k : ℕ) (w : BitWindow)
        → bits src ≡ pre ++ ones k
        → k < 8
        → position w ≡ length pre
        → ends_value v k ≡ true
        → NoSymbol (decode_value v w src)
    decode_value-ends (partial d) pre k w e h at_pre ending =
        decode_next-ends d pre k w e h at_pre ending
    decode_value-ends (DecodeValue.sym x) pre k w e h at_pre ending = absurd (cc ending)
