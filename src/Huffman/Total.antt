-- ===== src/Huffman/Total.antt =====
-- The decoder does not panic, and its loop ends.
use webtransport_rs.Base.{
  ℕ, zero, suc, ◌+◌, ◌-◌, ◌*◌, ◌%◌, ◌^◌, ◌<◌, ◌≤◌, ◌≡◌, ◌∙◌, refl, sym, ap, Option, none, some,
  List, [], ◌∷◌, ◌++◌, length, length-take, length-drop, take, drop, take-append-drop, All, IsByte,
  arith, ok, err, panic, ◌>>=◌, ◌≢◌, Outcome, Outcome-cases, ltb, ◌==◌, ◌||◌, true, Bool-cases, inl,
  inr,
}
use webtransport_rs.Base.Yields.{
  Yields, Yields-elim, Yields-option, Yields-weaken, Yields-bind, Yields-ne-panic,
}
use webtransport_rs.Huffman.Reads.Words.{length-bits}
use webtransport_rs.Huffman.Bits.{value, bits}
use webtransport_rs.Huffman.Reads.{read_bits-value}
use webtransport_rs.Huffman.Window.{BitWindow, new, forwards, opposite_bit_window, read_bits, Error}
use webtransport_rs.Huffman.Table.Types.{
  HuffmanDecoder, decoder, DecodeValue, partial, Values, nil, cons,
}
use webtransport_rs.Huffman.Table.Short.{hpack_string}
use webtransport_rs.Huffman.Tree.{
  fetch_value, check_eof, decode_next, decode_at, decode_value, hpack_decode,
}
use webtransport_rs.Huffman.Walk.{position, forwards_lem}

module _ (src : List ℕ) (bytes : All IsByte src) (small : length src < 2 ^ 28) where
  -- Of bits that lie within the content, `read_bits` is their number.
  read_bits-within :
      (byte bit len : ℕ)
      → bit < 8
      → 0 < len
      → len ≤ 8
      → byte * 8 + bit + len ≤ length src * 8
      → (v : ℕ) × (read_bits src byte bit len ≡ ok v)
  read_bits-within byte bit len hb some_bits few within =
      let start = byte * 8 + bit in
      let pre = take start (bits src) in
      let rest = drop start (bits src) in
      let v = take len rest in
      let size_pre : length pre ≡ start =
        length-take start (bits src) (omega (arith, length-bits src)) in
      let size_v : length v ≡ len =
        length-take len rest (omega (arith, length-drop start (bits src), length-bits src)) in
      let whole : bits src ≡ pre ++ (v ++ drop len rest) =
        sym
          (ap (λ xs. pre ++ xs) (take-append-drop len rest) ∙ take-append-drop start (bits src)) in
      (
        value v,
        rw size_v at (
            read_bits-value src pre v (drop len rest) byte bit bytes small whole size_pre hb
              (omega arith) (omega arith)),
      )

  read_bits-outside :
      (byte bit len : ℕ)
      → (len == 0
          || (ltb 8 len
              || ltb (length src % 2 ^ 32 * 8 % 2 ^ 32) ((byte * 8 + bit + len) % 2 ^ 32)))
        ≡ true
      → read_bits src byte bit len ≡ err tt
  unfolding read_bits
  read_bits-outside byte bit len out = rw out refl

  -- `read_bits` reads just bits that lie within the content.
  read_bits-Yields :
      (byte bit len : ℕ)
      → bit < 8
      → byte * 8 + bit + 8 < 2 ^ 32
      → Yields
          (λ v. (0 < len) × (byte * 8 + bit + len ≤ length src * 8))
          (read_bits src byte bit len)
  read_bits-Yields byte bit len hb no_wrap =
      elim (Bool-cases (
        len == 0
        || (ltb 8 len
            || ltb (length src % 2 ^ 32 * 8 % 2 ^ 32) ((byte * 8 + bit + len) % 2 ^ 32)))) [
              | inl out ↦ rw (read_bits-outside byte bit len out) tt
              | inr fine ↦
                  let some_bits : 0 < len = ground (arith, fine) in
                  let few : len ≤ 8 = ground (arith, fine) in
                  let within : byte * 8 + bit + len ≤ length src * 8 = ground (arith, fine) in
                  let (v, read) = read_bits-within byte bit len hb some_bits few within in
                  rw read (some_bits, within)
            ]

  abbrev Fetched : BitWindow → Option ℕ → Type 0
  Fetched w none = Unit {0}
  Fetched w (some v) = (0 < w.count) × (position w ≤ length src * 8)

  check_eof-Yields :
      (w : BitWindow)
      → w.bit < 8
      → w.byte * 8 + w.bit + 8 < 2 ^ 32
      → Yields (Fetched w) (check_eof w src)
  unfolding check_eof opposite_bit_window
  check_eof-Yields w hb no_wrap =
      let rest = 8 - w.bit % 8 in
      let read = read_bits-Yields w.byte w.bit rest hb no_wrap in
      ground (arith, read, Outcome-cases (read_bits src w.byte w.bit rest))

  fetch_value-Yields :
      (w : BitWindow)
      → w.bit < 8
      → w.byte * 8 + w.bit + 8 < 2 ^ 32
      → Yields (Fetched w) (fetch_value w src)
  unfolding fetch_value
  fetch_value-Yields w hb no_wrap =
      Yields-elim (λ v. (0 < w.count) × (position w ≤ length src * 8)) (Fetched w)
        (read_bits src w.byte w.bit w.count) (λ v. ok (some v)) (λ _. check_eof w src)
        (read_bits-Yields w.byte w.bit w.count hb no_wrap) (λ v within. within)
        (λ _. check_eof-Yields w hb no_wrap)

  -- A symbol, with the window `n` bits further at least, and within the content.
  abbrev Advanced : ℕ → Option ℕ × BitWindow → Type 0
  Advanced start (none, w') = Unit {0}
  Advanced start (some x, w') = (start ≤ position w') × (position w' ≤ length src * 8)

  Advanced-le :
      (start start' : ℕ) (r : Option ℕ × BitWindow)
      → start ≤ start'
      → Advanced start' r
      → Advanced start r
  Advanced-le start start' (none, w') le h = tt
  Advanced-le start start' (some x, w') le h = (omega arith, h.1)

  abbrev lookup_of : HuffmanDecoder → ℕ
  lookup_of (decoder lookup table) = lookup

  mutual
    unfolding decode_next decode_at decode_value

    pub decode_next-Yields :
        (d : HuffmanDecoder) (w : BitWindow)
        → position w ≤ length src * 8
        → Yields (Advanced (position w + lookup_of d)) (decode_next d w src)
    decode_next-Yields (decoder lookup table) w h =
        let (there, within, count) = forwards_lem w lookup (omega arith) in
        Yields-elim (Fetched (forwards w lookup)) (Advanced (position w + lookup))
          (fetch_value (forwards w lookup) src)
          (λ o. elim o [
            | none ↦ ok (none, forwards w lookup)
            | some value ↦ decode_at table value value (forwards w lookup) src
          ])
          (λ e. err e) (fetch_value-Yields (forwards w lookup) within (omega arith))
          (λ o fetched.
            Yields-option (Advanced (position w + lookup)) o (ok (none, forwards w lookup))
              (λ value. decode_at table value value (forwards w lookup) src) tt
              λ value e.
                let (some_bits, reached) = rw e at fetched in
                Yields-weaken (Advanced (position (forwards w lookup)))
                  (Advanced (position w + lookup))
                  (decode_at table value value (forwards w lookup) src)
                  (decode_at-Yields table value value (forwards w lookup) reached)
                  (λ r.
                    Advanced-le (position w + lookup) (position (forwards w lookup)) r
                      (omega arith)))
          (λ e. tt)

    decode_at-Yields :
        (table : Values) (i value : ℕ) (w : BitWindow)
        → position w ≤ length src * 8
        → Yields (Advanced (position w)) (decode_at table i value w src)
    decode_at-Yields nil i value w h = tt
    decode_at-Yields (cons v table) zero value w h = decode_value-Yields v w h
    decode_at-Yields (cons v table) (suc i) value w h = decode_at-Yields table i value w h

    decode_value-Yields :
        (v : DecodeValue) (w : BitWindow)
        → position w ≤ length src * 8
        → Yields (Advanced (position w)) (decode_value v w src)
    decode_value-Yields (partial d) w h =
        Yields-weaken (Advanced (position w + lookup_of d)) (Advanced (position w))
          (decode_next d w src) (decode_next-Yields d w h)
          (λ r. Advanced-le (position w) (position w + lookup_of d) r (omega arith))
    decode_value-Yields (DecodeValue.sym x) w h = (omega arith, h)

  -- What the loop makes of an answer.
  abbrev after : ℕ → Outcome Error (Option ℕ × BitWindow) → Outcome Error (List ℕ)
  after fuel (ok (none, w')) = ok []
  after fuel (ok (some x, w')) = hpack_decode fuel w' src >>= λ more. ok (x ∷ more)
  after fuel (err e) = err e
  after fuel panic = panic

  hpack_decode_step :
      (fuel : ℕ) (w : BitWindow) (r : Outcome Error (Option ℕ × BitWindow))
      → decode_next hpack_string w src ≡ r
      → hpack_decode (suc fuel) w src ≡ after fuel r
  unfolding hpack_decode
  hpack_decode_step fuel w (ok (none, w')) e = ground (arith, e)
  hpack_decode_step fuel w (ok (some x, w')) e = ground (arith, e)
  hpack_decode_step fuel w (err x) e = ground (arith, e)
  hpack_decode_step fuel w panic e = ground (arith, e)

  hpack_decode-Yields :
      (fuel : ℕ) (w : BitWindow)
      → position w ≤ length src * 8
      → length src * 8 < position w + 5 * fuel
      → Yields (λ text. Unit {0}) (hpack_decode fuel w src)
  hpack_decode-Yields zero w h enough = absurd (omega arith)
  hpack_decode-Yields (suc fuel) w h enough =
      let next = decode_next-Yields hpack_string w h in
      elim (Outcome-cases (decode_next hpack_string w src)) [
        | inl ((none, w'), e) ↦ rw (hpack_decode_step fuel w (ok (none, w')) e) tt
        | inl ((some x, w'), e) ↦
            let (further, within) = rw e at next in
            rw (hpack_decode_step fuel w (ok (some x, w')) e) (
              Yields-bind (λ more. Unit {0}) (λ text. Unit {0}) (hpack_decode fuel w' src)
                (λ more. ok (x ∷ more)) (hpack_decode-Yields fuel w' within (omega arith))
                (λ more h. tt))
        | inr (inl (x, e)) ↦ rw (hpack_decode_step fuel w (err x) e) tt
        | inr (inr e) ↦ absurd (rw e at next)
      ]

-- On any content of fewer than 2 ^ 28 bytes the decoder does not panic: it reads no byte past the end,
-- and the fuel that decode_string gives is enough.
pub hpack_decode-ne-panic :
    (src : List ℕ)
    → All IsByte src
    → length src < 2 ^ 28
    → hpack_decode (2 * length src + 1) new src ≢ panic
hpack_decode-ne-panic src bytes small =
    Yields-ne-panic (λ text. Unit {0}) (hpack_decode (2 * length src + 1) new src)
      (hpack_decode-Yields src bytes small (2 * length src + 1) new (omega arith) (omega arith))
