-- ===== src/Huffman/Reads.antt =====
-- `read_bits` against the bits of the content.
pub mod Words
use webtransport_rs.Base.{
  ℕ, zero, suc, ◌+◌, ◌-◌, ◌*◌, ◌/◌, ◌%◌, ◌^◌, ◌<◌, ◌≤◌, ◌≡◌, ◌∙◌, refl, sym, ap, Option, none, some,
  List, [], ◌∷◌, ◌++◌, append_assoc, length, length-append, length-take, take, drop,
  take-append-drop, get_elem?, All, All-append_left, All-append_right, All-drop, IsByte, arith, ok,
  bit_or, Outcome, if◌then◌else◌, leb, ltb, ◌==◌, ◌||◌, false, true, panic, Bool-cases, inl, inr,
}
use webtransport_rs.Base.Bits.{or_field}
use webtransport_rs.Huffman.Bits.{
  IsBit, value, bits_of_byte, bits, slice, value-bits_of_byte, value_append, value-lt, pow_within,
}
use webtransport_rs.Huffman.Window.{read_bits, at_index}
use Words.{length-bits, parts-IsBit, get_elem?-drop, at_byte, one_byte, two_bytes}

at_index-some {ℓ κ} :
    {X : Type ℓ} {B : Type κ} (src : List ℕ) (i b : ℕ) (k : ℕ → Outcome X B)
    → get_elem? src i ≡ some b
    → at_index src i k ≡ k b
at_index-some src i b k e = ap (λ (o : Option ℕ). elim o [ none ↦ panic | some b ↦ k b ]) e

pub length-parts :
    (a v post : List ℕ) → length (a ++ (v ++ post)) ≡ length a + (length v + length post)
length-parts a v post = length-append a (v ++ post) ∙ ap (λ n. length a + n) (length-append v post)

-- The two ways to read: from the byte at `i`, which `left` starts with, or from two bytes.
read_one :
    (src more a v post : List ℕ) (i b bit : ℕ)
    → get_elem? src i ≡ some b
    → IsByte b
    → bits (b ∷ more) ≡ a ++ (v ++ post)
    → length a ≡ bit
    → bit + length v ≤ 8
    → at_index {E = Unit {0}} src i (λ b. ok (b * 2 ^ bit % 2 ^ 8 / 2 ^ (8 - length v)))
      ≡ ok (value v)
read_one src more a v post i b bit there byte e ha short = rw (sym ha) (
    at_index-some src i b (λ b. ok (b * 2 ^ length a % 2 ^ 8 / 2 ^ (8 - length v))) there
    ∙ ap ok (one_byte b more a v post byte e (omega arith)))

read_two :
    (src more a v post : List ℕ) (i b c bit : ℕ)
    → get_elem? src i ≡ some b
    → get_elem? src (i + 1) ≡ some c
    → IsByte b
    → IsByte c
    → bits (b ∷ c ∷ more) ≡ a ++ (v ++ post)
    → length a ≡ bit
    → bit < 8
    → length v ≤ 8
    → at_index {E = Unit {0}} src i (λ high.
      at_index src
        (i + 1)
        (λ low. ok (bit_or (high * 2 ^ 8) low * 2 ^ bit % 2 ^ 16 / 2 ^ (16 - length v) % 2 ^ 8)))
      ≡ ok (value v)
read_two src more a v post i b c bit there next byte byte' e ha hb few =
    let here : All IsBit (a ++ (v ++ post)) = parts-IsBit (b ∷ c ∷ more) (a ++ (v ++ post)) e in
    let below =
      value-lt v (All-append_left IsBit v post (All-append_right IsBit a (v ++ post) here)) in
    let wide = pow_within (length v) 8 few in
    let read : bit_or (b * 2 ^ 8) c * 2 ^ length a % 2 ^ 16 / 2 ^ (16 - length v) % 2 ^ 8
        ≡ value v =
      rw (or_field 8 b c byte', two_bytes b c more a v post byte byte' e (omega arith) few)
        (omega arith) in
    rw (sym ha) (
      at_index-some src i b
        (λ high. at_index src (i + 1) (λ low.
          ok (bit_or (high * 2 ^ 8) low * 2 ^ length a % 2 ^ 16 / 2 ^ (16 - length v) % 2 ^ 8)))
        there
      ∙ at_index-some src (i + 1) c
          (λ low. ok (bit_or (b * 2 ^ 8) low * 2 ^ length a % 2 ^ 16 / 2 ^ (16 - length v) % 2 ^ 8))
          next
      ∙ ap ok read)

read_left :
    (src left a v post : List ℕ) (i bit : ℕ)
    → get_elem? left 0 ≡ get_elem? src (i + 0)
    → get_elem? left 1 ≡ get_elem? src (i + 1)
    → All IsByte left
    → bits left ≡ a ++ (v ++ post)
    → length a ≡ bit
    → bit < 8
    → 0 < length v
    → length v ≤ 8
    → (if leb (bit + length v) 8
        then at_index {E = Unit {0}} src
            (i + 0)
            (λ b. ok (b * 2 ^ bit % 2 ^ 8 / 2 ^ (8 - length v)))
        else at_index src (i + 0) λ high.
          at_index src
            (i + 0 + 1)
            λ low. ok (bit_or (high * 2 ^ 8) low * 2 ^ bit % 2 ^ 16 / 2 ^ (16 - length v) % 2 ^ 8))
      ≡ ok (value v)
read_left src [] a v post i bit there next bytes e ha hb some_bits few =
    absurd (omega (arith, ap length e, length-parts a v post))
read_left src (b ∷ []) a v post i bit there next bytes e ha hb some_bits few =
    let total = ap length e ∙ length-parts a v post in
    let short : leb (bit + length v) 8 ≡ true = ground arith in
    rw short (read_one src [] a v post (i + 0) b bit (sym there) bytes.0 e ha (omega arith))
read_left src (b ∷ c ∷ more) a v post i bit there next bytes e ha hb some_bits few =
    let one : i + 0 + 1 ≡ i + 1 = omega arith in
    elim (Bool-cases (leb (bit + length v) 8)) [
      | inl short ↦
          let le : bit + length v ≤ 8 = ground arith in
          rw short (read_one src (c ∷ more) a v post (i + 0) b bit (sym there) bytes.0 e ha le)
      | inr long ↦ rw long (
          read_two src more a v post (i + 0) b c bit (sym there) (rw one (sym next)) bytes.0
            bytes.1.0 e ha hb few)
    ]

fits :
    (n byte bit len : ℕ)
    → n < 2 ^ 28
    → 0 < len
    → len ≤ 8
    → byte * 8 + bit + len ≤ n * 8
    → (len == 0 || (ltb 8 len || ltb (n % 2 ^ 32 * 8 % 2 ^ 32) ((byte * 8 + bit + len) % 2 ^ 32)))
      ≡ false
fits n byte bit len small some_bits few enough = ground arith

-- Behind `byte * 8 + bit` bits of the content `read_bits` reads the next `len` bits, as a number.
pub read_bits-value :
    (src pre v post : List ℕ) (byte bit : ℕ)
    → All IsByte src
    → length src < 2 ^ 28
    → bits src ≡ pre ++ (v ++ post)
    → length pre ≡ byte * 8 + bit
    → bit < 8
    → 0 < length v
    → length v ≤ 8
    → read_bits src byte bit (length v) ≡ ok (value v)
unfolding read_bits
read_bits-value src pre v post byte bit bytes small e h hb some_bits few =
    let (a, left, ha) = at_byte src pre (v ++ post) byte bit e h in
    let total : length (bits src) ≡ length pre + (length v + length post) =
      ap length e
      ∙ length-append pre (v ++ post)
      ∙ ap (λ n. length pre + n) (length-append v post) in
    let enough : byte * 8 + bit + length v ≤ length src * 8 = omega (arith, length-bits src) in
    let there = get_elem?-drop src byte 0 in
    let next = get_elem?-drop src byte 1 in
    let same : bit - bit / 8 * 8 ≡ bit = omega arith in
    let first : byte + bit / 8 ≡ byte + 0 = omega arith in
    let fine = fits (length src) byte bit (length v) small some_bits few enough in
    rw (fine, same, first)
      (read_left src (drop byte src) a v post byte bit there next (All-drop IsByte byte src bytes)
        left ha hb some_bits few)
