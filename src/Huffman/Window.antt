-- ===== src/Huffman/Window.antt =====
-- The window of bits that the decoder looks at, and the reader of bits.
use webtransport_rs.Base.{
  ℕ, ◌+◌, ◌-◌, ◌*◌, ◌/◌, ◌%◌, ◌^◌, ◌||◌, none, some, List, get_elem?, length, ltb, leb, ◌==◌,
  if◌then◌else◌, bit_or, Outcome, ok, err, panic,
}

-- Three u32.
pub record BitWindow : Type 0 where
  pub byte : ℕ
  pub bit : ℕ
  pub count : ℕ

abbrev pub new : BitWindow
new = record { byte = 0; bit = 0; count = 0 }

unfoldable pub forwards : BitWindow → ℕ → BitWindow
forwards w step =
    let bit = (w.bit + w.count) % 2 ^ 32 in
    record { byte = (w.byte + bit / 8) % 2 ^ 32; bit = bit % 8; count = step }

unfoldable pub opposite_bit_window : BitWindow → BitWindow
opposite_bit_window w = record { byte = w.byte; bit = w.bit; count = 8 - w.bit % 8 }

-- The type `Error` of the module.
pub data Error : Type 0 where
  missing_bits : BitWindow → Error
  unhandled : BitWindow → ℕ → Error

-- An index into the slice, which panics out of bounds.
abbrev pub at_index {ℓ κ} : {E : Type ℓ} {B : Type κ} → List ℕ → ℕ → (ℕ → Outcome E B) → Outcome E B
at_index src i k = elim (get_elem? src i) [ none ↦ panic | some b ↦ k b ]

-- The bits of one byte, or of two: `bit` is below 8.
read_within : List ℕ → ℕ → ℕ → ℕ → Outcome (Unit {0}) ℕ
read_within src byte bit len =
    if leb (bit + len) 8
    then at_index src byte (λ b. ok (b * 2 ^ bit % 2 ^ 8 / 2 ^ (8 - len)))
    else at_index src byte λ high.
      at_index src (byte + 1)
        λ low. ok (bit_or (high * 2 ^ 8) low * 2 ^ bit % 2 ^ 16 / 2 ^ (16 - len) % 2 ^ 8)

unfoldable pub read_bits : List ℕ → ℕ → ℕ → ℕ → Outcome (Unit {0}) ℕ
unfolding read_within
read_bits src byte_offset bit_offset len =
    if len == 0
      || (ltb 8 len
          || ltb (length src % 2 ^ 32 * 8 % 2 ^ 32) ((byte_offset * 8 + bit_offset + len) % 2 ^ 32))
    then err tt
    else read_within src (byte_offset + bit_offset / 8) (bit_offset - bit_offset / 8 * 8) len
