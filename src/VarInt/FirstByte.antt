-- ===== src/VarInt/FirstByte.antt =====
-- What the first byte of a number tells a reader: how many bytes it has to wait for.
use webtransport_rs.Base.{
  ℕ, zero, suc, ◌-◌, ◌/◌, ◌^◌, ◌≤◌, ◌<◌, ◌≡◌, ◌⊎◌, inl, inr, refl, ap, List, [], ◌∷◌, length, take,
  drop, ltb, ok, err, bit_and, arith, length-take, Bool-cases,
}
use webtransport_rs.VarInt.{VarInt, decode, decode_word, unexpected_end}
use webtransport_rs.VarInt.Bytes.{from_be_bytes}

take-take : (n : ℕ) (xs : List ℕ) → take n (take n xs) ≡ take n xs
take-take zero xs = refl
take-take (suc n) [] = refl
take-take (suc n) (x ∷ xs) = ap (◌∷◌ x) (take-take n xs)

drop-take : (n : ℕ) (xs : List ℕ) → drop n (take n xs) ≡ []
drop-take zero xs = refl
drop-take (suc n) [] = refl
drop-take (suc n) (x ∷ xs) = drop-take n xs

-- What a first byte and the bytes behind it come to, when it announces `n` of them.
abbrev pub Announces : ℕ → ℕ → List ℕ → Type 0
Announces n b rest =
    ((length rest < n) × (decode (b ∷ rest) ≡ err unexpected_end))
    ⊎ ((n ≤ length rest)
        × (v : VarInt) × (decode (b ∷ rest) ≡ ok (v, drop n rest))
        × (decode (b ∷ take n rest) ≡ ok (v, [])))

word_cases :
    (first : ℕ) (rest : List ℕ) (n : ℕ)
    → ((length rest < n) × (decode_word first rest n ≡ err unexpected_end))
      ⊎ ((n ≤ length rest)
          × (v : VarInt) × (decode_word first rest n ≡ ok (v, drop n rest))
          × (decode_word first (take n rest) n ≡ ok (v, [])))
unfolding decode_word
word_cases first rest n = elim (Bool-cases (ltb (length rest) n)) [
  | inl short ↦ inl (ground arith, ground arith)
  | inr enough ↦ inr (
    ground arith,
    from_be_bytes (first ∷ take n rest),
    ground arith,
    ground (arith, length-take n rest, take-take n rest, drop-take n rest),
  )
]

tag_cases : (b : ℕ) → b < 256 → (b / 64 ≡ 0) ⊎ ((b / 64 ≡ 1) ⊎ ((b / 64 ≡ 2) ⊎ (b / 64 ≡ 3)))
tag_cases b h = ground arith

-- The two top bits of the first byte give the length of the number, and no other byte counts.
pub decode-Announces : (b : ℕ) (rest : List ℕ) → b < 256 → Announces (2 ^ (b / 2 ^ 6) - 1) b rest
unfolding decode
decode-Announces b rest h = elim (tag_cases b h) [
  | inl e ↦ rw e (inr (omega arith, bit_and b 63, refl, refl))
  | inr (inl e) ↦ rw e (word_cases (bit_and b 63) rest 1)
  | inr (inr (inl e)) ↦ rw e (word_cases (bit_and b 63) rest 3)
  | inr (inr (inr e)) ↦ rw e (word_cases (bit_and b 63) rest 7)
]
