-- ===== src/Huffman/Bits.antt =====
-- Bytes as bits, the highest first, and the number that some bits are.
use webtransport_rs.Base.{
  ℕ, zero, suc, ◌+◌, ◌-◌, ◌*◌, ◌/◌, ◌%◌, ◌^◌, ◌<◌, ◌≤◌, ◌≡◌, ◌∙◌, ap, List, [], ◌∷◌, ◌++◌, length,
  length-append, All, IsByte, arith,
}
use webtransport_rs.Base.Bits.{pow-pos_two, field_mod, field_div}
use native.Mathlib.Nat.{pow-suc}

abbrev pub IsBit : ℕ → Type 0
IsBit x = x < 2

abbrev pub value : List ℕ → ℕ
value [] = 0
value (x ∷ xs) = x * 2 ^ length xs + value xs

abbrev pub bits_of_byte : ℕ → List ℕ
bits_of_byte b =
    b / 128 % 2
    ∷ b / 64 % 2
    ∷ b / 32 % 2
    ∷ b / 16 % 2
    ∷ b / 8 % 2
    ∷ b / 4 % 2
    ∷ b / 2 % 2
    ∷ b % 2
    ∷ []

abbrev pub bits : List ℕ → List ℕ
bits [] = []
bits (b ∷ bs) = bits_of_byte b ++ bits bs

pow_sum : (a b : ℕ) → 2 ^ (a + b) ≡ 2 ^ a * 2 ^ b
pow_sum zero b = let e : 0 + b ≡ b = omega arith in rw e (omega arith)
pow_sum (suc a) b =
    let e : suc a + b ≡ suc (a + b) = omega arith in
    rw (e, pow-suc 2 (a + b), pow-suc 2 a, pow_sum a b) (omega arith)

pub pow_within : (n m : ℕ) → n ≤ m → 2 ^ n ≤ 2 ^ m
pow_within n m h =
    let e : m ≡ n + (m - n) = omega arith in
    let split : 2 ^ m ≡ 2 ^ n * 2 ^ (m - n) = ap (λ (t : ℕ). 2 ^ t) e ∙ pow_sum n (m - n) in
    grind (arith, pow-pos_two (m - n))

pub value_append : (xs ys : List ℕ) → value (xs ++ ys) ≡ value xs * 2 ^ length ys + value ys
value_append [] ys = omega arith
value_append (x ∷ xs) ys =
    rw (length-append xs ys, value_append xs ys, pow_sum (length xs) (length ys)) (grind arith)

pub value-lt : (xs : List ℕ) → All IsBit xs → value xs < 2 ^ length xs
value-lt [] h = omega arith
value-lt (x ∷ xs) h =
    let below = value-lt xs h.1 in
    let bit = h.0 in rw (pow-suc 2 (length xs)) (grind (arith, pow-pos_two (length xs)))

pub value-bits_of_byte : (b : ℕ) → IsByte b → value (bits_of_byte b) ≡ b
value-bits_of_byte b h = omega arith

shift :
    (A V R a v r : ℕ)
    → (A * 2 ^ (v + r) + (V * 2 ^ r + R)) * 2 ^ a
      ≡ A * 2 ^ (a + v + r) + (V * 2 ^ (a + r) + R * 2 ^ a)
shift A V R a v r = rw (pow_sum v r, pow_sum (a + v) r, pow_sum a v, pow_sum a r) (grind arith)

shift_lt : (R a r : ℕ) → R < 2 ^ r → R * 2 ^ a < 2 ^ (a + r)
shift_lt R a r h = rw (pow_sum a r) (grind (arith, pow-pos_two a))

field_lt : (V S a v r : ℕ) → V < 2 ^ v → S < 2 ^ (a + r) → V * 2 ^ (a + r) + S < 2 ^ (a + v + r)
field_lt V S a v r h low =
    let e : a + v + r ≡ v + (a + r) = omega arith in rw (e, pow_sum v (a + r)) (grind arith)

-- Between `a` bits in front and `r` behind, `v` is what the shifts of a word leave.
pub slice :
    (a v r : List ℕ)
    → All IsBit v
    → All IsBit r
    → value (a ++ (v ++ r))
        * 2 ^ length a
        % 2 ^ (length a + length v + length r)
        / 2 ^ (length a + length r)
      ≡ value v
slice a v r hv hr =
    let pa = length a in
    let pv = length v in
    let pr = length r in
    let field = value v * 2 ^ (pa + pr) + value r * 2 ^ pa in
    let shifted : value (a ++ (v ++ r)) * 2 ^ pa ≡ value a * 2 ^ (pa + pv + pr) + field =
      rw (value_append a (v ++ r), value_append v r, length-append v r)
        (shift (value a) (value v) (value r) pa pv pr) in
    let low = shift_lt (value r) pa pr (value-lt r hr) in
    let fits = field_lt (value v) (value r * 2 ^ pa) pa pv pr (value-lt v hv) low in
    rw (shifted, field_mod (pa + pv + pr) (value a) field fits)
      (field_div (pa + pr) (value v) (value r * 2 ^ pa) low)
