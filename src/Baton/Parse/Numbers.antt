-- ===== src/Baton/Parse/Numbers.antt =====
-- What the parser makes of numbers.
use webtransport_rs.Base.{
  ℕ, suc, ◌+◌, ◌-◌, ◌*◌, ◌^◌, ◌≤◌, ◌<◌, ◌≡◌, ◌≢◌, refl, true, some, [], ◌∷◌, length, All, arith,
}
use native.Mathlib.Nat.{pow-suc, one-le-pow}
use webtransport_rs.HashMap.{bytes_eq}
use webtransport_rs.Qpack.Text.{Bytes}
use webtransport_rs.Baton.Parse.{is_digit, parse_digits, parse_number, parse_some}

-- The number that digits stand for.
abbrev pub value : Bytes → ℕ
value [] = 0
value (c ∷ cs) = (c - b'0') * 10 ^ length cs + value cs

abbrev pub IsDigit : ℕ → Type 0
IsDigit c = is_digit c ≡ true

digit_first : (n d k : ℕ) → (n * 10 + d) * 10 ^ k ≡ n * 10 ^ suc k + d * 10 ^ k
digit_first n d k = rw (pow-suc 10 k) (grind arith)

le-mul-pow : (n k : ℕ) → n ≤ n * 10 ^ k
le-mul-pow n k = grind (arith, one-le-pow k 10 (omega arith))

parse_digits-value :
    (limit n : ℕ) (cs : Bytes)
    → All IsDigit cs
    → n * 10 ^ length cs + value cs < limit
    → parse_digits limit n cs ≡ some (n * 10 ^ length cs + value cs)
unfolding parse_digits
parse_digits-value limit n [] h lt = ground arith
parse_digits-value limit n (c ∷ cs) h lt =
    let n' = n * 10 + (c - b'0') in
    let same = digit_first n (c - b'0') (length cs) in
    let small = le-mul-pow n' (length cs) in
    let rest = parse_digits-value limit n' cs h.1 (omega arith) in ground (arith, h.0)

-- Digits, one at least, are read as the number that they stand for, if the type has it.
pub parse_number-value :
    (limit : ℕ) (cs : Bytes)
    → cs ≢ []
    → All IsDigit cs
    → value cs < limit
    → parse_number limit cs ≡ some (value cs)
unfolding parse_number
parse_number-value limit [] nonempty h lt = absurd (nonempty refl)
parse_number-value limit (c ∷ cs) nonempty h lt =
    let digits = parse_digits-value limit 0 (c ∷ cs) h (omega arith) in ground (arith, h.0, digits)

parse_digits-lt :
    (limit n : ℕ) (cs : Bytes) (m : ℕ) → n < limit → parse_digits limit n cs ≡ some m → m < limit
unfolding parse_digits
parse_digits-lt limit n [] m h e = ground (arith, e)
parse_digits-lt limit n (c ∷ cs) m h e =
    ground (arith, e, parse_digits-lt limit (n * 10 + (c - b'0')) cs m)

parse_some-lt :
    (limit : ℕ) (cs : Bytes) (m : ℕ) → 0 < limit → parse_some limit cs ≡ some m → m < limit
unfolding parse_some
parse_some-lt limit [] m h e = ground (arith, e)
parse_some-lt limit (c ∷ cs) m h e = parse_digits-lt limit 0 (c ∷ cs) m h e

pub parse_number-lt :
    (limit : ℕ) (cs : Bytes) (m : ℕ) → 0 < limit → parse_number limit cs ≡ some m → m < limit
unfolding parse_number
parse_number-lt limit [] m h e = ground (arith, e)
parse_number-lt limit (c ∷ cs) m h e =
    ground (arith, parse_some-lt limit cs m h, parse_some-lt limit (c ∷ cs) m h)
