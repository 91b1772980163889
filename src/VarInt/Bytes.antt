-- ===== src/VarInt/Bytes.antt =====
-- `u16::from_be_bytes` and its kin, and the `put_u8`, `put_u16`, … of a buffer: big-endian words.
use webtransport_rs.Base.{
  ℕ, zero, suc, ◌+◌, ◌*◌, ◌/◌, ◌%◌, ◌<◌, ◌≡◌, refl, ◌∙◌, List, [], ◌∷◌, ◌++◌, arith, length,
  length-append, All, All-append,
}
use mathlib.Core.List.{foldl}

unfoldable pub from_be_bytes : List ℕ → ℕ
from_be_bytes bs = foldl (λ acc b. acc * 256 + b) 0 bs

-- The `n` bytes of a word, highest first.
unfoldable pub to_be_bytes : ℕ → ℕ → List ℕ
to_be_bytes zero x = []
to_be_bytes (suc n) x = to_be_bytes n (x / 256) ++ (x % 256) ∷ []

pub length-to_be_bytes : (n x : ℕ) → length (to_be_bytes n x) ≡ n
unfolding to_be_bytes
length-to_be_bytes zero x = refl
length-to_be_bytes (suc n) x =
    length-append (to_be_bytes n (x / 256)) ((x % 256) ∷ [])
    ∙ omega (arith, length-to_be_bytes n (x / 256))

pub to_be_bytes-IsByte : (n x : ℕ) → All (λ b. b < 256) (to_be_bytes n x)
unfolding to_be_bytes
to_be_bytes-IsByte zero x = tt
to_be_bytes-IsByte (suc n) x =
    All-append (λ b. b < 256) (to_be_bytes n (x / 256)) ((x % 256) ∷ [])
      (to_be_bytes-IsByte n (x / 256)) (omega arith)
