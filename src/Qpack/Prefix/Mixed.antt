-- ===== src/Qpack/Prefix/Mixed.antt =====
-- The bytes on which the sum of `decode_prefix` cannot pass 2 ^ 64.
use webtransport_rs.Base.{
  ℕ, zero, suc, ◌<◌, ◌⊎◌, inl, inr, List, [], ◌∷◌, ◌++◌, take, drop, All, IsByte,
}

-- One of the first `n` bytes is not 255, if there are as many.
unfoldable pub Breaks : ℕ → List ℕ → Type 0
Breaks zero bs = ⊥
Breaks (suc n) [] = Unit {0}
Breaks (suc n) (b ∷ bs) = (b < 255) ⊎ Breaks n bs

-- Bytes of which no seven in a row are 255.
unfoldable pub Mixed : List ℕ → Type 0
Mixed [] = Unit {0}
Mixed (b ∷ bs) = IsByte b × Breaks 7 (b ∷ bs) × Mixed bs

Breaks-take : (n k : ℕ) (bs : List ℕ) → Breaks n bs → Breaks n (take k bs)
unfolding Breaks
Breaks-take zero k bs h = h
Breaks-take (suc n) zero [] h = tt
Breaks-take (suc n) (suc k) [] h = tt
Breaks-take (suc n) zero (b ∷ bs) h = tt
Breaks-take (suc n) (suc k) (b ∷ bs) (inl less) = inl less
Breaks-take (suc n) (suc k) (b ∷ bs) (inr later) = inr (Breaks-take n k bs later)

pub Mixed-take : (k : ℕ) (bs : List ℕ) → Mixed bs → Mixed (take k bs)
unfolding Mixed
Mixed-take zero [] h = tt
Mixed-take (suc k) [] h = tt
Mixed-take zero (b ∷ bs) h = tt
Mixed-take (suc k) (b ∷ bs) h = (h.0, Breaks-take 7 (suc k) (b ∷ bs) h.1, Mixed-take k bs h.2)

pub Mixed-drop : (k : ℕ) (bs : List ℕ) → Mixed bs → Mixed (drop k bs)
unfolding Mixed
Mixed-drop zero bs h = h
Mixed-drop (suc k) [] h = tt
Mixed-drop (suc k) (b ∷ bs) h = Mixed-drop k bs h.2

pub Mixed-append_right : (xs ys : List ℕ) → Mixed (xs ++ ys) → Mixed ys
unfolding Mixed
Mixed-append_right [] ys h = h
Mixed-append_right (x ∷ xs) ys h = Mixed-append_right xs ys h.2

pub Mixed-IsByte : (bs : List ℕ) → Mixed bs → All IsByte bs
unfolding Mixed
Mixed-IsByte [] h = tt
Mixed-IsByte (b ∷ bs) h = (h.0, Mixed-IsByte bs h.2)

-- What a head leaves.
pub Mixed-tail : (b : ℕ) (bs : List ℕ) → Mixed (b ∷ bs) → IsByte b × Mixed bs
unfolding Mixed
Mixed-tail b bs h = (h.0, h.2)

pub Mixed-Breaks : (bs : List ℕ) → Mixed bs → Breaks 7 bs
unfolding Mixed Breaks
Mixed-Breaks [] h = tt
Mixed-Breaks (b ∷ bs) h = h.1
