-- ===== src/ErrorCode/Range.antt =====
-- Where the mapped codes lie.
use webtransport_rs.Base.{
  ℕ, ◌-◌, ◌/◌, leb, ◌&&◌, ◌^◌, ◌≤◌, ◌<◌, ◌≡◌, none, some, arith, false, Bool-cases, inl, inr, ◌⊎◌,
}
use webtransport_rs.ErrorCode.{error_first, error_last, error_from_http3, error_to_http3}
use webtransport_rs.StreamUni.{is_reserved}

-- The code of every u32 lies between the first and the last code, it is in the range of a VarInt,
-- and it is none of the values 0x1f * n + 0x21 that HTTP/3 reserves.
pub error_to_http3_range :
    (c : ℕ)
    → c < 2 ^ 32
    → (error_first ≤ error_to_http3 c)
      × (error_to_http3 c ≤ error_last)
      × (error_to_http3 c < 2 ^ 62)
      × (is_reserved (error_to_http3 c) ≡ false)
unfolding error_to_http3 is_reserved
error_to_http3_range c h = (omega arith, omega arith, omega arith, ground arith)

-- Larger codes have larger images.
error_to_http3-lt : (c d : ℕ) → c < d → error_to_http3 c < error_to_http3 d
unfolding error_to_http3
error_to_http3-lt c d h = omega arith

-- `error_from_http3` never panics. It answers `None` outside the range of the codes, and a u32 inside.
pub error_from_http3_cases :
    (h : ℕ)
    → ((error_from_http3 h ≡ some none) × ((h < error_first) ⊎ (error_last < h)))
      ⊎ ((c : ℕ) × (error_from_http3 h ≡ some (some c))
          × (c < 2 ^ 32)
          × (error_first ≤ h)
          × (h ≤ error_last))
unfolding error_from_http3
error_from_http3_cases h = elim (Bool-cases (leb error_first h && leb h error_last)) [
  | inl inside ↦
      inr ((h - error_first) / 0x1f, ground arith, ground arith, ground arith, ground arith)
  | inr outside ↦ inl (ground arith, ground arith)
]
