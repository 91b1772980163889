-- ===== src/VarInt/Conversions.antt =====
-- The conversions of varint.rs between a VarInt and the integers of Rust. One that widens keeps the
-- number; a usize has 64 bits.
use webtransport_rs.Base.{ℕ, ◌≤◌, ◌^◌, ◌≡◌, refl, ◌⊎◌, inl, inr, ok, err, Outcome}
use webtransport_rs.VarInt.{
  VarInt, VarIntBoundsExceeded, bounds_exceeded, IsVarInt, from_u64, try_from_u128,
}
use webtransport_rs.VarInt.RoundTrip.{try_from_cases}

-- The caller owes a number below 2 ^ 62.
abbrev pub from_u64_unchecked : ℕ → VarInt
from_u64_unchecked x = x

abbrev pub into_inner : VarInt → ℕ
into_inner x = x

abbrev pub u64_from : VarInt → ℕ
u64_from x = x

abbrev pub from_u8 : ℕ → VarInt
from_u8 x = x

abbrev pub from_u16 : ℕ → VarInt
from_u16 x = x

unfoldable pub try_from_u64 : ℕ → Outcome VarIntBoundsExceeded VarInt
try_from_u64 x = from_u64 x

unfoldable pub try_from_usize : ℕ → Outcome VarIntBoundsExceeded VarInt
try_from_usize x = try_from_u64 x

-- The checked conversions agree, succeed on exactly the VarInts, and keep the number, whether it is
-- read back by `into_inner` or by `From<VarInt> for u64`; the unchecked conversion agrees with them
-- where they succeed.
conversions_agree :
    (x : ℕ)
    → (try_from_u128 x ≡ try_from_u64 x)
      × (try_from_usize x ≡ try_from_u64 x)
      × ((IsVarInt x
            × (try_from_u64 x ≡ ok (from_u64_unchecked x))
            × (into_inner (from_u64_unchecked x) ≡ x)
            × (u64_from (from_u64_unchecked x) ≡ x))
          ⊎ ((2 ^ 62 ≤ x) × (try_from_u64 x ≡ err bounds_exceeded)))
unfolding try_from_u64 try_from_usize
conversions_agree x =
    let (wide, cases) = try_from_cases x in
    (
      wide,
      refl,
      elim cases [ inl (small, e) ↦ inl (small, e, refl, refl) | inr (large, e) ↦ inr (large, e) ],
    )
