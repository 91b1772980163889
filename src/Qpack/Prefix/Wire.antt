-- ===== src/Qpack/Prefix/Wire.antt =====
-- A prefixed integer on the wire, in plain arithmetic.
use webtransport_rs.Base.{
  ℕ, zero, suc, ◌+◌, ◌-◌, ◌*◌, ◌/◌, ◌%◌, ◌^◌, ◌≤◌, ◌<◌, ◌≡◌, refl, some, List, [], ◌∷◌, ltb,
  if◌then◌else◌, arith,
}
use webtransport_rs.Base.Bits.{or_field, field_or, pow-pos_two}
use webtransport_rs.Qpack.Prefix.{encode_prefix, encode_loop}
use native.Mathlib.Nat.{mul-le-mul_right, pow-suc}

-- The groups of seven bits, lowest first, for a number below 128 ^ (k + 1).
unfoldable pub groups : ℕ → ℕ → List ℕ
groups zero w = w ∷ []
groups (suc k) w =
    let rest = groups k (w / 128) in if ltb w 128 then w ∷ [] else (w % 128 + 128) ∷ rest

unfoldable pub prefix_wire : ℕ → ℕ → ℕ → List ℕ
prefix_wire size flags value =
    if ltb value (2 ^ size - 1)
    then (flags * 2 ^ size + value) ∷ []
    else (flags * 2 ^ size + (2 ^ size - 1)) ∷ groups 10 (value - (2 ^ size - 1))

encode_loop-groups : (k w : ℕ) → w < 128 ^ suc k → encode_loop k w ≡ some (groups k w)
unfolding encode_loop groups
encode_loop-groups zero w h = ground arith
encode_loop-groups (suc k) w h = ground (arith, encode_loop-groups k (w / 128), pow-suc 128 (suc k))

-- The two ways in which the code writes the mask 2 ^ size - 1.
pub record Masks (size : ℕ) : Type 0 where
  pub to_put : 0xFF - 0xFF * 2 ^ size % 2 ^ 8 ≡ 2 ^ size - 1
  pub to_get : 0xFF / 2 ^ (8 - size) ≡ 2 ^ size - 1
  pub whole : 2 ^ (8 - size) * 2 ^ size ≡ 256

pub size-Masks : (size : ℕ) → 0 < size → size ≤ 8 → Masks size
size-Masks zero h k = absurd (omega arith)
size-Masks (suc zero) h k = record { to_put = refl; to_get = refl; whole = refl }
size-Masks (suc (suc zero)) h k = record { to_put = refl; to_get = refl; whole = refl }
size-Masks (suc (suc (suc zero))) h k = record { to_put = refl; to_get = refl; whole = refl }
size-Masks (suc (suc (suc (suc zero)))) h k = record { to_put = refl; to_get = refl; whole = refl }
size-Masks (suc (suc (suc (suc (suc zero))))) h k = record {
  to_put = refl;
  to_get = refl;
  whole = refl;
}
size-Masks (suc (suc (suc (suc (suc (suc zero)))))) h k = record {
  to_put = refl;
  to_get = refl;
  whole = refl;
}
size-Masks (suc (suc (suc (suc (suc (suc (suc zero))))))) h k = record {
  to_put = refl;
  to_get = refl;
  whole = refl;
}
size-Masks (suc (suc (suc (suc (suc (suc (suc (suc zero)))))))) h k = record {
  to_put = refl;
  to_get = refl;
  whole = refl;
}
size-Masks (suc (suc (suc (suc (suc (suc (suc (suc (suc n))))))))) h k = absurd (omega arith)

-- The flags fill what the prefix leaves of the byte.
pub flags-fit :
    (size flags : ℕ) → Masks size → flags < 2 ^ (8 - size) → flags * 2 ^ size + 2 ^ size ≤ 256
flags-fit size flags m h = let room = mul-le-mul_right (2 ^ size) h in omega (arith, m.whole)

pub encode_prefix-wire :
    (size flags value : ℕ)
    → 0 < size
    → size ≤ 8
    → flags < 2 ^ (8 - size)
    → value < 2 ^ 64
    → encode_prefix size flags value ≡ some (prefix_wire size flags value)
unfolding encode_prefix prefix_wire
encode_prefix-wire size flags value hs hs8 hf hv =
    let m = size-Masks size hs hs8 in
    ground (
      arith,
      m.to_put,
      flags-fit size flags m hf,
      pow-pos_two size,
      or_field size flags value,
      field_or size flags (2 ^ size - 1),
      encode_loop-groups 10 (value - (2 ^ size - 1)),
    )

-- The byte that `prefix_wire` starts with.
abbrev pub prefix_first : ℕ → ℕ → ℕ → ℕ
prefix_first size flags value =
    flags * 2 ^ size + (if ltb value (2 ^ size - 1) then value else 2 ^ size - 1)

unfoldable pub prefix_tail : ℕ → ℕ → List ℕ
prefix_tail size value = if ltb value (2 ^ size - 1) then [] else groups 10 (value - (2 ^ size - 1))

pub prefix_wire-cons :
    (size flags value : ℕ)
    → prefix_wire size flags value ≡ prefix_first size flags value ∷ prefix_tail size value
unfolding prefix_wire prefix_tail
prefix_wire-cons size flags value = ground arith
