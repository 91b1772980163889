-- ===== src/ErrorCode/RoundTrip.antt =====
-- What comes back of a code that was sent.
use webtransport_rs.Base.{ℕ, ◌/◌, ◌^◌, ◌<◌, ◌≡◌, ◌↔◌, some, arith}
use webtransport_rs.ErrorCode.{error_from_http3, error_to_http3}

-- The receiver of the code `c`, a u32, is told `c / 30`.
pub error_from_http3-error_to_http3 :
    (c : ℕ) → c < 2 ^ 32 → error_from_http3 (error_to_http3 c) ≡ some (some (c / 30))
unfolding error_from_http3 error_to_http3
error_from_http3-error_to_http3 c h = ground arith

-- Of the codes of u32 just the code 0 makes the round trip.
pub round_trip_iff :
    (c : ℕ) → c < 2 ^ 32 → (error_from_http3 (error_to_http3 c) ≡ some (some c)) ↔ (c ≡ 0)
round_trip_iff c h = ground (arith, error_from_http3-error_to_http3 c h)
