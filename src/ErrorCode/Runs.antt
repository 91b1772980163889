-- ===== src/ErrorCode/Runs.antt =====
-- Runs of the error mapping, and the theorems at concrete codes.
use webtransport_rs.Base.{ℕ, ◌+◌, ◌≡◌, ◌↔◌, refl, some, arith}
use webtransport_rs.ErrorCode.{error_first, error_last, error_from_http3, error_to_http3}
use webtransport_rs.ErrorCode.RoundTrip.{round_trip_iff}

-- The ends of the range are the codes of the smallest and of the largest u32.
to_ends : (error_to_http3 0 ≡ error_first) × (error_to_http3 0xffff_ffff ≡ error_last)
unfolding error_to_http3
to_ends = (refl, refl)

-- The code 1 is sent as the second code of the range, and read as 0.
from_second : error_from_http3 (error_first + 1) ≡ some (some 0)
unfolding error_from_http3
from_second = refl

round_trip_iff_example : (error_from_http3 (error_to_http3 42) ≡ some (some 42)) ↔ ◌≡◌ {A = ℕ} 42 0
round_trip_iff_example = round_trip_iff 42 (omega arith)
