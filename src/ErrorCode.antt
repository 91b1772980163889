-- ===== src/ErrorCode.antt =====
-- webtransport-proto/src/error.rs: WebTransport codes (u32) inside the HTTP/3 error space (u64).
pub mod Range
pub mod RoundTrip
mod Runs
use mathlib.Core.Option
use webtransport_rs.Base.{ℕ, ◌+◌, ◌-◌, ◌/◌, ◌^◌, ◌&&◌, Option, none, some, ltb, leb, if◌then◌else◌}

abbrev pub error_first : ℕ
error_first = 0x52e4a40fa8db

abbrev pub error_last : ℕ
error_last = 0x52e5ac983162

-- `code.try_into().unwrap()`, from u64 to u32: `none` is the panic of `unwrap`.
to_u32 : ℕ → Option ℕ
to_u32 x = if ltb x (2 ^ 32) then some x else none

-- The outer `none` is a panic, the inner one is the answer `None`.
unfoldable pub error_from_http3 : ℕ → Option (Option ℕ)
unfolding to_u32
error_from_http3 code =
    if leb error_first code && leb code error_last
    then Option.map some (to_u32 ((code - error_first) / 0x1f))
    else some none

-- The sum of a u32 with its thirtieth and the first code stays far below 2 ^ 64.
unfoldable pub error_to_http3 : ℕ → ℕ
error_to_http3 code = error_first + code + code / 0x1e
