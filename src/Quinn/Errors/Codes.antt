-- ===== src/Quinn/Errors/Codes.antt =====
-- Where the code of a reset or of a stop ends up.
use webtransport_rs.Base.{ℕ, ◌/◌, ◌^◌, ◌≤◌, ◌<◌, ◌≡◌, ◌↔◌, ◌⊎◌, inl, inr, none, some, arith}
use webtransport_rs.ErrorCode.{error_first, error_last, error_to_http3}
use webtransport_rs.ErrorCode.Range.{error_from_http3_cases}
use webtransport_rs.ErrorCode.RoundTrip.{error_from_http3-error_to_http3}
use webtransport_rs.Quinn.QuinnCrate
use webtransport_rs.Quinn.Errors.{ReadError, WriteError, from_read, from_write}

module _ {C : Type 0} where
  -- On a read, just the rejection of 0-RTT data makes the conversion panic.
  pub from_read-none :
      (e : QuinnCrate.ReadError C)
      → (from_read e ≡ none) ↔ (e ≡ QuinnCrate.ReadError.zero_rtt_rejected)
  unfolding from_read
  from_read-none (QuinnCrate.ReadError.reset code) = elim (error_from_http3_cases code) [
    | inl (outside, _) ↦ ground (arith, outside)
    | inr (c, inside, _, _, _) ↦ ground (arith, inside)
  ]
  from_read-none (QuinnCrate.ReadError.connection_lost e) = ground arith
  from_read-none QuinnCrate.ReadError.illegal_ordered_read = ground arith
  from_read-none QuinnCrate.ReadError.unknown_stream = ground arith
  from_read-none QuinnCrate.ReadError.zero_rtt_rejected = ground arith

  -- A reset with a code of the WebTransport range is a reset with a u32, and any other reset keeps
  -- its code as an invalid one.
  pub from_read-reset :
      (code : ℕ)
      → ((c : ℕ) × (from_read {C = C} (QuinnCrate.ReadError.reset code) ≡ some (ReadError.reset c))
          × (c < 2 ^ 32)
          × (error_first ≤ code)
          × (code ≤ error_last))
        ⊎ ((from_read {C = C} (QuinnCrate.ReadError.reset code)
              ≡ some (ReadError.invalid_reset code))
            × ((code < error_first) ⊎ (error_last < code)))
  unfolding from_read
  from_read-reset code = elim (error_from_http3_cases code) [
    | inl (e, outside) ↦ inr (ground (arith, e), outside)
    | inr (c, e, small, low, high) ↦ inl (c, ground (arith, e), small, low, high)
  ]

  pub from_read-sent :
      (c : ℕ)
      → c < 2 ^ 32
      → from_read {C = C} (QuinnCrate.ReadError.reset (error_to_http3 c))
        ≡ some (ReadError.reset (c / 30))
  unfolding from_read
  from_read-sent c h = ground (arith, error_from_http3-error_to_http3 c h)

  pub from_write-sent :
      (c : ℕ)
      → c < 2 ^ 32
      → from_write {C = C} (QuinnCrate.WriteError.stopped (error_to_http3 c))
        ≡ some (WriteError.stopped (c / 30))
  unfolding from_write
  from_write-sent c h = ground (arith, error_from_http3-error_to_http3 c h)
