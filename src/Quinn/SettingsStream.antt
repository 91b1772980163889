-- ===== src/Quinn/SettingsStream.antt =====
-- webtransport-quinn/src/settings.rs: the two sides of the settings exchange. The errors of quinn are
-- the parameters `C` (of a connection), `R` (of a read) and `W` (of a write).
pub mod Exchange
mod Runs
use webtransport_rs.Base.{
  ℕ, Bool, true, false, Option, none, some, List, [], ◌==◌, if◌then◌else◌, Outcome, ok, err, panic,
  ◌>>=◌, map_err,
}
use webtransport_rs.VarInt.{VarInt}
use webtransport_rs.Settings
use webtransport_rs.Settings.{Settings}
use webtransport_rs.Settings.Ids.{Setting}
use webtransport_rs.Settings.Encode.{encode, enable_webtransport}
use webtransport_rs.Settings.Support.{supports_webtransport}
use webtransport_rs.Quinn.Reading.{Event, read_loop}

pub data SettingsError (C R W : Type 0) : Type 0 where
  unexpected_end : SettingsError C R W
  proto_error : Settings.SettingsError → SettingsError C R W
  unsupported : SettingsError C R W
  connection_error : C → SettingsError C R W
  read_error : R → SettingsError C R W
  write_error : W → SettingsError C R W

-- The arm that tries again: more data is needed.
abbrev pub is_unexpected_end : Settings.SettingsError → Bool
is_unexpected_end Settings.unexpected_end = true
is_unexpected_end (Settings.unexpected_stream_type x) = false
is_unexpected_end (Settings.unexpected_frame x) = false
is_unexpected_end Settings.invalid_size = false

module _ {C R W : Type 0} where
  -- The test behind the loop.
  abbrev pub supported : Settings → Outcome (SettingsError C R W) (Unit {0})
  supported settings = if supports_webtransport settings == 0 then err unsupported else ok tt

  -- `recv` is the answer of `accept_uni`. The stream that the code returns is only kept open.
  unfoldable pub accept : Outcome C (List (Event R)) → Outcome (SettingsError C R W) (Unit {0})
  accept recv = do
    recv ← map_err connection_error recv
    settings ←
        read_loop unexpected_end read_error proto_error is_unexpected_end Settings.decode [] recv
    supported settings

  -- The answers of `open_uni` and `write_all`. The result is the bytes that were written.
  unfoldable pub open_settings :
      (Settings → List (Setting × VarInt))
      → Outcome C (Unit {0})
      → (List ℕ → Outcome W (Unit {0}))
      → Outcome (SettingsError C R W) (List ℕ)
  open_settings iter opened write_all = elim (encode iter (enable_webtransport [] 1)) [
    | none ↦ panic
    | some buf ↦ do
      _ ← map_err connection_error opened
      _ ← map_err write_error (write_all buf)
      ok buf
  ]
