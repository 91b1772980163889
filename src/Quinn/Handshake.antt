-- ===== src/Quinn/Handshake.antt =====
-- webtransport-quinn/src/client.rs and server.rs, and `Settings::connect`: how a connection becomes a
-- session. The errors of quinn are the parameters `C` (of a connection), `R` (of a read) and `W` (of a
-- write).
pub mod Client
pub mod Server
pub mod Exchange
pub mod Plain
mod Runs
use webtransport_rs.Base.{ℕ, List, Outcome, ok, err}
use webtransport_rs.VarInt.{VarInt}
use webtransport_rs.Qpack.Text.{Bytes}
use webtransport_rs.Qpack.Headers.{Headers}
use webtransport_rs.Settings.{Settings}
use webtransport_rs.Settings.Ids.{Setting}
use webtransport_rs.Quinn.Reading.{Event}
use webtransport_rs.Quinn.SettingsStream
use webtransport_rs.Quinn.SettingsStream.{SettingsError}

-- What quinn answers on one connection: the streams of the settings, and the CONNECT stream, which
-- the client opens and the server accepts. `recv` is what arrives, `write` the answer of `write_all`.
pub record Answers (C R W : Type 0) : Type 0 where
  pub settings_opened : Outcome C (Unit {0})
  pub settings_write : List ℕ → Outcome W (Unit {0})
  pub settings_recv : Outcome C (List (Event R))
  pub connect_write : List ℕ → Outcome W (Unit {0})
  pub connect_recv : Outcome C (List (Event R))
  pub stream_id : ℕ

-- `try_join!` of the crate futures, at the two sides of the settings exchange.
abbrev pub Join : (C R W : Type 0) → Type 0
Join C R W =
    Outcome (SettingsError C R W) (List ℕ)
    → Outcome (SettingsError C R W) (Unit {0})
    → Outcome (SettingsError C R W) (List ℕ × Unit {0})

module _ {C R W : Type 0} where
  -- `Settings::connect`: the bytes that were sent.
  unfoldable pub connect_settings :
      Join C R W
      → (Settings → List (Setting × VarInt))
      → Answers C R W
      → Outcome (SettingsError C R W) (List ℕ × Unit {0})
  connect_settings try_join iter conn =
      try_join (SettingsStream.open_settings iter conn.settings_opened conn.settings_write)
        (SettingsStream.accept conn.settings_recv)
