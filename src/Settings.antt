-- ===== src/Settings.antt =====
-- webtransport-proto/src/settings.rs: the SETTINGS frame on the control stream of HTTP/3.
pub mod Ids
pub mod Support
pub mod Encode
pub mod Entries
pub mod RoundTrip
pub mod Stream
pub mod Truncation
mod Runs
use webtransport_rs.Base.{
  ℕ, zero, suc, ◌+◌, ◌%◌, ◌^◌, Bool, Option, none, some, List, [], ◌∷◌, ◌++◌, length, take, drop,
  ltb, ◌==◌, if◌then◌else◌, Outcome, ok, err, panic, ◌>>=◌, map_err,
}
use mathlib.Core.Option
use mathlib.Core.Bool.{not}
use webtransport_rs.HashMap
use webtransport_rs.HashMap.{HashMap, nat_eq}
use webtransport_rs.VarInt
use webtransport_rs.VarInt.{VarInt, VarIntUnexpectedEnd}
use webtransport_rs.Frame
use webtransport_rs.Frame.{Frame}
use webtransport_rs.StreamUni
use webtransport_rs.StreamUni.{StreamUni}
use Ids.{
  Setting, enable_connect_protocol, enable_datagram, enable_datagram_deprecated,
  webtransport_enable_deprecated, webtransport_max_sessions_deprecated, webtransport_max_sessions,
}

pub data SettingsError : Type 0 where
  unexpected_end : SettingsError
  unexpected_stream_type : StreamUni → SettingsError
  unexpected_frame : Frame → SettingsError
  invalid_size : SettingsError

abbrev pub Settings : Type 0
Settings = HashMap Setting VarInt

-- The loop over the limited buffer. Each round takes two bytes at least, so the length of the buffer
-- is enough fuel; a loop that ran out of it would show as a panic.
unfoldable pub decode_entries : ℕ → Settings → List ℕ → Outcome SettingsError Settings
decode_entries fuel settings [] = ok settings
decode_entries zero settings (b ∷ bs) = panic
decode_entries (suc fuel) settings (b ∷ bs) = do
  (id, rest) ← map_err (λ _. invalid_size) (Ids.decode (b ∷ bs))
  (value, rest') ← map_err (λ _. invalid_size) (VarInt.decode rest)
  decode_entries fuel (HashMap.insert settings id value) rest'

-- `Buf::take` of `size` bytes, the test that they are there, and the loop over them.
unfoldable pub decode_limited : ℕ → List ℕ → Outcome SettingsError (Settings × List ℕ)
decode_limited size buf =
    let limit = take size buf in
    if ltb (length limit) size
    then err unexpected_end
    else do settings ← decode_entries (length limit) [] limit; ok (settings, drop size buf)

unfoldable pub decode : List ℕ → Outcome SettingsError (Settings × List ℕ)
decode buf = do
  (typ, buf) ← map_err (λ _. unexpected_end) (StreamUni.decode buf)
  if not (typ == StreamUni.control) then err (unexpected_stream_type typ) else do
    (typ, buf) ← map_err (λ _. unexpected_end) (Frame.decode buf)
    if not (typ == Frame.settings) then err (unexpected_frame typ) else do
      (size, buf) ← map_err (λ _. unexpected_end) (VarInt.decode buf)
      decode_limited size buf
