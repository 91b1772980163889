-- ===== src/Settings/Runs.antt =====
-- Runs of the settings codec, and the theorems at concrete settings.
use webtransport_rs.Base.{ℕ, ◌≡◌, ◌≢◌, ◌↔◌, refl, List, [], ◌∷◌, ◌++◌, some, ok, err, panic, arith}
use webtransport_rs.HashMap
use webtransport_rs.HashMap.{HashMap, nat_eq, Distinct, Iterates}
use webtransport_rs.Frame
use webtransport_rs.StreamUni
use webtransport_rs.VarInt
use webtransport_rs.VarInt.{VarInt}
use webtransport_rs.Settings.{
  Settings, unexpected_frame, invalid_size, decode, decode_limited, decode_entries,
}
use webtransport_rs.Settings.Encode.{encode, enable_webtransport}
use webtransport_rs.Settings.Ids
use webtransport_rs.Settings.Ids.{
  Setting, enable_connect_protocol, enable_datagram, enable_datagram_deprecated,
  webtransport_enable_deprecated, webtransport_max_sessions_deprecated, webtransport_max_sessions,
}
use webtransport_rs.Settings.Support.{supports_webtransport, supports_webtransport_iff, Offers}
use webtransport_rs.Settings.RoundTrip.{IsValid, decode-encode_settings, handshake}
use webtransport_rs.VarInt.Streaming.{extend}
use webtransport_rs.Settings.Stream.{decode_settled_settings, decode-ne-panic_settings}

-- An iteration in the order in which the map holds its entries.
abbrev in_order : Settings → List (Setting × VarInt)
in_order s = s

in_order-Iterates : (s : Settings) → Distinct s → Iterates (in_order s) s
in_order-Iterates s d = record { distinct = d; same = λ k. refl; count = refl }

abbrev datagrams_on : Settings
datagrams_on = (0x33, 1) ∷ []

datagrams_on-IsValid : IsValid datagrams_on
unfolding HashMap.get
datagrams_on-IsValid = record { distinct = (refl, tt); in_range = λ k v found. ground arith }

encode_datagrams : encode in_order datagrams_on ≡ some (0 ∷ 4 ∷ 2 ∷ 0x33 ∷ 1 ∷ [])
unfolding encode StreamUni.encode Frame.encode Ids.encode VarInt.encode
encode_datagrams = refl

-- A frame of another type, and a frame whose size cuts an entry.
decode_data_frame : decode (0 ∷ 0 ∷ []) ≡ err (unexpected_frame 0)
unfolding decode StreamUni.decode Frame.decode VarInt.decode
decode_data_frame = refl

decode_cut_entry : decode (0 ∷ 4 ∷ 1 ∷ 0x33 ∷ 1 ∷ []) ≡ err invalid_size
unfolding decode decode_limited decode_entries StreamUni.decode Frame.decode Ids.decode
    VarInt.decode
decode_cut_entry = refl

decode-encode_settings_example :
    (bs : List ℕ) × (t : Settings) × (encode in_order datagrams_on ≡ some bs)
    × (decode (bs ++ 9 ∷ []) ≡ ok (t, 9 ∷ []))
    × ((k : Setting) → HashMap.get t k ≡ HashMap.get datagrams_on k)
decode-encode_settings_example =
    decode-encode_settings in_order in_order-Iterates datagrams_on (9 ∷ []) datagrams_on-IsValid
      (omega arith)

handshake_example :
    (bs : List ℕ) × (t : Settings) × (encode in_order (enable_webtransport [] 1) ≡ some bs)
    × (decode (bs ++ []) ≡ ok (t, []))
    × (supports_webtransport t ≡ 1)
handshake_example = handshake in_order in_order-Iterates 1 [] (omega arith)

decode-ne-panic_settings_example : decode (0 ∷ 4 ∷ 1 ∷ 0xff ∷ []) ≢ panic
decode-ne-panic_settings_example = decode-ne-panic_settings (0 ∷ 4 ∷ 1 ∷ 0xff ∷ []) (omega arith)

supports_webtransport_iff_example :
    (supports_webtransport (enable_webtransport [] 5) ≡ 5) ↔ Offers (enable_webtransport [] 5) 5
supports_webtransport_iff_example =
    supports_webtransport_iff (enable_webtransport [] 5) 5 (omega arith)

decode_settled_settings_example :
    decode (0 ∷ 4 ∷ 1 ∷ 0x33 ∷ 1 ∷ 9 ∷ []) ≡ extend (9 ∷ []) (decode (0 ∷ 4 ∷ 1 ∷ 0x33 ∷ 1 ∷ []))
decode_settled_settings_example =
    decode_settled_settings (0 ∷ 4 ∷ 1 ∷ 0x33 ∷ 1 ∷ []) (9 ∷ []) (λ e. cc (decode_cut_entry, e))
