-- ===== src/Quinn/SettingsStream/Runs.antt =====
-- The theorems of the settings exchange at concrete chunks.
use webtransport_rs.Base.{ℕ, ◌≡◌, refl, List, [], ◌∷◌, ◌++◌, ok}
use webtransport_rs.HashMap.{nat_eq, Distinct, Iterates}
use webtransport_rs.HashMap
use webtransport_rs.VarInt
use webtransport_rs.StreamUni
use webtransport_rs.Frame
use webtransport_rs.Settings.Ids
use webtransport_rs.Settings.Encode.{encode, enable_webtransport}
use webtransport_rs.VarInt.{VarInt}
use webtransport_rs.Settings.{Settings}
use webtransport_rs.Settings.Ids.{Setting}
use webtransport_rs.Quinn.Reading.{failed, chunks}
use webtransport_rs.Quinn.SettingsStream.{accept, open_settings}
use webtransport_rs.Quinn.SettingsStream.Exchange.{settings_exchange}

abbrev Failure : Type 0
Failure = Unit {0}

abbrev as_stored : Settings → List (Setting × VarInt)
as_stored s = s

as_stored-Iterates : (s : Settings) → Distinct s → Iterates (as_stored s) s
as_stored-Iterates s d = record { distinct = d; same = λ k. refl; count = refl }

abbrev payload : List ℕ
payload =
    8 ∷ 1 ∷ 51 ∷ 1 ∷ 128 ∷ 255 ∷ 210 ∷ 119 ∷ 1 ∷ 192 ∷ 0 ∷ 0 ∷ 0 ∷ 198 ∷ 113 ∷ 112 ∷ 106 ∷ 1 ∷ 171
    ∷ 96 ∷ 55 ∷ 67 ∷ 1 ∷ 171 ∷ 96 ∷ 55 ∷ 66 ∷ 1 ∷ []

abbrev sent_bytes : List ℕ
sent_bytes = 0 ∷ 4 ∷ 28 ∷ payload

sent :
    open_settings {C = Failure} {R = Failure} {W = Failure} as_stored (ok tt) (λ _. ok tt)
    ≡ ok sent_bytes
unfolding open_settings encode enable_webtransport HashMap.insert StreamUni.encode Frame.encode
    Ids.encode VarInt.encode
sent = refl

-- The bytes arrive in three chunks, with a byte of the next frame, and then the stream fails.
settings_exchange_example :
    accept {C = Failure} {R = Failure} {W = Failure}
      (ok (chunks ((0 ∷ 4 ∷ []) ∷ (28 ∷ payload) ∷ (9 ∷ []) ∷ []) ++ failed tt ∷ []))
    ≡ ok tt
settings_exchange_example =
    settings_exchange {C = Failure} {R = Failure} {W = Failure} as_stored as_stored-Iterates
      sent_bytes (9 ∷ []) ((0 ∷ 4 ∷ []) ∷ (28 ∷ payload) ∷ (9 ∷ []) ∷ []) (failed tt ∷ []) sent refl
