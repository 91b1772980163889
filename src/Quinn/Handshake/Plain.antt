-- ===== src/Quinn/Handshake/Plain.antt =====
-- What the handshake can be run on, over the plain model of `http`.
use webtransport_rs.Base.{ok, err, panic, List, refl, arith}
use webtransport_rs.HashMap.{nat_eq, bytes_eq, Distinct, Iterates}
use webtransport_rs.VarInt.{VarInt}
use webtransport_rs.Qpack.Text.{codes, is_utf8}
use webtransport_rs.Settings.{Settings}
use webtransport_rs.Settings.Ids.{Setting}
use webtransport_rs.Connect.Plain.{plain_http, stored, response_fits}
use webtransport_rs.Quinn.Handshake.{Join}
use webtransport_rs.Quinn.Handshake.Exchange.{IsAccepting}

abbrev pub Lost : Type 0
Lost = Unit {0}

-- The error of the sending side comes first.
abbrev pub try_join : Join Lost Lost Lost
try_join (ok sent) (ok received) = ok (sent, received)
try_join (ok sent) (err e) = err e
try_join (ok sent) panic = panic
try_join (err e) received = err e
try_join panic received = panic

abbrev pub as_stored : Settings → List (Setting × VarInt)
as_stored s = s

pub as_stored-Iterates : (s : Settings) → Distinct s → Iterates (as_stored s) s
as_stored-Iterates s d = record { distinct = d; same = λ k. refl; count = refl }

pub accepting : IsAccepting plain_http stored (codes "200")
unfolding is_utf8
accepting = record {
  trip = refl;
  success = refl;
  is_ok = refl;
  text = record { valid = refl; fits = omega arith };
  fits = response_fits;
}
