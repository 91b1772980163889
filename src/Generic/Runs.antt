-- ===== src/Generic/Runs.antt =====
-- The theorems of the futures at concrete sessions.
use webtransport_rs.Base.{ℕ, ◌≡◌, refl, Option, none, some, [], ◌∷◌, ltb, if◌then◌else◌, ok, arith}
use webtransport_rs.Quinn.QuinnCrate.{finished_early}
use webtransport_rs.Quinn.StreamHeader.{RecvStream}
use webtransport_rs.Quinn.Accept
use webtransport_rs.Quinn.Accept.Polling.{ready, pending}
use webtransport_rs.Quinn.Session.Calls.{awaited}
use webtransport_rs.Quinn.Session.PollOpen.{Answered}
use webtransport_rs.Generic.Ext
use webtransport_rs.Generic.Quinn.{Endpoint, quinn_session}
use webtransport_rs.Generic.Awaits.{open_uni-ext}

abbrev Lost : Type 0
Lost = Unit {0}

abbrev no_code : Lost → Option ℕ
no_code e = none

abbrev try_from : ℕ → Option ℕ
try_from x = if ltb x 0x4000000000000000 then some x else none

abbrev endpoint : Endpoint Lost
endpoint = record {
  session = record { accept = Accept.new 4; header_uni = 0x40 ∷ 0x54 ∷ 4 ∷ []; header_bi = [] };
  opened = 0;
  closed = none;
}

abbrev stream : RecvStream Lost
stream = record { bytes = 0x40 ∷ 0x54 ∷ 4 ∷ 7 ∷ []; ends = finished_early }

abbrev blocked : Answered Lost
blocked = record { opened = ready (ok tt); written = pending }

abbrev written : Answered Lost
written = record { opened = ready (ok tt); written = ready (ok tt) }

open_uni-ext_example :
    awaited
      (Ext.poll_open_uni (quinn_session no_code try_from))
      5
      ((blocked, stream) ∷ (blocked, stream) ∷ (written, stream) ∷ [])
      (Ext.open_uni endpoint)
    ≡ (some (ok (0x40 ∷ 0x54 ∷ 4 ∷ [])), Ext.open_uni (record endpoint { opened = 3 }), [])
open_uni-ext_example =
    open_uni-ext no_code try_from endpoint ((blocked, stream) ∷ (blocked, stream) ∷ []) written
      stream 5 ((refl, refl), ((refl, refl), tt)) refl refl (omega arith)
