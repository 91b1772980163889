-- ===== src/Quinn/StreamHeader/Runs.antt =====
-- The theorems of the stream headers at concrete streams.
use webtransport_rs.Base.{
  ℕ, ◌≡◌, ◌≢◌, some, List, [], ◌∷◌, ◌++◌, ok, err, panic, if◌then◌else◌, ◌==◌, arith,
}
use webtransport_rs.StreamUni
use webtransport_rs.VarInt
use webtransport_rs.Quinn.QuinnCrate.{finished_early}
use webtransport_rs.Quinn.Errors.{web_transport_error, unknown_session}
use webtransport_rs.Quinn.StreamHeader.{RecvStream, read_varint, decode_uni}
use webtransport_rs.Quinn.StreamHeader.Open.{header_uni}
use webtransport_rs.Quinn.StreamHeader.Laws.{on_stream, read_varint-decode, decode_uni-header_uni}

abbrev Lost : Type 0
Lost = Unit {0}

abbrev arriving : List ℕ → RecvStream Lost
arriving bs = record { bytes = bs; ends = finished_early }

-- A header whose number was cut.
read_varint-decode_example :
    (read_varint (arriving (0x40 ∷ [])) ≡ on_stream finished_early (VarInt.decode (0x40 ∷ [])))
    × (read_varint (arriving (0x40 ∷ [])) ≢ panic)
read_varint-decode_example = read_varint-decode (arriving (0x40 ∷ [])) (omega arith)

decode_uni-header_uni_example :
    (bs : List ℕ) × (header_uni 4 ≡ some bs)
    × (decode_uni (arriving (bs ++ 7 ∷ 8 ∷ [])) 4 ≡ (
        if ◌==◌ 4 4
        then ok (StreamUni.webtransport, arriving (7 ∷ 8 ∷ []))
        else err (web_transport_error unknown_session)))
decode_uni-header_uni_example =
    decode_uni-header_uni 4 4 (7 ∷ 8 ∷ []) finished_early (omega arith) (omega arith)
