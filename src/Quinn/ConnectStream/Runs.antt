-- ===== src/Quinn/ConnectStream/Runs.antt =====
-- The theorems of the CONNECT exchange at concrete streams.
use webtransport_rs.Base.{refl, ℕ, ◌≡◌, Option, some, List, [], ◌∷◌, ok, ◌>>=◌}
use webtransport_rs.HashMap
use webtransport_rs.Frame
use webtransport_rs.VarInt
use webtransport_rs.Qpack.Prefix.{encode_prefix, encode_loop}
use webtransport_rs.Qpack.Text.{Bytes, codes}
use webtransport_rs.Qpack.Headers
use webtransport_rs.Qpack.StaticTable
use webtransport_rs.Qpack.StaticTable.FindArms.{find_arms}
use webtransport_rs.Qpack.StaticTable.NameArms.{find_name_arms}
use webtransport_rs.Qpack.Headers.Encode
use webtransport_rs.Connect.{decode_response}
use webtransport_rs.Connect.Encode.{encode_request, encode_headers, request_headers}
use webtransport_rs.Connect.Plain.{plain_http, stored}
use webtransport_rs.Quinn.Reading.{chunks}
use webtransport_rs.Quinn.ConnectStream.{open_connect, expect_ok}
use webtransport_rs.Quinn.ConnectStream.Exchange.{response_answer, open_connect-chunks}

abbrev Failed : Type 0
Failed = Unit {0}

abbrev root : Option Bytes × Option Bytes × Bytes
root = (some (codes "https"), some (codes "a"), codes "/")

abbrev root_bytes : List ℕ
root_bytes =
    1 ∷ 32 ∷ 0 ∷ 0 ∷ 207 ∷ 215 ∷ 112 ∷ 1 ∷ 97 ∷ 193 ∷ 55 ∷ 2 ∷ 58 ∷ 112 ∷ 114 ∷ 111 ∷ 116 ∷ 111 ∷ 99
    ∷ 111 ∷ 108 ∷ 12 ∷ 119 ∷ 101 ∷ 98 ∷ 116 ∷ 114 ∷ 97 ∷ 110 ∷ 115 ∷ 112 ∷ 111 ∷ 114 ∷ 116 ∷ []

encode_root : encode_request plain_http stored (record { uri = root }) ≡ some root_bytes
unfolding encode_request encode_headers request_headers Encode.encode Encode.encode_lines
    Encode.encode_line Encode.encode_index Encode.encode_literal_value Encode.encode_literal
    encode_prefix encode_loop StaticTable.find StaticTable.find_name find_arms find_name_arms
    Headers.set HashMap.insert Frame.encode VarInt.encode
encode_root = refl

-- The response `:status` 200, in two chunks.
open_connect-chunks_example :
    open_connect {h = plain_http} {C = Failed} {R = Failed} {W = Failed} stored
      (ok (chunks ((1 ∷ 3 ∷ 0 ∷ []) ∷ (0 ∷ 0xd9 ∷ []) ∷ [])))
      (λ _. ok tt)
      root
    ≡ (response_answer (decode_response plain_http (1 ∷ 3 ∷ 0 ∷ 0 ∷ 0xd9 ∷ [])) >>= expect_ok root)
open_connect-chunks_example =
    open_connect-chunks {h = plain_http} {C = Failed} {R = Failed} {W = Failed} stored root
      root_bytes ((1 ∷ 3 ∷ 0 ∷ []) ∷ (0 ∷ 0xd9 ∷ []) ∷ []) encode_root
