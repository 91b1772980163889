-- ===== src/Baton/Runs.antt =====
-- The theorems of the game at concrete requests and schedules.
use webtransport_rs.Base.{
  ℕ, ◌+◌, ◌^◌, ◌≤◌, ◌<◌, ◌≡◌, ◌≢◌, ◌⊎◌, refl, none, some, List, [], ◌∷◌, ok, err, panic, arith,
}
use webtransport_rs.HashMap
use webtransport_rs.HashMap.{insert_all}
use webtransport_rs.Qpack.Text.{Bytes, codes}
use webtransport_rs.Baton.{Answers, Inbound, Outbound, send_baton, recv_baton}
use webtransport_rs.Baton.Parse.{
  parse, parse_query, insert_parts, split, splitn_2, parse_version, parse_baton, parse_count,
  parse_number, parse_digits, invalid_baton,
}
use webtransport_rs.Baton.Parse.Query.{query_of}
use webtransport_rs.Baton.Parse.Requests.{parse-InRange, parse-query_of}
use webtransport_rs.Baton.Run.{
  Event, sent, received, accepted_uni, accepted_bi, Log, run, start, initial, rounds, goes_on,
  after, select, on_sent, on_received, pass, join, reply, send_task, receive_task,
}
use webtransport_rs.Baton.Loop.{TraceKeeps}
use webtransport_rs.Baton.Game.{Delivers, offered}
use webtransport_rs.Base.Counting.{sum}
use webtransport_rs.Baton.Kept.{received_of}
use webtransport_rs.Baton.Play.{events, by_uni}
use webtransport_rs.Baton.Played.{played}
use webtransport_rs.Baton.Ends.{run-keeps, most, offered_bounded, ends}

abbrev Lost : Type 0
Lost = Unit {0}

-- A stream is its number; all calls succeed, and a read finds these bytes.
abbrev reads : List ℕ → Answers Lost ℕ ℕ
reads bytes = record {
  open_uni = ok 1;
  open_bi = ok (2, 3);
  write_all = λ send buf. ok tt;
  finish = λ send. ok tt;
  read_to_end = λ recv limit. ok bytes;
}

-- One baton from 254 on: the server sends 254, the client sends 255, and the server sends 0.
abbrev pub server : List (Event Lost ℕ ℕ)
server =
    sent 0 (reads []) ∷ accepted_bi 4 5 ∷ received 0 (reads (0 ∷ 255 ∷ [])) ∷ sent 0 (reads []) ∷ []

abbrev pub client : List (Event Lost ℕ ℕ)
client =
    accepted_uni 6
    ∷ received 0 (reads (0 ∷ 254 ∷ []))
    ∷ sent 0 (reads [])
    ∷ received 0 (reads (0 ∷ 0 ∷ []))
    ∷ []

abbrev server_log : List (Log ℕ ℕ)
server_log =
    Log.sent 254 Outbound.uni
    ∷ Log.received 255 (Inbound.remote_bi 4)
    ∷ Log.sent 0 Outbound.remote_bi
    ∷ []

abbrev client_log : List (Log ℕ ℕ)
client_log =
    Log.received 254 Inbound.uni
    ∷ Log.sent 255 (Outbound.local_bi 3)
    ∷ Log.received 0 Inbound.local_bi
    ∷ []

-- The baton is at 0, and neither end returns; the server still counts one.
server_test :
    run (some 254) 1 server ≡ (server_log, none, record { outbound = []; inbound = []; count = 1 })
unfolding run start initial rounds goes_on after select on_sent on_received pass join reply
    send_task receive_task send_baton recv_baton
server_test = refl

client_test :
    run none 1 client ≡ (client_log, none, record { outbound = []; inbound = []; count = 0 })
unfolding run start initial rounds goes_on after select on_sent on_received pass join reply
    send_task receive_task send_baton recv_baton
client_test = refl

pub to_client : Delivers (run (some 254) 1 server) (run none 1 client)
to_client v = rw server_test (rw client_test (ground arith))

pub to_server : Delivers (run none 1 client) (run (some 254) 1 server)
to_server v = rw server_test (rw client_test (ground arith))

offered_bounded_example :
    offered 255 (run (some 254) 1 server) + offered 255 (run none 1 client) ≤ most 1 254 255
offered_bounded_example =
    offered_bounded 1 254 (omega arith) (omega arith) server client to_client to_server 255

ends_example :
    ((run (some 254) 1 server).1 ≢ some panic)
    × ((run none 1 client).1 ≢ some panic)
    × (((run (some 254) 1 server).1 ≢ some (ok tt)) ⊎ ((run none 1 client).1 ≢ some (ok tt)))
ends_example =
    ends 1 254 (omega arith) (omega arith) server client to_client to_server (omega arith)

run-keeps_example : TraceKeeps (start (some 254) 1) (run (some 254) 1 server)
run-keeps_example = run-keeps (some 254) 1 server

abbrev pairs : List (Bytes × Bytes)
pairs =
    (codes "baton", codes "007") ∷ (codes "version", codes "0") ∷ (codes "count", codes "9") ∷ []

parse_test :
    parse 1 (codes "/webtransport/devious-baton") (some (codes "count=9&baton=0"))
    ≡ err (invalid_baton 0)
unfolding parse parse_query insert_parts split splitn_2 parse_version parse_baton parse_number
    parse_digits HashMap.insert HashMap.get
parse_test = refl

parse-query_of_example :
    parse 1
      (codes "/webtransport/devious-baton")
      (some (query_of (codes "count", codes "300") pairs))
    ≡ ok (7, 9)
unfolding HashMap.insert HashMap.get insert_all
parse-query_of_example =
    parse-query_of 1 (codes "count", codes "300") pairs (codes "0") (codes "007") (codes "9")
      (ground arith) refl refl refl (ground arith, ground arith, omega arith)
      (ground arith, ground arith, omega arith, omega arith)
      (ground arith, ground arith, omega arith)

parse-InRange_example :
    (0 < 5)
    × (5 < 256)
    × (1 < 2 ^ 16)
    × (codes "/webtransport/devious-baton" ≡ codes "/webtransport/devious-baton")
unfolding parse parse_query insert_parts split splitn_2 parse_version parse_baton parse_count
    parse_number parse_digits HashMap.insert HashMap.get
parse-InRange_example =
    parse-InRange 5 (codes "/webtransport/devious-baton") none 5 1 (omega arith) (omega arith) refl

played_example :
    let server = run (some 7) 1 (events {C = Lost} {S = ℕ} {R = ℕ} 1 2 249 by_uni).0 in
    let client = run none 1 (events {C = Lost} {S = ℕ} {R = ℕ} 1 2 249 by_uni).1 in
    Delivers server client
    × Delivers client server
    × ((v : ℕ) → offered v server + offered v client ≡ most 1 7 v)
    × (sum (received_of 0) server.0 + sum (received_of 0) client.0 ≡ 1)
    × (server.1 ≡ none)
    × (client.1 ≡ none)
    × (server.2.count + client.2.count ≡ 1)
played_example = played {C = Lost} {S = ℕ} {R = ℕ} 1 2 7 (omega arith) (omega arith)
