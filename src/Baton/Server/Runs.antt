-- ===== src/Baton/Server/Runs.antt =====
-- `run_conn` on the connection of a client of this library, over the plain model of `http`.
use webtransport_rs.Base.{
  ℕ, ◌^◌, ◌<◌, ◌≡◌, refl, List, [], ◌∷◌, append-nil, Option, none, some, Outcome, ok, true, ltb,
  length, arith,
}
use webtransport_rs.HashMap
use webtransport_rs.HashMap.{nat_eq, bytes_eq, Distinct, Iterates}
use webtransport_rs.Qpack.Prefix.{encode_prefix, encode_loop}
use webtransport_rs.Qpack.Text.{Bytes, codes, is_utf8}
use webtransport_rs.Qpack.StaticTable
use webtransport_rs.Qpack.StaticTable.FindArms.{find_arms}
use webtransport_rs.Qpack.StaticTable.NameArms.{find_name_arms}
use webtransport_rs.Qpack.Headers
use webtransport_rs.Qpack.Headers.Encode
use webtransport_rs.Connect.Encode.{request_headers}
use webtransport_rs.Connect.Plain.{plain_http, plain_laws, stored, stored-Iterates, is_short}
use webtransport_rs.Quinn.Session.{Session}
use webtransport_rs.Quinn.Handshake.{Answers}
use webtransport_rs.Quinn.Handshake.Plain.{Lost, try_join, as_stored, as_stored-Iterates, accepting}
use webtransport_rs.Quinn.Handshake.Server
use webtransport_rs.Quinn.Handshake.Server.{Request}
use webtransport_rs.Quinn.Handshake.Exchange.{IsRequestable, answers, handshake_session}
use webtransport_rs.Baton.{send_baton}
use webtransport_rs.Baton.Parse.{parse, parse_query, parse_version, parse_baton, parse_count}
use webtransport_rs.Baton.Run.{
  Event, sent, run, start, initial, rounds, goes_on, after, select, on_sent, join, send_task,
}
use webtransport_rs.Baton.Server.{
  run_conn, run_conn-plays, run_conn-session, session_lines, played, game_lines, last_line,
}

abbrev pub uri : Option Bytes × Option Bytes × Bytes
uri = (some (codes "https"), some (codes "localhost:4443"), codes "/webtransport/devious-baton")

short : is_short (Encode.encode stored (request_headers plain_http (record { uri = uri }))) ≡ true
unfolding request_headers Headers.set HashMap.insert Encode.encode Encode.encode_lines
    Encode.encode_line Encode.encode_index Encode.encode_literal_value Encode.encode_literal
    encode_prefix encode_loop StaticTable.find StaticTable.find_name find_arms find_name_arms
short = refl

uri_fits :
    (tmp : List ℕ)
    → Encode.encode stored (request_headers plain_http (record { uri = uri })) ≡ some tmp
    → length tmp < 2 ^ 32
uri_fits tmp e = let below : ltb (length tmp) 1000 ≡ true = rw e at short in ground arith

pub uri-IsRequestable : IsRequestable plain_http stored uri
unfolding is_utf8
uri-IsRequestable = record {
  scheme = codes "https";
  authority = codes "localhost:4443";
  has_scheme = refl;
  has_authority = refl;
  https = refl;
  scheme_text = record { valid = refl; fits = omega arith };
  authority_text = record { valid = refl; fits = omega arith };
  path_text = record { valid = refl; fits = omega arith };
  fits = uri_fits;
}

-- What the client sends for the settings and for its request.
shaken :
    (settings req resp : List ℕ) × (v : Option Bytes × Option Bytes × Bytes) × (s : Session Lost)
    × (Server.accept {h = plain_http} try_join as_stored (answers (λ bs. bs ∷ []) 4 settings req)
        ≡ ok (record {
          conn = answers (λ bs. bs ∷ []) 4 settings req;
          connect = record { uri = v };
        }))
    × (Server.accept_request {h = plain_http} stored (codes "200") (record {
      conn = answers {C = Lost} {R = Lost} {W = Lost} (λ bs. bs ∷ []) 4 settings req;
      connect = record { uri = v };
    })
        ≡ ok (resp, s))
    × (v.2 ≡ codes "/webtransport/devious-baton")
shaken =
    let (settings, received, req, resp, v, s, _, accepted, responded, _, _, _, _, _, path) =
      handshake_session try_join (λ s. refl) (λ bs. bs ∷ []) append-nil plain_http as_stored
        as_stored as_stored-Iterates as_stored-Iterates stored stored stored-Iterates
        stored-Iterates plain_laws uri uri-IsRequestable (codes "200") accepting 4 (omega arith) in
    (settings, req, resp, v, s, accepted, responded, path)

abbrev conn : Answers Lost Lost Lost
conn = answers (λ bs. bs ∷ []) 4 shaken.0 shaken.1

abbrev request : Request plain_http Lost Lost Lost
request = record { conn = conn; connect = record { uri = shaken.3 } }

-- A session on which all calls succeed, and the first baton is sent.
abbrev first_sent : List (Event Lost ℕ ℕ)
first_sent =
    sent 0 (record {
      open_uni = ok 1;
      open_bi = ok (2, 3);
      write_all = λ send buf. ok tt;
      finish = λ send. ok tt;
      read_to_end = λ recv limit. ok [];
    })
    ∷ []

abbrev pub no_query : Option Bytes × Option Bytes × Bytes → Option Bytes
no_query u = none

parsed :
    parse 200 (plain_http.path (Server.uri request)) (no_query (Server.uri request)) ≡ ok (200, 1)
unfolding parse parse_query parse_version parse_baton parse_count HashMap.get
parsed = rw (shaken.7) refl

logged :
    0
    < session_lines (
        run_conn {h = plain_http} try_join as_stored stored no_query
          (codes "200")
          (codes "400")
          200
          (ok conn)
          first_sent)
unfolding run start initial rounds goes_on after select on_sent join send_task send_baton game_lines
    last_line
logged =
    rw
      (run_conn-plays {h = plain_http} try_join as_stored stored no_query (codes "200")
        (codes "400") 200 conn first_sent request 200 1 shaken.2 shaken.4 shaken.5 parsed shaken.6)
      (omega arith)

run_conn-session_example :
    (c : Answers Lost Lost Lost) × (request : Request plain_http Lost Lost Lost) × (v : ℕ) × (n : ℕ)
    × (◌≡◌ {A = Outcome Lost (Answers Lost Lost Lost)} (ok conn) (ok c))
    × (Server.accept try_join as_stored c ≡ ok request)
    × (plain_http.path (Server.uri request) ≡ codes "/webtransport/devious-baton")
    × (0 < v)
    × (v < 256)
    × (n < 2 ^ 16)
    × (response : List ℕ) × (session : Session Lost) × (Server.accept_request stored
          (codes "200")
          request
        ≡ ok (response, session))
    × (run_conn {h = plain_http} try_join as_stored stored no_query
          (codes "200")
          (codes "400")
          200
          (ok conn)
          first_sent
        ≡ played {h = plain_http} try_join as_stored stored no_query
            (codes "200")
            (codes "400")
            200
            request
            response
            v
            n
            first_sent)
run_conn-session_example =
    run_conn-session {h = plain_http} try_join as_stored stored no_query (codes "200") (codes "400")
      200 (ok conn) first_sent (omega arith) (omega arith) logged
