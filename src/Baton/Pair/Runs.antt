-- ===== src/Baton/Pair/Runs.antt =====
-- The two examples against each other, over the plain model of `http`.
use webtransport_rs.Base.{
  ℕ, ◌≡◌, ◌≢◌, ◌⊎◌, refl, List, [], ◌∷◌, append-nil, Option, some, Outcome, ok, panic, arith,
}
use webtransport_rs.HashMap.{nat_eq, bytes_eq}
use webtransport_rs.Qpack.Text.{Bytes, codes}
use webtransport_rs.Connect.Plain.{plain_http, plain_laws, stored, stored-Iterates}
use webtransport_rs.Quinn.Session.{Session}
use webtransport_rs.Quinn.Handshake.{Answers}
use webtransport_rs.Quinn.Handshake.Plain.{Lost, try_join, as_stored, as_stored-Iterates, accepting}
use webtransport_rs.Quinn.Handshake.Client
use webtransport_rs.Quinn.Handshake.Client.{connect_with}
use webtransport_rs.Quinn.Handshake.Server
use webtransport_rs.Quinn.Handshake.Exchange.{answers, handshake_session}
use webtransport_rs.Baton.Runs.{server, client, to_client, to_server}
use webtransport_rs.Baton.Server.{run_conn}
use webtransport_rs.Baton.Server.Runs.{uri, uri-IsRequestable, no_query}
use webtransport_rs.Baton.Client.{connected, main}
use webtransport_rs.Baton.Pair.{examples-end}

-- What the two ends send, and that both have their session.
shaken :
    (sent received req resp : List ℕ) × (v : Option Bytes × Option Bytes × Bytes) × (s : Session
      Lost)
    × (connect_with {h = plain_http} {Q = Lost} try_join as_stored stored
          (answers (λ bs. bs ∷ []) 4 received resp)
          uri
        ≡ ok s)
    × (Server.accept {h = plain_http} try_join as_stored (answers (λ bs. bs ∷ []) 4 sent req)
        ≡ ok (record { conn = answers (λ bs. bs ∷ []) 4 sent req; connect = record { uri = v } }))
    × (Server.accept_request {h = plain_http} stored (codes "200") (record {
      conn = answers {C = Lost} {R = Lost} {W = Lost} (λ bs. bs ∷ []) 4 sent req;
      connect = record { uri = v };
    })
        ≡ ok (resp, s))
    × (v.2 ≡ codes "/webtransport/devious-baton")
shaken =
    let (sent, received, req, resp, v, s, is_connected, accepted, responded, _, _, _, _, _, path) =
      handshake_session try_join (λ s. refl) (λ bs. bs ∷ []) append-nil plain_http as_stored
        as_stored as_stored-Iterates as_stored-Iterates stored stored stored-Iterates
        stored-Iterates plain_laws uri uri-IsRequestable (codes "200") accepting 4 (omega arith) in
    (sent, received, req, resp, v, s, is_connected, accepted, responded, path)

abbrev listening : Answers Lost Lost Lost
listening = answers (λ bs. bs ∷ []) 4 shaken.0 shaken.2

-- One address, of which any port answers.
abbrev host : Bytes → Bytes
host authority = codes "localhost"

abbrev port : Bytes → Option ℕ
port authority = some 4443

abbrev to_socket_addrs : Bytes → ℕ → Outcome Lost (List ℕ)
to_socket_addrs name number = ok (1 ∷ [])

abbrev dial : ℕ → Bytes → Outcome Lost (Outcome Lost (Answers Lost Lost Lost))
dial remote name = ok (ok (answers (λ bs. bs ∷ []) 4 shaken.1 shaken.3))

abbrev to_uri : Bytes → Outcome Lost (Option Bytes × Option Bytes × Bytes)
to_uri text = ok uri

is_connected :
    connected {h = plain_http} try_join as_stored stored host port to_socket_addrs dial to_uri
    ≡ ok shaken.5
unfolding connected Client.connect
is_connected = rw (shaken.6) refl

examples-end_example :
    ((run_conn {h = plain_http} try_join as_stored stored no_query
        (codes "200")
        (codes "400")
        254
        (ok listening)
        server).2
      ≢ some panic)
    × ((main {h = plain_http} try_join as_stored stored host port to_socket_addrs dial to_uri
          client).1
        ≢ some panic)
    × (((run_conn {h = plain_http} try_join as_stored stored no_query
            (codes "200")
            (codes "400")
            254
            (ok listening)
            server).2
          ≢ some (ok tt))
        ⊎ ((main {h = plain_http} try_join as_stored stored host port to_socket_addrs dial to_uri
              client).1
            ≢ some (ok tt)))
examples-end_example =
    examples-end {h = plain_http} try_join as_stored as_stored stored stored no_query (codes "200")
      (codes "400") 254 host port to_socket_addrs dial to_uri listening server client
      (record { conn = listening; connect = record { uri = shaken.4 } }) shaken.3 shaken.5 shaken.5
      (omega arith) (omega arith) is_connected shaken.7 shaken.9 refl shaken.8 to_client to_server
