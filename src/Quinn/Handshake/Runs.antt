-- ===== src/Quinn/Handshake/Runs.antt =====
-- The theorems of the handshake over the plain model of `http`.
use webtransport_rs.Base.{ℕ, ◌≡◌, refl, List, [], ◌∷◌, append-nil, Option, some, ok, arith}
use webtransport_rs.HashMap.{nat_eq, bytes_eq}
use webtransport_rs.Qpack.Text.{Bytes, codes, is_utf8}
use webtransport_rs.Connect.Encode.{encode_request}
use webtransport_rs.Connect.Plain.{plain_http, plain_laws, stored, stored-Iterates, chat, chat_fits}
use webtransport_rs.Quinn.SettingsStream.{open_settings}
use webtransport_rs.Quinn.Session.{Session}
use webtransport_rs.Quinn.Handshake.Plain.{Lost, try_join, as_stored, as_stored-Iterates, accepting}
use webtransport_rs.Quinn.Handshake.Client.{connect_with}
use webtransport_rs.Quinn.Handshake.Server.{accept, accept_request}
use webtransport_rs.Quinn.Handshake.Exchange.{IsRequestable, answers, handshake_session}

chat-IsRequestable : IsRequestable plain_http stored chat
unfolding is_utf8
chat-IsRequestable = record {
  scheme = codes "https";
  authority = codes "a.example";
  has_scheme = refl;
  has_authority = refl;
  https = refl;
  scheme_text = record { valid = refl; fits = omega arith };
  authority_text = record { valid = refl; fits = omega arith };
  path_text = record { valid = refl; fits = omega arith };
  fits = chat_fits;
}

handshake_session_example :
    (sent received req resp : List ℕ) × (v : Option Bytes × Option Bytes × Bytes) × (s : Session
      Lost)
    × (connect_with {h = plain_http} {Q = Unit {0}} try_join as_stored stored
          (answers (λ bs. bs ∷ []) 4 received resp)
          chat
        ≡ ok s)
    × (accept {h = plain_http} try_join as_stored (answers (λ bs. bs ∷ []) 4 sent req)
        ≡ ok (record { conn = answers (λ bs. bs ∷ []) 4 sent req; connect = record { uri = v } }))
    × (accept_request {h = plain_http} stored (codes "200") (record {
      conn = answers {C = Lost} {R = Lost} {W = Lost} (λ bs. bs ∷ []) 4 sent req;
      connect = record { uri = v };
    })
        ≡ ok (resp, s))
    × (open_settings {C = Lost} {R = Lost} {W = Lost} as_stored (ok tt) (λ _. ok tt) ≡ ok sent)
    × (open_settings {C = Lost} {R = Lost} {W = Lost} as_stored (ok tt) (λ _. ok tt) ≡ ok received)
    × (encode_request plain_http stored (record { uri = chat }) ≡ some req)
    × (v.0 ≡ some (codes "https"))
    × (v.1 ≡ some (codes "a.example"))
    × (v.2 ≡ codes "/chat")
unfolding chat-IsRequestable
handshake_session_example =
    handshake_session try_join (λ sent. refl) (λ bs. bs ∷ []) append-nil plain_http as_stored
      as_stored as_stored-Iterates as_stored-Iterates stored stored stored-Iterates stored-Iterates
      plain_laws chat chat-IsRequestable (codes "200") accepting 4 (omega arith)
