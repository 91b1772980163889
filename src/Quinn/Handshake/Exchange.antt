-- ===== src/Quinn/Handshake/Exchange.antt =====
-- A client and a server of this library: both come to the same session.
use webtransport_rs.Base.{
  ℕ, ◌^◌, ◌<◌, ◌≡◌, ◌∙◌, refl, sym, true, some, List, [], ◌++◌, append-nil, length, ok, arith,
}
use webtransport_rs.HashMap.{nat_eq, bytes_eq, Distinct, Iterates}
use webtransport_rs.VarInt.{VarInt, IsVarInt}
use webtransport_rs.Qpack.Text.{Bytes}
use webtransport_rs.Qpack.Text.RoundTrip.{IsText}
use webtransport_rs.Qpack.Headers.{Headers}
use webtransport_rs.Qpack.Headers.Encode
use webtransport_rs.Settings.{Settings}
use webtransport_rs.Settings.Ids.{Setting}
use webtransport_rs.Connect.{decode_request, decode_response}
use webtransport_rs.Connect.HttpCrate.{Http}
use webtransport_rs.Connect.Encode.{
  request_headers, response_headers, encode_request, encode_response,
}
use webtransport_rs.Connect.RoundTrip.{HttpLaws, decode-encode_request}
use webtransport_rs.Connect.ResponseTrip.{decode-encode_response}
use webtransport_rs.Quinn.Reading.{chunks, joined}
use webtransport_rs.Quinn.SettingsStream.{open_settings}
use webtransport_rs.Quinn.SettingsStream.Exchange.{open_settings_lem, settings_exchange}
use webtransport_rs.Quinn.ConnectStream
use webtransport_rs.Quinn.ConnectStream.{open_connect, respond}
use webtransport_rs.Quinn.ConnectStream.Exchange.{accept-chunks_connect, open_connect-chunks}
use webtransport_rs.Quinn.Accept
use webtransport_rs.Quinn.Session.{Session}
use webtransport_rs.Quinn.Session.Peers.{new_lem}
use webtransport_rs.Quinn.Handshake.{Answers, Join, connect_settings}
use webtransport_rs.Quinn.Handshake.Client.{connect_with}
use webtransport_rs.Quinn.Handshake.Server.{accept, accept_request}

-- What the codec of the CONNECT request needs of a URI: absolute, https, of texts, and small.
pub record IsRequestable (h : Http) (iter : Headers → List (Bytes × Bytes)) (u : h.Uri)
    : Type 0 where
  pub scheme : h.Scheme
  pub authority : h.Authority
  pub has_scheme : h.scheme u ≡ some scheme
  pub has_authority : h.authority u ≡ some authority
  pub https : h.is_https scheme ≡ true
  pub scheme_text : IsText (h.scheme_as_str scheme)
  pub authority_text : IsText (h.authority_as_str authority)
  pub path_text : IsText (h.path u)
  pub fits :
      (tmp : List ℕ)
      → Encode.encode iter (request_headers h (record { uri = u })) ≡ some tmp
      → length tmp < 2 ^ 32

-- What the codec of the response needs of the status 200.
pub record IsAccepting (h : Http) (iter : Headers → List (Bytes × Bytes)) (status : h.StatusCode)
    : Type 0 where
  pub trip : h.to_status (h.status_as_str status) ≡ ok status
  pub success : h.is_success status ≡ true
  pub is_ok : h.is_ok status ≡ true
  pub text : IsText (h.status_as_str status)
  pub fits :
      (tmp : List ℕ)
      → Encode.encode iter (response_headers h (record { status = status })) ≡ some tmp
      → length tmp < 2 ^ 32

-- All calls of quinn succeed, and these bytes arrive, cut into chunks by `cut`.
abbrev pub answers :
    {C R W : Type 0} → (List ℕ → List (List ℕ)) → ℕ → List ℕ → List ℕ → Answers C R W
answers cut id settings connect = record {
  settings_opened = ok tt;
  settings_write = λ bs. ok tt;
  settings_recv = ok (chunks (cut settings));
  connect_write = λ bs. ok tt;
  connect_recv = ok (chunks (cut connect));
  stream_id = id;
}

module _ {C R W : Type 0} (try_join : Join C R W)
    (joins : (sent : List ℕ) → try_join (ok sent) (ok tt) ≡ ok (sent, tt))
    (cut : List ℕ → List (List ℕ)) (cuts : (bs : List ℕ) → joined (cut bs) ≡ bs) where
  connect_settings-ok :
      (mine theirs : Settings → List (Setting × VarInt)) (sent received bs : List ℕ) (id : ℕ)
      → ((s : Settings) → Distinct s → Iterates (theirs s) s)
      → open_settings {C = C} {R = R} {W = W} mine (ok tt) (λ _. ok tt) ≡ ok sent
      → open_settings {C = C} {R = R} {W = W} theirs (ok tt) (λ _. ok tt) ≡ ok received
      → connect_settings try_join mine (answers cut id received bs) ≡ ok (sent, tt)
  unfolding connect_settings
  connect_settings-ok mine theirs sent received bs id iterates e e' =
      let arrives =
        settings_exchange {C = C} {R = R} {W = W} theirs iterates received [] (cut received) [] e'
          (cuts received ∙ sym (append-nil received)) in
      let whole = rw (append-nil (chunks {R = R} (cut received))) at arrives in
      rw (e, whole) (joins sent)

  module _ (h : Http) (mine theirs : Settings → List (Setting × VarInt))
      (mine_iterates : (s : Settings) → Distinct s → Iterates (mine s) s)
      (theirs_iterates : (s : Settings) → Distinct s → Iterates (theirs s) s)
      (iter iter' : Headers → List (Bytes × Bytes))
      (iterates : (m : Headers) → Distinct m → Iterates (iter m) m)
      (iterates' : (m : Headers) → Distinct m → Iterates (iter' m) m) (laws : HttpLaws h) where
    accept-request :
        (req : List ℕ) (v : h.Uri)
        → decode_request h (req ++ []) ≡ ok (record { uri = v }, [])
        → ConnectStream.accept {h = h} {C = C} {R = R} {W = W} (ok (chunks (cut req)))
          ≡ ok (record { uri = v })
    accept-request req v e =
        accept-chunks_connect (cut req) ∙ rw (cuts req, rw (append-nil req) at e) refl

    open-response :
        (u : h.Uri) (status : h.StatusCode) (req resp : List ℕ)
        → encode_request h iter (record { uri = u }) ≡ some req
        → decode_response h (resp ++ []) ≡ ok (record { status = status }, [])
        → h.is_ok status ≡ true
        → open_connect {h = h} {C = C} {R = R} {W = W} iter (ok (chunks (cut resp))) (λ _. ok tt) u
          ≡ ok (record { uri = u })
    open-response u status req resp written e good =
        open_connect-chunks iter u req (cut resp) written
        ∙ rw (cuts resp, rw (append-nil resp) at e, good) refl

    respond-written :
        (status : h.StatusCode) (resp : List ℕ)
        → encode_response h iter' (record { status = status }) ≡ some resp
        → respond h {W = W} iter' status (λ _. ok tt) ≡ ok resp
    unfolding respond
    respond-written status resp e = ground (arith, e)

    -- Where the calls of quinn succeed, each end receives what the other writes, cut into chunks in
    -- any way, and the ID of the CONNECT stream, of less than 2 ^ 62, is the same at both ends: a
    -- client that connects to an absolute https URI of texts, and a server that accepts it with 200,
    -- come to the same session, and the server sees a URI of the same scheme, authority and path. It
    -- holds in any iteration order of the maps, if the encoded headers of the two messages take less
    -- than 2 ^ 32 bytes.
    pub handshake_session :
        (u : h.Uri) (request : IsRequestable h iter u) (status : h.StatusCode)
        → IsAccepting h iter' status
        → (id : VarInt) → IsVarInt id
        → (sent received req resp : List ℕ) × (v : h.Uri) × (s : Session C) × (connect_with {h = h}
              {Q = Unit {0}} try_join mine iter
              (answers cut id received resp)
              u
            ≡ ok s)
          × (accept {h = h} try_join theirs (answers cut id sent req)
              ≡ ok (record { conn = answers cut id sent req; connect = record { uri = v } }))
          × (accept_request {h = h} iter' status (record {
            conn = answers {C = C} {R = R} {W = W} cut id sent req;
            connect = record { uri = v };
          })
              ≡ ok (resp, s))
          × (open_settings {C = C} {R = R} {W = W} mine (ok tt) (λ _. ok tt) ≡ ok sent)
          × (open_settings {C = C} {R = R} {W = W} theirs (ok tt) (λ _. ok tt) ≡ ok received)
          × (encode_request h iter (record { uri = u }) ≡ some req)
          × (h.scheme v ≡ some request.scheme)
          × (h.authority v ≡ some request.authority)
          × (h.path v ≡ h.path u)
    unfolding connect_with accept accept_request
    handshake_session u request status reply id small =
        let (sent, es) = open_settings_lem {C = C} {R = R} {W = W} mine mine_iterates in
        let (received, er) = open_settings_lem {C = C} {R = R} {W = W} theirs theirs_iterates in
        let (req, v, written, read, sv, av, pv) =
          decode-encode_request h laws iter iterates u request.scheme request.authority []
            request.has_scheme request.has_authority request.https request.scheme_text
            request.authority_text request.path_text request.fits in
        let (resp, answered, told) =
          decode-encode_response h iter' iterates' status [] reply.trip reply.success reply.text
            reply.fits in
        let (uni, bi, made, _, _) = new_lem {C = C} id small in
        let client = connect_settings-ok mine theirs sent received resp id theirs_iterates es er in
        let server = connect_settings-ok theirs mine received sent req id mine_iterates er es in
        (
          sent,
          received,
          req,
          resp,
          v,
          record { accept = Accept.new id; header_uni = uni; header_bi = bi },
          rw (client, open-response u status req resp written told reply.is_ok, made) refl,
          rw (server, accept-request req v read) refl,
          rw (respond-written status resp answered, made) refl,
          es,
          er,
          written,
          sv,
          av,
          pv,
        )
