-- ===== src/Quinn/Handshake/Server.antt =====
-- webtransport-quinn/src/server.rs.
use webtransport_rs.Base.{ℕ, List, Outcome, ok, ◌>>=◌, map_err}
use webtransport_rs.VarInt.{VarInt}
use webtransport_rs.Qpack.Text.{Bytes}
use webtransport_rs.Qpack.Headers.{Headers}
use webtransport_rs.Settings.{Settings}
use webtransport_rs.Settings.Ids.{Setting}
use webtransport_rs.Connect.{ConnectRequest}
use webtransport_rs.Connect.HttpCrate.{Http}
use webtransport_rs.Quinn.SettingsStream.{SettingsError}
use webtransport_rs.Quinn.ConnectStream
use webtransport_rs.Quinn.ConnectStream.{ConnectError, respond}
use webtransport_rs.Quinn.Session
use webtransport_rs.Quinn.Session.{Session}
use webtransport_rs.Quinn.Handshake.{Answers, Join, connect_settings}
use webtransport_rs.Quinn.Handshake.Client.{unwrap}

module _ (h : Http) (C R W : Type 0) where
  pub data ServerError : Type 0 where
    unexpected_end : ServerError
    connection : C → ServerError
    write_error : W → ServerError
    read_error : R → ServerError
    settings_error : SettingsError C R W → ServerError
    connect_error : ConnectError h C R W → ServerError

  -- The settings, which are only kept open, are left out.
  pub record Request : Type 0 where
    pub conn : Answers C R W
    pub connect : ConnectRequest h

module _ {h : Http} {C R W : Type 0} where
  unfoldable pub accept :
      Join C R W
      → (Settings → List (Setting × VarInt))
      → Answers C R W
      → Outcome (ServerError h C R W) (Request h C R W)
  accept try_join iter_settings conn = do
    settings ← map_err settings_error (connect_settings try_join iter_settings conn)
    connect ← map_err connect_error (ConnectStream.accept conn.connect_recv)
    ok (record { conn = conn; connect = connect })

  abbrev pub uri : Request h C R W → h.Uri
  uri r = r.connect.uri

  -- `Request::ok`, where `status_ok` is `StatusCode::OK`: the bytes of the response, and the session.
  unfoldable pub accept_request :
      (Headers → List (Bytes × Bytes))
      → h.StatusCode
      → Request h C R W
      → Outcome W (List ℕ × Session C)
  accept_request iter status_ok r = do
    sent ← respond h iter status_ok r.conn.connect_write
    session ← unwrap (Session.new r.conn.stream_id)
    ok (sent, session)

  -- `Request::close`: the bytes of the response.
  unfoldable pub close :
      (Headers → List (Bytes × Bytes)) → h.StatusCode → Request h C R W → Outcome W (List ℕ)
  close iter status r = respond h iter status r.conn.connect_write
