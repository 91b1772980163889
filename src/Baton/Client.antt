-- ===== src/Baton/Client.antt =====
-- `main` of webtransport-quinn/examples/client.rs, behind the set-up of the endpoint: a client that connects
-- and plays the game.
use webtransport_rs.Base.{
  ℕ, List, [], ◌∷◌, ◌++◌, Option, none, some, Outcome, ok, err, panic, map_err, ◌>>=◌, >>=-ok, ◌≡◌,
  ap, ◌∙◌,
}
use mathlib.Core.Option
use mathlib.Core.List
use webtransport_rs.VarInt.{VarInt}
use webtransport_rs.Qpack.Text.{Bytes, codes}
use webtransport_rs.Qpack.Headers.{Headers}
use webtransport_rs.Settings.{Settings}
use webtransport_rs.Settings.Ids.{Setting}
use webtransport_rs.Connect.HttpCrate.{Http}
use webtransport_rs.Quinn.Session.{Session}
use webtransport_rs.Quinn.Handshake.{Answers, Join}
use webtransport_rs.Quinn.Handshake.Client
use webtransport_rs.Quinn.Handshake.Client.{ClientError}
use webtransport_rs.Baton
use webtransport_rs.Baton.Run.{Event, Log, run}

-- What `anyhow` wraps.
pub data MainError (h : Http) (C R W Q : Type 0) : Type 0 where
  failed_to_parse_uri : h.InvalidUri → MainError h C R W Q
  client_error : ClientError h C R W Q → MainError h C R W Q
  game : Baton.Error C → MainError h C R W Q

-- The lines that are logged; those of the game among them.
pub data Line (h : Http) (S R' : Type 0) : Type 0 where
  connecting : h.Uri → Line h S R'
  game_line : Log S R' → Line h S R'
  finished : Line h S R'

-- What is logged, and the result, or `none` where the game still waits.
abbrev pub Ran : (h : Http) → Type 0 → Type 0 → Type 0 → Type 0 → Type 0 → Type 0 → Type 0
Ran h C R W Q S R' = List (Line h S R') × Option (Outcome (MainError h C R W Q) (Unit {0}))

-- The last line, behind a game that returned `Ok`.
unfoldable pub last_line :
    {h : Http} {C S R' : Type 0} → Option (Outcome (Baton.Error C) (Unit {0})) → List (Line h S R')
last_line none = []
last_line (some (ok a)) = finished ∷ []
last_line (some (err e)) = []
last_line (some panic) = []

after_connect :
    {h : Http} {C R W Q S R' : Type 0}
    → Outcome (MainError h C R W Q) (Session C)
    → List (Event C S R')
    → Ran h C R W Q S R'
unfolding last_line
after_connect (ok session) es =
    let (log, result, last) = run none 1 es in
    (List.map game_line log ++ last_line result, Option.map (map_err game) result)
after_connect (err e) es = ([], some (err e))
after_connect panic es = ([], some panic)

-- `log::info!`, before what follows.
announce : {h : Http} {C R W Q S R' : Type 0} → h.Uri → Ran h C R W Q S R' → Ran h C R W Q S R'
announce uri (log, result) = (connecting uri ∷ log, result)

after_parse :
    {h : Http} {C R W Q S R' : Type 0}
    → (h.Uri → Outcome (MainError h C R W Q) (Session C))
    → Outcome (MainError h C R W Q) h.Uri
    → List (Event C S R')
    → Ran h C R W Q S R'
unfolding announce after_connect
after_parse connect_to (ok uri) es = announce uri (after_connect (connect_to uri) es)
after_parse connect_to (err e) es = ([], some (err e))
after_parse connect_to panic es = ([], some panic)

module _ {h : Http} {C R W Q Addr X : Type 0} (try_join : Join C R W)
    (iter_settings : Settings → List (Setting × VarInt)) (iter : Headers → List (Bytes × Bytes))
    (host : h.Authority → Bytes) (port : h.Authority → Option ℕ)
    (to_socket_addrs : Bytes → ℕ → Outcome X (List Addr))
    (dial : Addr → Bytes → Outcome Q (Outcome C (Answers C R W)))
    (to_uri : Bytes → Outcome h.InvalidUri h.Uri) where
  -- `to_uri` is the `TryFrom` of the crate http.
  parsed : Outcome (MainError h C R W Q) h.Uri
  parsed =
      map_err failed_to_parse_uri
        (to_uri (codes "https://localhost:4443/webtransport/devious-baton"))

  connect_to : h.Uri → Outcome (MainError h C R W Q) (Session C)
  connect_to uri =
      map_err client_error
        (Client.connect try_join iter_settings iter host port to_socket_addrs dial uri)

  -- What is done before the game.
  unfoldable pub connected : Outcome (MainError h C R W Q) (Session C)
  unfolding parsed connect_to
  connected = do uri ← parsed; connect_to uri

  pub main : {S R' : Type 0} → List (Event C S R') → Ran h C R W Q S R'
  main es = after_parse connect_to parsed es

  plays_from :
      {S R' : Type 0} (es : List (Event C S R')) (session : Session C) (uri : h.Uri)
      → parsed ≡ ok uri
      → connect_to uri ≡ ok session
      → main es ≡ (
        connecting uri ∷ List.map game_line (run none 1 es).0 ++ last_line (run none 1 es).1,
        Option.map (map_err game) (run none 1 es).1,
      )
  unfolding main after_parse announce after_connect
  plays_from es session uri is_parsed ready =
      ap (λ u. after_parse connect_to u es) is_parsed
      ∙ ap (λ c. announce uri (after_connect c es)) ready

  -- A client that has connected plays with one baton and starts none.
  pub main-plays :
      {S R' : Type 0} (es : List (Event C S R')) (session : Session C)
      → connected ≡ ok session
      → (uri : h.Uri) × (main es ≡ (
        connecting uri ∷ List.map game_line (run none 1 es).0 ++ last_line (run none 1 es).1,
        Option.map (map_err game) (run none 1 es).1,
      ))
  unfolding connected
  main-plays es session is_connected =
      let (uri, is_parsed, ready) = >>=-ok _ parsed is_connected in
      (uri, plays_from es session uri is_parsed ready)
