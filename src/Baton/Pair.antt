-- ===== src/Baton/Pair.antt =====
-- The two examples, webtransport-quinn/examples/server.rs and client.rs, against each other: `run_conn`
-- and `main` on the request that the client makes.
mod Runs
use webtransport_rs.Base.{
  ℕ, ◌<◌, ◌≡◌, ◌≢◌, ◌⊎◌, refl, List, [], ◌∷◌, Option, none, some, Outcome, ok, err, panic, map_err,
  ap, sym, ◌∙◌, inl, inr, arith,
}
use mathlib.Core.Option
use webtransport_rs.HashMap
use webtransport_rs.VarInt.{VarInt}
use webtransport_rs.Qpack.Text.{Bytes, codes}
use webtransport_rs.Qpack.Headers.{Headers}
use webtransport_rs.Settings.{Settings}
use webtransport_rs.Settings.Ids.{Setting}
use webtransport_rs.Connect.HttpCrate.{Http}
use webtransport_rs.Quinn.Session.{Session}
use webtransport_rs.Quinn.Handshake.{Answers, Join}
use webtransport_rs.Quinn.Handshake.Server
use webtransport_rs.Quinn.Handshake.Server.{Request}
use webtransport_rs.Baton.Parse.{parse, parse_query, parse_version, parse_baton, parse_count}
use webtransport_rs.Baton.Run.{Event, run}
use webtransport_rs.Baton.Game.{Delivers}
use webtransport_rs.Baton.Ends.{ends}
use webtransport_rs.Baton.Server.{Served, run_conn, run_conn-plays}
use webtransport_rs.Baton.Client.{Ran, connected, main, main-plays}

-- Without a query the game has one baton, which is drawn.
pub parse-none :
    (random : ℕ) → parse random (codes "/webtransport/devious-baton") none ≡ ok (random, 1)
unfolding parse parse_query parse_version parse_baton parse_count HashMap.get
parse-none random = refl

-- Wrapping an error does not make or hide another result.
wrapped-ok :
    {E F A : Type 0} (f : E → F) (r : Option (Outcome E A)) (a : A)
    → Option.map (map_err f) r ≡ some (ok a)
    → r ≡ some (ok a)
wrapped-ok f none a e = cc
wrapped-ok f (some (ok b)) a e = cc
wrapped-ok f (some (err x)) a e = cc
wrapped-ok f (some panic) a e = cc

wrapped-panic :
    {E F A : Type 0} (f : E → F) (r : Option (Outcome E A))
    → Option.map (map_err f) r ≡ some panic
    → r ≡ some panic
wrapped-panic f none e = cc
wrapped-panic f (some (ok b)) e = cc
wrapped-panic f (some (err x)) e = cc
wrapped-panic f (some panic) e = refl

module _ {h : Http} {C R W Q S R' Addr X : Type 0} (try_join : Join C R W)
    (mine theirs : Settings → List (Setting × VarInt)) (iter iter' : Headers → List (Bytes × Bytes))
    (query : h.Uri → Option Bytes) (status_ok bad_request : h.StatusCode) (random : ℕ)
    (host : h.Authority → Bytes) (port : h.Authority → Option ℕ)
    (to_socket_addrs : Bytes → ℕ → Outcome X (List Addr))
    (dial : Addr → Bytes → Outcome Q (Outcome C (Answers C R W)))
    (to_uri : Bytes → Outcome h.InvalidUri h.Uri) where
  -- The two ends of the examples: what the server logs and returns, and the same of the client.
  abbrev pub served : Answers C R W → List (Event C S R') → Served h C R W S R'
  served c es = run_conn {h = h} try_join theirs iter' query status_ok bad_request random (ok c) es

  abbrev pub client : List (Event C S R') → Ran h C R W Q S R'
  client = main {h = h} try_join mine iter host port to_socket_addrs dial to_uri

  -- Where the client of the example has connected, and the server has accepted a request without a query
  -- for the path of the game and answered it, and draws a number from 1 to 255, then, if neither end of the
  -- game receives a value more often than the other has sent it or is about to, whatever happens at the two
  -- ends, neither of the two programs panics, and one of them does not return `Ok`.
  pub examples-end :
      (c : Answers C R W) (server : List (Event C S R')) (player : List (Event C S R'))
      (request : Request h C R W) (sent : List ℕ) (session session' : Session C)
      → 0 < random
      → random < 256
      → connected {h = h} try_join mine iter host port to_socket_addrs dial to_uri ≡ ok session
      → Server.accept {h = h} try_join theirs c ≡ ok request
      → h.path (Server.uri request) ≡ codes "/webtransport/devious-baton"
      → query (Server.uri request) ≡ none
      → Server.accept_request {h = h} iter' status_ok request ≡ ok (sent, session')
      → Delivers (run (some random) 1 server) (run none 1 player)
      → Delivers (run none 1 player) (run (some random) 1 server)
      → ((served c server).2 ≢ some panic)
        × ((client player).1 ≢ some panic)
        × (((served c server).2 ≢ some (ok tt)) ⊎ ((client player).1 ≢ some (ok tt)))
  examples-end c server player request sent session session' pos small is_connected accepted path
        no_query responded to_client to_server =
      let parsed : parse random (h.path (Server.uri request)) (query (Server.uri request))
          ≡ ok (random, 1) =
        rw (path, no_query) (parse-none random) in
      let served_is =
        run_conn-plays {h = h} try_join theirs iter' query status_ok bad_request random c server
          request random 1 sent session' accepted parsed responded in
      let (_, client_is) =
        main-plays {h = h} try_join mine iter host port to_socket_addrs dial to_uri player session
          is_connected in
      let (server_panics, client_panics, one) =
        ends 1 random pos small server player to_client to_server (omega arith) in
      (
        λ e. server_panics (wrapped-panic _ _ (sym (ap (λ t. t.2) served_is) ∙ e)),
        λ e. client_panics (wrapped-panic _ _ (sym (ap (λ t. t.1) client_is) ∙ e)),
        elim one [
          | inl not_ok ↦ inl (λ e. not_ok (wrapped-ok _ _ tt (sym (ap (λ t. t.2) served_is) ∙ e)))
          | inr not_ok ↦ inr (λ e. not_ok (wrapped-ok _ _ tt (sym (ap (λ t. t.1) client_is) ∙ e)))
        ],
      )
