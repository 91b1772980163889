-- ===== src/Baton/Server.antt =====
-- `run_conn` of webtransport-quinn/examples/server.rs: a connection that is to play the game.
pub mod Runs
use webtransport_rs.Base.{
  ℕ, ◌+◌, ◌^◌, ◌<◌, ◌≡◌, refl, List, [], ◌∷◌, ◌++◌, Option, none, some, Outcome, ok, err, panic,
  map_err, map_err-eq-ok, ◌∙◌, ap, Outcome-cases, inl, inr, arith,
}
use mathlib.Core.Option
use mathlib.Core.List
use webtransport_rs.Base.Counting.{sum}
use webtransport_rs.VarInt.{VarInt}
use webtransport_rs.Qpack.Text.{Bytes, codes}
use webtransport_rs.Qpack.Headers.{Headers}
use webtransport_rs.Settings.{Settings}
use webtransport_rs.Settings.Ids.{Setting}
use webtransport_rs.Connect.HttpCrate.{Http}
use webtransport_rs.Quinn.Handshake.{Answers, Join}
use webtransport_rs.Quinn.Session.{Session}
use webtransport_rs.Quinn.Handshake.Server
use webtransport_rs.Quinn.Handshake.Server.{ServerError, Request}
use webtransport_rs.Baton
use webtransport_rs.Baton.Parse.{ParseError, parse}
use webtransport_rs.Baton.Parse.Requests.{parse-InRange}
use webtransport_rs.Baton.Run.{Event, Log, Trace, run}

-- The lines that are logged; those of the game among them.
pub data Line (h : Http) (S R' : Type 0) : Type 0 where
  received_connection : Line h S R'
  established : Line h S R'
  received_request : h.Uri → Line h S R'
  invalid_request_line : ParseError → Line h S R'
  accepted_session : Line h S R'
  game_line : Log S R' → Line h S R'
  finished : Line h S R'

module _ {h : Http} {C S R' : Type 0} where
  -- The last line, behind a game that returned `Ok`.
  unfoldable pub last_line : Option (Outcome (Baton.Error C) (Unit {0})) → List (Line h S R')
  last_line none = []
  last_line (some (ok a)) = finished ∷ []
  last_line (some (err e)) = []
  last_line (some panic) = []

  -- What a game adds, by what it comes to.
  unfoldable pub game_lines : Trace C S R' → List (Line h S R')
  unfolding last_line
  game_lines (log, result, last) = List.map game_line log ++ last_line result

module _ {h : Http} {S R' : Type 0} where
  -- The lines that are logged behind the response.
  abbrev pub in_session : Line h S R' → ℕ
  in_session received_connection = 0
  in_session established = 0
  in_session (received_request uri) = 0
  in_session (invalid_request_line e) = 0
  in_session accepted_session = 1
  in_session (game_line line) = 1
  in_session finished = 1

-- A line that does not count, in front.
uncounted : {n : ℕ} → 0 < 0 + n → 0 < n
uncounted more = omega arith

module _ (h : Http) (C R W : Type 0) where
  -- What `anyhow` wraps.
  pub data ConnError : Type 0 where
    failed_to_accept_connection : C → ConnError
    server_error : ServerError h C R W → ConnError
    invalid_request : ParseError → ConnError
    write_error : W → ConnError
    failed_to_accept_session : W → ConnError
    game : Baton.Error C → ConnError

  -- The bytes of the response, what is logged, and the result, or `none` where the game still waits.
  abbrev pub Served : Type 0 → Type 0 → Type 0
  Served S R' = List ℕ × List (Line h S R') × Option (Outcome ConnError (Unit {0}))

module _ {h : Http} {C R W S R' : Type 0} where
  -- `log::info!`, before what follows.
  says : Line h S R' → Served h C R W S R' → Served h C R W S R'
  says line (sent, log, result) = (sent, line ∷ log, result)

  -- A call that fails before a response is written.
  fails {ℓ} :
      {A : Type ℓ} → (A → Served h C R W S R') → Outcome (ConnError h C R W) A → Served h C R W S R'
  fails next (ok a) = next a
  fails next (err e) = ([], [], some (err e))
  fails next panic = ([], [], some panic)

  -- How many of them there are.
  abbrev pub session_lines : Served h C R W S R' → ℕ
  session_lines served = sum in_session served.1

  fails-session {ℓ} :
      {A : Type ℓ} (next : A → Served h C R W S R') (r : Outcome (ConnError h C R W) A)
      → 0 < session_lines (fails next r)
      → (a : A) × (r ≡ ok a) × (0 < session_lines (next a)) × (fails next r ≡ next a)
  unfolding fails
  fails-session next (ok a) h = (a, refl, h, refl)
  fails-session next (err e) h = absurd (omega arith)
  fails-session next panic h = absurd (omega arith)

module _ {h : Http} {C R W S R' : Type 0} (try_join : Join C R W)
    (iter_settings : Settings → List (Setting × VarInt)) (iter : Headers → List (Bytes × Bytes))
    (query : h.Uri → Option Bytes) (status_ok bad_request : h.StatusCode) (random : ℕ) where
  -- `random` is what the parser draws; `es` is what happens in the game.
  play : Request h C R W → ℕ × ℕ → List (Event C S R') → Served h C R W S R'
  play request (initial, count) es =
      fails
        (λ (sent, session).
          let game_run = run (some initial) count es in
          (sent, accepted_session ∷ game_lines game_run, Option.map (map_err game) game_run.1))
        (map_err failed_to_accept_session (Server.accept_request iter status_ok request))

  reject : Request h C R W → ParseError → Served h C R W S R'
  reject request e = says (invalid_request_line e) (
      fails (λ sent. (sent, [], some (err (invalid_request e))))
        (map_err write_error (Server.close iter bad_request request)))

  -- By the answer of the parser.
  answer : Request h C R W → List (Event C S R') → Outcome ParseError (ℕ × ℕ) → Served h C R W S R'
  answer request es (ok chosen) = play request chosen es
  answer request es (err e) = reject request e
  answer request es panic = ([], [], some panic)

  serve : Request h C R W → List (Event C S R') → Served h C R W S R'
  serve request es =
      says (received_request (Server.uri request)) (
        answer request es (parse random (h.path (Server.uri request)) (query (Server.uri request))))

  unfoldable pub run_conn : Outcome C (Answers C R W) → List (Event C S R') → Served h C R W S R'
  unfolding serve answer play reject fails says
  run_conn conn es = says received_connection (
      fails
        (λ conn. says established (
          fails (λ request. serve request es)
            (map_err server_error (Server.accept try_join iter_settings conn))))
        (map_err failed_to_accept_connection conn))

  answer-session :
      (request : Request h C R W) (es : List (Event C S R')) (r : Outcome ParseError (ℕ × ℕ))
      → 0 < session_lines (answer request es r)
      → (chosen : ℕ × ℕ) × (r ≡ ok chosen)
        × (0 < session_lines (play request chosen es))
        × (answer request es r ≡ play request chosen es)
  unfolding answer reject says fails
  answer-session request es (ok chosen) more = (chosen, refl, more, refl)
  answer-session request es (err e) more =
      absurd (elim (Outcome-cases (Server.close iter bad_request request)) [
        | inl (sent, is) ↦ omega (arith, rw is at more)
        | inr (inl (x, is)) ↦ omega (arith, rw is at more)
        | inr (inr is) ↦ omega (arith, rw is at more)
      ])
  answer-session request es panic more = absurd (omega arith)

  -- All that `run_conn` does where it plays: `sent` is the response.
  abbrev pub played : Request h C R W → List ℕ → ℕ → ℕ → List (Event C S R') → Served h C R W S R'
  played request sent v n es = (
    sent,
    received_connection
        ∷ established
        ∷ received_request (Server.uri request)
        ∷ accepted_session
        ∷ game_lines (run (some v) n es),
    Option.map (map_err game) (run (some v) n es).1,
  )

  -- Where the calls of the library succeed and the parser takes the request, `run_conn` plays the game.
  pub run_conn-plays :
      (c : Answers C R W) (es : List (Event C S R')) (request : Request h C R W) (v n : ℕ)
      (sent : List ℕ) (session : Session C)
      → Server.accept try_join iter_settings c ≡ ok request
      → parse random (h.path (Server.uri request)) (query (Server.uri request)) ≡ ok (v, n)
      → Server.accept_request iter status_ok request ≡ ok (sent, session)
      → run_conn (ok c) es ≡ played request sent v n es
  unfolding run_conn
  run_conn-plays c es request v n sent session accepted parsed responded =
      rw accepted (rw parsed (rw responded refl))

  -- Where `run_conn` logs that it has accepted the session, a line of the game, or that the game is
  -- finished, the client's request has been accepted, its path is that of the game, the parser has taken a
  -- baton from 1 to 255 and a u16 from it, or a number drawn from 1 to 255, the response with the status
  -- 200 has been written, and all that it logs, and its result, are those of a game with these numbers.
  pub run_conn-session :
      (conn : Outcome C (Answers C R W)) (es : List (Event C S R'))
      → 0 < random
      → random < 256
      → 0 < session_lines (run_conn conn es)
      → (c : Answers C R W) × (request : Request h C R W) × (v : ℕ) × (n : ℕ) × (conn ≡ ok c)
        × (Server.accept try_join iter_settings c ≡ ok request)
        × (h.path (Server.uri request) ≡ codes "/webtransport/devious-baton")
        × (0 < v)
        × (v < 256)
        × (n < 2 ^ 16)
        × (sent : List ℕ) × (session : Session C) × (Server.accept_request iter status_ok request
            ≡ ok (sent, session))
        × (run_conn conn es ≡ played request sent v n es)
  unfolding run_conn
  run_conn-session conn es pos small more =
      let (c, connected, more, _) = fails-session _ _ (uncounted more) in
      let (request, accepted, more, _) = fails-session _ _ (uncounted more) in
      let (chosen, parsed, more, _) = answer-session request es _ (uncounted more) in
      let ((sent, session), responded, _, _) = fails-session _ _ more in
      let (positive, byte, count, path) =
        parse-InRange random _ _ chosen.0 chosen.1 pos small parsed in
      let connected = map_err-eq-ok _ _ connected in
      let accepted = map_err-eq-ok _ _ accepted in
      let responded = map_err-eq-ok _ _ responded in
      (
        c,
        request,
        chosen.0,
        chosen.1,
        connected,
        accepted,
        path,
        positive,
        byte,
        count,
        sent,
        session,
        responded,
        ap (λ conn. run_conn conn es) connected
            ∙ run_conn-plays c es request chosen.0 chosen.1 sent session accepted parsed responded,
      )
