-- ===== src/Baton/Parse/Requests.antt =====
-- What the parser makes of a whole request.
use webtransport_rs.Base.{
  ℕ, ◌^◌, ◌<◌, ◌≡◌, ◌≢◌, Bool-cases, Option, none, some, inl, inr, List, [], ◌∷◌, >>=-ok, ◌∙◌,
  Outcome, ok, ◌>>=◌, All, arith,
}
use webtransport_rs.HashMap
use webtransport_rs.HashMap.{HashMap, bytes_eq, bytes_beq, bytes_beq_iff, insert_all}
use webtransport_rs.Qpack.Text.{Bytes, codes}
use webtransport_rs.Baton.Parse.{
  ParseError, parse_query, parse_version, check_version, parse_baton, parse_count, parse,
}
use webtransport_rs.Baton.Parse.Numbers.{value, IsDigit, parse_number-value, parse_number-lt}
use webtransport_rs.Baton.Parse.Query.{Plain, query_of, parse_query-query_of}

parse_baton-InRange :
    (random : ℕ) (text : Option Bytes) (v : ℕ)
    → 0 < random
    → random < 256
    → parse_baton random text ≡ ok v
    → (0 < v) × (v < 256)
unfolding parse_baton
parse_baton-InRange random none v pos small e = ground (arith, e)
parse_baton-InRange random (some text) v pos small e = ground (arith, e)

parse_count-InRange : (text : Option Bytes) (n : ℕ) → parse_count text ≡ ok n → n < 2 ^ 16
unfolding parse_count
parse_count-InRange none n e = ground (arith, e)
parse_count-InRange (some text) n e =
    ground (arith, e, parse_number-lt (2 ^ 16) text n (omega arith))

-- Behind the path: the texts that the two numbers were read from.
abbrev chosen : ℕ → Option Bytes → Outcome ParseError (ℕ × ℕ)
chosen random query = do
  query ← parse_query query
  version ← parse_version (HashMap.get query (codes "version"))
  _ ← check_version version
  value ← parse_baton random (HashMap.get query (codes "baton"))
  count ← parse_count (HashMap.get query (codes "count"))
  ok (value, count)

chosen-of :
    (random : ℕ) (query : Option Bytes) (v n : ℕ)
    → chosen random query ≡ ok (v, n)
    → (baton : Option Bytes) × (count : Option Bytes) × (parse_baton random baton ≡ ok v)
      × (parse_count count ≡ ok n)
chosen-of random query v n e =
    let (map, _, e) = >>=-ok _ (parse_query query) e in
    let (version, _, e) = >>=-ok _ (parse_version (HashMap.get map (codes "version"))) e in
    let (_, _, e) = >>=-ok _ (check_version version) e in
    let (value, is_value, e) = >>=-ok _ (parse_baton random (HashMap.get map (codes "baton"))) e in
    let (count, is_count, e) = >>=-ok _ (parse_count (HashMap.get map (codes "count"))) e in
    (
      HashMap.get map (codes "baton"),
      HashMap.get map (codes "count"),
      is_value ∙ ground (arith, e),
      is_count ∙ ground (arith, e),
    )

-- Whatever the path, the query and the number drawn, from 1 to 255, the baton that the parser returns is
-- from 1 to 255, its count is a u16, and the path is that of the game.
pub parse-InRange :
    (random : ℕ) (path : Bytes) (query : Option Bytes) (v n : ℕ)
    → 0 < random
    → random < 256
    → parse random path query ≡ ok (v, n)
    → (0 < v) × (v < 256) × (n < 2 ^ 16) × (path ≡ codes "/webtransport/devious-baton")
unfolding parse
parse-InRange random path query v n pos small e =
    elim (Bool-cases (bytes_beq path (codes "/webtransport/devious-baton"))) [
      | inl right ↦
          let (value, count, read, counted) = chosen-of random query v n (rw right at e) in
          ground (
            arith,
            parse_baton-InRange random _ v pos small read,
            parse_count-InRange _ n counted,
            bytes_beq_iff path (codes "/webtransport/devious-baton"),
          )
      | inr wrong ↦ absurd (cc (rw wrong at e))
    ]

-- A query of any pairs of a key and a value that it can hold, in any order, whose last values for
-- "version", "baton" and "count" are digits that stand for 0, for a baton from 1 to 255 and for a u16, is
-- read as that baton and that count.
pub parse-query_of :
    (random : ℕ) (p : Bytes × Bytes) (ps : List (Bytes × Bytes)) (version baton count : Bytes)
    → All Plain (p ∷ ps)
    → HashMap.get (insert_all [] (p ∷ ps)) (codes "version") ≡ some version
    → HashMap.get (insert_all [] (p ∷ ps)) (codes "baton") ≡ some baton
    → HashMap.get (insert_all [] (p ∷ ps)) (codes "count") ≡ some count
    → (version ≢ []) × All IsDigit version × (value version ≡ 0)
    → (baton ≢ []) × All IsDigit baton × (0 < value baton) × (value baton < 256)
    → (count ≢ []) × All IsDigit count × (value count < 2 ^ 16)
    → parse random (codes "/webtransport/devious-baton") (some (query_of p ps))
      ≡ ok (value baton, value count)
unfolding parse parse_version parse_baton parse_count
parse-query_of random p ps version baton count plain at_version at_baton at_count hv hb hc =
    let v = parse_number-value (2 ^ 8) version hv.0 hv.1 (omega arith) in
    let b = parse_number-value (2 ^ 8) baton hb.0 hb.1 (omega arith) in
    let c = parse_number-value (2 ^ 16) count hc.0 hc.1 (omega arith) in
    rw (parse_query-query_of p ps plain)
      (rw at_version (rw at_baton (rw at_count (rw v (rw b (rw c (ground arith)))))))
