-- ===== src/Baton/Parse.antt =====
-- `parse` of baton/mod.rs, and what it uses of the texts of Rust. A text is the list of its bytes.
pub mod Numbers
pub mod Query
pub mod Requests
use webtransport_rs.Base.{
  ℕ, zero, suc, ◌+◌, ◌-◌, ◌*◌, ◌^◌, Bool, true, false, ◌&&◌, Option, none, some, List, [], ◌∷◌,
  get_elem?, ltb, leb, ◌==◌, if◌then◌else◌, Outcome, ok, err, ◌>>=◌,
}
use mathlib.Core.Bool.{not}
use webtransport_rs.HashMap
use webtransport_rs.HashMap.{HashMap, bytes_eq, bytes_beq}
use webtransport_rs.Qpack.Text.{Bytes, codes}

-- What `anyhow` reports.
pub data ParseError : Type 0 where
  invalid_path : Bytes → ParseError
  no_key : ParseError
  no_value : ParseError
  failed_to_parse_version : ParseError
  invalid_version : ℕ → ParseError
  failed_to_parse_baton : ParseError
  invalid_baton : ℕ → ParseError
  failed_to_parse_count : ParseError

abbrev pub is_digit : ℕ → Bool
is_digit c = leb b'0' c && leb c b'9'

-- The digits behind the number `n`, of a type whose values are below `limit`.
unfoldable pub parse_digits : ℕ → ℕ → Bytes → Option ℕ
parse_digits limit n [] = some n
parse_digits limit n (c ∷ cs) =
    let n' = n * 10 + (c - b'0') in
    if is_digit c && ltb n' limit then parse_digits limit n' cs else none

parse_some : ℕ → Bytes → Option ℕ
unfolding parse_digits
parse_some limit [] = none
parse_some limit (c ∷ cs) = parse_digits limit 0 (c ∷ cs)

-- `str::parse` at an unsigned type: digits behind an optional plus.
unfoldable pub parse_number : ℕ → Bytes → Option ℕ
unfolding parse_some
parse_number limit [] = none
parse_number limit (c ∷ cs) = if c == b'+' then parse_some limit cs else parse_some limit (c ∷ cs)

abbrev pub in_front : ℕ → List Bytes → List Bytes
in_front c [] = (c ∷ []) ∷ []
in_front c (part ∷ parts) = (c ∷ part) ∷ parts

-- `str::split`.
unfoldable pub split : ℕ → Bytes → List Bytes
split sep [] = [] ∷ []
split sep (c ∷ cs) = let parts = split sep cs in if c == sep then [] ∷ parts else in_front c parts

-- `str::splitn(2, ..)`.
unfoldable pub splitn_2 : ℕ → Bytes → List Bytes
splitn_2 sep [] = [] ∷ []
splitn_2 sep (c ∷ cs) = if c == sep then [] ∷ cs ∷ [] else in_front c (splitn_2 sep cs)

-- `Option::context`.
abbrev pub context {ℓ} : {A : Type ℓ} → ParseError → Option A → Outcome ParseError A
context e none = err e
context e (some a) = ok a

-- The loop over the parts of the query.
unfoldable pub insert_parts :
    HashMap Bytes Bytes → List Bytes → Outcome ParseError (HashMap Bytes Bytes)
insert_parts query [] = ok query
insert_parts query (part ∷ parts) = do
  key ← context no_key (get_elem? (splitn_2 b'=' part) 0)
  value ← context no_value (get_elem? (splitn_2 b'=' part) 1)
  insert_parts (HashMap.insert query key value) parts

unfoldable pub parse_query : Option Bytes → Outcome ParseError (HashMap Bytes Bytes)
parse_query none = ok []
parse_query (some str) = insert_parts [] (split b'&' str)

unfoldable pub parse_version : Option Bytes → Outcome ParseError ℕ
parse_version none = ok 0
parse_version (some version) = context failed_to_parse_version (parse_number (2 ^ 8) version)

abbrev pub check_version : ℕ → Outcome ParseError (Unit {0})
check_version version = if version == 0 then ok tt else err (invalid_version version)

abbrev pub check_baton : ℕ → Outcome ParseError ℕ
check_baton baton = if leb 1 baton && leb baton 255 then ok baton else err (invalid_baton baton)

-- `random` is what `gen_range` draws.
unfoldable pub parse_baton : ℕ → Option Bytes → Outcome ParseError ℕ
parse_baton random none = ok random
parse_baton random (some baton) = do
  baton ← context failed_to_parse_baton (parse_number (2 ^ 8) baton)
  check_baton baton

unfoldable pub parse_count : Option Bytes → Outcome ParseError ℕ
parse_count none = ok 1
parse_count (some count) = context failed_to_parse_count (parse_number (2 ^ 16) count)

-- By the path and the query of the request's URI.
unfoldable pub parse : ℕ → Bytes → Option Bytes → Outcome ParseError (ℕ × ℕ)
parse random path query =
    if not (bytes_beq path (codes "/webtransport/devious-baton"))
    then err (invalid_path path)
    else do
      query ← parse_query query
      version ← parse_version (HashMap.get query (codes "version"))
      _ ← check_version version
      value ← parse_baton random (HashMap.get query (codes "baton"))
      count ← parse_count (HashMap.get query (codes "count"))
      ok (value, count)
