-- ===== src/Qpack/StaticTable.antt =====
-- `StaticTable` of qpack.rs.
pub mod Entries
pub mod FindArms
pub mod NameArms
pub mod Laws
mod Runs
use webtransport_rs.Base.{
  ℕ, Option, none, some, List, [], ◌∷◌, get_elem?, if◌then◌else◌, Outcome, ok, err, ◌&&◌,
}
use webtransport_rs.HashMap.{bytes_beq}
use webtransport_rs.Qpack.Error.{DecodeError, unknown_entry}
use webtransport_rs.Qpack.Text.{Bytes}
use Entries.{predefined_headers}
use FindArms.{find_arms}
use NameArms.{find_name_arms}

-- `get` of the slice, and the match on its answer.
entry_or_unknown : Option (Bytes × Bytes) → Outcome DecodeError (Bytes × Bytes)
entry_or_unknown none = err unknown_entry
entry_or_unknown (some v) = ok v

unfoldable pub get : ℕ → Outcome DecodeError (Bytes × Bytes)
unfolding entry_or_unknown
get index = entry_or_unknown (get_elem? predefined_headers index)

-- A match on texts takes the first arm that fits.
first_pair : Bytes → Bytes → List ((Bytes × Bytes) × ℕ) → Option ℕ
first_pair name value [] = none
first_pair name value (((n, v), i) ∷ arms) =
    if bytes_beq name n && bytes_beq value v then some i else first_pair name value arms

first_name : Bytes → List (Bytes × ℕ) → Option ℕ
first_name name [] = none
first_name name ((n, i) ∷ arms) = if bytes_beq name n then some i else first_name name arms

unfoldable pub find : Bytes → Bytes → Option ℕ
unfolding first_pair
find name value = first_pair name value find_arms

unfoldable pub find_name : Bytes → Option ℕ
unfolding first_name
find_name name = first_name name find_name_arms
