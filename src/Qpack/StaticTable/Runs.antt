-- ===== src/Qpack/StaticTable/Runs.antt =====
-- The theorems of the static table at concrete entries.
use webtransport_rs.Base.{◌≡◌, ◌↔◌, refl, some, ok}
use webtransport_rs.Qpack.Text.{codes}
use webtransport_rs.Qpack.StaticTable.Entries.{predefined_headers}
use webtransport_rs.Qpack.StaticTable.NameArms.{find_name_arms}
use webtransport_rs.Qpack.StaticTable.{get, find, find_name}
use webtransport_rs.Qpack.StaticTable.Laws.{find-get}

get_post : get 20 ≡ ok (codes ":method", codes "POST")
unfolding get predefined_headers
get_post = refl

find_method : find_name (codes ":method") ≡ some 15
unfolding find_name find_name_arms
find_method = refl

find-get_example :
    (find (codes ":method") (codes "POST") ≡ some 20)
    ↔ (get 20 ≡ ok (codes ":method", codes "POST"))
find-get_example = find-get (codes ":method") (codes "POST") 20
