-- ===== src/Qpack/Headers/Encode.antt =====
-- The sending side of `Headers`.
use webtransport_rs.Base.{ℕ, Option, none, some, List, [], ◌∷◌, ◌++◌, length}
use webtransport_rs.Base.Panics.{◌>>=◌}
use webtransport_rs.Qpack.Prefix.{encode_prefix}
use webtransport_rs.Qpack.Text.{Bytes}
use webtransport_rs.Qpack.StaticTable
use webtransport_rs.Qpack.Headers.{Headers}

unfoldable pub encode_index : ℕ → Option (List ℕ)
encode_index index = encode_prefix 6 0b11 index

unfoldable pub encode_literal_value : ℕ → Bytes → Option (List ℕ)
encode_literal_value name value = do
  head ← encode_prefix 4 0b0111 name
  len ← encode_prefix 7 0b0 (length value)
  some (head ++ (len ++ value))

unfoldable pub encode_literal : Bytes → Bytes → Option (List ℕ)
encode_literal name value = do
  head ← encode_prefix 3 0b00110 (length name)
  len ← encode_prefix 7 0b0 (length value)
  some (head ++ (name ++ (len ++ value)))

-- The two searches in the static table; `by_name` is what stands behind the first `else`.
by_name : Option ℕ → Bytes → Bytes → Option (List ℕ)
by_name (some index) name value = encode_literal_value index value
by_name none name value = encode_literal name value

by_pair : Option ℕ → Bytes → Bytes → Option (List ℕ)
unfolding by_name
by_pair (some index) name value = encode_index index
by_pair none name value = by_name (StaticTable.find_name name) name value

unfoldable pub encode_line : Bytes → Bytes → Option (List ℕ)
unfolding by_pair
encode_line name value = by_pair (StaticTable.find name value) name value

unfoldable pub encode_lines : List (Bytes × Bytes) → Option (List ℕ)
encode_lines [] = some []
encode_lines ((name, value) ∷ fields) = do
  line ← encode_line name value
  rest ← encode_lines fields
  some (line ++ rest)

-- `iter` is the iteration over the map, whose order the standard library leaves open.
unfoldable pub encode : (Headers → List (Bytes × Bytes)) → Headers → Option (List ℕ)
encode iter headers = do
  insert_count ← encode_prefix 8 0 0
  delta_base ← encode_prefix 7 0 0
  lines ← encode_lines (iter headers)
  some (insert_count ++ (delta_base ++ lines))
