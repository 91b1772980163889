-- ===== src/Baton/Parse/Query.antt =====
-- What the parser makes of a query.
use webtransport_rs.Base.{
  ℕ, ◌≡◌, ◌∙◌, refl, ap, false, some, List, [], ◌∷◌, ◌++◌, ◌==◌, ok, All, All-append, arith,
}
use mathlib.Core.List.{map}
use webtransport_rs.HashMap
use webtransport_rs.HashMap.{HashMap, bytes_eq, bytes_beq, insert_all}
use webtransport_rs.Qpack.Text.{Bytes}
use webtransport_rs.Baton.Parse.{split, splitn_2, insert_parts, parse_query}

-- A text without the byte `sep`.
abbrev pub Lacks : ℕ → Bytes → Type 0
Lacks sep = All (λ c. (c == sep) ≡ false)

split_last : (sep : ℕ) (xs : Bytes) → Lacks sep xs → split sep xs ≡ xs ∷ []
unfolding split
split_last sep [] h = refl
split_last sep (x ∷ xs) h = rw (h.0) (rw (split_last sep xs h.1) refl)

split-append :
    (sep : ℕ) (xs ys : Bytes) → Lacks sep xs → split sep (xs ++ sep ∷ ys) ≡ xs ∷ split sep ys
unfolding split
split-append sep [] ys h = ground arith
split-append sep (x ∷ xs) ys h = rw (h.0) (rw (split-append sep xs ys h.1) refl)

splitn_2-append :
    (sep : ℕ) (xs ys : Bytes) → Lacks sep xs → splitn_2 sep (xs ++ sep ∷ ys) ≡ xs ∷ ys ∷ []
unfolding splitn_2
splitn_2-append sep [] ys h = ground arith
splitn_2-append sep (x ∷ xs) ys h = rw (h.0) (rw (splitn_2-append sep xs ys h.1) refl)

-- A pair of a query, and a query of one pair or more.
abbrev pub part_of : Bytes × Bytes → Bytes
part_of (k, v) = k ++ b'=' ∷ v

abbrev pub query_of : Bytes × Bytes → List (Bytes × Bytes) → Bytes
query_of p [] = part_of p
query_of p (q ∷ ps) = part_of p ++ b'&' ∷ query_of q ps

-- A key and a value that a query can hold.
abbrev pub Plain : Bytes × Bytes → Type 0
Plain (k, v) = Lacks b'=' k × Lacks b'&' k × Lacks b'&' v

part_of-Lacks : (p : Bytes × Bytes) → Plain p → Lacks b'&' (part_of p)
part_of-Lacks (k, v) h = All-append _ k (b'=' ∷ v) h.1 (refl, h.2)

split-query_of :
    (p : Bytes × Bytes) (ps : List (Bytes × Bytes))
    → All Plain (p ∷ ps)
    → split b'&' (query_of p ps) ≡ map part_of (p ∷ ps)
split-query_of p [] h = split_last b'&' (part_of p) (part_of-Lacks p h.0)
split-query_of p (q ∷ ps) h =
    split-append b'&' (part_of p) (query_of q ps) (part_of-Lacks p h.0)
    ∙ ap (◌∷◌ (part_of p)) (split-query_of q ps h.1)

insert_parts-map :
    (m : HashMap Bytes Bytes) (ps : List (Bytes × Bytes))
    → All Plain ps
    → insert_parts m (map part_of ps) ≡ ok (insert_all m ps)
unfolding insert_parts insert_all
insert_parts-map m [] h = refl
insert_parts-map m ((k, v) ∷ ps) h =
    rw (splitn_2-append b'=' k v h.0.0) (insert_parts-map (HashMap.insert m k v) ps h.1)

pub parse_query-query_of :
    (p : Bytes × Bytes) (ps : List (Bytes × Bytes))
    → All Plain (p ∷ ps)
    → parse_query (some (query_of p ps)) ≡ ok (insert_all [] (p ∷ ps))
unfolding parse_query
parse_query-query_of p ps h = rw (split-query_of p ps h) (insert_parts-map [] (p ∷ ps) h)
