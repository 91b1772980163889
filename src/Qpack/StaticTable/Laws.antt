-- ===== src/Qpack/StaticTable/Laws.antt =====
-- The two searches of the static table against the table itself.
use webtransport_rs.Base.{
  ℕ, zero, suc, ◌+◌, ◌≤◌, ◌<◌, length, ◌≡◌, ◌↔◌, refl, Bool, true, false, ◌&&◌, Option, none, some,
  List, [], ◌∷◌, get_elem?, ok, ◌==◌, leb, arith,
}
use webtransport_rs.HashMap.{bytes_beq, bytes_beq_iff}
use webtransport_rs.Qpack.Text.{Bytes}
use webtransport_rs.Qpack.StaticTable.Entries.{predefined_headers}
use webtransport_rs.Qpack.StaticTable.FindArms.{find_arms}
use webtransport_rs.Qpack.StaticTable.NameArms.{find_name_arms}
use webtransport_rs.Qpack.StaticTable.{get, find, find_name, first_pair, first_name}

abbrev Entry : Type 0
Entry = Option (Bytes × Bytes)

-- Checks of single entries, as tests that evaluation decides.
holds_pair : Entry → Bytes → Bytes → Bool
holds_pair none n v = false
holds_pair (some (m, w)) n v = bytes_beq m n && bytes_beq w v

holds_pair-eq : (o : Entry) (n v : Bytes) → holds_pair o n v ≡ true → o ≡ some (n, v)
unfolding holds_pair
holds_pair-eq none n v h = cc
holds_pair-eq (some (m, w)) n v h = ground (arith, bytes_beq_iff m n, bytes_beq_iff w v)

arms_hold : List ((Bytes × Bytes) × ℕ) → Bool
arms_hold [] = true
arms_hold (((n, v), i) ∷ arms) = holds_pair (get_elem? predefined_headers i) n v && arms_hold arms

find_arms_hold : arms_hold find_arms ≡ true
unfolding arms_hold holds_pair find_arms predefined_headers
find_arms_hold = refl

first_pair-holds :
    (arms : List ((Bytes × Bytes) × ℕ)) (name value : Bytes) (i : ℕ)
    → arms_hold arms ≡ true
    → first_pair name value arms ≡ some i
    → get_elem? predefined_headers i ≡ some (name, value)
unfolding arms_hold first_pair
first_pair-holds [] name value i h e = cc
first_pair-holds (((n, v), j) ∷ arms) name value i h e = ground (
  arith,
  bytes_beq_iff name n,
  bytes_beq_iff value v,
  holds_pair-eq (get_elem? predefined_headers j) n v,
  first_pair-holds arms name value i,
)

-- The entry at `k` is found at `k`, and its name at `k` or before.
found_at : ℕ → Option ℕ → Bool
found_at k none = false
found_at k (some i) = i == k

found_by : ℕ → Option ℕ → Bool
found_by k none = false
found_by k (some i) = leb i k

entries_found : ℕ → List (Bytes × Bytes) → Bool
entries_found k [] = true
entries_found k ((n, v) ∷ es) =
    found_at k (find n v) && found_by k (find_name n) && entries_found (suc k) es

table_found : entries_found 0 predefined_headers ≡ true
unfolding entries_found found_at found_by find find_name find_arms find_name_arms predefined_headers
table_found = refl

found_at-eq : (k : ℕ) (o : Option ℕ) → found_at k o ≡ true → o ≡ some k
unfolding found_at
found_at-eq k none h = cc
found_at-eq k (some i) h = ground arith

found_by-le : (k : ℕ) (o : Option ℕ) → found_by k o ≡ true → (i : ℕ) × (o ≡ some i) × (i ≤ k)
unfolding found_by
found_by-le k none h = absurd (cc)
found_by-le k (some i) h = (i, refl, ground arith)

entries_found-at :
    (es : List (Bytes × Bytes)) (k i j : ℕ) (n v : Bytes)
    → entries_found k es ≡ true
    → get_elem? es i ≡ some (n, v)
    → k + i ≡ j
    → (found_at j (find n v) ≡ true) × (found_by j (find_name n) ≡ true)
unfolding entries_found
entries_found-at [] k i j n v h e q = cc
entries_found-at ((m, w) ∷ es) k zero j n v h e q = let same : k ≡ j = omega arith in ground arith
entries_found-at ((m, w) ∷ es) k (suc i) j n v h e q =
    ground (arith, entries_found-at es (suc k) i j n v)

get-entry :
    (i : ℕ) (n v : Bytes) → (get i ≡ ok (n, v)) ↔ (get_elem? predefined_headers i ≡ some (n, v))
unfolding get
get-entry i n v = ground arith

-- `find` returns the index of the entry with the name and the value, exactly when the table has it.
pub find-get :
    (name value : Bytes) (i : ℕ) → (find name value ≡ some i) ↔ (get i ≡ ok (name, value))
find-get name value i = (
  λ e.
      (get-entry i name value).1
        (first_pair-holds find_arms name value i find_arms_hold (unfold find in e)),
  λ e.
      found_at-eq i (find name value)
        (entries_found-at predefined_headers 0 i i name value table_found
          ((get-entry i name value).0 e) (omega arith)).0,
)

holds_name : Entry → Bytes → Bool
holds_name none n = false
holds_name (some (m, w)) n = bytes_beq m n

holds_name-eq : (o : Entry) (n : Bytes) → holds_name o n ≡ true → (v : Bytes) × (o ≡ some (n, v))
unfolding holds_name
holds_name-eq none n h = absurd (cc)
holds_name-eq (some (m, w)) n h = (w, ground (arith, bytes_beq_iff m n))

names_hold : List (Bytes × ℕ) → Bool
names_hold [] = true
names_hold ((n, i) ∷ arms) = holds_name (get_elem? predefined_headers i) n && names_hold arms

find_name_arms_hold : names_hold find_name_arms ≡ true
unfolding names_hold holds_name find_name_arms predefined_headers
find_name_arms_hold = refl

first_name-holds :
    (arms : List (Bytes × ℕ)) (name : Bytes) (i : ℕ)
    → names_hold arms ≡ true
    → first_name name arms ≡ some i
    → holds_name (get_elem? predefined_headers i) name ≡ true
unfolding names_hold first_name
first_name-holds [] name i h e = cc
first_name-holds ((n, j) ∷ arms) name i h e =
    ground (arith, bytes_beq_iff name n, first_name-holds arms name i)

-- `find_name` returns the index of an entry with the name.
pub find_name-get :
    (name : Bytes) (i : ℕ) → find_name name ≡ some i → (v : Bytes) × (get i ≡ ok (name, v))
find_name-get name i e =
    let held = first_name-holds find_name_arms name i find_name_arms_hold (unfold find_name in e) in
    let (v, at) = holds_name-eq (get_elem? predefined_headers i) name held in
    (v, (get-entry i name v).1 at)

-- No entry with a name stands before the one that `find_name` returns for it.
pub find_name_first :
    (name v : Bytes) (i : ℕ) → get i ≡ ok (name, v) → (j : ℕ) × (find_name name ≡ some j) × (j ≤ i)
find_name_first name v i e =
    found_by-le i (find_name name)
      (entries_found-at predefined_headers 0 i i name v table_found ((get-entry i name v).0 e)
        (omega arith)).1

get_elem?-lt :
    (es : List (Bytes × Bytes)) (i : ℕ) (p : Bytes × Bytes)
    → get_elem? es i ≡ some p
    → i < length es
get_elem?-lt [] i p e = absurd (cc)
get_elem?-lt (x ∷ es) zero p e = omega arith
get_elem?-lt (x ∷ es) (suc i) p e = omega (arith, get_elem?-lt es i p e)

length-predefined_headers : length predefined_headers ≡ 99
unfolding predefined_headers
length-predefined_headers = refl

-- The table has 99 entries.
pub get-lt : (i : ℕ) (n v : Bytes) → get i ≡ ok (n, v) → i < 99
get-lt i n v e = omega (
  arith,
  get_elem?-lt predefined_headers i (n, v) ((get-entry i n v).0 e),
  length-predefined_headers,
)
