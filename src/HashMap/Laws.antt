-- ===== src/HashMap/Laws.antt =====
-- What clients of the map rely on.
use webtransport_rs.Base.{
  sym, Bool-cases, inl, inr, ◌+◌, ◌≤◌, All, length, ◌≡◌, refl, ◌∙◌, true, Option, none, some, [],
  ◌∷◌, if◌then◌else◌, arith,
}
use webtransport_rs.HashMap.{HashMap, Key, ◌==◌, get, insert, insert_all, Distinct, Iterates}

-- The first answer, or else the second.
abbrev pub or_else {ℓ} : {A : Type ℓ} → Option A → Option A → Option A
or_else (some a) o = some a
or_else none o = o

pub beq_refl {ℓ} : {K : Type ℓ} ⦃e : Key K⦄ (k : K) → (k == k) ≡ true
beq_refl ⦃e⦄ k = (e.same_iff k k).1 refl

or_else-none {ℓ} : {A : Type ℓ} (o : Option A) → or_else o none ≡ o
or_else-none none = refl
or_else-none (some a) = refl

module _ {ℓ κ} {K : Type ℓ} {V : Type κ} ⦃e : Key K⦄ where
  pub get-insert :
      (m : HashMap K V) (k j : K) (v : V)
      → get (insert m k v) j ≡ (if k == j then some v else get m j)
  unfolding get insert
  get-insert [] k j v = refl
  get-insert ((i, w) ∷ m) k j v =
      ground (arith, e.same_iff k j, e.same_iff i k, e.same_iff i j, get-insert m k j v)

  pub get-insert_self : (m : HashMap K V) (k : K) (v : V) → get (insert m k v) k ≡ some v
  get-insert_self m k v = get-insert m k k v ∙ rw (beq_refl k)

  pub insert-Distinct : (m : HashMap K V) (k : K) (v : V) → Distinct m → Distinct (insert m k v)
  unfolding insert
  insert-Distinct [] k v d = unfold get in (refl, tt)
  insert-Distinct ((i, w) ∷ m) k v d =
      ground (arith, get-insert m k i v, e.same_iff i k, e.same_iff k i, insert-Distinct m k v d.1)

  -- The last write wins, and there is one write for each key.
  pub get-insert_all :
      (es m : HashMap K V) (j : K)
      → Distinct es
      → get (insert_all m es) j ≡ or_else (get es j) (get m j)
  unfolding insert_all get
  get-insert_all [] m j d = refl
  get-insert_all ((k, v) ∷ es) m j d =
      ground (arith, get-insert_all es (insert m k v) j d.1, get-insert m k j v, e.same_iff k j)

  pub insert_all-Distinct : (es m : HashMap K V) → Distinct m → Distinct (insert_all m es)
  unfolding insert_all
  insert_all-Distinct [] m d = d
  insert_all-Distinct ((k, v) ∷ es) m d =
      insert_all-Distinct es (insert m k v) (insert-Distinct m k v d)

  get_nil : (k : K) → get {V = V} [] k ≡ none
  unfolding get
  get_nil k = refl

  -- Writing the entries of a map into an empty one, in any order of iteration, copies it.
  pub get-insert_all_copy :
      {order m : HashMap K V} (k : K) → Iterates order m → get (insert_all [] order) k ≡ get m k
  get-insert_all_copy {order} {m} k it = ground (
    arith,
    get-insert_all order [] k it.distinct,
    get_nil k,
    or_else-none (get order k),
    it.same k,
  )

  get_head : (k : K) (v : V) (m : HashMap K V) → get ((k, v) ∷ m) k ≡ some v
  unfolding get
  get_head k v m = rw (beq_refl k)

  -- What holds of each entry that `get` finds holds of each entry of the list.
  pub All-get {μ} :
      (P : K × V → Type μ) (es : HashMap K V)
      → Distinct es
      → ((k : K) (v : V) → get es k ≡ some v → P (k, v))
      → All P es
  All-get P [] d h = tt
  All-get P ((k, v) ∷ es) d h =
      (h k v (get_head k v es), All-get P es d.1 (λ j w found. h j w (skip j w found)))
    where
      skip : (j : K) (w : V) → get es j ≡ some w → get ((k, v) ∷ es) j ≡ some w
      skip j w found = unfold get in ground (arith, d.0, found, e.same_iff k j)

  pub length-insert : (m : HashMap K V) (k : K) (v : V) → length (insert m k v) ≤ length m + 1
  unfolding insert
  length-insert [] k v = omega arith
  length-insert ((j, w) ∷ m) k v = ground (arith, length-insert m k v)

  -- What holds of each entry of the list holds of each entry that `get` finds.
  pub get-All {μ} :
      (P : K × V → Type μ) (es : HashMap K V) (k : K) (v : V)
      → All P es
      → get es k ≡ some v
      → P (k, v)
  unfolding get
  get-All P [] k v h found = absurd (cc)
  get-All P ((j, w) ∷ es) k v h found = elim (Bool-cases (j == k)) [
    | inl here ↦
        let key = (e.same_iff j k).0 here in
        let value : w ≡ v = ground (arith, here) in rw (sym key, sym value) h.0
    | inr elsewhere ↦ get-All P es k v h.1 (ground (arith, elsewhere))
  ]
