-- ===== src/HashMap.antt =====
-- `std::collections::HashMap`, as far as the crates use it: `get`, `insert`, and iteration in an
-- order that the standard library leaves open.
pub mod Laws
use webtransport_rs.Base.{
  ℕ, ◌≡◌, ◌↔◌, Bool, true, false, ◌&&◌, Option, none, some, List, [], ◌∷◌, length, ◌==◌ as nat_beq,
  ==_iff as nat_beq_iff, if◌then◌else◌, arith,
}

-- What `HashMap` asks of a key: the trait `Eq`.
pub record Key {κ} (K : Type κ) : Type κ where
  pub same : K → K → Bool
  pub same_iff : (j k : K) → (same j k ≡ true) ↔ (j ≡ k)

infix 50 ◌==◌
abbrev pub ◌==◌ {κ} : {K : Type κ} ⦃key : Key K⦄ → K → K → Bool
◌==◌ ⦃key⦄ = key.same

instance abbrev pub nat_eq : Key ℕ
nat_eq = record { same_iff = nat_beq_iff; same = nat_beq }

-- Texts are lists of bytes.
abbrev pub bytes_beq : List ℕ → List ℕ → Bool
bytes_beq [] [] = true
bytes_beq [] (y ∷ ys) = false
bytes_beq (x ∷ xs) [] = false
bytes_beq (x ∷ xs) (y ∷ ys) = nat_beq x y && bytes_beq xs ys

pub bytes_beq_iff : (a b : List ℕ) → (bytes_beq a b ≡ true) ↔ (a ≡ b)
bytes_beq_iff [] [] = ground arith
bytes_beq_iff [] (y ∷ ys) = ground arith
bytes_beq_iff (x ∷ xs) [] = ground arith
bytes_beq_iff (x ∷ xs) (y ∷ ys) = ground (arith, bytes_beq_iff xs ys)

instance abbrev pub bytes_eq : Key (List ℕ)
bytes_eq = record { same_iff = bytes_beq_iff; same = bytes_beq }

abbrev pub HashMap {ℓ κ} : Type ℓ → Type κ → Type (ℓ ⊔ κ)
HashMap K V = List (K × V)

module _ {ℓ κ} {K : Type ℓ} {V : Type κ} ⦃e : Key K⦄ where
  unfoldable pub get : HashMap K V → K → Option V
  get [] k = none
  get ((j, v) ∷ m) k = if j == k then some v else get m k

  unfoldable pub insert : HashMap K V → K → V → HashMap K V
  insert [] k v = (k, v) ∷ []
  insert ((j, w) ∷ m) k v = if j == k then (j, v) ∷ m else (j, w) ∷ insert m k v

  -- Each entry in turn, as a loop of `insert` does it.
  unfoldable pub insert_all : HashMap K V → List (K × V) → HashMap K V
  insert_all m [] = m
  insert_all m ((k, v) ∷ es) = insert_all (insert m k v) es

  -- No key twice.
  abbrev pub Distinct : List (K × V) → Type κ
  Distinct [] = Unit {κ}
  Distinct ((k, v) ∷ m) = (get m k ≡ none) × Distinct m

  -- `for (k, v) in &m` yields `order`: each entry of `m` once, in some order.
  pub record Iterates (order m : HashMap K V) : Type (ℓ ⊔ κ) where
    pub distinct : Distinct order
    pub same : (k : K) → get order k ≡ get m k
    pub count : length order ≡ length m
