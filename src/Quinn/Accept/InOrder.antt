-- ===== src/Quinn/Accept/InOrder.antt =====
-- A loop whose pending members complete in order: `At xs s` says that `xs` are those pending in `s`, and
-- `owe x` puts what is owed for a member in front of what is owed for the others.
use webtransport_rs.Base.{
  ℕ, zero, suc, ◌<◌, ◌≡◌, refl, ap, Option, none, some, List, [], ◌∷◌, length, inl, inr, ◌⊎◌, arith,
}
use webtransport_rs.Quinn.Accept.Polling.{
  Poll, ready, polls, polls-poll, polls-answer, poll_rounds, poll_rounds-again, poll_rounds-answer,
}

module _ {ℓ κ μ} {T : Type ℓ} {S : Type κ} {A : Type μ} (round : T → S → Option (Poll A) × S) where
  polls-nothing : (n : ℕ) (s : S) → polls (poll_rounds round) n [] s ≡ ([], s, [])
  unfolding polls poll_rounds
  polls-nothing zero s = refl
  polls-nothing (suc n) s = rw (polls-nothing n s) refl

abbrev pub one_each {ℓ κ} : {T : Type ℓ} {X : Type κ} → T → List X → List T
one_each first [] = []
one_each first (x ∷ xs) = first ∷ one_each first xs

module _ {ℓ κ} {A : Type ℓ} {X : Type κ} (owe : X → List A → List A) where
  abbrev pub all_of : List X → List A
  all_of [] = []
  all_of (x ∷ xs) = owe x (all_of xs)

  -- What a round does with the first of those pending.
  abbrev pub Finishes : X → Option (Poll A) → Type ℓ
  Finishes x answer =
      ((answer ≡ none) × ((more : List A) → owe x more ≡ more))
      ⊎ ((a : A) × (answer ≡ some (ready a)) × ((more : List A) → owe x more ≡ a ∷ more))

module _ {ℓ κ μ ν} {T : Type ℓ} {S : Type κ} {A : Type μ} {X : Type ν}
    (round : T → S → Option (Poll A) × S) (first : T) (At : List X → S → Type 0)
    (owe : X → List A → List A)
    (finishes : (x : X) (xs : List X) (s : S)
      → At (x ∷ xs) s
      → At xs (round first s).1 × Finishes owe x (round first s).0) where
  pub polls-one_each :
      (n : ℕ) (xs : List X) (s : S)
      → At xs s
      → length xs < n
      → ((polls (poll_rounds round) n (one_each first xs) s).0 ≡ all_of owe xs)
        × At [] (polls (poll_rounds round) n (one_each first xs) s).1
  polls-one_each n [] s at h = rw (polls-nothing round n s) (refl, at)
  polls-one_each zero (x ∷ xs) s at h = absurd (omega arith)
  polls-one_each (suc n) (x ∷ xs) s at h =
      let (at', found) = finishes x xs s at in
      let s' = (round first s).1 in
      elim found [
        | inl (again, none_owed) ↦
            rw
              (
                polls-poll (poll_rounds round) n (one_each first (x ∷ xs)) (one_each first xs) s s'
                    (poll_rounds-again round first (one_each first xs) s again),
                none_owed (all_of owe xs),
              )
              (polls-one_each (suc n) xs s' at' (omega arith))
        | inr (a, e, is_owed) ↦
            rw
              (
                polls-answer (poll_rounds round) n (one_each first (x ∷ xs)) (one_each first xs) s
                    s' (ready a) (poll_rounds-answer round first (one_each first xs) s (ready a) e),
                is_owed (all_of owe xs),
              )
              (
                ap (λ later. a ∷ later) (polls-one_each n xs s' at' (omega arith)).0,
                (polls-one_each n xs s' at' (omega arith)).1,
              )
      ]
