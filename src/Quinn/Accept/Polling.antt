-- ===== src/Quinn/Accept/Polling.antt =====
-- A loop that goes round until it has an answer, and calls of it one after the other.
use webtransport_rs.Base.{
  ℕ, zero, suc, ◌+◌, ◌≡◌, refl, Option, none, some, List, [], ◌∷◌, arith, Option-cases, inl, inr,
  ◌⊎◌,
}
use webtransport_rs.Base.Counting.{sum}

pub data Poll {ℓ} (A : Type ℓ) : Type ℓ where
  ready : A → Poll A
  pending : Poll A

pub Poll-cases {ℓ} : {A : Type ℓ} (p : Poll A) → (p ≡ pending) ⊎ ((a : A) × (p ≡ ready a))
Poll-cases (ready a) = inr (a, refl)
Poll-cases pending = inl refl

abbrev pub of_poll {ℓ} : {A : Type ℓ} → (A → ℕ) → Poll A → ℕ
of_poll f (ready a) = f a
of_poll f pending = 0

abbrev pub of_option {ℓ} : {A : Type ℓ} → (A → ℕ) → Option (Poll A) → ℕ
of_option f none = 0
of_option f (some p) = of_poll f p

-- What a poll returned, in front of what later ones return.
abbrev pub collect {ℓ} : {A : Type ℓ} → Poll A → List A → List A
collect (ready a) more = a ∷ more
collect pending more = more

sum-collect {ℓ} :
    {A : Type ℓ} (f : A → ℕ) (p : Poll A) (more : List A)
    → sum f (collect p more) ≡ of_poll f p + sum f more
sum-collect f (ready a) more = omega arith
sum-collect f pending more = omega arith

module _ {ℓ κ μ} {T : Type ℓ} {S : Type κ} {A : Type μ} where
  -- When nothing more happens, the loop has nothing to return.
  unfoldable pub poll_rounds : (T → S → Option (Poll A) × S) → List T → S → Poll A × S × List T
  poll_rounds round [] s = (pending, s, [])
  poll_rounds round (t ∷ ts) s =
      let again = poll_rounds round ts (round t s).1 in
      elim (round t s).0 [ none ↦ again | some answer ↦ (answer, (round t s).1, ts) ]

  -- The answers of `n` polls, the state behind them, and the turns that are still to come.
  unfoldable pub polls : (List T → S → Poll A × S × List T) → ℕ → List T → S → List A × S × List T
  polls poll zero ts s = ([], s, ts)
  polls poll (suc n) ts s =
      let (answer, s', ts') = poll ts s in
      let (more, s'', ts'') = polls poll n ts' s' in (collect answer more, s'', ts'')

  pub poll_rounds-again :
      (round : T → S → Option (Poll A) × S) (t : T) (ts : List T) (s : S)
      → (round t s).0 ≡ none
      → poll_rounds round (t ∷ ts) s ≡ poll_rounds round ts (round t s).1
  unfolding poll_rounds
  poll_rounds-again round t ts s e = ground (arith, e)

  pub poll_rounds-answer :
      (round : T → S → Option (Poll A) × S) (t : T) (ts : List T) (s : S) (answer : Poll A)
      → (round t s).0 ≡ some answer
      → poll_rounds round (t ∷ ts) s ≡ (answer, (round t s).1, ts)
  unfolding poll_rounds
  poll_rounds-answer round t ts s answer e = ground (arith, e)

  -- Polls go on from where a poll led.
  pub polls-poll :
      (poll : List T → S → Poll A × S × List T) (n : ℕ) (ts ts' : List T) (s s' : S)
      → poll ts s ≡ poll ts' s'
      → polls poll (suc n) ts s ≡ polls poll (suc n) ts' s'
  unfolding polls
  polls-poll poll n ts ts' s s' e = rw e refl

  pub polls-answer :
      (poll : List T → S → Poll A × S × List T) (n : ℕ) (ts ts' : List T) (s s' : S)
      (answer : Poll A)
      → poll ts s ≡ (answer, s', ts')
      → polls poll (suc n) ts s
        ≡ (collect answer (polls poll n ts' s').0, (polls poll n ts' s').1, (polls poll n ts' s').2)
  unfolding polls
  polls-answer poll n ts ts' s s' answer e = rw e refl

  -- A quantity that each round keeps, in a state of `P`, polls keep.
  module _ {ν} (P : S → Type ν) (of_answer : A → ℕ) (of_turn : T → ℕ) (of_state : S → ℕ) where
    abbrev pub RoundKeeps : (T → S → Option (Poll A) × S) → Type (ℓ ⊔ κ ⊔ ν)
    RoundKeeps round =
        (t : T) (s : S)
        → P s
        → P (round t s).1
          × (of_option of_answer (round t s).0 + of_state (round t s).1 ≡ of_turn t + of_state s)

    abbrev pub PollKeeps : (List T → S → Poll A × S × List T) → Type (ℓ ⊔ κ ⊔ ν)
    PollKeeps poll =
        (ts : List T) (s : S)
        → P s
        → P (poll ts s).1
          × (of_poll of_answer (poll ts s).0 + of_state (poll ts s).1 + sum of_turn (poll ts s).2
              ≡ sum of_turn ts + of_state s)

    pub poll_rounds-kept :
        (round : T → S → Option (Poll A) × S) → RoundKeeps round → PollKeeps (poll_rounds round)
    unfolding poll_rounds
    poll_rounds-kept round kept [] s p = (p, omega arith)
    poll_rounds-kept round kept (t ∷ ts) s p =
        let (p', same) = kept t s p in
        let (p'', later) = poll_rounds-kept round kept ts (round t s).1 p' in
        elim (Option-cases (round t s).0) [
          | inl e ↦ rw (poll_rounds-again round t ts s e) (p'', ground (arith, e))
          | inr (answer, e) ↦ rw (poll_rounds-answer round t ts s answer e) (p', ground (arith, e))
        ]

    pub polls-kept :
        (poll : List T → S → Poll A × S × List T)
        → PollKeeps poll
        → (n : ℕ) (ts : List T) (s : S) → P s
        → P (polls poll n ts s).1
          × (sum of_answer (polls poll n ts s).0
                + of_state (polls poll n ts s).1
                + sum of_turn (polls poll n ts s).2
              ≡ sum of_turn ts + of_state s)
    unfolding polls
    polls-kept poll kept zero ts s p = (p, omega arith)
    polls-kept poll kept (suc n) ts s p =
        let (answer, s', ts') = poll ts s in
        let (p', same) = kept ts s p in
        let (p'', later) = polls-kept poll kept n ts' s' p' in
        (p'', rw (sum-collect of_answer answer (polls poll n ts' s').0) (omega arith))
