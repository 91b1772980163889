-- ===== src/Quinn/Session/Awaited.antt =====
-- The fuel of the calls that wait for a poll to be ready is enough.
use webtransport_rs.Base.{
  ℕ, zero, suc, ◌-◌, ◌≤◌, ◌≡◌, ◌≢◌, refl, Option, none, Option-cases, List, [], ◌∷◌, length, arith,
  inl, inr, ◌⊎◌,
}
use webtransport_rs.Quinn.Accept.{Turn, round_uni, round_bi, poll_accept_uni, poll_accept_bi}
use webtransport_rs.Quinn.Accept.Polling.{
  Poll, Poll-cases, poll_rounds, poll_rounds-again, poll_rounds-answer,
}
use webtransport_rs.Quinn.Session.{Session}
use webtransport_rs.Quinn.Session.Calls.{awaited, accept_uni, accept_bi}

module _ {ℓ κ μ} {T : Type ℓ} {S : Type κ} {A : Type μ} where
  -- A poll goes one turn further at least.
  abbrev Consumes : (List T → S → Poll A × S × List T) → Type (ℓ ⊔ κ)
  Consumes poll = (ts : List T) (s : S) → length (poll ts s).2 ≤ length ts - 1

  poll_rounds-Consumes : (round : T → S → Option (Poll A) × S) → Consumes (poll_rounds round)
  unfolding poll_rounds
  poll_rounds-Consumes round [] s = omega arith
  poll_rounds-Consumes round (t ∷ ts) s = elim (Option-cases (round t s).0) [
    | inl e ↦
        rw (poll_rounds-again round t ts s e)
          (omega (arith, poll_rounds-Consumes round ts (round t s).1))
    | inr (answer, e) ↦ rw (poll_rounds-answer round t ts s answer e) (omega arith)
  ]

  awaited-left :
      (poll : List T → S → Poll A × S × List T)
      → Consumes poll
      → (n : ℕ) (ts : List T) (s : S) → length ts ≤ n
      → (awaited poll n ts s).0 ≡ none
      → (awaited poll n ts s).2 ≡ []
  unfolding awaited
  awaited-left poll goes zero [] s h waits = refl
  awaited-left poll goes zero (t ∷ ts) s h waits = absurd (omega arith)
  awaited-left poll goes (suc n) ts s h waits =
      let (answer, s', ts') = poll ts s in
      let shorter = goes ts s in
      elim (Poll-cases (poll ts s).0) [
        | inl e ↦ ground (arith, e, awaited-left poll goes n ts' s' (omega arith))
        | inr (a, e) ↦ ground (arith, e)
      ]

  awaited-returns :
      (round : T → S → Option (Poll A) × S) (ts : List T) (s : S)
      → ((awaited (poll_rounds round) (length ts) ts s).0 ≢ none)
        ⊎ ((awaited (poll_rounds round) (length ts) ts s).2 ≡ [])
  awaited-returns round ts s =
      elim (Option-cases (awaited (poll_rounds round) (length ts) ts s).0) [
        | inl e ↦ inr (
            awaited-left (poll_rounds round) (poll_rounds-Consumes round) (length ts) ts s
              (omega arith) e)
        | inr (a, e) ↦ inl (λ waits. cc (e, waits))
      ]

-- A call of `accept_uni` or `accept_bi` that still waits has gone through all the turns: it returns
-- unless nothing more happens.
pub accept-waits :
    {C : Type 0} (ts : List (Turn C)) (s : Session C)
    → (((accept_uni ts s).0 ≢ none) ⊎ ((accept_uni ts s).2 ≡ []))
      × (((accept_bi ts s).0 ≢ none) ⊎ ((accept_bi ts s).2 ≡ []))
unfolding accept_uni accept_bi poll_accept_uni poll_accept_bi
accept-waits ts s = (awaited-returns round_uni ts s.accept, awaited-returns round_bi ts s.accept)
