-- ===== src/Baton/Loop.antt =====
-- What the loop of one end keeps: what one round keeps, all the rounds keep.
use webtransport_rs.Base.{
  ℕ, ◌+◌, ◌≡◌, refl, List, [], ◌∷◌, Bool-cases, Option, none, some, Outcome, ok, err, panic, inl,
  inr, ◌⊎◌, arith, false,
}
use webtransport_rs.Base.Counting.{sum, sum_append}
use webtransport_rs.Baton.{Error}
use webtransport_rs.Baton.Run.{Run, Event, Log, goes_on, select, after, rounds, Trace}
use webtransport_rs.Baton.Kept.Rounds.{select-keeps}
use webtransport_rs.Baton.Kept.{RoundKeeps, sent_of, received_of, passed_of, waiting, underflow}

-- The result of the loop, as the number of underflows.
abbrev pub underflows : {C : Type 0} → Option (Outcome (Error C) (Unit {0})) → ℕ
underflows none = 0
underflows (some r) = underflow r

module _ {C S R : Type 0} where
  pub record TraceKeeps (s : Run S R) (t : Trace C S R) : Type 0 where
    pub batons : (v : ℕ) → sum (sent_of v) t.0 + waiting v t.2 ≡ waiting v s + sum (passed_of v) t.0
    pub zeros : t.2.count + sum (received_of 0) t.0 ≡ s.count + underflows t.1
    pub drained : (underflows t.1 ≡ 0) ⊎ (t.2.count ≡ 0)

  after-keeps :
      (s : Run S R) (log : List (Log S R)) (next : Outcome (Error C) (Run S R))
      (later : Run S R → Trace C S R)
      → RoundKeeps s log next
      → ((s' : Run S R) → TraceKeeps s' (later s'))
      → TraceKeeps s (after s log next later)
  unfolding after
  after-keeps s log (ok s') later k rest = record {
    batons = λ v.
        let more = (rest s').batons v in
        let first = k.batons v in
        rw (sum_append (sent_of v) log (later s').0)
          (rw (sum_append (passed_of v) log (later s').0) (omega arith));
    zeros =
        let more = (rest s').zeros in
        let first = k.zeros in rw (sum_append (received_of 0) log (later s').0) (omega arith);
    drained = (rest s').drained;
  }
  after-keeps s log (err e) later k rest = record {
    batons = k.batons;
    zeros = k.zeros;
    drained = k.drained;
  }
  after-keeps s log panic later k rest = record {
    batons = k.batons;
    zeros = k.zeros;
    drained = k.drained;
  }

  stopped-keeps :
      (s : Run S R) (r : Option (Outcome (Error C) (Unit {0})))
      → underflows r ≡ 0
      → TraceKeeps s ([], r, s)
  stopped-keeps s r e = record { batons = λ v. omega arith; zeros = omega arith; drained = inl e }

  pub rounds-keeps : (es : List (Event C S R)) (s : Run S R) → TraceKeeps s (rounds es s)
  unfolding rounds
  rounds-keeps [] s = elim (Bool-cases (goes_on s)) [
    | inl more ↦ rw more (stopped-keeps s none refl)
    | inr done ↦ rw done (stopped-keeps s (some (ok tt)) refl)
  ]
  rounds-keeps (e ∷ es) s = elim (Bool-cases (goes_on s)) [
    | inl more ↦ rw more (after-keeps s _ _ (rounds es) (select-keeps e s) (rounds-keeps es))
    | inr done ↦ rw done (stopped-keeps s (some (ok tt)) refl)
  ]

  after-ok :
      (s : Run S R) (log : List (Log S R)) (next : Outcome (Error C) (Run S R))
      (later : Run S R → Trace C S R)
      → ((s' : Run S R) → (later s').1 ≡ some (ok tt) → goes_on (later s').2 ≡ false)
      → (after s log next later).1 ≡ some (ok tt)
      → goes_on (after s log next later).2 ≡ false
  unfolding after
  after-ok s log (ok s') later rest h = rest s' h
  after-ok s log (err e) later rest h = cc
  after-ok s log panic later rest h = cc

  -- The loop ends with `Ok` only where its condition fails.
  pub rounds-ok :
      (es : List (Event C S R)) (s : Run S R)
      → (rounds es s).1 ≡ some (ok tt)
      → goes_on (rounds es s).2 ≡ false
  unfolding rounds
  rounds-ok [] s h = elim (Bool-cases (goes_on s)) [
    | inl more ↦ absurd (ground (arith, h, more))
    | inr done ↦ done
  ]
  rounds-ok (e ∷ es) s h = elim (Bool-cases (goes_on s)) [
    | inl more ↦
        rw more (after-ok s (select e s).0 (select e s).1 (rounds es) (rounds-ok es) (rw more at h))
    | inr done ↦ rw done done
  ]
