-- ===== src/Baton/Kept/Rounds.antt =====
-- That each round of `run` keeps the batons and the count.
use webtransport_rs.Base.{
  ℕ, ◌+◌, ◌%◌, ◌≡◌, ◌≢◌, refl, List, [], ◌∷◌, ◌==◌, some, Option-cases, Outcome, ok, err, panic,
  ◌>>=◌, map_err, inl, inr, arith,
}
use webtransport_rs.Base.Counting.{remove_at, sum, sum_append, sum-remove_at}
use webtransport_rs.Baton.{Error, session, Inbound, Outbound, Answers, send_baton}
use webtransport_rs.Baton.Run.{
  Run, Sending, send_uni, send_bi, send_reply, Event, sent, received, accepted_uni, accepted_bi,
  refused, closed, Log, send_task, receive_task, join, on_sent, on_received, reply, pass, select,
  select,
}
use webtransport_rs.Baton.Kept.{RoundKeeps, baton_of, one_if, offers, waiting, passed_of, behind}

reply-offers :
    {S : Type 0} (v : ℕ) (source : Inbound S) (b : ℕ) → offers v (reply source b) ≡ one_if (b == v)
unfolding reply
reply-offers v Inbound.uni b = refl
reply-offers v Inbound.local_bi b = refl
reply-offers v (Inbound.remote_bi send) b = refl

received-batons :
    (C : Type 0) {S R : Type 0} (v : ℕ) (s : Run S R) (left : List (R × Inbound S)) (b : ℕ)
    (source : Inbound S)
    → waiting v (behind s (pass {C = C} (record s { inbound = left }) b source))
      ≡ waiting v s + (passed_of {R = R} v (Log.received b source) + 0)
unfolding pass
received-batons C v s left b source =
    let offered = reply-offers v source ((b + 1) % 256) in
    let added = sum_append (offers v) s.outbound (reply source ((b + 1) % 256) ∷ []) in
    ground (arith, offered, added)

-- A task that succeeds has sent its baton, and `join_next` does not panic.
abbrev Sends : {C R : Type 0} → ℕ → Outcome (Error C) (ℕ × Outbound R) → Type 0
Sends b (ok (baton, source)) = baton ≡ b
Sends b (err e) = Unit {0}
Sends b panic = ⊥

join-Sends_then :
    {C R A : Type 0} (b : ℕ) (m : Outcome (Error C) A) (f : A → Outcome (Error C) (ℕ × Outbound R))
    → ((a : A) → Sends b (join (f a)))
    → Sends b (join (m >>= f))
unfolding join
join-Sends_then b (ok a) f next = next a
join-Sends_then b (err e) f next = tt
join-Sends_then b panic f next = tt

join-ne-panic {ℓ} : {C : Type 0} {A : Type ℓ} (r : Outcome (Error C) A) → join r ≢ panic
unfolding join
join-ne-panic (ok a) = λ e. cc
join-ne-panic (err e) = λ e'. cc
join-ne-panic panic = λ e. cc

module _ {C S R : Type 0} where
  join-Sends :
      (a : Answers C S R) (task : Sending S) → Sends (baton_of task) (join (send_task a task))
  unfolding join send_task
  join-Sends a (send_uni b) =
      join-Sends_then b (map_err session a.open_uni) _
        (λ send. join-Sends_then b (send_baton a send b) _ (λ _. refl))
  join-Sends a (send_bi b) =
      join-Sends_then b (map_err session a.open_bi) _
        (λ (send, recv). join-Sends_then b (send_baton a send b) _ (λ _. refl))
  join-Sends a (send_reply s b) = join-Sends_then b (send_baton a s b) _ (λ _. refl)

  on_sent-keeps :
      (s : Run S R) (task : Sending S) (left : List (Sending S))
      (r : Outcome (Error C) (ℕ × Outbound R))
      → ((v : ℕ) → offers v task + sum (offers v) left ≡ waiting v s)
      → Sends (baton_of task) r
      → RoundKeeps s
          (on_sent (record s { outbound = left }) r).0
          (on_sent (record s { outbound = left }) r).1
  unfolding on_sent
  on_sent-keeps s task left (ok (b, Outbound.uni)) same h = record {
    batons = λ v. ground (arith, same v);
    zeros = omega arith;
    drained = inl refl;
  }
  on_sent-keeps s task left (ok (b, Outbound.local_bi recv)) same h = record {
    batons = λ v. ground (arith, same v);
    zeros = omega arith;
    drained = inl refl;
  }
  on_sent-keeps s task left (ok (b, Outbound.remote_bi)) same h = record {
    batons = λ v. ground (arith, same v);
    zeros = omega arith;
    drained = inl refl;
  }
  on_sent-keeps s task left (err e) same h = record {
    batons = λ v. omega arith;
    zeros = omega arith;
    drained = inl refl;
  }
  on_sent-keeps s task left panic same h = absurd h

  on_received-keeps :
      (s : Run S R) (left : List (R × Inbound S)) (r : Outcome (Error C) (ℕ × Inbound S))
      → r ≢ panic
      → RoundKeeps s
          (on_received (record s { inbound = left }) r).0
          (on_received (record s { inbound = left }) r).1
  unfolding on_received pass
  on_received-keeps s left (ok (b, source)) h = record {
    batons = λ v. omega (arith, received-batons C v s left b source);
    zeros = ground arith;
    drained = ground arith;
  }
  on_received-keeps s left (err e) h = record {
    batons = λ v. omega arith;
    zeros = omega arith;
    drained = inl refl;
  }
  on_received-keeps s left panic h = absurd (h refl)

  select-sent :
      (i : ℕ) (a : Answers C S R) (s : Run S R) (task : Sending S) (left : List (Sending S))
      → remove_at i s.outbound ≡ some (task, left)
      → select (sent i a) s ≡ on_sent (record s { outbound = left }) (join (send_task a task))
  unfolding select
  select-sent i a s task left e = ground (arith, e)

  select-received :
      (i : ℕ) (a : Answers C S R) (s : Run S R) (task : R × Inbound S) (left : List (R × Inbound S))
      → remove_at i s.inbound ≡ some (task, left)
      → select (received i a) s
        ≡ on_received (record s { inbound = left }) (join (receive_task a task))
  unfolding select
  select-received i a s task left e = ground (arith, e)

  select-none :
      (e : Event C S R) (s : Run S R)
      → select e s ≡ ([], ok s)
      → RoundKeeps s (select e s).0 (select e s).1
  select-none e s same =
      rw same (record { batons = λ v. omega arith; zeros = omega arith; drained = inl refl })

  pub select-keeps : (e : Event C S R) (s : Run S R) → RoundKeeps s (select e s).0 (select e s).1
  unfolding select
  select-keeps (sent i a) s = elim (Option-cases (remove_at i s.outbound)) [
    | inl none_at ↦ select-none (sent i a) s (ground (arith, none_at))
    | inr ((task, left), at) ↦ rw (select-sent i a s task left at) (
        on_sent-keeps s task left (join (send_task a task))
          (λ v. sum-remove_at (offers v) i s.outbound task left at) (join-Sends a task))
  ]
  select-keeps (received i a) s = elim (Option-cases (remove_at i s.inbound)) [
    | inl none_at ↦ select-none (received i a) s (ground (arith, none_at))
    | inr ((task, left), at) ↦ rw (select-received i a s task left at) (
        on_received-keeps s left (join (receive_task a task)) (join-ne-panic (receive_task a task)))
  ]
  select-keeps (accepted_uni recv) s = record {
    batons = λ v. omega arith;
    zeros = omega arith;
    drained = inl refl;
  }
  select-keeps (accepted_bi send recv) s = record {
    batons = λ v. omega arith;
    zeros = omega arith;
    drained = inl refl;
  }
  select-keeps (refused e) s = record {
    batons = λ v. omega arith;
    zeros = omega arith;
    drained = inl refl;
  }
  select-keeps (closed e) s = record {
    batons = λ v. omega arith;
    zeros = omega arith;
    drained = inl refl;
  }
