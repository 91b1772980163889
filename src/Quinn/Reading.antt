-- ===== src/Quinn/Reading.antt =====
-- The loops of webtransport-quinn/src/settings.rs and connect.rs that read chunks of a stream into a
-- buffer and decode the buffer from its start after each of them.
use webtransport_rs.Base.{
  ℕ, ◌≡◌, ◌≢◌, ◌↔◌, refl, Bool, true, List, [], ◌∷◌, ◌++◌, append_assoc, append-nil, Outcome, ok,
  err, panic, Outcome-cases, arith, inl, inr, if◌then◌else◌, Bool-cases,
}
use webtransport_rs.VarInt.Streaming.{IsStreaming}

-- What `read_chunk` answers, one call after the other; behind the last of them the stream is finished.
pub data Event {ℓ} (R : Type ℓ) : Type ℓ where
  chunk : List ℕ → Event R
  failed : R → Event R

-- The stream that arrives in these chunks, whole.
abbrev pub chunks {ℓ} : {R : Type ℓ} → List (List ℕ) → List (Event R)
chunks [] = []
chunks (c ∷ cs) = chunk c ∷ chunks cs

abbrev pub joined : List (List ℕ) → List ℕ
joined [] = []
joined (c ∷ cs) = c ++ joined cs

module _ {ℓ κ μ ν} {E : Type ℓ} {A : Type κ} {R : Type μ} {X : Type ν} (ended : X)
    (read_error : R → X) (proto_error : E → X) (is_late : E → Bool)
    (f : List ℕ → Outcome E (A × List ℕ)) where
  -- `is_late` is the arm that tries again.
  unfoldable pub read_loop : List ℕ → List (Event R) → Outcome X A
  read_loop buf [] = err ended
  read_loop buf (failed e ∷ es) = err (read_error e)
  read_loop buf (chunk c ∷ es) =
      let again = read_loop (buf ++ c) es in
      elim (f (buf ++ c)) [
        | ok (a, left) ↦ ok a
        | err e ↦ if is_late e then again else err (proto_error e)
        | panic ↦ panic
      ]

  -- What the whole stream comes to, where `f` is asked once.
  abbrev pub at_end : Outcome E (A × List ℕ) → Outcome X A
  at_end (ok (a, left)) = ok a
  at_end (err e) = if is_late e then err ended else err (proto_error e)
  at_end panic = panic

  -- What is read does not depend on what follows.
  pub read_loop-append :
      (es more : List (Event R)) (buf : List ℕ) (a : A)
      → read_loop buf es ≡ ok a
      → read_loop buf (es ++ more) ≡ ok a
  unfolding read_loop
  read_loop-append [] more buf a e = cc
  read_loop-append (failed x ∷ es) more buf a e = cc
  read_loop-append (chunk c ∷ es) more buf a e =
      ground (arith, Outcome-cases (f (buf ++ c)), read_loop-append es more (buf ++ c) a)

  module _ (late : E) (late_iff : (e : E) → (is_late e ≡ true) ↔ (e ≡ late))
      (h : IsStreaming late f) where
    -- However the stream is cut into chunks, the loop comes to what `f` says of the whole.
    pub read_loop-joined :
        (cs : List (List ℕ)) (buf : List ℕ)
        → f buf ≡ err late
        → read_loop buf (chunks cs) ≡ at_end (f (buf ++ joined cs))
    unfolding read_loop
    read_loop-joined [] buf e = rw (append-nil, e, (late_iff late).1 refl) refl
    read_loop-joined (c ∷ cs) buf e =
        let whole = append_assoc buf c (joined cs) in
        elim (Outcome-cases (f (buf ++ c))) [
          | inl ((a, left), r) ↦
              ground (arith, r, whole, h.ok_append (buf ++ c) (joined cs) a left r)
          | inr (inl (x, r)) ↦ elim (Bool-cases (is_late x)) [
            | inl again ↦
                ground
                  (arith, r, whole, again, (late_iff x).0 again, read_loop-joined cs (buf ++ c))
            | inr fatal ↦
                let other : x ≢ late = λ same. cc (fatal, (late_iff x).1 same) in
                ground (arith, r, whole, fatal, h.err_append (buf ++ c) (joined cs) x other r)
          ]
          | inr (inr r) ↦ ground (arith, r, whole, h.panic_append (buf ++ c) (joined cs) r)
        ]
