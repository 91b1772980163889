-- ===== src/VarInt/Streaming.antt =====
-- Decoders that start with a VarInt, on a buffer that may still grow: the callers read more and try
-- again as long as the answer is that the buffer ended.
use webtransport_rs.Base.{
  ◌∙◌, ap, refl, arith, take, drop, ltb, length-take-le, take-append_le, drop-append_le, ℕ, ◌≡◌,
  ◌≢◌, List, ◌++◌, ok, err, panic, ◌>>=◌, map_err, Outcome, Outcome-cases, All, IsByte, inl, inr,
  Bool, true, false, if◌then◌else◌, length, ◌<◌,
}
use webtransport_rs.VarInt.{VarInt, decode}
use webtransport_rs.VarInt.Bounds.{decode-append, decode-append_panic, decode-ne-panic, decode_left}

module _ {ℓ κ} {E : Type ℓ} {A : Type κ} (late : E) where
  -- Bytes behind the input change neither a success nor an error other than `late`, nor a panic.
  pub record IsStreaming (f : List ℕ → Outcome E (A × List ℕ)) : Type (ℓ ⊔ κ) where
    pub ok_append :
        (bs more : List ℕ) (a : A) (left : List ℕ)
        → f bs ≡ ok (a, left)
        → f (bs ++ more) ≡ ok (a, left ++ more)
    pub err_append : (bs more : List ℕ) (e : E) → e ≢ late → f bs ≡ err e → f (bs ++ more) ≡ err e
    pub panic_append : (bs more : List ℕ) → f bs ≡ panic → f (bs ++ more) ≡ panic

-- What is left, with more behind it.
abbrev pub extend {ℓ κ} :
    {E : Type ℓ} {A : Type κ} → List ℕ → Outcome E (A × List ℕ) → Outcome E (A × List ℕ)
extend more (ok (a, left)) = ok (a, left ++ more)
extend more (err e) = err e
extend more panic = panic

-- An answer other than `late` is settled: bytes behind the input are only left over.
pub IsStreaming-settled {ℓ κ} :
    {E : Type ℓ} {A : Type κ} (late : E) (f : List ℕ → Outcome E (A × List ℕ)) (bs more : List ℕ)
    → IsStreaming late f
    → f bs ≢ err late
    → f (bs ++ more) ≡ extend more (f bs)
IsStreaming-settled late f bs more h settled = elim (Outcome-cases (f bs)) [
  | inl ((a, left), r) ↦ rw r (h.ok_append bs more a left r)
  | inr (inl (e, r)) ↦ rw r (h.err_append bs more e (λ same. settled (r ∙ ap err same)) r)
  | inr (inr r) ↦ rw r (h.panic_append bs more r)
]

-- A test that does not look at the buffer.
pub guarded-IsStreaming {ℓ κ} :
    {E : Type ℓ} {A : Type κ} (late refusal : E) (refuse : Bool)
    (f : List ℕ → Outcome E (A × List ℕ))
    → IsStreaming late f
    → IsStreaming late (λ bs. if refuse then err refusal else f bs)
guarded-IsStreaming late refusal true f h = record {
  ok_append = λ bs more a left e. cc;
  err_append = λ bs more e ne r. r;
  panic_append = λ bs more r. cc;
}
guarded-IsStreaming late refusal false f h = h

-- A VarInt, and then a decoder that its value picks.
module _ {ℓ κ} {E : Type ℓ} {A : Type κ} (late : E) where
  abbrev pub after_varint :
      (VarInt → List ℕ → Outcome E (A × List ℕ)) → List ℕ → Outcome E (A × List ℕ)
  after_varint f bs = map_err (λ _. late) (decode bs) >>= λ (x, rest). f x rest

  pub after_varint-IsStreaming :
      (f : VarInt → List ℕ → Outcome E (A × List ℕ))
      → ((x : VarInt) → IsStreaming late (f x))
      → IsStreaming late (after_varint f)
  after_varint-IsStreaming f h = record {
    ok_append = λ bs more a left e. elim (Outcome-cases (decode bs)) [
      | inl ((x, rest), r) ↦
          rw (decode-append bs more x rest r) ((h x).ok_append rest more a left (rw r at e))
      | inr (inl (x, r)) ↦ cc
      | inr (inr r) ↦ cc
    ];
    err_append = λ bs more x ne e. elim (Outcome-cases (decode bs)) [
      | inl ((v, rest), r) ↦
          rw (decode-append bs more v rest r) ((h v).err_append rest more x ne (rw r at e))
      | inr (inl (u, r)) ↦ absurd (ne (cc))
      | inr (inr r) ↦ cc
    ];
    panic_append = λ bs more e. elim (Outcome-cases (decode bs)) [
      | inl ((v, rest), r) ↦
          rw (decode-append bs more v rest r) ((h v).panic_append rest more (rw r at e))
      | inr (inl (u, r)) ↦ cc
      | inr (inr r) ↦ rw (decode-append_panic bs more r) refl
    ];
  }

-- A payload of `size` bytes, once it has arrived, read by `f` up to its end.
module _ {ℓ κ} {E : Type ℓ} {A : Type κ} (late : E) where
  abbrev pub limited : (List ℕ → Outcome E A) → ℕ → List ℕ → Outcome E (A × List ℕ)
  limited f size bs =
      if ltb (length (take size bs)) size
      then err late
      else f (take size bs) >>= λ a. ok (a, drop size bs)

  pub limited-IsStreaming :
      (f : List ℕ → Outcome E A) (size : ℕ) → IsStreaming late (limited f size)
  limited-IsStreaming f size = record {
    ok_append = λ bs more a left e. ground (
      arith,
      length-take-le size bs,
      take-append_le size bs more,
      drop-append_le size bs more,
      Outcome-cases (f (take size bs)),
    );
    err_append = λ bs more x ne e. ground (
      arith,
      length-take-le size bs,
      take-append_le size bs more,
      Outcome-cases (f (take size bs)),
    );
    panic_append = λ bs more e. ground (
      arith,
      length-take-le size bs,
      take-append_le size bs more,
      Outcome-cases (f (take size bs)),
    );
  }

-- A computation on what was read, which leaves the buffer alone.
pub then-IsStreaming {ℓ κ μ} :
    {E : Type ℓ} {A : Type κ} {B : Type μ} (late : E) (f : List ℕ → Outcome E (A × List ℕ))
    (k : A → Outcome E B)
    → IsStreaming late f
    → IsStreaming late (λ bs. f bs >>= λ (x, rest). k x >>= λ y. ok (y, rest))
then-IsStreaming late f k h = record {
  ok_append = λ bs more a left e. elim (Outcome-cases (f bs)) [
    | inl ((x, rest), r) ↦ ground (arith, h.ok_append bs more x rest r, r, Outcome-cases (k x))
    | inr (inl (u, r)) ↦ cc
    | inr (inr r) ↦ cc
  ];
  err_append = λ bs more u ne e. elim (Outcome-cases (f bs)) [
    | inl ((x, rest), r) ↦ ground (arith, h.ok_append bs more x rest r, r, Outcome-cases (k x))
    | inr (inl (v, r)) ↦ ground (arith, r, h.err_append bs more v)
    | inr (inr r) ↦ cc
  ];
  panic_append = λ bs more e. elim (Outcome-cases (f bs)) [
    | inl ((x, rest), r) ↦ ground (arith, h.ok_append bs more x rest r, r, Outcome-cases (k x))
    | inr (inl (v, r)) ↦ cc
    | inr (inr r) ↦ ground (arith, r, h.panic_append bs more r)
  ];
}

-- A VarInt, and then a computation that does not panic on what is left.
pub decode_then-ne-panic {ℓ κ} :
    {E : Type ℓ} {B : Type κ} (late : E) (k : VarInt → List ℕ → Outcome E B) (bs : List ℕ)
    → All IsByte bs
    → ((x : VarInt) (rest : List ℕ) → All IsByte rest → length rest < length bs → k x rest ≢ panic)
    → (map_err (λ _. late) (decode bs) >>= λ (x, rest). k x rest) ≢ panic
decode_then-ne-panic late k bs hb hk = elim (Outcome-cases (decode bs)) [
  | inl ((x, rest), r) ↦
      let (bytes, shorter) = decode_left bs rest x hb r in rw r (hk x rest bytes shorter)
  | inr (inl (u, r)) ↦ rw r (λ e. cc)
  | inr (inr r) ↦ absurd (decode-ne-panic bs hb r)
]
