-- ===== src/Base/Yields.antt =====
-- A fallible function that does not panic, and what holds of its value.
use webtransport_rs.Base.Results.{Outcome, ok, err, panic, ◌>>=◌, map_err}
use mathlib.Core.Bool.{Bool, true, false}
use webtransport_rs.Base.Tests.{if◌then◌else◌}
use mathlib.Core.Path.{◌≡◌, refl}
use mathlib.Core.Option.{Option, none, some}
use mathlib.Core.Logic.{◌≢◌}

abbrev pub Yields {ℓ κ} : {E : Type ℓ} {A : Type κ} → (A → Type 0) → Outcome E A → Type 0
Yields Q (ok a) = Q a
Yields Q (err e) = Unit {0}
Yields Q panic = ⊥

module _ {ℓ κ} {E : Type ℓ} {A : Type κ} (Q : A → Type 0) where
  pub Yields-bind {μ} :
      {B : Type μ} (R : B → Type 0) (r : Outcome E A) (f : A → Outcome E B)
      → Yields Q r
      → ((a : A) → Q a → Yields R (f a))
      → Yields R (r >>= f)
  Yields-bind R (ok a) f h next = next a h
  Yields-bind R (err e) f h next = tt
  Yields-bind R panic f h next = h

  -- The same of a match whose panic is passed on.
  pub Yields-elim {μ ν} :
      {F : Type μ} {B : Type ν} (R : B → Type 0) (r : Outcome E A) (f : A → Outcome F B)
      (g : E → Outcome F B)
      → Yields Q r
      → ((a : A) → Q a → Yields R (f a))
      → ((e : E) → Yields R (g e))
      → Yields R (elim r [ ok a ↦ f a | err e ↦ g e | panic ↦ panic ])
  Yields-elim R (ok a) f g h next other = next a h
  Yields-elim R (err e) f g h next other = other e
  Yields-elim R panic f g h next other = h

  pub Yields-weaken :
      (R : A → Type 0) (r : Outcome E A) → Yields Q r → ((a : A) → Q a → R a) → Yields R r
  Yields-weaken R (ok a) h weaker = weaker a h
  Yields-weaken R (err e) h weaker = tt
  Yields-weaken R panic h weaker = h

  pub Yields-map_err {μ} :
      {F : Type μ} (f : E → F) (r : Outcome E A) → Yields Q r → Yields Q (map_err f r)
  Yields-map_err f (ok a) h = h
  Yields-map_err f (err e) h = tt
  Yields-map_err f panic h = h

  pub Yields-ne-panic : (r : Outcome E A) → Yields Q r → r ≢ panic
  Yields-ne-panic (ok a) h = λ e. cc
  Yields-ne-panic (err e) h = λ e'. cc
  Yields-ne-panic panic h = λ e. h

pub Yields-option {ℓ κ μ} :
    {E : Type ℓ} {A : Type κ} {B : Type μ} (R : B → Type 0) (o : Option A) (z : Outcome E B)
    (f : A → Outcome E B)
    → Yields R z
    → ((a : A) → o ≡ some a → Yields R (f a))
    → Yields R (elim o [ none ↦ z | some a ↦ f a ])
Yields-option R none z f h next = h
Yields-option R (some a) z f h next = next a refl

pub Yields-if {ℓ κ} :
    {E : Type ℓ} {A : Type κ} (R : A → Type 0) (b : Bool) (x y : Outcome E A)
    → Yields R x
    → Yields R y
    → Yields R (if b then x else y)
Yields-if R true x y hx hy = hx
Yields-if R false x y hx hy = hy
