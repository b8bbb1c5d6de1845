-- ===== src/Prelude/Results.antt =====
-- Rust's `Result<T, E>`, and its `?` operator as a bind.
use mathlib.Core.Path.{◌≡◌, refl}
use mathlib.Core.Option.{Option, none, some}

pub data Result {ℓ κ} (A : Type ℓ) (E : Type κ) : Type (ℓ ⊔ κ) where
  ok : A → Result A E
  err : E → Result A E

-- `m?` followed by the rest of the function
abbrev pub and_then {ℓ κ μ} :
    {A : Type ℓ} {B : Type μ} {E : Type κ} → Result A E → (A → Result B E) → Result B E
and_then (ok a) f = f a
and_then (err e) f = err e

-- `.ok_or(e)`
abbrev pub ok_or {ℓ κ} : {A : Type ℓ} {E : Type κ} → Option A → E → Result A E
ok_or none e = err e
ok_or (some a) e = ok a

-- Inversion of a successful bind.
pub and_then-eq-ok {ℓ κ μ} :
    {A : Type ℓ} {B : Type μ} {E : Type κ} (first : Result A E) (then_do : A → Result B E)
    {result : B}
    → and_then first then_do ≡ ok result
    → (a : A) × (first ≡ ok a) × (then_do a ≡ ok result)
and_then-eq-ok (ok a) then_do h = (a, refl, h)
and_then-eq-ok (err e) then_do h = cc
