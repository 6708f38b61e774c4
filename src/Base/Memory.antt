-- ===== src/Base/Memory.antt =====
-- The result of code that reads and writes raw memory in loops.
use mathlib.Core.Option.{Option, none, some}
use mathlib.Core.Path.{◌≡◌, refl}

-- `out_of_bounds` is a read beyond a buffer and `overflow` a write beyond one; `out_of_fuel` means
-- that a loop used up its rounds.
pub data Outcome {ℓ} (A : Type ℓ) : Type ℓ where
  ok : A → Outcome A
  out_of_bounds : Outcome A
  overflow : Outcome A
  out_of_fuel : Outcome A

infixl 5 ◌>>=◌
abbrev pub ◌>>=◌ {ℓ κ} : {A : Type ℓ} {B : Type κ} → Outcome A → (A → Outcome B) → Outcome B
ok a >>= f = f a
out_of_bounds >>= f = out_of_bounds
overflow >>= f = overflow
out_of_fuel >>= f = out_of_fuel

abbrev pub or_fault {ℓ} : {A : Type ℓ} → Option A → Outcome A
or_fault none = out_of_bounds
or_fault (some a) = ok a

module _ {ℓ κ} {A : Type ℓ} {B : Type κ} where
  -- What a call returned that was followed by others without a fault
  abbrev pub Returned : Outcome A → (A → Outcome B) → B → Type (ℓ ⊔ κ)
  Returned call next last = (v : A) × (call ≡ ok v) × (next v ≡ ok last)

  pub bind-Returned :
      {last : B} (call : Outcome A) (next : A → Outcome B)
      → (call >>= next) ≡ ok last
      → Returned call next last
  bind-Returned out_of_bounds next e = cc
  bind-Returned overflow next e = cc
  bind-Returned out_of_fuel next e = cc
  bind-Returned (ok v) next e = (v, refl, e)

pub ok-injective {ℓ} : {A : Type ℓ} {a b : A} → ok a ≡ ok b → a ≡ b
ok-injective h = cc
