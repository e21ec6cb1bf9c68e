-- ===== src/Prelude/Outcome.antt =====
-- What a C++ call gives: a value, or the `what()` of the `std::exception` that it throws.
use mathlib.Core.Path.{◌≡◌, refl}
use scriptor.Prelude.Lists.{Bytes}

pub data Result {ℓ} (A : Type ℓ) : Type ℓ where
  err : Bytes → Result A
  ok : A → Result A

-- A statement behind another: it is reached only if the first one does not throw.
module _ {ℓ κ} {A : Type ℓ} {B : Type κ} where
  infixl 5 ◌>>=◌ ◌>>◌
  abbrev pub ◌>>=◌ : Result A → (A → Result B) → Result B
  err what >>= next = err what
  ok value >>= next = next value

  abbrev pub ◌>>◌ : Result A → Result B → Result B
  first >> last = first >>= λ value. last

  pub bind-eq-ok :
      (call : Result A) (next : A → Result B) {final : B}
      → (call >>= next) ≡ ok final
      → (value : A) × (call ≡ ok value) × (next value ≡ ok final)
  bind-eq-ok (err what) next reached = cc
  bind-eq-ok (ok value) next reached = (value, refl, reached)
