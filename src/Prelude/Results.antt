-- ===== src/Prelude/Results.antt =====
-- Rust's `Result<T, E>`: `?` is the bind of a do block. With inversions of results and options.
use mathlib.Core.Path.{◌≡◌, refl}
use mathlib.Core.Option.{some}
use mathlib.Core.Logic.{◌⊎◌, inl, inr}

pub data Result {ℓ κ} (E : Type κ) (A : Type ℓ) : Type (ℓ ⊔ κ) where
  ok : A → Result E A
  err : E → Result E A

infixl 5 ◌>>=◌ ◌>>◌
abbrev pub ◌>>=◌ : {E A B : Type 0} → Result E A → (A → Result E B) → Result E B
err e >>= next = err e
ok value >>= next = next value

abbrev pub ◌>>◌ : {E B : Type 0} → Result E (Unit {0}) → Result E B → Result E B
first >> second = first >>= (λ done. second)

-- A chain that succeeds has a first part that does.
pub bind_ok :
    {E A B : Type 0} (first : Result E A) (next : A → Result E B) {final : B}
    → (first >>= next) ≡ ok final
    → (value : A) × (first ≡ ok value) × (next value ≡ ok final)
bind_ok (err e) next success = cc
bind_ok (ok value) next success = (value, refl, success)

pub some_injective : {A : Type 0} {a b : A} → some a ≡ some b → a ≡ b
some_injective h = cc

pub ok_injective : {A E : Type 0} {a b : A} → ◌≡◌ {A = Result E A} (ok a) (ok b) → a ≡ b
ok_injective h = cc

pub Result-cases :
    {E A : Type 0} (r : Result E A) → ((value : A) × (r ≡ ok value)) ⊎ ((e : E) × (r ≡ err e))
Result-cases (ok value) = inl (value, refl)
Result-cases (err e) = inr (e, refl)
