-- ===== src/Prelude/Lists.antt =====
-- Lists measured, indexed and counted by native numbers, under the library's names.
use Prim.Native.Nat.{ℕ, zero, suc, ◌+◌, ◌-◌, ◌≤◌, ◌<◌}
use mathlib.Core.Path.{◌≡◌, refl, ap}
use mathlib.Core.Logic.{◌≢◌}
use mathlib.Core.Bool.{Bool, true, false, ◌&&◌, ◌||◌}
use mathlib.Core.List.{List, [], ◌∷◌, ◌++◌}
use mathlib.Core.Option.{Option, none, some}
use native.Mathlib.Omega.{arith}
use omniagent.Prelude.Tests.{if◌then◌else◌}

module _ {ℓ} {A : Type ℓ} where
  abbrev pub length : List A → ℕ
  length [] = 0
  length (x ∷ xs) = suc (length xs)

  abbrev pub get_elem? : List A → ℕ → Option A
  get_elem? [] i = none
  get_elem? (x ∷ xs) zero = some x
  get_elem? (x ∷ xs) (suc i) = get_elem? xs i

  -- A write out of bounds changes nothing.
  abbrev pub set : List A → ℕ → A → List A
  set [] i v = []
  set (x ∷ xs) zero v = v ∷ xs
  set (x ∷ xs) (suc i) v = x ∷ set xs i v

  abbrev pub drop : ℕ → List A → List A
  drop zero xs = xs
  drop (suc n) [] = []
  drop (suc n) (x ∷ xs) = drop n xs

  pub length-append : (xs ys : List A) → length (xs ++ ys) ≡ length xs + length ys
  length-append [] ys = omega arith
  length-append (x ∷ xs) ys = omega (arith, length-append xs ys)

  pub length-drop : (n : ℕ) (xs : List A) → length (drop n xs) ≡ length xs - n
  length-drop zero xs = omega arith
  length-drop (suc n) [] = omega arith
  length-drop (suc n) (x ∷ xs) = omega (arith, length-drop n xs)

module _ {ℓ} {A : Type ℓ} where
  -- How many elements pass a test.
  unfoldable pub count_if : (A → Bool) → List A → ℕ
  count_if p [] = 0
  count_if p (x ∷ xs) = (if p x then 1 else 0) + count_if p xs

  unfoldable pub filter_by : (A → Bool) → List A → List A
  filter_by p [] = []
  filter_by p (x ∷ xs) = let rest = filter_by p xs in if p x then x ∷ rest else rest

  abbrev pub all : (A → Bool) → List A → Bool
  all p [] = true
  all p (x ∷ xs) = p x && all p xs

  abbrev pub any : (A → Bool) → List A → Bool
  any p [] = false
  any p (x ∷ xs) = p x || any p xs

  -- What a write at a valid position does to a count.
  pub count_if-set :
      (p : A → Bool) (xs : List A) (i : ℕ) (old v : A)
      → get_elem? xs i ≡ some old
      → count_if p (set xs i v) + (if p old then 1 else 0) ≡ count_if p xs + (if p v then 1 else 0)
  unfolding count_if
  count_if-set p [] i old v h = ground arith
  count_if-set p (x ∷ xs) zero old v h = ground arith
  count_if-set p (x ∷ xs) (suc i) old v h = omega (arith, count_if-set p xs i old v h)

  pub count_if_pos :
      (p : A → Bool) (xs : List A) (i : ℕ) (x : A)
      → get_elem? xs i ≡ some x
      → p x ≡ true
      → 0 < count_if p xs
  unfolding count_if
  count_if_pos p [] i x h q = ground arith
  count_if_pos p (y ∷ xs) zero x h q = ground arith
  count_if_pos p (y ∷ xs) (suc i) x h q = omega (arith, count_if_pos p xs i x h q)

  -- Where at most one element passes, two positions that pass are one.
  pub count_if_unique :
      (p : A → Bool) (xs : List A) (i j : ℕ) (x y : A)
      → count_if p xs ≤ 1
      → get_elem? xs i ≡ some x
      → get_elem? xs j ≡ some y
      → p x ≡ true
      → p y ≡ true
      → i ≡ j
  unfolding count_if
  count_if_unique p [] i j x y c h k q r = ground arith
  count_if_unique p (z ∷ xs) zero zero x y c h k q r = refl
  count_if_unique p (z ∷ xs) zero (suc j) x y c h k q r = ground (arith, count_if_pos p xs j y k r)
  count_if_unique p (z ∷ xs) (suc i) zero x y c h k q r = ground (arith, count_if_pos p xs i x h q)
  count_if_unique p (z ∷ xs) (suc i) (suc j) x y c h k q r =
      ap suc (count_if_unique p xs i j x y (omega arith) h k q r)

  pub get_elem?-set_self :
      (xs : List A) (i : ℕ) (old v : A)
      → get_elem? xs i ≡ some old
      → get_elem? (set xs i v) i ≡ some v
  get_elem?-set_self [] i old v h = ground arith
  get_elem?-set_self (x ∷ xs) zero old v h = refl
  get_elem?-set_self (x ∷ xs) (suc i) old v h = get_elem?-set_self xs i old v h

  pub get_elem?-set_ne :
      (xs : List A) (i j : ℕ) (v : A) → i ≢ j → get_elem? (set xs i v) j ≡ get_elem? xs j
  get_elem?-set_ne [] i j v h = refl
  get_elem?-set_ne (x ∷ xs) zero zero v h = absurd (h refl)
  get_elem?-set_ne (x ∷ xs) zero (suc j) v h = refl
  get_elem?-set_ne (x ∷ xs) (suc i) zero v h = refl
  get_elem?-set_ne (x ∷ xs) (suc i) (suc j) v h = get_elem?-set_ne xs i j v (λ e. h (ap suc e))
