-- ===== src/Prelude/BTreeMap.antt =====
-- `BTreeMap<String, V>` (and a `HashMap` that is never iterated in an order that shows): the
-- entries in the order of their keys.
use Prim.Native.Nat.{Ordering}
use mathlib.Core.Path.{◌≡◌, refl}
use mathlib.Core.Bool.{Bool, true, false}
use mathlib.Core.Option.{Option, none, some}
use mathlib.Core.List.{List, [], ◌∷◌}
use native.Mathlib.Omega.{arith}
use omniagent.Prelude.Tests.{if◌then◌else◌}
use omniagent.Prelude.Texts.{Text, text_cmp, text_eq, text_cmp_iff, text_eq_iff}

abbrev pub BTreeMap {ℓ} : Type ℓ → Type ℓ
BTreeMap V = List (Text × V)

module _ {ℓ} {V : Type ℓ} where
  unfoldable pub get : Text → BTreeMap V → Option V
  get k [] = none
  get k ((j, v) ∷ m) = let rest = get k m in if text_eq j k then some v else rest

  unfoldable pub insert : Text → V → BTreeMap V → BTreeMap V
  insert k v [] = (k, v) ∷ []
  insert k v ((j, w) ∷ m) =
      let rest = insert k v m in
      elim (text_cmp k j) [
        | Ordering.lt ↦ (k, v) ∷ (j, w) ∷ m
        | Ordering.eq ↦ (k, v) ∷ m
        | Ordering.gt ↦ (j, w) ∷ rest
      ]

  unfoldable pub remove : Text → BTreeMap V → BTreeMap V
  remove k [] = []
  remove k ((j, w) ∷ m) = let rest = remove k m in if text_eq j k then rest else (j, w) ∷ rest

  unfoldable pub contains_key : Text → BTreeMap V → Bool
  unfolding get
  contains_key k m = elim (get k m) [ none ↦ false | some v ↦ true ]

  unfoldable pub values : BTreeMap V → List V
  values [] = []
  values ((k, v) ∷ m) = v ∷ values m

  pub get-insert :
      (k j : Text) (v : V) (m : BTreeMap V)
      → get j (insert k v m) ≡ (if text_eq k j then some v else get j m)
  unfolding get insert
  get-insert k j v [] = refl
  get-insert k j v ((i, w) ∷ m) =
      ground (arith, get-insert k j v m, text_cmp_iff k i, text_eq_iff k j, text_eq_iff i j)

  pub get-remove :
      (k j : Text) (m : BTreeMap V) → get j (remove k m) ≡ (if text_eq k j then none else get j m)
  unfolding get remove
  get-remove k j [] = ground arith
  get-remove k j ((i, w) ∷ m) =
      ground (arith, get-remove k j m, text_eq_iff k j, text_eq_iff i k, text_eq_iff i j)
