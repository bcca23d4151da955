-- ===== src/Prelude/Members.antt =====
-- What is in a list, as a sum: the proof says where.
use mathlib.Core.Path.{◌≡◌, refl, sym, subst}
use mathlib.Core.Logic.{◌⊎◌, inl, inr}
use mathlib.Core.List.{List, [], ◌∷◌, ◌++◌}

abbrev pub Member : {A : Type 0} → A → List A → Type 0
Member x [] = ⊥
Member x (y ∷ ys) = (x ≡ y) ⊎ Member x ys

abbrev pub All : {A : Type 0} → (A → Type 0) → List A → Type 0
All P [] = Unit
All P (x ∷ xs) = P x × All P xs

pub append-Member_left : {A : Type 0} (x : A) (xs ys : List A) → Member x xs → Member x (xs ++ ys)
append-Member_left x [] ys h = elim h [ ]
append-Member_left x (y ∷ xs) ys (inl e) = inl e
append-Member_left x (y ∷ xs) ys (inr h) = inr (append-Member_left x xs ys h)

pub append-Member_right : {A : Type 0} (x : A) (xs ys : List A) → Member x ys → Member x (xs ++ ys)
append-Member_right x [] ys h = h
append-Member_right x (y ∷ xs) ys h = inr (append-Member_right x xs ys h)

pub append-Member_split :
    {A : Type 0} (x : A) (xs ys : List A) → Member x (xs ++ ys) → Member x xs ⊎ Member x ys
append-Member_split x [] ys h = inr h
append-Member_split x (y ∷ xs) ys (inl e) = inl (inl e)
append-Member_split x (y ∷ xs) ys (inr h) = elim (append-Member_split x xs ys h) [
  | inl l ↦ inl (inr l)
  | inr r ↦ inr r
]

pub All-append :
    {A : Type 0} (P : A → Type 0) (xs ys : List A) → All P xs → All P ys → All P (xs ++ ys)
All-append P [] ys hx hy = hy
All-append P (x ∷ xs) ys hx hy = (hx.0, All-append P xs ys hx.1 hy)

pub All-Member : {A : Type 0} (P : A → Type 0) (x : A) (xs : List A) → All P xs → Member x xs → P x
All-Member P x [] h m = elim m [ ]
All-Member P x (y ∷ xs) h (inl e) = subst P (sym e) h.0
All-Member P x (y ∷ xs) h (inr m) = All-Member P x xs h.1 m

pub All-map :
    {A : Type 0} (P Q : A → Type 0) (xs : List A) → ((x : A) → P x → Q x) → All P xs → All Q xs
All-map P Q [] f h = tt
All-map P Q (x ∷ xs) f h = (f x h.0, All-map P Q xs f h.1)

pub All-intro :
    {A : Type 0} (P : A → Type 0) (xs : List A) → ((x : A) → Member x xs → P x) → All P xs
All-intro P [] f = tt
All-intro P (x ∷ xs) f = (f x (inl refl), All-intro P xs (λ y m. f y (inr m)))

-- An item in the middle, taken out and put back.
pub Member-remove :
    {A : Type 0} (x : A) (before : List A) (y : A) (after : List A)
    → Member x (before ++ y ∷ after)
    → (x ≡ y) ⊎ Member x (before ++ after)
Member-remove x [] y after (inl e) = inl e
Member-remove x [] y after (inr m) = inr m
Member-remove x (z ∷ before) y after (inl e) = inr (inl e)
Member-remove x (z ∷ before) y after (inr m) = elim (Member-remove x before y after m) [
  | inl e ↦ inl e
  | inr k ↦ inr (inr k)
]

pub Member-restore :
    {A : Type 0} (x : A) (before : List A) (y : A) (after : List A)
    → Member x (before ++ after)
    → Member x (before ++ y ∷ after)
Member-restore x [] y after m = inr m
Member-restore x (z ∷ before) y after (inl e) = inl e
Member-restore x (z ∷ before) y after (inr m) = inr (Member-restore x before y after m)

pub Member-middle :
    {A : Type 0} (before : List A) (y : A) (after : List A) → Member y (before ++ y ∷ after)
Member-middle [] y after = inl refl
Member-middle (z ∷ before) y after = inr (Member-middle before y after)
