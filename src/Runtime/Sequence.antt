-- ===== src/Runtime/Sequence.antt =====
-- The deletion of a sandbox's containers: `delete_visible_containers` of
-- crates/oad-runtime/src/lib.rs.
use omniagent.Prelude.{
  ◌≡◌, ◌∙◌, refl, sym, subst, Bool-cases, Result-cases, ◌⊎◌, inl, inr, Bool, true, false, List, [],
  ◌∷◌, ◌++◌, Text, ok, err,
}
use omniagent.Runtime.{Runsc}
use omniagent.Runtime.Calls.{RunscCalls, Program, calls_of, IsProgram, IsRunsc, calls_of-IsRunsc}

abbrev pub reverse : List Text → List Text
reverse [] = []
reverse (container ∷ containers) = reverse containers ++ container ∷ []

-- The loop over the containers, in the order given.
unfoldable pub delete_each :
    {W E : Type 0} → RunscCalls W E → List Text → W → W × List (Text × Text)
delete_each runsc [] w = (w, [])
delete_each runsc (container ∷ rest) w = elim (runsc.state container w).1 [
  | err e ↦ delete_each runsc rest (runsc.state container w).0
  | ok json ↦
      let deleted = runsc.delete container (runsc.state container w).0 in
      let others = delete_each runsc rest deleted.0 in
      elim deleted.1 [
        | ok u ↦ others
        | err e ↦ (others.0, (container, runsc.error_text e) ∷ others.1)
      ]
]

unfoldable pub delete_visible_containers :
    {W E : Type 0} → RunscCalls W E → List Text → W → W × List (Text × Text)
unfolding delete_each
delete_visible_containers runsc containers w = delete_each runsc (reverse containers) w

abbrev pub Member : Text → List Text → Type 0
Member c [] = false ≡ true
Member c (d ∷ ds) = (c ≡ d) ⊎ Member c ds

abbrev pub Reported : Text → List (Text × Text) → Type 0
Reported c [] = false ≡ true
Reported c (failure ∷ failures) = (c ≡ failure.0) ⊎ Reported c failures

delete_each_keeps :
    {W E : Type 0} (runsc : RunscCalls W E) (present : Text → W → Bool)
    (laws : IsRunsc runsc present) (containers : List Text) (d : Text) (w : W)
    → present d w ≡ false
    → present d (delete_each runsc containers w).0 ≡ false
unfolding delete_each
delete_each_keeps runsc present laws [] d w gone = gone
delete_each_keeps runsc present laws (c ∷ rest) d w gone =
    let w' = (runsc.state c w).0 in
    let gone' : present d w' ≡ false = laws.state_keeps c d w ∙ gone in
    let after =
      delete_each_keeps runsc present laws rest d (runsc.delete c w').0
        (laws.delete_keeps c d w' gone') in
    elim (Result-cases (runsc.state c w).1) [
      | inr (e, unseen) ↦
          rw (delete_each, unseen) (delete_each_keeps runsc present laws rest d w' gone')
      | inl (json, seen) ↦ elim (Result-cases (runsc.delete c w').1) [
        | inl (tt, done) ↦ rw (delete_each, seen, done) after
        | inr (e, failed) ↦ rw (delete_each, seen, failed) after
      ]
    ]

-- The world after one round of the loop.
abbrev pub after_one : {W E : Type 0} → RunscCalls W E → Text → W → W
after_one runsc c w = elim (runsc.state c w).1 [
  | err e ↦ (runsc.state c w).0
  | ok json ↦ (runsc.delete c (runsc.state c w).0).0
]

-- In the container's round it was there, and `state` failed all the same.
abbrev pub Missed :
    {W E : Type 0} → RunscCalls W E → (Text → W → Bool) → Text → List Text → W → Type 0
Missed runsc present c [] w = ⊥
Missed {E} runsc present c (d ∷ rest) w =
    ((c ≡ d) × (present d w ≡ true) × (e : E) × ((runsc.state d w).1 ≡ err e))
    ⊎ Missed runsc present c rest (after_one runsc d w)

-- A container is gone, or its failure is reported, or it was missed.
abbrev Settled :
    {W E : Type 0}
    → RunscCalls W E
    → (Text → W → Bool)
    → Text
    → List Text
    → W
    → W × List (Text × Text)
    → Type 0
Settled runsc present c containers w r =
    (present c r.0 ≡ false) ⊎ (Reported c r.1 ⊎ Missed runsc present c containers w)

later-Settled :
    {W E : Type 0} (runsc : RunscCalls W E) (present : Text → W → Bool) (c d : Text)
    (rest : List Text) (w w' : W) (r : W × List (Text × Text))
    → after_one runsc d w ≡ w'
    → Settled runsc present c rest w' r
    → Settled runsc present c (d ∷ rest) w r
later-Settled runsc present c d rest w w' r e (inl gone) = inl gone
later-Settled runsc present c d rest w w' r e (inr (inl reported)) = inr (inl reported)
later-Settled runsc present c d rest w w' r e (inr (inr missed)) =
    inr (inr (inr (subst (Missed runsc present c rest) (sym e) missed)))

cons-Settled :
    {W E : Type 0} (runsc : RunscCalls W E) (present : Text → W → Bool) (c : Text)
    (containers : List Text) (w : W) (failure : Text × Text) (r : W × List (Text × Text))
    → Settled runsc present c containers w r
    → Settled runsc present c containers w (r.0, failure ∷ r.1)
cons-Settled runsc present c containers w failure r (inl gone) = inl gone
cons-Settled runsc present c containers w failure r (inr (inl reported)) = inr (inl (inr reported))
cons-Settled runsc present c containers w failure r (inr (inr missed)) = inr (inr missed)

delete_each_head :
    {W E : Type 0} (runsc : RunscCalls W E) (present : Text → W → Bool)
    (laws : IsRunsc runsc present) (c : Text) (rest : List Text) (w : W)
    → Settled runsc present c (c ∷ rest) w (delete_each runsc (c ∷ rest) w)
unfolding delete_each
delete_each_head {E = E} runsc present laws c rest w =
    let w' = (runsc.state c w).0 in
    elim (Result-cases (runsc.state c w).1) [
      | inr (e, unseen) ↦ elim (Bool-cases (present c w)) [
        | inl there ↦ inr (inr (inl (refl, there, e, unseen)))
        | inr absent ↦
            rw (delete_each, unseen)
              (inl
                (delete_each_keeps runsc present laws rest c w' (laws.state_keeps c c w ∙ absent)))
      ]
      | inl (json, seen) ↦ elim (Result-cases (runsc.delete c w').1) [
        | inl (tt, done) ↦
            rw (delete_each, seen, done)
              (inl (
                delete_each_keeps runsc present laws rest c (runsc.delete c w').0
                  (laws.delete_done c w' done)))
        | inr (e, failed) ↦ rw (delete_each, seen, failed) (inr (inl (inl refl)))
      ]
    ]

delete_each_lem :
    {W E : Type 0} (runsc : RunscCalls W E) (present : Text → W → Bool)
    (laws : IsRunsc runsc present) (containers : List Text) (c : Text) (w : W)
    → Member c containers
    → Settled runsc present c containers w (delete_each runsc containers w)
unfolding delete_each
delete_each_lem runsc present laws [] c w h = cc
delete_each_lem runsc present laws (d ∷ rest) c w (inl same) =
    subst (λ x. Settled runsc present x (d ∷ rest) w (delete_each runsc (d ∷ rest) w)) (sym same)
      (delete_each_head runsc present laws d rest w)
delete_each_lem runsc present laws (d ∷ rest) c w (inr later) =
    let w' = (runsc.state d w).0 in
    let deleted = (runsc.delete d w').0 in
    elim (Result-cases (runsc.state d w).1) [
      | inr (e, unseen) ↦
          later-Settled runsc present c d rest w w' (delete_each runsc (d ∷ rest) w)
            (rw (after_one, unseen) refl)
            (rw (delete_each, unseen) (delete_each_lem runsc present laws rest c w' later))
      | inl (json, seen) ↦
          later-Settled runsc present c d rest w deleted (delete_each runsc (d ∷ rest) w)
            (rw (after_one, seen) refl)
            (elim (Result-cases (runsc.delete d w').1) [
              | inl (tt, done) ↦
                  rw (delete_each, seen, done)
                    (delete_each_lem runsc present laws rest c deleted later)
              | inr (e, failed) ↦
                  rw (delete_each, seen, failed)
                    (cons-Settled runsc present c rest deleted (d, runsc.error_text e)
                      (delete_each runsc rest deleted)
                      (delete_each_lem runsc present laws rest c deleted later))
            ])
    ]

append-Member : (c : Text) (xs ys : List Text) → Member c xs ⊎ Member c ys → Member c (xs ++ ys)
append-Member c [] ys (inl h) = cc
append-Member c [] ys (inr h) = h
append-Member c (x ∷ xs) ys (inl (inl same)) = inl same
append-Member c (x ∷ xs) ys (inl (inr h)) = inr (append-Member c xs ys (inl h))
append-Member c (x ∷ xs) ys (inr h) = inr (append-Member c xs ys (inr h))

reverse-Member : (c : Text) (xs : List Text) → Member c xs → Member c (reverse xs)
reverse-Member c [] h = h
reverse-Member c (x ∷ xs) (inl same) = append-Member c (reverse xs) (x ∷ []) (inr (inl same))
reverse-Member c (x ∷ xs) (inr h) =
    append-Member c (reverse xs) (x ∷ []) (inl (reverse-Member c xs h))

-- With a program that keeps its laws: after the deletion every container of the sandbox is gone, or
-- has its failure reported, or was there in its round while `state` failed on it, which skips it.
pub delete_visible_containers_lem :
    {W E : Type 0} (program : Program W E) (self : Runsc) (present : Text → W → Bool)
    (laws : IsProgram program self present) (containers : List Text) (c : Text) (w : W)
    → Member c containers
    → (present c (delete_visible_containers (calls_of program self) containers w).0 ≡ false)
      ⊎ (Reported c (delete_visible_containers (calls_of program self) containers w).1
          ⊎ Missed (calls_of program self) present c (reverse containers) w)
unfolding delete_visible_containers
delete_visible_containers_lem program self present laws containers c w h =
    delete_each_lem (calls_of program self) present (calls_of-IsRunsc program self present laws)
      (reverse containers) c w (reverse-Member c containers h)
