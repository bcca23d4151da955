-- ===== src/Client/Link/Claims.antt =====
-- What a sequence number that is on its way claims: everything up to it is accounted for. The lemmas
-- say how claims last while more is pushed and more is accounted for.
use omniagent.Prelude.{
  ℕ, ◌≤◌, ◌<◌, ◌≡◌, refl, sym, subst, ◌⊎◌, inl, inr, List, [], ◌∷◌, ◌++◌, append_assoc, append-nil,
  arith, max, leb, Member, append-Member_left, append-Member_right, append-Member_split, ltb,
  filter_by, Bool-cases,
}
use omniagent.Client.Channel.{Outgoing}
use omniagent.Client.Channel.Outbox.{Ascending, Ascending-Member}
use omniagent.Client.Link.{Frame, one, batch, heartbeat, carried, in_flight, max_seq, last_seq}

abbrev pub Within : {A : Type 0} → List A → List A → Type 0
Within {A} xs ys = (x : A) → Member x xs → Member x ys

pub append-Within : {A : Type 0} (xs ys zs : List A) → Within xs ys → Within (xs ++ zs) (ys ++ zs)
append-Within xs ys zs h x m = elim (append-Member_split x xs zs m) [
  | inl l ↦ append-Member_left x ys zs (h x l)
  | inr r ↦ append-Member_right x ys zs r
]

-- Among what was pushed, with numbers up to `top`, all up to `k` is in `base`.
abbrev pub Upto : {V : Type 0} → List (Outgoing V) → ℕ → ℕ → List (Outgoing V) → Type 0
Upto {V} history top k base =
    (k ≤ top) × ((x : Outgoing V) → Member x history → x.seq ≤ k → Member x base)

-- More history, with higher numbers.
abbrev pub Extends : {V : Type 0} → List (Outgoing V) → ℕ → List (Outgoing V) → ℕ → Type 0
Extends {V} history top history' top' =
    (top ≤ top') × ((x : Outgoing V) → Member x history' → Member x history ⊎ (top < x.seq))

pub Extends-refl :
    {V : Type 0} (history : List (Outgoing V)) (top : ℕ) → Extends history top history top
Extends-refl history top = (omega arith, λ x m. inl m)

module _ {V : Type 0} (history : List (Outgoing V)) (top : ℕ) where
  abbrev pub Prefixes : List (Outgoing V) → List (Outgoing V) → Type 0
  Prefixes base [] = Unit
  Prefixes base (item ∷ items) =
      Upto history top item.seq (base ++ item ∷ []) × Prefixes (base ++ item ∷ []) items

  abbrev pub Claim : List (Outgoing V) → Frame V → Type 0
  Claim base (one item) = Unit
  Claim base (batch items) = Upto history top (max_seq items) base
  Claim base (heartbeat seq) = Upto history top seq base

  abbrev pub WireClaims : List (Outgoing V) → List (Frame V) → Type 0
  WireClaims base [] = Unit
  WireClaims base (frame ∷ wire) =
      Claim (base ++ carried frame) frame × WireClaims (base ++ carried frame) wire

  pub WireClaims-append :
      (base : List (Outgoing V)) (wire : List (Frame V)) (frame : Frame V)
      → WireClaims base wire
      → Claim ((base ++ in_flight wire) ++ carried frame) frame
      → WireClaims base (wire ++ frame ∷ [])
  WireClaims-append base [] frame w c =
      (subst (λ b. Claim (b ++ carried frame) frame) (append-nil base) c, tt)
  WireClaims-append base (first ∷ wire) frame w c = (
    w.0,
    WireClaims-append (base ++ carried first) wire frame w.1 (
        subst (λ b. Claim (b ++ carried frame) frame)
          (sym (append_assoc base (carried first) (in_flight wire))) c),
  )

module _ {V : Type 0} (history history' : List (Outgoing V)) (top top' : ℕ)
    (more : Extends history top history' top') where
  pub Upto-lift :
      (k : ℕ) (base base' : List (Outgoing V))
      → Within base base'
      → Upto history top k base
      → Upto history' top' k base'
  Upto-lift k base base' h u = (
    omega (arith, u.0, more.0),
    λ x m low. elim (more.1 x m) [
      | inl old ↦ h x (u.1 x old low)
      | inr new ↦ absurd (omega (arith, u.0))
    ],
  )

  pub Prefixes-lift :
      (items base base' : List (Outgoing V))
      → Within base base'
      → Prefixes history top base items
      → Prefixes history' top' base' items
  Prefixes-lift [] base base' h p = tt
  Prefixes-lift (item ∷ items) base base' h p =
      let h' = append-Within base base' (item ∷ []) h in
      (
        Upto-lift item.seq (base ++ item ∷ []) (base' ++ item ∷ []) h' p.0,
        Prefixes-lift items (base ++ item ∷ []) (base' ++ item ∷ []) h' p.1,
      )

  pub Claim-lift :
      (frame : Frame V) (base base' : List (Outgoing V))
      → Within base base'
      → Claim history top base frame
      → Claim history' top' base' frame
  Claim-lift (one item) base base' h c = tt
  Claim-lift (batch items) base base' h c = Upto-lift (max_seq items) base base' h c
  Claim-lift (heartbeat seq) base base' h c = Upto-lift seq base base' h c

  pub WireClaims-lift :
      (wire : List (Frame V)) (base base' : List (Outgoing V))
      → Within base base'
      → WireClaims history top base wire
      → WireClaims history' top' base' wire
  WireClaims-lift [] base base' h w = tt
  WireClaims-lift (frame ∷ wire) base base' h w =
      let h' = append-Within base base' (carried frame) h in
      (
        Claim-lift frame (base ++ carried frame) (base' ++ carried frame) h' w.0,
        WireClaims-lift wire (base ++ carried frame) (base' ++ carried frame) h' w.1,
      )

module _ {V : Type 0} (history : List (Outgoing V)) (top : ℕ) where
  pub Upto-max :
      (a b : ℕ) (base : List (Outgoing V))
      → Upto history top a base
      → Upto history top b base
      → Upto history top (max a b) base
  Upto-max a b base u v = elim (Bool-cases (leb a b)) [ inl le ↦ rw (le) v | inr gt ↦ rw (gt) u ]

  max_zero : (a : ℕ) → max a 0 ≡ a
  max_zero a = ground arith

  -- A run, item by item: its last number, what stands behind it, and its highest.
  pub Prefixes-run :
      (item : Outgoing V) (items rest base : List (Outgoing V))
      → Prefixes history top base (item ∷ items ++ rest)
      → Upto history top (last_seq item items) (base ++ item ∷ items)
        × Prefixes history top (base ++ item ∷ items) rest
        × Upto history top (max_seq (item ∷ items)) (base ++ item ∷ items)
  Prefixes-run item [] rest base p =
      (p.0, p.1, subst (λ k. Upto history top k (base ++ item ∷ [])) (sym (max_zero item.seq)) p.0)
  Prefixes-run item (next' ∷ items) rest base p =
      let r =
        subst
          (λ b.
            Upto history top (last_seq next' items) b
            × Prefixes history top b rest
            × Upto history top (max_seq (next' ∷ items)) b)
          (append_assoc base (item ∷ []) (next' ∷ items))
          (Prefixes-run next' items rest (base ++ item ∷ []) p.1) in
      let first =
        Upto-lift history history top top (Extends-refl history top) item.seq (base ++ item ∷ [])
          (base ++ item ∷ next' ∷ items)
          (λ x m.
            subst (Member x) (append_assoc base (item ∷ []) (next' ∷ items))
              (append-Member_left x (base ++ item ∷ []) (next' ∷ items) m))
          p.0 in
      (
        r.0,
        r.1,
        Upto-max item.seq (max_seq (next' ∷ items)) (base ++ item ∷ next' ∷ items) first r.2,
      )

  -- The snapshot of a flush: what is behind the mark, in order.
  pub Prefixes-unsent :
      (sent low : ℕ) (outbox base : List (Outgoing V))
      → Ascending low outbox
      → ((x : Outgoing V) → Member x outbox → x.seq ≤ top)
      → ((x : Outgoing V) → Member x history → Member x base ⊎ Member x outbox)
      → ((x : Outgoing V) → Member x history → x.seq ≤ sent → Member x base)
      → Prefixes history top base (filter_by (λ item. ltb sent item.seq) outbox)
  unfolding filter_by
  Prefixes-unsent sent low [] base a b h u = tt
  Prefixes-unsent sent low (item ∷ items) base a b h u = elim (Bool-cases (ltb sent item.seq)) [
    | inl unsent' ↦ rw (unsent') (
      (b item (inl refl), upto),
      Prefixes-unsent sent item.seq items (base ++ item ∷ []) a.1 (λ x m. b x (inr m)) taken
          (λ x m le. append-Member_left x base (item ∷ []) (u x m le)),
    )
    | inr done ↦ rw (done) (
        Prefixes-unsent sent item.seq items base a.1 (λ x m. b x (inr m)) (passed (ground arith)) u)
  ]
    where
      upto : (x : Outgoing V) → Member x history → x.seq ≤ item.seq → Member x (base ++ item ∷ [])
      upto x m le = elim (h x m) [
        | inl old ↦ append-Member_left x base (item ∷ []) old
        | inr (inl e) ↦ append-Member_right x base (item ∷ []) (inl e)
        | inr (inr later) ↦ absurd (omega (arith, Ascending-Member item.seq x items a.1 later))
      ]

      taken : (x : Outgoing V) → Member x history → Member x (base ++ item ∷ []) ⊎ Member x items
      taken x m = elim (h x m) [
        | inl old ↦ inl (append-Member_left x base (item ∷ []) old)
        | inr (inl e) ↦ inl (append-Member_right x base (item ∷ []) (inl e))
        | inr (inr later) ↦ inr later
      ]

      passed :
          item.seq ≤ sent → (x : Outgoing V) → Member x history → Member x base ⊎ Member x items
      passed done x m = elim (h x m) [
        | inl old ↦ inl old
        | inr (inl e) ↦ inl (u x m (subst (λ y. y.seq ≤ sent) (sym e) done))
        | inr (inr later) ↦ inr later
      ]
