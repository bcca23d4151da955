-- ===== src/Client/Link/Stored.antt =====
-- The server's rows under the frames of one client: what a frame stores, and what it leaves.
use omniagent.Prelude.{
  ◌≡◌, refl, sym, ap, subst, ◌∙◌, true, Bool-cases, ◌⊎◌, inl, inr, List, [], ◌∷◌, ◌++◌, arith, any,
  Member, append-Member_left, append-Member_right, append-Member_split,
}
use omniagent.Client.Channel.{Outgoing}
use omniagent.Client.Link.{
  Frame, one, batch, heartbeat, carried, same_key, store, store_all, Server, Outcome, accepts,
  refuses, rowless, handle_in, refused_by, update_last_sequence, answer_rowless,
}
use omniagent.Client.Link.Claims.{Within}

-- An item of the history and a row of its number are one.
abbrev pub Keyed : {V : Type 0} → List (Outgoing V) → List (Outgoing V) → Type 0
Keyed {V} history stored =
    (x y : Outgoing V) → Member x history → Member y stored → x.seq ≡ y.seq → x ≡ y

module _ {V : Type 0} where
  store_keeps : (x : Outgoing V) (stored : List (Outgoing V)) → Within stored (store x stored)
  unfolding store
  store_keeps x stored y m = elim (Bool-cases (any (same_key x) stored)) [
    | inl there ↦ rw (store, there) m
    | inr fresh ↦ rw (store, fresh) (append-Member_left y stored (x ∷ []) m)
  ]

  store_from :
      (x y : Outgoing V) (stored : List (Outgoing V))
      → Member y (store x stored)
      → Member y stored ⊎ (y ≡ x)
  unfolding store
  store_from x y stored m = elim (Bool-cases (any (same_key x) stored)) [
    | inl there ↦ inl (rw (there) at m)
    | inr fresh ↦ elim (append-Member_split y stored (x ∷ []) (rw (fresh) at m)) [
      | inl old ↦ inl old
      | inr (inl e) ↦ inr e
      | inr (inr bad) ↦ elim bad [ ]
    ]
  ]

  -- A conflict is with the item itself.
  conflict :
      (x : Outgoing V) (stored : List (Outgoing V))
      → ((y : Outgoing V) → Member y stored → x.seq ≡ y.seq → x ≡ y)
      → any (same_key x) stored ≡ true
      → Member x stored
  conflict x [] k h = cc
  conflict x (y ∷ stored) k h = elim (Bool-cases (same_key x y)) [
    | inl same ↦ inl (k y (inl refl) (ground arith))
    | inr other ↦ inr (conflict x stored (λ z m. k z (inr m)) (rw (other) at h))
  ]

  store-Member :
      (x : Outgoing V) (stored : List (Outgoing V))
      → ((y : Outgoing V) → Member y stored → x.seq ≡ y.seq → x ≡ y)
      → Member x (store x stored)
  unfolding store
  store-Member x stored k = elim (Bool-cases (any (same_key x) stored)) [
    | inl there ↦ rw (store, there) (conflict x stored k there)
    | inr fresh ↦ rw (store, fresh) (append-Member_right x stored (x ∷ []) (inl refl))
  ]

  pub store_all_keeps : (items stored : List (Outgoing V)) → Within stored (store_all items stored)
  unfolding store_all
  store_all_keeps [] stored y m = m
  store_all_keeps (x ∷ items) stored y m =
      store_all_keeps items (store x stored) y (store_keeps x stored y m)

  pub store_all_from :
      (items stored : List (Outgoing V)) (y : Outgoing V)
      → Member y (store_all items stored)
      → Member y stored ⊎ Member y items
  unfolding store_all
  store_all_from [] stored y m = inl m
  store_all_from (x ∷ items) stored y m = elim (store_all_from items (store x stored) y m) [
    | inl old ↦ elim (store_from x y stored old) [ inl o ↦ inl o | inr e ↦ inr (inl e) ]
    | inr new ↦ inr (inr new)
  ]

  module _ (history : List (Outgoing V))
      (single : (x y : Outgoing V)
        → Member x history
        → Member y history
        → x.seq ≡ y.seq
        → x ≡ y) where
    store-Keyed :
        (x : Outgoing V) (stored : List (Outgoing V))
        → Member x history
        → Keyed history stored
        → Keyed history (store x stored)
    store-Keyed x stored known k z y mz my e = elim (store_from x y stored my) [
      | inl old ↦ k z y mz old e
      | inr new ↦ single z x mz known (e ∙ ap (λ w. w.seq) new) ∙ sym new
    ]

    -- Every item of a frame is stored after it was taken.
    pub store_all-Within :
        (items stored : List (Outgoing V))
        → Within items history
        → Keyed history stored
        → Within items (store_all items stored)
    unfolding store_all
    store_all-Within [] stored known k y m = elim m [ ]
    store_all-Within (x ∷ items) stored known k y (inl e) =
        store_all_keeps items (store x stored) y (
          subst (λ z. Member z (store x stored)) (sym e)
            (store-Member x stored (λ z m. k x z (known x (inl refl)) m)))
    store_all-Within (x ∷ items) stored known k y (inr m) =
        store_all-Within items (store x stored) (λ z n. known z (inr n))
          (store-Keyed x stored (known x (inl refl)) k) y m

    pub store_all-Keyed :
        (items stored : List (Outgoing V))
        → Within items history
        → Keyed history stored
        → Keyed history (store_all items stored)
    store_all-Keyed items stored known k z y mz my e = elim (store_all_from items stored y my) [
      | inl old ↦ k z y mz old e
      | inr new ↦ single z y mz (known y new) e
    ]

  -- The items of a frame are stored, or they are refused.
  handle_in_stored :
      (outcome : Outcome) (frame : Frame V) (server : Server V)
      → ((handle_in outcome frame server).stored ≡ store_all (carried frame) server.stored)
        ⊎ (((handle_in outcome frame server).stored ≡ server.stored)
            × (refused_by outcome frame ≡ carried frame))
  unfolding handle_in store_all update_last_sequence answer_rowless
  handle_in_stored accepts (one item) server = inl refl
  handle_in_stored accepts (batch items) server = inl refl
  handle_in_stored accepts (heartbeat seq) server = inl refl
  handle_in_stored refuses frame server = inr (refl, refl)
  handle_in_stored rowless (one item) server = inr (refl, refl)
  handle_in_stored rowless (batch items) server = inr (refl, refl)
  handle_in_stored rowless (heartbeat seq) server = inr (refl, refl)

  pub handle_in_from :
      (outcome : Outcome) (frame : Frame V) (server : Server V) (y : Outgoing V)
      → Member y (handle_in outcome frame server).stored
      → Member y server.stored ⊎ Member y (carried frame)
  handle_in_from outcome frame server y m = elim (handle_in_stored outcome frame server) [
    | inl rows ↦ store_all_from (carried frame) server.stored y (subst (Member y) rows m)
    | inr (rows, left) ↦ inl (subst (Member y) rows m)
  ]

  handle_in_keeps :
      (outcome : Outcome) (frame : Frame V) (server : Server V)
      → Within server.stored (handle_in outcome frame server).stored
  handle_in_keeps outcome frame server x m = elim (handle_in_stored outcome frame server) [
    | inl rows ↦ subst (Member x) (sym rows) (store_all_keeps (carried frame) server.stored x m)
    | inr (rows, left) ↦ subst (Member x) (sym rows) m
  ]

  module _ (history : List (Outgoing V))
      (single : (x y : Outgoing V) → Member x history → Member y history → x.seq ≡ y.seq → x ≡ y)
      (outcome : Outcome) (frame : Frame V) (server : Server V)
      (known : Within (carried frame) history) (keyed : Keyed history server.stored) where
    pub handle_in-Keyed : Keyed history (handle_in outcome frame server).stored
    handle_in-Keyed = elim (handle_in_stored outcome frame server) [
      | inl rows ↦
          subst (Keyed history) (sym rows)
            (store_all-Keyed history single (carried frame) server.stored known keyed)
      | inr (rows, left) ↦ subst (Keyed history) (sym rows) keyed
    ]

    taken :
        (x : Outgoing V)
        → Member x (carried frame)
        → Member x (refused_by outcome frame) ⊎ Member x (handle_in outcome frame server).stored
    taken x m = elim (handle_in_stored outcome frame server) [
      | inl rows ↦ inr (
          subst (Member x) (sym rows)
            (store_all-Within history single (carried frame) server.stored known keyed x m))
      | inr (rows, left) ↦ inl (subst (Member x) (sym left) m)
    ]

    -- What was refused, dropped or stored, and the items of a frame: all of it is refused, dropped or
    -- stored once the frame was taken.
    pub handle_in-Within :
        (refused shed : List (Outgoing V))
        → Within (((refused ++ shed) ++ server.stored) ++ carried frame) (
            ((refused ++ refused_by outcome frame) ++ shed)
            ++ (handle_in outcome frame server).stored)
    handle_in-Within refused shed x m =
        elim (append-Member_split x ((refused ++ shed) ++ server.stored) (carried frame) m) [
          | inl before ↦ elim (append-Member_split x (refused ++ shed) server.stored before) [
            | inl gone ↦ elim (append-Member_split x refused shed gone) [
              | inl old ↦ left (append-Member_left x refused (refused_by outcome frame) old)
              | inr cut ↦
                  append-Member_left x ((refused ++ refused_by outcome frame) ++ shed)
                    (handle_in outcome frame server).stored
                    (append-Member_right x (refused ++ refused_by outcome frame) shed cut)
            ]
            | inr row ↦ stored (handle_in_keeps outcome frame server x row)
          ]
          | inr new ↦ elim (taken x new) [
            | inl dropped ↦ left (append-Member_right x refused (refused_by outcome frame) dropped)
            | inr row ↦ stored row
          ]
        ]
      where
        stored :
            Member x (handle_in outcome frame server).stored
            → Member x (
                ((refused ++ refused_by outcome frame) ++ shed)
                ++ (handle_in outcome frame server).stored)
        stored row =
            append-Member_right x ((refused ++ refused_by outcome frame) ++ shed)
              (handle_in outcome frame server).stored row

        left :
            Member x (refused ++ refused_by outcome frame)
            → Member x (
                ((refused ++ refused_by outcome frame) ++ shed)
                ++ (handle_in outcome frame server).stored)
        left m =
            append-Member_left x ((refused ++ refused_by outcome frame) ++ shed)
              (handle_in outcome frame server).stored
              (append-Member_left x (refused ++ refused_by outcome frame) shed m)
