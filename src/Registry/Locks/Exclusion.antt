-- ===== src/Registry/Locks/Exclusion.antt =====
-- Every step of the keyed locks of crates/oad/src/registry.rs keeps them sound; so two guards of
-- one key never coexist, and a map at rest is empty.
use omniagent.Prelude.{
  ℕ, zero, suc, ◌+◌, ◌<◌, ◌≡◌, refl, ◌↔◌, ◌⊎◌, inl, inr, ◌∙◌, sym, ap, Bool, true, false, Option,
  none, some, List, arith, Text, text_eq, text_eq_iff, get_elem?, set, count_if, count_if-set,
  count_if_pos, count_if_unique, get_elem?-set_self, get_elem?-set_ne, Bool-cases, Option-cases,
}
use native.Mathlib.Decide.{ℕ_discrete}
use omniagent.Prelude.BTreeMap.{get, get-insert}
use omniagent.Registry.Locks.{
  NamedLockSlot, Task, idle, waiting, holding, leaving, NamedLocks, slot_or_new, drop_holder,
  acquire, grant, cancel, release, unlock, update_lock, Step, acquires, grants, cancels, releases,
  unlocks, Reach, here, next, start, replicate,
}
use omniagent.Registry.Locks.Slots.{
  holders_of, lock_of, uses, owns, claimed, IsSound, holders-drop_holder, lock-drop_holder,
  positive-drop_holder,
}

-- What `get_elem?` says after a write: the new task at its place, the old ones elsewhere.
set_cases :
    (ts : List Task) (i j : ℕ) (old new t : Task)
    → get_elem? ts i ≡ some old
    → get_elem? (set ts i new) j ≡ some t
    → ((i ≡ j) × (t ≡ new)) ⊎ (get_elem? ts j ≡ some t)
set_cases ts i j old new t h k = elim (ℕ_discrete i j) [
  | yes e ↦ inl (e, ground (arith, get_elem?-set_self ts i old new h))
  | no d ↦ inr (ground (arith, get_elem?-set_ne ts i j new d))
]

slot_or_new-holders :
    (fresh : ℕ) (o : Option NamedLockSlot) → (slot_or_new fresh o).holders ≡ holders_of o
unfolding slot_or_new
slot_or_new-holders fresh none = refl
slot_or_new-holders fresh (some slot) = refl

slot_or_new-lock :
    (fresh : ℕ) (o : Option NamedLockSlot) (l : Option ℕ)
    → 0 < holders_of o
    → lock_of o ≡ l
    → some (slot_or_new fresh o).lock ≡ l
unfolding slot_or_new
slot_or_new-lock fresh none l h e = absurd (omega arith)
slot_or_new-lock fresh (some slot) l h e = e

-- A step in which a call stops to count as a holder.
module _ (i : ℕ) (key : Text) (old new : Task) (s : NamedLocks) (h : IsSound s)
    (at : get_elem? s.tasks i ≡ some old) (was : (k : Text) → uses k old ≡ text_eq key k)
    (now : (k : Text) → uses k new ≡ false) where
  drop-counted :
      (k : Text)
      → holders_of (get k (drop_holder key s.slots)) ≡ count_if (uses k) (set s.tasks i new)
  drop-counted k = ground (
    arith,
    holders-drop_holder key k s.slots,
    h.counted k,
    count_if-set (uses k) s.tasks i old new at,
    was k,
    now k,
  )

  drop-attached :
      (j : ℕ) (t : Task) (k : Text)
      → get_elem? (set s.tasks i new) j ≡ some t
      → uses k t ≡ true
      → lock_of (get k (drop_holder key s.slots)) ≡ claimed t
  drop-attached j t k e u = elim (set_cases s.tasks i j old new t at e) [
    | inl (_, same) ↦ cc (now k)
    | inr before ↦
        lock-drop_holder key k s.slots
          (rw (drop-counted k) (count_if_pos (uses k) (set s.tasks i new) j t e u))
        ∙ h.attached j t k before u
  ]

cancel-IsSound :
    (i : ℕ) (key : Text) (l : ℕ) (s : NamedLocks)
    → IsSound s
    → get_elem? s.tasks i ≡ some (waiting key l)
    → IsSound (cancel i key s)
unfolding cancel
cancel-IsSound i key l s h at = record {
  counted = drop-counted i key (waiting key l) idle s h at (λ k. refl) (λ k. refl);
  positive = λ k slot e. positive-drop_holder key k s.slots slot (h.positive k) e;
  attached = drop-attached i key (waiting key l) idle s h at (λ k. refl) (λ k. refl);
  owned = λ j. ground (arith, h.owned j, count_if-set (owns j) s.tasks i (waiting key l) idle at);
}

release-IsSound :
    (i : ℕ) (key : Text) (l : ℕ) (s : NamedLocks)
    → IsSound s
    → get_elem? s.tasks i ≡ some (holding key l)
    → IsSound (release i key l s)
unfolding release
release-IsSound i key l s h at = record {
  counted = drop-counted i key (holding key l) (leaving l) s h at (λ k. refl) (λ k. refl);
  positive = λ k slot e. positive-drop_holder key k s.slots slot (h.positive k) e;
  attached = drop-attached i key (holding key l) (leaving l) s h at (λ k. refl) (λ k. refl);
  owned = λ j.
      ground (arith, h.owned j, count_if-set (owns j) s.tasks i (holding key l) (leaving l) at);
}

grant-IsSound :
    (i : ℕ) (key : Text) (l : ℕ) (s : NamedLocks)
    → IsSound s
    → get_elem? s.tasks i ≡ some (waiting key l)
    → s.locked l ≡ false
    → IsSound (grant i key l s)
unfolding grant update_lock
grant-IsSound i key l s h at free = record {
  counted = λ k.
      ground
        (arith, h.counted k, count_if-set (uses k) s.tasks i (waiting key l) (holding key l) at);
  positive = h.positive;
  attached = λ j t k e u. elim (set_cases s.tasks i j (waiting key l) (holding key l) t at e) [
    | inl (_, same) ↦ h.attached i (waiting key l) k at (rw same at u) ∙ sym (ap claimed same)
    | inr before ↦ h.attached j t k before u
  ];
  owned = λ j.
      ground (
        arith,
        h.owned j,
        free,
        count_if-set (owns j) s.tasks i (waiting key l) (holding key l) at,
      );
}

unlock-IsSound :
    (i l : ℕ) (s : NamedLocks)
    → IsSound s
    → get_elem? s.tasks i ≡ some (leaving l)
    → IsSound (unlock i l s)
unfolding unlock update_lock
unlock-IsSound i l s h at = record {
  counted = λ k. ground (arith, h.counted k, count_if-set (uses k) s.tasks i (leaving l) idle at);
  positive = h.positive;
  attached = λ j t k e u. elim (set_cases s.tasks i j (leaving l) idle t at e) [
    | inl (_, same) ↦ cc (ap (uses k) same)
    | inr before ↦ h.attached j t k before u
  ];
  owned = λ j. ground (
    arith,
    h.owned j,
    h.owned l,
    count_if-set (owns j) s.tasks i (leaving l) idle at,
    count_if_pos (owns l) s.tasks i (leaving l) at,
  );
}

module _ (i : ℕ) (key : Text) (s : NamedLocks) (h : IsSound s)
    (at : get_elem? s.tasks i ≡ some idle) where
  taken : NamedLockSlot
  taken = slot_or_new s.next_lock (get key s.slots)

  acquire-counted :
      (k : Text)
      → holders_of (get k (acquire i key s).slots) ≡ count_if (uses k) (acquire i key s).tasks
  unfolding acquire taken
  acquire-counted k = ground (
    arith,
    get-insert key k (record taken { holders = taken.holders + 1 }) s.slots,
    h.counted k,
    text_eq_iff key k,
    slot_or_new-holders s.next_lock (get key s.slots),
    count_if-set (uses k) s.tasks i idle (waiting key taken.lock) at,
  )

  acquire-attached :
      (j : ℕ) (t : Task) (k : Text)
      → get_elem? (acquire i key s).tasks j ≡ some t
      → uses k t ≡ true
      → lock_of (get k (acquire i key s).slots) ≡ claimed t
  unfolding acquire taken
  acquire-attached j t k e u = elim (set_cases s.tasks i j idle (waiting key taken.lock) t at e) [
    | inl (_, same) ↦
        rw (get-insert key k (record taken { holders = taken.holders + 1 }) s.slots, rw same at u)
          (sym (ap claimed same))
    | inr before ↦ elim (Bool-cases (text_eq key k)) [
      | inl eq ↦
          let here : key ≡ k = (text_eq_iff key k).0 eq in
          rw (get-insert key k (record taken { holders = taken.holders + 1 }) s.slots, eq)
            (slot_or_new-lock s.next_lock (get key s.slots) (claimed t)
              (rw (here, h.counted k) (count_if_pos (uses k) s.tasks j t before u))
              (rw here (h.attached j t k before u)))
      | inr ne ↦
          rw (get-insert key k (record taken { holders = taken.holders + 1 }) s.slots, ne)
            (h.attached j t k before u)
    ]
  ]

  acquire-IsSound : IsSound (acquire i key s)
  unfolding acquire taken
  acquire-IsSound = record {
    counted = acquire-counted;
    positive = λ k slot e. ground (
      arith,
      get-insert key k (record taken { holders = taken.holders + 1 }) s.slots,
      h.positive k slot,
    );
    attached = acquire-attached;
    owned = λ l.
        ground (arith, h.owned l, count_if-set (owns l) s.tasks i idle (waiting key taken.lock) at);
  }

pub Step-IsSound : {s t : NamedLocks} → Step s t → IsSound s → IsSound t
Step-IsSound {s} (acquires i key at) h = acquire-IsSound i key s h at
Step-IsSound {s} (grants i key l at free) h = grant-IsSound i key l s h at free
Step-IsSound {s} (cancels i key l at) h = cancel-IsSound i key l s h at
Step-IsSound {s} (releases i key l at) h = release-IsSound i key l s h at
Step-IsSound {s} (unlocks i l at) h = unlock-IsSound i l s h at

count_if-replicate : (p : Task → Bool) (n : ℕ) → p idle ≡ false → count_if p (replicate n idle) ≡ 0
unfolding count_if
count_if-replicate p zero h = refl
count_if-replicate p (suc n) h = ground (arith, count_if-replicate p n h)

replicate-idle : (n i : ℕ) (t : Task) → get_elem? (replicate n idle) i ≡ some t → t ≡ idle
replicate-idle zero i t e = cc
replicate-idle (suc n) zero t e = cc
replicate-idle (suc n) (suc i) t e = replicate-idle n i t e

start-IsSound : (n : ℕ) → IsSound (start n)
unfolding get
start-IsSound n = record {
  counted = λ k. sym (count_if-replicate (uses k) n refl);
  positive = λ k slot e. cc;
  attached = λ i t k e u. cc (ap (uses k) (replicate-idle n i t e));
  owned = λ l. count_if-replicate (owns l) n refl;
}

pub Reach-IsSound : {n : ℕ} {s : NamedLocks} → Reach n s → IsSound s
Reach-IsSound {n} here = start-IsSound n
Reach-IsSound (next r st) = Step-IsSound st (Reach-IsSound r)

-- In every reachable state at most one guard of a key is held: two calls that hold the lock of one
-- key are one call, although slots come and go and waiters are cancelled.
pub mutual_exclusion :
    {n : ℕ} {s : NamedLocks}
    → Reach n s
    → (key : Text) (i j l l' : ℕ) → get_elem? s.tasks i ≡ some (holding key l)
    → get_elem? s.tasks j ≡ some (holding key l')
    → i ≡ j
mutual_exclusion {s} r key i j l l' hi hj =
    let h = Reach-IsSound r in
    let self : text_eq key key ≡ true = (text_eq_iff key key).1 refl in
    let same : l ≡ l' = ground (
      arith,
      h.attached i (holding key l) key hi self,
      h.attached j (holding key l') key hj self,
    ) in
    count_if_unique (owns l) s.tasks i j (holding key l) (holding key l')
      (ground (arith, h.owned l)) hi hj (ground arith) (ground arith)

-- The map is bounded by the calls in flight: a key has a slot exactly while some call waits for or
-- holds its lock, and the slot counts those calls.
pub slots_bounded :
    {n : ℕ} {s : NamedLocks}
    → Reach n s
    → (key : Text)
    → (holders_of (get key s.slots) ≡ count_if (uses key) s.tasks)
      × ((get key s.slots ≡ none) ↔ (count_if (uses key) s.tasks ≡ 0))
slots_bounded {s} r key =
    let h = Reach-IsSound r in
    (
      h.counted key,
      (
        λ e. ground (arith, h.counted key),
        λ z. elim (Option-cases (get key s.slots)) [
          | inl e ↦ e
          | inr (slot, e) ↦ absurd (ground (arith, h.counted key, h.positive key slot e))
        ],
      ),
    )
