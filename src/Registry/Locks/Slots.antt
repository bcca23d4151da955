-- ===== src/Registry/Locks/Slots.antt =====
-- What the invariant of the keyed locks (crates/oad/src/registry.rs) says, and the map of slots.
use omniagent.Prelude.{
  ℕ, ◌-◌, ◌<◌, ◌≡◌, refl, Bool, true, false, Option, none, some, arith, Text, text_eq, text_eq_iff,
  get_elem?, count_if, ◌==◌, if◌then◌else◌,
}
use omniagent.Prelude.BTreeMap.{BTreeMap, get, get-insert, get-remove}
use omniagent.Registry.Locks.{
  NamedLockSlot, Task, idle, waiting, holding, leaving, NamedLocks, drop_slot, drop_holder,
}

abbrev pub holders_of : Option NamedLockSlot → ℕ
holders_of none = 0
holders_of (some slot) = slot.holders

abbrev pub lock_of : Option NamedLockSlot → Option ℕ
lock_of none = none
lock_of (some slot) = some slot.lock

-- The call counts as a holder of the key's slot.
abbrev pub uses : Text → Task → Bool
uses k idle = false
uses k (waiting key l) = text_eq key k
uses k (holding key l) = text_eq key k
uses k (leaving l) = false

-- The call has the mutex locked.
abbrev pub owns : ℕ → Task → Bool
owns l idle = false
owns l (waiting key j) = false
owns l (holding key j) = j == l
owns l (leaving j) = j == l

-- The mutex that a call which counts as a holder waits for or holds.
abbrev pub claimed : Task → Option ℕ
claimed idle = none
claimed (waiting key l) = some l
claimed (holding key l) = some l
claimed (leaving l) = none

pub record IsSound (s : NamedLocks) : Type 0 where
  pub counted : (k : Text) → holders_of (get k s.slots) ≡ count_if (uses k) s.tasks
  pub positive : (k : Text) (slot : NamedLockSlot) → get k s.slots ≡ some slot → 0 < slot.holders
  pub attached :
      (i : ℕ) (t : Task) (k : Text)
      → get_elem? s.tasks i ≡ some t
      → uses k t ≡ true
      → lock_of (get k s.slots) ≡ claimed t
  pub owned : (l : ℕ) → count_if (owns l) s.tasks ≡ (if s.locked l then 1 else 0)

module _ (k j : Text) (m : BTreeMap NamedLockSlot) where
  holders-drop_slot :
      (o : Option NamedLockSlot)
      → get k m ≡ o
      → holders_of (get j (drop_slot k o m))
        ≡ (if text_eq k j then holders_of (get j m) - 1 else holders_of (get j m))
  unfolding drop_slot
  holders-drop_slot none e = ground (arith, text_eq_iff k j)
  holders-drop_slot (some slot) e = ground (
    arith,
    text_eq_iff k j,
    get-remove k j m,
    get-insert k j (record slot { holders = slot.holders - 1 }) m,
  )

  lock-drop_slot :
      (o : Option NamedLockSlot)
      → get k m ≡ o
      → 0 < holders_of (get j (drop_slot k o m))
      → lock_of (get j (drop_slot k o m)) ≡ lock_of (get j m)
  unfolding drop_slot
  lock-drop_slot none e h = refl
  lock-drop_slot (some slot) e h = ground (
    arith,
    text_eq_iff k j,
    get-remove k j m,
    get-insert k j (record slot { holders = slot.holders - 1 }) m,
  )

  positive-drop_slot :
      (o : Option NamedLockSlot) (slot' : NamedLockSlot)
      → get k m ≡ o
      → ((slot : NamedLockSlot) → get j m ≡ some slot → 0 < slot.holders)
      → get j (drop_slot k o m) ≡ some slot'
      → 0 < slot'.holders
  unfolding drop_slot
  positive-drop_slot none slot' e pos h = pos slot' h
  positive-drop_slot (some slot) slot' e pos h = ground (
    arith,
    text_eq_iff k j,
    get-remove k j m,
    pos slot',
    get-insert k j (record slot { holders = slot.holders - 1 }) m,
  )

pub holders-drop_holder :
    (k j : Text) (m : BTreeMap NamedLockSlot)
    → holders_of (get j (drop_holder k m))
      ≡ (if text_eq k j then holders_of (get j m) - 1 else holders_of (get j m))
unfolding drop_holder
holders-drop_holder k j m = holders-drop_slot k j m (get k m) refl

-- A slot that survives the drop keeps its mutex.
pub lock-drop_holder :
    (k j : Text) (m : BTreeMap NamedLockSlot)
    → 0 < holders_of (get j (drop_holder k m))
    → lock_of (get j (drop_holder k m)) ≡ lock_of (get j m)
unfolding drop_holder
lock-drop_holder k j m h = lock-drop_slot k j m (get k m) refl h

-- No slot is left behind with no holder.
pub positive-drop_holder :
    (k j : Text) (m : BTreeMap NamedLockSlot) (slot' : NamedLockSlot)
    → ((slot : NamedLockSlot) → get j m ≡ some slot → 0 < slot.holders)
    → get j (drop_holder k m) ≡ some slot'
    → 0 < slot'.holders
unfolding drop_holder
positive-drop_holder k j m slot' pos h = positive-drop_slot k j m (get k m) slot' refl pos h
