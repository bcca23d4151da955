-- ===== src/Registry/Locks.antt =====
-- Keyed locks that leave no entry behind: `NamedLocks` of crates/oad/src/registry.rs, whose code
-- `SandboxRegistry::acquire_lifecycle`, `PendingLifecycleHolder` and `LifecycleGuard` repeat.
-- An `Arc<Mutex<()>>` is the number of a mutex, so that a slot made anew has a new mutex. A task is
-- one call of `acquire` with the guard it returns; its awaits are the places where others run.
pub mod Slots
pub mod Exclusion
use omniagent.Prelude.{
  ℕ, zero, suc, ◌+◌, ◌-◌, ◌≡◌, Bool, true, false, Option, none, some, List, [], ◌∷◌, Text, text_eq,
  get_elem?, set, ◌==◌, if◌then◌else◌,
}
use omniagent.Prelude.BTreeMap.{BTreeMap, get, insert, remove}

pub record NamedLockSlot : Type 0 where
  pub lock : ℕ
  pub holders : ℕ

-- Where a call stands: not begun or all done; waiting in `lock_owned` behind the pending holder;
-- with the guard in the caller's hands; and in the guard's drop, after `Drop::drop` has run and
-- before the field `_guard` unlocks the mutex.
pub data Task : Type 0 where
  idle : Task
  waiting : (key : Text) (lock : ℕ) → Task
  holding : (key : Text) (lock : ℕ) → Task
  leaving : (lock : ℕ) → Task

pub record NamedLocks : Type 0 where
  pub slots : BTreeMap NamedLockSlot
  pub locked : ℕ → Bool
  pub next_lock : ℕ
  pub tasks : List Task

unfoldable pub slot_or_new : ℕ → Option NamedLockSlot → NamedLockSlot
slot_or_new fresh none = record { lock = fresh; holders = 0 }
slot_or_new fresh (some slot) = slot

-- The block under the map's lock at the start of `acquire`.
unfoldable pub acquire : ℕ → Text → NamedLocks → NamedLocks
unfolding slot_or_new
acquire i key s =
    let slot = slot_or_new s.next_lock (get key s.slots) in
    record s {
      slots = insert key (record slot { holders = slot.holders + 1 }) s.slots;
      next_lock = s.next_lock + 1;
      tasks = set s.tasks i (waiting key slot.lock);
    }

-- `drop` of the pending holder and of the guard. No slot stands at 0 holders (`IsSound.positive`),
-- so the subtraction is exact.
unfoldable pub drop_slot :
    Text → Option NamedLockSlot → BTreeMap NamedLockSlot → BTreeMap NamedLockSlot
drop_slot key none slots = slots
drop_slot key (some slot) slots =
    if (slot.holders - 1) == 0
    then remove key slots
    else insert key (record slot { holders = slot.holders - 1 }) slots

unfoldable pub drop_holder : Text → BTreeMap NamedLockSlot → BTreeMap NamedLockSlot
unfolding drop_slot
drop_holder key slots = drop_slot key (get key slots) slots

unfoldable pub update_lock : (ℕ → Bool) → ℕ → Bool → ℕ → Bool
update_lock locked l b j = if j == l then b else locked j

-- `lock_owned` returns: the mutex was free, and the pending holder is disarmed.
unfoldable pub grant : ℕ → Text → ℕ → NamedLocks → NamedLocks
unfolding update_lock
grant i key l s = record s {
  locked = update_lock s.locked l true;
  tasks = set s.tasks i (holding key l);
}

-- The caller is cancelled while it waits.
unfoldable pub cancel : ℕ → Text → NamedLocks → NamedLocks
unfolding drop_holder
cancel i key s = record s { slots = drop_holder key s.slots; tasks = set s.tasks i idle }

-- The guard is dropped: first the holder, then the mutex.
unfoldable pub release : ℕ → Text → ℕ → NamedLocks → NamedLocks
unfolding drop_holder
release i key l s = record s { slots = drop_holder key s.slots; tasks = set s.tasks i (leaving l) }

unfoldable pub unlock : ℕ → ℕ → NamedLocks → NamedLocks
unfolding update_lock
unlock i l s = record s { locked = update_lock s.locked l false; tasks = set s.tasks i idle }

-- One step of one task, in any order: `grant` waits for a free mutex.
pub data Step (s : NamedLocks) : NamedLocks → Type 0 where
  acquires : (i : ℕ) (key : Text) → get_elem? s.tasks i ≡ some idle → Step s (acquire i key s)
  grants :
      (i : ℕ) (key : Text) (l : ℕ)
      → get_elem? s.tasks i ≡ some (waiting key l)
      → s.locked l ≡ false
      → Step s (grant i key l s)
  cancels :
      (i : ℕ) (key : Text) (l : ℕ)
      → get_elem? s.tasks i ≡ some (waiting key l)
      → Step s (cancel i key s)
  releases :
      (i : ℕ) (key : Text) (l : ℕ)
      → get_elem? s.tasks i ≡ some (holding key l)
      → Step s (release i key l s)
  unlocks : (i l : ℕ) → get_elem? s.tasks i ≡ some (leaving l) → Step s (unlock i l s)

abbrev pub replicate : ℕ → Task → List Task
replicate zero t = []
replicate (suc n) t = t ∷ replicate n t

-- `NamedLocks::default`, with `n` calls yet to come.
abbrev pub start : ℕ → NamedLocks
start n = record { slots = []; locked = λ l. false; next_lock = 0; tasks = replicate n idle }

pub data Reach (n : ℕ) : NamedLocks → Type 0 where
  here : Reach n (start n)
  next : {s t : NamedLocks} → Reach n s → Step s t → Reach n t
