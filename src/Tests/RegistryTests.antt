-- ===== src/Tests/RegistryTests.antt =====
-- crates/oad/src/registry.rs: two calls for one lock, and a record that is updated.
use omniagent.Prelude.{
  ℕ, ◌≡◌, ◌≢◌, refl, ◌↔◌, none, some, [], ◌∷◌, Text, codes, text_eq, text_cmp, count_if, ok, err,
  if◌then◌else◌, get_elem?,
}
use omniagent.Prelude.BTreeMap.{get, insert, remove}
use omniagent.Core.Ids.{SandboxId}
use omniagent.Core.Record.{SandboxRecord, new_pending, set_status, running}
use omniagent.Registry.Locks.{
  NamedLocks, waiting, holding, acquire, grant, release, unlock, drop_holder, acquires, grants,
  releases, unlocks, Reach, here, next,
}
use omniagent.Registry.Locks.Slots.{holders_of, uses}
use omniagent.Registry.Locks.Exclusion.{mutual_exclusion, slots_bounded}
use omniagent.Registry.Records.{
  written, failed, unsynced, SandboxRegistry, insert_record, update, get_record, remove_record,
}
use omniagent.Registry.Records.Durability.{
  IsDurable, Leaves, insert_record-IsDurable, update-IsDurable, update_lem, update_races_remove,
}

abbrev key : Text
key = codes "web"

-- Call 0 takes the lock and gives it up; its slot is gone before call 1 asks, which so has a new
-- mutex, while the old one is still locked.
abbrev gone : NamedLocks
gone = release 0 key 0 (grant 0 key 0 (acquire 0 key (omniagent.Registry.Locks.start 2)))

gone_reached : Reach 2 gone
unfolding acquire grant get insert
gone_reached =
    next (next (next here (acquires 0 key refl)) (grants 0 key 0 refl refl)) (releases 0 key 0 refl)

abbrev handed : NamedLocks
handed = grant 1 key 1 (acquire 1 key gone)

handed_reached : Reach 2 handed
unfolding acquire grant release get insert remove text_eq text_cmp
handed_reached = next (next gone_reached (acquires 1 key refl)) (grants 1 key 1 refl refl)

holds_1 : get_elem? handed.tasks 1 ≡ some (holding key 1)
unfolding acquire grant release
holds_1 = refl

mutual_exclusion_example : ◌≡◌ {A = ℕ} 1 1
mutual_exclusion_example = mutual_exclusion handed_reached key 1 1 1 1 holds_1 holds_1

slots_bounded_example :
    (holders_of (get key handed.slots) ≡ count_if (uses key) handed.tasks)
    × ((get key handed.slots ≡ none) ↔ (count_if (uses key) handed.tasks ≡ 0))
slots_bounded_example = slots_bounded handed_reached key

abbrev web : SandboxId
web = record { as_str = key }

abbrev fresh : SandboxRecord
fresh = new_pending 7 web (codes "pause" ∷ [])

empty-IsDurable : IsDurable (record { records = []; disk = [] })
unfolding get
empty-IsDurable = record { keyed = λ k r e. cc; saved = λ k r e. cc }

abbrev stored : SandboxRegistry
stored = (insert_record written fresh (record { records = []; disk = [] })).0

stored-IsDurable : IsDurable stored
stored-IsDurable =
    (insert_record-IsDurable written fresh (record { records = []; disk = [] }) empty-IsDurable).0

insert_record-IsDurable_example :
    Leaves
      (unsynced (codes "sync"))
      fresh.id.as_str
      fresh
      (insert_record (unsynced (codes "sync")) fresh stored).0
    × ((insert_record (unsynced (codes "sync")) fresh stored).1 ≢ ok tt
        → (insert_record (unsynced (codes "sync")) fresh stored).0.records ≡ stored.records)
insert_record-IsDurable_example =
    insert_record-IsDurable (unsynced (codes "sync")) fresh stored stored-IsDurable

abbrev run_it : SandboxRecord → SandboxRecord
run_it = set_status 9 running

run_it_keeps : (r : SandboxRecord) → (run_it r).id ≡ r.id
unfolding set_status
run_it_keeps r = refl

web-stored : get_record web stored ≡ some fresh
unfolding get_record insert_record get insert new_pending text_eq
web-stored = refl

update-IsDurable_example :
    Leaves
      (unsynced (codes "sync"))
      web.as_str
      (run_it fresh)
      (update (λ t. t) (unsynced (codes "sync")) web run_it stored).0
update-IsDurable_example =
    update-IsDurable (unsynced (codes "sync")) web run_it stored run_it_keeps stored-IsDurable
      web-stored

update_lem_example :
    (update (λ t. t) (failed (codes "disk full")) web run_it stored
      ≡ (stored, err (codes "disk full")))
    × (update (λ t. t) (unsynced (codes "disk full")) web run_it stored ≡ (
      record stored { disk = insert (run_it fresh).id.as_str (run_it fresh) stored.disk },
      err (codes "disk full"),
    ))
    × ((update (λ t. t) written web run_it stored).1 ≡ ok (some (run_it fresh)))
    × (get_record web (update (λ t. t) written web run_it stored).0
        ≡ (if text_eq web.as_str web.as_str then some (run_it fresh) else get_record web stored))
update_lem_example = update_lem web web run_it stored (codes "disk full") web-stored

update_races_remove_example :
    ((update (λ t. (remove_record web t).0) written web run_it stored).1 ≡ ok none)
    × (get_record web (update (λ t. (remove_record web t).0) written web run_it stored).0 ≡ none)
    × (get web.as_str (update (λ t. (remove_record web t).0) written web run_it stored).0.disk
        ≡ some (run_it fresh))
update_races_remove_example =
    update_races_remove web run_it stored run_it_keeps stored-IsDurable web-stored
