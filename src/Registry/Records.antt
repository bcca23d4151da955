-- ===== src/Registry/Records.antt =====
-- The records of the sandboxes, in memory and on disk: `SandboxRegistry` of
-- crates/oad/src/registry.rs. The disk holds one `state.json` for each sandbox directory, and how a
-- write of one ends is an argument.
pub mod Durability
use omniagent.Prelude.{
  Bool, true, false, Option, none, some, List, [], ◌∷◌, Text, Result, ok, err, if◌then◌else◌,
}
use omniagent.Prelude.BTreeMap.{BTreeMap, get, insert, remove, contains_key, values}
use omniagent.Core.Ids.{SandboxId}
use omniagent.Core.Record.{SandboxRecord}

pub record SandboxRegistry : Type 0 where
  pub records : BTreeMap SandboxRecord
  pub disk : BTreeMap SandboxRecord

-- How `write_json_atomic` ends: `write_atomic_file` publishes by a rename and then syncs the directory,
-- so that it can fail before the file is replaced, and after.
pub data Write : Type 0 where
  written : Write
  failed : Text → Write
  unsynced : Text → Write

-- `write` is the outcome of `write_json_atomic`.
unfoldable pub persist :
    Write → SandboxRecord → SandboxRegistry → SandboxRegistry × Result Text (Unit {0})
persist written record' s = (record s { disk = insert record'.id.as_str record' s.disk }, ok tt)
persist (failed e) record' s = (s, err e)
persist (unsynced e) record' s =
    (record s { disk = insert record'.id.as_str record' s.disk }, err e)

unfoldable pub insert_memory : SandboxRecord → SandboxRegistry → SandboxRegistry
insert_memory r s = record s { records = insert r.id.as_str r s.records }

-- `insert` after the outcome of `persist`: `?` returns an error.
unfoldable pub after_persist :
    SandboxRecord
    → SandboxRegistry × Result Text (Unit {0})
    → SandboxRegistry × Result Text (Unit {0})
unfolding insert_memory
after_persist r (s, ok _) = (insert_memory r s, ok tt)
after_persist r (s, err e) = (s, err e)

unfoldable pub insert_record :
    Write → SandboxRecord → SandboxRegistry → SandboxRegistry × Result Text (Unit {0})
unfolding persist after_persist
insert_record write r s = after_persist r (persist write r s)

-- The last part of `update`: the record may have been removed while it was being written.
unfoldable pub write_back :
    SandboxId
    → SandboxRecord
    → Option SandboxRecord
    → SandboxRegistry
    → SandboxRegistry × Result Text (Option SandboxRecord)
write_back id updated none s = (s, ok none)
write_back id updated (some old) s =
    (record s { records = insert id.as_str updated s.records }, ok (some updated))

-- `meanwhile` is what other tasks do between the write of the file and the second lock.
unfoldable pub after_update :
    (SandboxRegistry → SandboxRegistry)
    → SandboxId
    → SandboxRecord
    → SandboxRegistry × Result Text (Unit {0})
    → SandboxRegistry × Result Text (Option SandboxRecord)
unfolding write_back
after_update meanwhile id updated (s, err e) = (s, err e)
after_update meanwhile id updated (s, ok _) =
    let s' = meanwhile s in write_back id updated (get id.as_str s'.records) s'

update_found :
    (SandboxRegistry → SandboxRegistry)
    → Write
    → SandboxId
    → (SandboxRecord → SandboxRecord)
    → Option SandboxRecord
    → SandboxRegistry
    → SandboxRegistry × Result Text (Option SandboxRecord)
unfolding persist after_update
update_found meanwhile write id f none s = (s, ok none)
update_found meanwhile write id f (some r) s =
    after_update meanwhile id (f r) (persist write (f r) s)

unfoldable pub update :
    (SandboxRegistry → SandboxRegistry)
    → Write
    → SandboxId
    → (SandboxRecord → SandboxRecord)
    → SandboxRegistry
    → SandboxRegistry × Result Text (Option SandboxRecord)
unfolding update_found
update meanwhile write id f s = update_found meanwhile write id f (get id.as_str s.records) s

unfoldable pub get_record : SandboxId → SandboxRegistry → Option SandboxRecord
get_record id s = get id.as_str s.records

unfoldable pub contains : SandboxId → SandboxRegistry → Bool
unfolding contains_key
contains id s = contains_key id.as_str s.records

-- Only the memory: the directory of the sandbox is removed separately.
unfoldable pub remove_record : SandboxId → SandboxRegistry → SandboxRegistry × Option SandboxRecord
remove_record id s = (record s { records = remove id.as_str s.records }, get id.as_str s.records)

unfoldable pub list : SandboxRegistry → List SandboxRecord
unfolding values
list s = values s.records

-- What reading the directory of the sandboxes gives, entry by entry.
pub data DirEntry : Type 0 where
  readable : SandboxRecord → DirEntry
  unreadable : Text → DirEntry
  broken : Text → DirEntry

-- The loop of `recover`: an unreadable record is skipped, a broken directory ends the loop.
unfoldable pub recover_entries : List DirEntry → SandboxRegistry → SandboxRegistry
unfolding insert_memory
recover_entries [] s = s
recover_entries (readable r ∷ rest) s = recover_entries rest (insert_memory r s)
recover_entries (unreadable e ∷ rest) s = recover_entries rest s
recover_entries (broken e ∷ rest) s = s

-- `recover` over a disk; a directory that cannot be opened gives no records.
unfoldable pub recover : BTreeMap SandboxRecord → Result Text (List DirEntry) → SandboxRegistry
unfolding recover_entries
recover disk (err e) = record { records = []; disk = disk }
recover disk (ok entries) = recover_entries entries (record { records = []; disk = disk })
