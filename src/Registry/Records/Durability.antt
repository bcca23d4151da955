-- ===== src/Registry/Records/Durability.antt =====
-- What is in memory is on disk: the operations of `SandboxRegistry`, crates/oad/src/registry.rs.
use omniagent.Prelude.{
  ◌≡◌, ◌≢◌, refl, ap, ◌∙◌, none, some, arith, Text, text_eq, text_eq_iff, ok, err, if◌then◌else◌,
}
use omniagent.Prelude.BTreeMap.{get, insert, remove, get-insert, get-remove}
use omniagent.Core.Ids.{SandboxId}
use omniagent.Core.Record.{SandboxRecord}
use omniagent.Registry.Records.{
  Write, written, failed, unsynced, SandboxRegistry, insert_record, write_back, update,
  update_found, remove_record, get_record,
}

-- Every record in memory stands under its own id, and is the one on disk.
pub record IsDurable (s : SandboxRegistry) : Type 0 where
  pub keyed : (k : Text) (r : SandboxRecord) → get k s.records ≡ some r → r.id.as_str ≡ k
  pub saved : (k : Text) (r : SandboxRecord) → get k s.records ≡ some r → get k s.disk ≡ some r

-- The record as it is in memory, and on disk perhaps the one whose write was not synced.
abbrev pub IsStale : Text → SandboxRecord → SandboxRegistry → Type 0
IsStale key new s =
    (get key s.disk ≡ some new)
    × ((k : Text) (r : SandboxRecord)
        → get k s.records ≡ some r
        → (r.id.as_str ≡ k) × (k ≢ key → get k s.disk ≡ some r))

-- What a write leaves: with a failed sync, memory and disk may differ in the one record written.
abbrev pub Leaves : Write → Text → SandboxRecord → SandboxRegistry → Type 0
Leaves written key new s = IsDurable s
Leaves (failed e) key new s = IsDurable s
Leaves (unsynced e) key new s = IsStale key new s

written-IsStale :
    (r : SandboxRecord) (key : Text) (s : SandboxRegistry)
    → r.id.as_str ≡ key
    → IsDurable s
    → IsStale key r (record s { disk = insert r.id.as_str r s.disk })
written-IsStale r key s own h = (
  ground (arith, own, get-insert r.id.as_str key r s.disk, text_eq_iff r.id.as_str key),
  λ k x e. (
    h.keyed k x e,
    λ apart.
        ground
          (arith, own, get-insert r.id.as_str k r s.disk, text_eq_iff r.id.as_str k, h.saved k x e),
  ),
)

-- `insert` whose write succeeds, or fails before the file is replaced, keeps every record in memory
-- equal to the one on disk. Where the sync behind the rename fails, the disk has the new record,
-- memory is as it was, and every other record in memory is equal to the one on disk.
pub insert_record-IsDurable :
    (write : Write) (r : SandboxRecord) (s : SandboxRegistry)
    → IsDurable s
    → Leaves write r.id.as_str r (insert_record write r s).0
      × ((insert_record write r s).1 ≢ ok tt → (insert_record write r s).0.records ≡ s.records)
unfolding insert_record
insert_record-IsDurable (failed e) r s h = (h, λ bad. refl)
insert_record-IsDurable (unsynced e) r s h = (written-IsStale r r.id.as_str s refl h, λ bad. refl)
insert_record-IsDurable written r s h = (
  record {
    keyed = λ k x e.
        ground
          (arith, get-insert r.id.as_str k r s.records, text_eq_iff r.id.as_str k, h.keyed k x);
    saved = λ k x e. ground (
      arith,
      get-insert r.id.as_str k r s.records,
      get-insert r.id.as_str k r s.disk,
      h.saved k x,
    );
  },
  λ bad. absurd (bad refl),
)

module _ (id : SandboxId) (f : SandboxRecord → SandboxRecord) (s : SandboxRegistry)
    (keeps : (r : SandboxRecord) → (f r).id ≡ r.id) (h : IsDurable s) where
  own_id : (r : SandboxRecord) → get id.as_str s.records ≡ some r → (f r).id.as_str ≡ id.as_str
  own_id r e = ap (λ (i : SandboxId). i.as_str) (keeps r) ∙ h.keyed id.as_str r e

  update_found-IsDurable :
      (write : Write) (r : SandboxRecord)
      → get id.as_str s.records ≡ some r
      → Leaves write id.as_str (f r) (update_found (λ t. t) write id f (some r) s).0
  unfolding update_found
  update_found-IsDurable (failed x) r e = h
  update_found-IsDurable (unsynced x) r e = written-IsStale (f r) id.as_str s (own_id r e) h
  update_found-IsDurable written r e =
      let own = own_id r e in
      rw (e, write_back)
        (record {
          keyed = λ k x g. ground (
            arith,
            get-insert id.as_str k (f r) s.records,
            text_eq_iff id.as_str k,
            own,
            h.keyed k x,
          );
          saved = λ k x g. ground (
            arith,
            own,
            get-insert id.as_str k (f r) s.records,
            get-insert (f r).id.as_str k (f r) s.disk,
            h.saved k x,
          );
        })

-- `update` of a record that is there, with nothing in between, by an `f` that keeps the id: where its
-- write succeeds, or fails before the file is replaced, every record in memory stays equal to the one
-- on disk. Where the sync behind the rename fails, the disk has the updated record of this id, and
-- every other record in memory is equal to the one on disk.
pub update-IsDurable :
    (write : Write) (id : SandboxId) (f : SandboxRecord → SandboxRecord) (s : SandboxRegistry)
    {r : SandboxRecord}
    → ((r : SandboxRecord) → (f r).id ≡ r.id)
    → IsDurable s
    → get_record id s ≡ some r
    → Leaves write id.as_str (f r) (update (λ t. t) write id f s).0
unfolding update get_record
update-IsDurable write id f s {r} keeps h e =
    rw (e) (update_found-IsDurable id f s keeps h write r e)

-- `update` of a record that is there: a write that fails before the file is replaced returns its error
-- and changes nothing; one whose sync fails behind the rename returns its error and leaves memory as
-- it was, with the updated record on disk; after a successful one the record returned is the updated
-- one, `get` finds it, and every other id is as before.
pub update_lem :
    (id j : SandboxId) (f : SandboxRecord → SandboxRecord) (s : SandboxRegistry) {r : SandboxRecord}
    (e : Text)
    → get_record id s ≡ some r
    → (update (λ t. t) (failed e) id f s ≡ (s, err e))
      × (update (λ t. t) (unsynced e) id f s
          ≡ (record s { disk = insert (f r).id.as_str (f r) s.disk }, err e))
      × ((update (λ t. t) written id f s).1 ≡ ok (some (f r)))
      × (get_record j (update (λ t. t) written id f s).0
          ≡ (if text_eq id.as_str j.as_str then some (f r) else get_record j s))
unfolding update update_found get_record
update_lem id j f s {r} e h =
    (rw h, rw h, rw (h, h), rw (h, h) (get-insert id.as_str j.as_str (f r) s.records))

-- A record that is removed while `update` writes its file stays removed from memory, and `update`
-- reports that it is gone; but the file on disk is there, with the updated record.
pub update_races_remove :
    (id : SandboxId) (f : SandboxRecord → SandboxRecord) (s : SandboxRegistry) {r : SandboxRecord}
    → ((r : SandboxRecord) → (f r).id ≡ r.id)
    → IsDurable s
    → get_record id s ≡ some r
    → ((update (λ t. (remove_record id t).0) written id f s).1 ≡ ok none)
      × (get_record id (update (λ t. (remove_record id t).0) written id f s).0 ≡ none)
      × (get id.as_str (update (λ t. (remove_record id t).0) written id f s).0.disk ≡ some (f r))
unfolding update update_found get_record remove_record
update_races_remove id f s {r} keeps h e =
    let gone : get id.as_str (remove id.as_str s.records) ≡ none =
      ground (arith, get-remove id.as_str id.as_str s.records, text_eq_iff id.as_str id.as_str) in
    let own : (f r).id.as_str ≡ id.as_str =
      ap (λ (i : SandboxId). i.as_str) (keeps r) ∙ h.keyed id.as_str r e in
    rw (e, gone)
      (
        refl,
        gone,
        ground (
          arith,
          own,
          get-insert (f r).id.as_str id.as_str (f r) s.disk,
          text_eq_iff (f r).id.as_str id.as_str,
        ),
      )
