-- ===== src/Oci/Extract/Confined/Layers.antt =====
-- Whiteouts and whole layers, `handle_whiteout` and `extract_layer_from_reader` of
-- crates/oad-oci/src/lib.rs.
use omniagent.Prelude.{
  ◌≡◌, ◌≢◌, sym, subst, ◌⊎◌, true, false, Option, none, some, List, [], ◌∷◌, ◌++◌, Text, codes,
  text_eq, Result, ok, err,
}
use omniagent.Oci.Extract.{
  FsPath, Component, Os, World, io, Errno, ◌>>◌, safe_join, parent, ensure_parent_safe,
  remove_path_if_exists, Entry, is_dot, split_name, strip_text, segment, remove_each, remove_listed,
  clear_listed, clear_opaque, remove_whited, whiteout_of, whiteout_at, handle_whiteout, extract_as,
  extract_member, extract_entry, extract_layer_from_reader,
}
use omniagent.Oci.Extract.Paths.{Inside}
use omniagent.Oci.Extract.Confined.{Node, Clear, SafeRoot, Runs, IsOs}
use omniagent.Oci.Extract.Confined.Rules.{
  Clear-above, bind-Runs, then-Runs, weaken-Runs, forget-Runs, pure-Runs, throw-Runs, lift-Runs,
  ask-Runs, given-Runs, if-Runs,
}
use omniagent.Oci.Extract.Confined.Calls.{ensure_parent_safe-Runs, remove_path_if_exists-Runs}
use omniagent.Oci.Extract.Confined.Members.{Joined, safe_join_lem, checked-Runs, extract_as-Runs}

module _ {Fs : Type 0} (os : Os Fs) (node : FsPath → Fs → Option Node)
    (single : FsPath → Fs → Type 0) (laws : IsOs node single os) (rootfs : FsPath)
    (below : rootfs ≢ []) where
  remove_each-Runs :
      (rest : FsPath) (names : List (Result Errno Text))
      → Runs node rootfs
          (Clear node (rootfs ++ rest))
          (remove_each os (rootfs ++ rest) names)
          (λ u. Clear node (rootfs ++ rest))
  unfolding remove_each
  remove_each-Runs rest [] = pure-Runs node rootfs tt (Clear node (rootfs ++ rest))
  remove_each-Runs rest (err e ∷ names) =
      throw-Runs node rootfs (io e) (Clear node (rootfs ++ rest)) (λ u. Clear node (rootfs ++ rest))
  remove_each-Runs rest (ok name ∷ names) =
      then-Runs node rootfs (remove_path_if_exists-Runs os node single laws rootfs rest name) (
        weaken-Runs node rootfs (λ fs c. Clear-above node rootfs (rootfs ++ rest) name fs c)
          (remove_each-Runs rest names))

  remove_listed-Runs :
      (rest : FsPath) (names : Result Errno (List (Result Errno Text)))
      → Runs node rootfs
          (Clear node (rootfs ++ rest))
          (remove_listed os (rootfs ++ rest) names)
          (λ u. Clear node (rootfs ++ rest))
  remove_listed-Runs rest (ok names) = remove_each-Runs rest names
  remove_listed-Runs rest (err e) =
      throw-Runs node rootfs (io e) (Clear node (rootfs ++ rest)) (λ u. Clear node (rootfs ++ rest))

  clear_listed-Runs :
      (rest : FsPath)
      → Runs node rootfs
          (Clear node (rootfs ++ rest))
          (clear_listed os (rootfs ++ rest))
          (λ u fs. Unit {0})
  unfolding clear_listed
  clear_listed-Runs rest =
      bind-Runs node rootfs
        (ask-Runs node rootfs (os.exists (rootfs ++ rest)) (Clear node (rootfs ++ rest)))
        (λ there.
          weaken-Runs node rootfs (λ fs pre. pre.0)
            (if-Runs node rootfs there
              (bind-Runs node rootfs
                (ask-Runs node rootfs (os.read_dir (rootfs ++ rest)) (Clear node (rootfs ++ rest)))
                (λ names.
                  weaken-Runs node rootfs (λ fs pre. pre.0)
                    (forget-Runs node rootfs (remove_listed-Runs rest names))))
              (forget-Runs node rootfs (pure-Runs node rootfs tt (Clear node (rootfs ++ rest))))))

  -- The contents of a directory go, at a joined path.
  opaque_at :
      (parent : FsPath)
      → Joined rootfs parent
      → Runs node rootfs
          (λ fs. Unit {0})
          (ensure_parent_safe os rootfs (parent ++ codes ".opq-check" ∷ [])
            >> clear_listed os parent)
          (λ u fs. Unit {0})
  opaque_at parent (rest, e) =
      subst
        (λ p.
          Runs node rootfs (λ fs. Unit {0})
            (ensure_parent_safe os rootfs (p ++ codes ".opq-check" ∷ []) >> clear_listed os p)
            (λ u fs. Unit {0}))
        (sym e)
        (then-Runs node rootfs
          (ensure_parent_safe-Runs os node single laws rootfs rest (codes ".opq-check")
            (λ fs. Unit {0}))
          (clear_listed-Runs rest))

  clear_opaque-Runs :
      (path : List Component)
      → Runs node rootfs (λ fs. Unit {0}) (clear_opaque os rootfs path) (λ u fs. Unit {0})
  unfolding clear_opaque
  clear_opaque-Runs path =
      bind-Runs node rootfs (lift-Runs node rootfs (safe_join rootfs path) (λ fs. Unit {0}))
        (λ parent.
          given-Runs node rootfs (safe_join rootfs path ≡ ok parent)
            (λ joined. opaque_at parent (safe_join_lem path rootfs parent joined)))

  remove_whited-Runs :
      (path : List Component) (stripped : Text)
      → Runs node rootfs (λ fs. Unit {0}) (remove_whited os rootfs path stripped) (λ u fs. Unit {0})
  unfolding remove_whited
  remove_whited-Runs path stripped =
      bind-Runs node rootfs
        (lift-Runs node rootfs (safe_join rootfs (path ++ segment stripped)) (λ fs. Unit {0}))
        (λ target.
          given-Runs node rootfs (safe_join rootfs (path ++ segment stripped) ≡ ok target)
            (λ joined.
              checked-Runs os node single laws rootfs below target (λ fs. Unit {0})
                (remove_path_if_exists os) (λ u fs. Unit {0})
                (safe_join_lem (path ++ segment stripped) rootfs target joined)
                (λ rest name.
                  forget-Runs node rootfs
                    (remove_path_if_exists-Runs os node single laws rootfs rest name))))

  whiteout_of-Runs :
      (path : List Component) (name : Text) (stripped : Option Text)
      → Runs node rootfs
          (λ fs. Unit {0})
          (whiteout_of os rootfs path name stripped)
          (λ white fs. Unit {0})
  unfolding whiteout_of
  whiteout_of-Runs path name none =
      if-Runs node rootfs (text_eq name (codes ".wh..wh..opq"))
        (then-Runs node rootfs (clear_opaque-Runs path)
          (pure-Runs node rootfs true (λ fs. Unit {0})))
        (pure-Runs node rootfs false (λ fs. Unit {0}))
  whiteout_of-Runs path name (some rest) =
      if-Runs node rootfs (text_eq name (codes ".wh..wh..opq"))
        (then-Runs node rootfs (clear_opaque-Runs path)
          (pure-Runs node rootfs true (λ fs. Unit {0})))
        (then-Runs node rootfs (remove_whited-Runs path rest)
          (pure-Runs node rootfs true (λ fs. Unit {0})))

  whiteout_at-Runs :
      (found : Option (List Component × Text))
      → Runs node rootfs (λ fs. Unit {0}) (whiteout_at os rootfs found) (λ white fs. Unit {0})
  unfolding whiteout_at
  whiteout_at-Runs none = pure-Runs node rootfs false (λ fs. Unit {0})
  whiteout_at-Runs (some (path, name)) = whiteout_of-Runs path name (strip_text (codes ".wh.") name)

  extract_member-Runs :
      (entry : Entry)
      → Runs node rootfs (λ fs. Unit {0}) (extract_member os rootfs entry) (λ u fs. Unit {0})
  unfolding extract_member
  extract_member-Runs entry =
      bind-Runs node rootfs (lift-Runs node rootfs (safe_join rootfs entry.path) (λ fs. Unit {0}))
        (λ target. given-Runs node rootfs (safe_join rootfs entry.path ≡ ok target) (λ joined.
          checked-Runs os node single laws rootfs below target (λ fs. Unit {0})
            (λ t. extract_as os rootfs t entry entry.entry_type) (λ u fs. Unit {0})
            (safe_join_lem entry.path rootfs target joined)
            (λ rest name.
              extract_as-Runs os node single laws rootfs below rest name entry entry.entry_type)))

  extract_entry-Runs :
      (entry : Entry)
      → Runs node rootfs (λ fs. Unit {0}) (extract_entry os rootfs entry) (λ u fs. Unit {0})
  unfolding extract_entry handle_whiteout
  extract_entry-Runs entry =
      if-Runs node rootfs (is_dot entry.path) (pure-Runs node rootfs tt (λ fs. Unit {0})) (
        bind-Runs node rootfs (whiteout_at-Runs (split_name entry.path)) (λ white.
          if-Runs node rootfs white (pure-Runs node rootfs tt (λ fs. Unit {0}))
            (extract_member-Runs entry)))

  extract_layer-Runs :
      (entries : List (Result Errno Entry))
      → Runs node rootfs
          (λ fs. Unit {0})
          (extract_layer_from_reader os rootfs entries)
          (λ u fs. Unit {0})
  unfolding extract_layer_from_reader
  extract_layer-Runs [] = pure-Runs node rootfs tt (λ fs. Unit {0})
  extract_layer-Runs (err e ∷ entries) =
      throw-Runs node rootfs (io e) (λ fs. Unit {0}) (λ u fs. Unit {0})
  extract_layer-Runs (ok entry ∷ entries) =
      then-Runs node rootfs (extract_entry-Runs entry) (extract_layer-Runs entries)

-- With calls that keep their laws, and where every directory down to the root is one: whatever the
-- entries of a layer are, and however its unpacking ends, nothing has changed at any path that is not
-- strictly below the root.
pub extraction_confined :
    {Fs : Type 0} (os : Os Fs) (node : FsPath → Fs → Option Node) (single : FsPath → Fs → Type 0)
    → IsOs node single os
    → (rootfs : FsPath) → rootfs ≢ []
    → (w : World Fs) → SafeRoot node rootfs w.fs
    → (entries : List (Result Errno Entry)) (q : FsPath)
    → Inside rootfs q ⊎ (node q (extract_layer_from_reader os rootfs entries w).0.fs ≡ node q w.fs)
extraction_confined os node single laws rootfs below w safe entries q =
    ((extract_layer-Runs os node single laws rootfs below entries).run w safe tt).0 q
