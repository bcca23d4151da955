-- ===== src/Oci/Extract/Budget/Layers.antt =====
-- The budget over whiteouts, links and whole layers, `extract_layer_from_reader` of
-- crates/oad-oci/src/lib.rs.
use omniagent.Prelude.{
  ◌+◌, ◌≤◌, ◌≡◌, refl, true, false, Option, none, some, List, [], ◌∷◌, ◌++◌, Text, codes, text_eq,
  Result, ok, err, arith,
}
use omniagent.Oci.Extract.{
  FsPath, Component, Os, World, Errno, FileKind, is_dir, is_file, is_symlink, is_special,
  from_errno, safe_join, parent, Entry, EntryType, directory, regular, symlink, link, char, block,
  fifo, other_type, LinkName, is_dot, split_name, strip_text, segment, relative, remove_each,
  remove_listed, clear_listed, clear_opaque, remove_whited, whiteout_of, whiteout_at,
  handle_whiteout, named, make_symlink, not_symlink, make_hard_link, extract_as, extract_member,
  extract_entry, extract_layer_from_reader,
}
use omniagent.Oci.Extract.Budget.{
  IsBalanced, bind-IsBalanced, then-IsBalanced, lift-IsBalanced, pure-IsBalanced, ask-IsBalanced,
  call-IsBalanced, if-IsBalanced, ensure_parent_safe-IsBalanced, remove_path_if_exists-IsBalanced,
  create_found-IsBalanced, ensure_directory-IsBalanced, write_regular_file-IsBalanced,
}

module _ {Fs : Type 0} (os : Os Fs) (rootfs : FsPath) where
  remove_each-IsBalanced :
      (above : FsPath) (names : List (Result Errno Text)) → IsBalanced (remove_each os above names)
  unfolding remove_each
  remove_each-IsBalanced above [] = pure-IsBalanced tt
  remove_each-IsBalanced above (err e ∷ names) = record { run = λ w. refl }
  remove_each-IsBalanced above (ok name ∷ names) =
      then-IsBalanced (remove_path_if_exists-IsBalanced os (above ++ name ∷ []))
        (remove_each-IsBalanced above names)

  remove_listed-IsBalanced :
      (above : FsPath) (names : Result Errno (List (Result Errno Text)))
      → IsBalanced (remove_listed os above names)
  remove_listed-IsBalanced above (ok names) = remove_each-IsBalanced above names
  remove_listed-IsBalanced above (err e) = record { run = λ w. refl }

  clear_opaque-IsBalanced : (path : List Component) → IsBalanced (clear_opaque os rootfs path)
  unfolding clear_opaque clear_listed
  clear_opaque-IsBalanced path = bind-IsBalanced (lift-IsBalanced (safe_join rootfs path)) (λ above.
      then-IsBalanced (ensure_parent_safe-IsBalanced os rootfs (above ++ codes ".opq-check" ∷ [])) (
        bind-IsBalanced (ask-IsBalanced (os.exists above)) (λ there.
          if-IsBalanced there
            (bind-IsBalanced (ask-IsBalanced (os.read_dir above)) (remove_listed-IsBalanced above))
            (pure-IsBalanced tt))))

  remove_whited-IsBalanced :
      (path : List Component) (stripped : Text) → IsBalanced (remove_whited os rootfs path stripped)
  unfolding remove_whited
  remove_whited-IsBalanced path stripped =
      bind-IsBalanced (lift-IsBalanced (safe_join rootfs (path ++ segment stripped))) (λ target.
        then-IsBalanced (ensure_parent_safe-IsBalanced os rootfs target)
          (remove_path_if_exists-IsBalanced os target))

  whiteout_of-IsBalanced :
      (path : List Component) (name : Text) (stripped : Option Text)
      → IsBalanced (whiteout_of os rootfs path name stripped)
  unfolding whiteout_of
  whiteout_of-IsBalanced path name none =
      if-IsBalanced (text_eq name (codes ".wh..wh..opq"))
        (then-IsBalanced (clear_opaque-IsBalanced path) (pure-IsBalanced true))
        (pure-IsBalanced false)
  whiteout_of-IsBalanced path name (some rest) =
      if-IsBalanced (text_eq name (codes ".wh..wh..opq"))
        (then-IsBalanced (clear_opaque-IsBalanced path) (pure-IsBalanced true))
        (then-IsBalanced (remove_whited-IsBalanced path rest) (pure-IsBalanced true))

  whiteout_at-IsBalanced :
      (found : Option (List Component × Text)) → IsBalanced (whiteout_at os rootfs found)
  unfolding whiteout_at
  whiteout_at-IsBalanced none = pure-IsBalanced false
  whiteout_at-IsBalanced (some (path, name)) =
      whiteout_of-IsBalanced path name (strip_text (codes ".wh.") name)

  named-IsBalanced : (found : Result Errno (Option LinkName)) → IsBalanced (named os found)
  named-IsBalanced (err e) = record { run = λ w. refl }
  named-IsBalanced (ok none) = record { run = λ w. refl }
  named-IsBalanced (ok (some name)) = record { run = λ w. refl }

  not_symlink-IsBalanced : (found : Result Errno FileKind) → IsBalanced (not_symlink os found)
  not_symlink-IsBalanced (err e) = record { run = λ w. refl }
  not_symlink-IsBalanced (ok is_symlink) = record { run = λ w. refl }
  not_symlink-IsBalanced (ok is_dir) = record { run = λ w. refl }
  not_symlink-IsBalanced (ok is_file) = record { run = λ w. refl }
  not_symlink-IsBalanced (ok is_special) = record { run = λ w. refl }

  make_symlink-IsBalanced :
      (target : FsPath) (text : Text) → IsBalanced (make_symlink os target text)
  unfolding make_symlink
  make_symlink-IsBalanced target text =
      then-IsBalanced (create_found-IsBalanced os (parent target)) (
        then-IsBalanced (remove_path_if_exists-IsBalanced os target)
          (call-IsBalanced (os.symlink text target)))

  make_hard_link-IsBalanced :
      (target : FsPath) (to : List Component) → IsBalanced (make_hard_link os rootfs target to)
  unfolding make_hard_link
  make_hard_link-IsBalanced target to =
      bind-IsBalanced (lift-IsBalanced (safe_join rootfs (relative to))) (λ source.
        then-IsBalanced (ensure_parent_safe-IsBalanced os rootfs source) (
          bind-IsBalanced (ask-IsBalanced (os.symlink_metadata source)) (λ found.
            then-IsBalanced (not_symlink-IsBalanced found) (
              then-IsBalanced (create_found-IsBalanced os (parent target)) (
                then-IsBalanced (remove_path_if_exists-IsBalanced os target)
                  (call-IsBalanced (os.hard_link source target)))))))

  extract_as-IsBalanced :
      (target : FsPath) (entry : Entry) (kind : EntryType)
      → IsBalanced (extract_as os rootfs target entry kind)
  unfolding extract_as
  extract_as-IsBalanced target entry directory =
      bind-IsBalanced (lift-IsBalanced (from_errno entry.mode))
        (λ mode. ensure_directory-IsBalanced os rootfs target mode)
  extract_as-IsBalanced target entry regular =
      bind-IsBalanced (lift-IsBalanced (from_errno entry.mode))
        (λ mode. write_regular_file-IsBalanced os rootfs target mode entry.contents)
  extract_as-IsBalanced target entry symlink =
      bind-IsBalanced (named-IsBalanced entry.link_name)
        (λ n. make_symlink-IsBalanced target n.text)
  extract_as-IsBalanced target entry link =
      bind-IsBalanced (named-IsBalanced entry.link_name)
        (λ n. make_hard_link-IsBalanced target n.components)
  extract_as-IsBalanced target entry char = record { run = λ w. refl }
  extract_as-IsBalanced target entry block = record { run = λ w. refl }
  extract_as-IsBalanced target entry fifo = record { run = λ w. refl }
  extract_as-IsBalanced target entry other_type = record { run = λ w. refl }

  extract_entry-IsBalanced : (entry : Entry) → IsBalanced (extract_entry os rootfs entry)
  unfolding extract_entry handle_whiteout extract_member
  extract_entry-IsBalanced entry = if-IsBalanced (is_dot entry.path) (pure-IsBalanced tt) (
      bind-IsBalanced (whiteout_at-IsBalanced (split_name entry.path)) (λ white.
        if-IsBalanced white (pure-IsBalanced tt) (
          bind-IsBalanced (lift-IsBalanced (safe_join rootfs entry.path)) (λ target.
            then-IsBalanced (ensure_parent_safe-IsBalanced os rootfs target)
              (extract_as-IsBalanced target entry entry.entry_type)))))

  extract_layer-IsBalanced :
      (entries : List (Result Errno Entry))
      → IsBalanced (extract_layer_from_reader os rootfs entries)
  unfolding extract_layer_from_reader
  extract_layer-IsBalanced [] = pure-IsBalanced tt
  extract_layer-IsBalanced (err e ∷ entries) = record { run = λ w. refl }
  extract_layer-IsBalanced (ok entry ∷ entries) =
      then-IsBalanced (extract_entry-IsBalanced entry) (extract_layer-IsBalanced entries)

  -- Whatever the entries of a layer are, and however its unpacking ends: the bytes given to
  -- `write_all` and what is left of the budget make the same sum as before, so that no more is
  -- written than was left.
  pub extraction_bounded :
      (entries : List (Result Errno Entry)) (w : World Fs)
      → let after = (extract_layer_from_reader os rootfs entries w).0 in
        (after.written + after.remaining ≡ w.written + w.remaining)
        × (after.written ≤ w.written + w.remaining)
  extraction_bounded entries w =
      let same = (extract_layer-IsBalanced entries).run w in (same, omega (arith, same))
