-- ===== src/Oci/Extract/Confined/Members.antt =====
-- Links and members at a checked place, `extract_layer_from_reader` of crates/oad-oci/src/lib.rs.
use omniagent.Prelude.{
  ℕ, ◌≡◌, ◌≢◌, sym, ap, subst, ◌∙◌, inl, inr, Option-cases, Option, none, some, List, [], ◌∷◌, ◌++◌,
  Text, Result, ok, err, append_assoc, append-nil, arith, length, length-append, ok_injective,
}
use omniagent.Oci.Extract.{
  FsPath, Component, normal, cur_dir, parent_dir, root_dir, Os, Io, unsafe_archive_path,
  unsupported_tar_entry, io, Errno, FileKind, is_dir, is_file, is_symlink, is_special, ◌>>◌, pure,
  lift, call, from_errno, safe_join, parent, unwrap_or, strip_prefix, check_links, check_below,
  ensure_parent_safe, Entry, EntryType, directory, regular, symlink, link, char, block, fifo,
  other_type, LinkName, relative, named, make_symlink, not_symlink, make_hard_link, extract_as,
}
use omniagent.Oci.Extract.Paths.{parent_lem, strip_prefix_lem, last_name, parent_nonempty}
use omniagent.Oci.Extract.Confined.{Node, Clear, Runs, IsOs}
use omniagent.Oci.Extract.Confined.Rules.{
  Confined-refl, Touches-Confined, Clear-above, bind-Runs, then-Runs, weaken-Runs, pure-Runs,
  throw-Runs, ask-Runs, call-Runs, keep-Runs,
}
use omniagent.Oci.Extract.Confined.Calls.{
  ensure_parent_safe-Runs, remove_path_if_exists-Runs, create_parent-Runs, ensure_directory-Runs,
  write_regular_file-Runs, checked-Ensures,
}

abbrev pub Joined : FsPath → FsPath → Type 0
Joined rootfs target = (rest : FsPath) × (target ≡ rootfs ++ rest)

pub safe_join_lem :
    (path : List Component) (base target : FsPath)
    → safe_join base path ≡ ok target
    → Joined base target
unfolding safe_join
safe_join_lem [] base target h = ([], sym (ok_injective h) ∙ sym (append-nil base))
safe_join_lem (normal value ∷ path) base target h =
    let r = safe_join_lem path (base ++ value ∷ []) target h in
    (value ∷ r.0, r.1 ∙ append_assoc base (value ∷ []) r.0)
safe_join_lem (cur_dir ∷ path) base target h = safe_join_lem path base target h
safe_join_lem (parent_dir ∷ path) base target h = absurd (cc (h))
safe_join_lem (root_dir ∷ path) base target h = absurd (cc (h))

module _ {Fs : Type 0} (os : Os Fs) (node : FsPath → Fs → Option Node)
    (single : FsPath → Fs → Type 0) (laws : IsOs node single os) (rootfs : FsPath)
    (below : rootfs ≢ []) where
  -- The root itself has no parent within the root.
  root_refused : strip_prefix rootfs (unwrap_or (parent rootfs) rootfs) ≡ none
  root_refused = elim (Option-cases (strip_prefix rootfs (unwrap_or (parent rootfs) rootfs))) [
    | inl nothing ↦ nothing
    | inr (rest, found) ↦ absurd (apart rest (strip_prefix_lem rootfs _ rest found))
  ]
    where
      apart : (rest : FsPath) → unwrap_or (parent rootfs) rootfs ≡ rootfs ++ rest → ⊥
      apart rest e = elim (Option-cases (parent rootfs)) [
        | inl nothing ↦ parent_nonempty rootfs below nothing
        | inr (above, found) ↦
            let p = parent_lem rootfs above found in
            let e' = rw (found) at e in
            absurd (
              omega (
                arith,
                ap length p.1,
                length-append above (p.0 ∷ []),
                ap length e',
                length-append rootfs rest,
              ))
      ]

  -- The check lets the root itself never pass.
  pub root-Runs :
      (Pre : Fs → Type 0) → Runs node rootfs Pre (ensure_parent_safe os rootfs rootfs) (λ u fs. ⊥)
  unfolding ensure_parent_safe check_below
  root-Runs Pre =
      subst (λ found. Runs node rootfs Pre (check_below os rootfs found) (λ u fs. ⊥))
        (sym root_refused) (record { run = λ w safe pre. (Confined-refl node rootfs w.fs, tt) })

  pub never-Runs :
      {A : Type 0} {m : Io Fs A} {Post : A → Fs → Type 0} → Runs node rootfs (λ fs. ⊥) m Post
  never-Runs = record { run = λ w safe bad. elim bad [ ] }

  -- Work at a joined path starts with the check of its parents.
  pub checked-Runs :
      {B : Type 0} (target : FsPath) (Pre : Fs → Type 0) (m : FsPath → Io Fs B)
      (Post : B → Fs → Type 0)
      → Joined rootfs target
      → ((rest : FsPath) (name : Text)
          → Runs node rootfs
              (λ fs. Clear node (rootfs ++ rest) fs)
              (m ((rootfs ++ rest) ++ name ∷ []))
              Post)
      → Runs node rootfs Pre (ensure_parent_safe os rootfs target >> m target) Post
  checked-Runs target Pre m Post (names, e) h = elim (last_name rootfs names) [
    | inl root ↦
        subst (λ t. Runs node rootfs Pre (ensure_parent_safe os rootfs t >> m t) Post)
          (sym (e ∙ ap (λ l. rootfs ++ l) root ∙ append-nil rootfs))
          (then-Runs node rootfs (root-Runs Pre) never-Runs)
    | inr (rest, name, same) ↦
        subst (λ t. Runs node rootfs Pre (ensure_parent_safe os rootfs t >> m t) Post)
          (sym (e ∙ same))
          (then-Runs node rootfs (ensure_parent_safe-Runs os node single laws rootfs rest name Pre)
            (h rest name))
  ]

  -- A link's source is checked, and what held goes on holding.
  kept-Runs :
      (target : FsPath) (Pre : Fs → Type 0)
      → Runs node rootfs Pre (ensure_parent_safe os rootfs target) (λ u. Pre)
  unfolding ensure_parent_safe check_below
  kept-Runs target Pre = found (strip_prefix rootfs (unwrap_or (parent target) rootfs))
    where
      found :
          (relative : Option FsPath)
          → Runs node rootfs Pre (check_below os rootfs relative) (λ u. Pre)
      found none = record { run = λ w safe pre. (Confined-refl node rootfs w.fs, tt) }
      found (some rest) = record {
        run = λ w safe pre. (
          Confined-refl node rootfs w.fs,
          checked-Ensures os node single laws rootfs w (check_links os rootfs rest w.fs) Pre
              (λ done. pre),
        );
      }

  module _ (rest : FsPath) (name : Text) where
    abbrev pub above : FsPath
    above = rootfs ++ rest

    abbrev pub place : FsPath
    place = above ++ name ∷ []

    make_symlink-Runs :
        (text : Text)
        → Runs node rootfs (Clear node above) (make_symlink os place text) (λ u fs. Unit {0})
    unfolding make_symlink
    make_symlink-Runs text =
        then-Runs node rootfs (create_parent-Runs os node single laws rootfs rest name) (
          then-Runs node rootfs (remove_path_if_exists-Runs os node single laws rootfs rest name) (
            call-Runs node rootfs (os.symlink text place) (Clear node place) (λ fs. Unit {0})
              (λ fs safe c. (
                Touches-Confined node rootfs rest name fs (os.symlink text place fs).0
                    (laws.links above name text fs (Clear-above node rootfs above name fs c)),
                λ done. tt,
              ))))

    not_symlink-Runs :
        (found : Result Errno FileKind) (Pre : Fs → Type 0)
        → Runs node rootfs Pre (not_symlink os found) (λ u. Pre)
    not_symlink-Runs (err e) Pre = throw-Runs node rootfs (io e) Pre (λ u. Pre)
    not_symlink-Runs (ok is_symlink) Pre = throw-Runs node rootfs unsafe_archive_path Pre (λ u. Pre)
    not_symlink-Runs (ok is_dir) Pre = pure-Runs node rootfs tt Pre
    not_symlink-Runs (ok is_file) Pre = pure-Runs node rootfs tt Pre
    not_symlink-Runs (ok is_special) Pre = pure-Runs node rootfs tt Pre

    make_hard_link-Runs :
        (to : List Component)
        → Runs node rootfs (Clear node above) (make_hard_link os rootfs place to) (λ u fs. Unit {0})
    unfolding make_hard_link
    make_hard_link-Runs to =
        bind-Runs node rootfs
          (keep-Runs node rootfs (safe_join rootfs (relative to)) (Clear node above))
          (λ source. then-Runs node rootfs (kept-Runs source (Clear node above)) (
            bind-Runs node rootfs
              (ask-Runs node rootfs (os.symlink_metadata source) (Clear node above))
              (λ found.
                weaken-Runs node rootfs (λ fs pre. pre.0)
                  (then-Runs node rootfs (not_symlink-Runs found (Clear node above)) (
                    then-Runs node rootfs (create_parent-Runs os node single laws rootfs rest name)
                      (then-Runs node rootfs
                        (remove_path_if_exists-Runs os node single laws rootfs rest name)
                        (linked source)))))))
      where
        linked :
            (source : FsPath)
            → Runs node rootfs
                (Clear node place)
                (call (os.hard_link source place))
                (λ u fs. Unit {0})
        linked source =
            call-Runs node rootfs (os.hard_link source place) (Clear node place) (λ fs. Unit {0})
              (λ fs safe c. (
                Touches-Confined node rootfs rest name fs (os.hard_link source place fs).0 (
                    laws.links_hard source above name fs (Clear-above node rootfs above name fs c)),
                λ done. tt,
              ))

    mode-Runs :
        (mode : Result Errno ℕ)
        → Runs node rootfs (Clear node above) (lift (from_errno mode)) (λ m. Clear node above)
    mode-Runs mode = keep-Runs node rootfs (from_errno mode) (Clear node above)

    named-Runs :
        (found : Result Errno (Option LinkName))
        → Runs node rootfs (Clear node above) (named os found) (λ n. Clear node above)
    named-Runs (err e) = throw-Runs node rootfs (io e) (Clear node above) (λ n. Clear node above)
    named-Runs (ok none) =
        throw-Runs node rootfs unsafe_archive_path (Clear node above) (λ n. Clear node above)
    named-Runs (ok (some n)) = pure-Runs node rootfs n (Clear node above)

    done-Runs : Runs node rootfs (Clear node above) (pure tt) (λ u fs. Unit {0})
    done-Runs = weaken-Runs node rootfs (λ fs c. tt) (pure-Runs node rootfs tt (λ fs. Unit {0}))

    pub extract_as-Runs :
        (entry : Entry) (kind : EntryType)
        → Runs node rootfs
            (Clear node above)
            (extract_as os rootfs place entry kind)
            (λ u fs. Unit {0})
    unfolding extract_as
    extract_as-Runs entry directory =
        bind-Runs node rootfs (mode-Runs entry.mode) (λ mode.
          ensure_directory-Runs os node single laws rootfs rest name mode (Clear node above))
    extract_as-Runs entry regular = bind-Runs node rootfs (mode-Runs entry.mode) (λ mode.
        write_regular_file-Runs os node single laws rootfs rest name mode entry.contents
          (Clear node above))
    extract_as-Runs entry symlink =
        bind-Runs node rootfs (named-Runs entry.link_name) (λ n. make_symlink-Runs n.text)
    extract_as-Runs entry link =
        bind-Runs node rootfs (named-Runs entry.link_name) (λ n. make_hard_link-Runs n.components)
    extract_as-Runs entry char = done-Runs
    extract_as-Runs entry block = done-Runs
    extract_as-Runs entry fifo = done-Runs
    extract_as-Runs entry other_type =
        throw-Runs node rootfs unsupported_tar_entry (Clear node above) (λ u fs. Unit {0})
