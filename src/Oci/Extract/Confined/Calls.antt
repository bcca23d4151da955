-- ===== src/Oci/Extract/Confined/Calls.antt =====
-- The parts of the unpacking that work at one path, crates/oad-oci/src/lib.rs: `ensure_parent_safe`,
-- `remove_path_if_exists`, `ensure_directory`, `write_regular_file`.
use omniagent.Prelude.{
  ℕ, ◌+◌, ◌%◌, ◌^◌, ◌≡◌, refl, sym, ap, subst, ◌∙◌, ◌⊎◌, inl, inr, false, Bool-cases, Option, none,
  List, [], ◌∷◌, ◌++◌, Text, Result, ok, err, append_assoc, append-nil, length, ltb,
}
use omniagent.Oci.Extract.{
  FsPath, Os, World, OciError, io, Errno, not_found, other, FileKind, is_dir, is_file, is_symlink,
  is_special, call, attempt, is_link, unwrap_or, create_found, check_below, strip_prefix,
  check_links, ensure_parent_safe, remove_found, remove_path_if_exists, create_parent,
  clear_directory, ensure_directory, take, write_chunk, copy, write_regular_file,
}
use omniagent.Oci.Extract.Paths.{Prefix, parent_last, strip_prefix-append}
use omniagent.Oci.Extract.Confined.{Node, NotLink, Clear, Touches, Ensures, Runs, IsOs}
use omniagent.Oci.Extract.Confined.Rules.{
  Confined-refl, SafeRoot-Clear, Touches-Confined, Touches-Clear, Clear-last, Clear-above,
  creates-Confined, creates-Clear, bind-Runs, then-Runs, weaken-Runs, pure-Runs, throw-Runs,
  ask-Runs, call-Runs, attempt-Runs,
}

module _ {Fs : Type 0} (os : Os Fs) (node : FsPath → Fs → Option Node)
    (single : FsPath → Fs → Type 0) (laws : IsOs node single os) (rootfs : FsPath) where
  -- What is seen to be no link is none.
  seen-NotLink :
      (above : FsPath) (name : Text) (fs : Fs)
      → Clear node above fs
      → is_link (os.symlink_metadata (above ++ name ∷ []) fs) ≡ false
      → NotLink node (above ++ name ∷ []) fs
  seen-NotLink above name fs c seen target bad =
      let e = laws.shows_link above name target fs c bad in let clash = rw (e) at seen in cc (clash)

  pub check_links-Clear :
      (relative cursor : FsPath) (fs : Fs)
      → Clear node cursor fs
      → check_links os cursor relative fs ≡ ok tt
      → Clear node (cursor ++ relative) fs
  unfolding check_links
  check_links-Clear [] cursor fs c h = subst (λ p. Clear node p fs) (sym (append-nil cursor)) c
  check_links-Clear (value ∷ relative) cursor fs c h =
      elim (Bool-cases (is_link (os.symlink_metadata (cursor ++ value ∷ []) fs))) [
        | inl link ↦ let bad = rw (link) at h in absurd (cc (bad))
        | inr plain ↦
            subst (λ p. Clear node p fs) (append_assoc cursor (value ∷ []) relative)
              (check_links-Clear relative (cursor ++ value ∷ []) fs
                (Clear-last node rootfs cursor value fs c (seen-NotLink cursor value fs c plain))
                (rw (plain) at h))
      ]

  pub checked-Ensures :
      (w : World Fs) (r : Result OciError (Unit {0})) (Post : Fs → Type 0)
      → (r ≡ ok tt → Post w.fs)
      → Ensures node (w, r) (λ u. Post)
  checked-Ensures w (ok u) Post h = h refl
  checked-Ensures w (err e) Post h = tt

  pub ensure_parent_safe-Runs :
      (rest : FsPath) (name : Text) (Pre : Fs → Type 0)
      → Runs node rootfs Pre
          (ensure_parent_safe os rootfs ((rootfs ++ rest) ++ name ∷ []))
          (λ u fs. Clear node (rootfs ++ rest) fs)
  unfolding ensure_parent_safe check_below
  ensure_parent_safe-Runs rest name Pre =
      subst
        (λ found.
          Runs node rootfs Pre (check_below os rootfs found)
            (λ u fs. Clear node (rootfs ++ rest) fs))
        (sym (
          ap (λ p. strip_prefix rootfs (unwrap_or p rootfs)) (parent_last (rootfs ++ rest) name)
          ∙ strip_prefix-append rootfs rest))
        (record {
          run = λ w safe pre. (
            Confined-refl node rootfs w.fs,
            checked-Ensures w (check_links os rootfs rest w.fs)
                (λ fs. Clear node (rootfs ++ rest) fs)
                (check_links-Clear rest rootfs w.fs (SafeRoot-Clear node rootfs w.fs safe)),
          );
        })

  module _ (rest : FsPath) (name : Text) where
    abbrev pub above : FsPath
    above = rootfs ++ rest

    abbrev pub place : FsPath
    place = above ++ name ∷ []

    -- What is at the place is no link and has no other name.
    abbrev Owned : Fs → Type 0
    Owned fs = Clear node place fs × single place fs

    -- A call that touches the place only, and leaves nothing there where it succeeds.
    removal :
        (op : Fs → Fs × Result Errno (Unit {0})) (found : Result Errno FileKind)
        → ((fs : Fs)
            → Clear node above fs
            → Touches node place fs (op fs).0 × ((op fs).1 ≡ ok tt → node place (op fs).0 ≡ none))
        → Runs node rootfs
            (λ fs. Clear node above fs × (found ≡ os.symlink_metadata place fs))
            (call op)
            (λ u fs. Clear node place fs)
    removal op found law =
        call-Runs node rootfs op
          (λ fs. Clear node above fs × (found ≡ os.symlink_metadata place fs)) (Clear node place)
          (λ fs safe pre.
            let t = law fs pre.0 in
            (
              Touches-Confined node rootfs rest name fs (op fs).0 t.0,
              λ done.
                  Clear-last node rootfs above name (op fs).0
                    (Touches-Clear node rootfs above name fs (op fs).0 t.0 pre.0)
                    (λ target bad. let e = t.1 done in cc (e, bad)),
            ))

    remove_found-Runs :
        (found : Result Errno FileKind)
        → Runs node rootfs
            (λ fs. Clear node above fs × (found ≡ os.symlink_metadata place fs))
            (remove_found os place found)
            (λ u fs. Clear node place fs)
    remove_found-Runs (ok is_dir) =
        removal (os.remove_dir_all place) (ok is_dir) (laws.removes_dir above name)
    remove_found-Runs (ok is_file) =
        removal (os.remove_file place) (ok is_file) (laws.removes_file above name)
    remove_found-Runs (ok is_symlink) =
        removal (os.remove_file place) (ok is_symlink) (laws.removes_file above name)
    remove_found-Runs (ok is_special) =
        removal (os.remove_file place) (ok is_special) (laws.removes_file above name)
    remove_found-Runs (err not_found) = record {
      run = λ w safe pre. (
        Confined-refl node rootfs w.fs,
        Clear-last node rootfs above name w.fs pre.0 (λ target bad.
            let e = laws.shows_link above name target w.fs pre.0 bad in cc (pre.1, e)),
      );
    }
    remove_found-Runs (err other) = record {
      run = λ w safe pre. (Confined-refl node rootfs w.fs, tt);
    }

    pub remove_path_if_exists-Runs :
        Runs node rootfs (Clear node above) (remove_path_if_exists os place) (λ u. Clear node place)
    unfolding remove_path_if_exists
    remove_path_if_exists-Runs =
        bind-Runs node rootfs (ask-Runs node rootfs (os.symlink_metadata place) (Clear node above))
          remove_found-Runs

    pub create_parent-Runs :
        Runs node rootfs (Clear node above) (create_parent os place) (λ u. Clear node above)
    create_parent-Runs =
        subst
          (λ found.
            Runs node rootfs (Clear node above) (create_found os found) (λ u. Clear node above))
          (sym (parent_last above name))
          (call-Runs node rootfs (os.create_dir_all above) (Clear node above) (Clear node above)
            (λ fs safe c.
              let grows = laws.creates above fs c in
              (
                creates-Confined node rootfs rest fs (os.create_dir_all above fs).0 safe grows,
                λ done. creates-Clear node rootfs above fs (os.create_dir_all above fs).0 grows c,
              )))

    create_place-Runs :
        Runs node rootfs (Clear node place) (call (os.create_dir_all place)) (λ u. Owned)
    create_place-Runs =
        call-Runs node rootfs (os.create_dir_all place) (Clear node place) Owned (λ fs safe c.
          let grows = laws.creates place fs c in
          (
            creates-Confined node rootfs (rest ++ name ∷ []) fs (os.create_dir_all place fs).0 safe
                (subst
                  (λ p.
                    (q : FsPath)
                    → (node q (os.create_dir_all place fs).0 ≡ node q fs)
                      ⊎ (Prefix q p
                          × (node q fs ≡ none)
                          × NotLink node q (os.create_dir_all place fs).0))
                  (append_assoc rootfs rest (name ∷ [])) grows),
            λ done. (
              creates-Clear node rootfs place fs (os.create_dir_all place fs).0 grows c,
              laws.owns_dir place fs c done,
            ),
          ))

    -- The mode of what was made is set, and a failure of that is ignored.
    set_permissions-Runs :
        (mode : ℕ)
        → Runs node rootfs Owned (attempt (os.set_permissions place mode)) (λ u fs. Unit {0})
    set_permissions-Runs mode =
        attempt-Runs node rootfs (os.set_permissions place mode) Owned (λ fs c.
          Touches-Confined node rootfs rest name fs (os.set_permissions place mode fs).0
            (laws.permits above name mode fs c.0 c.1))

    clear_directory-Runs :
        (found : Result Errno FileKind)
        → Runs node rootfs
            (λ fs. Clear node above fs × (found ≡ os.symlink_metadata place fs))
            (clear_directory os place found)
            (λ u. Clear node place)
    unfolding clear_directory
    clear_directory-Runs (ok is_file) =
        weaken-Runs node rootfs (λ fs pre. pre.0) remove_path_if_exists-Runs
    clear_directory-Runs (ok is_symlink) =
        weaken-Runs node rootfs (λ fs pre. pre.0) remove_path_if_exists-Runs
    clear_directory-Runs (ok is_special) =
        weaken-Runs node rootfs (λ fs pre. pre.0) remove_path_if_exists-Runs
    clear_directory-Runs (ok is_dir) = record {
      run = λ w safe pre. (
        Confined-refl node rootfs w.fs,
        Clear-last node rootfs above name w.fs pre.0 (λ target bad.
            let e = laws.shows_link above name target w.fs pre.0 bad in cc (pre.1, e)),
      );
    }
    clear_directory-Runs (err not_found) = record {
      run = λ w safe pre. (
        Confined-refl node rootfs w.fs,
        Clear-last node rootfs above name w.fs pre.0 (λ target bad.
            let e = laws.shows_link above name target w.fs pre.0 bad in cc (pre.1, e)),
      );
    }
    clear_directory-Runs (err other) = record {
      run = λ w safe pre. (Confined-refl node rootfs w.fs, tt);
    }

    pub ensure_directory-Runs :
        (mode : ℕ) (Pre : Fs → Type 0)
        → Runs node rootfs Pre (ensure_directory os rootfs place mode) (λ u fs. Unit {0})
    unfolding ensure_directory
    ensure_directory-Runs mode Pre = then-Runs node rootfs (ensure_parent_safe-Runs rest name Pre) (
        bind-Runs node rootfs (ask-Runs node rootfs (os.symlink_metadata place) (Clear node above))
          (λ found.
            then-Runs node rootfs (clear_directory-Runs found)
              (then-Runs node rootfs create_place-Runs (set_permissions-Runs mode))))

    open_new-Runs :
        (mode : ℕ)
        → Runs node rootfs (Clear node place) (call (os.open_new place mode)) (λ u. Owned)
    open_new-Runs mode =
        call-Runs node rootfs (os.open_new place mode) (Clear node place) Owned (λ fs safe c.
          let higher = Clear-above node rootfs above name fs c in
          let t = laws.opens above name mode fs higher in
          (
            Touches-Confined node rootfs rest name fs (os.open_new place mode fs).0 t.0,
            λ done. (
              Clear-last node rootfs above name (os.open_new place mode fs).0
                  (Touches-Clear node rootfs above name fs (os.open_new place mode fs).0 t.0 higher)
                  (t.1 done).0,
              (t.1 done).1,
            ),
          ))

    take-Runs : (amount : ℕ) → Runs node rootfs Owned (take os amount) (λ u. Owned)
    unfolding take
    take-Runs amount = record {
      run = λ w safe pre. elim (Bool-cases (ltb w.remaining amount)) [
        | inl over ↦ rw (take, over) (Confined-refl node rootfs w.fs, tt)
        | inr fits ↦ rw (take, fits) (Confined-refl node rootfs w.fs, pre)
      ];
    }

    write_chunk-Runs :
        (chunk : List ℕ) → Runs node rootfs Owned (write_chunk os place chunk) (λ u. Owned)
    unfolding write_chunk
    write_chunk-Runs chunk = record {
      run = λ w safe pre.
          (call-Runs node rootfs (os.write_all place chunk) Owned Owned (λ fs safe c.
              let higher = Clear-above node rootfs above name fs c.0 in
              let t = laws.writes above name chunk fs c.0 c.1 in
              (
                Touches-Confined node rootfs rest name fs (os.write_all place chunk fs).0 t.0,
                λ done. (
                  Clear-last node rootfs above name (os.write_all place chunk fs).0
                      (Touches-Clear node rootfs above name fs (os.write_all place chunk fs).0 t.0
                        higher)
                      t.1,
                  t.2,
                ),
              ))).run
            (record w { written = w.written + length chunk }) safe pre;
    }

    copy-Runs :
        (chunks : List (Result Errno (List ℕ)))
        → Runs node rootfs Owned (copy os place chunks) (λ u. Owned)
    unfolding copy
    copy-Runs [] = pure-Runs node rootfs tt Owned
    copy-Runs (err e ∷ chunks) = throw-Runs node rootfs (io e) Owned (λ u. Owned)
    copy-Runs (ok [] ∷ chunks) = pure-Runs node rootfs tt Owned
    copy-Runs (ok (byte ∷ bytes) ∷ chunks) =
        then-Runs node rootfs (take-Runs (length (byte ∷ bytes)))
          (then-Runs node rootfs (write_chunk-Runs (byte ∷ bytes)) (copy-Runs chunks))

    pub write_regular_file-Runs :
        (mode : ℕ) (contents : List (Result Errno (List ℕ))) (Pre : Fs → Type 0)
        → Runs node rootfs Pre (write_regular_file os rootfs place mode contents) (λ u fs. Unit {0})
    unfolding write_regular_file
    write_regular_file-Runs mode contents Pre =
        then-Runs node rootfs (ensure_parent_safe-Runs rest name Pre) (
          then-Runs node rootfs create_parent-Runs (
            then-Runs node rootfs remove_path_if_exists-Runs (
              then-Runs node rootfs (open_new-Runs (mode % 2 ^ 12)) (
                then-Runs node rootfs (copy-Runs contents)
                  (set_permissions-Runs (mode % 2 ^ 12))))))
