-- ===== src/Oci/Extract/Budget.antt =====
-- The budget of an image's unpacking, `ExtractionBudget` of crates/oad-oci/src/lib.rs, through the code
-- that unpacks a layer.
pub mod Layers
use omniagent.Prelude.{
  ℕ, ◌+◌, ◌-◌, ◌%◌, ◌^◌, ◌≤◌, ◌≡◌, refl, ◌⊎◌, inl, inr, Bool, true, false, Bool-cases, Option, none,
  some, List, [], ◌∷◌, ◌++◌, Text, codes, text_eq, Result, ok, err, arith, ltb, length,
  if◌then◌else◌,
}
use omniagent.Oci.Extract.{
  FsPath, Component, Os, World, Io, OciError, Errno, not_found, other, FileKind, is_dir, is_file,
  is_symlink, is_special, and_then, ◌>>=◌, ◌>>◌, pure, throw, lift, call, attempt, ask, from_errno,
  safe_join, parent, unwrap_or, strip_prefix, check_below, ensure_parent_safe, remove_found,
  remove_path_if_exists, create_found, create_parent, clear_directory, ensure_directory, take,
  write_chunk, copy, write_regular_file, Entry, EntryType, directory, regular, symlink, link, char,
  block, fifo, other_type, LinkName, is_dot, split_name, strip_text, segment, relative, remove_each,
  remove_listed, clear_listed, clear_opaque, remove_whited, whiteout_of, whiteout_at,
  handle_whiteout, named, make_symlink, not_symlink, make_hard_link, extract_as, extract_member,
  extract_entry, extract_layer_from_reader,
}

-- What is written and what is left make the same sum.
pub record IsBalanced {Fs A : Type 0} (m : Io Fs A) : Type 0 where
  pub run : (w : World Fs) → (m w).0.written + (m w).0.remaining ≡ w.written + w.remaining

module _ {Fs : Type 0} where
  pub and_then-balanced :
      {A B : Type 0} (r : World Fs × Result OciError A) (f : A → Io Fs B) (sum : ℕ)
      → r.0.written + r.0.remaining ≡ sum
      → ((a : A) → IsBalanced (f a))
      → (and_then r f).0.written + (and_then r f).0.remaining ≡ sum
  and_then-balanced (w, ok a) f sum h g = omega (arith, h, (g a).run w)
  and_then-balanced (w, err e) f sum h g = h

  pub bind-IsBalanced :
      {A B : Type 0} {m : Io Fs A} {f : A → Io Fs B}
      → IsBalanced m
      → ((a : A) → IsBalanced (f a))
      → IsBalanced (m >>= f)
  bind-IsBalanced {m} {f} h g = record {
    run = λ w. and_then-balanced (m w) f (w.written + w.remaining) (h.run w) g;
  }

  pub then-IsBalanced :
      {B : Type 0} {m : Io Fs (Unit {0})} {n : Io Fs B}
      → IsBalanced m
      → IsBalanced n
      → IsBalanced (m >> n)
  then-IsBalanced {m} {n} h g = record {
    run = λ w. and_then-balanced (m w) (λ u. n) (w.written + w.remaining) (h.run w) (λ u. g);
  }

  pub lift-IsBalanced : {A : Type 0} (r : Result OciError A) → IsBalanced {Fs = Fs} (lift r)
  lift-IsBalanced r = record { run = λ w. refl }

  pub pure-IsBalanced : {A : Type 0} (a : A) → IsBalanced {Fs = Fs} (pure a)
  pure-IsBalanced a = record { run = λ w. refl }

  pub throw-IsBalanced : {A : Type 0} (e : OciError) → IsBalanced {Fs = Fs} {A = A} (throw e)
  throw-IsBalanced e = record { run = λ w. refl }

  pub ask-IsBalanced : {A : Type 0} (query : Fs → A) → IsBalanced (ask query)
  ask-IsBalanced query = record { run = λ w. refl }

  pub call-IsBalanced : (op : Fs → Fs × Result Errno (Unit {0})) → IsBalanced (call op)
  call-IsBalanced op = record { run = λ w. refl }

  pub attempt-IsBalanced : (op : Fs → Fs × Result Errno (Unit {0})) → IsBalanced (attempt op)
  attempt-IsBalanced op = record { run = λ w. refl }

  pub if-IsBalanced :
      {A : Type 0} (b : Bool) {m n : Io Fs A}
      → IsBalanced m
      → IsBalanced n
      → IsBalanced (if b then m else n)
  if-IsBalanced true h g = h
  if-IsBalanced false h g = g

module _ {Fs : Type 0} (os : Os Fs) where
  pub check_below-IsBalanced :
      (rootfs : FsPath) (found : Option FsPath) → IsBalanced (check_below os rootfs found)
  unfolding check_below
  check_below-IsBalanced rootfs none = record { run = λ w. refl }
  check_below-IsBalanced rootfs (some rest) = record { run = λ w. refl }

  pub ensure_parent_safe-IsBalanced :
      (rootfs target : FsPath) → IsBalanced (ensure_parent_safe os rootfs target)
  unfolding ensure_parent_safe
  ensure_parent_safe-IsBalanced rootfs target =
      check_below-IsBalanced rootfs (strip_prefix rootfs (unwrap_or (parent target) rootfs))

  pub remove_found-IsBalanced :
      (path : FsPath) (found : Result Errno FileKind) → IsBalanced (remove_found os path found)
  remove_found-IsBalanced path (ok is_dir) = call-IsBalanced (os.remove_dir_all path)
  remove_found-IsBalanced path (ok is_file) = call-IsBalanced (os.remove_file path)
  remove_found-IsBalanced path (ok is_symlink) = call-IsBalanced (os.remove_file path)
  remove_found-IsBalanced path (ok is_special) = call-IsBalanced (os.remove_file path)
  remove_found-IsBalanced path (err not_found) = record { run = λ w. refl }
  remove_found-IsBalanced path (err other) = record { run = λ w. refl }

  pub remove_path_if_exists-IsBalanced :
      (path : FsPath) → IsBalanced (remove_path_if_exists os path)
  unfolding remove_path_if_exists
  remove_path_if_exists-IsBalanced path =
      bind-IsBalanced (ask-IsBalanced (os.symlink_metadata path)) (remove_found-IsBalanced path)

  pub create_found-IsBalanced : (above : Option FsPath) → IsBalanced (create_found os above)
  create_found-IsBalanced none = record { run = λ w. refl }
  create_found-IsBalanced (some above) = call-IsBalanced (os.create_dir_all above)

  pub clear_directory-IsBalanced :
      (target : FsPath) (found : Result Errno FileKind)
      → IsBalanced (clear_directory os target found)
  unfolding clear_directory
  clear_directory-IsBalanced target (ok is_dir) = record { run = λ w. refl }
  clear_directory-IsBalanced target (ok is_file) = remove_path_if_exists-IsBalanced target
  clear_directory-IsBalanced target (ok is_symlink) = remove_path_if_exists-IsBalanced target
  clear_directory-IsBalanced target (ok is_special) = remove_path_if_exists-IsBalanced target
  clear_directory-IsBalanced target (err not_found) = record { run = λ w. refl }
  clear_directory-IsBalanced target (err other) = record { run = λ w. refl }

  pub ensure_directory-IsBalanced :
      (rootfs target : FsPath) (mode : ℕ) → IsBalanced (ensure_directory os rootfs target mode)
  unfolding ensure_directory
  ensure_directory-IsBalanced rootfs target mode =
      then-IsBalanced (ensure_parent_safe-IsBalanced rootfs target) (
        bind-IsBalanced (ask-IsBalanced (os.symlink_metadata target)) (λ found.
          then-IsBalanced (clear_directory-IsBalanced target found) (
            then-IsBalanced (call-IsBalanced (os.create_dir_all target))
              (attempt-IsBalanced (os.set_permissions target mode)))))

  -- A buffer is written only after as much was taken.
  pub copy-IsBalanced :
      (target : FsPath) (chunks : List (Result Errno (List ℕ))) → IsBalanced (copy os target chunks)
  unfolding copy take write_chunk
  copy-IsBalanced target [] = record { run = λ w. refl }
  copy-IsBalanced target (err e ∷ chunks) = record { run = λ w. refl }
  copy-IsBalanced target (ok [] ∷ chunks) = record { run = λ w. refl }
  copy-IsBalanced target (ok (byte ∷ bytes) ∷ chunks) = record {
    run = λ w. elim (Bool-cases (ltb w.remaining (length (byte ∷ bytes)))) [
      | inl over ↦ rw (take, over) refl
      | inr fits ↦
          rw (take, fits)
            (and_then-balanced
              (write_chunk os target (byte ∷ bytes)
                (record w { remaining = w.remaining - length (byte ∷ bytes) }))
              (λ u. copy os target chunks) (w.written + w.remaining) (ground arith)
              (λ u. copy-IsBalanced target chunks))
    ];
  }

  pub write_regular_file-IsBalanced :
      (rootfs target : FsPath) (mode : ℕ) (contents : List (Result Errno (List ℕ)))
      → IsBalanced (write_regular_file os rootfs target mode contents)
  unfolding write_regular_file
  write_regular_file-IsBalanced rootfs target mode contents =
      then-IsBalanced (ensure_parent_safe-IsBalanced rootfs target) (
        then-IsBalanced (create_found-IsBalanced (parent target)) (
          then-IsBalanced (remove_path_if_exists-IsBalanced target) (
            then-IsBalanced (call-IsBalanced (os.open_new target (mode % 2 ^ 12))) (
              then-IsBalanced (copy-IsBalanced target contents)
                (attempt-IsBalanced (os.set_permissions target (mode % 2 ^ 12)))))))
