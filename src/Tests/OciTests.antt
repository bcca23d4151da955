-- ===== src/Tests/OciTests.antt =====
-- crates/oad-oci/src/lib.rs: a layer that tries to write through a link, over a file system that is a
-- function from paths.
use omniagent.Prelude.{
  utf8_len, ◌+◌, ◌≤◌, ◌≡◌, ◌≢◌, refl, sym, subst, ◌∙◌, ◌⊎◌, inl, inr, Bool, true, false, ◌&&◌, ◌||◌,
  Bool-cases, Option, none, some, List, [], ◌∷◌, ◌++◌, append-nil, Text, codes, text_eq,
  text_eq_iff, Result, ok, err, if◌then◌else◌,
}
use omniagent.Core.Paths.Join.{NoSlash}
use omniagent.Oci.Digest.{blob_filename, blob_filename_lem}
use omniagent.Oci.Extract.{
  FsPath, normal, Os, World, Entry, EntryType, Errno, not_found, FileKind, is_dir, is_file,
  is_symlink, is_special, unsafe_archive_path, safe_join, ensure_parent_safe, check_links,
  extract_layer_from_reader, extract_entry, handle_whiteout, extract_member, extract_as,
  make_symlink, remove_path_if_exists, whiteout_at, whiteout_of, check_below,
}
use omniagent.Oci.Extract.Paths.{Prefix, Inside}
use omniagent.Oci.Extract.Confined.{Node, folder, file, link_to, device, Touches, IsOs, SafeRoot}
use omniagent.Oci.Extract.Confined.Layers.{extraction_confined}
use omniagent.Oci.Extract.Budget.Layers.{extraction_bounded}

abbrev Files : Type 0
Files = FsPath → Option Node

abbrev path_eq : FsPath → FsPath → Bool
path_eq [] [] = true
path_eq [] (n ∷ q) = false
path_eq (n ∷ p) [] = false
path_eq (n ∷ p) (m ∷ q) = text_eq n m && path_eq p q

path_eq_refl : (p : FsPath) → path_eq p p ≡ true
path_eq_refl [] = refl
path_eq_refl (n ∷ p) = rw ((text_eq_iff n n).1 refl, path_eq_refl p) refl

path_eq_same : (p q : FsPath) → path_eq p q ≡ true → q ≡ p
path_eq_same [] [] h = refl
path_eq_same [] (n ∷ q) h = absurd (cc (h))
path_eq_same (n ∷ p) [] h = absurd (cc (h))
path_eq_same (n ∷ p) (m ∷ q) h = elim (Bool-cases (text_eq n m)) [
  | inl same ↦ cc ((text_eq_iff n m).0 same, path_eq_same p q (rw (same) at h))
  | inr apart ↦ let bad = rw (apart) at h in absurd (cc (bad))
]

abbrev put : FsPath → Option Node → Files → Files
put p n fs q = if path_eq p q then n else fs q

abbrev prefix_of : FsPath → FsPath → Bool
prefix_of [] p = true
prefix_of (n ∷ q) [] = false
prefix_of (n ∷ q) (m ∷ p) = text_eq n m && prefix_of q p

prefix_of-Prefix : (q p : FsPath) → prefix_of q p ≡ true → Prefix q p
prefix_of-Prefix [] p h = tt
prefix_of-Prefix (n ∷ q) [] h = absurd (cc (h))
prefix_of-Prefix (n ∷ q) (m ∷ p) h = elim (Bool-cases (text_eq n m)) [
  | inl same ↦ ((text_eq_iff n m).0 same, prefix_of-Prefix q p (rw (same) at h))
  | inr apart ↦ let bad = rw (apart) at h in absurd (cc (bad))
]

abbrev kind_of : Option Node → Result Errno FileKind
kind_of none = err not_found
kind_of (some (folder mode)) = ok is_dir
kind_of (some (file mode contents)) = ok is_file
kind_of (some (link_to target)) = ok is_symlink
kind_of (some device) = ok is_special

abbrev fill : Bool → Option Node → Option Node
fill true none = some (folder 493)
fill true (some n) = some n
fill false n = n

abbrev is_there : Option Node → Bool
is_there none = false
is_there (some n) = true

abbrev os : Os Files
os = record {
  symlink_metadata = λ p fs. kind_of (fs p);
  exists = λ p fs. is_there (fs p);
  read_dir = λ p fs. ok [];
  create_dir_all = λ p fs. (λ q. fill (prefix_of q p) (fs q), ok tt);
  remove_dir_all = λ p fs. (put p none fs, ok tt);
  remove_file = λ p fs. (put p none fs, ok tt);
  set_permissions = λ p mode fs. (fs, ok tt);
  open_new = λ p mode fs. (put p (some (file mode [])) fs, ok tt);
  write_all = λ p chunk fs. (put p (some (file 420 chunk)) fs, ok tt);
  symlink = λ target p fs. (put p (some (link_to target)) fs, ok tt);
  hard_link = λ source p fs. (put p (fs source) fs, ok tt);
}

abbrev node : FsPath → Files → Option Node
node q fs = fs q

put-Touches : (p : FsPath) (n : Option Node) (fs : Files) → Touches node p fs (put p n fs)
put-Touches p n fs q = elim (Bool-cases (path_eq p q)) [
  | inl same ↦ inl ([], path_eq_same p q same ∙ sym (append-nil p))
  | inr apart ↦ inr (rw (apart) refl)
]

put_at : (p : FsPath) (n : Option Node) (fs : Files) → put p n fs p ≡ n
put_at p n fs = rw (path_eq_refl p) refl

filled :
    (p q : FsPath) (fs : Files) (b : Bool) (n : Option Node)
    → prefix_of q p ≡ b
    → fs q ≡ n
    → (fill b n ≡ n)
      ⊎ (Prefix q p × (n ≡ none) × ((target : Text) → fill b n ≢ some (link_to target)))
filled p q fs false n h e = inl refl
filled p q fs true (some n) h e = inl refl
filled p q fs true none h e = inr (prefix_of-Prefix q p h, refl, λ target bad. cc (bad))

os-IsOs : IsOs node (λ p fs. Unit {0}) os
os-IsOs = record {
  shows_link = λ above name target fs c e. rw (e) refl;
  creates = λ p fs c q. filled p q fs (prefix_of q p) (fs q) refl refl;
  owns_dir = λ p fs c done. tt;
  removes_dir = λ above name fs c.
      (put-Touches (above ++ name ∷ []) none fs, λ done. put_at (above ++ name ∷ []) none fs);
  removes_file = λ above name fs c.
      (put-Touches (above ++ name ∷ []) none fs, λ done. put_at (above ++ name ∷ []) none fs);
  opens = λ above name mode fs c. (
    put-Touches (above ++ name ∷ []) (some (file mode [])) fs,
    λ done. (
      λ target bad. let e = put_at (above ++ name ∷ []) (some (file mode [])) fs in cc (e, bad),
      tt,
    ),
  );
  writes = λ above name chunk fs c own. (
    put-Touches (above ++ name ∷ []) (some (file 420 chunk)) fs,
    λ target bad. let e = put_at (above ++ name ∷ []) (some (file 420 chunk)) fs in cc (e, bad),
    tt,
  );
  permits = λ above name mode fs c own q. inr refl;
  links = λ above name target fs c. put-Touches (above ++ name ∷ []) (some (link_to target)) fs;
  links_hard = λ source above name fs c. put-Touches (above ++ name ∷ []) (fs source) fs;
}

abbrev rootfs : FsPath
rootfs = codes "root" ∷ []

abbrev passwd : FsPath
passwd = codes "etc" ∷ codes "passwd" ∷ []

abbrev before : World Files
before = record {
  fs = λ q.
      if path_eq q [] || path_eq q rootfs
      then some (folder 493)
      else if path_eq q passwd
      then some (file 420 (codes "safe"))
      else none;
  remaining = 100;
  written = 0;
}

before-SafeRoot : SafeRoot node rootfs before.fs
unfolding text_eq
before-SafeRoot [] h = (493, refl)
before-SafeRoot (n ∷ []) h =
    (493, subst (λ m. before.fs (m ∷ []) ≡ some (folder 493)) (sym h.0) refl)
before-SafeRoot (n ∷ m ∷ q) h = elim h.1 [ ]

-- A link to /etc, and a file behind it.
abbrev attack : List (Result Errno Entry)
attack =
    ok (record {
      path = normal (codes "up") ∷ [];
      entry_type = EntryType.symlink;
      mode = ok 511;
      link_name = ok (some (record { text = codes "/etc"; components = [] }));
      contents = [];
    })
    ∷ ok (record {
      path = normal (codes "up") ∷ normal (codes "passwd") ∷ [];
      entry_type = EntryType.regular;
      mode = ok 420;
      link_name = ok none;
      contents = ok (codes "evil") ∷ [];
    })
    ∷ []

attack_refused : (extract_layer_from_reader os rootfs attack before).1 ≡ err unsafe_archive_path
unfolding extract_layer_from_reader extract_entry handle_whiteout extract_member safe_join
    ensure_parent_safe check_below check_links make_symlink remove_path_if_exists text_eq
    whiteout_at whiteout_of extract_as
attack_refused = refl

extraction_confined_example :
    Inside rootfs passwd
    ⊎ (node passwd (extract_layer_from_reader os rootfs attack before).0.fs ≡ node passwd before.fs)
extraction_confined_example =
    extraction_confined os node (λ p fs. Unit {0}) os-IsOs rootfs (λ e. cc (e)) before
      before-SafeRoot attack passwd

abbrev attacked : World Files
attacked = (extract_layer_from_reader os rootfs attack before).0

extraction_bounded_example :
    (attacked.written + attacked.remaining ≡ before.written + before.remaining)
    × (attacked.written ≤ before.written + before.remaining)
extraction_bounded_example = extraction_bounded os rootfs attack before

-- The SHA-256 of the empty blob.
abbrev empty_hex : Text
empty_hex = codes "e3b0c44298fc1c149afbf4c8996fb92427ae41e4649b934ca495991b7852b855"

abbrev empty_digest : Text
empty_digest = codes "sha256:" ++ empty_hex

abbrev empty_name : Text
empty_name = codes "sha256-" ++ (empty_hex ++ codes ".blob")

empty_named : blob_filename empty_digest ≡ ok empty_name
unfolding blob_filename utf8_len
empty_named = refl

blob_filename_lem_example :
    NoSlash empty_name
    × (empty_name ≢ codes ".")
    × (empty_name ≢ codes "..")
    × ((other : Text) → blob_filename other ≡ ok empty_name → other ≡ empty_digest)
blob_filename_lem_example = blob_filename_lem empty_digest empty_name empty_named
