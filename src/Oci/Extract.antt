-- ===== src/Oci/Extract.antt =====
-- Unpacking the layers of an image below a root directory, crates/oad-oci/src/lib.rs:
-- `extract_layer_from_reader` and what it calls. A path is the list of its names (a text is the
-- name's code points), an archive's path is its components. The operating system's calls are an
-- argument: what they answer and what they make of the file system `Fs`, also where they fail. Names are
-- UTF-8, and `read_dir` gives its names at once.
pub mod Paths
pub mod Confined
pub mod Budget
use omniagent.Prelude.{
  ℕ, ◌+◌, ◌-◌, ◌%◌, ◌^◌, Bool, true, false, ◌&&◌, Option, none, some, List, [], ◌∷◌, ◌++◌, Text,
  codes, Result, ok, err, text_eq, length, ltb, ◌==◌, if◌then◌else◌,
}

abbrev pub FsPath : Type 0
FsPath = List Text

-- `std::path::Component`, of a Unix path.
pub data Component : Type 0 where
  normal : Text → Component
  cur_dir : Component
  parent_dir : Component
  root_dir : Component

pub data Errno : Type 0 where
  not_found : Errno
  other : Errno

pub data OciError : Type 0 where
  unsafe_archive_path : OciError
  unsupported_tar_entry : OciError
  body_too_large : OciError
  io : Errno → OciError

pub data FileKind : Type 0 where
  is_dir : FileKind
  is_file : FileKind
  is_symlink : FileKind
  is_special : FileKind

-- The calls of std::fs. `symlink_metadata` follows no link in the last place of its path.
pub record Os (Fs : Type 0) : Type 0 where
  pub symlink_metadata : FsPath → Fs → Result Errno FileKind
  pub exists : FsPath → Fs → Bool
  pub read_dir : FsPath → Fs → Result Errno (List (Result Errno Text))
  pub create_dir_all : FsPath → Fs → Fs × Result Errno (Unit {0})
  pub remove_dir_all : FsPath → Fs → Fs × Result Errno (Unit {0})
  pub remove_file : FsPath → Fs → Fs × Result Errno (Unit {0})
  pub set_permissions : FsPath → ℕ → Fs → Fs × Result Errno (Unit {0})
  pub open_new : FsPath → ℕ → Fs → Fs × Result Errno (Unit {0})
  pub write_all : FsPath → List ℕ → Fs → Fs × Result Errno (Unit {0})
  pub symlink : Text → FsPath → Fs → Fs × Result Errno (Unit {0})
  pub hard_link : FsPath → FsPath → Fs → Fs × Result Errno (Unit {0})

-- The file system, what is left of the budget, and how many bytes were given to `write_all`.
pub record World (Fs : Type 0) : Type 0 where
  pub fs : Fs
  pub remaining : ℕ
  pub written : ℕ

abbrev pub Io : Type 0 → Type 0 → Type 0
Io Fs A = World Fs → World Fs × Result OciError A

abbrev pub and_then :
    {Fs A B : Type 0} → World Fs × Result OciError A → (A → Io Fs B) → World Fs × Result OciError B
and_then (w, ok a) f = f a w
and_then (w, err e) f = (w, err e)

infixl 20 ◌>>=◌
abbrev pub ◌>>=◌ : {Fs A B : Type 0} → Io Fs A → (A → Io Fs B) → Io Fs B
(m >>= f) w = and_then (m w) f

infixl 20 ◌>>◌
abbrev pub ◌>>◌ : {Fs B : Type 0} → Io Fs (Unit {0}) → Io Fs B → Io Fs B
(m >> n) w = and_then (m w) (λ u. n)

abbrev pub pure : {Fs A : Type 0} → A → Io Fs A
pure a w = (w, ok a)

abbrev pub throw : {Fs A : Type 0} → OciError → Io Fs A
throw e w = (w, err e)

abbrev pub from_errno : {A : Type 0} → Result Errno A → Result OciError A
from_errno (ok a) = ok a
from_errno (err e) = err (io e)

abbrev pub lift : {Fs A : Type 0} → Result OciError A → Io Fs A
lift r w = (w, r)

-- A call with its `?`, and one whose failure is ignored.
abbrev pub call : {Fs : Type 0} → (Fs → Fs × Result Errno (Unit {0})) → Io Fs (Unit {0})
call op w = (record w { fs = (op w.fs).0 }, from_errno (op w.fs).1)

abbrev pub attempt : {Fs : Type 0} → (Fs → Fs × Result Errno (Unit {0})) → Io Fs (Unit {0})
attempt op w = (record w { fs = (op w.fs).0 }, ok tt)

abbrev pub ask : {Fs A : Type 0} → (Fs → A) → Io Fs A
ask query w = (w, ok (query w.fs))

unfoldable pub safe_join : FsPath → List Component → Result OciError FsPath
safe_join target [] = ok target
safe_join target (normal value ∷ path) = safe_join (target ++ value ∷ []) path
safe_join target (cur_dir ∷ path) = safe_join target path
safe_join target (parent_dir ∷ path) = err unsafe_archive_path
safe_join target (root_dir ∷ path) = err unsafe_archive_path

-- `Path::parent` and `Path::strip_prefix`.
abbrev pub parent : FsPath → Option FsPath
parent [] = none
parent (name ∷ []) = some []
parent (name ∷ next ∷ path) = elim (parent (next ∷ path)) [
  | none ↦ none
  | some above ↦ some (name ∷ above)
]

abbrev pub strip_prefix : FsPath → FsPath → Option FsPath
strip_prefix [] path = some path
strip_prefix (name ∷ base) [] = none
strip_prefix (name ∷ base) (first ∷ path) =
    let rest = strip_prefix base path in if text_eq name first then rest else none

abbrev pub unwrap_or : Option FsPath → FsPath → FsPath
unwrap_or none path = path
unwrap_or (some above) path = above

abbrev pub is_link : Result Errno FileKind → Bool
is_link (ok is_symlink) = true
is_link r = false

module _ {Fs : Type 0} (os : Os Fs) where
  -- The loop of `ensure_parent_safe`.
  unfoldable pub check_links : FsPath → FsPath → Fs → Result OciError (Unit {0})
  check_links cursor [] fs = ok tt
  check_links cursor (value ∷ relative) fs =
      let rest = check_links (cursor ++ value ∷ []) relative fs in
      if is_link (os.symlink_metadata (cursor ++ value ∷ []) fs)
      then err unsafe_archive_path
      else rest

  unfoldable pub check_below : FsPath → Option FsPath → Io Fs (Unit {0})
  unfolding check_links
  check_below rootfs none w = (w, err unsafe_archive_path)
  check_below rootfs (some relative) w = (w, check_links rootfs relative w.fs)

  unfoldable pub ensure_parent_safe : FsPath → FsPath → Io Fs (Unit {0})
  unfolding check_links
  ensure_parent_safe rootfs target =
      check_below rootfs (strip_prefix rootfs (unwrap_or (parent target) rootfs))

  abbrev pub remove_found : FsPath → Result Errno FileKind → Io Fs (Unit {0})
  remove_found path (ok is_dir) = call (os.remove_dir_all path)
  remove_found path (ok is_file) = call (os.remove_file path)
  remove_found path (ok is_symlink) = call (os.remove_file path)
  remove_found path (ok is_special) = call (os.remove_file path)
  remove_found path (err not_found) = pure tt
  remove_found path (err other) = throw (io other)

  unfoldable pub remove_path_if_exists : FsPath → Io Fs (Unit {0})
  remove_path_if_exists path = do found ← ask (os.symlink_metadata path); remove_found path found

  abbrev pub create_found : Option FsPath → Io Fs (Unit {0})
  create_found none = pure tt
  create_found (some above) = call (os.create_dir_all above)

  abbrev pub create_parent : FsPath → Io Fs (Unit {0})
  create_parent target = create_found (parent target)

  unfoldable pub clear_directory : FsPath → Result Errno FileKind → Io Fs (Unit {0})
  unfolding remove_path_if_exists
  clear_directory target (ok is_dir) = pure tt
  clear_directory target (ok is_file) = remove_path_if_exists target
  clear_directory target (ok is_symlink) = remove_path_if_exists target
  clear_directory target (ok is_special) = remove_path_if_exists target
  clear_directory target (err not_found) = pure tt
  clear_directory target (err other) = throw (io other)

  unfoldable pub ensure_directory : FsPath → FsPath → ℕ → Io Fs (Unit {0})
  unfolding ensure_parent_safe remove_path_if_exists
  ensure_directory rootfs target mode = do
    ensure_parent_safe rootfs target
    found ← ask (os.symlink_metadata target)
    clear_directory target found
    call (os.create_dir_all target)
    attempt (os.set_permissions target mode)

  -- `ExtractionBudget::take`, with no other thread between its load and its exchange: layers are
  -- unpacked one after another.
  unfoldable pub take : ℕ → Io Fs (Unit {0})
  take amount w =
      if ltb w.remaining amount
      then (w, err body_too_large)
      else (record w { remaining = w.remaining - amount }, ok tt)

  unfoldable pub write_chunk : FsPath → List ℕ → Io Fs (Unit {0})
  write_chunk target chunk w =
      call (os.write_all target chunk) (record w { written = w.written + length chunk })

  -- `ExtractionBudget::copy` of what the reader gives, one buffer for each read.
  unfoldable pub copy : FsPath → List (Result Errno (List ℕ)) → Io Fs (Unit {0})
  unfolding take write_chunk
  copy target [] = pure tt
  copy target (err e ∷ chunks) = throw (io e)
  copy target (ok [] ∷ chunks) = pure tt
  copy target (ok (byte ∷ bytes) ∷ chunks) = do
    take (length (byte ∷ bytes))
    write_chunk target (byte ∷ bytes)
    copy target chunks

  unfoldable pub write_regular_file :
      FsPath → FsPath → ℕ → List (Result Errno (List ℕ)) → Io Fs (Unit {0})
  unfolding ensure_parent_safe remove_path_if_exists copy
  write_regular_file rootfs target mode contents = do
    ensure_parent_safe rootfs target
    create_parent target
    remove_path_if_exists target
    call (os.open_new target (mode % 2 ^ 12))
    copy target contents
    attempt (os.set_permissions target (mode % 2 ^ 12))

-- One entry of a layer. A link's target stands as its text and as its components.
pub data EntryType : Type 0 where
  directory : EntryType
  regular : EntryType
  symlink : EntryType
  link : EntryType
  char : EntryType
  block : EntryType
  fifo : EntryType
  other_type : EntryType

pub record LinkName : Type 0 where
  pub text : Text
  pub components : List Component

pub record Entry : Type 0 where
  pub path : List Component
  pub entry_type : EntryType
  pub mode : Result Errno ℕ
  pub link_name : Result Errno (Option LinkName)
  pub contents : List (Result Errno (List ℕ))

abbrev pub is_dot : List Component → Bool
is_dot (cur_dir ∷ []) = true
is_dot path = false

-- `Path::file_name`, where it is a name, with what stands before it.
abbrev pub split_name : List Component → Option (List Component × Text)
split_name [] = none
split_name (normal name ∷ []) = some ([], name)
split_name (cur_dir ∷ []) = none
split_name (parent_dir ∷ []) = none
split_name (root_dir ∷ []) = none
split_name (first ∷ next ∷ path) = elim (split_name (next ∷ path)) [
  | none ↦ none
  | some (above, name) ↦ some (first ∷ above, name)
]

abbrev pub strip_text : Text → Text → Option Text
strip_text [] text = some text
strip_text (c ∷ start) [] = none
strip_text (c ∷ start) (first ∷ text) =
    let rest = strip_text start text in if c == first then rest else none

-- The components that a text without a slash joins to a path.
abbrev pub segment : Text → List Component
segment name =
    if text_eq name []
    then []
    else if text_eq name (codes ".")
    then cur_dir ∷ []
    else if text_eq name (codes "..")
    then parent_dir ∷ []
    else normal name ∷ []

-- `strip_prefix("/")`, or the path itself.
abbrev pub relative : List Component → List Component
relative (root_dir ∷ path) = path
relative path = path

module _ {Fs : Type 0} (os : Os Fs) where
  unfoldable pub remove_each : FsPath → List (Result Errno Text) → Io Fs (Unit {0})
  unfolding remove_path_if_exists
  remove_each above [] = pure tt
  remove_each above (err e ∷ names) = throw (io e)
  remove_each above (ok name ∷ names) = do
    remove_path_if_exists os (above ++ name ∷ [])
    remove_each above names

  abbrev pub remove_listed : FsPath → Result Errno (List (Result Errno Text)) → Io Fs (Unit {0})
  remove_listed above (ok names) = remove_each above names
  remove_listed above (err e) = throw (io e)

  unfoldable pub clear_listed : FsPath → Io Fs (Unit {0})
  unfolding remove_path_if_exists
  clear_listed parent = do
    there ← ask (os.exists parent)
    if there then ask (os.read_dir parent) >>= remove_listed parent else pure tt

  unfoldable pub clear_opaque : FsPath → List Component → Io Fs (Unit {0})
  unfolding safe_join ensure_parent_safe
  clear_opaque rootfs above = do
    parent ← lift (safe_join rootfs above)
    ensure_parent_safe os rootfs (parent ++ codes ".opq-check" ∷ [])
    clear_listed parent

  unfoldable pub remove_whited : FsPath → List Component → Text → Io Fs (Unit {0})
  unfolding safe_join ensure_parent_safe remove_path_if_exists
  remove_whited rootfs above stripped = do
    target ← lift (safe_join rootfs (above ++ segment stripped))
    ensure_parent_safe os rootfs target
    remove_path_if_exists os target

  unfoldable pub whiteout_of : FsPath → List Component → Text → Option Text → Io Fs Bool
  unfolding clear_opaque remove_whited
  whiteout_of rootfs above name stripped =
      if text_eq name (codes ".wh..wh..opq")
      then clear_opaque rootfs above >> pure true
      else elim stripped [
        | none ↦ pure false
        | some rest ↦ remove_whited rootfs above rest >> pure true
      ]

  unfoldable pub whiteout_at : FsPath → Option (List Component × Text) → Io Fs Bool
  unfolding clear_opaque remove_whited
  whiteout_at rootfs none = pure false
  whiteout_at rootfs (some (above, name)) =
      whiteout_of rootfs above name (strip_text (codes ".wh.") name)

  unfoldable pub handle_whiteout : FsPath → List Component → Io Fs Bool
  handle_whiteout rootfs path = whiteout_at rootfs (split_name path)

  abbrev pub named : Result Errno (Option LinkName) → Io Fs LinkName
  named (err e) = throw (io e)
  named (ok none) = throw unsafe_archive_path
  named (ok (some name)) = pure name

  unfoldable pub make_symlink : FsPath → Text → Io Fs (Unit {0})
  unfolding remove_path_if_exists
  make_symlink target name = do
    create_parent os target
    remove_path_if_exists os target
    call (os.symlink name target)

  abbrev pub not_symlink : Result Errno FileKind → Io Fs (Unit {0})
  not_symlink (err e) = throw (io e)
  not_symlink (ok is_symlink) = throw unsafe_archive_path
  not_symlink (ok is_dir) = pure tt
  not_symlink (ok is_file) = pure tt
  not_symlink (ok is_special) = pure tt

  unfoldable pub make_hard_link : FsPath → FsPath → List Component → Io Fs (Unit {0})
  unfolding safe_join ensure_parent_safe remove_path_if_exists
  make_hard_link rootfs target name = do
    source ← lift (safe_join rootfs (relative name))
    ensure_parent_safe os rootfs source
    found ← ask (os.symlink_metadata source)
    not_symlink found
    create_parent os target
    remove_path_if_exists os target
    call (os.hard_link source target)

  unfoldable pub extract_as : FsPath → FsPath → Entry → EntryType → Io Fs (Unit {0})
  unfolding ensure_directory write_regular_file make_symlink make_hard_link
  extract_as rootfs target entry directory = do
    mode ← lift (from_errno entry.mode)
    ensure_directory os rootfs target mode
  extract_as rootfs target entry regular = do
    mode ← lift (from_errno entry.mode)
    write_regular_file os rootfs target mode entry.contents
  extract_as rootfs target entry symlink = do
    name ← named entry.link_name
    make_symlink target name.text
  extract_as rootfs target entry link = do
    name ← named entry.link_name
    make_hard_link rootfs target name.components
  extract_as rootfs target entry char = pure tt
  extract_as rootfs target entry block = pure tt
  extract_as rootfs target entry fifo = pure tt
  extract_as rootfs target entry other_type = throw unsupported_tar_entry

  unfoldable pub extract_member : FsPath → Entry → Io Fs (Unit {0})
  unfolding safe_join ensure_parent_safe
  extract_member rootfs entry = do
    target ← lift (safe_join rootfs entry.path)
    ensure_parent_safe os rootfs target
    extract_as rootfs target entry entry.entry_type

  unfoldable pub extract_entry : FsPath → Entry → Io Fs (Unit {0})
  unfolding handle_whiteout extract_member
  extract_entry rootfs entry =
      if is_dot entry.path
      then pure tt
      else handle_whiteout rootfs entry.path
        >>= (λ white. if white then pure tt else extract_member rootfs entry)

  unfoldable pub extract_layer_from_reader : FsPath → List (Result Errno Entry) → Io Fs (Unit {0})
  unfolding extract_entry
  extract_layer_from_reader rootfs [] = pure tt
  extract_layer_from_reader rootfs (err e ∷ entries) = throw (io e)
  extract_layer_from_reader rootfs (ok entry ∷ entries) = do
    extract_entry rootfs entry
    extract_layer_from_reader rootfs entries
