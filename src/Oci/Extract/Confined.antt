-- ===== src/Oci/Extract/Confined.antt =====
-- What the unpacking of layers needs of the operating system's calls, what it keeps to, and how that
-- is followed through the code of crates/oad-oci/src/lib.rs.
pub mod Rules
pub mod Calls
pub mod Members
pub mod Layers
use omniagent.Prelude.{
  ℕ, ◌≡◌, ◌≢◌, ◌⊎◌, Option, none, some, List, [], ◌∷◌, ◌++◌, Text, Result, ok, err,
}
use omniagent.Oci.Extract.{FsPath, Os, World, Io, OciError, Errno, FileKind, is_symlink}
use omniagent.Oci.Extract.Paths.{Prefix, Under, Inside}

-- What stands at a path, with no link followed.
pub data Node : Type 0 where
  folder : (mode : ℕ) → Node
  file : (mode : ℕ) (contents : List ℕ) → Node
  link_to : Text → Node
  device : Node

module _ {Fs : Type 0} (node : FsPath → Fs → Option Node) where
  abbrev pub NotLink : FsPath → Fs → Type 0
  NotLink q fs = (target : Text) → node q fs ≢ some (link_to target)

  -- No link on the way to a path, nor at it.
  abbrev pub Clear : FsPath → Fs → Type 0
  Clear path fs = (q : FsPath) → Prefix q path → NotLink q fs

  abbrev pub Touches : FsPath → Fs → Fs → Type 0
  Touches path fs fs' = (q : FsPath) → Under path q ⊎ (node q fs' ≡ node q fs)

  -- The calls, on a path with no link above its last name. Whatever they answer, they change nothing
  -- but what is at or below it; `create_dir_all` makes directories where nothing was. `single` says
  -- that what is at a path has no other name: so it is with a directory, and with a file that
  -- `open_new` has made.
  pub record IsOs (single : FsPath → Fs → Type 0) (os : Os Fs) : Type 0 where
    pub shows_link :
        (above : FsPath) (name target : Text) (fs : Fs)
        → Clear above fs
        → node (above ++ name ∷ []) fs ≡ some (link_to target)
        → os.symlink_metadata (above ++ name ∷ []) fs ≡ ok is_symlink
    pub creates :
        (path : FsPath) (fs : Fs)
        → Clear path fs
        → (q : FsPath)
        → (node q (os.create_dir_all path fs).0 ≡ node q fs)
          ⊎ (Prefix q path × (node q fs ≡ none) × NotLink q (os.create_dir_all path fs).0)
    pub owns_dir :
        (path : FsPath) (fs : Fs)
        → Clear path fs
        → (os.create_dir_all path fs).1 ≡ ok tt
        → single path (os.create_dir_all path fs).0
    pub removes_dir :
        (above : FsPath) (name : Text) (fs : Fs)
        → Clear above fs
        → Touches (above ++ name ∷ []) fs (os.remove_dir_all (above ++ name ∷ []) fs).0
          × ((os.remove_dir_all (above ++ name ∷ []) fs).1 ≡ ok tt
              → node (above ++ name ∷ []) (os.remove_dir_all (above ++ name ∷ []) fs).0 ≡ none)
    pub removes_file :
        (above : FsPath) (name : Text) (fs : Fs)
        → Clear above fs
        → Touches (above ++ name ∷ []) fs (os.remove_file (above ++ name ∷ []) fs).0
          × ((os.remove_file (above ++ name ∷ []) fs).1 ≡ ok tt
              → node (above ++ name ∷ []) (os.remove_file (above ++ name ∷ []) fs).0 ≡ none)
    pub opens :
        (above : FsPath) (name : Text) (mode : ℕ) (fs : Fs)
        → Clear above fs
        → Touches (above ++ name ∷ []) fs (os.open_new (above ++ name ∷ []) mode fs).0
          × ((os.open_new (above ++ name ∷ []) mode fs).1 ≡ ok tt
              → NotLink (above ++ name ∷ []) (os.open_new (above ++ name ∷ []) mode fs).0
                × single (above ++ name ∷ []) (os.open_new (above ++ name ∷ []) mode fs).0)
    pub writes :
        (above : FsPath) (name : Text) (chunk : List ℕ) (fs : Fs)
        → Clear (above ++ name ∷ []) fs
        → single (above ++ name ∷ []) fs
        → Touches (above ++ name ∷ []) fs (os.write_all (above ++ name ∷ []) chunk fs).0
          × NotLink (above ++ name ∷ []) (os.write_all (above ++ name ∷ []) chunk fs).0
          × single (above ++ name ∷ []) (os.write_all (above ++ name ∷ []) chunk fs).0
    pub permits :
        (above : FsPath) (name : Text) (mode : ℕ) (fs : Fs)
        → Clear (above ++ name ∷ []) fs
        → single (above ++ name ∷ []) fs
        → Touches (above ++ name ∷ []) fs (os.set_permissions (above ++ name ∷ []) mode fs).0
    pub links :
        (above : FsPath) (name target : Text) (fs : Fs)
        → Clear above fs
        → Touches (above ++ name ∷ []) fs (os.symlink target (above ++ name ∷ []) fs).0
    pub links_hard :
        (source above : FsPath) (name : Text) (fs : Fs)
        → Clear above fs
        → Touches (above ++ name ∷ []) fs (os.hard_link source (above ++ name ∷ []) fs).0

  -- Every directory down to the root is one.
  abbrev pub SafeRoot : FsPath → Fs → Type 0
  SafeRoot rootfs fs =
      (q : FsPath) → Prefix q rootfs → (mode : ℕ) × (node q fs ≡ some (folder mode))

  -- Nothing has changed but strictly below the root.
  abbrev pub Confined : FsPath → Fs → Fs → Type 0
  Confined rootfs fs fs' = (q : FsPath) → Inside rootfs q ⊎ (node q fs' ≡ node q fs)

  abbrev pub Ensures : {A : Type 0} → World Fs × Result OciError A → (A → Fs → Type 0) → Type 0
  Ensures (w, ok a) Post = Post a w.fs
  Ensures (w, err e) Post = Unit

  -- A run from where `Pre` holds is confined, and where it succeeds `Post` holds.
  pub record Runs {A : Type 0} (rootfs : FsPath) (Pre : Fs → Type 0) (m : Io Fs A)
      (Post : A → Fs → Type 0) : Type 0 where
    pub run :
        (w : World Fs)
        → SafeRoot rootfs w.fs
        → Pre w.fs
        → Confined rootfs w.fs (m w).0.fs × Ensures (m w) Post
