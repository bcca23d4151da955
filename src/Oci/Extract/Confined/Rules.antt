-- ===== src/Oci/Extract/Confined/Rules.antt =====
-- Rules for runs: one for each way of composing them, and for a call that touches one path.
use omniagent.Prelude.{
  ◌≡◌, refl, sym, subst, ◌∙◌, ◌⊎◌, inl, inr, Bool, true, false, if◌then◌else◌, Option, none, [],
  ◌∷◌, ◌++◌, Text, Result, ok, err,
}
use omniagent.Oci.Extract.{
  FsPath, World, Io, OciError, Errno, and_then, ◌>>=◌, ◌>>◌, pure, throw, lift, call, attempt, ask,
  from_errno,
}
use omniagent.Oci.Extract.Paths.{
  Prefix, Prefix-append, Prefix_split, Prefix_last, Prefix_outside, Prefix_not-Under, Inside-Under,
}
use omniagent.Oci.Extract.Confined.{
  Node, NotLink, Clear, Touches, SafeRoot, Confined, Ensures, Runs,
}

module _ {Fs : Type 0} (node : FsPath → Fs → Option Node) (rootfs : FsPath) where
  pub Confined-refl : (fs : Fs) → Confined node rootfs fs fs
  Confined-refl fs q = inr refl

  Confined_trans :
      (fs fs' fs'' : Fs)
      → Confined node rootfs fs fs'
      → Confined node rootfs fs' fs''
      → Confined node rootfs fs fs''
  Confined_trans fs fs' fs'' c d q = elim (c q) [
    | inl inside ↦ inl inside
    | inr same ↦ elim (d q) [ inl inside ↦ inl inside | inr still ↦ inr (still ∙ same) ]
  ]

  pub SafeRoot-Confined :
      (fs fs' : Fs)
      → Confined node rootfs fs fs'
      → SafeRoot node rootfs fs
      → SafeRoot node rootfs fs'
  SafeRoot-Confined fs fs' c safe q h = elim (c q) [
    | inl inside ↦ absurd (Prefix_outside q rootfs h inside)
    | inr same ↦ let s = safe q h in (s.0, same ∙ s.1)
  ]

  pub SafeRoot-Clear : (fs : Fs) → SafeRoot node rootfs fs → Clear node rootfs fs
  SafeRoot-Clear fs safe q h target bad = let s = safe q h in cc (s.1, bad)

  -- A call at a place below the root with no link above it.
  pub Touches-Confined :
      (rest : FsPath) (name : Text) (fs fs' : Fs)
      → Touches node ((rootfs ++ rest) ++ name ∷ []) fs fs'
      → Confined node rootfs fs fs'
  Touches-Confined rest name fs fs' t q = elim (t q) [
    | inl under ↦ inl (Inside-Under rootfs rest q name under)
    | inr same ↦ inr same
  ]

  pub Touches-Clear :
      (above : FsPath) (name : Text) (fs fs' : Fs)
      → Touches node (above ++ name ∷ []) fs fs'
      → Clear node above fs
      → Clear node above fs'
  Touches-Clear above name fs fs' t c q h target = elim (t q) [
    | inl under ↦ absurd (Prefix_not-Under q above name h under)
    | inr same ↦ λ bad. c q h target (sym same ∙ bad)
  ]

  pub Clear-last :
      (above : FsPath) (name : Text) (fs : Fs)
      → Clear node above fs
      → NotLink node (above ++ name ∷ []) fs
      → Clear node (above ++ name ∷ []) fs
  Clear-last above name fs c n q h = elim (Prefix_last q above name h) [
    | inl higher ↦ c q higher
    | inr same ↦ subst (λ p. NotLink node p fs) (sym same) n
  ]

  pub Clear-above :
      (above : FsPath) (name : Text) (fs : Fs)
      → Clear node (above ++ name ∷ []) fs
      → Clear node above fs
  Clear-above above name fs c q h = c q (Prefix-append q above (name ∷ []) h)

  -- Directories made on the way to a place below the root.
  pub creates-Confined :
      (rest : FsPath) (fs fs' : Fs)
      → SafeRoot node rootfs fs
      → ((q : FsPath)
          → (node q fs' ≡ node q fs)
            ⊎ (Prefix q (rootfs ++ rest) × (node q fs ≡ none) × NotLink node q fs'))
      → Confined node rootfs fs fs'
  creates-Confined rest fs fs' safe grows q = elim (grows q) [
    | inl same ↦ inr same
    | inr made ↦ elim (Prefix_split q rootfs rest made.0) [
      | inl above ↦ let s = safe q above in absurd (cc (s.1, made.1))
      | inr inside ↦ inl inside
    ]
  ]

  pub creates-Clear :
      (path : FsPath) (fs fs' : Fs)
      → ((q : FsPath)
          → (node q fs' ≡ node q fs) ⊎ (Prefix q path × (node q fs ≡ none) × NotLink node q fs'))
      → Clear node path fs
      → Clear node path fs'
  creates-Clear path fs fs' grows c q h target = elim (grows q) [
    | inl same ↦ λ bad. c q h target (sym same ∙ bad)
    | inr made ↦ made.2 target
  ]

  module _ {A B : Type 0} where
    and_then-Ensures :
        (fs : Fs) (r : World Fs × Result OciError A) (f : A → Io Fs B) (Mid : A → Fs → Type 0)
        (Post : B → Fs → Type 0)
        → SafeRoot node rootfs fs
        → Confined node rootfs fs r.0.fs × Ensures node r Mid
        → ((a : A) → Runs node rootfs (Mid a) (f a) Post)
        → Confined node rootfs fs (and_then r f).0.fs × Ensures node (and_then r f) Post
    and_then-Ensures fs (w, err e) f Mid Post safe h g = (h.0, tt)
    and_then-Ensures fs (w, ok a) f Mid Post safe h g =
        let next = (g a).run w (SafeRoot-Confined fs w.fs h.0 safe) h.1 in
        (Confined_trans fs w.fs (f a w).0.fs h.0 next.0, next.1)

    pub bind-Runs :
        {Pre : Fs → Type 0} {m : Io Fs A} {Mid : A → Fs → Type 0} {f : A → Io Fs B}
        {Post : B → Fs → Type 0}
        → Runs node rootfs Pre m Mid
        → ((a : A) → Runs node rootfs (Mid a) (f a) Post)
        → Runs node rootfs Pre (m >>= f) Post
    bind-Runs {m} {Mid} {f} {Post} h g = record {
      run = λ w safe pre. and_then-Ensures w.fs (m w) f Mid Post safe (h.run w safe pre) g;
    }

  pub then-Runs :
      {B : Type 0} {Pre Mid : Fs → Type 0} {m : Io Fs (Unit {0})} {n : Io Fs B}
      {Post : B → Fs → Type 0}
      → Runs node rootfs Pre m (λ u. Mid)
      → Runs node rootfs Mid n Post
      → Runs node rootfs Pre (m >> n) Post
  then-Runs {Mid} {m} {n} {Post} h g = record {
    run = λ w safe pre.
        and_then-Ensures w.fs (m w) (λ u. n) (λ u. Mid) Post safe (h.run w safe pre) (λ u. g);
  }

  -- Less is supposed.
  pub weaken-Runs :
      {A : Type 0} {Pre Pre' : Fs → Type 0} {m : Io Fs A} {Post : A → Fs → Type 0}
      → ((fs : Fs) → Pre' fs → Pre fs)
      → Runs node rootfs Pre m Post
      → Runs node rootfs Pre' m Post
  weaken-Runs h r = record { run = λ w safe pre. r.run w safe (h w.fs pre) }

  forget-Ensures :
      {A : Type 0} (r : World Fs × Result OciError A) (Post : A → Fs → Type 0)
      → Ensures node r Post
      → Ensures node r (λ a fs. Unit {0})
  forget-Ensures (w, ok a) Post h = tt
  forget-Ensures (w, err e) Post h = tt

  -- What holds after it is forgotten.
  pub forget-Runs :
      {A : Type 0} {Pre : Fs → Type 0} {m : Io Fs A} {Post : A → Fs → Type 0}
      → Runs node rootfs Pre m Post
      → Runs node rootfs Pre m (λ a fs. Unit {0})
  forget-Runs {m} {Post} r = record {
    run = λ w safe pre. let done = r.run w safe pre in (done.0, forget-Ensures (m w) Post done.1);
  }

  pub pure-Runs :
      {A : Type 0} (a : A) (Pre : Fs → Type 0) → Runs node rootfs Pre (pure a) (λ b. Pre)
  pure-Runs a Pre = record { run = λ w safe pre. (Confined-refl w.fs, pre) }

  pub throw-Runs :
      {A : Type 0} (e : OciError) (Pre : Fs → Type 0) (Post : A → Fs → Type 0)
      → Runs node rootfs Pre (throw e) Post
  throw-Runs e Pre Post = record { run = λ w safe pre. (Confined-refl w.fs, tt) }

  -- A result that is worked out without the file system.
  pub lift-Runs :
      {A : Type 0} (r : Result OciError A) (Pre : Fs → Type 0)
      → Runs node rootfs Pre (lift r) (λ a fs. r ≡ ok a)
  lift-Runs (ok a) Pre = record { run = λ w safe pre. (Confined-refl w.fs, refl) }
  lift-Runs (err e) Pre = record { run = λ w safe pre. (Confined-refl w.fs, tt) }

  pub ask-Runs :
      {A : Type 0} (query : Fs → A) (Pre : Fs → Type 0)
      → Runs node rootfs Pre (ask query) (λ a fs. Pre fs × (a ≡ query fs))
  ask-Runs query Pre = record { run = λ w safe pre. (Confined-refl w.fs, (pre, refl)) }

  from_errno-Ensures :
      (w : World Fs) (r : Result Errno (Unit {0})) (Post : Fs → Type 0)
      → (r ≡ ok tt → Post w.fs)
      → Ensures node (w, from_errno r) (λ u. Post)
  from_errno-Ensures w (ok u) Post h = h refl
  from_errno-Ensures w (err e) Post h = tt

  pub call-Runs :
      (op : Fs → Fs × Result Errno (Unit {0})) (Pre Post : Fs → Type 0)
      → ((fs : Fs)
          → SafeRoot node rootfs fs
          → Pre fs
          → Confined node rootfs fs (op fs).0 × ((op fs).1 ≡ ok tt → Post (op fs).0))
      → Runs node rootfs Pre (call op) (λ u. Post)
  call-Runs op Pre Post h = record {
    run = λ w safe pre.
        let done = h w.fs safe pre in
        (done.0, from_errno-Ensures (record w { fs = (op w.fs).0 }) (op w.fs).1 Post done.1);
  }

  pub attempt-Runs :
      (op : Fs → Fs × Result Errno (Unit {0})) (Pre : Fs → Type 0)
      → ((fs : Fs) → Pre fs → Confined node rootfs fs (op fs).0)
      → Runs node rootfs Pre (attempt op) (λ u fs. Unit {0})
  attempt-Runs op Pre h = record { run = λ w safe pre. (h w.fs pre, tt) }

  pub keep-Runs :
      {A : Type 0} (r : Result OciError A) (Pre : Fs → Type 0)
      → Runs node rootfs Pre (lift r) (λ a. Pre)
  keep-Runs (ok a) Pre = record { run = λ w safe pre. (Confined-refl w.fs, pre) }
  keep-Runs (err e) Pre = record { run = λ w safe pre. (Confined-refl w.fs, tt) }

  -- What is supposed says nothing of the file system.
  pub given-Runs :
      {A : Type 0} (P : Type 0) {m : Io Fs A} {Post : A → Fs → Type 0}
      → (P → Runs node rootfs (λ fs. Unit {0}) m Post)
      → Runs node rootfs (λ fs. P) m Post
  given-Runs P h = record { run = λ w safe p. (h p).run w safe tt }

  pub if-Runs :
      {A : Type 0} (b : Bool) {Pre : Fs → Type 0} {m n : Io Fs A} {Post : A → Fs → Type 0}
      → Runs node rootfs Pre m Post
      → Runs node rootfs Pre n Post
      → Runs node rootfs Pre (if b then m else n) Post
  if-Runs true h g = h
  if-Runs false h g = g
