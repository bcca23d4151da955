-- ===== src/Core/Paths/Isolation.antt =====
-- The paths of sandboxes, containers and snapshots are apart, as texts: those of
-- crates/oad-core/src/lib.rs for ids and names that the checks of `validate_id_segment` accept.
use omniagent.Prelude.{
  ℕ, ◌≡◌, refl, sym, ap, ◌∙◌, ◌≢◌, true, false, [], ◌∷◌, ◌++◌, arith, append_assoc, Text, codes,
}
use omniagent.Core.Ids.{SandboxId}
use omniagent.Core.Ids.Laws.{AllIdChars, IsSegment}
use omniagent.Core.Paths.{OadPaths, sandboxes_dir, sandbox_dir, cache_dir, snapshot_dir, bundle_dir}
use omniagent.Core.Paths.Join.{
  is_absolute, needs_sep, with_sep, join, join-relative, with_sep-join, append_cancel, NoSlash,
  first_component, NoSlash-relative, NoSlash-needs_sep,
}

AllIdChars-NoSlash : (s : Text) → AllIdChars s → NoSlash s
AllIdChars-NoSlash [] h = tt
AllIdChars-NoSlash (c ∷ s) h = (omega arith, AllIdChars-NoSlash s h.1)

module _ {s : Text} (v : IsSegment s) where
  IsSegment-NoSlash : NoSlash s
  IsSegment-NoSlash = AllIdChars-NoSlash s v.chars

  IsSegment-relative : is_absolute s ≡ false
  IsSegment-relative = NoSlash-relative s IsSegment-NoSlash

  IsSegment-needs_sep : needs_sep s ≡ true
  IsSegment-needs_sep = NoSlash-needs_sep s IsSegment-NoSlash v.nonempty

-- The shape of every path below a directory named by a segment.
below_segment :
    (base x s : Text)
    → IsSegment s
    → is_absolute x ≡ false
    → join (join base s) x ≡ with_sep base ++ (s ++ b'/' ∷ x)
below_segment base x s v r =
    join-relative (join base s) x r
    ∙ ap (λ t. t ++ x) (with_sep-join base s (IsSegment-relative v) (IsSegment-needs_sep v))
    ∙ append_assoc (with_sep base ++ s) (codes "/") x
    ∙ append_assoc (with_sep base) s (b'/' ∷ x)

-- Two directories named by segments share no file, whatever relative path is taken below them.
pub segment_dirs_disjoint :
    (base s t x y : Text)
    → IsSegment s
    → IsSegment t
    → is_absolute x ≡ false
    → is_absolute y ≡ false
    → join (join base s) x ≡ join (join base t) y
    → (s ≡ t) × (x ≡ y)
segment_dirs_disjoint base s t x y v w rx ry e =
    first_component s t x y (IsSegment-NoSlash v) (IsSegment-NoSlash w) (
      append_cancel (with_sep base) (s ++ b'/' ∷ x) (t ++ b'/' ∷ y)
        (sym (below_segment base x s v rx) ∙ e ∙ below_segment base y t w ry))

abbrev first_char : Text → ℕ
first_char [] = 0
first_char (c ∷ s) = c

-- A directory with a fixed name, and a segment below it.
two_below :
    (base d s x : Text)
    → is_absolute d ≡ false
    → needs_sep d ≡ true
    → IsSegment s
    → is_absolute x ≡ false
    → join (join (join base d) s) x ≡ with_sep base ++ (d ++ b'/' ∷ (s ++ b'/' ∷ x))
two_below base d s x r n v rx =
    below_segment (join base d) x s v rx
    ∙ ap (λ t. t ++ (s ++ b'/' ∷ x)) (with_sep-join base d r n)
    ∙ append_assoc (with_sep base ++ d) (codes "/") (s ++ b'/' ∷ x)
    ∙ append_assoc (with_sep base) d (b'/' ∷ (s ++ b'/' ∷ x))

-- The paths, as texts, that join relative paths to the directories of two sandboxes are unequal unless
-- the ids and the relative paths are the same.
pub sandbox_dirs_disjoint :
    (paths : OadPaths) (i j : SandboxId) (x y : Text)
    → IsSegment i.as_str
    → IsSegment j.as_str
    → is_absolute x ≡ false
    → is_absolute y ≡ false
    → join (sandbox_dir paths i) x ≡ join (sandbox_dir paths j) y
    → (i ≡ j) × (x ≡ y)
unfolding sandbox_dir
sandbox_dirs_disjoint paths i j x y v w rx ry e =
    let same = segment_dirs_disjoint (sandboxes_dir paths) i.as_str j.as_str x y v w rx ry e in
    (λ k. record { as_str = same.0 k }, same.1)

-- Every path of a snapshot lies outside every sandbox's directory, so deleting a sandbox leaves
-- the snapshots alone.
pub snapshot_outside_sandboxes :
    (paths : OadPaths) (i : SandboxId) (name x y : Text)
    → IsSegment i.as_str
    → IsSegment name
    → is_absolute x ≡ false
    → is_absolute y ≡ false
    → join (sandbox_dir paths i) x ≢ join (snapshot_dir paths name) y
unfolding sandbox_dir snapshot_dir needs_sep
snapshot_outside_sandboxes paths i name x y v w rx ry e =
    let heads : first_char (codes "sandboxes") ≡ first_char (codes "cache") = ap first_char (
      append_cancel (with_sep paths.base_dir) _ _ (
        sym (two_below paths.base_dir (codes "sandboxes") i.as_str x refl refl v rx)
        ∙ e
        ∙ two_below (cache_dir paths) (codes "snapshots") name y refl refl w ry
        ∙ ap (λ t. t ++ (codes "snapshots" ++ b'/' ∷ (name ++ b'/' ∷ y)))
            (with_sep-join paths.base_dir (codes "cache") refl refl)
        ∙ append_assoc (with_sep paths.base_dir ++ codes "cache") (codes "/") _
        ∙ append_assoc (with_sep paths.base_dir) (codes "cache") _)) in
    absurd (omega arith)

bundle_shape :
    (paths : OadPaths) (i : SandboxId) (c x : Text)
    → IsSegment i.as_str
    → IsSegment c
    → is_absolute x ≡ false
    → join (bundle_dir paths i c) x
      ≡ with_sep (sandboxes_dir paths)
        ++ (i.as_str ++ b'/' ∷ (codes "bundles" ++ b'/' ∷ (c ++ b'/' ∷ x)))
unfolding bundle_dir sandbox_dir needs_sep
bundle_shape paths i c x v w r =
    let rest = codes "bundles" ++ b'/' ∷ (c ++ b'/' ∷ x) in
    let base = with_sep (sandboxes_dir paths) in
    two_below (sandbox_dir paths i) (codes "bundles") c x refl refl w r
    ∙ ap (λ t. t ++ rest)
        (with_sep-join (sandboxes_dir paths) i.as_str (IsSegment-relative v)
          (IsSegment-needs_sep v))
    ∙ append_assoc (base ++ i.as_str) (codes "/") rest
    ∙ append_assoc base i.as_str (b'/' ∷ rest)

-- The paths, as texts, that join relative paths to the bundle directories of two containers are
-- unequal unless the sandboxes, the containers and the relative paths are the same.
pub bundle_dirs_disjoint :
    (paths : OadPaths) (i j : SandboxId) (c d x y : Text)
    → IsSegment i.as_str
    → IsSegment j.as_str
    → IsSegment c
    → IsSegment d
    → is_absolute x ≡ false
    → is_absolute y ≡ false
    → join (bundle_dir paths i c) x ≡ join (bundle_dir paths j d) y
    → (i ≡ j) × (c ≡ d) × (x ≡ y)
bundle_dirs_disjoint paths i j c d x y vi vj vc vd rx ry e =
    let outer =
      first_component i.as_str j.as_str _ _ (IsSegment-NoSlash vi) (IsSegment-NoSlash vj) (
        append_cancel (with_sep (sandboxes_dir paths)) _ _
          (sym (bundle_shape paths i c x vi vc rx) ∙ e ∙ bundle_shape paths j d y vj vd ry)) in
    let inner =
      first_component c d x y (IsSegment-NoSlash vc) (IsSegment-NoSlash vd)
        (append_cancel (codes "bundles/") _ _ outer.1) in
    (λ k. record { as_str = outer.0 k }, inner.0, inner.1)
