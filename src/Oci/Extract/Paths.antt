-- ===== src/Oci/Extract/Paths.antt =====
-- Paths as lists of names: what stands above a path, and what lies inside a directory.
use omniagent.Prelude.{
  ◌≤◌, ◌≡◌, ◌≢◌, refl, sym, ap, ◌∙◌, Bool-cases, Option-cases, none, some, ◌⊎◌, inl, inr, [], ◌∷◌,
  ◌++◌, append_assoc, append-nil, arith, Text, text_eq, text_eq_iff, length, length-append,
}
use omniagent.Oci.Extract.{FsPath, parent, strip_prefix}

-- The path itself, or what stands above it.
abbrev pub Prefix : FsPath → FsPath → Type 0
Prefix [] path = Unit
Prefix (name ∷ above) [] = ⊥
Prefix (name ∷ above) (first ∷ path) = (name ≡ first) × Prefix above path

abbrev pub Under : FsPath → FsPath → Type 0
Under path q = (rest : FsPath) × (q ≡ path ++ rest)

-- Strictly below a directory.
abbrev pub Inside : FsPath → FsPath → Type 0
Inside root q = (name : Text) × (rest : FsPath) × (q ≡ root ++ name ∷ rest)

pub Prefix-refl : (path : FsPath) → Prefix path path
Prefix-refl [] = tt
Prefix-refl (name ∷ path) = (refl, Prefix-refl path)

pub Prefix-length : (q path : FsPath) → Prefix q path → length q ≤ length path
Prefix-length [] path h = omega arith
Prefix-length (name ∷ q) [] h = elim h [ ]
Prefix-length (name ∷ q) (first ∷ path) h = omega (arith, Prefix-length q path h.1)

pub Prefix-append : (q path rest : FsPath) → Prefix q path → Prefix q (path ++ rest)
Prefix-append [] path rest h = tt
Prefix-append (name ∷ q) [] rest h = elim h [ ]
Prefix-append (name ∷ q) (first ∷ path) rest h = (h.0, Prefix-append q path rest h.1)

pub Prefix_split : (q root rest : FsPath) → Prefix q (root ++ rest) → Prefix q root ⊎ Inside root q
Prefix_split [] root rest h = inl tt
Prefix_split (name ∷ q) [] rest h = inr (name, q, refl)
Prefix_split (name ∷ q) (first ∷ root) rest h = elim (Prefix_split q root rest h.1) [
  | inl above ↦ inl (h.0, above)
  | inr (n, r, e) ↦ inr (n, r, cc (h.0, e))
]

pub Prefix_last :
    (q above : FsPath) (name : Text)
    → Prefix q (above ++ name ∷ [])
    → Prefix q above ⊎ (q ≡ above ++ name ∷ [])
Prefix_last [] above name h = inl tt
Prefix_last (n ∷ []) [] name h = inr (cc (h.0))
Prefix_last (n ∷ m ∷ q) [] name h = elim h.1 [ ]
Prefix_last (n ∷ q) (first ∷ above) name h = elim (Prefix_last q above name h.1) [
  | inl l ↦ inl (h.0, l)
  | inr e ↦ inr (cc (h.0, e))
]

pub Prefix_outside : (q root : FsPath) → Prefix q root → Inside root q → ⊥
Prefix_outside q root h (n, r, e) =
    absurd (omega (arith, Prefix-length q root h, ap length e, length-append root (n ∷ r)))

-- What lies at or below a path that is inside a directory is inside it.
pub Inside-Under :
    (root rest q : FsPath) (name : Text) → Under ((root ++ rest) ++ name ∷ []) q → Inside root q
Inside-Under root [] q name (r, e) = (
  name,
  r,
  e ∙ append_assoc (root ++ []) (name ∷ []) r ∙ ap (λ l. l ++ name ∷ r) (append-nil root),
)
Inside-Under root (first ∷ rest) q name (r, e) = (
  first,
  rest ++ name ∷ r,
  e
      ∙ append_assoc (root ++ first ∷ rest) (name ∷ []) r
      ∙ append_assoc root (first ∷ rest) (name ∷ r),
)

-- A path above a place is not at or below it.
pub Prefix_not-Under :
    (q above : FsPath) (name : Text) → Prefix q above → Under (above ++ name ∷ []) q → ⊥
Prefix_not-Under q above name h (r, e) = absurd (
    omega (
      arith,
      Prefix-length q above h,
      ap length e,
      length-append (above ++ name ∷ []) r,
      length-append above (name ∷ []),
    ))

pub parent_lem :
    (path above : FsPath) → parent path ≡ some above → (name : Text) × (path ≡ above ++ name ∷ [])
parent_lem [] above h = absurd (cc (h))
parent_lem (name ∷ []) above h = (name, cc (h))
parent_lem (name ∷ next ∷ path) above h = elim (Option-cases (parent (next ∷ path))) [
  | inl nothing ↦ let bad = rw (nothing) at h in absurd (cc (bad))
  | inr (rest, found) ↦
      let e = rw (found) at h in let r = parent_lem (next ∷ path) rest found in (r.0, cc (e, r.1))
]

parent_some : (name : Text) (rest : FsPath) → parent (name ∷ rest) ≢ none
parent_some name [] h = cc (h)
parent_some name (next ∷ rest) h = elim (Option-cases (parent (next ∷ rest))) [
  | inl nothing ↦ parent_some next rest nothing
  | inr (above, found) ↦ let bad = rw (found) at h in cc (bad)
]

pub parent_nonempty : (path : FsPath) → path ≢ [] → parent path ≢ none
parent_nonempty [] h e = h refl
parent_nonempty (name ∷ rest) h e = parent_some name rest e

pub strip_prefix_lem :
    (base path rest : FsPath) → strip_prefix base path ≡ some rest → path ≡ base ++ rest
strip_prefix_lem [] path rest h = cc (h)
strip_prefix_lem (name ∷ base) [] rest h = absurd (cc (h))
strip_prefix_lem (name ∷ base) (first ∷ path) rest h = elim (Bool-cases (text_eq name first)) [
  | inl same ↦
      cc ((text_eq_iff name first).0 same, strip_prefix_lem base path rest (rw (same) at h))
  | inr apart ↦ let bad = rw (apart) at h in absurd (cc (bad))
]

pub parent_last : (above : FsPath) (name : Text) → parent (above ++ name ∷ []) ≡ some above
parent_last [] name = refl
parent_last (first ∷ []) name = refl
parent_last (first ∷ next ∷ above) name = rw (parent_last (next ∷ above) name) refl

pub strip_prefix-append : (base rest : FsPath) → strip_prefix base (base ++ rest) ≡ some rest
strip_prefix-append [] rest = refl
strip_prefix-append (name ∷ base) rest =
    rw ((text_eq_iff name name).1 refl) (strip_prefix-append base rest)

-- Either the directory itself or a name in a place inside it.
pub last_name :
    (root rest : FsPath)
    → (rest ≡ [])
      ⊎ ((above : FsPath) × (name : Text) × (root ++ rest ≡ (root ++ above) ++ name ∷ []))
last_name root [] = inl refl
last_name root (name ∷ []) = inr ([], name, ap (λ l. l ++ name ∷ []) (sym (append-nil root)))
last_name root (first ∷ next ∷ rest) = elim (last_name (root ++ first ∷ []) (next ∷ rest)) [
  | inl bad ↦ absurd (cc (bad))
  | inr (above, name, e) ↦ inr (
    first ∷ above,
    name,
    sym (append_assoc root (first ∷ []) (next ∷ rest))
        ∙ e
        ∙ ap (λ l. l ++ name ∷ []) (append_assoc root (first ∷ []) above),
  )
]
