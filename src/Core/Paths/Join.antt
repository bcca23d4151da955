-- ===== src/Core/Paths/Join.antt =====
-- `Path::join` on Unix, as far as the texts go, and what is known of a text behind a separator.
use omniagent.Prelude.{
  ◌≡◌, refl, ◌≢◌, Bool, true, false, not, [], ◌∷◌, ◌++◌, arith, Text, codes, ◌==◌, if◌then◌else◌,
}

abbrev pub PathBuf : Type 0
PathBuf = Text

abbrev pub is_absolute : Text → Bool
is_absolute [] = false
is_absolute (c ∷ s) = c == b'/'

-- The text has a last character, and that is no separator.
unfoldable pub needs_sep : PathBuf → Bool
needs_sep [] = false
needs_sep (c ∷ []) = not (c == b'/')
needs_sep (c ∷ d ∷ s) = needs_sep (d ∷ s)

-- The prefix that `join` puts before a relative path.
unfoldable pub with_sep : PathBuf → PathBuf
unfolding needs_sep
with_sep base = if needs_sep base then base ++ codes "/" else base

unfoldable pub join : PathBuf → Text → PathBuf
unfolding with_sep
join base path = if is_absolute path then path else with_sep base ++ path

needs_sep-append : (a s : Text) → needs_sep s ≡ true → needs_sep (a ++ s) ≡ true
unfolding needs_sep
needs_sep-append [] s h = h
needs_sep-append (c ∷ []) [] h = cc
needs_sep-append (c ∷ []) (d ∷ s) h = h
needs_sep-append (c ∷ d ∷ a) s h = needs_sep-append (d ∷ a) s h

pub join-relative : (base s : Text) → is_absolute s ≡ false → join base s ≡ with_sep base ++ s
unfolding join
join-relative base s h = rw h

-- A second relative component goes behind one separator.
pub with_sep-join :
    (base s : Text)
    → is_absolute s ≡ false
    → needs_sep s ≡ true
    → with_sep (join base s) ≡ with_sep base ++ s ++ codes "/"
unfolding join
with_sep-join base s h k = rw (h, needs_sep-append (with_sep base) s k)

pub append_cancel : (a s t : Text) → a ++ s ≡ a ++ t → s ≡ t
append_cancel [] s t h = h
append_cancel (c ∷ a) s t h = append_cancel a s t (cc)

abbrev pub NoSlash : Text → Type 0
NoSlash [] = Unit
NoSlash (c ∷ s) = (c ≢ b'/') × NoSlash s

-- The text before the first separator is determined.
pub first_component :
    (s t x y : Text) → NoSlash s → NoSlash t → s ++ b'/' ∷ x ≡ t ++ b'/' ∷ y → (s ≡ t) × (x ≡ y)
first_component [] [] x y h k e = (refl, cc)
first_component [] (d ∷ t) x y h k e = absurd (k.0 (cc))
first_component (c ∷ s) [] x y h k e = absurd (h.0 (cc))
first_component (c ∷ s) (d ∷ t) x y h k e =
    let rest = first_component s t x y h.1 k.1 (cc) in (cc (rest.0), rest.1)

pub NoSlash-relative : (s : Text) → NoSlash s → is_absolute s ≡ false
NoSlash-relative [] h = refl
NoSlash-relative (c ∷ s) h = ground (arith, h.0)

pub NoSlash-needs_sep : (s : Text) → NoSlash s → s ≢ [] → needs_sep s ≡ true
unfolding needs_sep
NoSlash-needs_sep [] h k = absurd (k refl)
NoSlash-needs_sep (c ∷ []) h k = ground (arith, h.0)
NoSlash-needs_sep (c ∷ d ∷ s) h k = NoSlash-needs_sep (d ∷ s) h.1 (λ e. cc)
