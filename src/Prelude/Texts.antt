-- ===== src/Prelude/Texts.antt =====
-- Texts: Rust's `String` and `&str` as the list of their code points, with the length in bytes
-- of UTF-8, equality and the order of `str::cmp` (which is the order of the code points).
use Prim.Native.Nat.{ℕ, ◌+◌, compare, Ordering}
use Prim.Native.Char.{code}
use Prim.Native.String.{String}
use mathlib.Core.Path.{◌≡◌, refl, subst}
use mathlib.Core.Logic.{◌↔◌}
use mathlib.Core.Bool.{Bool, true, false}
use mathlib.Core.List.{List, [], ◌∷◌}
use native.Mathlib.Omega.{arith}
use omniagent.Prelude.Tests.{ltb, if◌then◌else◌}

abbrev pub Text : Type 0
Text = List ℕ

-- The code points of a literal.
abbrev pub codes : String → Text
codes String.[] = []
codes (String.◌∷◌ c s) = code c ∷ codes s

-- `char::len_utf8`
unfoldable pub utf8_width : ℕ → ℕ
utf8_width c = if ltb c 0x80 then 1 else if ltb c 0x800 then 2 else if ltb c 0x10000 then 3 else 4

-- `str::len`
unfoldable pub utf8_len : Text → ℕ
unfolding utf8_width
utf8_len [] = 0
utf8_len (c ∷ s) = utf8_width c + utf8_len s

unfoldable pub text_cmp : Text → Text → Ordering
text_cmp [] [] = Ordering.eq
text_cmp [] (b ∷ t) = Ordering.lt
text_cmp (a ∷ s) [] = Ordering.gt
text_cmp (a ∷ s) (b ∷ t) =
    let rest = text_cmp s t in
    elim (compare a b) [
      | Ordering.lt ↦ Ordering.lt
      | Ordering.eq ↦ rest
      | Ordering.gt ↦ Ordering.gt
    ]

unfoldable pub text_eq : Text → Text → Bool
unfolding text_cmp
text_eq s t = elim (text_cmp s t) [ Ordering.eq ↦ true | _ ↦ false ]

cmp_sound : (s t : Text) → text_cmp s t ≡ Ordering.eq → s ≡ t
unfolding text_cmp
cmp_sound [] [] h = refl
cmp_sound [] (b ∷ t) h = ground arith
cmp_sound (a ∷ s) [] h = ground arith
cmp_sound (a ∷ s) (b ∷ t) h = ground (arith, cmp_sound s t)

cmp_refl : (s : Text) → text_cmp s s ≡ Ordering.eq
unfolding text_cmp
cmp_refl [] = refl
cmp_refl (a ∷ s) = ground (arith, cmp_refl s)

pub text_cmp_iff : (s t : Text) → (text_cmp s t ≡ Ordering.eq) ↔ (s ≡ t)
text_cmp_iff s t = (cmp_sound s t, λ e. subst (λ u. text_cmp s u ≡ Ordering.eq) e (cmp_refl s))

pub text_eq_iff : (s t : Text) → (text_eq s t ≡ true) ↔ (s ≡ t)
unfolding text_eq
text_eq_iff s t = ground (arith, text_cmp_iff s t)
