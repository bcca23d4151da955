-- ===== src/Oci/Digest.antt =====
-- The names of the cache files of blobs, crates/oad-oci/src/lib.rs: `blob_filename`. That every byte is
-- a hexadecimal digit is asked of the code points: one above 127 has no byte that is.
use omniagent.Prelude.{
  ℕ, ◌≡◌, ◌≢◌, refl, sym, ap, ◌∙◌, inl, inr, subst, Bool, true, not, ◌&&◌, ◌||◌, Bool-cases, Option,
  none, some, [], ◌∷◌, ◌++◌, arith, Text, codes, Result, ok, err, ok_injective, length,
  length-append, leb, ◌==◌, ==_iff, all, if◌then◌else◌, utf8_len,
}
use omniagent.Core.Paths.Join.{NoSlash, append_cancel}
use omniagent.Oci.Extract.{strip_text}

pub data DigestError : Type 0 where
  unsupported_digest : Text → DigestError

-- `u8::is_ascii_hexdigit`
abbrev pub is_ascii_hexdigit : ℕ → Bool
is_ascii_hexdigit c =
    (leb b'0' c && leb c b'9') || (leb b'A' c && leb c b'F') || (leb b'a' c && leb c b'f')

abbrev pub name_of : Text → Option Text → Result DigestError Text
name_of digest none = err (unsupported_digest digest)
name_of digest (some hex) =
    if not (utf8_len hex == 64) || not (all is_ascii_hexdigit hex)
    then err (unsupported_digest digest)
    else ok (codes "sha256-" ++ (hex ++ codes ".blob"))

unfoldable pub blob_filename : Text → Result DigestError Text
blob_filename digest = name_of digest (strip_text (codes "sha256:") digest)

strip_text_lem : (start text rest : Text) → strip_text start text ≡ some rest → text ≡ start ++ rest
strip_text_lem [] text rest h = cc (h)
strip_text_lem (c ∷ start) [] rest h = absurd (cc (h))
strip_text_lem (c ∷ start) (first ∷ text) rest h = elim (Bool-cases (c == first)) [
  | inl same ↦ cc ((==_iff c first).0 same, strip_text_lem start text rest (rw (same) at h))
  | inr apart ↦ let bad = rw (apart) at h in absurd (cc (bad))
]

append_cancel_right : (xs ys s : Text) → xs ++ s ≡ ys ++ s → xs ≡ ys
append_cancel_right [] [] s h = refl
append_cancel_right [] (y ∷ ys) s h = absurd (omega (arith, ap length h, length-append ys s))
append_cancel_right (x ∷ xs) [] s h = absurd (omega (arith, ap length h, length-append xs s))
append_cancel_right (x ∷ xs) (y ∷ ys) s h =
    let rest = append_cancel_right xs ys s (cc (h)) in cc (h, rest)

-- What a name that is given says of its digest.
record IsNamed (digest name : Text) : Type 0 where
  hex : Text
  whole : digest ≡ codes "sha256:" ++ hex
  made : name ≡ codes "sha256-" ++ (hex ++ codes ".blob")
  digits : all is_ascii_hexdigit hex ≡ true

name_of-IsNamed :
    (digest name : Text) (found : Option Text)
    → strip_text (codes "sha256:") digest ≡ found
    → name_of digest found ≡ ok name
    → IsNamed digest name
name_of-IsNamed digest name none e h = absurd (cc (h))
name_of-IsNamed digest name (some hex) e h =
    elim (Bool-cases (not (utf8_len hex == 64) || not (all is_ascii_hexdigit hex))) [
      | inl refused ↦ let bad = rw (refused) at h in absurd (cc (bad))
      | inr taken ↦ record {
        hex = hex;
        whole = strip_text_lem (codes "sha256:") digest hex e;
        made = sym (ok_injective (rw (taken) at h));
        digits = ground (arith, taken);
      }
    ]

digits-NoSlash : (hex : Text) → all is_ascii_hexdigit hex ≡ true → NoSlash hex
digits-NoSlash [] h = tt
digits-NoSlash (c ∷ hex) h = elim (Bool-cases (all is_ascii_hexdigit hex)) [
  | inl rest ↦ (λ e. slash c e (ground (arith, h)), digits-NoSlash hex rest)
  | inr apart ↦ absurd (ground (arith, h, apart))
]
  where
    slash : (d : ℕ) → d ≡ b'/' → is_ascii_hexdigit d ≡ true → ⊥
    slash d e t = ground arith

NoSlash-append : (s t : Text) → NoSlash s → NoSlash t → NoSlash (s ++ t)
NoSlash-append [] t h k = k
NoSlash-append (c ∷ s) t h k = (h.0, NoSlash-append s t h.1 k)

-- The name that blob_filename gives for a digest has no slash and is not "." or "..", and no other
-- digest is given that name.
pub blob_filename_lem :
    (digest name : Text)
    → blob_filename digest ≡ ok name
    → NoSlash name
      × (name ≢ codes ".")
      × (name ≢ codes "..")
      × ((other : Text) → blob_filename other ≡ ok name → other ≡ digest)
unfolding blob_filename
blob_filename_lem digest name h = (
  subst NoSlash (sym n.made) (
      NoSlash-append (codes "sha256-") (n.hex ++ codes ".blob") (omega arith)
        (NoSlash-append n.hex (codes ".blob") (digits-NoSlash n.hex n.digits) (omega arith))),
  λ dot. cc (n.made, dot),
  λ dots. cc (n.made, dots),
  λ other k.
      let m = name_of-IsNamed other name (strip_text (codes "sha256:") other) refl k in
      m.whole
      ∙ ap (λ x. codes "sha256:" ++ x)
          (append_cancel_right m.hex n.hex (codes ".blob") (
            append_cancel (codes "sha256-") (m.hex ++ codes ".blob") (n.hex ++ codes ".blob")
              (sym m.made ∙ n.made)))
      ∙ sym n.whole,
)
  where
    n : IsNamed digest name
    n = name_of-IsNamed digest name (strip_text (codes "sha256:") digest) refl h
