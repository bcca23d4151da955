-- ===== src/Core/Ids/Laws.antt =====
-- What the checks of crates/oad-core/src/lib.rs accept, and what they report.
use omniagent.Prelude.{
  ap, bind_ok, ℕ, ◌≤◌, ◌<◌, ◌≡◌, refl, ◌≢◌, ◌↔◌, ◌⊎◌, inl, inr, true, false, [], ◌∷◌, ◌++◌, arith,
  Text, codes, utf8_len, text_eq_iff, ok, err, length, Bool-cases,
}
use omniagent.Core.Ids.{
  unsupported_character, is_id_char, validate_chars, validate_id_segment, validate_container_name,
  SandboxId, new,
}

-- The characters that the documentation names.
abbrev pub IsIdChar : ℕ → Type 0
IsIdChar c =
    ((b'0' ≤ c) × (c ≤ b'9'))
    ⊎ ((b'A' ≤ c) × (c ≤ b'Z'))
    ⊎ ((b'a' ≤ c) × (c ≤ b'z'))
    ⊎ (c ≡ b'-')
    ⊎ (c ≡ b'_')
    ⊎ (c ≡ b'.')

abbrev pub AllIdChars : Text → Type 0
AllIdChars [] = Unit
AllIdChars (c ∷ s) = IsIdChar c × AllIdChars s

-- A text that is one ordinary component of a path.
pub record IsSegment (s : Text) : Type 0 where
  pub nonempty : s ≢ []
  pub not_dot : s ≢ codes "."
  pub not_dot_dot : s ≢ codes ".."
  pub chars : AllIdChars s
  pub short : length s ≤ 128

is_id_char_sound : (c : ℕ) → is_id_char c ≡ true → IsIdChar c
unfolding is_id_char
is_id_char_sound c h = grind arith

is_id_char_complete : (c : ℕ) → IsIdChar c → is_id_char c ≡ true
unfolding is_id_char
is_id_char_complete c h = ground arith

validate_chars_sound : (s : Text) → validate_chars s ≡ ok tt → AllIdChars s
unfolding validate_chars
validate_chars_sound [] h = tt
validate_chars_sound (c ∷ s) h = elim (Bool-cases (is_id_char c)) [
  | inl e ↦ (is_id_char_sound c e, validate_chars_sound s (rw e at h))
  | inr e ↦ cc (h, e)
]

validate_chars_complete : (s : Text) → AllIdChars s → validate_chars s ≡ ok tt
unfolding validate_chars
validate_chars_complete [] h = refl
validate_chars_complete (c ∷ s) h =
    ground (arith, is_id_char_complete c h.0, validate_chars_complete s h.1)

IsIdChar-lt : (c : ℕ) → IsIdChar c → c < 128
IsIdChar-lt c h = omega arith

-- Accepted characters are one byte wide, so the length in bytes is the number of characters.
utf8_len-eq-length : (s : Text) → AllIdChars s → utf8_len s ≡ length s
unfolding utf8_len
utf8_len-eq-length [] h = refl
utf8_len-eq-length (c ∷ s) h = ground (arith, IsIdChar-lt c h.0, utf8_len-eq-length s h.1)

-- `validate_id_segment` accepts a text exactly when it is one ordinary path component: not empty,
-- not "." or "..", at most 128 characters, each an ASCII letter or digit, "-", "_" or ".".
pub validate_id_segment_iff : (s : Text) → (validate_id_segment s ≡ ok tt) ↔ IsSegment s
unfolding validate_id_segment
validate_id_segment_iff s = (accepted, rejected)
  where
    accepted : validate_id_segment s ≡ ok tt → IsSegment s
    accepted h =
        let chars : AllIdChars s = validate_chars_sound s (
          ground
            (arith, text_eq_iff s [], text_eq_iff s (codes "."), text_eq_iff s (codes ".."))) in
        record {
          nonempty = ground (arith, text_eq_iff s []);
          not_dot = ground (arith, text_eq_iff s (codes "."));
          not_dot_dot = ground (arith, text_eq_iff s (codes ".."));
          chars = chars;
          short = ground (arith, utf8_len-eq-length s chars);
        }

    rejected : IsSegment s → validate_id_segment s ≡ ok tt
    rejected h = ground (
      arith,
      text_eq_iff s [],
      text_eq_iff s (codes "."),
      text_eq_iff s (codes ".."),
      utf8_len-eq-length s h.chars,
      validate_chars_complete s h.chars,
    )

-- `validate_container_name` accepts exactly the path components other than "pause".
pub validate_container_name_iff :
    (s : Text) → (validate_container_name s ≡ ok tt) ↔ (IsSegment s × (s ≢ codes "pause"))
unfolding validate_container_name
validate_container_name_iff s =
    ground (arith, validate_id_segment_iff s, text_eq_iff s (codes "pause"))

validate_chars-err :
    (s : Text) (c : ℕ)
    → validate_chars s ≡ err (unsupported_character c)
    → (p : Text) × (q : Text) × (s ≡ p ++ c ∷ q) × AllIdChars p × (is_id_char c ≡ false)
unfolding validate_chars
validate_chars-err [] c h = cc
validate_chars-err (d ∷ s) c h = elim (Bool-cases (is_id_char d)) [
  | inl good ↦
      let (p, q, split, fine, bad) = validate_chars-err s c (rw good at h) in
      (d ∷ p, q, ap (λ t. d ∷ t) split, (is_id_char_sound d good, fine), bad)
  | inr bad ↦ let same : d ≡ c = ground arith in ([], s, cc, tt, cc)
]

-- A character that `validate_id_segment` reports is the first of the text that is not allowed.
pub validate_id_segment-unsupported :
    (s : Text) (c : ℕ)
    → validate_id_segment s ≡ err (unsupported_character c)
    → (p : Text) × (q : Text) × (s ≡ p ++ c ∷ q) × AllIdChars p × ¬ IsIdChar c
unfolding validate_id_segment
validate_id_segment-unsupported s c h =
    let (p, q, split, fine, bad) = validate_chars-err s c (ground arith) in
    (p, q, split, fine, λ good. cc (bad, is_id_char_complete c good))

-- An id that `SandboxId::new` returns carries the text it was made from, which is a path component.
pub new-IsSegment :
    (s : Text) (id : SandboxId) → new s ≡ ok id → (id.as_str ≡ s) × IsSegment id.as_str
unfolding new
new-IsSegment s id h =
    let (u, valid, made) = bind_ok (validate_id_segment s) _ h in
    let same : id.as_str ≡ s = ground arith in
    (same, rw same ((validate_id_segment_iff s).0 (ground arith)))
