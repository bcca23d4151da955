-- ===== src/Core/Ids.antt =====
-- Identifiers that become path segments: crates/oad-core/src/lib.rs, `validate_id_segment` and
-- the checks built on it. The loop over the characters is a recursion on the text.
pub mod Laws
use omniagent.Prelude.{
  ℕ, ◌<◌, Bool, true, ◌&&◌, ◌||◌, List, [], ◌∷◌, Text, codes, utf8_len, text_eq, Result, ok, err,
  ◌>>=◌, ◌>>◌, ltb, leb, ◌==◌, if◌then◌else◌,
}

abbrev pub pause_container : Text
pause_container = codes "pause"

abbrev pub max_id_segment_len : ℕ
max_id_segment_len = 128

pub data ValidationError : Type 0 where
  empty : ValidationError
  too_long : (max : ℕ) → ValidationError
  reserved_path_segment : Text → ValidationError
  unsupported_character : ℕ → ValidationError
  reserved_container_name : Text → ValidationError

-- `char::is_ascii_alphanumeric`
unfoldable pub is_ascii_alphanumeric : ℕ → Bool
is_ascii_alphanumeric c =
    (leb b'0' c && leb c b'9') || (leb b'A' c && leb c b'Z') || (leb b'a' c && leb c b'z')

unfoldable pub is_id_char : ℕ → Bool
unfolding is_ascii_alphanumeric
is_id_char c = is_ascii_alphanumeric c || c == b'-' || c == b'_' || c == b'.'

unfoldable pub validate_chars : Text → Result ValidationError (Unit {0})
unfolding is_id_char
validate_chars [] = ok tt
validate_chars (c ∷ s) =
    let rest = validate_chars s in if is_id_char c then rest else err (unsupported_character c)

unfoldable pub validate_id_segment : Text → Result ValidationError (Unit {0})
unfolding validate_chars text_eq utf8_len
validate_id_segment value =
    if text_eq value []
    then err empty
    else if text_eq value (codes ".") || text_eq value (codes "..")
    then err (reserved_path_segment value)
    else if ltb max_id_segment_len (utf8_len value)
    then err (too_long max_id_segment_len)
    else validate_chars value

unfoldable pub validate_container_name : Text → Result ValidationError (Unit {0})
unfolding validate_id_segment
validate_container_name value = do
  validate_id_segment value
  if text_eq value pause_container then err (reserved_container_name value) else ok tt

unfoldable pub validate_snapshot_name : Text → Result ValidationError (Unit {0})
unfolding validate_id_segment
validate_snapshot_name value = validate_id_segment value

-- A newtype over its text, whose only ways in are `new` and `generate`.
pub record SandboxId : Type 0 where
  pub as_str : Text

unfoldable pub new : Text → Result ValidationError SandboxId
unfolding validate_id_segment
new value = do validate_id_segment value; ok (record { as_str = value })
