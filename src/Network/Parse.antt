-- ===== src/Network/Parse.antt =====
-- What crates/oad/src/network.rs takes from the standard library to read an address: `split_once`,
-- and `FromStr` of `Ipv4Addr` and `u8`.
use omniagent.Prelude.{
  ℕ, suc, ◌+◌, ◌*◌, ◌-◌, Bool, ◌&&◌, Option, none, some, [], ◌∷◌, Text, length, leb, ltb, ◌==◌,
  if◌then◌else◌,
}

-- What stands before and behind the first `sep`.
unfoldable pub split_once : ℕ → Text → Option (Text × Text)
split_once sep [] = none
split_once sep (c ∷ s) =
    let rest = split_once sep s in
    if c == sep then some ([], s) else elim rest [ none ↦ none | some (a, b) ↦ some (c ∷ a, b) ]

is_digit : ℕ → Bool
is_digit c = leb b'0' c && leb c b'9'

-- The number that decimal digits stand for, behind those read into `acc`.
unfoldable pub parse_digits : ℕ → Text → Option ℕ
unfolding is_digit
parse_digits acc [] = some acc
parse_digits acc (c ∷ s) =
    let rest = parse_digits (acc * 10 + (c - b'0')) s in if is_digit c then rest else none

unfoldable pub at_most : ℕ → Option ℕ → Option ℕ
at_most limit none = none
at_most limit (some n) = if leb n limit then some n else none

-- `u8::from_str`: decimal digits, with at most one "+" before them.
unfoldable pub parse_u8 : Text → Option ℕ
unfolding parse_digits at_most
parse_u8 [] = none
parse_u8 (c ∷ []) = at_most 255 (parse_digits 0 (c ∷ []))
parse_u8 (c ∷ d ∷ s) =
    if c == b'+'
    then at_most 255 (parse_digits 0 (d ∷ s))
    else at_most 255 (parse_digits 0 (c ∷ d ∷ s))

-- A byte of an address: one to three digits, with no zero in front of another digit.
unfoldable pub parse_octet : Text → Option ℕ
unfolding parse_digits at_most
parse_octet [] = none
parse_octet (c ∷ []) = at_most 255 (parse_digits 0 (c ∷ []))
parse_octet (c ∷ d ∷ s) =
    if c == b'0'
    then none
    else if ltb 1 (length s)
    then none
    else at_most 255 (parse_digits 0 (c ∷ d ∷ s))

-- The bytes of an address in front of the rest, `n` of them with a dot behind each.
unfoldable pub parse_octets : ℕ → ℕ → Text → Option ℕ
unfolding parse_octet split_once
parse_octets ℕ.zero acc s = elim (parse_octet s) [ none ↦ none | some b ↦ some (acc * 256 + b) ]
parse_octets (suc n) acc s = elim (split_once b'.' s) [
  | none ↦ none
  | some (a, rest) ↦ elim (parse_octet a) [
    | none ↦ none
    | some b ↦ parse_octets n (acc * 256 + b) rest
  ]
]

-- `Ipv4Addr::from_str`, as the u32 of the address.
unfoldable pub parse_ipv4 : Text → Option ℕ
unfolding parse_octets
parse_ipv4 s = parse_octets 3 0 s
