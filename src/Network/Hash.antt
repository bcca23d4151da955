-- ===== src/Network/Hash.antt =====
-- Names from hashes: `stable_hash` (FNV-1a over the bytes of the text) and `salted_token` of
-- crates/oad/src/network.rs.
pub mod Width
use Prim.Native.Nat.{bit_xor}
use omniagent.Prelude.{
  ℕ, zero, suc, ◌+◌, ◌*◌, ◌-◌, ◌/◌, ◌%◌, ◌^◌, Bool, true, false, List, [], ◌∷◌, ◌++◌, Text, codes,
  length, leb, ltb, ◌==◌, if◌then◌else◌,
}
use omniagent.Core.Ids.{SandboxId}

-- The bytes of a code point in UTF-8.
utf8_char : ℕ → List ℕ
utf8_char c =
    if ltb c 0x80
    then c ∷ []
    else if ltb c 0x800
    then (0xc0 + c / 64) ∷ (0x80 + c % 64) ∷ []
    else if ltb c 0x10000
    then (0xe0 + c / 4096) ∷ (0x80 + c / 64 % 64) ∷ (0x80 + c % 64) ∷ []
    else (0xf0 + c / 262144) ∷ (0x80 + c / 4096 % 64) ∷ (0x80 + c / 64 % 64) ∷ (0x80 + c % 64) ∷ []

unfoldable pub as_bytes : Text → List ℕ
unfolding utf8_char
as_bytes [] = []
as_bytes (c ∷ s) = utf8_char c ++ as_bytes s

abbrev pub fnv_offset : ℕ
fnv_offset = 0xcbf29ce484222325

abbrev pub fnv_prime : ℕ
fnv_prime = 0x100000001b3

unfoldable pub hash_bytes : ℕ → List ℕ → ℕ
hash_bytes hash [] = hash
hash_bytes hash (b ∷ bytes) = hash_bytes (bit_xor hash b * fnv_prime % 2 ^ 64) bytes

unfoldable pub stable_hash : Text → ℕ
unfolding hash_bytes as_bytes
stable_hash value = hash_bytes fnv_offset (as_bytes value)

-- The digit of a number below `base`, in lower case.
digit : ℕ → ℕ
digit d = if ltb d 10 then b'0' + d else b'a' + (d - 10)

-- The digits of a number in front of those already written; the fuel bounds their number.
digits : ℕ → ℕ → ℕ → Text → Text
unfolding digit
digits zero base n out = out
digits (suc fuel) base n out =
    let rest = digits fuel base (n / base) (digit (n % base) ∷ out) in
    if ltb n base then digit n ∷ out else rest

-- A u32 has at most ten decimal digits, a u64 at most sixteen hexadecimal ones.
unfoldable pub decimal : ℕ → Text
unfolding digits
decimal n = digits 20 10 n []

unfoldable pub hexadecimal : ℕ → Text
unfolding digits
hexadecimal n = digits 16 16 n []

unfoldable pub pad_zeros : ℕ → Text → Text
pad_zeros zero s = s
pad_zeros (suc n) s = b'0' ∷ pad_zeros n s

-- `{:010x}`
unfoldable pub hex_10 : ℕ → Text
unfolding hexadecimal pad_zeros
hex_10 n = let s = hexadecimal n in pad_zeros (10 - length s) s

-- `value` in `salted_token`: later attempts hash a salted id.
unfoldable pub token_value : SandboxId → ℕ → ℕ
token_value id attempt =
    if attempt == 0
    then stable_hash id.as_str
    else stable_hash (id.as_str ++ codes "#" ++ decimal attempt)

-- `& 0x00ff_ffff_ffff` keeps 40 bits.
unfoldable pub salted_token : SandboxId → ℕ → Text
salted_token id attempt = hex_10 (token_value id attempt % 2 ^ 40)
