-- ===== src/Network/Hash/Width.antt =====
-- How long the names from hashes are, crates/oad/src/network.rs.
use native.Mathlib.Nat.{pow-suc}
use omniagent.Prelude.{
  ℕ, zero, suc, ◌+◌, ◌-◌, ◌/◌, ◌%◌, ◌^◌, ◌≤◌, ◌<◌, ◌≡◌, true, [], ◌∷◌, arith, Text, length, ltb,
}
use omniagent.Core.Ids.{SandboxId}
use omniagent.Network.Hash.{digit, digits, pad_zeros, hex_10, token_value, salted_token}

-- A number below 16 ^ k has at most `k` digits.
digits-length :
    (fuel k n : ℕ) (out : Text)
    → n < 16 ^ suc k
    → suc k ≤ fuel
    → length (digits fuel 16 n out) ≤ length out + suc k
unfolding digits
digits-length zero k n out h f = absurd (omega arith)
digits-length (suc fuel) zero n out h f =
    let small : ltb n 16 ≡ true = ground arith in rw small (omega arith)
digits-length (suc fuel) (suc k) n out h f =
    let less : n / 16 < 16 ^ suc k = omega (arith, pow-suc 16 (suc k)) in
    ground (arith, digits-length fuel k (n / 16) (digit (n % 16) ∷ out) less (omega arith))

length-pad_zeros : (n : ℕ) (s : Text) → length (pad_zeros n s) ≡ n + length s
unfolding pad_zeros
length-pad_zeros zero s = omega arith
length-pad_zeros (suc n) s = omega (arith, length-pad_zeros n s)

length-hex_10 : (n : ℕ) → n < 2 ^ 40 → length (hex_10 n) ≡ 10
unfolding hex_10
length-hex_10 n h = omega (
  arith,
  length-pad_zeros (10 - length (digits 16 16 n [])) (digits 16 16 n []),
  digits-length 16 9 n [] h (omega arith),
)

-- A token has ten characters, whatever the id and the attempt.
pub length-salted_token : (id : SandboxId) (attempt : ℕ) → length (salted_token id attempt) ≡ 10
unfolding salted_token
length-salted_token id attempt = length-hex_10 (token_value id attempt % 2 ^ 40) (omega arith)
