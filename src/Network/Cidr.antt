-- ===== src/Network/Cidr.antt =====
-- Address blocks: `Ipv4Cidr` of crates/oad/src/network.rs. A message of an error is a constructor
-- for each of the source's texts; addresses are their u32.
pub mod Blocks
use omniagent.Prelude.{
  ℕ, ◌+◌, ◌*◌, ◌-◌, ◌%◌, ◌^◌, Bool, true, false, Option, none, some, List, [], ◌∷◌, Text, Result,
  ok, err, ◌>>=◌, ltb, leb, if◌then◌else◌,
}
use omniagent.Network.Parse.{split_once, parse_ipv4, parse_u8}

abbrev pub u32_mod : ℕ
u32_mod = 2 ^ 32

pub data NetworkError : Type 0 where
  read_failed : Text → NetworkError
  invalid_cidr : Text → NetworkError
  invalid_prefix : Text → NetworkError
  cidr_too_small : NetworkError
  index_exceeds_capacity : (index block_count : ℕ) → NetworkError
  no_free_subnet : Text → NetworkError
  invalid_port_range : (start last : ℕ) → NetworkError
  zero_latency : NetworkError
  unsupported_protocol : Text → NetworkError
  addr_parse : NetworkError
  command_failed : (program : Text) (args : List Text) → NetworkError

pub record Ipv4Cidr : Type 0 where
  pub network : ℕ
  pub prefix : ℕ

-- `u32::from(ip) & mask`, where the mask clears the low `32 - prefix` bits.
unfoldable pub masked : ℕ → ℕ → ℕ
masked ip prefix = ip - ip % 2 ^ (32 - prefix)

unfoldable pub or_err {ℓ} : {A : Type ℓ} → NetworkError → Option A → Result NetworkError A
or_err e none = err e
or_err e (some a) = ok a

unfoldable pub parse_ipv4_cidr : Text → Result NetworkError Ipv4Cidr
unfolding or_err masked parse_ipv4 parse_u8 split_once
parse_ipv4_cidr value = do
  parts ← or_err (invalid_cidr value) (split_once b'/' value)
  ip ← or_err (invalid_cidr value) (parse_ipv4 parts.0)
  prefix ← or_err (invalid_prefix value) (parse_u8 parts.1)
  if ltb 32 prefix
      then err (invalid_prefix value)
      else ok (record { network = masked ip prefix; prefix = prefix })

unfoldable pub block_count_30 : Ipv4Cidr → Result NetworkError ℕ
block_count_30 c = if ltb 30 c.prefix then err cidr_too_small else ok (2 ^ (30 - c.prefix))

-- The host's and the sandbox's address of a block, in u32 arithmetic.
unfoldable pub nth_30_pair : ℕ → Ipv4Cidr → Result NetworkError (ℕ × ℕ)
unfolding block_count_30
nth_30_pair index c = do
  block_count ← block_count_30 c
  let base = (c.network + index * 4 % u32_mod) % u32_mod
  if leb block_count index
      then err (index_exceeds_capacity index block_count)
      else ok ((base + 1) % u32_mod, (base + 2) % u32_mod)
