-- ===== src/Network/Alloc.antt =====
-- Giving a sandbox its subnet and its names: `NetworkManager::allocate_state` of
-- crates/oad/src/network.rs. What reading the directory of the sandboxes gives is an argument.
pub mod Search
pub mod Apart
pub mod Distinct
use omniagent.Prelude.{
  ℕ, zero, suc, ◌+◌, ◌%◌, ◌^◌, Bool, true, false, ◌||◌, Option, none, some, List, [], ◌∷◌, ◌++◌,
  map, Text, codes, Result, ok, err, ◌>>=◌, text_eq, ◌==◌, if◌then◌else◌, any,
}
use mathlib.Core.Option
use omniagent.Core.Ids.{SandboxId}
use omniagent.Core.Spec.{SandboxNetworkSpec}
use omniagent.Core.Paths.Join.{PathBuf, join}
use omniagent.Network.Cidr.{
  NetworkError, no_free_subnet, read_failed, Ipv4Cidr, u32_mod, or_err, parse_ipv4_cidr,
  block_count_30, nth_30_pair,
}
use omniagent.Network.Hash.{stable_hash, salted_token}

pub record SandboxNetworkState : Type 0 where
  pub sandbox_id : SandboxId
  pub token : Text
  pub netns_name : Text
  pub host_veth : Text
  pub sandbox_ip : ℕ
  pub host_ip : ℕ
  pub prefix_len : ℕ
  pub subnet_index : ℕ
  pub spec : SandboxNetworkSpec

abbrev pub contains_index : List ℕ → ℕ → Bool
contains_index used index = any (λ u. u == index) used

abbrev pub contains_token : List Text → Text → Bool
contains_token used token = any (λ u. text_eq u token) used

-- `(0..block_count).map(|offset| (start + offset) % block_count).find(..)`, from an offset on, with
-- `rounds` offsets left.
unfoldable pub find_index : ℕ → ℕ → List ℕ → ℕ → ℕ → Option ℕ
find_index start block_count used zero offset = none
find_index start block_count used (suc rounds) offset =
    let rest = find_index start block_count used rounds (suc offset) in
    let index = (start + offset) % u32_mod % block_count in
    if contains_index used index then rest else some index

-- The same over the attempts at a token.
unfoldable pub find_token : SandboxId → List Text → ℕ → ℕ → Option Text
find_token id used zero attempt = none
find_token id used (suc rounds) attempt =
    let rest = find_token id used rounds (suc attempt) in
    let token = salted_token id attempt in if contains_token used token then rest else some token

unfoldable pub u32_max : ℕ
u32_max = 4294967295

abbrev pub host_veth_prefix : Text
host_veth_prefix = codes "oadh"

unfoldable pub peer_veth : Text → Text
peer_veth token = codes "oadp" ++ token

unfoldable pub netns_path : SandboxNetworkState → PathBuf
netns_path s = join (codes "/run/netns") s.netns_name

-- The state for a chosen index, addresses and token.
unfoldable pub made_state : SandboxId → SandboxNetworkSpec → ℕ → ℕ × ℕ → Text → SandboxNetworkState
made_state id spec index ips token = record {
  sandbox_id = id;
  token = token;
  netns_name = codes "oad-" ++ token;
  host_veth = host_veth_prefix ++ token;
  sandbox_ip = ips.1;
  host_ip = ips.0;
  prefix_len = 30;
  subnet_index = index;
  spec = spec;
}

-- What an entry of the directory gives: a state, no network.json, or an error of the entry, of the
-- file or of its parse.
pub data StateEntry : Type 0 where
  stands : SandboxNetworkState → StateEntry
  absent : StateEntry
  broken : Text → StateEntry

unfoldable pub read_entries : List StateEntry → Result NetworkError (List SandboxNetworkState)
read_entries [] = ok []
read_entries (broken e ∷ entries) = err (read_failed e)
read_entries (absent ∷ entries) = read_entries entries
read_entries (stands state ∷ entries) = do states ← read_entries entries; ok (state ∷ states)

-- A directory that cannot be opened gives no states.
unfoldable pub read_states :
    Option (List StateEntry) → Result NetworkError (List SandboxNetworkState)
unfolding read_entries
read_states none = ok []
read_states (some entries) = read_entries entries

-- The part behind the reading of the states. `none` stands for the panic of `expect` when every
-- token is taken.
unfoldable pub choose_state :
    Text
    → Ipv4Cidr
    → ℕ
    → SandboxId
    → SandboxNetworkSpec
    → List SandboxNetworkState
    → Result NetworkError (Option SandboxNetworkState)
choose_state sandbox_cidr cidr block_count id spec existing = do
  let used = map (λ s. s.subnet_index) existing
  let used_tokens = map (λ s. s.token) existing
  let start = stable_hash id.as_str % block_count
  index ← or_err (no_free_subnet sandbox_cidr) (find_index start block_count used block_count 0)
  ips ← nth_30_pair index cidr
  ok (Option.map (made_state id spec index ips) (find_token id used_tokens u32_max 0))

-- The part behind the reading of the CIDR.
unfoldable pub allocate_in :
    Text
    → Ipv4Cidr
    → SandboxId
    → SandboxNetworkSpec
    → Option (List StateEntry)
    → Result NetworkError (Option SandboxNetworkState)
unfolding read_states choose_state
allocate_in sandbox_cidr cidr id spec sandboxes = do
  block_count ← block_count_30 cidr
  existing ← read_states sandboxes
  choose_state sandbox_cidr cidr block_count id spec existing

unfoldable pub allocate_state :
    Text
    → SandboxId
    → SandboxNetworkSpec
    → Option (List StateEntry)
    → Result NetworkError (Option SandboxNetworkState)
unfolding allocate_in
allocate_state sandbox_cidr id spec sandboxes = do
  cidr ← parse_ipv4_cidr sandbox_cidr
  allocate_in sandbox_cidr cidr id spec sandboxes
