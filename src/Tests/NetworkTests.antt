-- ===== src/Tests/NetworkTests.antt =====
-- crates/oad/src/network.rs at the default CIDR of the daemon.
use omniagent.Prelude.{
  ◌↔◌, ◌≢◌, ◌+◌, ◌*◌, ◌≤◌, ◌^◌, ◌-◌, ◌≡◌, refl, sym, subst, ◌∙◌, ◌<◌, ◌⊎◌, err, ok_injective, List,
  Option, none, some, [], ◌∷◌, arith, Text, codes, ok, length, text_eq,
}
use omniagent.Core.Ids.{SandboxId}
use omniagent.Core.Spec.{default_network_spec}
use omniagent.Network.Cidr.{
  NetworkError, Ipv4Cidr, parse_ipv4_cidr, block_count_30, nth_30_pair, u32_mod,
}
use omniagent.Network.Cidr.Blocks.{IsBlock, parse_ipv4_cidr-IsBlock, nth_30_pair_bounds}
use omniagent.Network.Hash.{stable_hash, salted_token, token_value, hex_10, decimal}
use omniagent.Network.Alloc.{
  SandboxNetworkState, StateEntry, stands, absent, read_states, allocate_state, find_index,
  find_token, u32_max, made_state, peer_veth,
}
use omniagent.Network.Alloc.Apart.{IsDistinct}
use omniagent.Network.Alloc.Distinct.{
  Chosen, allocate_state-IsDistinct, allocate_state-total, allocate_state-names_fit,
}
use omniagent.Network.Validate.{validate_spec, validate_spec_iff, EgressFits, RulesFit}

abbrev cidr : Text
cidr = codes "10.90.0.0/16"

abbrev block : Ipv4Cidr
block = record { network = 173670400; prefix = 16 }

cidr_parses : parse_ipv4_cidr cidr ≡ ok block
unfolding parse_ipv4_cidr
cidr_parses = refl

abbrev web : SandboxId
web = record { as_str = codes "web" }

abbrev web_state : SandboxNetworkState
web_state = made_state web default_network_spec 7921 (173702085, 173702086) (codes "1948721ef1")

web_allocated : allocate_state cidr web default_network_spec none ≡ ok (some web_state)
unfolding allocate_state find_index find_token u32_max salted_token made_state stable_hash hex_10
    parse_ipv4_cidr block_count_30 nth_30_pair token_value
web_allocated = refl

web-IsDistinct : IsDistinct block (web_state ∷ [])
unfolding read_states
web-IsDistinct =
    allocate_state-IsDistinct cidr web default_network_spec none cidr_parses refl tt web_allocated

abbrev sandboxes : Option (List StateEntry)
sandboxes = some (absent ∷ stands web_state ∷ [])

sandboxes_read : read_states sandboxes ≡ ok (web_state ∷ [])
unfolding read_states
sandboxes_read = refl

-- A second sandbox with the same id is moved to the next subnet and to a salted token.
abbrev second_state : SandboxNetworkState
second_state = made_state web default_network_spec 7922 (173702089, 173702090) (salted_token web 1)

second_allocated : allocate_state cidr web default_network_spec sandboxes ≡ ok (some second_state)
unfolding allocate_state find_index find_token u32_max salted_token made_state stable_hash hex_10
    token_value parse_ipv4_cidr block_count_30 nth_30_pair text_eq decimal
second_allocated = refl

allocate_state-IsDistinct_example : IsDistinct block (second_state ∷ web_state ∷ [])
allocate_state-IsDistinct_example =
    allocate_state-IsDistinct cidr web default_network_spec sandboxes cidr_parses sandboxes_read
      web-IsDistinct second_allocated

few_sandboxes :
    (existing : List SandboxNetworkState)
    → read_states sandboxes ≡ ok existing
    → length existing < 2 ^ (30 - block.prefix)
few_sandboxes existing read =
    subst (λ l. length l < 2 ^ (30 - block.prefix)) (ok_injective (sym sandboxes_read ∙ read))
      (omega arith)

allocate_state-total_example :
    ((e : NetworkError) × (read_states sandboxes ≡ err e)
      × (allocate_state cidr web default_network_spec sandboxes ≡ err e))
    ⊎ ((existing : List SandboxNetworkState) × (read_states sandboxes ≡ ok existing)
        × Chosen web existing (allocate_state cidr web default_network_spec sandboxes))
allocate_state-total_example =
    allocate_state-total cidr web default_network_spec sandboxes cidr_parses (omega arith)
      few_sandboxes

allocate_state-names_fit_example :
    (length web_state.host_veth ≡ 14)
    × (length (peer_veth web_state.token) ≡ 14)
    × (length web_state.netns_name ≡ 14)
allocate_state-names_fit_example =
    allocate_state-names_fit cidr web default_network_spec none cidr_parses web_allocated

parse_ipv4_cidr-IsBlock_example : IsBlock block
parse_ipv4_cidr-IsBlock_example = parse_ipv4_cidr-IsBlock cidr cidr_parses

pair_7921 : nth_30_pair 7921 block ≡ ok (173702085, 173702086)
unfolding nth_30_pair
pair_7921 = refl

nth_30_pair_bounds_example :
    (173702085 ≡ block.network + 4 * 7921 + 1)
    × (173702086 ≡ block.network + 4 * 7921 + 2)
    × (block.network + 4 * 7921 + 4 ≤ block.network + 2 ^ (32 - block.prefix))
    × (block.network + 2 ^ (32 - block.prefix) ≤ u32_mod)
nth_30_pair_bounds_example =
    nth_30_pair_bounds 7921 block (parse_ipv4_cidr-IsBlock cidr cidr_parses) pair_7921

default_spec_is_valid : validate_spec default_network_spec ≡ ok tt
unfolding validate_spec
default_spec_is_valid = refl

validate_spec_iff_example : (validate_spec default_network_spec ≡ ok tt) ↔ (
    EgressFits default_network_spec.egress
    × RulesFit default_network_spec.udp.allow
    × (default_network_spec.shaping.latency_ms ≢ some 0))
validate_spec_iff_example = validate_spec_iff default_network_spec
