-- ===== src/Network/Alloc/Distinct.antt =====
-- `allocate_state` of crates/oad/src/network.rs keeps the sandboxes apart: no two share a subnet, an
-- address, a network namespace or an interface.
use mathlib.Core.Option
use native.Mathlib.Nat.{mod-lt}
use omniagent.Prelude.{
  ℕ, suc, ◌-◌, ◌%◌, ◌^◌, ◌≤◌, ◌<◌, ◌≡◌, refl, subst, sym, ap, ◌∙◌, Option, none, some, List, [],
  ◌∷◌, map, arith, Text, length, Result, ok, err, ok_injective, true, ◌⊎◌, inl, inr, Option-cases,
  Result-cases,
}
use omniagent.Core.Ids.{SandboxId}
use omniagent.Core.Spec.{SandboxNetworkSpec}
use omniagent.Network.Cidr.{NetworkError, Ipv4Cidr, or_err, parse_ipv4_cidr, block_count_30}
use omniagent.Network.Cidr.Blocks.{
  parse_ipv4_cidr-IsBlock, nth_30_pair-ok, block_count_30-ok, block_count_30_bounds,
}
use omniagent.Network.Hash.{stable_hash, salted_token}
use omniagent.Network.Hash.Width.{length-salted_token}
use omniagent.Network.Alloc.{
  SandboxNetworkState, contains_token, find_token, u32_max, made_state, peer_veth, StateEntry,
  read_states, choose_state, allocate_in, allocate_state,
}
use omniagent.Network.Alloc.Search.{find_index-free, find_index-total, find_token-none}
use omniagent.Network.Alloc.Apart.{
  IsDistinct, IsAllocated, allocate_in-IsAllocated, allocated-IsDistinct,
}

-- Over a CIDR that parses, and where the states that are read were all made in this CIDR and are
-- pairwise apart: an allocated state's subnet lies in the CIDR, and the state is apart from all of
-- them: its subnet, token, namespace, interface and both addresses are new.
pub allocate_state-IsDistinct :
    (cidr : Text) (id : SandboxId) (spec : SandboxNetworkSpec)
    (sandboxes : Option (List StateEntry)) {existing : List SandboxNetworkState} {c : Ipv4Cidr}
    {s : SandboxNetworkState}
    → parse_ipv4_cidr cidr ≡ ok c
    → read_states sandboxes ≡ ok existing
    → IsDistinct c existing
    → allocate_state cidr id spec sandboxes ≡ ok (some s)
    → IsDistinct c (s ∷ existing)
unfolding allocate_state
allocate_state-IsDistinct cidr id spec sandboxes {existing} {c} {s} p r d h =
    let (others, found, a) = allocate_in-IsAllocated cidr c id spec sandboxes (rw p at h) in
    let same : others ≡ existing = ok_injective (sym found ∙ r) in
    allocated-IsDistinct c id spec existing (parse_ipv4_cidr-IsBlock cidr p) d
      (subst (λ l. IsAllocated c id spec l s) same a)

length-map : {A B : Type 0} (f : A → B) (xs : List A) → length (map f xs) ≡ length xs
length-map f [] = refl
length-map f (x ∷ xs) = ap suc (length-map f xs)

-- The attempts are all taken.
abbrev pub AllTaken : SandboxId → List SandboxNetworkState → Type 0
AllTaken id existing =
    (a : ℕ)
    → a < u32_max
    → contains_token (map (λ (s : SandboxNetworkState). s.token) existing) (salted_token id a)
      ≡ true

-- What a choice comes to: a state, or no token.
abbrev pub Chosen :
    SandboxId → List SandboxNetworkState → Result NetworkError (Option SandboxNetworkState) → Type 0
Chosen id existing r =
    ((s : SandboxNetworkState) × (r ≡ ok (some s))) ⊎ ((r ≡ ok none) × AllTaken id existing)

token-Chosen :
    (id : SandboxId) (existing : List SandboxNetworkState) (make : Text → SandboxNetworkState)
    → Chosen id existing (
        ok (
          Option.map make
            (find_token id (map (λ (s : SandboxNetworkState). s.token) existing) u32_max 0)))
token-Chosen id existing make =
    let used = map (λ (s : SandboxNetworkState). s.token) existing in
    elim (Option-cases (find_token id used u32_max 0)) [
      | inl nothing ↦ inr (
        ap (λ o. ok (Option.map make o)) nothing,
        λ a high. find_token-none id used u32_max 0 nothing a (omega arith) (omega arith),
      )
      | inr (token, found) ↦ inl (make token, ap (λ o. ok (Option.map make o)) found)
    ]

choose_state_lem :
    (cidr : Text) (c : Ipv4Cidr) (id : SandboxId) (spec : SandboxNetworkSpec)
    (existing : List SandboxNetworkState)
    → c.prefix ≤ 30
    → length existing < 2 ^ (30 - c.prefix)
    → Chosen id existing (choose_state cidr c (2 ^ (30 - c.prefix)) id spec existing)
unfolding choose_state or_err
choose_state_lem cidr c id spec existing small few =
    let count = 2 ^ (30 - c.prefix) in
    let counted : block_count_30 c ≡ ok count = block_count_30-ok c small in
    let used = map (λ (s : SandboxNetworkState). s.subnet_index) existing in
    let bounds = block_count_30_bounds c counted in
    let start = stable_hash id.as_str % count in
    let (index, found) =
      find_index-total start count used (mod-lt (stable_hash id.as_str) (bounds.0)) (bounds.1)
        (rw length-map few) in
    let free = find_index-free start count used count 0 (bounds.0) found in
    let (ips, pair) = nth_30_pair-ok index c small (free.0) in
    rw (found, pair) (token-Chosen id existing (made_state id spec index ips))

-- Over a CIDR that is /30 or larger, and has more /30 blocks than there are states where these can be
-- read: where they cannot, `allocate_state` returns that error; otherwise it returns a state, but for
-- the panic where each of the 2^32 - 1 tokens that it tries is another sandbox's.
pub allocate_state-total :
    (cidr : Text) (id : SandboxId) (spec : SandboxNetworkSpec)
    (sandboxes : Option (List StateEntry)) {c : Ipv4Cidr}
    → parse_ipv4_cidr cidr ≡ ok c
    → c.prefix ≤ 30
    → ((existing : List SandboxNetworkState)
        → read_states sandboxes ≡ ok existing
        → length existing < 2 ^ (30 - c.prefix))
    → ((e : NetworkError) × (read_states sandboxes ≡ err e)
        × (allocate_state cidr id spec sandboxes ≡ err e))
      ⊎ ((existing : List SandboxNetworkState) × (read_states sandboxes ≡ ok existing)
          × Chosen id existing (allocate_state cidr id spec sandboxes))
unfolding allocate_state allocate_in
allocate_state-total cidr id spec sandboxes {c} p small few =
    let counted : block_count_30 c ≡ ok (2 ^ (30 - c.prefix)) = block_count_30-ok c small in
    elim (Result-cases (read_states sandboxes)) [
      | inl (existing, read) ↦ inr (
        existing,
        read,
        rw (p, counted, read) (choose_state_lem cidr c id spec existing small (few existing read)),
      )
      | inr (e, unread) ↦ inl (e, unread, rw (p, counted, unread) refl)
    ]

made_state-widths :
    (id : SandboxId) (spec : SandboxNetworkSpec) (index : ℕ) (ips : ℕ × ℕ) (token : Text)
    → length token ≡ 10
    → (length (made_state id spec index ips token).host_veth ≡ 14)
      × (length (peer_veth (made_state id spec index ips token).token) ≡ 14)
      × (length (made_state id spec index ips token).netns_name ≡ 14)
unfolding made_state peer_veth
made_state-widths id spec index ips token h = (omega arith, omega arith, omega arith)

abbrev NamesFit : SandboxNetworkState → Type 0
NamesFit s =
    (length s.host_veth ≡ 14) × (length (peer_veth s.token) ≡ 14) × (length s.netns_name ≡ 14)

allocated-NamesFit :
    (c : Ipv4Cidr) (id : SandboxId) (spec : SandboxNetworkSpec)
    (existing : List SandboxNetworkState) {s : SandboxNetworkState}
    → IsAllocated c id spec existing s
    → NamesFit s
allocated-NamesFit c id spec existing a = subst NamesFit a.made (
    made_state-widths id spec a.index a.ips a.token
      (ap length a.salted ∙ length-salted_token id a.attempt))

-- The names of an allocated state have fourteen characters, which fits the fifteen that Linux
-- allows for the name of an interface.
pub allocate_state-names_fit :
    (cidr : Text) (id : SandboxId) (spec : SandboxNetworkSpec)
    (sandboxes : Option (List StateEntry)) {c : Ipv4Cidr} {s : SandboxNetworkState}
    → parse_ipv4_cidr cidr ≡ ok c
    → allocate_state cidr id spec sandboxes ≡ ok (some s)
    → (length s.host_veth ≡ 14) × (length (peer_veth s.token) ≡ 14) × (length s.netns_name ≡ 14)
unfolding allocate_state
allocate_state-names_fit cidr id spec sandboxes {c} p h =
    let (existing, found, a) = allocate_in-IsAllocated cidr c id spec sandboxes (rw p at h) in
    allocated-NamesFit c id spec existing a
