-- ===== src/Network/Alloc/Apart.antt =====
-- What it means that the sandboxes are apart on the host, and that an allocation by `allocate_state` of
-- crates/oad/src/network.rs went by a free index and a free token.
use mathlib.Core.Option
use omniagent.Prelude.{
  ℕ, ◌+◌, ◌-◌, ◌*◌, ◌%◌, ◌^◌, ◌≤◌, ◌≡◌, refl, subst, sym, ◌∙◌, ◌≢◌, false, Option, none, some, List,
  [], ◌∷◌, ◌++◌, map, arith, Text, codes, text_eq_iff, ok, bind_ok,
}
use omniagent.Core.Ids.{SandboxId}
use omniagent.Core.Spec.{SandboxNetworkSpec}
use omniagent.Network.Cidr.{no_free_subnet, Ipv4Cidr, or_err, block_count_30, nth_30_pair}
use omniagent.Network.Cidr.Blocks.{IsBlock, nth_30_pair_bounds, or_err-ok, block_count_30_bounds}
use omniagent.Network.Hash.{stable_hash, salted_token}
use omniagent.Network.Alloc.{
  SandboxNetworkState, contains_index, contains_token, find_index, find_token, u32_max,
  host_veth_prefix, made_state, StateEntry, read_states, choose_state, allocate_in,
}
use omniagent.Network.Alloc.Search.{find_index-free, find_token-free}

-- The subnet lies in the CIDR, and the addresses and names follow from the subnet and the token.
pub record IsMade (c : Ipv4Cidr) (s : SandboxNetworkState) : Type 0 where
  pub inside : c.network + 4 * s.subnet_index + 4 ≤ c.network + 2 ^ (32 - c.prefix)
  pub host : s.host_ip ≡ c.network + 4 * s.subnet_index + 1
  pub sandbox : s.sandbox_ip ≡ c.network + 4 * s.subnet_index + 2
  pub netns : s.netns_name ≡ codes "oad-" ++ s.token
  pub veth : s.host_veth ≡ host_veth_prefix ++ s.token

-- Two sandboxes share nothing on the host.
pub record IsApart (s t : SandboxNetworkState) : Type 0 where
  pub subnet : s.subnet_index ≢ t.subnet_index
  pub token : s.token ≢ t.token
  pub netns : s.netns_name ≢ t.netns_name
  pub veth : s.host_veth ≢ t.host_veth
  pub hosts : s.host_ip ≢ t.host_ip
  pub sandboxes : s.sandbox_ip ≢ t.sandbox_ip
  pub crossed : s.host_ip ≢ t.sandbox_ip
  pub crossed' : s.sandbox_ip ≢ t.host_ip

abbrev pub AllApart : SandboxNetworkState → List SandboxNetworkState → Type 0
AllApart s [] = Unit
AllApart s (t ∷ ts) = IsApart s t × AllApart s ts

-- Every state is made in the CIDR, and any two are apart.
abbrev pub IsDistinct : Ipv4Cidr → List SandboxNetworkState → Type 0
IsDistinct c [] = Unit
IsDistinct c (s ∷ ss) = IsMade c s × AllApart s ss × IsDistinct c ss

pub made-IsApart :
    (c : Ipv4Cidr) (s t : SandboxNetworkState)
    → IsMade c s
    → IsMade c t
    → s.subnet_index ≢ t.subnet_index
    → s.token ≢ t.token
    → IsApart s t
made-IsApart c s t ms mt i k = record {
  subnet = i;
  token = k;
  netns = λ e. k (tail4 (sym ms.netns ∙ e ∙ mt.netns));
  veth = λ e. k (tail4 (sym ms.veth ∙ e ∙ mt.veth));
  hosts = omega (arith, ms.host, mt.host);
  sandboxes = omega (arith, ms.sandbox, mt.sandbox);
  crossed = omega (arith, ms.host, mt.sandbox);
  crossed' = omega (arith, ms.sandbox, mt.host);
}
  where
    tail4 : {a b c d : ℕ} {s t : Text} → a ∷ b ∷ c ∷ d ∷ s ≡ a ∷ b ∷ c ∷ d ∷ t → s ≡ t
    tail4 e = cc

made-AllApart :
    (c : Ipv4Cidr) (s : SandboxNetworkState) (ss : List SandboxNetworkState)
    → IsMade c s
    → IsDistinct c ss
    → contains_index (map (λ t. t.subnet_index) ss) s.subnet_index ≡ false
    → contains_token (map (λ t. t.token) ss) s.token ≡ false
    → AllApart s ss
made-AllApart c s [] m h i k = tt
made-AllApart c s (t ∷ ts) m h i k = (
  made-IsApart c s t m h.0 (ground arith) (ground (arith, text_eq_iff t.token s.token)),
  made-AllApart c s ts m h.2 (ground arith) (ground arith),
)

Option-map-some :
    {A B : Type 0} (f : A → B) (o : Option A) {b : B}
    → Option.map f o ≡ some b
    → (a : A) × (o ≡ some a) × (f a ≡ b)
Option-map-some f none h = cc
Option-map-some f (some a) h = (a, refl, cc)

made_state-IsMade :
    (c : Ipv4Cidr) (id : SandboxId) (spec : SandboxNetworkSpec) (index : ℕ) (ips : ℕ × ℕ)
    (token : Text)
    → IsBlock c
    → nth_30_pair index c ≡ ok ips
    → IsMade c (made_state id spec index ips token)
unfolding made_state
made_state-IsMade c id spec index ips token b h =
    let at = nth_30_pair_bounds index c b h in
    record { inside = at.2; host = at.0; sandbox = at.1; netns = refl; veth = refl }

made_state-IsDistinct :
    (c : Ipv4Cidr) (id : SandboxId) (spec : SandboxNetworkSpec)
    (existing : List SandboxNetworkState) (index : ℕ) (ips : ℕ × ℕ) (token : Text)
    → IsBlock c
    → IsDistinct c existing
    → nth_30_pair index c ≡ ok ips
    → contains_index (map (λ t. t.subnet_index) existing) index ≡ false
    → contains_token (map (λ t. t.token) existing) token ≡ false
    → IsDistinct c (made_state id spec index ips token ∷ existing)
unfolding made_state
made_state-IsDistinct c id spec existing index ips token b d pair i t =
    let new = made_state-IsMade c id spec index ips token b pair in
    (new, made-AllApart c (made_state id spec index ips token) existing new d i t, d)

-- What an allocation went by: a free index, its addresses and a free token.
pub record IsAllocated (c : Ipv4Cidr) (id : SandboxId) (spec : SandboxNetworkSpec)
    (existing : List SandboxNetworkState) (s : SandboxNetworkState) : Type 0 where
  pub index : ℕ
  pub ips : ℕ × ℕ
  pub token : Text
  pub attempt : ℕ
  pub pair : nth_30_pair index c ≡ ok ips
  pub free : contains_index (map (λ t. t.subnet_index) existing) index ≡ false
  pub fresh : contains_token (map (λ t. t.token) existing) token ≡ false
  pub salted : token ≡ salted_token id attempt
  pub made : made_state id spec index ips token ≡ s

choose_state-IsAllocated :
    (cidr : Text) (c : Ipv4Cidr) (count : ℕ) (id : SandboxId) (spec : SandboxNetworkSpec)
    (existing : List SandboxNetworkState) {s : SandboxNetworkState}
    → block_count_30 c ≡ ok count
    → choose_state cidr c count id spec existing ≡ ok (some s)
    → IsAllocated c id spec existing s
unfolding choose_state
choose_state-IsAllocated cidr c count id spec existing {s} counted h =
    let used = map (λ (s : SandboxNetworkState). s.subnet_index) existing in
    let used_tokens = map (λ (s : SandboxNetworkState). s.token) existing in
    let start = stable_hash id.as_str % count in
    let (index, found, h3) =
      bind_ok (or_err (no_free_subnet cidr) (find_index start count used count 0)) _ h in
    let (ips, pair, h4) = bind_ok (nth_30_pair index c) _ h3 in
    let (token, named, made) =
      Option-map-some (made_state id spec index ips) (find_token id used_tokens u32_max 0) {b = s}
        (cc) in
    let free =
      find_index-free start count used count 0 ((block_count_30_bounds c counted).0)
        (or_err-ok _ (find_index start count used count 0) found) in
    let (fresh, attempt, salted) = find_token-free id used_tokens u32_max 0 named in
    record {
      index = index;
      ips = ips;
      token = token;
      attempt = attempt;
      pair = pair;
      free = free.1;
      fresh = fresh;
      salted = salted;
      made = made;
    }

-- The states that were read, and what the allocation went by.
pub allocate_in-IsAllocated :
    (cidr : Text) (c : Ipv4Cidr) (id : SandboxId) (spec : SandboxNetworkSpec)
    (sandboxes : Option (List StateEntry)) {s : SandboxNetworkState}
    → allocate_in cidr c id spec sandboxes ≡ ok (some s)
    → (existing : List SandboxNetworkState) × (read_states sandboxes ≡ ok existing)
      × IsAllocated c id spec existing s
unfolding allocate_in
allocate_in-IsAllocated cidr c id spec sandboxes {s} h =
    let (count, counted, h2) = bind_ok (block_count_30 c) _ h in
    let (existing, found, h3) = bind_ok (read_states sandboxes) _ h2 in
    (existing, found, choose_state-IsAllocated cidr c count id spec existing counted h3)

pub allocated-IsDistinct :
    (c : Ipv4Cidr) (id : SandboxId) (spec : SandboxNetworkSpec)
    (existing : List SandboxNetworkState) {s : SandboxNetworkState}
    → IsBlock c
    → IsDistinct c existing
    → IsAllocated c id spec existing s
    → IsDistinct c (s ∷ existing)
allocated-IsDistinct c id spec existing b d a =
    subst (λ (t : SandboxNetworkState). IsDistinct c (t ∷ existing)) a.made
      (made_state-IsDistinct c id spec existing a.index a.ips a.token b d a.pair a.free a.fresh)
