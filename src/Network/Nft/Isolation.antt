-- ===== src/Network/Nft/Isolation.antt =====
-- The forward chain of all sandboxes together: `render_nft_ruleset` of crates/oad/src/network.rs
-- writes the rules of one sandbox behind another's.
use omniagent.Prelude.{
  ℕ, zero, suc, ◌≡◌, refl, sym, ap, subst, ◌∙◌, ◌≢◌, Bool, true, false, ◌&&◌, Bool-cases, inl, inr,
  some, List, [], ◌∷◌, ◌++◌, append_assoc, Text, text_eq, text_eq_iff, Result, ok, bind_ok,
  some_injective, ok_injective, if◌then◌else◌, get_elem?,
}
use omniagent.Core.Spec.{
  EgressDestination, cidr, Protocol, PortRange, EgressRule, EgressPolicy, allow_all, deny_all,
  rules,
}
use omniagent.Network.Cidr.{NetworkError, Ipv4Cidr, parse_ipv4_cidr}
use omniagent.Network.Alloc.{SandboxNetworkState}
use omniagent.Network.Alloc.Apart.{IsDistinct, AllApart}
use omniagent.Network.Nft.{
  NftProtocol, tcp, udp, icmp, NftVerdict, accept, reject, NftRule, write_nft_rule, write_all,
  write_forward_tcp, write_forward, write_forward_egress, write_forward_rules,
}
use omniagent.Network.Nft.Filter.{Packet, carries, matches, chain_verdict, spec_forwards}
use omniagent.Network.Nft.Forward.{write_forward_rules_lem}
use omniagent.Network.Nft.Ruleset.{quic_rules, forward_for, for_all}

abbrev Named : Text → List NftRule → Type 0
Named veth [] = Unit
Named veth (rule ∷ lines) = (rule.iifname ≡ veth) × Named veth lines

append-Named :
    (veth : Text) (xs ys : List NftRule) → Named veth xs → Named veth ys → Named veth (xs ++ ys)
append-Named veth [] ys h k = k
append-Named veth (x ∷ xs) ys h k = (h.0, append-Named veth xs ys h.1 k)

-- Rules of other interfaces leave a packet to the rules behind them.
chain_verdict_skip :
    (p : Packet) (veth : Text) (lines rest : List NftRule)
    → p.iifname ≢ veth
    → Named veth lines
    → chain_verdict p (lines ++ rest) ≡ chain_verdict p rest
unfolding chain_verdict
chain_verdict_skip p veth [] rest apart h = refl
chain_verdict_skip p veth (rule ∷ lines) rest apart h =
    elim (Bool-cases (text_eq p.iifname rule.iifname)) [
      | inl same ↦ absurd (apart ((text_eq_iff p.iifname rule.iifname).0 same ∙ h.0))
      | inr differ ↦ rw (differ) (chain_verdict_skip p veth lines rest apart h.1)
    ]

write_nft_rule-Named :
    (veth : Text) (protocol : NftProtocol) (destination : EgressDestination)
    (ports : List PortRange) (verdict : NftVerdict) {lines : List NftRule}
    → write_nft_rule veth protocol destination ports verdict ≡ ok lines
    → Named veth lines
unfolding write_nft_rule
write_nft_rule-Named veth protocol (cidr block) ports verdict h =
    let (parsed, e, made) = bind_ok (parse_ipv4_cidr block) _ h in
    subst (Named veth) (ok_injective made) (refl, tt)

write_all-Named :
    (veth : Text) (write : EgressRule → Result NetworkError (List NftRule))
    (each : (rule : EgressRule) (lines : List NftRule) → write rule ≡ ok lines → Named veth lines)
    (list : List EgressRule) {lines : List NftRule}
    → write_all write list ≡ ok lines
    → Named veth lines
unfolding write_all
write_all-Named veth write each [] h = subst (Named veth) (ok_injective h) tt
write_all-Named veth write each (rule ∷ more) h =
    let (first, e1, h1) = bind_ok (write rule) _ h in
    let (others, e2, h2) = bind_ok (write_all write more) _ h1 in
    subst (Named veth) (ok_injective h2) (
      append-Named veth first others (each rule first e1) (write_all-Named veth write each more e2))

write_forward_tcp-Named :
    (veth : Text) (transparent : Bool) (rule : EgressRule) {lines : List NftRule}
    → write_forward_tcp veth transparent rule ≡ ok lines
    → Named veth lines
unfolding write_forward_tcp
write_forward_tcp-Named veth true rule h = subst (Named veth) (ok_injective h) tt
write_forward_tcp-Named veth false rule h =
    write_nft_rule-Named veth tcp rule.destination rule.ports accept h

write_forward-Named :
    (veth : Text) (transparent : Bool) (rule : EgressRule) (protocol : Protocol)
    {lines : List NftRule}
    → write_forward veth transparent rule protocol ≡ ok lines
    → Named veth lines
unfolding write_forward
write_forward-Named veth transparent rule Protocol.tcp h =
    write_forward_tcp-Named veth transparent rule h
write_forward-Named veth transparent rule Protocol.udp h =
    write_nft_rule-Named veth udp rule.destination rule.ports accept h
write_forward-Named veth transparent rule Protocol.icmp h =
    write_nft_rule-Named veth icmp rule.destination [] accept h
write_forward-Named veth transparent rule Protocol.all h =
    let (a, e1, h1) = bind_ok (write_forward_tcp veth transparent rule) _ h in
    let (b, e2, h2) = bind_ok (write_nft_rule veth udp rule.destination rule.ports accept) _ h1 in
    let (c, e3, h3) = bind_ok (write_nft_rule veth icmp rule.destination [] accept) _ h2 in
    subst (Named veth) (ok_injective h3) (
      append-Named veth (a ++ b) c
        (append-Named veth a b (write_forward_tcp-Named veth transparent rule e1)
          (write_nft_rule-Named veth udp rule.destination rule.ports accept e2))
        (write_nft_rule-Named veth icmp rule.destination [] accept e3))

write_forward_egress-Named :
    (veth : Text) (transparent : Bool) (egress : EgressPolicy) {lines : List NftRule}
    → write_forward_egress veth transparent egress ≡ ok lines
    → Named veth lines
unfolding write_forward_egress
write_forward_egress-Named veth transparent allow_all h =
    subst (Named veth) (ok_injective h) (refl, tt)
write_forward_egress-Named veth transparent deny_all h =
    subst (Named veth) (ok_injective h) (refl, tt)
write_forward_egress-Named veth transparent (rules list) h =
    let write : EgressRule → Result NetworkError (List NftRule) =
      λ rule. write_forward veth transparent rule rule.protocol in
    let (allowed, e, made) = bind_ok (write_all write list) _ h in
    subst (Named veth) (ok_injective made) (
      append-Named veth allowed _
        (write_all-Named veth write
          (λ rule lines. write_forward-Named veth transparent rule rule.protocol) list e)
        (refl, tt))

write_forward_rules-Named :
    (state : SandboxNetworkState) {lines : List NftRule}
    → write_forward_rules state ≡ ok lines
    → Named state.host_veth lines
unfolding write_forward_rules
write_forward_rules-Named state h =
    let veth = state.host_veth in
    let write : EgressRule → Result NetworkError (List NftRule) =
      λ rule. write_nft_rule veth udp rule.destination rule.ports accept in
    let (a, e1, h1) = bind_ok (write_all write state.spec.udp.allow) _ h in
    let (b, e2, made) =
      bind_ok (write_forward_egress veth state.spec.l7.transparent_tcp state.spec.egress) _ h1 in
    subst (Named veth) (ok_injective made) (
      append-Named veth a b
        (write_all-Named veth write
          (λ rule lines. write_nft_rule-Named veth udp rule.destination rule.ports accept)
          state.spec.udp.allow e1)
        (write_forward_egress-Named veth state.spec.l7.transparent_tcp state.spec.egress e2))

quic_rules-Named : (state : SandboxNetworkState) → Named state.host_veth (quic_rules state)
unfolding quic_rules
quic_rules-Named state = elim (Bool-cases state.spec.udp.block_quic) [
  | inl on ↦ rw (on) (refl, tt)
  | inr off ↦ rw (off) tt
]

forward_for-Named :
    (state : SandboxNetworkState) {lines : List NftRule}
    → forward_for state ≡ ok lines
    → Named state.host_veth lines
unfolding forward_for
forward_for-Named state h =
    let (lines, e, made) = bind_ok (write_forward_rules state) _ h in
    subst (Named state.host_veth) (ok_injective made) (
      append-Named state.host_veth (quic_rules state) lines (quic_rules-Named state)
        (write_forward_rules-Named state e))

-- A packet of QUIC, where the spec blocks it.
abbrev pub is_blocked_quic : SandboxNetworkState → Packet → Bool
is_blocked_quic state p =
    state.spec.udp.block_quic && carries p.payload udp (record { start = 443; last = 443 } ∷ [])

abbrev pub policy_verdict : SandboxNetworkState → Packet → NftVerdict
policy_verdict state p =
    if is_blocked_quic state p
    then reject
    else if spec_forwards state.spec p
    then accept
    else reject

quic_rules_lem :
    (p : Packet) (state : SandboxNetworkState) (rest : List NftRule)
    → p.iifname ≡ state.host_veth
    → chain_verdict p (quic_rules state ++ rest)
      ≡ (if is_blocked_quic state p then reject else chain_verdict p rest)
unfolding quic_rules chain_verdict matches
quic_rules_lem p state rest own = elim (Bool-cases state.spec.udp.block_quic) [
  | inl on ↦ rw (on, (text_eq_iff p.iifname state.host_veth).1 own) refl
  | inr off ↦ rw (off) refl
]

forward_for_lem :
    (p : Packet) (state : SandboxNetworkState) {lines : List NftRule} (rest : List NftRule)
    → p.iifname ≡ state.host_veth
    → forward_for state ≡ ok lines
    → chain_verdict p (lines ++ rest) ≡ policy_verdict state p
unfolding forward_for
forward_for_lem p state rest own h =
    let (lines, e, made) = bind_ok (write_forward_rules state) _ h in
    subst (λ l. chain_verdict p (l ++ rest) ≡ policy_verdict state p) (ok_injective made)
      (ap (chain_verdict p) (append_assoc (quic_rules state) lines rest)
        ∙ quic_rules_lem p state (lines ++ rest) own
        ∙ ap (λ v. if is_blocked_quic state p then reject else v)
            (write_forward_rules_lem p state rest own e))

veths_apart :
    (s t : SandboxNetworkState) (states : List SandboxNetworkState) (i : ℕ)
    → AllApart s states
    → get_elem? states i ≡ some t
    → s.host_veth ≢ t.host_veth
veths_apart s t [] i apart found = cc
veths_apart s t (first ∷ states) zero apart found =
    subst (λ u. s.host_veth ≢ u.host_veth) (some_injective found) apart.0.veth
veths_apart s t (first ∷ states) (suc i) apart found = veths_apart s t states i apart.1 found

-- With states that were all made in one CIDR and are pairwise apart, and rules that could be written
-- for all of them: the forward chain rejects a packet that comes in on a sandbox's interface where
-- that sandbox's own spec blocks it as QUIC or does not forward it, and accepts it otherwise, whatever
-- the specs of the others say. A spec forwards what its UDP list or its egress policy allows, but for
-- TCP that an egress rule allows while TCP is redirected to the proxy.
pub forward_chain_lem :
    (c : Ipv4Cidr) (p : Packet) (states : List SandboxNetworkState) (i : ℕ)
    (state : SandboxNetworkState) {lines : List NftRule}
    → IsDistinct c states
    → get_elem? states i ≡ some state
    → p.iifname ≡ state.host_veth
    → for_all forward_for states ≡ ok lines
    → chain_verdict p lines ≡ policy_verdict state p
unfolding for_all
forward_chain_lem c p [] i state distinct found own h = cc
forward_chain_lem c p (s ∷ states) zero state distinct found own h =
    let (lines, e, h1) = bind_ok (forward_for s) _ h in
    let (rest, e', made) = bind_ok (for_all forward_for states) _ h1 in
    subst (λ l. chain_verdict p l ≡ policy_verdict state p) (ok_injective made)
      (forward_for_lem p state rest own
        (subst (λ u. forward_for u ≡ ok lines) (some_injective found) e))
forward_chain_lem c p (s ∷ states) (suc i) state distinct found own h =
    let (lines, e, h1) = bind_ok (forward_for s) _ h in
    let (rest, e', made) = bind_ok (for_all forward_for states) _ h1 in
    subst (λ l. chain_verdict p l ≡ policy_verdict state p) (ok_injective made)
      (chain_verdict_skip p s.host_veth lines rest
          (λ own'. veths_apart s state states i distinct.1 found (sym own' ∙ own))
          (forward_for-Named s e)
        ∙ forward_chain_lem c p states i state distinct.2 found own e')
