-- ===== src/Network/Nft/Forward.antt =====
-- The forward chain against the network spec: `write_forward_rules` of crates/oad/src/network.rs.
use omniagent.Prelude.{
  ◌≡◌, refl, sym, ap, subst, ◌∙◌, Bool, true, false, ◌&&◌, ◌||◌, not, List, [], ◌∷◌, ◌++◌,
  append_assoc, text_eq_iff, Result, ok, bind_ok, ok_injective, if◌then◌else◌, any,
}
use omniagent.Core.Spec.{
  EgressDestination, cidr, Protocol, PortRange, EgressRule, EgressPolicy, allow_all, deny_all,
  rules,
}
use omniagent.Network.Cidr.{NetworkError, parse_ipv4_cidr}
use omniagent.Network.Validate.{destination_cidr}
use omniagent.Network.Alloc.{SandboxNetworkState}
use omniagent.Network.Nft.{
  NftProtocol, tcp, udp, icmp, NftVerdict, accept, reject, NftRule, write_nft_rule, write_all,
  write_forward_tcp, write_forward, final_rule, write_forward_egress, write_forward_rules,
}
use omniagent.Network.Nft.Filter.{
  Packet, in_cidr, carries, matches, chain_verdict, covers, rule_allows, udp_allows, egress_allows,
  spec_forwards,
}

-- The rules accept the packet where `b` says so and leave it to those behind them otherwise.
abbrev Accepts : Packet → Bool → List NftRule → Type 0
Accepts p b lines =
    (rest : List NftRule)
    → chain_verdict p (lines ++ rest) ≡ (if b then accept else chain_verdict p rest)

nil-Accepts : (p : Packet) → Accepts p false []
nil-Accepts p rest = refl

append-Accepts :
    (p : Packet) (a b : Bool) (xs ys : List NftRule)
    → Accepts p a xs
    → Accepts p b ys
    → Accepts p (a || b) (xs ++ ys)
append-Accepts p a b xs ys h k rest =
    ap (chain_verdict p) (append_assoc xs ys rest) ∙ h (ys ++ rest) ∙ by_cases a
  where
    by_cases :
        (a : Bool)
        → (if a then accept else chain_verdict p (ys ++ rest))
          ≡ (if a || b then accept else chain_verdict p rest)
    by_cases true = refl
    by_cases false = k rest

write_nft_rule-Accepts :
    (p : Packet) (protocol : NftProtocol) (destination : EgressDestination) (ports : List PortRange)
    {lines : List NftRule}
    → write_nft_rule p.iifname protocol destination ports accept ≡ ok lines
    → Accepts p
        (in_cidr p.daddr (destination_cidr destination) && carries p.payload protocol ports)
        lines
unfolding write_nft_rule chain_verdict matches
write_nft_rule-Accepts p protocol (cidr block) ports {lines} h rest =
    let (parsed, e, made) = bind_ok (parse_ipv4_cidr block) _ h in
    subst
      (λ l. chain_verdict p (l ++ rest) ≡ (
        if in_cidr p.daddr block && carries p.payload protocol ports
        then accept
        else chain_verdict p rest))
      (ok_injective made) (rw ((text_eq_iff p.iifname p.iifname).1 refl) refl)

write_all-Accepts :
    (p : Packet) (write : EgressRule → Result NetworkError (List NftRule))
    (allows : EgressRule → Bool)
    (each : (rule : EgressRule) (lines : List NftRule)
      → write rule ≡ ok lines
      → Accepts p (allows rule) lines)
    (list : List EgressRule) {lines : List NftRule}
    → write_all write list ≡ ok lines
    → Accepts p (any allows list) lines
unfolding write_all
write_all-Accepts p write allows each [] {lines} h =
    subst (Accepts p false) (ok_injective h) (nil-Accepts p)
write_all-Accepts p write allows each (rule ∷ more) {lines} h =
    let (first, e1, h1) = bind_ok (write rule) _ h in
    let (others, e2, h2) = bind_ok (write_all write more) _ h1 in
    subst (Accepts p (allows rule || any allows more)) (ok_injective h2) (
      append-Accepts p _ _ first others (each rule first e1)
        (write_all-Accepts p write allows each more e2))

and_false : (c : Bool) → (c && false) ≡ false
and_false true = refl
and_false false = refl

and_or : (c x y z : Bool) → ((c && x) || (c && y) || (c && z)) ≡ (c && (x || y || z))
and_or true x y z = refl
and_or false x y z = refl

write_forward_tcp-Accepts :
    (p : Packet) (transparent : Bool) (rule : EgressRule) (lines : List NftRule)
    → write_forward_tcp p.iifname transparent rule ≡ ok lines
    → Accepts p
        (in_cidr p.daddr (destination_cidr rule.destination)
          && (not transparent && carries p.payload tcp rule.ports))
        lines
unfolding write_forward_tcp
write_forward_tcp-Accepts p true rule lines h =
    subst (λ b. Accepts p b lines)
      (sym (and_false (in_cidr p.daddr (destination_cidr rule.destination))))
      (subst (Accepts p false) (ok_injective h) (nil-Accepts p))
write_forward_tcp-Accepts p false rule lines h =
    write_nft_rule-Accepts p tcp rule.destination rule.ports h

write_forward-Accepts :
    (p : Packet) (transparent : Bool) (rule : EgressRule) (protocol : Protocol)
    (lines : List NftRule)
    → write_forward p.iifname transparent rule protocol ≡ ok lines
    → Accepts p
        (in_cidr p.daddr (destination_cidr rule.destination)
          && covers protocol transparent p.payload rule.ports)
        lines
unfolding write_forward
write_forward-Accepts p transparent rule Protocol.tcp lines h =
    write_forward_tcp-Accepts p transparent rule lines h
write_forward-Accepts p transparent rule Protocol.udp lines h =
    write_nft_rule-Accepts p udp rule.destination rule.ports h
write_forward-Accepts p transparent rule Protocol.icmp lines h =
    write_nft_rule-Accepts p icmp rule.destination [] h
write_forward-Accepts p transparent rule Protocol.all lines h =
    let (a, e1, h1) = bind_ok (write_forward_tcp p.iifname transparent rule) _ h in
    let (b, e2, h2) =
      bind_ok (write_nft_rule p.iifname udp rule.destination rule.ports accept) _ h1 in
    let (c, e3, h3) = bind_ok (write_nft_rule p.iifname icmp rule.destination [] accept) _ h2 in
    let to = in_cidr p.daddr (destination_cidr rule.destination) in
    subst (λ l. Accepts p (to && covers Protocol.all transparent p.payload rule.ports) l)
      (ok_injective h3)
      (subst (λ d. Accepts p d (a ++ b ++ c))
        (and_or to (not transparent && carries p.payload tcp rule.ports)
          (carries p.payload udp rule.ports) (carries p.payload icmp []))
        (append-Accepts p _ _ (a ++ b) c
          (append-Accepts p _ _ a b (write_forward_tcp-Accepts p transparent rule a e1)
            (write_nft_rule-Accepts p udp rule.destination rule.ports e2))
          (write_nft_rule-Accepts p icmp rule.destination [] e3)))

final_rule_lem :
    (p : Packet) (verdict : NftVerdict) (rest : List NftRule)
    → chain_verdict p (final_rule p.iifname verdict ∷ rest) ≡ verdict
unfolding chain_verdict matches
final_rule_lem p verdict rest = rw ((text_eq_iff p.iifname p.iifname).1 refl) refl

-- Behind the UDP list every packet of the sandbox is decided.
write_forward_egress_lem :
    (p : Packet) (transparent : Bool) (egress : EgressPolicy) {lines : List NftRule}
    → write_forward_egress p.iifname transparent egress ≡ ok lines
    → (rest : List NftRule)
    → chain_verdict p (lines ++ rest)
      ≡ (if egress_allows egress transparent p then accept else reject)
unfolding write_forward_egress
write_forward_egress_lem p transparent allow_all {lines} h rest =
    subst (λ l. chain_verdict p (l ++ rest) ≡ accept) (ok_injective h)
      (final_rule_lem p accept rest)
write_forward_egress_lem p transparent deny_all {lines} h rest =
    subst (λ l. chain_verdict p (l ++ rest) ≡ reject) (ok_injective h)
      (final_rule_lem p reject rest)
write_forward_egress_lem p transparent (rules list) {lines} h rest =
    let write : EgressRule → Result NetworkError (List NftRule) =
      λ rule. write_forward p.iifname transparent rule rule.protocol in
    let (allowed, e, made) = bind_ok (write_all write list) _ h in
    let accepts =
      write_all-Accepts p write (rule_allows transparent p)
        (λ rule lines. write_forward-Accepts p transparent rule rule.protocol lines) list e in
    subst
      (λ l.
        chain_verdict p (l ++ rest)
        ≡ (if any (rule_allows transparent p) list then accept else reject))
      (ok_injective made)
      (ap (chain_verdict p) (append_assoc allowed (final_rule p.iifname reject ∷ []) rest)
        ∙ accepts (final_rule p.iifname reject ∷ rest)
        ∙ ap (λ v. if any (rule_allows transparent p) list then accept else v)
            (final_rule_lem p reject rest))

if_or :
    (a b : Bool)
    → (if a then accept else if b then accept else reject) ≡ (if a || b then accept else reject)
if_or true b = refl
if_or false b = refl

-- When the forward rules of a sandbox are written, they accept a packet that comes in on its
-- interface exactly when its network spec allows the packet, and reject it otherwise, whatever rules
-- stand behind them.
pub write_forward_rules_lem :
    (p : Packet) (state : SandboxNetworkState) {lines : List NftRule} (rest : List NftRule)
    → p.iifname ≡ state.host_veth
    → write_forward_rules state ≡ ok lines
    → chain_verdict p (lines ++ rest) ≡ (if spec_forwards state.spec p then accept else reject)
unfolding write_forward_rules
write_forward_rules_lem p state {lines} rest own h =
    let here : write_forward_rules (record state { host_veth = p.iifname }) ≡ ok lines =
      subst (λ v. write_forward_rules (record state { host_veth = v }) ≡ ok lines) (sym own) h in
    let write : EgressRule → Result NetworkError (List NftRule) =
      λ rule. write_nft_rule p.iifname udp rule.destination rule.ports accept in
    let (udp_lines, e1, h1) = bind_ok (write_all write state.spec.udp.allow) _ here in
    let (egress_lines, e2, made) =
      bind_ok (write_forward_egress p.iifname state.spec.l7.transparent_tcp state.spec.egress) _
        h1 in
    let accepts =
      write_all-Accepts p write (udp_allows p)
        (λ rule lines. write_nft_rule-Accepts p udp rule.destination rule.ports)
        state.spec.udp.allow e1 in
    subst
      (λ l. chain_verdict p (l ++ rest) ≡ (if spec_forwards state.spec p then accept else reject))
      (ok_injective made)
      (ap (chain_verdict p) (append_assoc udp_lines egress_lines rest)
        ∙ accepts (egress_lines ++ rest)
        ∙ ap (λ v. if any (udp_allows p) state.spec.udp.allow then accept else v)
            (write_forward_egress_lem p state.spec.l7.transparent_tcp state.spec.egress e2 rest)
        ∙ if_or (any (udp_allows p) state.spec.udp.allow)
            (egress_allows state.spec.egress state.spec.l7.transparent_tcp p))
