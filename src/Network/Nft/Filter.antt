-- ===== src/Network/Nft/Filter.antt =====
-- What the rules of crates/oad/src/network.rs do to a packet, as nft documents it: the first rule of
-- a chain that matches decides, and the chain's policy is to accept. And what a network spec says
-- itself of a packet, without rules.
use omniagent.Prelude.{
  ℕ, Bool, true, false, not, ◌&&◌, ◌||◌, List, [], ◌∷◌, Text, text_eq, Result, ok, err, leb, ◌==◌,
  if◌then◌else◌, any,
}
use omniagent.Core.Spec.{
  Protocol, PortRange, EgressRule, EgressPolicy, allow_all, deny_all, rules, SandboxNetworkSpec,
}
use omniagent.Network.Cidr.{NetworkError, Ipv4Cidr, masked, parse_ipv4_cidr}
use omniagent.Network.Validate.{destination_cidr}
use omniagent.Network.Nft.{
  NftProtocol, tcp, udp, icmp, NftVerdict, accept, Matcher, anything, every, to_gateway, to_port,
  to_destination, NftRule,
}

pub data Payload : Type 0 where
  tcp_to udp_to : (port : ℕ) → Payload
  echo_request : Payload
  other_payload : Payload

pub record Packet : Type 0 where
  pub iifname : Text
  pub daddr : ℕ
  pub payload : Payload

in_block : ℕ → Result NetworkError Ipv4Cidr → Bool
in_block ip (ok block) = masked ip block.prefix == block.network
in_block ip (err e) = false

unfoldable pub in_cidr : ℕ → Text → Bool
unfolding in_block
in_cidr ip block = in_block ip (parse_ipv4_cidr block)

-- No ports stand for all of them.
unfoldable pub in_ports : ℕ → List PortRange → Bool
in_ports port [] = true
in_ports port (range ∷ more) = any (λ r. leb r.start port && leb port r.last) (range ∷ more)

unfoldable pub carries : Payload → NftProtocol → List PortRange → Bool
unfolding in_ports
carries (tcp_to port) tcp ports = in_ports port ports
carries (udp_to port) udp ports = in_ports port ports
carries echo_request icmp ports = true
carries p protocol ports = false

unfoldable pub matches : Packet → Matcher → Bool
unfolding carries in_cidr
matches p anything = true
matches p (every protocol) = carries p.payload protocol []
matches p (to_port protocol port) =
    carries p.payload protocol (record { start = port; last = port } ∷ [])
matches p (to_gateway host_ip envoy_port dns_port) =
    p.daddr == host_ip
    && carries p.payload tcp (
        record { start = envoy_port; last = envoy_port }
        ∷ record { start = dns_port; last = dns_port }
        ∷ [])
matches p (to_destination block protocol ports) =
    in_cidr p.daddr block && carries p.payload protocol ports

unfoldable pub chain_verdict : Packet → List NftRule → NftVerdict
unfolding matches
chain_verdict p [] = accept
chain_verdict p (rule ∷ more) =
    let rest = chain_verdict p more in
    if text_eq p.iifname rule.iifname && matches p rule.matcher then rule.verdict else rest

-- The protocols of a rule of the spec. TCP is left to the redirection where there is one.
abbrev pub covers : Protocol → Bool → Payload → List PortRange → Bool
covers Protocol.tcp transparent p ports = not transparent && carries p tcp ports
covers Protocol.udp transparent p ports = carries p udp ports
covers Protocol.icmp transparent p ports = carries p icmp []
covers Protocol.all transparent p ports =
    (not transparent && carries p tcp ports) || carries p udp ports || carries p icmp []

abbrev pub rule_allows : Bool → Packet → EgressRule → Bool
rule_allows transparent p rule =
    in_cidr p.daddr (destination_cidr rule.destination)
    && covers rule.protocol transparent p.payload rule.ports

abbrev pub udp_allows : Packet → EgressRule → Bool
udp_allows p rule =
    in_cidr p.daddr (destination_cidr rule.destination) && carries p.payload udp rule.ports

abbrev pub egress_allows : EgressPolicy → Bool → Packet → Bool
egress_allows allow_all transparent p = true
egress_allows deny_all transparent p = false
egress_allows (rules list) transparent p = any (rule_allows transparent p) list

-- Whether a packet of the sandbox is to be forwarded by the spec: by a rule of its UDP list, or by its
-- egress policy. Where TCP is redirected to the proxy (`transparent_tcp`), an egress rule forwards no
-- TCP: what the rule allows goes through the proxy.
abbrev pub spec_forwards : SandboxNetworkSpec → Packet → Bool
spec_forwards spec p =
    any (udp_allows p) spec.udp.allow || egress_allows spec.egress spec.l7.transparent_tcp p
