-- ===== src/Network/Nft.antt =====
-- The rules of the nft table: `write_nft_rule`, `nft_port_set`, `write_tcp_redirect_rules` and
-- `write_forward_rules` of crates/oad/src/network.rs. A rule is a record here, and `rule_line` is the
-- text that the source writes for it; a function that writes into `out` returns the lines it adds.
pub mod Ruleset
pub mod Filter
pub mod Forward
pub mod Isolation
pub mod Total
use omniagent.Prelude.{
  ℕ, Bool, true, false, Option, none, some, List, [], ◌∷◌, ◌++◌, Text, codes, Result, ok, err,
  ◌>>=◌, ◌==◌, if◌then◌else◌,
}
use omniagent.Core.Spec.{
  EgressDestination, cidr, Protocol, PortRange, EgressRule, EgressPolicy, allow_all, deny_all,
  rules, SandboxNetworkSpec,
}
use omniagent.Network.Cidr.{NetworkError, parse_ipv4_cidr}
use omniagent.Network.Hash.{decimal}
use omniagent.Network.Display.{ipv4_text}
use omniagent.Network.Alloc.{SandboxNetworkState}

-- The protocols that `write_nft_rule` is called with.
pub data NftProtocol : Type 0 where
  tcp udp icmp : NftProtocol

pub data NftVerdict : Type 0 where
  accept reject : NftVerdict
  redirect_to : (port : ℕ) → NftVerdict

-- What a rule looks at behind the interface: nothing, a destination with its ports, or the gateway's two ports, or a port
-- of a protocol alone.
pub data Matcher : Type 0 where
  anything : Matcher
  every : NftProtocol → Matcher
  to_gateway : (host_ip envoy_port dns_port : ℕ) → Matcher
  to_port : NftProtocol → (port : ℕ) → Matcher
  to_destination : (cidr : Text) → NftProtocol → (ports : List PortRange) → Matcher

pub record NftRule : Type 0 where
  pub iifname : Text
  pub matcher : Matcher
  pub verdict : NftVerdict

abbrev pub protocol_text : NftProtocol → Text
protocol_text tcp = codes "tcp"
protocol_text udp = codes "udp"
protocol_text icmp = codes "icmp"

unfoldable pub verdict_text : NftVerdict → Text
unfolding decimal
verdict_text accept = codes "accept"
verdict_text reject = codes "reject"
verdict_text (redirect_to port) = codes "redirect to :" ++ decimal port

unfoldable pub port_text : PortRange → Text
unfolding decimal
port_text port =
    if port.start == port.last
    then decimal port.start
    else decimal port.start ++ codes "-" ++ decimal port.last

-- The ranges behind the first, each behind a comma.
unfoldable pub more_ports : List PortRange → Text
unfolding port_text
more_ports [] = []
more_ports (port ∷ ports) = codes ", " ++ port_text port ++ more_ports ports

unfoldable pub nft_port_set : List PortRange → Text
unfolding port_text more_ports decimal
nft_port_set [] = codes "{  }"
nft_port_set (port ∷ []) =
    if port.start == port.last
    then decimal port.start
    else codes "{ " ++ port_text port ++ codes " }"
nft_port_set (port ∷ next ∷ ports) =
    codes "{ " ++ port_text port ++ more_ports (next ∷ ports) ++ codes " }"

unfoldable pub matcher_text : Matcher → Text
unfolding nft_port_set decimal ipv4_text
matcher_text anything = []
matcher_text (every protocol) = codes "meta l4proto " ++ protocol_text protocol ++ codes " "
matcher_text (to_port protocol port) =
    protocol_text protocol ++ codes " dport " ++ decimal port ++ codes " "
matcher_text (to_gateway host_ip envoy_port dns_port) =
    codes "ip daddr "
    ++ ipv4_text host_ip
    ++ codes " tcp dport { "
    ++ decimal envoy_port
    ++ codes ", "
    ++ decimal dns_port
    ++ codes " } "
matcher_text (to_destination block icmp ports) =
    codes "ip daddr " ++ block ++ codes " icmp type echo-request "
matcher_text (to_destination block protocol []) =
    codes "ip daddr " ++ block ++ codes " meta l4proto " ++ protocol_text protocol ++ codes " "
matcher_text (to_destination block protocol (port ∷ ports)) =
    codes "ip daddr "
    ++ block
    ++ codes " "
    ++ protocol_text protocol
    ++ codes " dport "
    ++ nft_port_set (port ∷ ports)
    ++ codes " "

unfoldable pub rule_line : NftRule → Text
unfolding matcher_text verdict_text
rule_line rule =
    codes "    iifname \""
    ++ rule.iifname
    ++ codes "\" "
    ++ matcher_text rule.matcher
    ++ verdict_text rule.verdict

unfoldable pub write_nft_rule :
    Text
    → NftProtocol
    → EgressDestination
    → List PortRange
    → NftVerdict
    → Result NetworkError (List NftRule)
write_nft_rule iifname protocol (cidr block) ports verdict = do
  parsed ← parse_ipv4_cidr block
  ok (
      record { iifname = iifname; matcher = to_destination block protocol ports; verdict = verdict }
      ∷ [])

-- One rule of an egress list, in the chain that redirects TCP.
unfoldable pub write_tcp_redirect :
    Text → ℕ → EgressRule → Protocol → Result NetworkError (List NftRule)
unfolding write_nft_rule
write_tcp_redirect veth envoy_port rule Protocol.tcp =
    write_nft_rule veth tcp rule.destination rule.ports (redirect_to envoy_port)
write_tcp_redirect veth envoy_port rule Protocol.all =
    write_nft_rule veth tcp rule.destination rule.ports (redirect_to envoy_port)
write_tcp_redirect veth envoy_port rule Protocol.udp = ok []
write_tcp_redirect veth envoy_port rule Protocol.icmp = ok []

-- A loop over the rules of a list, whose first error ends it.
unfoldable pub write_all :
    (EgressRule → Result NetworkError (List NftRule))
    → List EgressRule
    → Result NetworkError (List NftRule)
write_all write [] = ok []
write_all write (rule ∷ more) =
    write rule >>= λ lines. write_all write more >>= λ rest. ok (lines ++ rest)

unfoldable pub write_tcp_redirect_egress :
    Text → ℕ → EgressPolicy → Result NetworkError (List NftRule)
unfolding write_all write_tcp_redirect
write_tcp_redirect_egress veth envoy_port allow_all =
    ok (record { iifname = veth; matcher = every tcp; verdict = redirect_to envoy_port } ∷ [])
write_tcp_redirect_egress veth envoy_port deny_all = ok []
write_tcp_redirect_egress veth envoy_port (rules list) =
    write_all (λ rule. write_tcp_redirect veth envoy_port rule rule.protocol) list

unfoldable pub write_tcp_redirect_rules :
    SandboxNetworkState → ℕ → Result NetworkError (List NftRule)
unfolding write_tcp_redirect_egress
write_tcp_redirect_rules state envoy_port =
    write_tcp_redirect_egress state.host_veth envoy_port state.spec.egress

-- TCP is accepted here only where it is not redirected.
unfoldable pub write_forward_tcp : Text → Bool → EgressRule → Result NetworkError (List NftRule)
unfolding write_nft_rule
write_forward_tcp veth transparent_tcp rule =
    if transparent_tcp then ok [] else write_nft_rule veth tcp rule.destination rule.ports accept

unfoldable pub write_forward :
    Text → Bool → EgressRule → Protocol → Result NetworkError (List NftRule)
unfolding write_nft_rule write_forward_tcp
write_forward veth transparent_tcp rule Protocol.tcp = write_forward_tcp veth transparent_tcp rule
write_forward veth transparent_tcp rule Protocol.udp =
    write_nft_rule veth udp rule.destination rule.ports accept
write_forward veth transparent_tcp rule Protocol.icmp =
    write_nft_rule veth icmp rule.destination [] accept
write_forward veth transparent_tcp rule Protocol.all =
    write_forward_tcp veth transparent_tcp rule >>= λ a.
    write_nft_rule veth udp rule.destination rule.ports accept >>= λ b.
    write_nft_rule veth icmp rule.destination [] accept >>= λ c. ok (a ++ b ++ c)

abbrev pub final_rule : Text → NftVerdict → NftRule
final_rule veth verdict = record { iifname = veth; matcher = anything; verdict = verdict }

unfoldable pub write_forward_egress :
    Text → Bool → EgressPolicy → Result NetworkError (List NftRule)
unfolding write_all write_forward
write_forward_egress veth transparent_tcp allow_all = ok (final_rule veth accept ∷ [])
write_forward_egress veth transparent_tcp deny_all = ok (final_rule veth reject ∷ [])
write_forward_egress veth transparent_tcp (rules list) =
    write_all (λ rule. write_forward veth transparent_tcp rule rule.protocol) list >>= λ lines.
    ok (lines ++ final_rule veth reject ∷ [])

unfoldable pub write_forward_rules : SandboxNetworkState → Result NetworkError (List NftRule)
unfolding write_all write_nft_rule write_forward_egress
write_forward_rules state =
    write_all (λ rule. write_nft_rule state.host_veth udp rule.destination rule.ports accept)
      state.spec.udp.allow
    >>= λ lines.
        write_forward_egress state.host_veth state.spec.l7.transparent_tcp state.spec.egress
        >>= λ rest. ok (lines ++ rest)
