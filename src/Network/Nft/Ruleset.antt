-- ===== src/Network/Nft/Ruleset.antt =====
-- The whole nft table: `render_nft_ruleset` of crates/oad/src/network.rs. The port of a `SocketAddr`
-- (its text's parse and `port()`) is an argument.
use omniagent.Prelude.{
  ℕ, Option, List, [], ◌∷◌, ◌++◌, map, Text, codes, Result, ok, ◌>>=◌, if◌then◌else◌,
}
use omniagent.Core.Spec.{NetworkRuntimeConfig}
use omniagent.Network.Cidr.{NetworkError, Ipv4Cidr, addr_parse, or_err, parse_ipv4_cidr}
use omniagent.Network.Hash.{decimal}
use omniagent.Network.Display.{ipv4_text, cidr_text}
use omniagent.Network.Alloc.{SandboxNetworkState}
use omniagent.Network.Nft.{
  tcp, udp, accept, reject, redirect_to, to_port, to_gateway, NftRule, rule_line,
  write_tcp_redirect_rules, write_forward_rules,
}

dns_redirects : SandboxNetworkState → ℕ → List NftRule
dns_redirects state dns_port =
    if state.spec.udp.dns_redirect
    then record {
      iifname = state.host_veth;
      matcher = to_port udp 53;
      verdict = redirect_to dns_port;
    }
      ∷ record {
        iifname = state.host_veth;
        matcher = to_port tcp 53;
        verdict = redirect_to dns_port;
      }
      ∷ []
    else []

abbrev gateway_rule : SandboxNetworkState → ℕ → ℕ → NftRule
gateway_rule state envoy_port dns_port = record {
  iifname = state.host_veth;
  matcher = to_gateway state.host_ip envoy_port dns_port;
  verdict = accept;
}

-- What the loops over the states write for one of them, a loop for each chain.
unfoldable pub prerouting_for : ℕ → ℕ → SandboxNetworkState → Result NetworkError (List NftRule)
unfolding dns_redirects write_tcp_redirect_rules
prerouting_for envoy_port dns_port state =
    if state.spec.l7.transparent_tcp
    then (write_tcp_redirect_rules state envoy_port >>= λ redirects.
        ok (dns_redirects state dns_port ++ gateway_rule state envoy_port dns_port ∷ redirects))
    else ok (dns_redirects state dns_port)

unfoldable pub quic_rules : SandboxNetworkState → List NftRule
quic_rules state =
    if state.spec.udp.block_quic
    then record { iifname = state.host_veth; matcher = to_port udp 443; verdict = reject } ∷ []
    else []

unfoldable pub forward_for : SandboxNetworkState → Result NetworkError (List NftRule)
unfolding quic_rules write_forward_rules
forward_for state = write_forward_rules state >>= λ lines. ok (quic_rules state ++ lines)

unfoldable pub for_all :
    (SandboxNetworkState → Result NetworkError (List NftRule))
    → List SandboxNetworkState
    → Result NetworkError (List NftRule)
for_all write [] = ok []
for_all write (state ∷ states) =
    write state >>= λ lines. for_all write states >>= λ rest. ok (lines ++ rest)

unfoldable pub input_lines : ℕ → ℕ → List SandboxNetworkState → List Text
unfolding ipv4_text decimal
input_lines envoy_port dns_port [] = []
input_lines envoy_port dns_port (state ∷ states) =
    let from =
      codes "    iifname \""
      ++ state.host_veth
      ++ codes "\" ip saddr "
      ++ ipv4_text state.sandbox_ip
      ++ codes " ip daddr "
      ++ ipv4_text state.host_ip in
    (from ++ codes " udp dport " ++ decimal dns_port ++ codes " accept")
    ∷ (from
        ++ codes " tcp dport { "
        ++ decimal envoy_port
        ++ codes ", "
        ++ decimal dns_port
        ++ codes " } accept")
    ∷ input_lines envoy_port dns_port states

-- Every line with the newline that `writeln!` adds.
unfoldable pub joined : List Text → Text
joined [] = []
joined (line ∷ lines) = line ++ codes "\n" ++ joined lines

unfoldable pub ruleset_lines :
    Ipv4Cidr → ℕ → ℕ → List SandboxNetworkState → List NftRule → List NftRule → List Text
unfolding input_lines rule_line cidr_text
ruleset_lines cidr envoy_port dns_port states prerouting forward =
    codes "add table inet oad"
      ∷ codes "delete table inet oad"
      ∷ codes "table inet oad {"
      ∷ codes "  chain prerouting { type nat hook prerouting priority dstnat; policy accept;"
      ∷ []
    ++ map rule_line prerouting
    ++ codes "  }"
      ∷ codes "  chain input { type filter hook input priority -300; policy accept;"
      ∷ []
    ++ input_lines envoy_port dns_port states
    ++ codes "  }"
      ∷ codes "  chain forward { type filter hook forward priority -300; policy accept;"
      ∷ []
    ++ map rule_line forward
    ++ codes "  }"
      ∷ codes "  chain postrouting { type nat hook postrouting priority srcnat; policy accept;"
      ∷ (codes "    ip saddr " ++ cidr_text cidr ++ codes " masquerade")
      ∷ codes "  }"
      ∷ codes "}"
      ∷ []

unfoldable pub render_nft_ruleset :
    (Text → Option ℕ) → NetworkRuntimeConfig → List SandboxNetworkState → Result NetworkError Text
unfolding for_all prerouting_for forward_for ruleset_lines joined
render_nft_ruleset port_of config states = do
  cidr ← parse_ipv4_cidr config.sandbox_cidr
  envoy_port ← or_err addr_parse (port_of config.envoy_listener)
  dns_port ← or_err addr_parse (port_of config.dns_listener)
  prerouting ← for_all (prerouting_for envoy_port dns_port) states
  forward ← for_all forward_for states
  ok (joined (ruleset_lines cidr envoy_port dns_port states prerouting forward))
