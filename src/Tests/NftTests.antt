-- ===== src/Tests/NftTests.antt =====
-- crates/oad/src/network.rs, the nft table: two sandboxes of the default CIDR.
use omniagent.Prelude.{
  ◌≡◌, ◌≢◌, arith, refl, true, false, Option, some, List, [], ◌∷◌, ◌++◌, map, Text, codes, ok, ℕ,
  text_eq, text_eq_iff, if◌then◌else◌,
}
use omniagent.Core.Spec.{
  SandboxNetworkSpec, NetworkRuntimeConfig, default_network_spec, netstack, rules, cidr, Protocol,
}
use omniagent.Network.Cidr.{Ipv4Cidr, parse_ipv4_cidr, or_err}
use omniagent.Network.Hash.{decimal}
use omniagent.Network.Display.{ipv4_text, cidr_text}
use omniagent.Network.Validate.{validate_spec}
use omniagent.Network.Alloc.{SandboxNetworkState, made_state}
use omniagent.Network.Alloc.Apart.{IsMade, IsDistinct, made-IsApart}
use omniagent.Network.Nft.{
  accept, reject, NftRule, rule_line, final_rule, to_destination, to_port, tcp, udp,
  write_forward_rules, nft_port_set,
}
use omniagent.Network.Nft.Filter.{Packet, tcp_to, chain_verdict, in_cidr, carries}
use omniagent.Network.Nft.Forward.{write_forward_rules_lem}
use omniagent.Network.Nft.Isolation.{forward_chain_lem}
use omniagent.Network.Nft.Ruleset.{render_nft_ruleset, for_all, forward_for, joined}
use omniagent.Network.Nft.Total.{render_nft_ruleset-total}

abbrev block : Ipv4Cidr
block = record { network = 173670400; prefix = 16 }

-- HTTPS to 10.1.0.0/16 and nothing else, without redirection.
abbrev https_only : SandboxNetworkSpec
https_only = record default_network_spec {
  egress = rules (
      record {
        destination = cidr (codes "10.1.0.0/16");
        protocol = Protocol.tcp;
        ports = record { start = 443; last = 443 } ∷ record { start = 8000; last = 8080 } ∷ [];
      }
      ∷ []);
  l7 = record { transparent_tcp = false };
}

abbrev web_state : SandboxNetworkState
web_state =
    made_state (record { as_str = codes "web" }) https_only 0 (173670401, 173670402)
      (codes "0000000001")

abbrev api_state : SandboxNetworkState
api_state =
    made_state (record { as_str = codes "api" }) default_network_spec 1 (173670405, 173670406)
      (codes "0000000002")

-- To 10.1.2.3, from the sandbox `web`.
abbrev packet : Packet
packet = record { iifname = codes "oadh0000000001"; daddr = 167838211; payload = tcp_to 8001 }

abbrev web_rules : List NftRule
web_rules =
    record {
      iifname = codes "oadh0000000001";
      matcher =
          to_destination (codes "10.1.0.0/16") tcp
            (record { start = 443; last = 443 } ∷ record { start = 8000; last = 8080 } ∷ []);
      verdict = accept;
    }
    ∷ final_rule (codes "oadh0000000001") reject
    ∷ []

web_written : write_forward_rules web_state ≡ ok web_rules
unfolding write_forward_rules parse_ipv4_cidr made_state
web_written = refl

web_lines :
    map rule_line web_rules
    ≡ codes
        "    iifname \"oadh0000000001\" ip daddr 10.1.0.0/16 tcp dport { 443, 8000-8080 } accept"
      ∷ codes "    iifname \"oadh0000000001\" reject"
      ∷ []
unfolding rule_line nft_port_set decimal
web_lines = refl

web_accepts_8001 : chain_verdict packet (web_rules ++ []) ≡ accept
unfolding made_state in_cidr carries parse_ipv4_cidr
web_accepts_8001 = write_forward_rules_lem packet web_state [] refl web_written

web-IsMade : IsMade block web_state
unfolding made_state
web-IsMade = record { inside = omega arith; host = refl; sandbox = refl; netns = refl; veth = refl }

api-IsMade : IsMade block api_state
unfolding made_state
api-IsMade = record { inside = omega arith; host = refl; sandbox = refl; netns = refl; veth = refl }

other_tokens : web_state.token ≢ api_state.token
unfolding made_state text_eq
other_tokens h = let same : false ≡ true = (text_eq_iff web_state.token api_state.token).1 h in cc

both-IsDistinct : IsDistinct block (web_state ∷ api_state ∷ [])
unfolding made_state
both-IsDistinct = (
  web-IsMade,
  (
    made-IsApart block web_state api_state web-IsMade api-IsMade (λ h. omega arith) other_tokens,
    tt,
  ),
  (api-IsMade, tt, tt),
)

abbrev no_quic : Text → NftRule
no_quic veth = record { iifname = veth; matcher = to_port udp 443; verdict = reject }

abbrev both_rules : List NftRule
both_rules =
    no_quic (codes "oadh0000000001") ∷ web_rules
    ++ no_quic (codes "oadh0000000002") ∷ final_rule (codes "oadh0000000002") accept ∷ []

both_written : for_all forward_for (web_state ∷ api_state ∷ []) ≡ ok both_rules
unfolding for_all forward_for parse_ipv4_cidr made_state
both_written = refl

forward_chain_lem_example : chain_verdict packet both_rules ≡ accept
unfolding made_state in_cidr carries parse_ipv4_cidr
forward_chain_lem_example =
    forward_chain_lem block packet (web_state ∷ api_state ∷ []) 0 web_state both-IsDistinct refl
      refl both_written

abbrev config : NetworkRuntimeConfig
config = record {
  enabled = true;
  backend = netstack;
  sandbox_cidr = codes "10.90.0.0/16";
  envoy_listener = codes "0.0.0.0:15001";
  dns_listener = codes "0.0.0.0:15053";
  dns_upstream = codes "1.1.1.1:53";
}

-- The port of the two listeners above.
port_of : Text → Option ℕ
unfolding text_eq
port_of value = if text_eq value config.envoy_listener then some 15001 else some 15053

config_parses : parse_ipv4_cidr config.sandbox_cidr ≡ ok block
unfolding parse_ipv4_cidr
config_parses = refl

web_valid : validate_spec https_only ≡ ok tt
unfolding validate_spec parse_ipv4_cidr
web_valid = refl

api_valid : validate_spec default_network_spec ≡ ok tt
unfolding validate_spec parse_ipv4_cidr
api_valid = refl

render_nft_ruleset-total_example :
    (text : Text) × (render_nft_ruleset port_of config (web_state ∷ api_state ∷ []) ≡ ok text)
unfolding port_of made_state
render_nft_ruleset-total_example =
    render_nft_ruleset-total port_of config (web_state ∷ api_state ∷ []) config_parses refl refl
      (web_valid, (api_valid, tt))

-- The whole table of the sandbox `api`.
api_table :
    render_nft_ruleset port_of config (api_state ∷ [])
    ≡ ok (
        joined (
          codes "add table inet oad"
          ∷ codes "delete table inet oad"
          ∷ codes "table inet oad {"
          ∷ codes "  chain prerouting { type nat hook prerouting priority dstnat; policy accept;"
          ∷ codes "    iifname \"oadh0000000002\" udp dport 53 redirect to :15053"
          ∷ codes "    iifname \"oadh0000000002\" tcp dport 53 redirect to :15053"
          ∷ codes
              "    iifname \"oadh0000000002\" ip daddr 10.90.0.5 tcp dport { 15001, 15053 } accept"
          ∷ codes "    iifname \"oadh0000000002\" meta l4proto tcp redirect to :15001"
          ∷ codes "  }"
          ∷ codes "  chain input { type filter hook input priority -300; policy accept;"
          ∷ codes
              "    iifname \"oadh0000000002\" ip saddr 10.90.0.6 ip daddr 10.90.0.5 udp dport 15053 accept"
          ∷ codes
              "    iifname \"oadh0000000002\" ip saddr 10.90.0.6 ip daddr 10.90.0.5 tcp dport { 15001, 15053 } accept"
          ∷ codes "  }"
          ∷ codes "  chain forward { type filter hook forward priority -300; policy accept;"
          ∷ codes "    iifname \"oadh0000000002\" udp dport 443 reject"
          ∷ codes "    iifname \"oadh0000000002\" accept"
          ∷ codes "  }"
          ∷ codes "  chain postrouting { type nat hook postrouting priority srcnat; policy accept;"
          ∷ codes "    ip saddr 10.90.0.0/16 masquerade"
          ∷ codes "  }"
          ∷ codes "}"
          ∷ []))
unfolding render_nft_ruleset joined parse_ipv4_cidr or_err port_of made_state decimal ipv4_text
    cidr_text
api_table = refl
