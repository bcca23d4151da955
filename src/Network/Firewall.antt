-- ===== src/Network/Firewall.antt =====
-- The host's own firewall: the `iptables` rules that crates/oad/src/network.rs puts before the
-- host's for each sandbox. The `iptables` program is an argument, with a table of any type T, and so
-- is the port of a `SocketAddr` (its text's parse and `port()`).
pub mod Ensure
use omniagent.Prelude.{
  ℕ, Bool, true, false, Option, none, some, List, [], ◌∷◌, ◌++◌, Text, codes, Result, ok, err,
  ◌>>=◌,
}
use omniagent.Core.Ids.{SandboxId}
use omniagent.Core.Spec.{NetworkRuntimeConfig}
use omniagent.Network.Cidr.{NetworkError, addr_parse, or_err}
use omniagent.Network.Hash.{decimal}
use omniagent.Network.Display.{ipv4_text}
use omniagent.Network.Alloc.{SandboxNetworkState}

pub record HostFirewallRule : Type 0 where
  pub chain : Text
  pub args : List Text

unfoldable pub invocation : HostFirewallRule → Text → List Text → List Text
invocation self op extra = codes "-w" ∷ codes "2" ∷ op ∷ self.chain ∷ [] ++ extra ++ self.args

unfoldable pub host_input_accept_rule :
    SandboxNetworkState → Text → Text → Text → Text → Text → HostFirewallRule
host_input_accept_rule state source destination protocol port comment = record {
  chain = codes "INPUT";
  args =
      codes "-i"
      ∷ state.host_veth
      ∷ codes "-s"
      ∷ source
      ∷ codes "-d"
      ∷ destination
      ∷ codes "-p"
      ∷ protocol
      ∷ codes "--dport"
      ∷ port
      ∷ codes "-m"
      ∷ codes "comment"
      ∷ codes "--comment"
      ∷ comment
      ∷ codes "-j"
      ∷ codes "ACCEPT"
      ∷ [];
}

unfoldable pub host_forward_out_rule : SandboxNetworkState → Text → Text → HostFirewallRule
host_forward_out_rule state source comment = record {
  chain = codes "FORWARD";
  args =
      codes "-i"
      ∷ state.host_veth
      ∷ codes "-s"
      ∷ source
      ∷ codes "-m"
      ∷ codes "comment"
      ∷ codes "--comment"
      ∷ comment
      ∷ codes "-j"
      ∷ codes "ACCEPT"
      ∷ [];
}

unfoldable pub host_forward_in_rule : SandboxNetworkState → Text → Text → HostFirewallRule
host_forward_in_rule state sandbox_destination comment = record {
  chain = codes "FORWARD";
  args =
      codes "-o"
      ∷ state.host_veth
      ∷ codes "-d"
      ∷ sandbox_destination
      ∷ codes "-m"
      ∷ codes "conntrack"
      ∷ codes "--ctstate"
      ∷ codes "RELATED,ESTABLISHED"
      ∷ codes "-m"
      ∷ codes "comment"
      ∷ codes "--comment"
      ∷ comment
      ∷ codes "-j"
      ∷ codes "ACCEPT"
      ∷ [];
}

-- The five rules for the two ports that were parsed.
unfoldable pub rules_for : SandboxNetworkState → Text → Text → List HostFirewallRule
unfolding host_input_accept_rule host_forward_out_rule host_forward_in_rule ipv4_text
rules_for state dns_port envoy_port =
    let source = ipv4_text state.sandbox_ip ++ codes "/32" in
    let destination = ipv4_text state.host_ip ++ codes "/32" in
    let comment_prefix = codes "oad:" ++ state.sandbox_id.as_str in
    host_input_accept_rule state source destination (codes "udp") dns_port
      (comment_prefix ++ codes ":dns-udp")
    ∷ host_input_accept_rule state source destination (codes "tcp") dns_port
        (comment_prefix ++ codes ":dns-tcp")
    ∷ host_input_accept_rule state source destination (codes "tcp") envoy_port
        (comment_prefix ++ codes ":envoy-tcp")
    ∷ host_forward_out_rule state source (comment_prefix ++ codes ":forward-out")
    ∷ host_forward_in_rule state source (comment_prefix ++ codes ":forward-in")
    ∷ []

unfoldable pub host_firewall_rules :
    (Text → Option ℕ)
    → NetworkRuntimeConfig
    → SandboxNetworkState
    → Result NetworkError (List HostFirewallRule)
unfolding rules_for
host_firewall_rules port_of config state = do
  dns_port ← or_err addr_parse (port_of config.dns_listener)
  envoy_port ← or_err addr_parse (port_of config.envoy_listener)
  ok (rules_for state (decimal dns_port) (decimal envoy_port))

-- `iptables_program`, `command_succeeds` and `run` over the host's table.
pub record Iptables (T : Type 0) : Type 0 where
  pub program : Option Text
  pub command_succeeds : Text → List Text → T → Bool
  pub run : Text → List Text → T → T × Result NetworkError (Unit {0})

unfoldable pub is_installed : {T : Type 0} → Iptables T → Text → HostFirewallRule → T → Bool
unfolding invocation
is_installed ipt program rule t = ipt.command_succeeds program (invocation rule (codes "-C") []) t

unfoldable pub insert_rule :
    {T : Type 0} → Iptables T → Text → HostFirewallRule → T → T × Result NetworkError (Unit {0})
unfolding invocation
insert_rule ipt program rule t = ipt.run program (invocation rule (codes "-I") (codes "1" ∷ [])) t

unfoldable pub remove_rule : {T : Type 0} → Iptables T → Text → HostFirewallRule → T → T
unfolding invocation
remove_rule ipt program rule t = (ipt.run program (invocation rule (codes "-D") []) t).0

-- The loop of `ensure_host_firewall_rules`: the first insertion that fails ends it.
unfoldable pub ensure_rules :
    {T : Type 0}
    → Iptables T
    → Text
    → List HostFirewallRule
    → T
    → T × Result NetworkError (Unit {0})
unfolding is_installed insert_rule
ensure_rules ipt program [] t = (t, ok tt)
ensure_rules ipt program (rule ∷ rules) t = elim (is_installed ipt program rule t) [
  | true ↦ ensure_rules ipt program rules t
  | false ↦ elim (insert_rule ipt program rule t).1 [
    | ok u ↦ ensure_rules ipt program rules (insert_rule ipt program rule t).0
    | err e ↦ ((insert_rule ipt program rule t).0, err e)
  ]
]

unfoldable pub delete_rules : {T : Type 0} → Iptables T → Text → List HostFirewallRule → T → T
unfolding remove_rule
delete_rules ipt program [] t = t
delete_rules ipt program (rule ∷ rules) t =
    delete_rules ipt program rules (remove_rule ipt program rule t)

unfoldable pub ensure_host_firewall_rules :
    {T : Type 0}
    → Iptables T
    → (Text → Option ℕ)
    → NetworkRuntimeConfig
    → SandboxNetworkState
    → T
    → T × Result NetworkError (Unit {0})
unfolding ensure_rules host_firewall_rules
ensure_host_firewall_rules ipt port_of config state t = elim ipt.program [
  | none ↦ (t, ok tt)
  | some program ↦ elim (host_firewall_rules port_of config state) [
    | ok rules ↦ ensure_rules ipt program rules t
    | err e ↦ (t, err e)
  ]
]

unfoldable pub delete_host_firewall_rules :
    {T : Type 0}
    → Iptables T
    → (Text → Option ℕ)
    → NetworkRuntimeConfig
    → SandboxNetworkState
    → T
    → T × Result NetworkError (Unit {0})
unfolding delete_rules host_firewall_rules
delete_host_firewall_rules ipt port_of config state t = elim ipt.program [
  | none ↦ (t, ok tt)
  | some program ↦ elim (host_firewall_rules port_of config state) [
    | ok rules ↦ (delete_rules ipt program rules t, ok tt)
    | err e ↦ (t, err e)
  ]
]
