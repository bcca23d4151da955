-- ===== src/Tests/FirewallTests.antt =====
-- crates/oad/src/network.rs, the host's firewall: over a table that is a set of rules.
use omniagent.Prelude.{
  ◌≢◌, ◌≡◌, refl, sym, ap, Bool, true, false, not, ◌&&◌, ◌||◌, Option, some, List, [], ◌∷◌, arith,
  Text, codes, ok, err, text_eq, text_eq_iff, if◌then◌else◌, ℕ, Result, Bool-cases, inl, inr,
}
use omniagent.Core.Spec.{NetworkRuntimeConfig, default_network_spec, netstack}
use omniagent.Network.Cidr.{NetworkError, command_failed, or_err}
use omniagent.Network.Alloc.{SandboxNetworkState, made_state}
use omniagent.Network.Hash.{decimal}
use omniagent.Network.Firewall.{
  HostFirewallRule, Iptables, host_firewall_rules, rules_for, is_installed, insert_rule,
  remove_rule, ensure_rules, ensure_host_firewall_rules, delete_host_firewall_rules,
}
use omniagent.Network.Firewall.Ensure.{
  IsIptables, AllInstalled, ensure_host_firewall_rules_idempotent, delete_host_firewall_rules_local,
}

rows_eq : List Text → List Text → Bool
rows_eq [] [] = true
rows_eq [] (b ∷ t) = false
rows_eq (a ∷ s) [] = false
rows_eq (a ∷ s) (b ∷ t) = text_eq a b && rows_eq s t

rows_eq_refl : (s : List Text) → rows_eq s s ≡ true
unfolding rows_eq
rows_eq_refl [] = refl
rows_eq_refl (a ∷ s) = rw ((text_eq_iff a a).1 refl, rows_eq_refl s) refl

rows_eq_sound : (s t : List Text) → rows_eq s t ≡ true → s ≡ t
unfolding rows_eq
rows_eq_sound [] [] h = refl
rows_eq_sound [] (b ∷ t) h = cc
rows_eq_sound (a ∷ s) [] h = cc
rows_eq_sound (a ∷ s) (b ∷ t) h = ground (arith, text_eq_iff a b, rows_eq_sound s t)

abbrev Table : Type 0
Table = List Text → Bool

run_table : Text → List Text → Table → Table × Result NetworkError (Unit {0})
unfolding rows_eq
run_table program (w ∷ two ∷ op ∷ chain ∷ args) t =
    if text_eq op (codes "-D")
    then ((λ row. not (rows_eq (chain ∷ args) row) && t row), ok tt)
    else elim args [
      | [] ↦ (t, err (command_failed program []))
      | position ∷ body ↦ ((λ row. rows_eq (chain ∷ body) row || t row), ok tt)
    ]
run_table program args t = (t, err (command_failed program args))

check_table : Text → List Text → Table → Bool
check_table program (w ∷ two ∷ op ∷ row) t = t row
check_table program args t = false

abbrev table_iptables : Iptables Table
table_iptables = record {
  program = some (codes "iptables-nft");
  command_succeeds = check_table;
  run = run_table;
}

rule_of : List Text → HostFirewallRule
rule_of [] = record { chain = []; args = [] }
rule_of (chain ∷ args) = record { chain = chain; args = args }

delete_keeps_row :
    (rule other : HostFirewallRule) (t : Table)
    → other ≢ rule
    → t (other.chain ∷ other.args) ≡ true
    → not (rows_eq (rule.chain ∷ rule.args) (other.chain ∷ other.args))
        && t (other.chain ∷ other.args)
      ≡ true
unfolding rule_of
delete_keeps_row rule other t apart h =
    elim (Bool-cases (rows_eq (rule.chain ∷ rule.args) (other.chain ∷ other.args))) [
      | inl same ↦ absurd (
          apart (
            sym (
              ap rule_of (rows_eq_sound (rule.chain ∷ rule.args) (other.chain ∷ other.args) same))))
      | inr differ ↦ rw (differ, h) refl
    ]

table-IsIptables : IsIptables table_iptables
unfolding run_table check_table is_installed insert_rule remove_rule text_eq
table-IsIptables = record {
  inserted = λ program rule t h. rw (rows_eq_refl (rule.chain ∷ rule.args)) refl;
  insert_keeps = λ program rule other t h. rw (h) (ground arith);
  delete_keeps = λ program rule other t apart h. delete_keeps_row rule other t apart h;
}

abbrev config : NetworkRuntimeConfig
config = record {
  enabled = true;
  backend = netstack;
  sandbox_cidr = codes "10.90.0.0/16";
  envoy_listener = codes "0.0.0.0:15001";
  dns_listener = codes "0.0.0.0:15053";
  dns_upstream = codes "1.1.1.1:53";
}

-- The port of the two listeners above.
port_of : Text → Option ℕ
unfolding text_eq
port_of value = if text_eq value config.envoy_listener then some 15001 else some 15053

abbrev web_state : SandboxNetworkState
web_state =
    made_state (record { as_str = codes "web" }) default_network_spec 0 (173670401, 173670402)
      (codes "0000000001")

abbrev api_state : SandboxNetworkState
api_state =
    made_state (record { as_str = codes "api" }) default_network_spec 1 (173670405, 173670406)
      (codes "0000000002")

abbrev rules : SandboxNetworkState → List HostFirewallRule
rules state = rules_for state (codes "15053") (codes "15001")

web_rules : host_firewall_rules port_of config web_state ≡ ok (rules web_state)
unfolding host_firewall_rules port_of decimal or_err
web_rules = refl

api_rules : host_firewall_rules port_of config api_state ≡ ok (rules api_state)
unfolding host_firewall_rules port_of decimal or_err
api_rules = refl

abbrev empty_table : Table
empty_table row = false

abbrev web_table : Table
web_table = (ensure_host_firewall_rules table_iptables port_of config web_state empty_table).0

ensured : (ensure_host_firewall_rules table_iptables port_of config web_state empty_table).1 ≡ ok tt
unfolding ensure_host_firewall_rules host_firewall_rules port_of run_table check_table text_eq
    ensure_rules or_err made_state
ensured = refl

ensure_host_firewall_rules_idempotent_example :
    AllInstalled table_iptables (codes "iptables-nft") (rules web_state) web_table
    × (ensure_host_firewall_rules table_iptables port_of config web_state web_table
        ≡ (web_table, ok tt))
ensure_host_firewall_rules_idempotent_example =
    ensure_host_firewall_rules_idempotent table_iptables table-IsIptables port_of config web_state
      empty_table refl web_rules ensured

web_installed : AllInstalled table_iptables (codes "iptables-nft") (rules web_state) web_table
web_installed =
    (ensure_host_firewall_rules_idempotent table_iptables table-IsIptables port_of config web_state
      empty_table refl web_rules ensured).0

other_veths : web_state.host_veth ≢ api_state.host_veth
unfolding made_state text_eq
other_veths h =
    let same : false ≡ true = (text_eq_iff web_state.host_veth api_state.host_veth).1 h in cc

delete_host_firewall_rules_local_example :
    AllInstalled table_iptables
      (codes "iptables-nft")
      (rules web_state)
      (delete_host_firewall_rules table_iptables port_of config api_state web_table).0
    × ((delete_host_firewall_rules table_iptables port_of config api_state web_table).1 ≡ ok tt)
delete_host_firewall_rules_local_example =
    delete_host_firewall_rules_local table_iptables table-IsIptables port_of config web_state
      api_state web_table refl web_rules api_rules other_veths web_installed
