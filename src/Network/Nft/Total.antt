-- ===== src/Network/Nft/Total.antt =====
-- `render_nft_ruleset` of crates/oad/src/network.rs fails for no spec that `validate_spec` accepts.
use omniagent.Prelude.{
  ℕ, ◌≡◌, refl, Bool, true, false, Bool-cases, inl, inr, Option, some, List, [], ◌∷◌, Text, Result,
  ok, err, ◌>>=◌,
}
use omniagent.Core.Spec.{
  EgressDestination, cidr, Protocol, PortRange, EgressRule, EgressPolicy, allow_all, deny_all,
  rules, NetworkRuntimeConfig,
}
use omniagent.Network.Cidr.{NetworkError, Ipv4Cidr, or_err, parse_ipv4_cidr}
use omniagent.Network.Validate.{
  destination_cidr, validate_spec, validate_spec_iff, RulesFit, EgressFits,
}
use omniagent.Network.Alloc.{SandboxNetworkState}
use omniagent.Network.Nft.{
  NftProtocol, tcp, udp, icmp, NftVerdict, accept, redirect_to, NftRule, write_nft_rule, write_all,
  write_tcp_redirect, write_tcp_redirect_egress, write_tcp_redirect_rules, write_forward_tcp,
  write_forward, write_forward_egress, write_forward_rules,
}
use omniagent.Network.Nft.Ruleset.{prerouting_for, forward_for, for_all, render_nft_ruleset}

-- A result that is no error.
abbrev pub Succeeds : {A : Type 0} → Result NetworkError A → Type 0
Succeeds {A} r = (value : A) × (r ≡ ok value)

bind-Succeeds :
    {A B : Type 0} (r : Result NetworkError A) (next : A → Result NetworkError B)
    → Succeeds r
    → ((value : A) → Succeeds (next value))
    → Succeeds (r >>= next)
bind-Succeeds (ok value) next h k = k value
bind-Succeeds (err e) next h k = let bad = h.1 in cc

abbrev Parses : EgressDestination → Type 0
Parses destination = Succeeds (parse_ipv4_cidr (destination_cidr destination))

write_nft_rule-Succeeds :
    (veth : Text) (protocol : NftProtocol) (destination : EgressDestination)
    (ports : List PortRange) (verdict : NftVerdict)
    → Parses destination
    → Succeeds (write_nft_rule veth protocol destination ports verdict)
unfolding write_nft_rule
write_nft_rule-Succeeds veth protocol (cidr block) ports verdict h =
    bind-Succeeds (parse_ipv4_cidr block) _ h (λ parsed. (_, refl))

write_all-Succeeds :
    (write : EgressRule → Result NetworkError (List NftRule))
    (each : (rule : EgressRule) → Parses rule.destination → Succeeds (write rule))
    (list : List EgressRule)
    → RulesFit list
    → Succeeds (write_all write list)
unfolding write_all
write_all-Succeeds write each [] h = (_, refl)
write_all-Succeeds write each (rule ∷ more) h =
    bind-Succeeds (write rule) _ (each rule h.0) (λ lines.
      bind-Succeeds (write_all write more) _ (write_all-Succeeds write each more h.2)
        (λ rest. (_, refl)))

write_tcp_redirect-Succeeds :
    (veth : Text) (port : ℕ) (rule : EgressRule) (protocol : Protocol)
    → Parses rule.destination
    → Succeeds (write_tcp_redirect veth port rule protocol)
unfolding write_tcp_redirect
write_tcp_redirect-Succeeds veth port rule Protocol.tcp h =
    write_nft_rule-Succeeds veth tcp rule.destination rule.ports (redirect_to port) h
write_tcp_redirect-Succeeds veth port rule Protocol.all h =
    write_nft_rule-Succeeds veth tcp rule.destination rule.ports (redirect_to port) h
write_tcp_redirect-Succeeds veth port rule Protocol.udp h = (_, refl)
write_tcp_redirect-Succeeds veth port rule Protocol.icmp h = (_, refl)

write_tcp_redirect_egress-Succeeds :
    (veth : Text) (port : ℕ) (egress : EgressPolicy)
    → EgressFits egress
    → Succeeds (write_tcp_redirect_egress veth port egress)
unfolding write_tcp_redirect_egress
write_tcp_redirect_egress-Succeeds veth port allow_all h = (_, refl)
write_tcp_redirect_egress-Succeeds veth port deny_all h = (_, refl)
write_tcp_redirect_egress-Succeeds veth port (rules list) h =
    write_all-Succeeds _ (λ rule. write_tcp_redirect-Succeeds veth port rule rule.protocol) list h

write_forward_tcp-Succeeds :
    (veth : Text) (transparent : Bool) (rule : EgressRule)
    → Parses rule.destination
    → Succeeds (write_forward_tcp veth transparent rule)
unfolding write_forward_tcp
write_forward_tcp-Succeeds veth true rule h = (_, refl)
write_forward_tcp-Succeeds veth false rule h =
    write_nft_rule-Succeeds veth tcp rule.destination rule.ports accept h

write_forward-Succeeds :
    (veth : Text) (transparent : Bool) (rule : EgressRule) (protocol : Protocol)
    → Parses rule.destination
    → Succeeds (write_forward veth transparent rule protocol)
unfolding write_forward
write_forward-Succeeds veth transparent rule Protocol.tcp h =
    write_forward_tcp-Succeeds veth transparent rule h
write_forward-Succeeds veth transparent rule Protocol.udp h =
    write_nft_rule-Succeeds veth udp rule.destination rule.ports accept h
write_forward-Succeeds veth transparent rule Protocol.icmp h =
    write_nft_rule-Succeeds veth icmp rule.destination [] accept h
write_forward-Succeeds veth transparent rule Protocol.all h =
    bind-Succeeds (write_forward_tcp veth transparent rule) _
      (write_forward_tcp-Succeeds veth transparent rule h)
      (λ a.
        bind-Succeeds (write_nft_rule veth udp rule.destination rule.ports accept) _
          (write_nft_rule-Succeeds veth udp rule.destination rule.ports accept h)
          (λ b.
            bind-Succeeds (write_nft_rule veth icmp rule.destination [] accept) _
              (write_nft_rule-Succeeds veth icmp rule.destination [] accept h) (λ c. (_, refl))))

write_forward_egress-Succeeds :
    (veth : Text) (transparent : Bool) (egress : EgressPolicy)
    → EgressFits egress
    → Succeeds (write_forward_egress veth transparent egress)
unfolding write_forward_egress
write_forward_egress-Succeeds veth transparent allow_all h = (_, refl)
write_forward_egress-Succeeds veth transparent deny_all h = (_, refl)
write_forward_egress-Succeeds veth transparent (rules list) h =
    bind-Succeeds _ _
      (write_all-Succeeds (λ rule. write_forward veth transparent rule rule.protocol)
        (λ rule. write_forward-Succeeds veth transparent rule rule.protocol) list h)
      (λ lines. (_, refl))

-- Every sandbox's spec passed `validate_spec`.
abbrev pub AllValid : List SandboxNetworkState → Type 0
AllValid [] = Unit
AllValid (state ∷ states) = (validate_spec state.spec ≡ ok tt) × AllValid states

forward_for-Succeeds :
    (state : SandboxNetworkState) → validate_spec state.spec ≡ ok tt → Succeeds (forward_for state)
unfolding forward_for write_forward_rules
forward_for-Succeeds state valid =
    let fits = (validate_spec_iff state.spec).0 valid in
    bind-Succeeds (write_forward_rules state) _
      (bind-Succeeds _ _
        (write_all-Succeeds
          (λ rule. write_nft_rule state.host_veth udp rule.destination rule.ports accept)
          (λ rule. write_nft_rule-Succeeds state.host_veth udp rule.destination rule.ports accept)
          state.spec.udp.allow fits.1)
        (λ lines.
          bind-Succeeds _ _
            (write_forward_egress-Succeeds state.host_veth state.spec.l7.transparent_tcp
              state.spec.egress fits.0)
            (λ rest. (_, refl))))
      (λ lines. (_, refl))

prerouting_for-Succeeds :
    (envoy_port dns_port : ℕ) (state : SandboxNetworkState)
    → validate_spec state.spec ≡ ok tt
    → Succeeds (prerouting_for envoy_port dns_port state)
unfolding prerouting_for write_tcp_redirect_rules
prerouting_for-Succeeds envoy_port dns_port state valid =
    elim (Bool-cases state.spec.l7.transparent_tcp) [
      | inl on ↦ rw (on) (
          bind-Succeeds _ _
            (write_tcp_redirect_egress-Succeeds state.host_veth envoy_port state.spec.egress
              (((validate_spec_iff state.spec).0 valid).0))
            (λ redirects. (_, refl)))
      | inr off ↦ rw (off) (_, refl)
    ]

for_all-Succeeds :
    (write : SandboxNetworkState → Result NetworkError (List NftRule))
    (each : (state : SandboxNetworkState)
      → validate_spec state.spec ≡ ok tt
      → Succeeds (write state))
    (states : List SandboxNetworkState)
    → AllValid states
    → Succeeds (for_all write states)
unfolding for_all
for_all-Succeeds write each [] h = (_, refl)
for_all-Succeeds write each (state ∷ states) h =
    bind-Succeeds (write state) _ (each state h.0) (λ lines.
      bind-Succeeds (for_all write states) _ (for_all-Succeeds write each states h.1)
        (λ rest. (_, refl)))

-- With a CIDR that parses, listeners whose ports parse, and states whose specs validate_spec
-- accepts, the table is rendered without an error.
pub render_nft_ruleset-total :
    (port_of : Text → Option ℕ) (config : NetworkRuntimeConfig) (states : List SandboxNetworkState)
    {c : Ipv4Cidr} {envoy_port dns_port : ℕ}
    → parse_ipv4_cidr config.sandbox_cidr ≡ ok c
    → port_of config.envoy_listener ≡ some envoy_port
    → port_of config.dns_listener ≡ some dns_port
    → AllValid states
    → (text : Text) × (render_nft_ruleset port_of config states ≡ ok text)
unfolding render_nft_ruleset or_err
render_nft_ruleset-total port_of config states {c} {envoy_port} {dns_port} parsed envoy dns valid =
    rw (parsed, envoy, dns)
      (bind-Succeeds (for_all (prerouting_for envoy_port dns_port) states) _
        (for_all-Succeeds (prerouting_for envoy_port dns_port)
          (prerouting_for-Succeeds envoy_port dns_port) states valid)
        (λ prerouting.
          bind-Succeeds (for_all forward_for states) _
            (for_all-Succeeds forward_for forward_for-Succeeds states valid)
            (λ forward. (_, refl))))
