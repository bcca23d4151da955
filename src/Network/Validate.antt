-- ===== src/Network/Validate.antt =====
-- The check of a network spec before it is used: `validate_spec` and `validate_rules` of
-- crates/oad/src/network.rs.
use omniagent.Prelude.{
  ℕ, zero, suc, ◌≤◌, ◌≡◌, refl, ◌≢◌, ◌↔◌, Option, none, some, List, [], ◌∷◌, arith, Text, Result,
  ok, err, ◌>>=◌, ◌>>◌, bind_ok, ltb, ◌==◌, if◌then◌else◌, Bool-cases, inl, inr,
}
use omniagent.Core.Spec.{
  EgressDestination, cidr, PortRange, EgressRule, EgressPolicy, allow_all, deny_all, rules,
  SandboxNetworkSpec,
}
use omniagent.Network.Cidr.{
  NetworkError, Ipv4Cidr, invalid_port_range, zero_latency, parse_ipv4_cidr,
}

abbrev pub destination_cidr : EgressDestination → Text
destination_cidr (cidr text) = text

unfoldable pub validate_ports : List PortRange → Result NetworkError (Unit {0})
validate_ports [] = ok tt
validate_ports (port ∷ ports) =
    let rest = validate_ports ports in
    if ltb port.last port.start then err (invalid_port_range port.start port.last) else rest

unfoldable pub validate_rules : List EgressRule → Result NetworkError (Unit {0})
unfolding validate_ports
validate_rules [] = ok tt
validate_rules (rule ∷ more) =
    let rest = validate_rules more in
    do
      parse_ipv4_cidr (destination_cidr rule.destination) >>= λ block.
          validate_ports rule.ports >>= λ _. rest

validate_egress : EgressPolicy → Result NetworkError (Unit {0})
unfolding validate_rules
validate_egress allow_all = ok tt
validate_egress deny_all = ok tt
validate_egress (rules list) = validate_rules list

validate_latency : Option ℕ → Result NetworkError (Unit {0})
validate_latency none = ok tt
validate_latency (some latency) = if latency == 0 then err zero_latency else ok tt

unfoldable pub validate_spec : SandboxNetworkSpec → Result NetworkError (Unit {0})
unfolding validate_egress validate_latency
validate_spec spec = do
  validate_egress spec.egress
  validate_rules spec.udp.allow
  validate_latency spec.shaping.latency_ms

-- What the check is for.
abbrev pub PortsOrdered : List PortRange → Type 0
PortsOrdered [] = Unit
PortsOrdered (port ∷ ports) = (port.start ≤ port.last) × PortsOrdered ports

abbrev pub RulesFit : List EgressRule → Type 0
RulesFit [] = Unit
RulesFit (rule ∷ more) =
    ((block : Ipv4Cidr) × (parse_ipv4_cidr (destination_cidr rule.destination) ≡ ok block))
    × PortsOrdered rule.ports
    × RulesFit more

abbrev pub EgressFits : EgressPolicy → Type 0
EgressFits allow_all = Unit
EgressFits deny_all = Unit
EgressFits (rules list) = RulesFit list

validate_ports_sound : (ports : List PortRange) → validate_ports ports ≡ ok tt → PortsOrdered ports
unfolding validate_ports
validate_ports_sound [] h = tt
validate_ports_sound (port ∷ ports) h = elim (Bool-cases (ltb port.last port.start)) [
  | inl bad ↦ cc (h, bad)
  | inr good ↦ (ground arith, validate_ports_sound ports (rw good at h))
]

validate_ports_complete :
    (ports : List PortRange) → PortsOrdered ports → validate_ports ports ≡ ok tt
unfolding validate_ports
validate_ports_complete [] h = refl
validate_ports_complete (port ∷ ports) h = ground (arith, h.0, validate_ports_complete ports h.1)

validate_rules_sound : (list : List EgressRule) → validate_rules list ≡ ok tt → RulesFit list
unfolding validate_rules
validate_rules_sound [] h = tt
validate_rules_sound (rule ∷ more) h =
    let (block, parsed, h1) = bind_ok (parse_ipv4_cidr (destination_cidr rule.destination)) _ h in
    let (u, ordered, h2) = bind_ok (validate_ports rule.ports) _ h1 in
    ((block, parsed), validate_ports_sound rule.ports ordered, validate_rules_sound more h2)

validate_rules_complete : (list : List EgressRule) → RulesFit list → validate_rules list ≡ ok tt
unfolding validate_rules
validate_rules_complete [] h = refl
validate_rules_complete (rule ∷ more) h =
    rw (h.0.1, validate_ports_complete rule.ports h.1) (validate_rules_complete more h.2)

validate_egress_iff : (e : EgressPolicy) → (validate_egress e ≡ ok tt) ↔ EgressFits e
unfolding validate_egress
validate_egress_iff allow_all = (λ h. tt, λ h. refl)
validate_egress_iff deny_all = (λ h. tt, λ h. refl)
validate_egress_iff (rules list) = (validate_rules_sound list, validate_rules_complete list)

validate_latency_iff :
    (latency : Option ℕ) → (validate_latency latency ≡ ok tt) ↔ (latency ≢ some 0)
unfolding validate_latency
validate_latency_iff none = (λ h e. cc, λ h. refl)
validate_latency_iff (some zero) = (λ h. cc, λ h. absurd (h refl))
validate_latency_iff (some (suc n)) = (λ h e. ground arith, λ h. ground arith)

-- A spec is accepted exactly when every rule of its egress and UDP lists names a CIDR that parses
-- and port ranges in order, and its latency, if given, is not zero.
pub validate_spec_iff :
    (spec : SandboxNetworkSpec)
    → (validate_spec spec ≡ ok tt)
      ↔ (EgressFits spec.egress × RulesFit spec.udp.allow × (spec.shaping.latency_ms ≢ some 0))
unfolding validate_spec
validate_spec_iff spec = (accepted, complete)
  where
    accepted :
        validate_spec spec ≡ ok tt
        → EgressFits spec.egress × RulesFit spec.udp.allow × (spec.shaping.latency_ms ≢ some 0)
    accepted h =
        let (u, egress, h1) = bind_ok (validate_egress spec.egress) _ h in
        let (v, udp, h2) = bind_ok (validate_rules spec.udp.allow) _ h1 in
        (
          (validate_egress_iff spec.egress).0 egress,
          validate_rules_sound spec.udp.allow udp,
          (validate_latency_iff spec.shaping.latency_ms).0 h2,
        )

    complete :
        EgressFits spec.egress × RulesFit spec.udp.allow × (spec.shaping.latency_ms ≢ some 0)
        → validate_spec spec ≡ ok tt
    complete h =
        rw ((validate_egress_iff spec.egress).1 h.0, validate_rules_complete spec.udp.allow h.1)
          ((validate_latency_iff spec.shaping.latency_ms).1 h.2)
