-- ===== src/Network/Firewall/Ensure.antt =====
-- `ensure_host_firewall_rules` and `delete_host_firewall_rules` of crates/oad/src/network.rs over an
-- `iptables` that does what its manual says of -C, -I and -D.
use omniagent.Prelude.{
  ℕ, ◌≡◌, refl, sym, ap, subst, ◌∙◌, ◌≢◌, true, Bool-cases, Option, some, List, [], ◌∷◌, Text, ok,
  bind_ok, some_injective, Result-cases, ok_injective, inl, inr, get_elem?,
}
use omniagent.Core.Spec.{NetworkRuntimeConfig}
use omniagent.Network.Cidr.{addr_parse, or_err}
use omniagent.Network.Hash.{decimal}
use omniagent.Network.Alloc.{SandboxNetworkState}
use omniagent.Network.Firewall.{
  HostFirewallRule, rules_for, host_firewall_rules, Iptables, is_installed, insert_rule,
  remove_rule, ensure_rules, delete_rules, ensure_host_firewall_rules, delete_host_firewall_rules,
}

-- A rule that -I put in is there; -I takes no rule out; -D takes out no rule but its own.
pub record IsIptables {T : Type 0} (ipt : Iptables T) : Type 0 where
  pub inserted :
      (program : Text) (rule : HostFirewallRule) (t : T)
      → (insert_rule ipt program rule t).1 ≡ ok tt
      → is_installed ipt program rule (insert_rule ipt program rule t).0 ≡ true
  pub insert_keeps :
      (program : Text) (rule other : HostFirewallRule) (t : T)
      → is_installed ipt program other t ≡ true
      → is_installed ipt program other (insert_rule ipt program rule t).0 ≡ true
  pub delete_keeps :
      (program : Text) (rule other : HostFirewallRule) (t : T)
      → other ≢ rule
      → is_installed ipt program other t ≡ true
      → is_installed ipt program other (remove_rule ipt program rule t) ≡ true

abbrev pub AllInstalled : {T : Type 0} → Iptables T → Text → List HostFirewallRule → T → Type 0
AllInstalled ipt program [] t = Unit
AllInstalled ipt program (rule ∷ rules) t =
    (is_installed ipt program rule t ≡ true) × AllInstalled ipt program rules t

abbrev AllOther : HostFirewallRule → List HostFirewallRule → Type 0
AllOther other [] = Unit
AllOther other (rule ∷ rules) = (other ≢ rule) × AllOther other rules

-- Nothing that is installed goes while rules are ensured.
ensure_rules_keeps :
    {T : Type 0} (ipt : Iptables T) (laws : IsIptables ipt) (program : Text)
    (rules : List HostFirewallRule) (other : HostFirewallRule) (t : T)
    → is_installed ipt program other t ≡ true
    → is_installed ipt program other (ensure_rules ipt program rules t).0 ≡ true
unfolding ensure_rules
ensure_rules_keeps ipt laws program [] other t h = h
ensure_rules_keeps ipt laws program (rule ∷ rules) other t h =
    let kept = laws.insert_keeps program rule other t h in
    elim (Bool-cases (is_installed ipt program rule t)) [
      | inl there ↦ rw (ensure_rules, there) (ensure_rules_keeps ipt laws program rules other t h)
      | inr gone ↦ elim (Result-cases (insert_rule ipt program rule t).1) [
        | inl (tt, done) ↦
            rw (ensure_rules, gone, done)
              (ensure_rules_keeps ipt laws program rules other (insert_rule ipt program rule t).0
                kept)
        | inr (e, failed) ↦ rw (ensure_rules, gone, failed) kept
      ]
    ]

ensure_rules-AllInstalled :
    {T : Type 0} (ipt : Iptables T) (laws : IsIptables ipt) (program : Text)
    (rules : List HostFirewallRule) (t : T)
    → (ensure_rules ipt program rules t).1 ≡ ok tt
    → AllInstalled ipt program rules (ensure_rules ipt program rules t).0
unfolding ensure_rules
ensure_rules-AllInstalled ipt laws program [] t h = tt
ensure_rules-AllInstalled ipt laws program (rule ∷ rules) t h =
    elim (Bool-cases (is_installed ipt program rule t)) [
      | inl there ↦
          rw (ensure_rules, there)
            (
              ensure_rules_keeps ipt laws program rules rule t there,
              ensure_rules-AllInstalled ipt laws program rules t (rw (ensure_rules, there) at h),
            )
      | inr gone ↦ elim (Result-cases (insert_rule ipt program rule t).1) [
        | inl (tt, done) ↦
            let u = (insert_rule ipt program rule t).0 in
            rw (ensure_rules, gone, done)
              (
                ensure_rules_keeps ipt laws program rules rule u
                    (laws.inserted program rule t done),
                ensure_rules-AllInstalled ipt laws program rules u
                    (rw (ensure_rules, gone, done) at h),
              )
        | inr (e, failed) ↦ let bad = rw (ensure_rules, gone, failed) at h in cc
      ]
    ]

-- Where every rule is there nothing is done.
ensure_rules_idle :
    {T : Type 0} (ipt : Iptables T) (program : Text) (rules : List HostFirewallRule) (t : T)
    → AllInstalled ipt program rules t
    → ensure_rules ipt program rules t ≡ (t, ok tt)
unfolding ensure_rules
ensure_rules_idle ipt program [] t h = refl
ensure_rules_idle ipt program (rule ∷ rules) t h =
    rw (ensure_rules, h.0) (ensure_rules_idle ipt program rules t h.1)

-- A rule that is not among those deleted stays.
delete_rules_keeps :
    {T : Type 0} (ipt : Iptables T) (laws : IsIptables ipt) (program : Text)
    (rules : List HostFirewallRule) (other : HostFirewallRule) (t : T)
    → AllOther other rules
    → is_installed ipt program other t ≡ true
    → is_installed ipt program other (delete_rules ipt program rules t) ≡ true
unfolding delete_rules
delete_rules_keeps ipt laws program [] other t o h = h
delete_rules_keeps ipt laws program (rule ∷ rules) other t o h =
    delete_rules_keeps ipt laws program rules other (remove_rule ipt program rule t) o.1
      (laws.delete_keeps program rule other t o.0 h)

ensure_host_firewall_rules_lem :
    {T : Type 0} (ipt : Iptables T) (port_of : Text → Option ℕ) (config : NetworkRuntimeConfig)
    (state : SandboxNetworkState) (t : T) {program : Text} {rules : List HostFirewallRule}
    → ipt.program ≡ some program
    → host_firewall_rules port_of config state ≡ ok rules
    → ensure_host_firewall_rules ipt port_of config state t ≡ ensure_rules ipt program rules t
unfolding ensure_host_firewall_rules
ensure_host_firewall_rules_lem ipt port_of config state t found made =
    rw (ensure_host_firewall_rules, found, made) refl

-- With an iptables that keeps its laws and whose listeners' ports parse: when ensuring a sandbox's
-- rules reports success, each of them is installed, and ensuring them again leaves the table as it is.
pub ensure_host_firewall_rules_idempotent :
    {T : Type 0} (ipt : Iptables T) (laws : IsIptables ipt) (port_of : Text → Option ℕ)
    (config : NetworkRuntimeConfig) (state : SandboxNetworkState) (t : T) {program : Text}
    {rules : List HostFirewallRule}
    → ipt.program ≡ some program
    → host_firewall_rules port_of config state ≡ ok rules
    → (ensure_host_firewall_rules ipt port_of config state t).1 ≡ ok tt
    → AllInstalled ipt program rules (ensure_host_firewall_rules ipt port_of config state t).0
      × (ensure_host_firewall_rules ipt port_of config state
            (ensure_host_firewall_rules ipt port_of config state t).0
          ≡ ((ensure_host_firewall_rules ipt port_of config state t).0, ok tt))
ensure_host_firewall_rules_idempotent ipt laws port_of config state t {program} {rules} found made
      h =
    let once = ensure_host_firewall_rules_lem ipt port_of config state t found made in
    let all =
      ensure_rules-AllInstalled ipt laws program rules t (subst (λ r. r.1 ≡ ok tt) once h) in
    subst
      (λ r.
        AllInstalled ipt program rules r.0
        × (ensure_host_firewall_rules ipt port_of config state r.0 ≡ (r.0, ok tt)))
      (sym once)
      (
        all,
        ensure_host_firewall_rules_lem ipt port_of config state (ensure_rules ipt program rules t).0
              found made
            ∙ ensure_rules_idle ipt program rules (ensure_rules ipt program rules t).0 all,
      )

-- Every rule of a sandbox names its interface.
abbrev AllOn : Text → List HostFirewallRule → Type 0
AllOn veth [] = Unit
AllOn veth (rule ∷ rules) = (get_elem? rule.args 1 ≡ some veth) × AllOn veth rules

rules_for-AllOn :
    (s : SandboxNetworkState) (dns_port envoy_port : Text)
    → AllOn s.host_veth (rules_for s dns_port envoy_port)
unfolding rules_for
rules_for-AllOn s dns_port envoy_port = (refl, (refl, (refl, (refl, (refl, tt)))))

host_firewall_rules-AllOn :
    (port_of : Text → Option ℕ) (config : NetworkRuntimeConfig) (s : SandboxNetworkState)
    {rules : List HostFirewallRule}
    → host_firewall_rules port_of config s ≡ ok rules
    → AllOn s.host_veth rules
unfolding host_firewall_rules
host_firewall_rules-AllOn port_of config s {rules} h =
    let (dns_port, parsed, h1) = bind_ok (or_err addr_parse (port_of config.dns_listener)) _ h in
    let (envoy_port, parsed', h2) =
      bind_ok (or_err addr_parse (port_of config.envoy_listener)) _ h1 in
    subst (AllOn s.host_veth) (ok_injective h2)
      (rules_for-AllOn s (decimal dns_port) (decimal envoy_port))

on-AllOther :
    (veth veth' : Text) (rule : HostFirewallRule) (rules : List HostFirewallRule)
    → veth ≢ veth'
    → get_elem? rule.args 1 ≡ some veth
    → AllOn veth' rules
    → AllOther rule rules
on-AllOther veth veth' rule [] apart on all = tt
on-AllOther veth veth' rule (first ∷ rules) apart on all = (
  λ same. apart (some_injective (sym on ∙ ap (λ r. get_elem? r.args 1) same ∙ all.0)),
  on-AllOther veth veth' rule rules apart on all.1,
)

delete_rules-AllInstalled :
    {T : Type 0} (ipt : Iptables T) (laws : IsIptables ipt) (program : Text) (veth veth' : Text)
    (kept deleted : List HostFirewallRule) (t : T)
    → veth ≢ veth'
    → AllOn veth kept
    → AllOn veth' deleted
    → AllInstalled ipt program kept t
    → AllInstalled ipt program kept (delete_rules ipt program deleted t)
delete_rules-AllInstalled ipt laws program veth veth' [] deleted t apart on on' h = tt
delete_rules-AllInstalled ipt laws program veth veth' (rule ∷ kept) deleted t apart on on' h = (
  delete_rules_keeps ipt laws program deleted rule t
      (on-AllOther veth veth' rule deleted apart on.0 on') h.0,
  delete_rules-AllInstalled ipt laws program veth veth' kept deleted t apart on.1 on' h.1,
)

-- With an iptables that keeps its laws: deleting the rules of one sandbox leaves those of a sandbox
-- with another interface installed, and reports success.
pub delete_host_firewall_rules_local :
    {T : Type 0} (ipt : Iptables T) (laws : IsIptables ipt) (port_of : Text → Option ℕ)
    (config : NetworkRuntimeConfig) (kept deleted : SandboxNetworkState) (t : T) {program : Text}
    {kept_rules deleted_rules : List HostFirewallRule}
    → ipt.program ≡ some program
    → host_firewall_rules port_of config kept ≡ ok kept_rules
    → host_firewall_rules port_of config deleted ≡ ok deleted_rules
    → kept.host_veth ≢ deleted.host_veth
    → AllInstalled ipt program kept_rules t
    → AllInstalled ipt program kept_rules
        (delete_host_firewall_rules ipt port_of config deleted t).0
      × ((delete_host_firewall_rules ipt port_of config deleted t).1 ≡ ok tt)
unfolding delete_host_firewall_rules is_installed
delete_host_firewall_rules_local ipt laws port_of config kept deleted t {program} {kept_rules}
      {deleted_rules} found made made' apart h =
    rw (delete_host_firewall_rules, found, made')
      (
        delete_rules-AllInstalled ipt laws program kept.host_veth deleted.host_veth kept_rules
            deleted_rules t apart (host_firewall_rules-AllOn port_of config kept made)
            (host_firewall_rules-AllOn port_of config deleted made') h,
        refl,
      )
