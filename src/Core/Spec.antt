-- ===== src/Core/Spec.antt =====
-- What a sandbox is made from: the container and network specs of crates/oad-core/src/lib.rs.
-- Numbers are plain ℕ: u16 ports, u64 rates, u32 milliseconds.
use omniagent.Prelude.{ℕ, Bool, true, Option, none, List, [], ◌∷◌, ◌++◌, map, Text}
use omniagent.Core.Ids.{pause_container}

pub record EnvVar : Type 0 where
  pub name : Text
  pub value : Text

pub record ContainerSpec : Type 0 where
  pub name : Text
  pub image : Text
  pub command : List Text
  pub args : List Text
  pub env : List EnvVar

unfoldable pub argv : ContainerSpec → List Text
argv c = c.command ++ c.args

unfoldable pub container_names : List ContainerSpec → List Text
container_names containers = pause_container ∷ map (λ c. c.name) containers

pub data NetworkMode : Type 0 where
  sandbox host : NetworkMode

pub data EgressDestination : Type 0 where
  cidr : Text → EgressDestination

pub data Protocol : Type 0 where
  all tcp udp icmp : Protocol

pub record PortRange : Type 0 where
  pub start : ℕ
  pub last : ℕ

pub record EgressRule : Type 0 where
  pub destination : EgressDestination
  pub protocol : Protocol
  pub ports : List PortRange

pub data EgressPolicy : Type 0 where
  allow_all deny_all : EgressPolicy
  rules : List EgressRule → EgressPolicy

pub record TrafficShapingPolicy : Type 0 where
  pub upload_bps : Option ℕ
  pub download_bps : Option ℕ
  pub burst_bytes : Option ℕ
  pub latency_ms : Option ℕ

pub record L7EgressPolicy : Type 0 where
  pub transparent_tcp : Bool

pub record UdpEgressPolicy : Type 0 where
  pub dns_redirect : Bool
  pub block_quic : Bool
  pub allow : List EgressRule

pub record SandboxNetworkSpec : Type 0 where
  pub egress : EgressPolicy
  pub shaping : TrafficShapingPolicy
  pub l7 : L7EgressPolicy
  pub udp : UdpEgressPolicy

-- The `Default` of each policy.
abbrev pub default_network_spec : SandboxNetworkSpec
default_network_spec = record {
  egress = allow_all;
  shaping = record {
    upload_bps = none;
    download_bps = none;
    burst_bytes = none;
    latency_ms = none;
  };
  l7 = record { transparent_tcp = true };
  udp = record { dns_redirect = true; block_quic = true; allow = [] };
}

pub record SandboxSpec : Type 0 where
  pub pause_image : Text
  pub containers : List ContainerSpec
  pub network : SandboxNetworkSpec
  pub network_mode : Option NetworkMode

pub data ManagedNetworkBackend : Type 0 where
  hostinet netstack : ManagedNetworkBackend

pub record NetworkRuntimeConfig : Type 0 where
  pub enabled : Bool
  pub backend : ManagedNetworkBackend
  pub sandbox_cidr : Text
  pub envoy_listener : Text
  pub dns_listener : Text
  pub dns_upstream : Text
