-- ===== src/Tests.antt =====
-- The theorems at concrete inputs, and runs of the definitions.
mod CoreTests
mod ExecTests
mod RegistryTests
mod NetworkTests
mod FirewallTests
mod NftTests
mod RuntimeTests
mod ClientTests
mod OciTests
