-- ===== src/Network/Display.antt =====
-- The texts of addresses: `Display` of the standard library's `Ipv4Addr` and of `Ipv4Cidr` in
-- crates/oad/src/network.rs.
use omniagent.Prelude.{ℕ, ◌/◌, ◌%◌, ◌^◌, ◌++◌, Text, codes}
use omniagent.Network.Cidr.{Ipv4Cidr}
use omniagent.Network.Hash.{decimal}

unfoldable pub ipv4_text : ℕ → Text
unfolding decimal
ipv4_text ip =
    decimal (ip / 2 ^ 24 % 256)
    ++ codes "."
    ++ decimal (ip / 2 ^ 16 % 256)
    ++ codes "."
    ++ decimal (ip / 2 ^ 8 % 256)
    ++ codes "."
    ++ decimal (ip % 256)

unfoldable pub cidr_text : Ipv4Cidr → Text
unfolding ipv4_text decimal
cidr_text c = ipv4_text c.network ++ codes "/" ++ decimal c.prefix
