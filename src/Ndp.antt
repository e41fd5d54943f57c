-- ===== src/Ndp.antt =====
-- internal/broker/ndp.go: parsing neighbor solicitations, building the proxy advertisement, the
-- ICMPv6 checksum, and the sets of addresses to answer for. A packet is a list of byte values.
pub mod Checksum
pub mod Proxy
pub mod Guard
pub mod Packet
mod Tests
