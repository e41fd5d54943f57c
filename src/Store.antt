-- ===== src/Store.antt =====
-- internal/broker/store.go: what the tables of tunnels are updated to. A row of `tunnels` is a Tunnel,
-- a statement over all rows a function on their list.
pub mod Quota
pub mod Ipv4
pub mod Table
pub mod Db
mod Tests
