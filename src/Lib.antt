-- ===== src/Lib.antt =====
-- A model of open-tunnelbroker, an IPv6 tunnel broker: a Go daemon that hands out prefixes of its
-- providers' address space to WireGuard clients and programs the kernel accordingly.
--
-- Parts and files. Paths are from the repository's root.
-- - Netip: the addresses and prefixes of Go's net/netip, with parsing (Netip.Text), printing
--   (Netip.Print) and address classes (Netip.Class). An address is a family and a number.
-- - Allocator, for internal/broker/allocator.go: allocateWithChooser and what it calls, and PoolStats.
--   The random source is the chooser. The children prove, from the bottom up, what overlap means on
--   numbers (Overlap, Blocks, Ranks), what a subtree's descendants are (Descend), what is counted
--   (Count), which block an index reaches (Nth), and what a request gets (Request, Allocate, Complete).
-- - Models, for internal/broker/models.go: the records Settings, Upstream, Tunnel, WarpAccount and the
--   functions on them; Models.Offset and Models.Transport are about the addresses of the tunnels.
-- - Ndp, for internal/broker/ndp.go: packets and checksums (Packet, Checksum, Guard), and the sets of
--   addresses to answer for (Proxy, Proxy.Answers, Proxy.Inside).
-- - Firewall, for internal/broker/firewall.go: the nftables script as a list of commands, with the text
--   of each (Script), and what its forward chain accepts (Forward).
-- - Service, for internal/broker/service.go: normalizeUpstream and prepareUpstream with their checks
--   (Upstreams, Validate), what they establish (Limits) and keep apart (Unique, Disjoint), normalizeRoutingGroups
--   and resolveUpstream (Groups), ClientConfig (Client), CreateTunnel up to its row (Create), SaveSettings,
--   ResetGeneralSettings and SetTunnelV4Mode up to what they store (Settings). Service.App composes these
--   with the tables: a handler is a function on the tables, the kernel and the health, which keeps what it
--   has changed when it fails; App.Reconcile is reconcileLocked, App.Handlers the other handlers,
--   App.Requests all of them as values.
-- - Policy, for the policy routing of internal/broker/network.go: the desired rules, the rules that
--   are read (Rules), and the calls that bring the kernel's rules there (Converge).
-- - Store, for internal/broker/store.go: the tables as lists of rows and the transactions on them (Db, with
--   Db.Upstreams, Db.Groups, Db.Tunnels, Db.Accounts, Db.Legacy), the quota columns of a tunnel's row
--   (Quota), the internal IPv4 addresses (Ipv4), statements over rows (Table). Db.Writes has the operations
--   that write as values, Db.Sound what they keep.
-- - Web, for internal/broker/web.go: logins, the map of sessions, and the tests that a request with a
--   session cookie passes.
-- The service validates an upstream, the allocator takes its prefix and the stored allocations, and the
-- stored tunnels then feed the firewall script and the proxy sets.
--
-- Bounds and fuel. Numbers are natural numbers; configuration values that may be negative are ℤ. The
-- recursion of the allocator has one unit of fuel for each bit between a block and the requested length,
-- and no block below that length is split. A checksum's 32-bit sum is folded twice, which reaches 16
-- bits. The IPv4 search has a round for every address of the pool. Printed numbers have at most twenty
-- digits, an IPv6 address eight groups, and the default transport address is searched in 65536 rounds,
-- as in the source. The int64 sum of a usage and
-- its product with the quota are taken modulo 2^64.
--
-- Arguments. `strings.EqualFold`, the quoting of `%q`, the generated WireGuard key and the public key of
-- a private one are arguments. The kernel is an interface over a state of its own, as in the source, and the
-- calls of netlink on rules are a record of functions, with what is relied on of them as a hypothesis.
--
-- Not modelled: SQLite (its schema's constraints are tests in the transactions), the start of the
-- process, passwords and timers in the service, the rest of internal/broker/network.go with its calls of
-- netlink and wgctrl, the raw-socket responder (internal/broker/ndp_linux.go), the WARP client
-- (internal/broker/warp.go), upgrades (internal/broker/upgrade.go), the forms
-- and pages of internal/broker/web.go and cmd/open-tunnelbroker/main.go: they are input and output, or remain to be
-- modelled. Address zones and errors' texts are left out.
mod Prelude
pub mod Netip
pub mod Allocator
pub mod Models
pub mod Ndp
pub mod Service
pub mod Policy
pub mod Firewall
pub mod Store
pub mod Web
