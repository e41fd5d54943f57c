-- ===== src/Store/Ipv4.antt =====
-- internal/broker/store.go, the internal IPv4 addresses: nextFreeIPv4 and ensureIPv4AllocationsTx on
-- the list of tunnels in the order of their ids.
pub mod Free
use open_tunnelbroker.Prelude.{
  ℕ, zero, suc, ◌+◌, ◌-◌, ◌*◌, ◌^◌, String, Bool, true, false, not, ◌&&◌, ◌||◌, List, [], ◌∷◌,
  Option, none, some, str_eq, if◌then◌else◌, any,
}
use open_tunnelbroker.Netip.{Addr, Prefix, addr_eq, masked, contains, next, host_bits}
use open_tunnelbroker.Netip.Text.{parse_addr}
use open_tunnelbroker.Netip.Print.{addr_string}
use open_tunnelbroker.Models.{
  Settings, Upstream, Tunnel, upstream_by_id, tunnel_v4_mode, v4_mode_off,
}

-- The loop of nextFreeIPv4 from an address on.
unfoldable pub free_from : ℕ → Prefix → List Addr → Addr → Option Addr
free_from zero pool used address = none
free_from (suc rounds) pool used address =
    let rest = free_from rounds pool used (next address) in
    if not (contains pool address)
    then none
    else if any (addr_eq address) used
    then rest
    else some address

-- nextFreeIPv4, on the number of the pool's addresses as fuel.
unfoldable pub next_free_ipv4 : Prefix → List Addr → Option Addr
next_free_ipv4 pool used = free_from (2 ^ host_bits pool) pool used (next (masked pool).addr)

unfoldable pub used_addresses : List Tunnel → List Addr
used_addresses [] = []
used_addresses (tunnel ∷ tunnels) = elim (parse_addr tunnel.v4_address) [
  | none ↦ used_addresses tunnels
  | some address ↦ address ∷ used_addresses tunnels
]

-- Store.NextV4; `none` is ErrPoolExhausted.
unfoldable pub next_v4 : Prefix → List Tunnel → Option String
next_v4 pool tunnels = elim (next_free_ipv4 (masked pool) (used_addresses tunnels)) [
  | none ↦ none
  | some address ↦ some (addr_string address)
]

-- Does ensureIPv4AllocationsTx give the tunnel an address? The mode is that of a tunnel which has no
-- other field.
unfoldable pub needs_address : Settings → List Upstream → Tunnel → Bool
needs_address cfg upstreams tunnel = elim (upstream_by_id upstreams tunnel.upstream_id) [
  | none ↦ false
  | some upstream ↦
      not (str_eq (tunnel_v4_mode cfg upstream tunnel) v4_mode_off) && str_eq tunnel.v4_address ""
]

-- The loop of ensureIPv4AllocationsTx; `none` rolls the transaction back with ErrPoolExhausted.
unfoldable pub allocate_loop :
    Prefix → Settings → List Upstream → List Addr → List Tunnel → Option (List Tunnel)
allocate_loop pool cfg upstreams used [] = some []
allocate_loop pool cfg upstreams used (tunnel ∷ tunnels) =
    elim (needs_address cfg upstreams tunnel) [
      | false ↦ elim (allocate_loop pool cfg upstreams used tunnels) [
        | none ↦ none
        | some rest ↦ some (tunnel ∷ rest)
      ]
      | true ↦ elim (next_free_ipv4 (masked pool) used) [
        | none ↦ none
        | some address ↦ elim (allocate_loop pool cfg upstreams (address ∷ used) tunnels) [
          | none ↦ none
          | some rest ↦
              some (record tunnel { v4_address = addr_string address; v4_enabled = true } ∷ rest)
        ]
      ]
    ]

unfoldable pub ensure_ipv4_allocations :
    Prefix → Settings → List Upstream → List Tunnel → Option (List Tunnel)
ensure_ipv4_allocations pool cfg upstreams tunnels =
    allocate_loop pool cfg upstreams (used_addresses tunnels) tunnels
