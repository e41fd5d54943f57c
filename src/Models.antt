-- ===== src/Models.antt =====
-- internal/broker/models.go: the records of a deployment, and the pure functions that read the
-- delegation mode, the IPv4 egress mode and the addresses of an upstream and its tunnels. Row ids are
-- natural numbers, as SQLite assigns them; times are numbers.
pub mod Offset
pub mod Transport
pub mod Tests
use open_tunnelbroker.Prelude.{
  ℕ, zero, suc, ◌+◌, ◌-◌, ◌*◌, ◌/◌, ◌%◌, ◌^◌, String, Bool, true, false, not, ◌&&◌, ◌||◌, List, [],
  ◌∷◌, ◌++◌, Option, none, some, ◌==◌, str_eq, ltb, leb, if◌then◌else◌, any,
}
use open_tunnelbroker.Prelude.Int.{ℤ, pos, negsuc, pos_part, ltb_ℤ}
use open_tunnelbroker.Netip.{
  Addr, Prefix, v4, v6, is4, is6, addr_eq, masked, contains, as16, addr_from16,
}
use open_tunnelbroker.Netip.Text.{parse_addr, parse_prefix}
use open_tunnelbroker.Netip.Print.{prefix_string}

abbrev pub warp_interface_name : String
warp_interface_name = "wg-warp"

abbrev pub v4_mode_inherit : String
v4_mode_inherit = ""

abbrev pub v4_mode_off : String
v4_mode_off = "off"

abbrev pub v4_mode_native : String
v4_mode_native = "native"

abbrev pub v4_mode_warp : String
v4_mode_warp = "warp"

abbrev pub inter_tunnel_isolated : String
inter_tunnel_isolated = "isolated"

abbrev pub inter_tunnel_groups : String
inter_tunnel_groups = "groups"

abbrev pub inter_tunnel_any : String
inter_tunnel_any = "any"

abbrev pub upstream_routed : String
upstream_routed = "routed"

abbrev pub upstream_on_link : String
upstream_on_link = "on-link"

unfoldable pub valid_upstream_mode : String → Bool
valid_upstream_mode mode = str_eq mode upstream_routed || str_eq mode upstream_on_link

pub record Settings : Type 0 where
  pub v4_nat : Bool
  pub v4_warp : Bool
  pub v4_pool : String
  pub default_dns : String
  pub inter_tunnel_policy : String

pub record Upstream : Type 0 where
  pub id : ℕ
  pub name : String
  pub v6_cidr : String
  pub mode : String
  pub public_v4 : String
  pub egress_interface : String
  pub interface_name : String
  pub endpoint_host : String
  pub endpoint_port : ℤ
  pub server_address : String
  pub server_private_key : String
  pub transport_address : String
  pub mtu : ℤ
  pub keepalive : ℤ
  pub min_prefix : ℤ
  pub max_prefix : ℤ
  pub default_prefix : ℤ
  pub v4_mode : String
  pub tunnel_count : ℕ
  pub created_at : ℕ
  pub updated_at : ℕ

unfoldable pub upstream_mode : Upstream → String
unfolding valid_upstream_mode
upstream_mode up = if valid_upstream_mode up.mode then up.mode else upstream_routed

-- The prefix that a text writes, if it is an IPv6 one.
unfoldable pub ipv6_prefix : String → Option Prefix
ipv6_prefix text = elim (parse_prefix text) [
  | none ↦ none
  | some prefix ↦ if is6 prefix.addr then some prefix else none
]

unfoldable pub transport_prefix : Upstream → Option Prefix
unfolding ipv6_prefix
transport_prefix up = ipv6_prefix up.transport_address

unfoldable pub delegated_prefix : Upstream → Option Prefix
unfolding ipv6_prefix
delegated_prefix up = elim (ipv6_prefix up.v6_cidr) [
  | none ↦ none
  | some prefix ↦ some (masked prefix)
]

-- serverReservation. `validateUpstream` has limited MaxPrefix to 128 bits wherever this is called.
unfoldable pub server_reservation : Upstream → Option Prefix
unfolding upstream_mode delegated_prefix
server_reservation up =
    if str_eq (upstream_mode up) upstream_on_link
    then none
    else elim (parse_prefix up.server_address) [
      | none ↦ none
      | some server ↦ elim (delegated_prefix up) [
        | none ↦ none
        | some upstream ↦
            if not (contains upstream server.addr)
            then none
            else if ltb_ℤ (pos server.bits) up.max_prefix
            then some (masked (record server { bits = pos_part up.max_prefix }))
            else some (masked server)
      ]
    ]

unfoldable pub tunnel_interface_address : Upstream → String
unfolding transport_prefix upstream_mode
tunnel_interface_address up = elim (transport_prefix up) [
  | none ↦ up.server_address
  | some transport ↦
      if str_eq (upstream_mode up) upstream_on_link
      then prefix_string transport
      else up.server_address
]

pub record Tunnel : Type 0 where
  pub id : ℕ
  pub upstream_id : ℕ
  pub label : String
  pub public_key : String
  pub preshared_key : String
  pub private_key : String
  pub v6_cidr : String
  pub v4_address : String
  pub dns_override : String
  pub status : String
  pub last_error : String
  pub v4_enabled : Bool
  pub enabled : Bool
  pub v4_mode : String
  pub quota_gib : ℤ
  pub quota_used_bytes : ℤ
  pub quota_period : String
  pub quota_disabled : Bool
  pub routing_groups : List String
  pub mtu_override : ℤ
  pub created_at : ℕ
  pub updated_at : ℕ
  pub last_handshake : ℕ
  pub rx_bytes : ℤ
  pub tx_bytes : ℤ

unfoldable pub has_routing_group : Tunnel → String → Bool
has_routing_group t name = any (λ group. str_eq group name) t.routing_groups

pub record WarpAccount : Type 0 where
  pub private_key : String
  pub peer_public_key : String
  pub ipv4_address : String
  pub endpoint : String
  pub device_id : String
  pub account_id : String
  pub account_type : String
  pub created_at : ℕ
  pub last_trace : String
  pub last_test_at : ℕ

-- WarpAccount.Exists.
unfoldable pub account_exists : WarpAccount → Bool
account_exists w =
    not (str_eq w.private_key "")
    && not (str_eq w.peer_public_key "")
    && not (str_eq w.ipv4_address "")
    && not (str_eq w.endpoint "")

-- upstreamsByID as a lookup: a later upstream replaces an earlier one with its id.
unfoldable pub upstream_by_id : List Upstream → ℕ → Option Upstream
upstream_by_id [] id = none
upstream_by_id (up ∷ upstreams) id = elim (upstream_by_id upstreams id) [
  | some later ↦ some later
  | none ↦ if up.id == id then some up else none
]

-- tunnelsByUpstream as a lookup: the tunnels of a known upstream, in their order.
unfoldable pub tunnels_by_upstream : List Upstream → List Tunnel → ℕ → List Tunnel
unfolding upstream_by_id
tunnels_by_upstream upstreams [] id = []
tunnels_by_upstream upstreams (tunnel ∷ tunnels) id =
    let rest = tunnels_by_upstream upstreams tunnels id in
    elim (upstream_by_id upstreams tunnel.upstream_id) [
      | none ↦ rest
      | some _ ↦ if tunnel.upstream_id == id then tunnel ∷ rest else rest
    ]

unfoldable pub global_v4_mode : Settings → String
global_v4_mode cfg =
    if cfg.v4_warp then v4_mode_warp else if cfg.v4_nat then v4_mode_native else v4_mode_off

unfoldable pub upstream_v4_mode : Settings → Upstream → String
unfolding global_v4_mode
upstream_v4_mode cfg up =
    if not (str_eq up.v4_mode v4_mode_inherit) then up.v4_mode else global_v4_mode cfg

unfoldable pub tunnel_v4_mode : Settings → Upstream → Tunnel → String
unfolding upstream_v4_mode
tunnel_v4_mode cfg up tunnel =
    if not (str_eq tunnel.v4_mode v4_mode_inherit) then tunnel.v4_mode else upstream_v4_mode cfg up

unfoldable pub resolved_v4_mode : Settings → List Upstream → Tunnel → String
unfolding upstream_by_id tunnel_v4_mode
resolved_v4_mode cfg upstreams tunnel = elim (upstream_by_id upstreams tunnel.upstream_id) [
  | none ↦ v4_mode_off
  | some upstream ↦ tunnel_v4_mode cfg upstream tunnel
]

unfoldable pub tunnel_ipv4_enabled : Settings → Upstream → Tunnel → Bool
unfolding tunnel_v4_mode
tunnel_ipv4_enabled cfg up tunnel =
    not (str_eq (tunnel_v4_mode cfg up tunnel) v4_mode_off) && not (str_eq tunnel.v4_address "")

unfoldable pub valid_tunnel_v4_mode : String → Bool
valid_tunnel_v4_mode mode =
    str_eq mode v4_mode_inherit
    || str_eq mode v4_mode_off
    || str_eq mode v4_mode_native
    || str_eq mode v4_mode_warp

-- The loop of offsetAddr, from the lowest byte up; it stops when no carry is left.
unfoldable pub offset_bytes : List ℕ → ℕ → List ℕ
offset_bytes [] carry = []
offset_bytes (b ∷ value) carry =
    let sum = b + carry % 256 in
    let rest = offset_bytes value (carry / 256 + sum / 256) in
    if carry == 0 then b ∷ value else (sum % 256) ∷ rest

unfoldable pub offset_addr : Addr → ℕ → Addr
offset_addr base offset = addr_from16 (offset_bytes (as16 base) offset)

-- The address for a tunnel id, past the server's own.
unfoldable pub transport_candidate : Prefix → ℕ → Addr
transport_candidate transport id =
    let candidate = offset_addr (masked transport).addr (id + 1) in
    if addr_eq candidate transport.addr then offset_addr candidate 1 else candidate

unfoldable pub client_transport_address : Upstream → Tunnel → Option Addr
client_transport_address up tunnel = elim (transport_prefix up) [
  | none ↦ none
  | some transport ↦
      if not (str_eq (upstream_mode up) upstream_on_link) || tunnel.id == 0
      then none
      else let candidate = transport_candidate transport tunnel.id in
        if not (contains transport candidate) then none else some candidate
]

-- The three parts of tunnelAllowedIPs.
delegated_source : Tunnel → List Prefix
delegated_source tunnel = elim (parse_prefix tunnel.v6_cidr) [
  | none ↦ []
  | some delegated ↦ masked delegated ∷ []
]

transport_source : Upstream → Tunnel → List Prefix
unfolding client_transport_address
transport_source up tunnel = elim (client_transport_address up tunnel) [
  | none ↦ []
  | some transport ↦ record { addr = transport; bits = 128 } ∷ []
]

ipv4_source : Settings → Upstream → Tunnel → List Prefix
unfolding tunnel_ipv4_enabled
ipv4_source cfg up tunnel =
    if tunnel_ipv4_enabled cfg up tunnel
    then elim (parse_addr tunnel.v4_address) [
      | none ↦ []
      | some address ↦ record { addr = address; bits = 32 } ∷ []
    ]
    else []

unfoldable pub tunnel_allowed_ips : Settings → Upstream → Tunnel → List Prefix
unfolding delegated_source transport_source ipv4_source
tunnel_allowed_ips cfg up tunnel =
    delegated_source tunnel ++ (transport_source up tunnel ++ ipv4_source cfg up tunnel)
