-- ===== src/Firewall.antt =====
-- internal/broker/firewall.go: the nftables script as a list of commands; Firewall.Script assembles it
-- and writes the commands' text. A map with names as keys is the sorted list of its keys.
pub mod Keys
pub mod Script
pub mod Forward
mod Tests
use open_tunnelbroker.Prelude.{
  ℕ, zero, suc, ◌+◌, String, Bool, true, false, not, ◌&&◌, ◌||◌, List, [], ◌∷◌, ◌++◌, Option, none,
  some, ltb, leb, str_eq, if◌then◌else◌, any, length, codes, map, join,
}
use open_tunnelbroker.Netip.{Addr, Prefix, is4, masked}
use open_tunnelbroker.Netip.Text.{parse_addr}
use open_tunnelbroker.Netip.Print.{addr_string, prefix_string, itoa}
use open_tunnelbroker.Models.{
  Settings, Upstream, Tunnel, upstream_by_id, tunnel_v4_mode, resolved_v4_mode, tunnel_ipv4_enabled,
  v4_mode_warp, warp_interface_name, inter_tunnel_isolated, inter_tunnel_any, inter_tunnel_groups,
  ipv6_prefix,
}
use open_tunnelbroker.Firewall.Keys.{insert_key}

pub data Command : Type 0 where
  delete_table add_table forward_chain nat_chain : Command
  accept : String → String → Command
  accept_replies : String → String → Command
  masquerade : String → String → Command
  v6_set v4_set : ℕ → List String → Command
  accept_v6 accept_v4 : String → String → ℕ → Command

-- The forwarding pair: out through one interface, replies back.
abbrev pub pair : String → String → List Command
pair inside outside = accept inside outside ∷ accept_replies outside inside ∷ []

abbrev pub start : List Command
start = delete_table ∷ add_table ∷ []

-- Concatenation of what is written for each element.
unfoldable pub concat_map {ℓ} : {A : Type ℓ} → (A → List Command) → List A → List Command
concat_map write [] = []
concat_map write (x ∷ xs) = write x ++ concat_map write xs

unfoldable pub tunnel_interfaces : List Upstream → List String
tunnel_interfaces [] = []
tunnel_interfaces (upstream ∷ upstreams) =
    let rest = tunnel_interfaces upstreams in
    if not (str_eq upstream.interface_name "")
    then insert_key upstream.interface_name rest
    else rest

-- Has the tunnel a known upstream on which its mode is WARP?
unfoldable pub warp_tunnel : Settings → List Upstream → Tunnel → Bool
warp_tunnel cfg upstreams tunnel = elim (upstream_by_id upstreams tunnel.upstream_id) [
  | none ↦ false
  | some upstream ↦ str_eq (tunnel_v4_mode cfg upstream tunnel) v4_mode_warp
]

-- The interface of the tunnel's upstream.
unfoldable pub interface_of : List Upstream → Tunnel → String
interface_of upstreams tunnel = elim (upstream_by_id upstreams tunnel.upstream_id) [
  | none ↦ ""
  | some upstream ↦ upstream.interface_name
]

unfoldable pub warp_tunnel_interfaces : Settings → List Upstream → List Tunnel → List String
warp_tunnel_interfaces cfg upstreams [] = []
warp_tunnel_interfaces cfg upstreams (tunnel ∷ tunnels) =
    let rest = warp_tunnel_interfaces cfg upstreams tunnels in
    if warp_tunnel cfg upstreams tunnel
    then insert_key (interface_of upstreams tunnel) rest
    else rest

-- The tunnels that take part in routing groups.
unfoldable pub grouped : List Upstream → Tunnel → Bool
grouped upstreams tunnel =
    tunnel.enabled
    && (elim (upstream_by_id upstreams tunnel.upstream_id) [ none ↦ false | some _ ↦ true ])

insert_keys : List String → List String → List String
insert_keys [] keys = keys
insert_keys (name ∷ names) keys = insert_key name (insert_keys names keys)

-- The keys of `groups`, sorted.
unfoldable pub group_names : List Upstream → List Tunnel → List String
unfolding insert_keys
group_names upstreams [] = []
group_names upstreams (tunnel ∷ tunnels) =
    let rest = group_names upstreams tunnels in
    if grouped upstreams tunnel then insert_keys tunnel.routing_groups rest else rest

-- A tunnel, as often as the group stands in its list.
occurrences : String → Tunnel → List String → List Tunnel → List Tunnel
occurrences name tunnel [] rest = rest
occurrences name tunnel (group ∷ groups) rest =
    let more = occurrences name tunnel groups rest in
    if str_eq group name then tunnel ∷ more else more

-- The members in `groups[name]`.
unfoldable pub members : List Upstream → String → List Tunnel → List Tunnel
unfolding occurrences
members upstreams name [] = []
members upstreams name (tunnel ∷ tunnels) =
    let rest = members upstreams name tunnels in
    if grouped upstreams tunnel then occurrences name tunnel tunnel.routing_groups rest else rest

-- The IPv4 element of a member: `none` is the error, `some []` no element.
v4_element : Settings → List Upstream → Tunnel → Option (List String)
v4_element cfg upstreams tunnel = elim (upstream_by_id upstreams tunnel.upstream_id) [
  | none ↦ some []
  | some upstream ↦
      if not (tunnel_ipv4_enabled cfg upstream tunnel)
      then some []
      else elim (parse_addr tunnel.v4_address) [
        | none ↦ none
        | some address ↦ if is4 address then some (addr_string address ∷ []) else none
      ]
]

-- The elements of both sets of a group.
unfoldable pub elements :
    Settings → List Upstream → List Tunnel → Option (List String × List String)
unfolding v4_element
elements cfg upstreams [] = some ([], [])
elements cfg upstreams (tunnel ∷ tunnels) = elim (ipv6_prefix tunnel.v6_cidr) [
  | none ↦ none
  | some prefix ↦ elim (v4_element cfg upstreams tunnel) [
    | none ↦ none
    | some v4 ↦ elim (elements cfg upstreams tunnels) [
      | none ↦ none
      | some (v6s, v4s) ↦ some (prefix_string (masked prefix) ∷ v6s, v4 ++ v4s)
    ]
  ]
]

-- The rules of a group for an ingress and an egress interface.
unfoldable pub pair_rules : ℕ → Bool → String → String → List Command
pair_rules index with_v4 ingress egress =
    accept_v6 ingress egress index ∷ (if with_v4 then accept_v4 ingress egress index ∷ [] else [])

-- The commands of a group with two members or more.
unfoldable pub group_commands : List String → ℕ → List String → List String → List Command
unfolding pair_rules
group_commands interfaces index v6s v4s =
    let with_v4 = leb 2 (length v4s) in
    let sets = if with_v4 then v4_set index v4s ∷ [] else [] in
    v6_set index v6s
    ∷ (sets
        ++ concat_map
            (λ ingress. concat_map (λ egress. pair_rules index with_v4 ingress egress) interfaces)
            interfaces)

-- The loop over the group names; the index counts the groups that are passed over too.
unfoldable pub groups_loop :
    Settings → List Upstream → List Tunnel → List String → ℕ → List String → Option (List Command)
unfolding members elements
groups_loop cfg upstreams tunnels interfaces index [] = some []
groups_loop cfg upstreams tunnels interfaces index (name ∷ names) =
    let found = members upstreams name tunnels in
    elim (ltb (length found) 2) [
      | true ↦ groups_loop cfg upstreams tunnels interfaces (suc index) names
      | false ↦ elim (elements cfg upstreams found) [
        | none ↦ none
        | some (v6s, v4s) ↦ elim (groups_loop cfg upstreams tunnels interfaces (suc index) names) [
          | none ↦ none
          | some rest ↦ some (group_commands interfaces index v6s v4s ++ rest)
        ]
      ]
    ]

unfoldable pub routing_group_rules : Settings → List Upstream → List Tunnel → Option (List Command)
unfolding group_names
routing_group_rules cfg upstreams tunnels =
    groups_loop cfg upstreams tunnels (tunnel_interfaces upstreams) 0
      (group_names upstreams tunnels)

-- Every pair of managed interfaces.
unfoldable pub any_rules : List String → List Command
any_rules interfaces =
    concat_map (λ ingress. concat_map (λ egress. accept ingress egress ∷ []) interfaces) interfaces

unfoldable pub inter_tunnel_rules : Settings → List Upstream → List Tunnel → Option (List Command)
inter_tunnel_rules cfg upstreams tunnels =
    let policy = cfg.inter_tunnel_policy in
    if str_eq policy "" || str_eq policy inter_tunnel_isolated
    then some []
    else if str_eq policy inter_tunnel_any
    then some (any_rules (tunnel_interfaces upstreams))
    else if str_eq policy inter_tunnel_groups
    then routing_group_rules cfg upstreams tunnels
    else none
