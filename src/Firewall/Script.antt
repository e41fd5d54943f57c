-- ===== src/Firewall/Script.antt =====
-- firewall.go, buildNFTScript: the whole script, and its text. The quoting of `%q` is an argument.
use Prim.Native.String
use open_tunnelbroker.Prelude.{
  ℕ, String, Bool, not, ◌||◌, List, [], ◌∷◌, ◌++◌, Option, none, some, str_eq, if◌then◌else◌, any,
  join,
}
use open_tunnelbroker.Netip.Print.{itoa}
use open_tunnelbroker.Models.{
  Settings, Upstream, Tunnel, upstream_by_id, tunnel_v4_mode, resolved_v4_mode, tunnel_ipv4_enabled,
  v4_mode_warp, warp_interface_name,
}
use open_tunnelbroker.Firewall.{
  Command, delete_table, add_table, forward_chain, nat_chain, accept, accept_replies, masquerade,
  v6_set, v4_set, accept_v6, accept_v4, pair, start, concat_map, warp_tunnel_interfaces,
  inter_tunnel_rules,
}

-- The masquerading rule of a tunnel.
unfoldable pub nat_rule : Settings → List Upstream → Tunnel → List Command
nat_rule cfg upstreams tunnel = elim (upstream_by_id upstreams tunnel.upstream_id) [
  | none ↦ []
  | some upstream ↦
      if not (tunnel_ipv4_enabled cfg upstream tunnel)
      then []
      else masquerade tunnel.v4_address (
          if str_eq (tunnel_v4_mode cfg upstream tunnel) v4_mode_warp
          then warp_interface_name
          else upstream.egress_interface)
        ∷ []
]

-- The NAT chain is added with its first rule.
unfoldable pub nat_commands : List Command → List Command
nat_commands [] = []
nat_commands (rule ∷ rules) = nat_chain ∷ rule ∷ rules

unfoldable pub uplink_rules : List Upstream → List Command
uplink_rules = concat_map (λ up. pair up.interface_name up.egress_interface)

unfoldable pub warp_rules : Settings → List Upstream → List Tunnel → List Command
warp_rules cfg upstreams tunnels =
    if any (λ tunnel. str_eq (resolved_v4_mode cfg upstreams tunnel) v4_mode_warp) tunnels
    then concat_map (λ name. pair name warp_interface_name)
        (warp_tunnel_interfaces cfg upstreams tunnels)
    else []

unfoldable pub missing_interface : Upstream → Bool
missing_interface up = str_eq up.egress_interface "" || str_eq up.interface_name ""

-- buildNFTScript; `none` is any of its errors.
unfoldable pub build_nft_script : Settings → List Upstream → List Tunnel → Option (List Command)
build_nft_script cfg [] tunnels = some start
build_nft_script cfg (up ∷ ups) tunnels =
    if any missing_interface (up ∷ ups)
    then none
    else elim (inter_tunnel_rules cfg (up ∷ ups) tunnels) [
      | none ↦ none
      | some inter_tunnel ↦ some (
          start
          ++ (forward_chain
              ∷ (uplink_rules (up ∷ ups)
                  ++ (inter_tunnel
                      ++ (warp_rules cfg (up ∷ ups) tunnels
                          ++ nat_commands (concat_map (nat_rule cfg (up ∷ ups)) tunnels))))))
    ]

-- The texts one after the other.
infixr 60 ◌<>◌
abbrev ◌<>◌ : String → String → String
s <> t = String.◌++◌ s t

module _ (quote : String → String) where
  forward_rule : String → String → String → String
  forward_rule ingress egress rest =
      "add rule inet open_tunnelbroker forward iifname "
      <> quote ingress
      <> " oifname "
      <> quote egress
      <> rest

  set_name : ℕ → String → String
  set_name index family = "tunnel_group_" <> itoa index <> family

  set_text : String → String → List String → String
  set_text name type elements =
      "add set inet open_tunnelbroker "
      <> name
      <> type
      <> "add element inet open_tunnelbroker "
      <> name
      <> " { "
      <> join elements ", "
      <> " }\n"

  command_text : Command → String
  unfolding forward_rule set_name set_text
  command_text delete_table = "delete table inet open_tunnelbroker\n"
  command_text add_table = "add table inet open_tunnelbroker\n"
  command_text forward_chain =
      "add chain inet open_tunnelbroker forward { type filter hook forward priority 0; policy drop; }\n"
  command_text nat_chain =
      "add chain inet open_tunnelbroker postrouting { type nat hook postrouting priority 100; policy accept; }\n"
  command_text (accept ingress egress) = forward_rule ingress egress " accept\n"
  command_text (accept_replies ingress egress) =
      forward_rule ingress egress " ct state established,related accept\n"
  command_text (masquerade address egress) =
      "add rule inet open_tunnelbroker postrouting ip saddr "
      <> address
      <> "/32 oifname "
      <> quote egress
      <> " masquerade\n"
  command_text (v6_set index elements) =
      set_text (set_name index "_v6") " { type ipv6_addr; flags interval; }\n" elements
  command_text (v4_set index elements) =
      set_text (set_name index "_v4") " { type ipv4_addr; }\n" elements
  command_text (accept_v6 ingress egress index) =
      let set = "@" <> set_name index "_v6" in
      forward_rule ingress egress (" ip6 saddr " <> set <> " ip6 daddr " <> set <> " accept\n")
  command_text (accept_v4 ingress egress index) =
      let set = "@" <> set_name index "_v4" in
      forward_rule ingress egress (" ip saddr " <> set <> " ip daddr " <> set <> " accept\n")

  unfoldable pub script_text : List Command → String
  unfolding command_text
  script_text [] = ""
  script_text (c ∷ cs) = command_text c <> script_text cs
