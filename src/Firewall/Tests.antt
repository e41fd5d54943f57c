-- ===== src/Firewall/Tests.antt =====
-- The theorem on the forward chain, on two upstreams with a tunnel each under the policy `any`.
use open_tunnelbroker.Prelude.{◌≡◌, refl, false, some, [], ◌∷◌, ◌++◌, List}
use open_tunnelbroker.Models.{
  Settings, Upstream, Tunnel, upstream_by_id, tunnel_v4_mode, upstream_v4_mode, global_v4_mode,
  resolved_v4_mode, tunnel_ipv4_enabled,
}
use open_tunnelbroker.Models.Tests.{on_link, tunnel}
use open_tunnelbroker.Firewall.{
  Command, start, forward_chain, pair, accept, concat_map, tunnel_interfaces, inter_tunnel_rules,
  any_rules, warp_tunnel, interface_of, warp_tunnel_interfaces,
}
use open_tunnelbroker.Firewall.Keys.{insert_key, codes_less}
use open_tunnelbroker.Firewall.Script.{
  build_nft_script, uplink_rules, warp_rules, nat_commands, nat_rule, missing_interface,
}
use open_tunnelbroker.Firewall.Forward.{build_nft_script-allows, passes, allows}

abbrev settings : Settings
settings = record {
  v4_nat = false;
  v4_warp = false;
  v4_pool = "10.99.0.0/16";
  default_dns = "";
  inter_tunnel_policy = "any";
}

abbrev home : Upstream
home = on_link "fd00:0:0:1::1/64"

abbrev office : Upstream
office = record home { id = 2; egress_interface = "eth1"; interface_name = "wg-office" }

abbrev tunnels : List Tunnel
tunnels = tunnel 4 ∷ record (tunnel 5) { upstream_id = 2 } ∷ []

abbrev script : List Command
script =
    start
    ++ (forward_chain
        ∷ (pair "wg-home" "eth0"
            ++ (pair "wg-office" "eth1"
                ++ (accept "wg-home" "wg-home"
                    ∷ accept "wg-home" "wg-office"
                    ∷ accept "wg-office" "wg-home"
                    ∷ accept "wg-office" "wg-office"
                    ∷ []))))

generates : build_nft_script settings (home ∷ office ∷ []) tunnels ≡ some script
unfolding build_nft_script missing_interface inter_tunnel_rules any_rules concat_map
    tunnel_interfaces insert_key codes_less uplink_rules warp_rules nat_commands nat_rule
    warp_tunnel_interfaces warp_tunnel interface_of upstream_by_id tunnel_v4_mode upstream_v4_mode
    global_v4_mode resolved_v4_mode tunnel_ipv4_enabled
generates = refl

build_nft_script-allows_example :
    passes "wg-office" "wg-home" false script
    ≡ allows "wg-office" "wg-home" false settings (home ∷ office ∷ []) tunnels
build_nft_script-allows_example =
    build_nft_script-allows "wg-office" "wg-home" false settings home (office ∷ []) tunnels script
      generates
