-- ===== src/Service/Settings.antt =====
-- internal/broker/service.go: SaveSettings, ResetGeneralSettings and SetTunnelV4Mode, up to what they
-- store. A store that fails to answer is not modelled; `none` is a refusal.
use open_tunnelbroker.Prelude.{String, false, not, ◌&&◌, Option, none, some, str_eq, if◌then◌else◌}
use open_tunnelbroker.Models.{
  Settings, Upstream, Tunnel, WarpAccount, account_exists, inter_tunnel_isolated, tunnel_v4_mode,
  v4_mode_warp, valid_tunnel_v4_mode,
}
use open_tunnelbroker.Service.Upstreams.{validate_settings}

unfoldable pub with_policy : Settings → Settings
with_policy v =
    if str_eq v.inter_tunnel_policy ""
    then record v { inter_tunnel_policy = inter_tunnel_isolated }
    else v

-- The settings that SaveSettings stores.
unfoldable pub save_settings : Settings → WarpAccount → Option Settings
save_settings settings account =
    let v = with_policy settings in
    elim (validate_settings v) [
      | some e ↦ none
      | none ↦ if v.v4_warp && not (account_exists account) then none else some v
    ]

-- The settings that ResetGeneralSettings stores.
unfoldable pub reset_general_settings : Settings → Settings
reset_general_settings cfg = record cfg {
  v4_nat = false;
  v4_warp = false;
  v4_pool = "10.99.0.0/16";
  default_dns = "2606:4700:4700::1111";
  inter_tunnel_policy = inter_tunnel_isolated;
}

-- The mode that App.SetTunnelV4Mode stores for a tunnel and its upstream.
unfoldable pub set_tunnel_v4_mode :
    Settings → WarpAccount → Upstream → Tunnel → String → Option String
set_tunnel_v4_mode cfg account upstream tunnel mode =
    let changed = record tunnel { v4_mode = mode } in
    if not (valid_tunnel_v4_mode mode)
    then none
    else if str_eq (tunnel_v4_mode cfg upstream changed) v4_mode_warp
        && not (account_exists account)
    then none
    else some mode
