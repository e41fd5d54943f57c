-- ===== src/Service/Client.antt =====
-- internal/broker/service.go: ClientConfig, with firstUsable and chooseMTU. The public key that wgtypes
-- derives from a private one is an argument; `none` is a key that it does not parse.
use Prim.Native.String.{◌++◌}
use open_tunnelbroker.Prelude.{
  suc, String, Option, none, some, ◌==◌, str_eq, any, codes, if◌then◌else◌,
}
use open_tunnelbroker.Prelude.Int.{ℤ, pos, negsuc, ltb_ℤ}
use open_tunnelbroker.Netip.{Addr, Prefix, bit_len, masked, next}
use open_tunnelbroker.Netip.Text.{parse_prefix}
use open_tunnelbroker.Netip.Print.{addr_string, prefix_string, itoa}
use open_tunnelbroker.Models.{
  Settings, Upstream, Tunnel, client_transport_address, transport_prefix, tunnel_ipv4_enabled,
}

unfoldable pub first_usable : Prefix → Addr
first_usable p = if p.bits == bit_len p.addr.family then (masked p).addr else next (masked p).addr

unfoldable pub choose_mtu : Tunnel → Upstream → ℤ
choose_mtu t up = if ltb_ℤ (pos 0) t.mtu_override then t.mtu_override else up.mtu

int_string : ℤ → String
int_string (pos n) = itoa n
int_string (negsuc n) = "-" ++ itoa (suc n)

-- net.JoinHostPort: a host with a colon stands in brackets.
join_host_port : String → String → String
join_host_port host port =
    if any (λ c. c == 58) (codes host) then "[" ++ host ++ "]:" ++ port else host ++ ":" ++ port

-- The notes and the address of the interface, before the IPv4 part.
unfoldable pub interface_lines : Tunnel → Upstream → Prefix → String × String
interface_lines t up delegated =
    let bits : String = elim (transport_prefix up) [ none ↦ "-1" | some p ↦ itoa p.bits ] in
    elim (client_transport_address up t) [
      | none ↦ ("", addr_string (first_usable delegated) ++ "/" ++ itoa delegated.bits)
      | some client ↦ (
        "# Routed to this peer: "
            ++ prefix_string (masked delegated)
            ++ "\n# Put that prefix on the LAN and advertise it there (OpenWrt: RA server, DHCPv6 server, NDP disabled).\n# Do not add it to this interface: the LAN needs the whole /64 for SLAAC.\n",
        addr_string client ++ "/" ++ bits,
      )
    ]

unfoldable pub client_config : (String → Option String) → Tunnel → Upstream → Settings → String
unfolding int_string join_host_port
client_config public_key t up cfg =
    let priv = if str_eq t.private_key "" then "<client-private-key>" else t.private_key in
    let dns = if str_eq t.dns_override "" then cfg.default_dns else t.dns_override in
    let v4 = tunnel_ipv4_enabled cfg up t in
    let pub_ : String = elim (public_key up.server_private_key) [ none ↦ "" | some key ↦ key ] in
    elim (parse_prefix t.v6_cidr) [
      | none ↦ ""
      | some delegated ↦
          let (notes, address) = interface_lines t up delegated in
          notes
          ++ "[Interface]\nPrivateKey = "
          ++ priv
          ++ "\nAddress = "
          ++ address
          ++ (if v4 then ", " ++ t.v4_address ++ "/32" else "")
          ++ "\nDNS = "
          ++ dns
          ++ "\nMTU = "
          ++ int_string (choose_mtu t up)
          ++ "\n\n[Peer]\nPublicKey = "
          ++ pub_
          ++ "\nPresharedKey = "
          ++ t.preshared_key
          ++ "\nEndpoint = "
          ++ join_host_port up.endpoint_host (int_string up.endpoint_port)
          ++ "\nAllowedIPs = "
          ++ (if v4 then "0.0.0.0/0, ::/0" else "::/0")
          ++ "\nPersistentKeepalive = "
          ++ int_string up.keepalive
          ++ "\n"
    ]
