-- ===== src/Models/Tests.antt =====
-- The theorems on addresses, on an on-link upstream of the documentation range.
use open_tunnelbroker.Prelude.{
  ℕ, ◌+◌, ◌-◌, ◌^◌, ◌%◌, ◌≡◌, ◌≢◌, refl, String, true, false, some, none, [], arith,
}
use open_tunnelbroker.Prelude.Int.{pos}
use open_tunnelbroker.Netip.{Prefix, v6}
use open_tunnelbroker.Netip.Text.{parse_prefix}
use open_tunnelbroker.Models.{
  Upstream, Tunnel, upstream_mode, valid_upstream_mode, transport_prefix, ipv6_prefix,
  client_transport_address, offset_addr,
}
use open_tunnelbroker.Models.Offset.{offset_addr-value}
use open_tunnelbroker.Models.Transport.{
  IsOnLink, client_transport_address-distinct, client_transport_address-collision,
}

-- An on-link upstream with this transport address.
abbrev pub on_link : String → Upstream
on_link transport = record {
  id = 1;
  name = "home";
  v6_cidr = "2001:db8:0:1::/64";
  mode = "on-link";
  public_v4 = "";
  egress_interface = "eth0";
  interface_name = "wg-home";
  endpoint_host = "broker.example";
  endpoint_port = pos 51820;
  server_address = "";
  server_private_key = "key";
  transport_address = transport;
  mtu = pos 1420;
  keepalive = pos 25;
  min_prefix = pos 64;
  max_prefix = pos 64;
  default_prefix = pos 64;
  v4_mode = "";
  tunnel_count = 0;
  created_at = 0;
  updated_at = 0;
}

abbrev pub tunnel : ℕ → Tunnel
tunnel n = record {
  id = n;
  upstream_id = 1;
  label = "laptop";
  public_key = "";
  preshared_key = "";
  private_key = "";
  v6_cidr = "2001:db8:0:1::/64";
  v4_address = "";
  dns_override = "";
  status = "pending";
  last_error = "";
  v4_enabled = false;
  enabled = true;
  v4_mode = "";
  quota_gib = pos 100;
  quota_used_bytes = pos 0;
  quota_period = "2026-01";
  quota_disabled = false;
  routing_groups = [];
  mtu_override = pos 0;
  created_at = 0;
  updated_at = 0;
  last_handshake = 0;
  rx_bytes = pos 0;
  tx_bytes = pos 0;
}

-- fd00:0:0:1::1/64 and fd00:0:0:1::5/64.
abbrev first : Prefix
first = record {
  addr = record { family = v6; value = 0xfd000000000000010000000000000001 };
  bits = 64;
}

abbrev fifth : Prefix
fifth = record {
  addr = record { family = v6; value = 0xfd000000000000010000000000000005 };
  bits = 64;
}

on_link_first : IsOnLink (on_link "fd00:0:0:1::1/64") first
unfolding transport_prefix ipv6_prefix parse_prefix upstream_mode valid_upstream_mode
on_link_first = record {
  transport = refl;
  on_link = refl;
  six = record { family = refl; short = omega arith };
  in_range = omega arith;
}

on_link_fifth : IsOnLink (on_link "fd00:0:0:1::5/64") fifth
unfolding transport_prefix ipv6_prefix parse_prefix upstream_mode valid_upstream_mode
on_link_fifth = record {
  transport = refl;
  on_link = refl;
  six = record { family = refl; short = omega arith };
  in_range = omega arith;
}

client_transport_address-distinct_example :
    (client_transport_address (on_link "fd00:0:0:1::1/64") (tunnel 4)
      ≢ client_transport_address (on_link "fd00:0:0:1::1/64") (tunnel 5))
    × (client_transport_address (on_link "fd00:0:0:1::1/64") (tunnel 4) ≢ some first.addr)
client_transport_address-distinct_example =
    client_transport_address-distinct (on_link "fd00:0:0:1::1/64") first (tunnel 4) (tunnel 5)
      on_link_first (omega arith) (omega arith) (omega arith) (omega arith) (omega arith)
      (λ e. absurd (omega (arith, e)))

client_transport_address-collision_example :
    (client_transport_address (on_link "fd00:0:0:1::5/64") (tunnel 4)
      ≡ client_transport_address (on_link "fd00:0:0:1::5/64") (tunnel 5))
    × (client_transport_address (on_link "fd00:0:0:1::5/64") (tunnel 4) ≢ none)
client_transport_address-collision_example =
    client_transport_address-collision (on_link "fd00:0:0:1::5/64") fifth (tunnel 4) (tunnel 5)
      on_link_fifth (omega arith) (omega arith) refl refl

offset_addr-value_example :
    offset_addr (record { family = v6; value = 2 ^ 128 - 1 }) 2
    ≡ record { family = v6; value = (2 ^ 128 - 1 + 2) % 2 ^ 128 }
offset_addr-value_example = offset_addr-value (2 ^ 128 - 1) 2 (omega arith)
