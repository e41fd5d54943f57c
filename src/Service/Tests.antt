-- ===== src/Service/Tests.antt =====
-- The theorems on the validation of upstreams, on the on-link upstream of Models.Tests.
use open_tunnelbroker.Prelude.{◌≡◌, ◌↔◌, refl, false, str_eq, some, none, [], ◌∷◌, All, arith}
use open_tunnelbroker.Prelude.{List, true, ℕ, ◌+◌, ◌*◌, ◌^◌, ◌||◌}
use open_tunnelbroker.Prelude.Int.{ltb_ℤ}
use open_tunnelbroker.Models.{Tunnel}
use open_tunnelbroker.Models.Tests.{tunnel}
use open_tunnelbroker.Allocator.{
  index, overlaps, allocate_with_chooser, clean_used, choose_free, take_choice, free_prefix_count,
  free_count, overlapping_descendants, split_left, split_right, set_bit, free_prefix_at, free_at,
  prefix_at_index,
}
use open_tunnelbroker.Service.Create.{
  CreateTunnelInput, occupied, used_prefixes, tunnel_length, allocate_prefix,
}
use open_tunnelbroker.Service.Create.Free.{IfPrefix, stored, allocate_prefix-IsFree}
use open_tunnelbroker.Prelude.Int.{pos}
use open_tunnelbroker.Netip.{Prefix, IsValid, v6, contains, masked}
use open_tunnelbroker.Netip.Text.{parse_prefix}
use open_tunnelbroker.Netip.Print.{prefix_string}
use open_tunnelbroker.Allocator.Request.{IsRequest}
use open_tunnelbroker.Models.{
  Upstream, ipv6_prefix, delegated_prefix, transport_prefix, server_reservation, upstream_mode,
  valid_upstream_mode, upstream_on_link, valid_tunnel_v4_mode,
}
use open_tunnelbroker.Models.Tests.{on_link}
use open_tunnelbroker.Service.Upstreams.{
  done, normalize_upstream, normalize_transport, canonical, respelled, clamp_limits, with_defaults,
}
use open_tunnelbroker.Service.Validate.{
  or_else, refuse_if, validate_upstream, validate_upstream_uniqueness, upstream_checks, bad_limits,
  transport_check, on_link_check, interface_check, server_check, range_check, name_check,
  validate_routing_group,
}
use open_tunnelbroker.Firewall.Keys.{insert_key, codes_less}
use open_tunnelbroker.Prelude.{any, not, ◌&&◌, trim_space}
use open_tunnelbroker.Service.Groups.{normalize_routing_groups, normalize_routing_groups-any}
use open_tunnelbroker.Service.Validate.Unique.{validate_upstream_uniqueness-Apart, Apart}
use open_tunnelbroker.Service.Validate.Limits.{
  validate_upstream-on_link, validate_upstream-IsRequest, normalize_upstream-limits,
}

abbrev home : Upstream
home = on_link "fd00:0:0:1::1/64"

-- 2001:db8:0:1::/64.
abbrev whole : Prefix
whole = record {
  addr = record { family = v6; value = 0x20010db8000000010000000000000000 };
  bits = 64;
}

home_prefix : ipv6_prefix home.v6_cidr ≡ some whole
unfolding ipv6_prefix parse_prefix
home_prefix = refl

home_delegated : delegated_prefix home ≡ some whole
unfolding delegated_prefix ipv6_prefix parse_prefix masked
home_delegated = refl

home_on_link : upstream_mode home ≡ upstream_on_link
unfolding upstream_mode valid_upstream_mode
home_on_link = refl

home_valid : validate_upstream home ≡ none
unfolding validate_upstream or_else refuse_if upstream_checks bad_limits transport_check
    on_link_check interface_check server_check range_check name_check ipv6_prefix parse_prefix
    transport_prefix contains upstream_mode valid_upstream_mode
home_valid = refl

validate_upstream-on_link_example :
    (p : Prefix) × (t : Prefix) × (ipv6_prefix "2001:db8:0:1::/64" ≡ some p)
    × (transport_prefix home ≡ some t)
    × (contains p t.addr ≡ false)
    × (server_reservation home ≡ none)
validate_upstream-on_link_example = validate_upstream-on_link home home_valid home_on_link

validate_upstream-IsRequest_example : IsRequest whole [] 64
validate_upstream-IsRequest_example =
    validate_upstream-IsRequest home whole [] 64 home_valid home_delegated (omega arith)
      (omega arith) tt

-- The upstream with other limits, before its normalisation.
abbrev loose : Upstream
loose = record home { min_prefix = pos 48; max_prefix = pos 200; default_prefix = pos 56 }

loose_normal : normalize_upstream loose [] ≡ done home
unfolding normalize_upstream normalize_transport canonical respelled clamp_limits with_defaults
    parse_prefix prefix_string masked valid_upstream_mode valid_tunnel_v4_mode
loose_normal = refl

normalize_upstream-limits_example : bad_limits whole.bits home ≡ false
normalize_upstream-limits_example =
    normalize_upstream-limits loose home [] whole home_prefix (omega arith) loose_normal

-- Another upstream, that shares the first one's endpoint.
abbrev office : Upstream
office = record home {
  id = 2;
  name = "office";
  v6_cidr = "2001:db8:0:2::/64";
  egress_interface = "eth1";
  interface_name = "wg-office";
  transport_address = "fd00:0:0:2::1/64";
}

validate_upstream_uniqueness-Apart_example :
    (validate_upstream_uniqueness str_eq home (office ∷ []) ≡ none)
    ↔ All (Apart str_eq home) (office ∷ [])
validate_upstream_uniqueness-Apart_example =
    validate_upstream_uniqueness-Apart str_eq home whole (office ∷ []) home_delegated

normalizes : normalize_routing_groups (" b " ∷ "" ∷ "a" ∷ "b" ∷ []) ≡ done ("a" ∷ "b" ∷ [])
unfolding normalize_routing_groups validate_routing_group or_else refuse_if trim_space insert_key
    codes_less
normalizes = refl

normalize_routing_groups-any_example :
    any (str_eq "b") ("a" ∷ "b" ∷ [])
    ≡ any
        (λ group. not (str_eq (trim_space group) "") && str_eq "b" (trim_space group))
        (" b " ∷ "" ∷ "a" ∷ "b" ∷ [])
normalize_routing_groups-any_example =
    normalize_routing_groups-any (" b " ∷ "" ∷ "a" ∷ "b" ∷ []) ("a" ∷ "b" ∷ []) "b" normalizes

-- A routed upstream of 2001:db8:0:4::/62 whose server and whose only tunnel hold a /64 each.
abbrev routed : Upstream
routed = record home {
  mode = "routed";
  v6_cidr = "2001:db8:0:4::/62";
  server_address = "2001:db8:0:4::1/64";
}

abbrev subnet : ℕ → ℕ → Prefix
subnet n bits = record {
  addr = record { family = v6; value = 0x20010db8000000000000000000000000 + n * 2 ^ 64 };
  bits = bits;
}

abbrev tunnels : List Tunnel
tunnels = record (tunnel 4) { v6_cidr = "2001:db8:0:5::/64" } ∷ []

abbrev input : CreateTunnelInput
input = record {
  label = "laptop";
  public_key = "key";
  dns = "";
  v4_mode = "";
  routing_groups = [];
  prefix = pos 0;
  quota_gib = pos 0;
  generate_keys = false;
}

routed_delegated : delegated_prefix routed ≡ some (subnet 4 62)
unfolding delegated_prefix ipv6_prefix parse_prefix masked
routed_delegated = refl

allocates : allocate_prefix routed tunnels input (λ n. index (pos 0)) ≡ some (subnet 6 64)
unfolding allocate_prefix tunnel_length occupied used_prefixes server_reservation delegated_prefix
    ipv6_prefix parse_prefix masked contains upstream_mode valid_upstream_mode allocate_with_chooser
    clean_used choose_free take_choice free_prefix_count free_count overlapping_descendants
    split_left split_right set_bit free_prefix_at free_at prefix_at_index overlaps
allocates = refl

tunnels-IsValid : All (λ t. IfPrefix IsValid (stored t)) tunnels
unfolding parse_prefix
tunnels-IsValid = (omega arith, tt)

reserved : server_reservation routed ≡ some (subnet 4 64)
unfolding server_reservation delegated_prefix ipv6_prefix parse_prefix masked contains upstream_mode
    valid_upstream_mode
reserved = refl

reservation-IsValid : IfPrefix IsValid (server_reservation routed)
reservation-IsValid = rw reserved (omega arith)

allocate_prefix-IsFree_example :
    ((ltb_ℤ (pos 64) (pos 64) || ltb_ℤ (pos 64) (pos 64)) ≡ false)
    × (contains (subnet 4 62) (subnet 6 64).addr ≡ true)
    × All (λ t. IfPrefix (λ u. overlaps (subnet 6 64) u ≡ false) (stored t)) tunnels
    × IfPrefix (λ u. overlaps (subnet 6 64) u ≡ false) (server_reservation routed)
allocate_prefix-IsFree_example =
    allocate_prefix-IsFree routed tunnels input (λ n. index (pos 0)) (subnet 4 62) (subnet 6 64)
      routed_delegated (omega arith) tunnels-IsValid reservation-IsValid allocates
