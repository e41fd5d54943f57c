-- ===== src/Service/Validate.antt =====
-- internal/broker/service.go: validateUpstream, validateUpstreamUniqueness,
-- validateUpstreamAgainstTunnels, prepareUpstream, the checks on quotas and routing groups.
pub mod Disjoint
pub mod Unique
pub mod Limits
use Prim.Native.String.{◌++◌}
use open_tunnelbroker.Prelude.{
  ℕ, zero, suc, ◌+◌, String, Bool, true, false, not, ◌&&◌, ◌||◌, List, [], ◌∷◌, Option, none, some,
  ◌==◌, ltb, leb, str_eq, if◌then◌else◌, any, length, codes, is_control, trim_space,
}
use open_tunnelbroker.Prelude.Int.{ℤ, pos, negsuc, ltb_ℤ, eqb_ℤ}
use open_tunnelbroker.Netip.{Prefix, is6, masked, contains}
use open_tunnelbroker.Netip.Text.{parse_prefix}
use open_tunnelbroker.Allocator.{overlaps}
use open_tunnelbroker.Models.{
  Upstream, Tunnel, warp_interface_name, upstream_on_link, valid_upstream_mode, upstream_mode,
  delegated_prefix, transport_prefix, server_reservation, ipv6_prefix,
}
use open_tunnelbroker.Service.Upstreams.{
  ConfigError, Outcome, done, refused, normalize_upstream, transport_invalid, name_missing,
  name_long, name_control, cidr_invalid, mode_invalid, limits_invalid, transport_inside,
  server_on_link, transport_missing, endpoint_missing, egress_missing, interface_missing,
  interface_reserved, interface_long, interface_is_egress, port_invalid, server_outside,
  mtu_invalid, keepalive_invalid, name_used, interface_used, egress_belongs, egress_of_other,
  prefix_overlaps, transport_overlaps, endpoint_used, allocation_outside, reservation_held,
  key_failed, quota_invalid, group_long, group_control,
}

-- `len` of a text: its bytes in UTF-8.
byte_length : List ℕ → ℕ
byte_length [] = 0
byte_length (c ∷ cs) =
    byte_length cs
    + (if ltb c 0x80 then 1 else if ltb c 0x800 then 2 else if ltb c 0x10000 then 3 else 4)

-- The first of two refusals.
unfoldable pub or_else : Option ConfigError → Option ConfigError → Option ConfigError
or_else none second = second
or_else (some e) second = some e

unfoldable pub refuse_if : Bool → ConfigError → Option ConfigError
refuse_if true e = some e
refuse_if false e = none

unfoldable pub name_check : String → Option ConfigError
name_check name = or_else (refuse_if (str_eq name "") name_missing) (
    or_else (refuse_if (ltb 64 (length (codes name))) name_long)
      (refuse_if (any is_control (codes name)) name_control))

-- The prefix limits against the length of the upstream's prefix.
unfoldable pub bad_limits : ℕ → Upstream → Bool
bad_limits bits v =
    ltb_ℤ v.min_prefix (pos bits)
    || ltb_ℤ v.max_prefix v.min_prefix
    || ltb_ℤ (pos 128) v.max_prefix
    || ltb_ℤ v.default_prefix v.min_prefix
    || ltb_ℤ v.max_prefix v.default_prefix

unfoldable pub transport_check : Prefix → Upstream → Option ConfigError
transport_check p v = if str_eq v.transport_address "" then none else elim (transport_prefix v) [
  | none ↦ some transport_invalid
  | some transport ↦ refuse_if (contains p transport.addr) transport_inside
]

unfoldable pub on_link_check : Upstream → Option ConfigError
on_link_check v =
    if str_eq (upstream_mode v) upstream_on_link
    then or_else (refuse_if (not (str_eq v.server_address "")) server_on_link)
        (refuse_if (str_eq v.transport_address "") transport_missing)
    else none

unfoldable pub interface_check : Upstream → Option ConfigError
unfolding byte_length
interface_check v = or_else (refuse_if (str_eq v.endpoint_host "") endpoint_missing) (
    or_else (refuse_if (str_eq v.egress_interface "") egress_missing) (
      or_else (refuse_if (str_eq v.interface_name "") interface_missing) (
        or_else (refuse_if (str_eq v.interface_name warp_interface_name) interface_reserved) (
          or_else (refuse_if (ltb 15 (byte_length (codes v.interface_name))) interface_long)
            (refuse_if (str_eq v.interface_name v.egress_interface) interface_is_egress)))))

-- A server address, if there is one, lies in the upstream's prefix.
unfoldable pub server_check : Prefix → Upstream → Option ConfigError
server_check p v =
    if str_eq v.server_address "" then none else elim (parse_prefix v.server_address) [
      | none ↦ some server_outside
      | some server ↦ refuse_if (not (contains p server.addr)) server_outside
    ]

unfoldable pub range_check : ℤ → ℤ → ℤ → ConfigError → Option ConfigError
range_check low value high e = refuse_if (ltb_ℤ value low || ltb_ℤ high value) e

-- validateUpstream, from the prefix on.
unfoldable pub upstream_checks : Prefix → Upstream → Option ConfigError
upstream_checks p v =
    or_else (refuse_if (not (valid_upstream_mode (upstream_mode v))) mode_invalid) (
      or_else (refuse_if (bad_limits p.bits v) limits_invalid) (
        or_else (transport_check p v) (
          or_else (on_link_check v) (
            or_else (interface_check v) (
              or_else (range_check (pos 1) v.endpoint_port (pos 65535) port_invalid) (
                or_else (server_check p v) (
                  or_else (range_check (pos 1280) v.mtu (pos 9000) mtu_invalid)
                    (range_check (pos 0) v.keepalive (pos 3600) keepalive_invalid))))))))

-- `none` is success.
unfoldable pub validate_upstream : Upstream → Option ConfigError
validate_upstream v =
    or_else (name_check v.name)
      (elim (ipv6_prefix v.v6_cidr) [ none ↦ some cidr_invalid | some p ↦ upstream_checks p v ])

-- The prefixes of two upstreams overlap, where both have one.
unfoldable pub prefixes_clash : Option Prefix → Option Prefix → Bool
prefixes_clash (some p) (some q) = overlaps p q
prefixes_clash _ _ = false

unfoldable pub masked_transport : Upstream → Option Prefix
masked_transport v = elim (transport_prefix v) [
  | none ↦ none
  | some transport ↦ some (masked transport)
]

module _ (equal_fold : String → String → Bool) where
  -- A round of the loop of validateUpstreamUniqueness, against another upstream.
  unfoldable pub conflict : Upstream → Upstream → Option ConfigError
  conflict candidate other = or_else (refuse_if (equal_fold other.name candidate.name) name_used) (
      or_else (refuse_if (str_eq other.interface_name candidate.interface_name) interface_used) (
        or_else (refuse_if (str_eq other.interface_name candidate.egress_interface) egress_belongs)
          (or_else
            (refuse_if (str_eq other.egress_interface candidate.interface_name) egress_of_other)
            (or_else
              (refuse_if (prefixes_clash (delegated_prefix candidate) (delegated_prefix other))
                prefix_overlaps)
              (or_else
                (refuse_if (prefixes_clash (masked_transport candidate) (masked_transport other))
                  transport_overlaps)
                (refuse_if
                  (eqb_ℤ other.endpoint_port candidate.endpoint_port
                    && equal_fold other.endpoint_host candidate.endpoint_host)
                  endpoint_used))))))

  unfoldable pub conflicts : Upstream → List Upstream → Option ConfigError
  unfolding conflict
  conflicts candidate [] = none
  conflicts candidate (other ∷ existing) =
      let rest = conflicts candidate existing in
      if other.id == candidate.id then rest else or_else (conflict candidate other) rest

  unfoldable pub validate_upstream_uniqueness : Upstream → List Upstream → Option ConfigError
  validate_upstream_uniqueness candidate existing = elim (delegated_prefix candidate) [
    | none ↦ some cidr_invalid
    | some prefix ↦ conflicts candidate existing
  ]

  -- prepareUpstream: the other upstreams are the stored ones, and the key is what wgtypes generates.
  unfoldable pub prepare_upstream : Upstream → List Upstream → Option String → Outcome Upstream
  prepare_upstream upstream others generated = elim (normalize_upstream upstream others) [
    | refused e ↦ refused e
    | done v ↦ elim (or_else (validate_upstream v) (validate_upstream_uniqueness v others)) [
      | some e ↦ refused e
      | none ↦ if not (str_eq v.server_private_key "") then done v else elim generated [
        | none ↦ refused key_failed
        | some key ↦ done (record v { server_private_key = key })
      ]
    ]
  ]

-- The tests on one tunnel when its upstream is edited.
unfoldable pub tunnel_check : Prefix → Option Prefix → Tunnel → Option ConfigError
tunnel_check prefix reserved tunnel = elim (parse_prefix tunnel.v6_cidr) [
  | none ↦ none
  | some text ↦
      let allocation = masked text in
      or_else
        (refuse_if (not (contains prefix allocation.addr) || ltb allocation.bits prefix.bits)
          allocation_outside)
        (refuse_if (prefixes_clash reserved (some allocation)) reservation_held)
]

tunnel_checks : Prefix → Option Prefix → List Tunnel → Option ConfigError
unfolding tunnel_check
tunnel_checks prefix reserved [] = none
tunnel_checks prefix reserved (tunnel ∷ tunnels) =
    or_else (tunnel_check prefix reserved tunnel) (tunnel_checks prefix reserved tunnels)

unfoldable pub validate_upstream_against_tunnels : Upstream → List Tunnel → Option ConfigError
unfolding tunnel_checks
validate_upstream_against_tunnels upstream tunnels = elim (delegated_prefix upstream) [
  | none ↦ some cidr_invalid
  | some prefix ↦ tunnel_checks prefix (server_reservation upstream) tunnels
]

unfoldable pub validate_quota : ℤ → Option ConfigError
validate_quota quota_gib = range_check (pos 1) quota_gib (pos 8589934591) quota_invalid

unfoldable pub validate_routing_group : String → Option ConfigError
validate_routing_group group =
    or_else (refuse_if (ltb 64 (length (codes group))) group_long)
      (refuse_if (any is_control (codes group)) group_control)
