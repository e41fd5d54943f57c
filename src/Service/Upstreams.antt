-- ===== src/Service/Upstreams.antt =====
-- internal/broker/service.go: settings, provider connections and their validation. A refusal is a
-- case of ConfigError in place of its message. `strings.EqualFold` and the generation of WireGuard
-- keys are arguments.
use Prim.Native.String.{◌++◌}
use open_tunnelbroker.Prelude.{
  ℕ, zero, suc, String, Bool, true, false, not, ◌&&◌, ◌||◌, List, [], ◌∷◌, Option, none, some, ◌==◌,
  leb, str_eq, if◌then◌else◌, any, trim_space,
}
use open_tunnelbroker.Prelude.Int.{ℤ, pos, eqb_ℤ, min_ℤ, max_ℤ}
use open_tunnelbroker.Netip.{Prefix, is4, is6, masked}
use open_tunnelbroker.Netip.Text.{parse_prefix}
use open_tunnelbroker.Netip.Print.{prefix_string, hex}
use open_tunnelbroker.Models.{
  Settings, Upstream, inter_tunnel_isolated, inter_tunnel_groups, inter_tunnel_any, upstream_routed,
  upstream_on_link, valid_upstream_mode, transport_prefix, valid_tunnel_v4_mode,
}

pub data ConfigError : Type 0 where
  nat_and_warp v4_pool_invalid policy_invalid v4_mode_invalid transport_invalid name_missing
        name_long name_control cidr_invalid mode_invalid limits_invalid transport_inside
        server_on_link transport_missing endpoint_missing egress_missing interface_missing
        interface_reserved interface_long interface_is_egress port_invalid server_outside
        mtu_invalid keepalive_invalid name_used interface_used egress_belongs egress_of_other
        prefix_overlaps transport_overlaps endpoint_used allocation_outside reservation_held
        key_failed quota_invalid group_long group_control :
      ConfigError

pub data Outcome {ℓ} (A : Type ℓ) : Type ℓ where
  done : A → Outcome A
  refused : ConfigError → Outcome A

unfoldable pub valid_inter_tunnel_policy : String → Bool
valid_inter_tunnel_policy policy =
    str_eq policy inter_tunnel_isolated
    || str_eq policy inter_tunnel_groups
    || str_eq policy inter_tunnel_any

unfoldable pub validate_settings : Settings → Option ConfigError
unfolding valid_inter_tunnel_policy
validate_settings v =
    let pool_ok : Bool = elim (parse_prefix v.v4_pool) [
      | none ↦ false
      | some pool ↦ is4 pool.addr
    ] in
    if v.v4_nat && v.v4_warp
    then some nat_and_warp
    else if (v.v4_nat || v.v4_warp) && not pool_ok
    then some v4_pool_invalid
    else if not (valid_inter_tunnel_policy v.inter_tunnel_policy)
    then some policy_invalid
    else none

-- The set of transport ranges that upstreams claim, as they are printed.
taken_transports : List Upstream → List String
taken_transports [] = []
taken_transports (other ∷ others) = elim (transport_prefix other) [
  | none ↦ taken_transports others
  | some transport ↦ prefix_string (masked transport) ∷ taken_transports others
]

default_transport : ℕ → String
default_transport index = "fd00:6b72:6f6b:" ++ hex index ++ "::1/64"

-- The loop of defaultTransportAddress over the `rounds` indices from `index` on.
default_transport_loop : ℕ → ℕ → List String → String
unfolding default_transport
default_transport_loop zero index taken = default_transport 0
default_transport_loop (suc rounds) index taken = elim (parse_prefix (default_transport index)) [
  | none ↦ default_transport_loop rounds (suc index) taken
  | some prefix ↦ elim (any (str_eq (prefix_string (masked prefix))) taken) [
    | false ↦ default_transport index
    | true ↦ default_transport_loop rounds (suc index) taken
  ]
]

unfoldable pub default_transport_address : List Upstream → String
unfolding default_transport_loop taken_transports
default_transport_address others = default_transport_loop 0x10000 0 (taken_transports others)

unfoldable pub others_except : List Upstream → ℕ → List Upstream
others_except [] id = []
others_except (upstream ∷ upstreams) id =
    let rest = others_except upstreams id in if upstream.id == id then rest else upstream ∷ rest

pub record UpstreamInput : Type 0 where
  pub id : ℕ
  pub name : String
  pub v6_cidr : String
  pub mode : String
  pub public_v4 : String
  pub egress_interface : String
  pub interface_name : String
  pub endpoint_host : String
  pub endpoint_port : ℤ
  pub server_address : String
  pub transport_address : String
  pub mtu : ℤ
  pub keepalive : ℤ
  pub min_prefix : ℤ
  pub max_prefix : ℤ
  pub default_prefix : ℤ
  pub v4_mode : String

-- UpstreamInput.apply.
unfoldable pub apply_input : UpstreamInput → Upstream → Upstream
apply_input in_ existing = record existing {
  name = trim_space in_.name;
  v6_cidr = trim_space in_.v6_cidr;
  mode = trim_space in_.mode;
  public_v4 = trim_space in_.public_v4;
  egress_interface = trim_space in_.egress_interface;
  interface_name = trim_space in_.interface_name;
  endpoint_host = trim_space in_.endpoint_host;
  endpoint_port = in_.endpoint_port;
  server_address = trim_space in_.server_address;
  transport_address = trim_space in_.transport_address;
  mtu = in_.mtu;
  keepalive = in_.keepalive;
  min_prefix = in_.min_prefix;
  max_prefix = in_.max_prefix;
  default_prefix = in_.default_prefix;
  v4_mode = in_.v4_mode;
}

-- The defaults at the start of normalizeUpstream.
unfoldable pub with_defaults : Upstream → Upstream
with_defaults v = record v {
  mtu = if eqb_ℤ v.mtu (pos 0) then pos 1420 else v.mtu;
  keepalive = if eqb_ℤ v.keepalive (pos 0) then pos 25 else v.keepalive;
  endpoint_port = if eqb_ℤ v.endpoint_port (pos 0) then pos 51820 else v.endpoint_port;
}

-- The limits for an upstream prefix of this length.
unfoldable pub clamp_limits : ℕ → Upstream → Upstream
clamp_limits bits v =
    let low = min_ℤ (max_ℤ v.min_prefix (pos bits)) (pos 128) in
    let high = min_ℤ (max_ℤ v.max_prefix low) (pos 128) in
    if leb 64 bits
    then record v { min_prefix = pos bits; max_prefix = pos bits; default_prefix = pos bits }
    else record v {
      min_prefix = low;
      max_prefix = high;
      default_prefix = min_ℤ (max_ℤ v.default_prefix low) high;
    }

-- The last part of normalizeUpstream: the transport address, kept with its host bits.
unfoldable pub normalize_transport : Upstream → List Upstream → Outcome Upstream
normalize_transport v others =
    let on_link = str_eq v.mode upstream_on_link in
    let address = v.transport_address in
    let numbered =
      (if on_link && str_eq address ""
        then default_transport_address (others_except others v.id)
        else address) in
    if str_eq numbered "" then done v else elim (parse_prefix numbered) [
      | none ↦ refused transport_invalid
      | some transport ↦ done (record v { transport_address = prefix_string transport })
    ]

-- The part between: the prefix in its canonical form, the mode and the limits.
unfoldable pub respelled : Upstream → Prefix → Upstream
respelled v upstream = record v {
  v6_cidr = prefix_string (masked upstream);
  mode = if valid_upstream_mode v.mode then v.mode else upstream_routed;
}

unfoldable pub canonical : Upstream → Prefix → Upstream
canonical v upstream = clamp_limits upstream.bits (respelled v upstream)

unfoldable pub normalize_upstream : Upstream → List Upstream → Outcome Upstream
normalize_upstream v others =
    if not (valid_tunnel_v4_mode v.v4_mode)
    then refused v4_mode_invalid
    else elim (parse_prefix v.v6_cidr) [
      | none ↦ done (with_defaults v)
      | some upstream ↦
          if not (is6 upstream.addr)
          then done (with_defaults v)
          else normalize_transport (canonical (with_defaults v) upstream) others
    ]
