-- ===== src/Service/Create.antt =====
-- internal/broker/service.go: CreateTunnel up to the row that it inserts, and Store.UsedPrefixes. The
-- chooser of the allocator, the keys that wgtypes generates or parses, and the month are arguments.
-- `none` is any refusal.
pub mod Free
use open_tunnelbroker.Prelude.{
  ℕ, String, Bool, true, false, not, ◌&&◌, ◌||◌, List, [], ◌∷◌, ◌++◌, Option, none, some, str_eq,
  if◌then◌else◌, trim_space,
}
use open_tunnelbroker.Prelude.Int.{ℤ, pos, ltb_ℤ, eqb_ℤ}
use open_tunnelbroker.Netip.{Prefix}
use open_tunnelbroker.Netip.Text.{parse_prefix}
use open_tunnelbroker.Netip.Print.{prefix_string}
use open_tunnelbroker.Allocator.{Result, ok, err, Choice, allocate_with_chooser}
use open_tunnelbroker.Models.{
  Settings, Upstream, Tunnel, WarpAccount, account_exists, v4_mode_off, v4_mode_warp,
  tunnel_v4_mode, valid_tunnel_v4_mode, delegated_prefix, server_reservation,
}
use open_tunnelbroker.Service.Upstreams.{Outcome, done, refused}
use open_tunnelbroker.Service.Validate.{validate_upstream, validate_quota}
use open_tunnelbroker.Service.Groups.{normalize_routing_groups}
use open_tunnelbroker.Store.Ipv4.{next_v4}

pub record CreateTunnelInput : Type 0 where
  pub label : String
  pub public_key : String
  pub dns : String
  pub v4_mode : String
  pub routing_groups : List String
  pub prefix : ℤ
  pub quota_gib : ℤ
  pub generate_keys : Bool

-- Store.UsedPrefixes, on the tunnels of the upstream.
unfoldable pub used_prefixes : List Tunnel → Option (List Prefix)
used_prefixes [] = some []
used_prefixes (tunnel ∷ tunnels) = elim (parse_prefix tunnel.v6_cidr) [
  | none ↦ none
  | some prefix ↦ elim (used_prefixes tunnels) [ none ↦ none | some rest ↦ some (prefix ∷ rest) ]
]

-- What the allocator must avoid: the stored allocations and the server's reservation.
unfoldable pub occupied : Upstream → List Tunnel → Option (List Prefix)
occupied upstream tunnels = elim (used_prefixes tunnels) [
  | none ↦ none
  | some used ↦ elim (server_reservation upstream) [
    | none ↦ some used
    | some reserved ↦ some (used ++ (reserved ∷ []))
  ]
]

unfoldable pub tunnel_length : Upstream → CreateTunnelInput → ℤ
tunnel_length upstream input =
    if eqb_ℤ input.prefix (pos 0) then upstream.default_prefix else input.prefix

-- The part of CreateTunnel that finds the prefix.
unfoldable pub allocate_prefix :
    Upstream → List Tunnel → CreateTunnelInput → (ℕ → Choice) → Option Prefix
allocate_prefix upstream tunnels input choose =
    let bits = tunnel_length upstream input in
    if ltb_ℤ bits upstream.min_prefix || ltb_ℤ upstream.max_prefix bits
    then none
    else elim (occupied upstream tunnels) [
      | none ↦ none
      | some used ↦ elim (delegated_prefix upstream) [
        | none ↦ none
        | some pool ↦ elim (allocate_with_chooser pool used bits choose) [
          | err e ↦ none
          | ok prefix ↦ some prefix
        ]
      ]
    ]

-- The keys of a new tunnel: a generated pair, or the given public key if it parses.
unfoldable pub tunnel_keys :
    CreateTunnelInput → Option (String × String) → (String → Bool) → Option (String × String)
tunnel_keys input generated parses =
    if input.generate_keys
    then generated
    else if parses (trim_space input.public_key)
    then some ("", trim_space input.public_key)
    else none

-- The tunnel before anything is allocated to it.
unfoldable pub blank_tunnel : Upstream → CreateTunnelInput → List String → String → Tunnel
blank_tunnel upstream input groups month = record {
  id = 0;
  upstream_id = upstream.id;
  label = trim_space input.label;
  public_key = trim_space input.public_key;
  preshared_key = "";
  private_key = "";
  v6_cidr = "";
  v4_address = "";
  dns_override = trim_space input.dns;
  status = "";
  last_error = "";
  v4_enabled = false;
  enabled = true;
  v4_mode = input.v4_mode;
  quota_gib = if eqb_ℤ input.quota_gib (pos 0) then pos 100 else input.quota_gib;
  quota_used_bytes = pos 0;
  quota_period = month;
  quota_disabled = false;
  routing_groups = groups;
  mtu_override = pos 0;
  created_at = 0;
  updated_at = 0;
  last_handshake = 0;
  rx_bytes = pos 0;
  tx_bytes = pos 0;
}

-- The address of a tunnel with IPv4, and none without.
unfoldable pub address_for : Settings → Bool → List Tunnel → Option String
address_for cfg false tunnels = some ""
address_for cfg true tunnels = elim (parse_prefix cfg.v4_pool) [
  | none ↦ none
  | some pool ↦ next_v4 pool tunnels
]

-- The tests on the input and the resolved mode, before anything is allocated.
unfoldable pub acceptable : Settings → WarpAccount → Upstream → CreateTunnelInput → Tunnel → Bool
acceptable cfg account upstream input t =
    let valid : Bool = elim (validate_upstream upstream) [ none ↦ true | some e ↦ false ] in
    let quota : Bool = elim (validate_quota t.quota_gib) [ none ↦ true | some e ↦ false ] in
    valid
    && (not (str_eq (trim_space input.label) "")
        && (valid_tunnel_v4_mode input.v4_mode
            && (quota
                && (not (str_eq (tunnel_v4_mode cfg upstream t) v4_mode_warp)
                    || account_exists account))))

-- CreateTunnel on the resolved upstream, its tunnels and all tunnels: the row to insert.
unfoldable pub create_tunnel :
    Settings
    → WarpAccount
    → Upstream
    → List Tunnel
    → List Tunnel
    → CreateTunnelInput
    → (ℕ → Choice)
    → Option (String × String)
    → (String → Bool)
    → Option String
    → String
    → Option Tunnel
create_tunnel cfg account upstream own_tunnels tunnels input choose generated parses psk month =
    elim (normalize_routing_groups input.routing_groups) [
      | refused e ↦ none
      | done groups ↦
          let t = blank_tunnel upstream input groups month in
          let v4 = not (str_eq (tunnel_v4_mode cfg upstream t) v4_mode_off) in
          if not (acceptable cfg account upstream input t)
          then none
          else elim (allocate_prefix upstream own_tunnels input choose) [
            | none ↦ none
            | some prefix ↦ elim (tunnel_keys input generated parses) [
              | none ↦ none
              | some (private, public) ↦ elim psk [
                | none ↦ none
                | some shared ↦ elim (address_for cfg v4 tunnels) [
                  | none ↦ none
                  | some address ↦ some (record t {
                    v6_cidr = prefix_string prefix;
                    v4_enabled = v4;
                    private_key = private;
                    public_key = public;
                    preshared_key = shared;
                    v4_address = address;
                  })
                ]
              ]
            ]
          ]
    ]
