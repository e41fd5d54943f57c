-- ===== src/Store/Db/Sound.antt =====
-- When the tables of internal/broker/store.go hold together: which rows other rows refer to, and which
-- columns have no repeated value.
pub mod Rows
pub mod Gives
pub mod Addresses
pub mod Upstreams
pub mod Tunnels
pub mod Groups
pub mod Writes
pub mod Migration
use open_tunnelbroker.Prelude.{ℕ, String, List, [], ◌∷◌, true, any, map, All, ◌==◌, ◌&&◌, ◌≡◌}
use open_tunnelbroker.Models.{Upstream, Tunnel}
use open_tunnelbroker.Store.Table.{IsUnique}
use open_tunnelbroker.Store.Table.Unique.{same_id, same_key}
use open_tunnelbroker.Store.Db.{Db, RoutingGroup}

-- What identifies a tunnel and what it holds.
pub record Holding : Type 0 where
  pub id : ℕ
  pub upstream_id : ℕ
  pub public_key : String
  pub v6_cidr : String

abbrev pub holding : Tunnel → Holding
holding t = record {
  id = t.id;
  upstream_id = t.upstream_id;
  public_key = t.public_key;
  v6_cidr = t.v6_cidr;
}

-- The upstream of a tunnel is stored.
abbrev pub IsAttached : List Upstream → Holding → Type 0
IsAttached ups h = any (λ u. u.id == h.upstream_id) ups ≡ true

-- The tunnel and the group of a membership are stored.
abbrev pub IsJoined : List Holding → List RoutingGroup → ℕ × ℕ → Type 0
IsJoined hs gs m = (any (λ h. h.id == m.0) hs ≡ true) × (any (λ g. g.id == m.1) gs ≡ true)

pub record UniqueUpstreams (ups : List Upstream) : Type 0 where
  pub ids : IsUnique (same_id (λ (u : Upstream). u.id)) ups
  pub names : IsUnique (same_key (λ (u : Upstream). u.name)) ups
  pub interfaces : IsUnique (same_key (λ (u : Upstream). u.interface_name)) ups

pub record UniqueTunnels (hs : List Holding) : Type 0 where
  pub ids : IsUnique (same_id (λ (h : Holding). h.id)) hs
  pub keys : IsUnique (same_key (λ (h : Holding). h.public_key)) hs
  pub prefixes : IsUnique (same_key (λ (h : Holding). h.v6_cidr)) hs

pub record UniqueGroups (gs : List RoutingGroup) : Type 0 where
  pub ids : IsUnique (same_id (λ (g : RoutingGroup). g.id)) gs
  pub names : IsUnique (same_key (λ (g : RoutingGroup). g.name)) gs

pub record Sound (ups : List Upstream) (hs : List Holding) (gs : List RoutingGroup)
    (ms : List (ℕ × ℕ)) : Type 0 where
  pub attached : All (IsAttached ups) hs
  pub joined : All (IsJoined hs gs) ms
  pub upstreams : UniqueUpstreams ups
  pub tunnels : UniqueTunnels hs
  pub groups : UniqueGroups gs

abbrev pub IsSound : Db → Type 0
IsSound db = Sound db.upstreams (map holding db.tunnels) db.groups db.members
