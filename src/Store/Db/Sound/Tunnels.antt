-- ===== src/Store/Db/Sound/Tunnels.antt =====
-- What inserting and deleting a tunnel keeps.
use open_tunnelbroker.Prelude.{
  ℕ, String, Bool, true, false, List, [], ◌∷◌, ◌++◌, ◌==◌, str_eq, any, ◌≡◌, refl, ◌∙◌, arith, map,
  sym, str_eq-sym, ==_comm,
}
use mathlib.Core.Path.{subst}
use open_tunnelbroker.Models.{Upstream, Tunnel}
use open_tunnelbroker.Store.Table.{delete_where}
use open_tunnelbroker.Store.Table.Laws.{
  any-append, any-delete_where, All-imp, All-append, All-delete_where, All-delete_where_imp,
}
use open_tunnelbroker.Store.Table.Unique.{same_id, same_key, append-IsUnique, delete_where-IsUnique}
use open_tunnelbroker.Store.Db.{Db, RoutingGroup, next_id, add_audit, find_tunnel}
use open_tunnelbroker.Store.Db.Tunnels.{
  unique_tunnel, new_row, insert_tunnel, update_tunnel, delete_tunnel, store_telemetry, store_quota,
  update_tunnel_telemetry, set_tunnel_quota,
}
use open_tunnelbroker.Store.Db.Sound.{Holding, holding, Sound, IsSound, IsAttached, IsJoined}
use open_tunnelbroker.Store.Db.Sound.Rows.{map-append_one, map-delete_where, any-map, next_id-fresh}
use open_tunnelbroker.Store.Db.Groups.{set_memberships}
use open_tunnelbroker.Store.Db.Sound.Groups.{set_memberships-Gives}
use open_tunnelbroker.Store.Db.Sound.Gives.{
  Gives, bind-Gives, reject-Gives, last-Gives, option-Gives, touch-IsSound,
}

module _ (ups : List Upstream) (hs : List Holding) (gs : List RoutingGroup) (ms : List (ℕ × ℕ))
    (sound : Sound ups hs gs ms) where
  pub insert-Sound :
      (h : Holding)
      → any (λ x. x.id == h.id) hs ≡ false
      → any (λ x. str_eq x.public_key h.public_key) hs ≡ false
      → any (λ x. str_eq x.v6_cidr h.v6_cidr) hs ≡ false
      → IsAttached ups h
      → Sound ups (hs ++ (h ∷ [])) gs ms
  insert-Sound h fresh key prefix stored = record {
    attached = All-append (IsAttached ups) hs (h ∷ []) sound.attached (stored, tt);
    joined =
        All-imp (IsJoined hs gs) (IsJoined (hs ++ (h ∷ [])) gs) ms
          (λ m j. (any-append (λ x. x.id == m.0) hs (h ∷ []) ∙ rw (j.0) refl, j.1)) sound.joined;
    upstreams = sound.upstreams;
    groups = sound.groups;
    tunnels = record {
      ids =
          append-IsUnique (same_id (λ x. x.id)) hs h (λ x. ==_comm x.id h.id) fresh
            sound.tunnels.ids;
      keys =
          append-IsUnique (same_key (λ x. x.public_key)) hs h
            (λ x. str_eq-sym x.public_key h.public_key) key sound.tunnels.keys;
      prefixes =
          append-IsUnique (same_key (λ x. x.v6_cidr)) hs h (λ x. str_eq-sym x.v6_cidr h.v6_cidr)
            prefix sound.tunnels.prefixes;
    };
  }

  pub delete-Sound :
      (id : ℕ) → Sound ups (delete_where (λ h. h.id == id) hs) gs (delete_where (λ m. m.0 == id) ms)
  delete-Sound id = record {
    attached = All-delete_where (IsAttached ups) (λ h. h.id == id) hs sound.attached;
    joined =
        All-delete_where_imp (IsJoined hs gs) (IsJoined (delete_where (λ h. h.id == id) hs) gs)
          (λ m. m.0 == id) ms
          (λ m e j. (
            any-delete_where (λ x. x.id == m.0) (λ h. h.id == id) hs (λ x g. ground arith) ∙ j.0,
            j.1,
          ))
          sound.joined;
    upstreams = sound.upstreams;
    groups = sound.groups;
    tunnels = record {
      ids = delete_where-IsUnique (same_id (λ x. x.id)) (λ h. h.id == id) hs sound.tunnels.ids;
      keys =
          delete_where-IsUnique (same_key (λ x. x.public_key)) (λ h. h.id == id) hs
            sound.tunnels.keys;
      prefixes =
          delete_where-IsUnique (same_key (λ x. x.v6_cidr)) (λ h. h.id == id) hs
            sound.tunnels.prefixes;
    };
  }

-- No other tunnel has the key or the prefix.
abbrev AreFree : List Tunnel → Tunnel → Unit {0} → Type 0
AreFree ts t done =
    (any (λ r. str_eq r.public_key t.public_key) ts ≡ false)
    × (any (λ r. str_eq r.v6_cidr t.v6_cidr) ts ≡ false)

unique_tunnel-Gives : (ts : List Tunnel) (t : Tunnel) → Gives (AreFree ts t) (unique_tunnel ts t)
unfolding unique_tunnel
unique_tunnel-Gives ts t =
    reject-Gives (AreFree ts t) (any (λ r. str_eq r.public_key t.public_key) ts) _ _ (λ key.
      reject-Gives (AreFree ts t) (any (λ r. str_eq r.v6_cidr t.v6_cidr) ts) _ _
        (λ prefix. last-Gives (AreFree ts t) _ _ (λ address. (key, prefix))))

pub insert_tunnel-Gives :
    (db : Db) (t : Tunnel) (admin : String) (now : ℕ)
    → IsSound db
    → any (λ u. u.id == t.upstream_id) db.upstreams ≡ true
    → Gives (λ (row : ℕ × Db). IsSound row.1) (insert_tunnel db t admin now)
unfolding insert_tunnel add_audit new_row
insert_tunnel-Gives db t admin now sound stored =
    let id = next_id (map (λ (r : Tunnel). r.id) db.tunnels) in
    let hs = map holding db.tunnels in
    let next : Db = record db { tunnels = db.tunnels ++ (new_row t id now ∷ []) } in
    bind-Gives (AreFree db.tunnels t) (λ (row : ℕ × Db). IsSound row.1) (unique_tunnel db.tunnels t)
      _ (unique_tunnel-Gives db.tunnels t)
      (λ done free.
        bind-Gives IsSound (λ (row : ℕ × Db). IsSound row.1)
          (set_memberships next id t.routing_groups) _
          (set_memberships-Gives next id t.routing_groups (
            subst (λ rows. Sound db.upstreams rows db.groups db.members)
              (sym (map-append_one holding db.tunnels (new_row t id now)))
              (insert-Sound db.upstreams hs db.groups db.members sound (holding (new_row t id now))
                (any-map holding (λ h. h.id == id) db.tunnels
                  ∙ next_id-fresh (λ (r : Tunnel). r.id) db.tunnels)
                (any-map holding (λ h. str_eq h.public_key t.public_key) db.tunnels ∙ free.0)
                (any-map holding (λ h. str_eq h.v6_cidr t.v6_cidr) db.tunnels ∙ free.1) stored)))
          (λ db' sound'. sound'))

pub delete_tunnel-IsSound :
    (db : Db) (id : ℕ) (admin : String) (now : ℕ)
    → IsSound db
    → IsSound (delete_tunnel db id admin now)
unfolding delete_tunnel add_audit
delete_tunnel-IsSound db id admin now sound =
    subst (λ rows. Sound db.upstreams rows db.groups (delete_where (λ m. m.0 == id) db.members))
      (sym (map-delete_where holding (λ h. h.id == id) db.tunnels))
      (delete-Sound db.upstreams (map holding db.tunnels) db.groups db.members sound id)

pub telemetry-Gives :
    (db : Db) (read : Tunnel) (month : String) (now : ℕ)
    → IsSound db
    → Gives (λ (row : Bool × Db). IsSound row.1) (update_tunnel_telemetry db read month now)
unfolding update_tunnel_telemetry update_tunnel store_telemetry
telemetry-Gives db read month now sound =
    option-Gives (λ (row : Bool × Db). IsSound row.1) (find_tunnel db.tunnels read.id) _ _
      (λ t e.
        touch-IsSound db (λ r. r.id == read.id) (store_telemetry read month now) (λ r. refl) sound)

pub set_tunnel_quota-Gives :
    (db : Db) (id quota : ℕ) (admin : String) (now : ℕ)
    → IsSound db
    → Gives IsSound (set_tunnel_quota db id quota admin now)
unfolding set_tunnel_quota update_tunnel store_quota add_audit
set_tunnel_quota-Gives db id quota admin now sound =
    option-Gives IsSound (find_tunnel db.tunnels id) _ _
      (λ t e. touch-IsSound db (λ r. r.id == id) (store_quota quota now) (λ r. refl) sound)
