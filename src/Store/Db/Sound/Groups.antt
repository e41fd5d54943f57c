-- ===== src/Store/Db/Sound/Groups.antt =====
-- What inserting, renaming and deleting a routing group keeps, and the memberships of a tunnel.
use open_tunnelbroker.Prelude.{
  ℕ, String, true, false, not, ◌&&◌, List, [], ◌∷◌, ◌++◌, ◌==◌, str_eq, any, All, ◌≡◌, refl, ◌∙◌,
  arith, map, ap, str_eq-sym, ==_comm, ==_refl, Bool-cases, inl, inr,
}
use open_tunnelbroker.Models.{Upstream, Tunnel}
use open_tunnelbroker.Store.Table.{update_where, delete_where}
use open_tunnelbroker.Store.Table.Laws.{
  any-append, any-delete_where, any-update_where, All-imp, All-append, All-delete_where,
  All-delete_where_imp,
}
use open_tunnelbroker.Store.Table.Unique.{
  same_id, same_key, clashes, append-IsUnique, delete_where-IsUnique, update_where-IsUnique,
  replace-IsUnique,
}
use open_tunnelbroker.Store.Db.{Db, RoutingGroup, add_audit, set_pending}
use open_tunnelbroker.Store.Db.Groups.{
  set_name, join_named, join_groups, check_groups, has_repeat, set_memberships,
  set_tunnel_routing_groups, has_group, create_routing_group, find_group, rename_routing_group,
  delete_routing_group,
}
use open_tunnelbroker.Store.Db.Sound.{Holding, holding, Sound, IsSound, IsJoined}
use open_tunnelbroker.Store.Db.Sound.Rows.{any-map, next_id-fresh}
use open_tunnelbroker.Store.Db.Sound.Gives.{
  Gives, bind-Gives, reject-Gives, option-Gives, trivial-Gives, touch-IsSound,
}

-- The groups of a list are stored in a table.
abbrev AreStored : List RoutingGroup → List RoutingGroup → Type 0
AreStored table gs = All (λ (g : RoutingGroup). any (λ x. x.id == g.id) table ≡ true) gs

self-AreStored : (gs : List RoutingGroup) → AreStored gs gs
self-AreStored [] = tt
self-AreStored (g ∷ gs) = (
  rw (==_refl g.id) refl,
  All-imp (λ (x : RoutingGroup). any (λ y. y.id == x.id) gs ≡ true)
      (λ (x : RoutingGroup). any (λ y. y.id == x.id) (g ∷ gs) ≡ true) gs (λ x h. ground arith)
      (self-AreStored gs),
)

module _ (hs : List Holding) (table : List RoutingGroup) (tunnel : ℕ)
    (known : any (λ h. h.id == tunnel) hs ≡ true) where
  join_named-IsJoined :
      (gs : List RoutingGroup) (name : String)
      → AreStored table gs
      → All (IsJoined hs table) (join_named gs tunnel name)
  unfolding join_named
  join_named-IsJoined [] name stored = tt
  join_named-IsJoined (g ∷ gs) name stored = elim (Bool-cases (str_eq g.name name)) [
    | inl e ↦ rw (e) ((known, stored.0), join_named-IsJoined gs name stored.1)
    | inr e ↦ rw (e) (join_named-IsJoined gs name stored.1)
  ]

  join_groups-IsJoined :
      (names : List String) → All (IsJoined hs table) (join_groups table tunnel names)
  unfolding join_groups
  join_groups-IsJoined [] = tt
  join_groups-IsJoined (name ∷ names) =
      All-append (IsJoined hs table) (join_named table tunnel name) (join_groups table tunnel names)
        (join_named-IsJoined table name (self-AreStored table)) (join_groups-IsJoined names)

members-IsJoined :
    (hs : List Holding) (table : List RoutingGroup) (tunnel : ℕ) (names : List String)
    → (any (λ name. true) names && not (any (λ h. h.id == tunnel) hs)) ≡ false
    → All (IsJoined hs table) (join_groups table tunnel names)
unfolding join_groups
members-IsJoined hs table tunnel [] known = tt
members-IsJoined hs table tunnel (name ∷ names) known =
    join_groups-IsJoined hs table tunnel (ground arith) (name ∷ names)

module _ (ups : List Upstream) (hs : List Holding) (gs : List RoutingGroup) (ms : List (ℕ × ℕ))
    (sound : Sound ups hs gs ms) where
  pub memberships-Sound :
      (tunnel : ℕ) (names : List String)
      → (any (λ name. true) names && not (any (λ h. h.id == tunnel) hs)) ≡ false
      → Sound ups hs gs (delete_where (λ m. m.0 == tunnel) ms ++ join_groups gs tunnel names)
  memberships-Sound tunnel names known = record {
    attached = sound.attached;
    joined =
        All-append (IsJoined hs gs) (delete_where (λ m. m.0 == tunnel) ms)
          (join_groups gs tunnel names)
          (All-delete_where (IsJoined hs gs) (λ m. m.0 == tunnel) ms sound.joined)
          (members-IsJoined hs gs tunnel names known);
    upstreams = sound.upstreams;
    tunnels = sound.tunnels;
    groups = sound.groups;
  }

  pub insert-Sound :
      (g : RoutingGroup)
      → any (λ x. x.id == g.id) gs ≡ false
      → any (λ x. str_eq x.name g.name) gs ≡ false
      → Sound ups hs (gs ++ (g ∷ [])) ms
  insert-Sound g fresh name = record {
    attached = sound.attached;
    joined =
        All-imp (IsJoined hs gs) (IsJoined hs (gs ++ (g ∷ []))) ms
          (λ m j. (j.0, any-append (λ x. x.id == m.1) gs (g ∷ []) ∙ rw (j.1) refl)) sound.joined;
    upstreams = sound.upstreams;
    tunnels = sound.tunnels;
    groups = record {
      ids =
          append-IsUnique (same_id (λ x. x.id)) gs g (λ x. ==_comm x.id g.id) fresh
            sound.groups.ids;
      names =
          append-IsUnique (same_key (λ x. x.name)) gs g (λ x. str_eq-sym x.name g.name) name
            sound.groups.names;
    };
  }

  pub rename-Sound :
      (id : ℕ) (name : String)
      → any (clashes (λ g. g.id) (λ g. g.name) id name) gs ≡ false
      → Sound ups hs (update_where (λ g. g.id == id) (set_name name) gs) ms
  unfolding set_name
  rename-Sound id name free = record {
    attached = sound.attached;
    joined =
        All-imp (IsJoined hs gs) (IsJoined hs (update_where (λ g. g.id == id) (set_name name) gs))
          ms
          (λ m j. (
            j.0,
            any-update_where (λ x. x.id == m.1) (λ g. g.id == id) (set_name name) gs (λ g. refl)
                ∙ j.1,
          ))
          sound.joined;
    upstreams = sound.upstreams;
    tunnels = sound.tunnels;
    groups = record {
      ids =
          update_where-IsUnique (same_id (λ x. x.id)) (λ g. g.id == id) (set_name name) gs
            (λ x y. refl) (λ x y. refl) sound.groups.ids;
      names =
          replace-IsUnique (λ g. g.id) (λ g. g.name) id name (set_name name) gs (λ g. refl)
            sound.groups.ids free sound.groups.names;
    };
  }

  pub delete-Sound :
      (id : ℕ) → Sound ups hs (delete_where (λ g. g.id == id) gs) (delete_where (λ m. m.1 == id) ms)
  delete-Sound id = record {
    attached = sound.attached;
    joined =
        All-delete_where_imp (IsJoined hs gs) (IsJoined hs (delete_where (λ g. g.id == id) gs))
          (λ m. m.1 == id) ms
          (λ m e j. (
            j.0,
            any-delete_where (λ x. x.id == m.1) (λ g. g.id == id) gs (λ x g. ground arith) ∙ j.1,
          ))
          sound.joined;
    upstreams = sound.upstreams;
    tunnels = sound.tunnels;
    groups = record {
      ids = delete_where-IsUnique (same_id (λ x. x.id)) (λ g. g.id == id) gs sound.groups.ids;
      names =
          delete_where-IsUnique (same_key (λ x. x.name)) (λ g. g.id == id) gs sound.groups.names;
    };
  }

pub set_memberships-Gives :
    (db : Db) (tunnel : ℕ) (names : List String)
    → IsSound db
    → Gives IsSound (set_memberships db tunnel names)
unfolding set_memberships
set_memberships-Gives db tunnel names sound =
    bind-Gives (λ done. Unit {0}) IsSound (check_groups db.groups names) _
      (trivial-Gives (check_groups db.groups names))
      (λ done ignored.
        reject-Gives IsSound
          (any (λ name. true) names && not (any (λ (t : Tunnel). t.id == tunnel) db.tunnels)) _ _
          (λ known. reject-Gives IsSound (has_repeat names) _ _ (λ distinct.
            memberships-Sound db.upstreams (map holding db.tunnels) db.groups db.members sound
              tunnel names
              (ap (λ b. any (λ name. true) names && not b)
                  (any-map holding (λ h. h.id == tunnel) db.tunnels)
                ∙ known))))

pub set_groups-Gives :
    (db : Db) (id : ℕ) (names : List String) (admin : String) (now : ℕ)
    → IsSound db
    → Gives IsSound (set_tunnel_routing_groups db id names admin now)
unfolding set_tunnel_routing_groups set_pending add_audit
set_groups-Gives db id names admin now sound =
    bind-Gives IsSound IsSound (set_memberships db id names) _
      (set_memberships-Gives db id names sound)
      (λ db' sound'. touch-IsSound db' (λ t. t.id == id) (set_pending now) (λ t. refl) sound')

pub create_group-Gives :
    (db : Db) (name admin : String) (now : ℕ)
    → IsSound db
    → Gives IsSound (create_routing_group db name admin now)
unfolding create_routing_group has_group add_audit
create_group-Gives db name admin now sound =
    reject-Gives IsSound (any (λ (g : RoutingGroup). str_eq g.name name) db.groups) _ _ (λ free.
      insert-Sound db.upstreams (map holding db.tunnels) db.groups db.members sound _
        (next_id-fresh (λ (g : RoutingGroup). g.id) db.groups) free)

pub rename_group-Gives :
    (db : Db) (id : ℕ) (name admin : String) (now : ℕ)
    → IsSound db
    → Gives IsSound (rename_routing_group db id name admin now)
unfolding rename_routing_group add_audit
rename_group-Gives db id name admin now sound =
    option-Gives IsSound (find_group db.groups id) _ _ (λ old e.
      reject-Gives IsSound (any (clashes (λ g. g.id) (λ g. g.name) id name) db.groups) _ _ (λ free.
        rename-Sound db.upstreams (map holding db.tunnels) db.groups db.members sound id name free))

pub delete_group-Gives :
    (db : Db) (id : ℕ) (admin : String) (now : ℕ)
    → IsSound db
    → Gives IsSound (delete_routing_group db id admin now)
unfolding delete_routing_group add_audit
delete_group-Gives db id admin now sound =
    option-Gives IsSound (find_group db.groups id) _ _
      (λ group e. delete-Sound db.upstreams (map holding db.tunnels) db.groups db.members sound id)
