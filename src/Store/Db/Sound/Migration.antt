-- ===== src/Store/Db/Sound/Migration.antt =====
-- What the conversion of an older database gives.
use mathlib.Core.Path.{subst}
use open_tunnelbroker.Prelude.{
  ℕ, Bool, true, false, ◌||◌, List, [], ◌∷◌, ◌++◌, Option, none, some, map, any, All, length, ltb,
  ◌==◌, str_eq, trim_space, ◌≡◌, refl, sym, ◌∙◌, Bool-cases, inl, inr, ==_refl, arith,
}
use open_tunnelbroker.Models.{Upstream, Tunnel}
use open_tunnelbroker.Store.Table.{update_where, IsUnique}
use open_tunnelbroker.Store.Table.Laws.{any-update_where, All-imp}
use open_tunnelbroker.Store.Table.Unique.{same_id, same_key, update_where-IsUnique}
use open_tunnelbroker.Store.Db.{Db, RoutingGroup, add_audit, next_id}
use open_tunnelbroker.Store.Db.Legacy.{
  LegacySettings, legacy_upstream, attach_tunnel, convert_upstream, migrate_legacy_upstream,
}
use open_tunnelbroker.Store.Db.Sound.{
  Holding, holding, Sound, IsSound, IsAttached, IsJoined, UniqueTunnels, UniqueGroups,
}

abbrev attach_holding : ℕ → Holding → Holding
attach_holding id h = record h { upstream_id = id }

holding-attach :
    (id : ℕ) (ts : List Tunnel)
    → map holding (update_where (λ t. t.upstream_id == 0) (attach_tunnel id) ts)
      ≡ update_where (λ h. h.upstream_id == 0) (attach_holding id) (map holding ts)
unfolding update_where attach_tunnel
holding-attach id [] = refl
holding-attach id (t ∷ ts) = elim (Bool-cases (t.upstream_id == 0)) [
  | inl e ↦ rw (e, holding-attach id ts) refl
  | inr e ↦ rw (e, holding-attach id ts) refl
]

any-attach :
    (id n : ℕ) (hs : List Holding)
    → any (λ h. h.id == n) (update_where (λ h. h.upstream_id == 0) (attach_holding id) hs)
      ≡ any (λ h. h.id == n) hs
any-attach id n hs =
    any-update_where (λ h. h.id == n) (λ h. h.upstream_id == 0) (attach_holding id) hs (λ h. refl)

update_where-IsAttached :
    (up : Upstream) (hs : List Holding)
    → All (λ (h : Holding). h.upstream_id ≡ 0) hs
    → All (IsAttached (up ∷ [])) (update_where (λ h. h.upstream_id == 0) (attach_holding up.id) hs)
unfolding update_where
update_where-IsAttached up [] unassigned = tt
update_where-IsAttached up (h ∷ hs) unassigned =
    let here : (h.upstream_id == 0) ≡ true = ground arith in
    rw (here) (rw (==_refl up.id) refl, update_where-IsAttached up hs unassigned.1)

converted-Sound :
    (up : Upstream) (hs : List Holding) (gs : List RoutingGroup) (ms : List (ℕ × ℕ))
    → All (λ (h : Holding). h.upstream_id ≡ 0) hs
    → All (IsJoined hs gs) ms
    → UniqueTunnels hs
    → UniqueGroups gs
    → Sound (up ∷ []) (update_where (λ h. h.upstream_id == 0) (attach_holding up.id) hs) gs ms
unfolding IsUnique
converted-Sound up hs gs ms unassigned joined tunnels groups =
    let p : Holding → Bool = λ h. h.upstream_id == 0 in
    record {
      attached = update_where-IsAttached up hs unassigned;
      joined =
          All-imp (IsJoined hs gs) (IsJoined (update_where p (attach_holding up.id) hs) gs) ms
            (λ m j. (any-attach up.id m.0 hs ∙ j.0, j.1)) joined;
      upstreams = record { ids = (refl, tt); names = (refl, tt); interfaces = (refl, tt) };
      tunnels = record {
        ids =
            update_where-IsUnique (same_id (λ x. x.id)) p (attach_holding up.id) hs (λ x y. refl)
              (λ x y. refl) tunnels.ids;
        keys =
            update_where-IsUnique (same_key (λ x. x.public_key)) p (attach_holding up.id) hs
              (λ x y. refl) (λ x y. refl) tunnels.keys;
        prefixes =
            update_where-IsUnique (same_key (λ x. x.v6_cidr)) p (attach_holding up.id) hs
              (λ x y. refl) (λ x y. refl) tunnels.prefixes;
      };
      groups = groups;
    }

-- Where an older database has no upstream yet, its tunnels belong to none, and the settings row has a
-- prefix that is not blank, the migrated tables are sound: the tunnels all belong to the new upstream.
-- This is so if the memberships refer to stored rows, and the ids, keys and prefixes of the tunnels and
-- the ids and names of the groups do not repeat.
pub migrate_legacy_upstream-IsSound :
    (db : Db) (legacy : LegacySettings) (now : ℕ)
    → db.upstreams ≡ []
    → All (λ (h : Holding). h.upstream_id ≡ 0) (map holding db.tunnels)
    → str_eq (trim_space legacy.upstream.v6_cidr) "" ≡ false
    → All (IsJoined (map holding db.tunnels) db.groups) db.members
    → UniqueTunnels (map holding db.tunnels)
    → UniqueGroups db.groups
    → IsSound (migrate_legacy_upstream db (some legacy) now)
unfolding migrate_legacy_upstream convert_upstream add_audit legacy_upstream next_id
migrate_legacy_upstream-IsSound db legacy now empty unassigned present joined tunnels groups =
    let up = legacy_upstream legacy 1 now in
    rw (empty, present)
      (subst (λ hs. Sound (up ∷ []) hs db.groups db.members) (sym (holding-attach up.id db.tunnels))
        (converted-Sound up (map holding db.tunnels) db.groups db.members unassigned joined tunnels
          groups))

some_rows : {A : Type 0} (xs : List A) (x : A) → ltb 0 (length (xs ++ (x ∷ []))) ≡ true
some_rows [] x = refl
some_rows (y ∷ xs) x = ground arith

-- Migrating the upstream again with the same settings row changes nothing.
pub migrate_legacy_upstream-twice :
    (db : Db) (legacy : Option LegacySettings) (now later : ℕ)
    → migrate_legacy_upstream (migrate_legacy_upstream db legacy now) legacy later
      ≡ migrate_legacy_upstream db legacy now
unfolding migrate_legacy_upstream convert_upstream add_audit
migrate_legacy_upstream-twice db none now later = refl
migrate_legacy_upstream-twice db (some legacy) now later =
    elim (Bool-cases
      (ltb 0 (length db.upstreams) || str_eq (trim_space legacy.upstream.v6_cidr) "")) [
        | inl e ↦ rw (e, e) refl
        | inr e ↦ rw (e) (
            rw
              (some_rows db.upstreams
                (legacy_upstream legacy (next_id (map (λ (u : Upstream). u.id) db.upstreams)) now))
              refl)
      ]
