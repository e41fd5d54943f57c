-- ===== src/Store/Db/Sound/Upstreams.antt =====
-- What inserting, updating and deleting an upstream keeps.
use open_tunnelbroker.Prelude.{
  ℕ, String, false, List, [], ◌∷◌, ◌++◌, ◌==◌, ltb, any, map, All, ◌≡◌, refl, ◌∙◌, arith,
  str_eq-sym, ==_comm,
}
use open_tunnelbroker.Models.{Upstream, Tunnel}
use open_tunnelbroker.Store.Table.{update_where, delete_where}
use open_tunnelbroker.Store.Table.Laws.{
  any-append, any-update_where, any-delete_where, All-imp, All-zip,
}
use open_tunnelbroker.Store.Table.Unique.{
  same_id, same_key, clashes, clashes-new, append-IsUnique, delete_where-IsUnique,
  update_where-IsUnique, replace-IsUnique,
}
use open_tunnelbroker.Store.Db.{
  Db, RoutingGroup, next_id, add_audit, find_upstream, count_tunnels, set_pending,
}
use open_tunnelbroker.Store.Db.Upstreams.{
  unique_upstream, replace_upstream, insert_upstream, update_upstream, delete_upstream,
}
use open_tunnelbroker.Store.Db.Sound.{Holding, holding, Sound, IsSound, IsAttached}
use open_tunnelbroker.Store.Db.Sound.Rows.{next_id-fresh}
use open_tunnelbroker.Store.Db.Sound.Gives.{
  Gives, bind-Gives, reject-Gives, last-Gives, option-Gives, touch-IsSound,
}

module _ (ups : List Upstream) (hs : List Holding) (gs : List RoutingGroup) (ms : List (ℕ × ℕ))
    (sound : Sound ups hs gs ms) where
  pub insert-Sound :
      (row : Upstream)
      → any (λ u. u.id == row.id) ups ≡ false
      → any (clashes (λ u. u.id) (λ u. u.name) row.id row.name) ups ≡ false
      → any (clashes (λ u. u.id) (λ u. u.interface_name) row.id row.interface_name) ups ≡ false
      → Sound (ups ++ (row ∷ [])) hs gs ms
  insert-Sound row fresh name interface = record {
    attached =
        All-imp (IsAttached ups) (IsAttached (ups ++ (row ∷ []))) hs
          (λ h g. any-append (λ u. u.id == h.upstream_id) ups (row ∷ []) ∙ rw (g) refl)
          sound.attached;
    joined = sound.joined;
    tunnels = sound.tunnels;
    groups = sound.groups;
    upstreams = record {
      ids =
          append-IsUnique (same_id (λ u. u.id)) ups row (λ u. ==_comm u.id row.id) fresh
            sound.upstreams.ids;
      names =
          append-IsUnique (same_key (λ u. u.name)) ups row (λ u. str_eq-sym u.name row.name)
            (clashes-new (λ u. u.id) (λ u. u.name) row.id row.name ups name fresh)
            sound.upstreams.names;
      interfaces =
          append-IsUnique (same_key (λ u. u.interface_name)) ups row
            (λ u. str_eq-sym u.interface_name row.interface_name)
            (clashes-new (λ u. u.id) (λ u. u.interface_name) row.id row.interface_name ups interface
              fresh)
            sound.upstreams.interfaces;
    };
  }

  pub replace-Sound :
      (up : Upstream) (now : ℕ)
      → any (clashes (λ u. u.id) (λ u. u.name) up.id up.name) ups ≡ false
      → any (clashes (λ u. u.id) (λ u. u.interface_name) up.id up.interface_name) ups ≡ false
      → Sound (update_where (λ r. r.id == up.id) (replace_upstream up now) ups) hs gs ms
  unfolding replace_upstream
  replace-Sound up now name interface = record {
    attached =
        All-imp (IsAttached ups)
          (IsAttached (update_where (λ r. r.id == up.id) (replace_upstream up now) ups)) hs
          (λ h g.
            any-update_where (λ u. u.id == h.upstream_id) (λ r. r.id == up.id)
              (replace_upstream up now) ups (λ u. refl)
            ∙ g)
          sound.attached;
    joined = sound.joined;
    tunnels = sound.tunnels;
    groups = sound.groups;
    upstreams = record {
      ids =
          update_where-IsUnique (same_id (λ u. u.id)) (λ r. r.id == up.id) (replace_upstream up now)
            ups (λ u v. refl) (λ u v. refl) sound.upstreams.ids;
      names =
          replace-IsUnique (λ u. u.id) (λ u. u.name) up.id up.name (replace_upstream up now) ups
            (λ u. refl) sound.upstreams.ids name sound.upstreams.names;
      interfaces =
          replace-IsUnique (λ u. u.id) (λ u. u.interface_name) up.id up.interface_name
            (replace_upstream up now) ups (λ u. refl) sound.upstreams.ids interface
            sound.upstreams.interfaces;
    };
  }

  pub delete-Sound :
      (id : ℕ)
      → All (λ (h : Holding). (h.upstream_id == id) ≡ false) hs
      → Sound (delete_where (λ r. r.id == id) ups) hs gs ms
  delete-Sound id unused = record {
    attached =
        All-zip (IsAttached ups) (λ h. (h.upstream_id == id) ≡ false)
          (IsAttached (delete_where (λ r. r.id == id) ups)) hs
          (λ h g k.
            any-delete_where (λ u. u.id == h.upstream_id) (λ r. r.id == id) ups
              (λ u e. ground arith)
            ∙ g)
          sound.attached unused;
    joined = sound.joined;
    tunnels = sound.tunnels;
    groups = sound.groups;
    upstreams = record {
      ids = delete_where-IsUnique (same_id (λ u. u.id)) (λ r. r.id == id) ups sound.upstreams.ids;
      names =
          delete_where-IsUnique (same_key (λ u. u.name)) (λ r. r.id == id) ups
            sound.upstreams.names;
      interfaces =
          delete_where-IsUnique (same_key (λ u. u.interface_name)) (λ r. r.id == id) ups
            sound.upstreams.interfaces;
    };
  }

-- No row refers to an upstream that has no tunnels.
pub count_tunnels-none :
    (ts : List Tunnel) (id : ℕ)
    → ltb 0 (count_tunnels ts id) ≡ false
    → All (λ (h : Holding). (h.upstream_id == id) ≡ false) (map holding ts)
unfolding count_tunnels
count_tunnels-none [] id h = tt
count_tunnels-none (t ∷ ts) id h =
    let rest : ltb 0 (count_tunnels ts id) ≡ false = ground arith in
    (ground arith, count_tunnels-none ts id rest)

-- No other upstream has the name or the interface.
abbrev AreFree : List Upstream → Upstream → Unit {0} → Type 0
AreFree ups up done =
    (any (clashes (λ u. u.id) (λ u. u.name) up.id up.name) ups ≡ false)
    × (any (clashes (λ u. u.id) (λ u. u.interface_name) up.id up.interface_name) ups ≡ false)

unique_upstream-Gives :
    (ups : List Upstream) (up : Upstream) → Gives (AreFree ups up) (unique_upstream ups up)
unfolding unique_upstream
unique_upstream-Gives ups up =
    reject-Gives (AreFree ups up) (any (clashes (λ u. u.id) (λ u. u.name) up.id up.name) ups) _ _
      (λ name.
        last-Gives (AreFree ups up)
          (any (clashes (λ u. u.id) (λ u. u.interface_name) up.id up.interface_name) ups) _
          (λ interface. (name, interface)))

pub insert_upstream-Gives :
    (db : Db) (up : Upstream) (admin : String) (now : ℕ)
    → IsSound db
    → Gives (λ (row : ℕ × Db). IsSound row.1) (insert_upstream db up admin now)
unfolding insert_upstream add_audit
insert_upstream-Gives db up admin now sound =
    let id = next_id (map (λ (u : Upstream). u.id) db.upstreams) in
    let row : Upstream = record up {
      id = id;
      tunnel_count = 0;
      created_at = now;
      updated_at = now;
    } in
    bind-Gives (AreFree db.upstreams row) (λ (row : ℕ × Db). IsSound row.1)
      (unique_upstream db.upstreams row) _ (unique_upstream-Gives db.upstreams row)
      (λ done free.
        insert-Sound db.upstreams (map holding db.tunnels) db.groups db.members sound row
          (next_id-fresh (λ (u : Upstream). u.id) db.upstreams) free.0 free.1)

pub update_upstream-Gives :
    (db : Db) (up : Upstream) (admin : String) (now : ℕ)
    → IsSound db
    → Gives IsSound (update_upstream db up admin now)
unfolding update_upstream add_audit set_pending
update_upstream-Gives db up admin now sound =
    bind-Gives (AreFree db.upstreams up) IsSound (unique_upstream db.upstreams up) _
      (unique_upstream-Gives db.upstreams up)
      (λ done free.
        touch-IsSound
          (record db {
            upstreams = update_where (λ r. r.id == up.id) (replace_upstream up now) db.upstreams;
          })
          (λ t. t.upstream_id == up.id) (set_pending now) (λ t. refl)
          (replace-Sound db.upstreams (map holding db.tunnels) db.groups db.members sound up now
            free.0 free.1))

pub delete_upstream-Gives :
    (db : Db) (id : ℕ) (admin : String) (now : ℕ)
    → IsSound db
    → Gives IsSound (delete_upstream db id admin now)
unfolding delete_upstream add_audit
delete_upstream-Gives db id admin now sound =
    option-Gives IsSound (find_upstream db.upstreams id) _ _ (λ up e.
      reject-Gives IsSound (ltb 0 (count_tunnels db.tunnels id)) _ _ (λ unused.
        delete-Sound db.upstreams (map holding db.tunnels) db.groups db.members sound id
          (count_tunnels-none db.tunnels id unused)))
