-- ===== src/Service/App/Removal.antt =====
-- DeleteTunnel of internal/broker/service.go: when the row of a tunnel goes.
use mathlib.Core.Path.{subst}
use open_tunnelbroker.Prelude.{
  ℕ, Bool, true, false, not, List, [], ◌∷◌, Option, none, some, any, ◌==◌, ◌≡◌, refl, ◌∙◌,
  Bool-cases, inl, inr, ==_iff,
}
use open_tunnelbroker.Models.{Upstream, Tunnel}
use open_tunnelbroker.Store.Table.{delete_where}
use open_tunnelbroker.Store.Table.Laws.{any-update_where}
use open_tunnelbroker.Store.Db.{
  Db, ok, err, find_upstream, find_tunnel, load_tunnel, tunnel_row, upstream_row, add_audit,
  no_rows,
}
use open_tunnelbroker.Store.Db.Tunnels.{delete_tunnel, set_status, update_tunnel, store_status}
use open_tunnelbroker.Store.Db.Sound.Gives.{Gives}
use open_tunnelbroker.Service.App.Sound.Created.{Holds}
use open_tunnelbroker.Service.App.{
  Answer, answer, broken, Kernel, World, Call, ◌>>=◌, continue, called,
}
use open_tunnelbroker.Service.App.Handlers.{remove_tunnel, finish_removal, handle_delete_tunnel}

abbrev pub succeeded {ℓ} : {A : Type ℓ} → Answer A → Bool
succeeded (answer a) = true
succeeded (broken text) = false

-- Is the row of a tunnel stored?
abbrev pub has_tunnel : Db → ℕ → Bool
has_tunnel db id = any (λ t. t.id == id) db.tunnels

gone :
    (ts : List Tunnel) (id : ℕ) → any (λ t. t.id == id) (delete_where (λ t. t.id == id) ts) ≡ false
unfolding delete_where
gone [] id = refl
gone (t ∷ ts) id = elim (Bool-cases (t.id == id)) [
  | inl e ↦ rw (e) (gone ts id)
  | inr e ↦ rw (e, e) (gone ts id)
]

-- A row that is found is stored and has the id.
abbrev IsRow : Db → ℕ → Tunnel → Type 0
IsRow db id t = (t.id ≡ id) × (has_tunnel db id ≡ true)

find_tunnel-Holds :
    (ts : List Tunnel) (id : ℕ)
    → Holds (λ (t : Tunnel). (t.id ≡ id) × (any (λ r. r.id == id) ts ≡ true)) (find_tunnel ts id)
unfolding find_tunnel
find_tunnel-Holds [] id = tt
find_tunnel-Holds (r ∷ ts) id = elim (Bool-cases (r.id == id)) [
  | inl e ↦ rw (e) ((==_iff r.id id).0 e, refl)
  | inr e ↦ rw (e) (find_tunnel-Holds ts id)
]

some-IsRow :
    (db : Db) (id : ℕ) (o : Option Tunnel)
    → Holds (λ (t : Tunnel). (t.id ≡ id) × (has_tunnel db id ≡ true)) o
    → Gives (IsRow db id) (elim o [ none ↦ err no_rows | some t ↦ ok (load_tunnel db t) ])
unfolding load_tunnel
some-IsRow db id none h = tt
some-IsRow db id (some t) h = h

tunnel_row-IsRow : (db : Db) (id : ℕ) → Gives (IsRow db id) (tunnel_row db id)
unfolding tunnel_row
tunnel_row-IsRow db id =
    some-IsRow db id (find_tunnel db.tunnels id) (find_tunnel-Holds db.tunnels id)

module _ {K : Type 0} (kernel : Kernel K) (c : Call) (id : ℕ) (w : World K) (t : Tunnel)
    (row : IsRow w.db id t) where
  removal :
      (r : Answer (Unit {0}) × K)
      → has_tunnel (continue (called w r) (finish_removal kernel c t)).1.db id ≡ not (succeeded r.0)
  unfolding ◌>>=◌ delete_tunnel add_audit set_status update_tunnel store_status
  removal (answer done, k) = rw (row.0) (gone w.db.tunnels id)
  removal (broken text, k) =
      any-update_where (λ r. r.id == id) (λ r. r.id == t.id) (store_status "error" text c.stamp.now)
        w.db.tunnels (λ r. refl)
      ∙ row.1

-- Where a tunnel and its upstream are stored, DeleteTunnel leaves no row of the tunnel if the kernel has
-- removed the tunnel, and leaves its row if the kernel could not.
pub handle_delete_tunnel-has_tunnel :
    {K : Type 0} (kernel : Kernel K) (c : Call) (id : ℕ) (w : World K) (t : Tunnel) (up : Upstream)
    → tunnel_row w.db id ≡ ok t
    → upstream_row w.db t.upstream_id ≡ ok up
    → has_tunnel (handle_delete_tunnel kernel c id w).1.db id
      ≡ not (succeeded (kernel.remove up t w.kernel).0)
unfolding handle_delete_tunnel remove_tunnel ◌>>=◌ upstream_row find_upstream
handle_delete_tunnel-has_tunnel kernel c id w t up found known =
    rw (found, known)
      (removal kernel c id w t (subst (Gives (IsRow w.db id)) found (tunnel_row-IsRow w.db id))
        (kernel.remove up t w.kernel))
