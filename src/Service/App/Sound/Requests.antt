-- ===== src/Service/App/Sound/Requests.antt =====
-- The tables stay sound whatever App is asked to do.
use open_tunnelbroker.Prelude.{ℕ, List, [], ◌∷◌, Option, none, some, any, ◌==◌, ◌≡◌, true}
use open_tunnelbroker.Models.{Tunnel}
use open_tunnelbroker.Service.Groups.{resolve_upstream}
use open_tunnelbroker.Service.Create.{CreateTunnelInput, create_tunnel}
use open_tunnelbroker.Store.Db.{all_upstreams, all_tunnels, tunnel_row, tunnels_for_upstream}
use open_tunnelbroker.Store.Db.Tunnels.{insert_tunnel}
use open_tunnelbroker.Store.Db.Accounts.{warp_account}
use open_tunnelbroker.Store.Db.Sound.{IsSound}
use open_tunnelbroker.Store.Db.Sound.Tunnels.{insert_tunnel-Gives}
use open_tunnelbroker.Service.App.{
  Kernel, World, Call, Act, ◌>>=◌, ◌>>◌, continue, query, transact_with, stored_with,
}
use open_tunnelbroker.Service.App.Reconcile.{reconcile}
use open_tunnelbroker.Service.App.Handlers.{given, choice, chosen_upstream, handle_create_tunnel}
use open_tunnelbroker.Service.App.Requests
use open_tunnelbroker.Service.App.Requests.{Request, handle, handle_all}
use open_tunnelbroker.Service.App.Keeps.{Keeps, continue-Keeps, stored_with-Keeps}
use open_tunnelbroker.Service.App.Sound.{reconcile-Keeps}
use open_tunnelbroker.Service.App.Sound.Created.{
  Holds, imp-Holds, IsIn, chosen_upstream-IsIn, create_tunnel-Holds,
}
use open_tunnelbroker.Service.App.Sound.Handlers.{
  handle_settings-Keeps, handle_reset-Keeps, then_query-Keeps, handle_create_upstream-Keeps,
  handle_update_upstream-Keeps, handle_delete_upstream-Keeps, handle_v4_mode-Keeps,
  handle_quota-Keeps, handle_tunnel_groups-Keeps, handle_create_group-Keeps,
  handle_rename_group-Keeps, handle_delete_group-Keeps, handle_enabled-Keeps,
  handle_delete_tunnel-Keeps,
}

module _ {K : Type 0} (kernel : Kernel K) (c : Call) where
  -- What follows a value that may be missing.
  given-IsSound :
      {A B : Type 0} (o : Option A) (f : A → Act K B) (w : World K)
      → IsSound w.db
      → Holds (λ (a : A). IsSound (f a w).1.db) o
      → IsSound (continue (given o w) f).1.db
  given-IsSound none f w sound h = sound
  given-IsSound (some a) f w sound h = h

  abbrev finish : ℕ → Act K Tunnel
  finish id = reconcile kernel c.stamp >> query (λ db. tunnel_row db id)

  abbrev insert_new : Tunnel → Act K Tunnel
  insert_new t = transact_with (λ db. insert_tunnel db t c.stamp.admin c.stamp.now) >>= finish

  insert_new-IsSound :
      (t : Tunnel) (w : World K)
      → IsSound w.db
      → any (λ u. u.id == t.upstream_id) w.db.upstreams ≡ true
      → IsSound (insert_new t w).1.db
  unfolding ◌>>=◌
  insert_new-IsSound t w sound stored =
      let inserted = insert_tunnel w.db t c.stamp.admin c.stamp.now in
      continue-Keeps IsSound (stored_with w inserted) finish
        (stored_with-Keeps IsSound w inserted sound
          (insert_tunnel-Gives w.db t c.stamp.admin c.stamp.now sound stored))
        (λ id. then_query-Keeps kernel c (λ db. tunnel_row db id))

  handle_create_tunnel-Keeps :
      (id : ℕ) (input : CreateTunnelInput) → Keeps IsSound (handle_create_tunnel kernel c id input)
  unfolding handle_create_tunnel chosen_upstream ◌>>=◌
  handle_create_tunnel-Keeps id input w sound =
      given-IsSound (choice (resolve_upstream (all_upstreams w.db) id)) _ w sound (
        imp-Holds (IsIn w.db.upstreams) _ (choice (resolve_upstream (all_upstreams w.db) id))
          (λ up stored.
            given-IsSound
              (create_tunnel w.db.settings (warp_account w.db) up (tunnels_for_upstream w.db up.id)
                (all_tunnels w.db) input c.choose c.tunnel_key c.parses c.shared_key c.stamp.month)
              insert_new w sound
              (imp-Holds (λ (t : Tunnel). t.upstream_id ≡ up.id) _ _
                (λ t belongs. insert_new-IsSound t w sound (rw (belongs) stored))
                (create_tunnel-Holds w.db.settings (warp_account w.db) up
                  (tunnels_for_upstream w.db up.id) (all_tunnels w.db) input c.choose c.tunnel_key
                  c.parses c.shared_key c.stamp.month)))
          (chosen_upstream-IsIn w.db id))

handle-IsSound :
    {K : Type 0} (kernel : Kernel K) (r : Request) (c : Call) (w : World K)
    → IsSound w.db
    → IsSound (handle kernel r c w).db
unfolding handle
handle-IsSound kernel (Requests.settings v) c w h = handle_settings-Keeps kernel c v w h
handle-IsSound kernel Requests.reset c w h = handle_reset-Keeps kernel c w h
handle-IsSound kernel (Requests.create_upstream input) c w h =
    handle_create_upstream-Keeps kernel c input w h
handle-IsSound kernel (Requests.update_upstream input) c w h =
    handle_update_upstream-Keeps kernel c input w h
handle-IsSound kernel (Requests.delete_upstream id) c w h =
    handle_delete_upstream-Keeps kernel c id w h
handle-IsSound kernel (Requests.delete_tunnel id) c w h = handle_delete_tunnel-Keeps kernel c id w h
handle-IsSound kernel (Requests.delete_group id) c w h = handle_delete_group-Keeps kernel c id w h
handle-IsSound kernel (Requests.create_tunnel id input) c w h =
    handle_create_tunnel-Keeps kernel c id input w h
handle-IsSound kernel (Requests.v4_mode id mode) c w h = handle_v4_mode-Keeps kernel c id mode w h
handle-IsSound kernel (Requests.rename_group id name) c w h =
    handle_rename_group-Keeps kernel c id name w h
handle-IsSound kernel (Requests.quota id gib) c w h = handle_quota-Keeps kernel c id gib w h
handle-IsSound kernel (Requests.tunnel_groups id names) c w h =
    handle_tunnel_groups-Keeps kernel c id names w h
handle-IsSound kernel (Requests.create_group name) c w h =
    handle_create_group-Keeps kernel c name w h
handle-IsSound kernel (Requests.enable id on) c w h = handle_enabled-Keeps kernel c id on w h
handle-IsSound kernel Requests.reconcile_now c w h = reconcile-Keeps kernel c.stamp w h

-- If the tables are sound (every tunnel has its upstream, every membership its tunnel and its group, and
-- ids, names, interfaces, keys and prefixes are unique), they are so after any sequence of requests,
-- whatever the kernel does and at whichever step a request fails.
pub handle_all-IsSound :
    {K : Type 0} (kernel : Kernel K) (rs : List (Request × Call)) (w : World K)
    → IsSound w.db
    → IsSound (handle_all kernel rs w).db
unfolding handle_all
handle_all-IsSound kernel [] w sound = sound
handle_all-IsSound kernel (r ∷ rs) w sound =
    handle_all-IsSound kernel rs (handle kernel r.0 r.1 w) (handle-IsSound kernel r.0 r.1 w sound)
