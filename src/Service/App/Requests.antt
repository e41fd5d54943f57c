-- ===== src/Service/App/Requests.antt =====
-- internal/broker/service.go: what App can be asked to do, and the state that it is left in.
use open_tunnelbroker.Prelude.{ℕ, String, Bool, List, [], ◌∷◌}
use open_tunnelbroker.Prelude.Int.{ℤ}
use open_tunnelbroker.Models.{Settings}
use open_tunnelbroker.Service.Upstreams.{UpstreamInput}
use open_tunnelbroker.Service.Create.{CreateTunnelInput}
use open_tunnelbroker.Service.App.{Kernel, World, Call}
use open_tunnelbroker.Service.App.Reconcile.{reconcile}
use open_tunnelbroker.Service.App.Handlers.{
  handle_settings, handle_reset, handle_create_upstream, handle_update_upstream,
  handle_delete_upstream, handle_create_tunnel, handle_v4_mode, handle_quota, handle_tunnel_groups,
  handle_create_group, handle_rename_group, handle_delete_group, handle_delete_tunnel,
  handle_enabled,
}

pub data Request : Type 0 where
  settings : Settings → Request
  reset : Request
  create_upstream update_upstream : UpstreamInput → Request
  delete_upstream delete_tunnel delete_group : ℕ → Request
  create_tunnel : ℕ → CreateTunnelInput → Request
  v4_mode rename_group : ℕ → String → Request
  quota : ℕ → ℤ → Request
  tunnel_groups : ℕ → List String → Request
  create_group : String → Request
  enable : ℕ → Bool → Request
  reconcile_now : Request

-- The state after a request, whether it has failed or not.
unfoldable pub handle : {K : Type 0} → Kernel K → Request → Call → World K → World K
handle kernel (settings v) c w = (handle_settings kernel c v w).1
handle kernel reset c w = (handle_reset kernel c w).1
handle kernel (create_upstream input) c w = (handle_create_upstream kernel c input w).1
handle kernel (update_upstream input) c w = (handle_update_upstream kernel c input w).1
handle kernel (delete_upstream id) c w = (handle_delete_upstream kernel c id w).1
handle kernel (delete_tunnel id) c w = (handle_delete_tunnel kernel c id w).1
handle kernel (delete_group id) c w = (handle_delete_group kernel c id w).1
handle kernel (create_tunnel id input) c w = (handle_create_tunnel kernel c id input w).1
handle kernel (v4_mode id mode) c w = (handle_v4_mode kernel c id mode w).1
handle kernel (rename_group id name) c w = (handle_rename_group kernel c id name w).1
handle kernel (quota id gib) c w = (handle_quota kernel c id gib w).1
handle kernel (tunnel_groups id names) c w = (handle_tunnel_groups kernel c id names w).1
handle kernel (create_group name) c w = (handle_create_group kernel c name w).1
handle kernel (enable id on) c w = (handle_enabled kernel c id on w).1
handle kernel reconcile_now c w = (reconcile kernel c.stamp w).1

unfoldable pub handle_all : {K : Type 0} → Kernel K → List (Request × Call) → World K → World K
unfolding handle
handle_all kernel [] w = w
handle_all kernel (r ∷ rs) w = handle_all kernel rs (handle kernel r.0 r.1 w)
