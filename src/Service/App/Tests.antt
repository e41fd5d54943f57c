-- ===== src/Service/App/Tests.antt =====
-- The theorems on requests, with a kernel that counts its calls and cannot remove anything.
use open_tunnelbroker.Service.App.Requests
use open_tunnelbroker.Prelude.{ℕ, suc, List, [], ◌∷◌, some, true, str_eq, not, ◌≡◌, refl}
use open_tunnelbroker.Prelude.Int.{pos}
use open_tunnelbroker.Allocator.{index}
use open_tunnelbroker.Store.Db.Tests.{db, db-IsSound}
use open_tunnelbroker.Store.Db.Sound.{IsSound}
use open_tunnelbroker.Service.App.{Kernel, World, Call, answer, broken, returned, ◌>>=◌}
use open_tunnelbroker.Service.App.Requests.{Request, handle_all}
use open_tunnelbroker.Service.App.Sound.Requests.{handle_all-IsSound}
use open_tunnelbroker.Models.{Upstream, Tunnel, upstream_by_id, tunnel_v4_mode}
use open_tunnelbroker.Models.Tests.{on_link, tunnel}
use open_tunnelbroker.Store.Db.{
  ok, tunnel_row, upstream_row, find_tunnel, find_upstream, load_tunnel, load_upstream,
  all_upstreams, all_tunnels,
}
use open_tunnelbroker.Service.App.Handlers.{handle_delete_tunnel}
use open_tunnelbroker.Service.App.Removal.{succeeded, has_tunnel, handle_delete_tunnel-has_tunnel}
use open_tunnelbroker.Service.App.Reconcile.{reconcile}
use open_tunnelbroker.Service.App.Settled.{AreSettled, reconcile-AreSettled}
use open_tunnelbroker.Ndp.Proxy.{sort_by}
use open_tunnelbroker.Store.Db.Tunnels.{
  reset_monthly_quotas, store_reset, update_tunnel_telemetry, store_telemetry,
}
use open_tunnelbroker.Store.Table.{update_where}
use open_tunnelbroker.Store.Quota.{quota_hit, exceeds, used_after}

abbrev counting : Kernel ℕ
counting = record {
  apply = λ cfg warp ups ts k. (answer ts, suc k);
  inspect = λ cfg warp ups ts k. answer [];
  remove = λ up t k. (broken "device busy", suc k);
  remove_upstream = λ up k. (broken "device busy", suc k);
}

abbrev world : World ℕ
world = record {
  db = db;
  kernel = 0;
  health = record { drift = []; last_reconcile = 0; error = "" };
}

abbrev call : Call
call = record {
  stamp = record { admin = "admin"; month = "2026-02"; now = 7 };
  equal_fold = str_eq;
  choose = λ count. index (pos 0);
  server_key = some "server";
  tunnel_key = some ("private", "public");
  shared_key = some "shared";
  parses = λ key. true;
}

abbrev requests : List (Request × Call)
requests =
    (Requests.create_group "work", call)
    ∷ (Requests.tunnel_groups 1 (" work " ∷ "friends" ∷ []), call)
    ∷ (Requests.quota 1 (pos 5), call)
    ∷ (Requests.delete_tunnel 1, call)
    ∷ (Requests.delete_upstream 1, call)
    ∷ (Requests.reconcile_now, call)
    ∷ []

handle_all-IsSound_example : IsSound (handle_all counting requests world).db
handle_all-IsSound_example = handle_all-IsSound counting requests world db-IsSound

abbrev row : Tunnel
row = load_tunnel db (tunnel 1)

finds_row : tunnel_row db 1 ≡ ok row
unfolding tunnel_row find_tunnel
finds_row = refl

abbrev home : Upstream
home = load_upstream db.tunnels (on_link "")

finds_upstream : upstream_row db row.upstream_id ≡ ok home
unfolding upstream_row find_upstream load_tunnel
finds_upstream = refl

handle_delete_tunnel-has_tunnel_example :
    has_tunnel (handle_delete_tunnel counting call 1 world).1.db 1
    ≡ not (succeeded (counting.remove home row world.kernel).0)
handle_delete_tunnel-has_tunnel_example =
    handle_delete_tunnel-has_tunnel counting call 1 world row home finds_row finds_upstream

abbrev after : World ℕ
after = (reconcile counting call.stamp world).1

succeeds : reconcile counting call.stamp world ≡ (returned tt, after)
unfolding reconcile ◌>>=◌ all_upstreams sort_by reset_monthly_quotas all_tunnels update_where
    upstream_by_id store_reset tunnel_v4_mode update_tunnel_telemetry find_tunnel quota_hit exceeds
    used_after store_telemetry
succeeds = refl

reconcile-AreSettled_example : AreSettled after.db
reconcile-AreSettled_example =
    reconcile-AreSettled counting call.stamp world after db-IsSound succeeds
