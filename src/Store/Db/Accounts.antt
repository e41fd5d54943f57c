-- ===== src/Store/Db/Accounts.antt =====
-- internal/broker/store.go: the settings, the internal IPv4 addresses in the table of tunnels, the WARP
-- account and the administrators.
use open_tunnelbroker.Prelude.{
  ℕ, String, ◌||◌, List, [], ◌∷◌, ◌++◌, Option, none, some, str_eq, if◌then◌else◌, any, length,
}
use open_tunnelbroker.Netip.{Prefix}
use open_tunnelbroker.Netip.Text.{parse_prefix}
use open_tunnelbroker.Models.{Settings, WarpAccount}
use open_tunnelbroker.Store.Ipv4.{ensure_ipv4_allocations, next_v4}
use open_tunnelbroker.Store.Db.{
  Db, Tried, ok, err, ◌>>=◌, ◌>>◌, reject_if, pool_unparsable, pool_exhausted, admin_exists,
  credentials_invalid, all_upstreams, all_tunnels,
}

unfoldable pub parse_pool : String → Tried Prefix
parse_pool text = elim (parse_prefix text) [ none ↦ err pool_unparsable | some pool ↦ ok pool ]

-- ensureIPv4AllocationsTx on the table, whose rows stand in the order of their ids.
unfoldable pub allocate_addresses : Db → Prefix → Settings → Tried Db
allocate_addresses db pool cfg =
    elim (ensure_ipv4_allocations pool cfg (all_upstreams db) db.tunnels) [
      | none ↦ err pool_exhausted
      | some tunnels ↦ ok (record db { tunnels = tunnels })
    ]

-- Store.EnsureIPv4Allocations.
unfoldable pub ensure_allocations : Db → Settings → Tried Db
unfolding parse_pool
ensure_allocations db cfg = do pool ← parse_pool cfg.v4_pool; allocate_addresses db pool cfg

-- Store.SaveSettings.
unfoldable pub store_settings : Db → Settings → Tried Db
unfolding ensure_allocations
store_settings db v = do
  db' ← if v.v4_nat || v.v4_warp then ensure_allocations db v else ok db
  ok (record db' { settings = v })

-- Store.NextV4 on the table.
unfoldable pub next_address : Db → Prefix → Tried String
next_address db pool = elim (next_v4 pool (all_tunnels db)) [
  | none ↦ err pool_exhausted
  | some address ↦ ok address
]

-- The account that Store.WarpAccount returns for a missing row.
abbrev pub no_account : WarpAccount
no_account = record {
  private_key = "";
  peer_public_key = "";
  ipv4_address = "";
  endpoint = "";
  device_id = "";
  account_id = "";
  account_type = "";
  created_at = 0;
  last_trace = "";
  last_test_at = 0;
}

unfoldable pub warp_account : Db → WarpAccount
warp_account db = elim db.warp [ none ↦ no_account | some account ↦ account ]

unfoldable pub save_warp_account : Db → WarpAccount → Db
save_warp_account db account = record db {
  warp = some (record account { last_trace = ""; last_test_at = 0 });
}

unfoldable pub store_test : String → ℕ → Option WarpAccount → Option WarpAccount
store_test trace tested none = none
store_test trace tested (some account) =
    some (record account { last_trace = trace; last_test_at = tested })

unfoldable pub save_warp_test : Db → String → ℕ → Db
unfolding store_test
save_warp_test db trace tested = record db { warp = store_test trace tested db.warp }

unfoldable pub admin_count : Db → ℕ
admin_count db = length db.admins

unfoldable pub add_admin : Db → String → List ℕ → Tried Db
add_admin db user hash = do
  reject_if (any (λ a. str_eq a.0 user) db.admins) admin_exists
  ok (record db { admins = db.admins ++ ((user, hash) ∷ []) })

unfoldable pub find_admin : List (String × List ℕ) → String → Tried (List ℕ)
find_admin [] user = err credentials_invalid
find_admin (a ∷ admins) user = if str_eq a.0 user then ok a.1 else find_admin admins user

unfoldable pub admin_hash : Db → String → Tried (List ℕ)
unfolding find_admin
admin_hash db user = find_admin db.admins user
