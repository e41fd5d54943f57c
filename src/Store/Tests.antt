-- ===== src/Store/Tests.antt =====
-- The theorems on quotas and internal IPv4 addresses, on a row with a quota of one GiB and a pool of
-- four addresses.
use open_tunnelbroker.Prelude.{
  ℕ, ◌+◌, ◌*◌, ◌^◌, ◌≤◌, ◌<◌, ◌≡◌, ◌↔◌, refl, true, false, any, [], ◌∷◌, none, some, arith, List,
}
use open_tunnelbroker.Prelude.Int.{pos}
use open_tunnelbroker.Netip.{Addr, Prefix, v4, contains, addr_eq, next, masked}
use open_tunnelbroker.Service.Validate.{validate_quota, range_check, refuse_if}
use open_tunnelbroker.Store.Quota.{
  Row, update_telemetry, reset_row, set_enabled, exceeds, reaches, used_after, used_before,
  counter_delta,
}
use open_tunnelbroker.Store.Quota.Cycle.{
  update_telemetry-enforces, update_telemetry-twice, reset_row-restores, set_enabled_off-overridden,
}
use open_tunnelbroker.Store.Ipv4.{next_free_ipv4, free_from}
use open_tunnelbroker.Store.Ipv4.Free.{next_free_ipv4-IsFree, next_free_ipv4-exhausted, network}

abbrev row : Row
row = record {
  rx_bytes = 1000;
  tx_bytes = 2000;
  quota_used_bytes = 3000;
  quota_gib = 1;
  quota_period = "2026-01";
  quota_disabled = false;
  enabled = true;
  status = "applied";
}

abbrev spent : Row
spent = record row { quota_used_bytes = 2 ^ 30; quota_disabled = true; enabled = false }

quota_valid : validate_quota (pos 1) ≡ none
unfolding validate_quota range_check refuse_if
quota_valid = refl

abbrev used_sum : ℕ
used_sum =
    used_before row "2026-01" + counter_delta row.rx_bytes 5000 + counter_delta row.tx_bytes 2

small : used_sum < 2 ^ 63
unfolding used_before counter_delta
small = omega arith

update_telemetry-enforces_example :
    ((update_telemetry row 5000 2 "2026-01").quota_used_bytes ≡ used_sum)
    × (((update_telemetry row 5000 2 "2026-01").enabled ≡ true)
        ↔ ((true ≡ true) × (used_sum < 1 * 2 ^ 30)))
    × (((update_telemetry row 5000 2 "2026-01").quota_disabled ≡ true) ↔ (1 * 2 ^ 30 ≤ used_sum))
update_telemetry-enforces_example = update_telemetry-enforces row 5000 2 "2026-01" quota_valid small

update_telemetry-twice_example :
    (update_telemetry
      (update_telemetry row 1500 2000 "2026-01")
      1700
      2600
      "2026-01").quota_used_bytes
    ≡ (update_telemetry row 1700 2600 "2026-01").quota_used_bytes
update_telemetry-twice_example =
    update_telemetry-twice row 1500 2000 1700 2600 "2026-01" (omega arith) (omega arith)
      (omega arith) (omega arith)

runs_out : exceeds (used_after row (2 ^ 31) 2000 "2026-01") 1 ≡ true
unfolding exceeds reaches used_after used_before counter_delta
runs_out = refl

reset_row-restores_example :
    ((update_telemetry row (2 ^ 31) 2000 "2026-01").enabled ≡ false)
    × ((reset_row "2026-02" (update_telemetry row (2 ^ 31) 2000 "2026-01")).enabled ≡ true)
    × ((reset_row "2026-02" (update_telemetry row (2 ^ 31) 2000 "2026-01")).quota_used_bytes ≡ 0)
    × ((reset_row "2026-02" (update_telemetry row (2 ^ 31) 2000 "2026-01")).quota_disabled ≡ false)
reset_row-restores_example = reset_row-restores row (2 ^ 31) 2000 "2026-01" "2026-02" refl runs_out

spent_exceeds : exceeds (2 ^ 30) 1 ≡ true
unfolding exceeds reaches
spent_exceeds = refl

set_enabled_off-overridden_example :
    ((set_enabled spent false).enabled ≡ false)
    × ((reset_row "2026-02"
          (update_telemetry (set_enabled spent false) 1000 2000 "2026-01")).enabled
        ≡ true)
set_enabled_off-overridden_example =
    set_enabled_off-overridden spent "2026-01" "2026-02" refl refl spent_exceeds

-- 10.0.0.0/30 with 10.0.0.1 in use.
abbrev address : ℕ → Addr
address n = record { family = v4; value = 0x0a000000 + n }

abbrev pool : Prefix
pool = record { addr = address 0; bits = 30 }

finds : next_free_ipv4 pool (address 1 ∷ []) ≡ some (address 2)
unfolding next_free_ipv4 free_from contains next masked
finds = refl

next_free_ipv4-IsFree_example :
    (contains pool (address 2) ≡ true)
    × (network pool < 0x0a000002)
    × (any (addr_eq (address 2)) (address 1 ∷ []) ≡ false)
next_free_ipv4-IsFree_example = next_free_ipv4-IsFree pool (address 1 ∷ []) (address 2) finds

abbrev all_used : List Addr
all_used = address 1 ∷ address 3 ∷ address 2 ∷ []

finds_none : next_free_ipv4 pool all_used ≡ none
unfolding next_free_ipv4 free_from contains next masked
finds_none = refl

last_inside : contains pool (address 3) ≡ true
unfolding contains
last_inside = refl

next_free_ipv4-exhausted_example : any (addr_eq (address 3)) all_used ≡ true
next_free_ipv4-exhausted_example =
    next_free_ipv4-exhausted pool all_used (address 3) finds_none last_inside (omega arith)
