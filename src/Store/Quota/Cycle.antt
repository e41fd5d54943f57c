-- ===== src/Store/Quota/Cycle.antt =====
-- store.go: what the quota operations keep of a tunnel's row, and how they follow each other.
use open_tunnelbroker.Prelude.{
  ℕ, ◌+◌, ◌*◌, ◌%◌, ◌^◌, ◌≤◌, ◌<◌, ◌≡◌, ◌↔◌, String, true, false, leb, str_eq, arith, eq_iff, refl,
}
use open_tunnelbroker.Prelude.Int.{pos}
use open_tunnelbroker.Service.Validate.{validate_quota, range_check, refuse_if}
use open_tunnelbroker.Store.Quota.{
  Row, counter_delta, reaches, exceeds, used_before, used_after, update_telemetry, reset_row,
  set_enabled,
}
use open_tunnelbroker.Prelude.{none}

-- A quota that validateQuota accepts does not overflow.
validate_quota-bounds :
    (quota : ℕ) → validate_quota (pos quota) ≡ none → (1 ≤ quota) × (quota ≤ 8589934591)
unfolding validate_quota range_check refuse_if
validate_quota-bounds quota h = ground arith

exceeds-eq :
    (used quota : ℕ)
    → validate_quota (pos quota) ≡ none
    → used < 2 ^ 63
    → exceeds used quota ≡ leb (quota * 2 ^ 30) used
unfolding exceeds reaches
exceeds-eq used quota h small = ground (arith, validate_quota-bounds quota h)

-- The sum does not wrap.
used_after-eq :
    (row : Row) (rx tx : ℕ) (month : String)
    → used_before row month + counter_delta row.rx_bytes rx + counter_delta row.tx_bytes tx < 2 ^ 63
    → used_after row rx tx month
      ≡ used_before row month + counter_delta row.rx_bytes rx + counter_delta row.tx_bytes tx
unfolding used_after
used_after-eq row rx tx month small = omega (arith, small)

-- With a quota that validateQuota accepts, and where the usage that the month had so far and what the
-- counters add come to less than 2^63 bytes, the stored usage is that sum, the tunnel is enabled exactly
-- if it was and the sum is below the quota, and the disabled mark is set exactly from the quota on.
pub update_telemetry-enforces :
    (row : Row) (rx tx : ℕ) (month : String)
    → validate_quota (pos row.quota_gib) ≡ none
    → used_before row month + counter_delta row.rx_bytes rx + counter_delta row.tx_bytes tx < 2 ^ 63
    → let after = update_telemetry row rx tx month in
      let used =
        used_before row month + counter_delta row.rx_bytes rx + counter_delta row.tx_bytes tx in
      (after.quota_used_bytes ≡ used)
      × ((after.enabled ≡ true) ↔ ((row.enabled ≡ true) × (used < row.quota_gib * 2 ^ 30)))
      × ((after.quota_disabled ≡ true) ↔ (row.quota_gib * 2 ^ 30 ≤ used))
unfolding update_telemetry
update_telemetry-enforces row rx tx month h small =
    let used =
      used_before row month + counter_delta row.rx_bytes rx + counter_delta row.tx_bytes tx in
    let whole = used_after-eq row rx tx month small in
    let test = exceeds-eq used row.quota_gib h small in rw whole (ground (arith, test))

-- Reading the counters once more in between in a month does not change the usage, as long as the kernel
-- has not reset them.
pub update_telemetry-twice :
    (row : Row) (rx tx rx' tx' : ℕ) (month : String)
    → row.rx_bytes ≤ rx
    → rx ≤ rx'
    → row.tx_bytes ≤ tx
    → tx ≤ tx'
    → (update_telemetry (update_telemetry row rx tx month) rx' tx' month).quota_used_bytes
      ≡ (update_telemetry row rx' tx' month).quota_used_bytes
unfolding update_telemetry used_after used_before counter_delta
update_telemetry-twice row rx tx rx' tx' month a b c d = ground (arith, eq_iff month month)

-- A quota that disables a tunnel does so for the rest of the month only: the first reset of another
-- month enables it again, with no usage.
pub reset_row-restores :
    (row : Row) (rx tx : ℕ) (month later : String)
    → str_eq month later ≡ false
    → exceeds (used_after row rx tx month) row.quota_gib ≡ true
    → let stopped = update_telemetry row rx tx month in
      let again = reset_row later stopped in
      (stopped.enabled ≡ false)
      × (again.enabled ≡ true)
      × (again.quota_used_bytes ≡ 0)
      × (again.quota_disabled ≡ false)
unfolding update_telemetry reset_row
reset_row-restores row rx tx month later apart h = ground arith

-- The test reads the word that the usage is kept in.
exceeds-word : (used quota : ℕ) → exceeds (used % 2 ^ 64) quota ≡ exceeds used quota
unfolding exceeds reaches
exceeds-word used quota =
    let same : (used % 2 ^ 64 + 2 ^ 63) % 2 ^ 64 ≡ (used + 2 ^ 63) % 2 ^ 64 = omega arith in
    rw same refl

-- In a month that has begun, reading the stored counters again adds nothing.
used_after-same :
    (row : Row) (month : String)
    → row.quota_period ≡ month
    → used_after row row.rx_bytes row.tx_bytes month ≡ row.quota_used_bytes % 2 ^ 64
unfolding used_after used_before counter_delta
used_after-same row month current = ground (arith, eq_iff row.quota_period month)

-- A tunnel that an administrator disables after its quota has been used up is enabled again by the
-- first reset of another month, because the update in between marks it as disabled by the quota.
pub set_enabled_off-overridden :
    (row : Row) (month later : String)
    → row.quota_period ≡ month
    → str_eq month later ≡ false
    → exceeds row.quota_used_bytes row.quota_gib ≡ true
    → let off = set_enabled row false in
      (off.enabled ≡ false)
      × ((reset_row later (update_telemetry off row.rx_bytes row.tx_bytes month)).enabled ≡ true)
unfolding update_telemetry reset_row set_enabled
set_enabled_off-overridden row month later current apart h = ground (
  arith,
  used_after-same (record row { enabled = false; quota_disabled = false; status = "pending" }) month
      current,
  exceeds-word row.quota_used_bytes row.quota_gib,
)
