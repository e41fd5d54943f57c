-- ===== src/Store/Quota.antt =====
-- internal/broker/store.go, the monthly quotas: counterDelta, UpdateTelemetry, ResetMonthlyQuotas and
-- SetTunnelQuota on a tunnel's row. A month is the text that quotaMonth writes. Quotas and
-- counters are natural numbers: validateQuota refuses a quota below 1, and the kernel's counters are
-- unsigned. The usage is an int64 that the code adds to: it is given by its 64 bits, a number below
-- 2 ^ 64 whose upper half stands for the negative values. The product with the quota wraps likewise.
pub mod Cycle
use open_tunnelbroker.Prelude.{
  ℕ, ◌+◌, ◌-◌, ◌*◌, ◌%◌, ◌^◌, String, Bool, true, false, not, ◌&&◌, ◌||◌, List, [], ◌∷◌, ltb, leb,
  str_eq, if◌then◌else◌,
}

-- The columns of a tunnel's row that the quota operations read and write.
pub record Row : Type 0 where
  pub rx_bytes : ℕ
  pub tx_bytes : ℕ
  pub quota_used_bytes : ℕ
  pub quota_gib : ℕ
  pub quota_period : String
  pub quota_disabled : Bool
  pub enabled : Bool
  pub status : String

unfoldable pub counter_delta : ℕ → ℕ → ℕ
counter_delta previous current = if leb previous current then current - previous else current

-- `used >= quota*(1<<30)` on int64: the product wraps, and the order of two words as signed numbers is
-- that of the words with the top bit flipped.
unfoldable pub reaches : ℕ → ℕ → Bool
reaches used quota =
    let product = quota * 2 ^ 30 % 2 ^ 64 in
    leb ((product + 2 ^ 63) % 2 ^ 64) ((used + 2 ^ 63) % 2 ^ 64)

-- The usage of the period before the new counters are added.
unfoldable pub used_before : Row → String → ℕ
used_before row month = if str_eq row.quota_period month then row.quota_used_bytes else 0

unfoldable pub used_after : Row → ℕ → ℕ → String → ℕ
unfolding used_before counter_delta
used_after row rx tx month =
    (used_before row month + counter_delta row.rx_bytes rx + counter_delta row.tx_bytes tx) % 2 ^ 64

unfoldable pub exceeds : ℕ → ℕ → Bool
unfolding reaches
exceeds used quota = ltb 0 quota && reaches used quota

-- UpdateTelemetry: the row after the counters `rx` and `tx` are read in a month.
unfoldable pub update_telemetry : Row → ℕ → ℕ → String → Row
update_telemetry row rx tx month =
    let used = used_after row rx tx month in
    let exceeded = exceeds used row.quota_gib in
    record row {
      rx_bytes = rx;
      tx_bytes = tx;
      quota_used_bytes = used;
      quota_period = month;
      quota_disabled = exceeded;
      enabled = if exceeded then false else row.enabled;
      status = if exceeded then "quota-exceeded" else row.status;
    }

-- What UpdateTelemetry returns: has the quota been hit by this update?
unfoldable pub quota_hit : Row → ℕ → ℕ → String → Bool
quota_hit row rx tx month =
    let disabled = if str_eq row.quota_period month then row.quota_disabled else false in
    exceeds (used_after row rx tx month) row.quota_gib && not disabled

-- ResetMonthlyQuotas on a row.
unfoldable pub reset_row : String → Row → Row
reset_row month row = if str_eq row.quota_period month then row else record row {
  quota_used_bytes = 0;
  quota_period = month;
  enabled = if row.quota_disabled then true else row.enabled;
  status = if row.quota_disabled then "pending" else row.status;
  quota_disabled = false;
}

-- SetTunnelQuota on a row.
unfoldable pub set_quota : Row → ℕ → Row
set_quota row quota =
    let exceeded = reaches row.quota_used_bytes quota in
    record row {
      quota_gib = quota;
      quota_disabled = exceeded;
      enabled = if exceeded then false else if row.quota_disabled then true else row.enabled;
      status =
          if exceeded
          then "quota-exceeded"
          else if row.quota_disabled
          then "pending"
          else row.status;
    }

-- SetEnabled on a row.
unfoldable pub set_enabled : Row → Bool → Row
set_enabled row on = record row { enabled = on; quota_disabled = false; status = "pending" }
