-- ===== src/Attest/Window.antt =====
-- The clock and the two timestamp checks of proxy/src/attest.rs.
use den_browser.Prelude.{ℕ, ◌+◌, ◌*◌, ◌/◌, ◌^◌, Option, none, some, if◌then◌else◌}
use den_browser.Prelude.Int.{ℤ, pos, negsuc, ltb_ℤ, saturating_sub, saturating_abs, as_i64}
use den_browser.Prelude.Result.{Result, ok, err}
use den_browser.Attest.Error.{AttestError, timestamp_drift, commit_too_late}

abbrev pub max_ts_drift_secs : ℕ
max_ts_drift_secs = 30

abbrev pub commit_grace_secs : ℕ
commit_grace_secs = 60

-- Durations and instants are counted in nanoseconds.
abbrev pub from_secs : ℕ → ℕ
from_secs s = s * 10 ^ 9

abbrev pub nonce_ttl : ℕ
nonce_ttl = from_secs 180

-- What `SystemTime::now().duration_since(UNIX_EPOCH)` returns, in nanoseconds; `none` is its error,
-- a clock set before the epoch.
abbrev pub SystemTime : Type 0
SystemTime = Option ℕ

-- A reading of the monotonic clock (`Instant::now()`), in nanoseconds.
abbrev pub Instant : Type 0
Instant = ℕ

unfoldable pub unix_now : SystemTime → ℤ
unfolding as_i64
unix_now none = pos 0
unix_now (some since_epoch) = as_i64 (since_epoch / 10 ^ 9)

unfoldable pub check_drift : ℤ → ℤ → Result (Unit {0}) AttestError
check_drift ts now =
    let drift = saturating_abs (saturating_sub now ts) in
    if ltb_ℤ (pos max_ts_drift_secs) drift then err (timestamp_drift drift) else ok tt

unfoldable pub check_commit_window : ℤ → ℤ → Result (Unit {0}) AttestError
check_commit_window ts now =
    let elapsed = saturating_sub now ts in
    if ltb_ℤ elapsed (negsuc 29)
    then err (timestamp_drift (saturating_abs elapsed))
    else if ltb_ℤ (pos (max_ts_drift_secs + commit_grace_secs)) elapsed
    then err (commit_too_late elapsed)
    else ok tt
