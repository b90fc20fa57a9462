-- ===== src/Agent/Heartbeat.antt =====
-- gateway-agent/src/heartbeat.js and healthcheck.js: what the agent writes after each turn, and how a
-- watchdog reads it. The file and its JSON are parameters of the check.
use guardtime.Base.{
  ℕ, ◌+◌, ◌-◌, ◌*◌, ◌/◌, ℤ, Bool, true, false, string_eq, String, ◌<>◌, Option, none, some, or_null,
  ltb, show, if◌then◌else◌,
}
use guardtime.Base.Result.{Result, ok, err}

-- The payload without the process id. A time that is no date is `none`.
pub record Heartbeat : Type 0 where
  pub last_sync_at : Option ℕ
  pub last_sync_ok : Bool
  pub last_error : Option String
  pub poll_interval_ms : ℤ

abbrev pub heartbeat : (now : ℕ) → Result (Unit {0}) → (poll_interval_ms : ℤ) → Heartbeat
heartbeat now (ok _) ms = record {
  last_sync_at = some now;
  last_sync_ok = true;
  last_error = none;
  poll_interval_ms = ms;
}
heartbeat now (err message) ms = record {
  last_sync_at = some now;
  last_sync_ok = false;
  last_error = or_null (some message);
  poll_interval_ms = ms;
}

-- What reading and parsing the file gives.
pub data File : Type 0 where
  absent : File
  malformed : File
  written : Heartbeat → File

pub data Health : Type 0 where
  healthy : Heartbeat → Health
  unhealthy : (reason : String) → (found : Option Heartbeat) → Health

-- `Math.round(ageMs / 1000)`
abbrev seconds : ℕ → ℕ
seconds ms = (2 * ms + 1000) / 2000

abbrev stale : (age : String) → Heartbeat → Health
stale age h = unhealthy ("heartbeat is stale (" <> age <> "s old)") (some h)

abbrev aged : (max_age_ms now : ℕ) → Heartbeat → Option ℕ → Health
unfolding show
aged max_age_ms now h none = stale "NaN" h
aged max_age_ms now h (some at) =
    if ltb (at + max_age_ms) now then stale (show (seconds (now - at))) h else healthy h

-- `check`, at a time.
unfoldable pub check : (path : String) → (max_age_ms now : ℕ) → File → Health
unfolding show
check path max_age_ms now absent = unhealthy ("no heartbeat file at " <> path) none
check path max_age_ms now malformed = unhealthy "heartbeat file is not valid JSON" none
check path max_age_ms now (written h) = aged max_age_ms now h h.last_sync_at
