-- ===== src/Senders.antt =====
-- What the senders share: the reports that they raise, and Core/Source/SolidSyslogSenderHealth.c,
-- which turns the outcome of each delivery into reports of its changes.
pub mod Health
pub mod OpenHealth
pub mod Stream
pub mod Datagram
pub mod Switching
mod Scripts
mod Tests
use solid_syslog.Base.{ℕ, Bool, true, false, not, ◌&&◌, ◌||◌, List, [], ◌∷◌, if◌then◌else◌}

-- the error source that a report names
pub data Source : Type 0 where
  stream_sender udp_sender switching_sender : Source

pub data Category : Type 0 where
  delivery_failed delivery_restored records_lost bad_argument : Category

-- the levels of `SolidSyslog_Severity` that the senders report at
abbrev pub severity_critical : ℕ
severity_critical = 2

abbrev pub severity_error : ℕ
severity_error = 3

abbrev pub severity_warning : ℕ
severity_warning = 4

abbrev pub severity_notice : ℕ
severity_notice = 5

-- what `SolidSyslog_Error` is called with
pub record Report : Type 0 where
  pub severity : ℕ
  pub source : Source
  pub category : Category
  pub detail : ℕ

-- `struct SolidSyslogSenderHealthReporter`
pub record HealthReporter : Type 0 where
  pub source : Source
  pub failed_detail : ℕ
  pub restored_detail : ℕ

abbrev pub differ : Bool → Bool → Bool
differ a b = if a then not b else b

-- the new health, and what is reported
unfoldable pub update_health : Bool → Bool → HealthReporter → Bool × List Report
update_health healthy delivered reporter =
    let restored : Report = record {
      severity = severity_notice;
      source = reporter.source;
      category = delivery_restored;
      detail = reporter.restored_detail;
    } in
    let failed : Report = record {
      severity = severity_warning;
      source = reporter.source;
      category = delivery_failed;
      detail = reporter.failed_detail;
    } in
    if differ delivered healthy
    then (delivered, (if delivered then restored else failed) ∷ [])
    else (healthy, [])

-- The reports go to the error handler.
abbrev pub report_all : {W : Type 0} → (Report → W → W) → List Report → W → W
report_all report [] w = w
report_all report (r ∷ rs) w = report_all report rs (report r w)
