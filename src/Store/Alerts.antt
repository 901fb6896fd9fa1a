-- ===== src/Store/Alerts.antt =====
-- internal/repository/store/models.go: alert rules and events.
use pomkita_be.Prelude.{◌/◌, ◌*◌, hour, ℕ, Uuid, Time, String, Bool, Option}
use pomkita_be.Store.Decimal.{Decimal}

pub record AlertRuleModel : Type 0 where
  pub rule_id : Uuid
  pub org_id : Uuid
  pub station_id : Uuid
  pub rule_type : String
  pub alert_key : String
  pub threshold : Decimal
  pub enabled : Bool
  pub channel : String
  pub created_by : Option Uuid
  pub created_at : Time

pub record AlertEventModel : Type 0 where
  pub event_id : Uuid
  pub org_id : Uuid
  pub station_id : Uuid
  pub rule_id : Uuid
  pub subject_kind : String
  pub subject_id : Uuid
  pub event_type : String
  pub period_start : Time
  pub period_bucket : Time
  pub related_fired_event_id : Option Uuid
  pub source_kind : String
  pub source_id : Uuid
  pub source_version_no : Option ℕ
  pub source_at : Time
  pub created_by : Option Uuid
  pub created_at : Time

-- the column `period_bucket`, which the database computes: `period_start.Truncate(time.Hour)`
abbrev pub bucket_of : Time → Time
bucket_of t = t / hour * hour
