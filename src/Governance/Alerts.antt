-- ===== src/Governance/Alerts.antt =====
-- `RecordAlertOccurrence` and `EvaluateStarvation` of internal/repository/governance/repository.go,
-- and internal/service/governance/alert_service.go and alert_scheduler.go in front of them.
use pomkita_be.Prelude.{
  first, create, is_set, holds, nil_uuid, ℕ, String, Bool, true, false, not, ◌&&◌, ◌||◌, Option,
  none, some, ltb, ◌==◌, str_eq, if◌then◌else◌, Uuid, Time,
}
use pomkita_be.Domain.{ok, validation, Error, Result, err, domain, refuse_if, found_or, ◌>>=◌, ◌>>◌}
use pomkita_be.Store.{Db}
use pomkita_be.Store.Alerts.{AlertRuleModel, AlertEventModel, bucket_of}
use pomkita_be.Governance.Acknowledge.Service.{Service}
use pomkita_be.Governance.Requests.{with_service}

abbrev pub invalid_alert_request : Error
invalid_alert_request = domain validation "invalid_alert_request"

abbrev pub alert_source_version_required : Error
alert_source_version_required = domain validation "alert_source_version_required"

abbrev pub alert_related_event_required : Error
alert_related_event_required = domain validation "alert_related_event_required"

pub record AlertOccurrenceRequest : Type 0 where
  pub org_id : Uuid
  pub station_id : Uuid
  pub rule_id : Uuid
  pub subject_kind : String
  pub subject_id : Uuid
  pub event_type : String
  pub period_start : Time
  pub related_fired_event_id : Option Uuid
  pub source_kind : String
  pub source_id : Uuid
  pub source_version_no : Option ℕ
  pub source_at : Time
  pub created_by : Option Uuid

-- `AlertEvent`; its type is never set
pub record AlertEvent : Type 0 where
  pub event_id : Uuid
  pub inserted : Bool
  pub related_fired_id : Option Uuid

-- the two keys are there and equal
abbrev pub same_event : Option Uuid → Option Uuid → Bool
same_event none b = false
same_event (some a) b = holds b a

-- the rows that count as the occurrence that is recorded
abbrev pub is_occurrence : AlertOccurrenceRequest → AlertEventModel → Bool
is_occurrence r e =
    if str_eq r.event_type "cleared"
    then e.org_id == r.org_id
      && e.station_id == r.station_id
      && same_event r.related_fired_event_id e.related_fired_event_id
      && str_eq e.event_type r.event_type
    else e.org_id == r.org_id
      && e.station_id == r.station_id
      && e.rule_id == r.rule_id
      && str_eq e.subject_kind r.subject_kind
      && e.subject_id == r.subject_id
      && str_eq e.event_type r.event_type
      && e.period_bucket == bucket_of r.period_start

unfoldable pub occurrence_row : AlertOccurrenceRequest → Uuid → Time → AlertEventModel
occurrence_row r event_id now = record {
  event_id = event_id;
  org_id = r.org_id;
  station_id = r.station_id;
  rule_id = r.rule_id;
  subject_kind = r.subject_kind;
  subject_id = r.subject_id;
  event_type = r.event_type;
  period_start = r.period_start;
  period_bucket = bucket_of r.period_start;
  related_fired_event_id =
      if str_eq r.event_type "fired" then some event_id else r.related_fired_event_id;
  source_kind = r.source_kind;
  source_id = r.source_id;
  source_version_no = r.source_version_no;
  source_at = r.source_at;
  created_by = r.created_by;
  created_at = now;
}

-- the event that is there, or a new one
unfoldable pub record_or_find :
    AlertOccurrenceRequest → Uuid → Time → Db → Option AlertEventModel → AlertEvent × Db
unfolding occurrence_row
record_or_find r event_id now db (some e) = (
  record { event_id = e.event_id; inserted = false; related_fired_id = e.related_fired_event_id },
  db,
)
record_or_find r event_id now db none =
    let row = occurrence_row r event_id now in
    (
      record {
        event_id = event_id;
        inserted = true;
        related_fired_id = row.related_fired_event_id;
      },
      record db { alert_events = create row db.alert_events },
    )

abbrev pub no_event : AlertEvent
no_event = record { event_id = nil_uuid; inserted = false; related_fired_id = none }

abbrev pub is_rule : AlertOccurrenceRequest → AlertRuleModel → Bool
is_rule r x = x.org_id == r.org_id && x.station_id == r.station_id && x.rule_id == r.rule_id

-- what happens under the rule
unfoldable pub record_under :
    AlertOccurrenceRequest → Uuid → Time → Db → AlertRuleModel → Result (AlertEvent × Db)
unfolding record_or_find
record_under r event_id now db rule =
    if not rule.enabled && str_eq r.event_type "fired"
    then ok (no_event, db)
    else if str_eq r.event_type "cleared" && not (is_set r.related_fired_event_id)
    then err alert_related_event_required
    else ok (record_or_find r event_id now db (first (is_occurrence r) db.alert_events))

-- `RecordAlertOccurrence`
unfoldable pub record_alert_occurrence :
    AlertOccurrenceRequest → Uuid → Time → Db → Result (AlertEvent × Db)
unfolding record_under
record_alert_occurrence r event_id now db = do
  rule ← found_or invalid_alert_request (first (is_rule r) db.alert_rules)
  record_under r event_id now db rule

-- the source's version, if it needs one
abbrev pub lacks_version : Option ℕ → Bool
lacks_version none = true
lacks_version (some v) = ltb v 1

abbrev pub needs_version : AlertOccurrenceRequest → Bool
needs_version r = str_eq r.source_kind "report" || str_eq r.source_kind "amendment"

-- What `Record` tests before it calls the repository.
unfoldable pub validate_occurrence : AlertOccurrenceRequest → Result (Unit {0})
validate_occurrence r = do
  refuse_if
      (r.org_id == nil_uuid
        || r.station_id == nil_uuid
        || r.rule_id == nil_uuid
        || r.subject_id == nil_uuid
        || r.source_id == nil_uuid
        || r.period_start == 0
        || r.source_at == 0)
      invalid_alert_request
  refuse_if (not (str_eq r.subject_kind "shift") && not (str_eq r.subject_kind "report"))
      invalid_alert_request
  refuse_if (not (str_eq r.event_type "fired") && not (str_eq r.event_type "cleared"))
      invalid_alert_request
  refuse_if
      (not (str_eq r.source_kind "shift_transition")
        && not (str_eq r.source_kind "report")
        && not (str_eq r.source_kind "scheduler")
        && not (str_eq r.source_kind "amendment"))
      invalid_alert_request
  refuse_if (needs_version r && lacks_version r.source_version_no) alert_source_version_required
  refuse_if (not (needs_version r) && is_set r.source_version_no) invalid_alert_request
  refuse_if (str_eq r.event_type "fired" && is_set r.related_fired_event_id) invalid_alert_request
  refuse_if (str_eq r.event_type "cleared" && not (is_set r.related_fired_event_id))
      alert_related_event_required

-- `AlertService.Record`
unfoldable pub service_record :
    Option Service → AlertOccurrenceRequest → Uuid → Result (AlertEvent × Db)
unfolding with_service validate_occurrence record_alert_occurrence
service_record service r event_id =
    with_service service
      (λ now db. do validate_occurrence r; record_alert_occurrence r event_id now db)
