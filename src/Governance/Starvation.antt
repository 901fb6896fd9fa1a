-- ===== src/Governance/Starvation.antt =====
-- `EvaluateStarvation` of internal/repository/governance/repository.go, and
-- internal/service/governance/alert_scheduler.go in front of it.
use pomkita_be.Prelude.{
  first, ℕ, ◌+◌, ◌*◌, Bool, not, ◌&&◌, ◌||◌, Option, none, some, List, [], ◌∷◌, ltb, leb, ◌==◌,
  str_eq, if◌then◌else◌, Uuid, Time, hour, order_by, create, select,
}
use pomkita_be.Domain.{ok, Result, refuse_if, ◌>>◌}
use pomkita_be.Store.{Db}
use pomkita_be.Store.Shifts.{ShiftModel}
use pomkita_be.Store.Alerts.{AlertRuleModel, AlertEventModel, bucket_of}
use pomkita_be.Governance.Acknowledge.Service.{Service}
use pomkita_be.Governance.Requests.{with_service}
use pomkita_be.Governance.Alerts.{invalid_alert_request, same_event}

-- the number of events that were inserted, and the table
pub record Inserted : Type 0 where
  pub inserted : ℕ
  pub events : List AlertEventModel

abbrev pub required_window : Time
required_window = 24 * hour

-- the shifts that are loaded
abbrev pub is_watched : Time → ShiftModel → Bool
is_watched now s =
    (str_eq s.status "open" || str_eq s.status "awaiting_confirmation" || str_eq s.status "locked")
    && leb s.opened_at now

unfoldable pub starvation_shifts : Time → List ShiftModel → List ShiftModel
starvation_shifts now shifts =
    order_by (λ s. s.org_id)
      (order_by (λ s. s.station_id) (order_by (λ s. s.shift_id) (select (is_watched now) shifts)))

unfoldable pub starvation_rules : List AlertRuleModel → List AlertRuleModel
starvation_rules rules =
    order_by (λ r. r.station_id)
      (order_by (λ r. r.rule_id) (select (λ r. str_eq r.rule_type "starvation") rules))

-- an event of a rule about a shift
abbrev pub is_about : ShiftModel → AlertRuleModel → AlertEventModel → Bool
is_about s r e =
    e.org_id == s.org_id
    && e.station_id == s.station_id
    && e.rule_id == r.rule_id
    && str_eq e.subject_kind "shift"
    && e.subject_id == s.shift_id
    && str_eq e.event_type "fired"

abbrev pub is_fired : ShiftModel → AlertRuleModel → AlertEventModel → Bool
is_fired s r e = is_about s r e && e.period_bucket == bucket_of s.opened_at

unfoldable pub starved_event : ShiftModel → AlertRuleModel → Uuid → Time → AlertEventModel
starved_event s r event_id now = record {
  event_id = event_id;
  org_id = s.org_id;
  station_id = s.station_id;
  rule_id = r.rule_id;
  subject_kind = "shift";
  subject_id = s.shift_id;
  event_type = "fired";
  period_start = s.opened_at;
  period_bucket = bucket_of s.opened_at;
  related_fired_event_id = some event_id;
  source_kind = "scheduler";
  source_id = s.shift_id;
  source_version_no = none;
  source_at = now;
  created_by = none;
  created_at = now;
}

unfoldable pub cleared_event :
    ShiftModel → AlertRuleModel → AlertEventModel → Uuid → Time → AlertEventModel
cleared_event s r fired event_id now = record {
  event_id = event_id;
  org_id = s.org_id;
  station_id = s.station_id;
  rule_id = r.rule_id;
  subject_kind = "shift";
  subject_id = s.shift_id;
  event_type = "cleared";
  period_start = fired.period_start;
  period_bucket = bucket_of fired.period_start;
  related_fired_event_id = some fired.event_id;
  source_kind = "shift_transition";
  source_id = s.shift_id;
  source_version_no = none;
  source_at = now;
  created_by = none;
  created_at = now;
}

unfoldable pub insert_event : AlertEventModel → Inserted → Inserted
insert_event e st = record { inserted = st.inserted + 1; events = create e st.events }

-- an event unless the query has found one
unfoldable pub insert_unless : Option AlertEventModel → AlertEventModel → Inserted → Inserted
unfolding insert_event
insert_unless (some found) e st = st
insert_unless none e st = insert_event e st

abbrev pub is_open : ShiftModel → Bool
is_open s = str_eq s.status "open" || str_eq s.status "awaiting_confirmation"

abbrev pub is_overdue : Time → Time → ShiftModel → AlertRuleModel → Bool
is_overdue now window s r = not (ltb now (s.opened_at + window)) && r.enabled

unfoldable pub fire_overdue :
    (ℕ → Uuid) → Time → Time → ShiftModel → AlertRuleModel → Inserted → Inserted
unfolding starved_event insert_unless
fire_overdue fresh now window s r st =
    if is_overdue now window s r
    then insert_unless (first (is_fired s r) st.events) (starved_event s r (fresh st.inserted) now)
        st
    else st

-- the loop over the fired events
unfoldable pub clear_all :
    (ℕ → Uuid) → Time → ShiftModel → AlertRuleModel → List AlertEventModel → Inserted → Inserted
unfolding cleared_event insert_unless
clear_all fresh now s r [] st = st
clear_all fresh now s r (fired ∷ rest) st = clear_all fresh now s r rest (
    insert_unless
      (first
        (λ e.
          e.org_id == s.org_id
          && e.station_id == s.station_id
          && same_event (some fired.event_id) e.related_fired_event_id
          && str_eq e.event_type "cleared")
        st.events)
      (cleared_event s r fired (fresh st.inserted) now) st)

-- the fired events about a shift, the oldest first
unfoldable pub fired_events :
    ShiftModel → AlertRuleModel → List AlertEventModel → List AlertEventModel
fired_events s r events =
    order_by (λ e. e.created_at) (order_by (λ e. e.event_id) (select (is_about s r) events))

-- One round of the inner loop.
unfoldable pub evaluate_rule :
    (ℕ → Uuid) → Time → Time → ShiftModel → AlertRuleModel → Inserted → Inserted
unfolding fire_overdue clear_all fired_events
evaluate_rule fresh now window s r st =
    if is_open s
    then fire_overdue fresh now window s r st
    else if str_eq s.status "locked"
    then clear_all fresh now s r (fired_events s r st.events) st
    else st

-- the loop over the rules of the station
unfoldable pub evaluate_rules :
    (ℕ → Uuid) → Time → Time → ShiftModel → List AlertRuleModel → Inserted → Inserted
unfolding evaluate_rule
evaluate_rules fresh now window s [] st = st
evaluate_rules fresh now window s (r ∷ rules) st =
    evaluate_rules fresh now window s rules (evaluate_rule fresh now window s r st)

abbrev pub of_station : ShiftModel → AlertRuleModel → Bool
of_station s r = r.station_id == s.station_id

-- the loop over the shifts
unfoldable pub evaluate_shifts :
    (ℕ → Uuid) → Time → Time → List AlertRuleModel → List ShiftModel → Inserted → Inserted
unfolding evaluate_rules
evaluate_shifts fresh now window rules [] st = st
evaluate_shifts fresh now window rules (s ∷ shifts) st =
    evaluate_shifts fresh now window rules shifts
      (evaluate_rules fresh now window s (select (of_station s) rules) st)

-- all the rounds
unfoldable pub evaluate_all : (ℕ → Uuid) → Time → Time → Db → Inserted
unfolding starvation_shifts starvation_rules evaluate_shifts
evaluate_all fresh now window db =
    evaluate_shifts fresh now window (starvation_rules db.alert_rules)
      (starvation_shifts now db.shifts) (record { inserted = 0; events = db.alert_events })

-- `EvaluateStarvation`
unfoldable pub evaluate_starvation : (ℕ → Uuid) → Time → Time → Db → Result (ℕ × Db)
unfolding evaluate_all
evaluate_starvation fresh now window db = do
  refuse_if (now == 0 || not (window == required_window)) invalid_alert_request
  let final = evaluate_all fresh now window db
  ok (final.inserted, record db { alert_events = final.events })

-- `AlertScheduler.Run`
unfoldable pub run_scheduler : (ℕ → Uuid) → Option Service → Time → Result (ℕ × Db)
unfolding with_service evaluate_starvation
run_scheduler fresh service window = with_service service (λ now db. do
  refuse_if (not (window == required_window)) invalid_alert_request
  evaluate_starvation fresh now window db)
