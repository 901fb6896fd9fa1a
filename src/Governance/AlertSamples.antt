-- ===== src/Governance/AlertSamples.antt =====
-- The theorems about alerts at a concrete rule and shift.
use pomkita_be.Prelude.{
  first, ◌+◌, ◌*◌, ◌≡◌, refl, true, false, none, some, [], ◌∷◌, Time, hour, All, select, order_by,
}
use pomkita_be.Domain.{ok}
use pomkita_be.Prelude.Text.{codes}
use pomkita_be.Samples.{state_of}
use pomkita_be.Store.{Db}
use pomkita_be.Store.Alerts.{AlertRuleModel}
use pomkita_be.Governance.Alerts.{AlertOccurrenceRequest, AlertEvent, record_alert_occurrence}
use pomkita_be.Governance.Occurrence.{record-again}
use pomkita_be.Governance.Starvation.{evaluate_starvation, required_window, is_watched}
use pomkita_be.Governance.Overdue.{IsAlerted, evaluate_starvation-alerts}
use pomkita_be.Governance.Samples.{submitted}

abbrev rule : AlertRuleModel
rule = record {
  rule_id = 70;
  org_id = 1;
  station_id = 2;
  rule_type = "starvation";
  alert_key = "late";
  threshold = codes "0";
  enabled = true;
  channel = "dashboard";
  created_by = none;
  created_at = 1;
}

abbrev watched : Db
watched = record submitted { alert_rules = rule ∷ [] }

abbrev occurrence : AlertOccurrenceRequest
occurrence = record {
  org_id = 1;
  station_id = 2;
  rule_id = 70;
  subject_kind = "shift";
  subject_id = 3;
  event_type = "fired";
  period_start = 9000;
  related_fired_event_id = none;
  source_kind = "scheduler";
  source_id = 3;
  source_version_no = none;
  source_at = 9000;
  created_by = none;
}

abbrev recorded : Db
unfolding record_alert_occurrence
recorded = state_of (record_alert_occurrence occurrence 900 9000 watched) watched

abbrev first_answer : AlertEvent
first_answer = record { event_id = 900; inserted = true; related_fired_id = some 900 }

recorded_is : record_alert_occurrence occurrence 900 9000 watched ≡ ok (first_answer, recorded)
unfolding record_alert_occurrence first
recorded_is = refl

record-again_example :
    record_alert_occurrence occurrence 901 9500 recorded
    ≡ ok (record first_answer { inserted = false }, recorded)
record-again_example =
    record-again occurrence 900 901 9000 9500 watched recorded first_answer recorded_is

abbrev late : Time
late = 100 * hour

abbrev evaluated : Db
unfolding evaluate_starvation
evaluated = state_of (evaluate_starvation (λ n. 910 + n) late required_window watched) watched

evaluated_is : evaluate_starvation (λ n. 910 + n) late required_window watched ≡ ok (1, evaluated)
unfolding evaluate_starvation order_by select first
evaluated_is = refl

evaluate_starvation-alerts_example :
    All
      (IsAlerted late required_window watched.alert_rules evaluated.alert_events)
      (select (is_watched late) watched.shifts)
evaluate_starvation-alerts_example =
    evaluate_starvation-alerts (λ n. 910 + n) late required_window watched evaluated 1 evaluated_is
