-- ===== src/Governance/Samples.antt =====
-- The theorems about decisions and amendments at a concrete report.
use pomkita_be.Scope.{require_enabled}
use pomkita_be.Audit.{append_in_transaction, audit_row_hash}
use pomkita_be.Prelude.{
  first, count, replicate, ◌+◌, ◌≡◌, refl, false, none, some, [], ◌∷◌, All, ◌<◌,
}
use pomkita_be.Prelude.Text.{codes}
use pomkita_be.Domain.{ok, err}
use pomkita_be.Samples.{sample_db, state_of}
use pomkita_be.Store.{Db}
use pomkita_be.Store.Shifts.{ShiftModel}
use pomkita_be.Store.Reports.{ShiftReportModel}
use pomkita_be.Store.Acks.{AckHeadModel, AckDecisionModel}
use pomkita_be.Audit.Samples.{sample_library}
use pomkita_be.Canonical.{marshal}
use pomkita_be.Governance.Types.{
  Library, AcknowledgeRequest, Acknowledgement, AmendmentItem, AmendmentRequest, Amendment,
  RejectAmendmentRequest, ack_report_unavailable,
}
use pomkita_be.Governance.Acknowledge.{
  acknowledge, of_shift, of_head, acknowledgement_reasons, check_acknowledge,
  created_report_data_by_actor,
}
use pomkita_be.Governance.Acknowledge.Decision.{
  IsDecisionOf, IsVersion, Permitted, acknowledge-Permitted, acknowledge-effect, acknowledge-once,
}
use pomkita_be.Governance.Amendment.{
  request_amendment, reject_amendment, of_pending, check_items, amendment_row, check_reject,
  check_request, report_snapshot_hash, field_allowed,
}
use pomkita_be.Governance.Amendment.Pending.{request-one_pending}

abbrev pub library : Library
library = record {
  audit = sample_library;
  json_marshal = λ v. codes "{}";
  snapshot_json = λ report readings sales losses. codes "{}";
  decode_text = λ b. none;
  utf8 = codes;
  trim_bytes = λ b. b;
}

abbrev shift : ShiftModel
shift = record {
  shift_id = 3;
  org_id = 1;
  station_id = 2;
  station_seq = 1;
  supervisor_id = 9;
  opened_at = 10;
  closed_at = none;
  timezone_snapshot = "Asia/Jakarta";
  business_date = "2026-01-01";
  status = "awaiting_confirmation";
  current_report_id = some 50;
  original_event_date = none;
  shift_ke = none;
  backfilled = false;
  backfill_approver = none;
  backfill_approved_at = none;
  backfill_reason = none;
  shift_price_map_snapshot = [];
  shift_price_map_hash = [];
  created_at = 10;
}

abbrev report : ShiftReportModel
report = record {
  report_id = 50;
  org_id = 1;
  station_id = 2;
  shift_id = 3;
  version_no = 1;
  supersedes_report_id = none;
  status = "submitted";
  submitted_by = 9;
  submitted_at = 20;
  policy_snapshot_set_id = 60;
}

abbrev head : AckHeadModel
head = record {
  org_id = 1;
  station_id = 2;
  shift_id = 3;
  report_id = 50;
  version_no = 1;
  active_ack_id = none;
}

abbrev pub submitted : Db
submitted = record sample_db {
  shifts = shift ∷ [];
  reports = report ∷ [];
  ack_heads = head ∷ [];
  roles =
      record { org_id = 1; station_id = 2; user_id = 8; role = "Station Admin" }
      ∷ record { org_id = 1; station_id = 2; user_id = 9; role = "Supervisor" }
      ∷ [];
}

abbrev pub accept : AcknowledgeRequest
accept = record {
  org_id = 1;
  station_id = 2;
  shift_id = 3;
  report_id = 50;
  actor_id = 8;
  version_no = 1;
  role = "Station Admin";
  decision = "acked";
  rejection_reason = "";
  is_break_glass = false;
  break_glass_reason = "";
}

abbrev decided : Db
unfolding acknowledge
decided = state_of (acknowledge library accept 70 30 submitted) submitted

abbrev answer : Acknowledgement
answer = record {
  ack_id = 70;
  report_id = 50;
  version_no = 1;
  decision = "acked";
  shift_status = "locked";
  is_break_glass = false;
}

decided_is : acknowledge library accept 70 30 submitted ≡ ok (answer, decided)
unfolding acknowledge check_acknowledge require_enabled first count created_report_data_by_actor
    acknowledgement_reasons append_in_transaction audit_row_hash marshal
decided_is = refl

acknowledge-Permitted_example : Permitted accept submitted
acknowledge-Permitted_example =
    acknowledge-Permitted library accept 70 30 submitted decided answer decided_is

acknowledge-effect_example :
    (shift' : ShiftModel) × (head' : AckHeadModel) × (made : AckDecisionModel) × (first
        (of_shift 1 2 3)
        decided.shifts
      ≡ some (record shift' { status = "locked" }))
    × (first (of_head accept) decided.ack_heads ≡ some (record head' { active_ack_id = some 70 }))
    × (decided.ack_decisions ≡ made ∷ [])
    × IsDecisionOf accept 70 30 made
    × All
        (λ (d : AckDecisionModel). IsVersion accept d → d.ack_seq < made.ack_seq)
        submitted.ack_decisions
acknowledge-effect_example =
    acknowledge-effect library accept 70 30 submitted decided answer decided_is

acknowledge-once_example : acknowledge library accept 71 40 decided ≡ err ack_report_unavailable
acknowledge-once_example =
    acknowledge-once library accept accept 70 71 30 40 submitted decided answer decided_is refl refl
      refl

abbrev item : AmendmentItem
item = record {
  target_kind = "sales_declared";
  target_logical_id = 12;
  field = "cash_amount";
  old_value = codes "1000";
  new_value = codes "1100";
}

abbrev correction : AmendmentRequest
correction = record {
  org_id = 1;
  station_id = 2;
  shift_id = 3;
  base_report_id = 50;
  requester_id = 9;
  role = "Supervisor";
  reason = "typo";
  stale_check_hash = [];
  is_break_glass = false;
  break_glass_reason = "";
  items = item ∷ [];
}

abbrev pub requested : Db
unfolding request_amendment
requested = state_of (request_amendment library correction 80 (λ n. 81 + n) 40 submitted) submitted

abbrev amendment : Amendment
amendment = record {
  amendment_id = 80;
  base_report_id = 50;
  applied_report_id = 0;
  status = "pending";
  version_no = 0;
  stale_check_hash = replicate 32 7;
  requested_at = 40;
  decided_at = 0;
  rejection_reason = "";
}

requested_is :
    request_amendment library correction 80 (λ n. 81 + n) 40 submitted ≡ ok (amendment, requested)
unfolding request_amendment check_request require_enabled first count check_items field_allowed
    append_in_transaction audit_row_hash marshal amendment_row report_snapshot_hash
requested_is = refl

request-one_pending_example : count (of_pending 1 2 50) requested.amendments ≡ 1
request-one_pending_example =
    request-one_pending library correction 80 (λ n. 81 + n) 40 submitted requested amendment
      requested_is

abbrev pub refusal : RejectAmendmentRequest
refusal = record {
  org_id = 1;
  station_id = 2;
  amendment_id = 80;
  approver_id = 8;
  role = "Station Admin";
  rejection_reason = "no receipt";
}

abbrev pub rejected : Db
unfolding reject_amendment
rejected = state_of (reject_amendment library refusal 95 50 requested) requested

pub rejected_is : reject_amendment library refusal 95 50 requested ≡ ok (tt, rejected)
unfolding reject_amendment check_reject require_enabled first requested check_request count
    check_items field_allowed append_in_transaction audit_row_hash marshal amendment_row
rejected_is = refl
