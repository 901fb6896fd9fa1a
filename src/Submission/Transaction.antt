-- ===== src/Submission/Transaction.antt =====
-- `Submit` of internal/repository/submission/repository.go: the transaction, phase by phase.
use pomkita_be.Prelude.{
  first, select, update_where, create, holds, is_after, Bool, true, false, not, ◌&&◌, Option, none,
  some, List, [], ◌++◌, ◌==◌, str_eq, if◌then◌else◌, Uuid, Time,
}
use pomkita_be.Prelude.Text.{Bytes}
use pomkita_be.Domain.{
  ok, wrap_error, Result, wrapped, record_not_found, refuse_if, found_or, ◌>>=◌, ◌>>◌,
}
use pomkita_be.Scope.{require_enabled}
use pomkita_be.Store.{Db}
use pomkita_be.Store.Shifts.{ShiftModel, ShiftDraftModel}
use pomkita_be.Store.Reports.{ShiftReportModel, DispenserReadingModel}
use pomkita_be.Store.Acks.{AckHeadModel}
use pomkita_be.Store.Policies.{PolicySnapshotSetModel}
use pomkita_be.Canonical.{object, member, no_members, str, int, pos}
use pomkita_be.Audit
use pomkita_be.Audit.{append_in_transaction}
use pomkita_be.Submission.Types.{
  Request, Outcome, Library, FreshIds, SubmitPayload, CatalogSnapshotItem, idempotency_conflict,
  invalid_submit_request,
}
use pomkita_be.Submission.Key.{
  Key, unknown, answered, taken, known, of_key, of_idem, settle, begin, mark_succeeded,
}
use pomkita_be.Submission.Policy.{ensure_threshold_snapshot, ensure_evidence_snapshot}
use pomkita_be.Submission.Promote.{report_readings, carried_readings, report_sales, report_losses}
use pomkita_be.Submission.Staged.{validate_staged_evidence, evidence_events}
use pomkita_be.Submission.Variance.{variance_alerts}

abbrev pub of_station_shift : Request → ShiftModel → Bool
of_station_shift request s =
    s.org_id == request.org_id
    && s.station_id == request.station_id
    && s.shift_id == request.shift_id

abbrev pub of_request_draft : Request → ShiftDraftModel → Bool
of_request_draft request d =
    d.org_id == request.org_id
    && d.station_id == request.station_id
    && d.draft_id == request.draft_id
    && d.shift_id == request.shift_id

-- the test of the draft's claim
abbrev pub is_claimed : Request → Time → ShiftDraftModel → Bool
is_claimed request now draft =
    holds draft.claim_token request.claim_token
    && holds draft.owned_by request.actor_id
    && is_after draft.claim_expires_at now

-- What the transaction reads first: the locked rows, and the state of the key.
pub record Start : Type 0 where
  pub shift : ShiftModel
  pub draft : ShiftDraftModel
  pub key : Key

unfoldable pub start : Request → Bytes → Time → Db → Result Start
start request hash now db = do
  require_enabled db request.org_id request.station_id
  station ←
      found_or (wrapped "lock station for submit" record_not_found)
        (first (λ s. s.org_id == request.org_id && s.station_id == request.station_id) db.stations)
  shift ←
      found_or (wrapped "load shift for submit" record_not_found)
        (first (of_station_shift request) db.shifts)
  draft ←
      found_or (wrapped "load draft for submit" record_not_found)
        (first (of_request_draft request) db.drafts)
  key ← settle request hash now db.idempotencies (first (of_key request) db.idempotencies)
  ok (record { shift = shift; draft = draft; key = key })

-- the tests of a submission that is not a replay
unfoldable pub check_open : Request → Time → ShiftModel → ShiftDraftModel → Result (Unit {0})
check_open request now shift draft = do
  refuse_if (not (str_eq shift.status "open")) idempotency_conflict
  refuse_if (not (is_claimed request now draft)) (wrapped "submit draft claim" idempotency_conflict)
  refuse_if (not (draft.revision == request.expected_revision))
      (wrapped "submit draft revision" idempotency_conflict)

-- the set of the shift's snapshots, which is created if there is none
abbrev pub set_or_create :
    Request
    → Uuid
    → Time
    → List PolicySnapshotSetModel
    → Option PolicySnapshotSetModel
    → Uuid × List PolicySnapshotSetModel
set_or_create request set_id now sets (some s) = (s.set_id, sets)
set_or_create request set_id now sets none = (
  set_id,
  create
      (record {
        set_id = set_id;
        org_id = request.org_id;
        station_id = request.station_id;
        shift_id = some request.shift_id;
        created_at = now;
      })
      sets,
)

unfoldable pub policy_set :
    Request → Uuid → Time → List PolicySnapshotSetModel → Uuid × List PolicySnapshotSetModel
policy_set request set_id now sets = set_or_create request set_id now sets (
    first
      (λ s.
        s.org_id == request.org_id
        && s.station_id == request.station_id
        && holds s.shift_id request.shift_id)
      sets)

-- the first version of the report
unfoldable pub report_row : Request → Uuid → Uuid → Time → ShiftReportModel
report_row request report_id set_id now = record {
  report_id = report_id;
  org_id = request.org_id;
  station_id = request.station_id;
  shift_id = request.shift_id;
  version_no = 1;
  supersedes_report_id = none;
  status = "submitted";
  submitted_by = request.actor_id;
  submitted_at = now;
  policy_snapshot_set_id = set_id;
}

abbrev pub head_row : ShiftReportModel → AckHeadModel
head_row report = record {
  org_id = report.org_id;
  station_id = report.station_id;
  shift_id = report.shift_id;
  report_id = report.report_id;
  version_no = report.version_no;
  active_ack_id = none;
}

-- The tables up to the acknowledgement head, and the rollover threshold.
unfoldable pub open_report : Library → Request → FreshIds → Time → Db → Result (Bytes × Uuid × Db)
unfolding policy_set report_row
open_report lib request ids now db = do
  let (set_id, sets) = policy_set request ids.set_id now db.policy_sets
  (rollover, tables) ←
      ensure_threshold_snapshot lib request set_id ids now
        (record { items = db.policy_items; threshold_revisions = db.threshold_revisions })
  items ←
      ensure_evidence_snapshot lib request set_id ids now db.evidence_revisions db.evidence_types
        tables.items
  let report = report_row request ids.report_id set_id now
  ok (
    rollover,
    set_id,
    record db {
      policy_sets = sets;
      policy_items = items;
      threshold_revisions = tables.threshold_revisions;
      reports = create report db.reports;
      ack_heads = create (head_row report) db.ack_heads;
    },
  )

abbrev pub of_draft : ShiftDraftModel → Uuid → Uuid → Uuid → Bool
of_draft draft org station draft_id =
    org == draft.org_id && station == draft.station_id && draft_id == draft.draft_id

-- the readings table with the report's rows
unfoldable pub promote_readings :
    Library
    → FreshIds
    → ShiftModel
    → ShiftDraftModel
    → SubmitPayload
    → List CatalogSnapshotItem
    → Bytes
    → Db
    → Result (List DispenserReadingModel)
promote_readings lib ids shift draft input catalog rollover db =
    if shift.backfilled
    then carried_readings lib db shift ids.report_id ids.reading_id 0 db.readings catalog
    else report_readings lib db shift draft ids.report_id input catalog rollover ids.reading_id 0
        db.readings
        (select (λ r. of_draft draft r.org_id r.station_id r.draft_id) db.draft_readings)

-- `promoteDraftChildren`
unfoldable pub promote_draft_children :
    Library → FreshIds → ShiftModel → ShiftDraftModel → Bytes → Bytes → Time → Db → Result Db
unfolding promote_readings
promote_draft_children lib ids shift draft payload rollover now db = do
  input ←
      found_or (wrapped "decode submit payload" invalid_submit_request) (lib.decode_payload payload)
  catalog ←
      found_or (wrapped "decode shift catalog snapshot" invalid_submit_request)
        (lib.decode_catalog shift.shift_price_map_snapshot)
  readings ← promote_readings lib ids shift draft input catalog rollover db
  let sales =
      report_sales draft shift.shift_id ids.report_id ids.sales_id 0
        (select (λ r. of_draft draft r.org_id r.station_id r.draft_id) db.draft_sales)
  let draft_losses = select (λ r. of_draft draft r.org_id r.station_id r.draft_id) db.draft_losses
  (identities, entries) ←
      report_losses draft shift.shift_id ids.report_id input ids.loss_row_id 0 now draft_losses
  let losses = db.losses ++ entries
  let staged = select (λ r. of_draft draft r.org_id r.station_id r.draft_id) db.draft_evidence
  validate_staged_evidence lib draft db.policy_items draft_losses staged
  events ←
      evidence_events draft shift.shift_id ids.report_id ids.evidence_event_id 0 now db.draft_losses
        losses staged
  ok (record db {
    readings = readings;
    sales = db.sales ++ sales;
    loss_identities = db.loss_identities ++ identities;
    losses = losses;
    evidence_events = db.evidence_events ++ events;
  })

-- The three updates that complete the shift, the draft and the key.
unfoldable pub complete : Request → Uuid → Uuid → Time → Db → Db
complete request report_id idem_id now db = record db {
  shifts =
      update_where (λ s. s.shift_id == request.shift_id)
        (λ s. record s {
          status = "awaiting_confirmation";
          current_report_id = some report_id;
          closed_at = some now;
        })
        db.shifts;
  drafts =
      update_where (λ d. d.draft_id == request.draft_id)
        (λ d. record d {
          status = "submitted";
          claim_token = none;
          claim_expires_at = none;
          updated_at = now;
          updated_by = some request.actor_id;
        })
        db.drafts;
  idempotencies = update_where (of_idem idem_id) (mark_succeeded report_id now) db.idempotencies;
}

abbrev pub audit_request : Library → Request → Uuid → Uuid → Audit.AppendRequest
audit_request lib request report_id shift_id = record {
  org_id = request.org_id;
  event_id = report_id;
  event_type = "report.submitted";
  payload = lib.json_marshal (
      object (
        member "report_id" (str (lib.audit.uuid_string report_id)) (
          member "shift_id" (str (lib.audit.uuid_string shift_id))
            (member "version_no" (int (pos 1)) no_members))));
  outcome = "success";
  outcome_error = "";
}

-- The alerts of the report, the updates and the audit event.
unfoldable pub close_report :
    Library → Request → FreshIds → Time → ShiftModel → Uuid → Uuid → Db → Result Db
unfolding complete report_row
close_report lib request ids now shift set_id idem_id db = do
  events ←
      variance_alerts lib (report_row request ids.report_id set_id now) set_id ids.alert_event_id
        now db.policy_items db.readings db.sales db.alert_rules
  let completed =
      complete request ids.report_id idem_id now
        (record db { alert_events = db.alert_events ++ events })
  (event, final) ← wrap_error "append submit audit event" (
      append_in_transaction lib.audit (audit_request lib request ids.report_id shift.shift_id) now
        completed)
  ok final

-- The transaction from the policy set on; `idem_id` is the row of the attempt.
unfoldable pub create_report :
    Library
    → Request
    → FreshIds
    → Bytes
    → Time
    → ShiftModel
    → ShiftDraftModel
    → Uuid
    → Db
    → Result Db
unfolding open_report promote_draft_children close_report
create_report lib request ids payload now shift draft idem_id db = do
  (rollover, set_id, opened) ← open_report lib request ids now db
  promoted ← promote_draft_children lib ids shift draft payload rollover now opened
  close_report lib request ids now shift set_id idem_id promoted

-- the attempt of a key that has no answer yet
unfoldable pub attempt :
    Library → Request → FreshIds → Bytes → Bytes → Time → Start → Db → Result (Outcome × Db)
unfolding check_open create_report
attempt lib request ids hash payload now s db = do
  check_open request now s.shift s.draft
  let (idem_id, rows) = begin request hash ids.idem_id now s.key db.idempotencies
  final ←
      create_report lib request ids payload now s.shift s.draft idem_id
        (record db { idempotencies = rows })
  ok (record { report_id = ids.report_id; replay = false; request_hash = [] }, final)

-- a replay, or an attempt
unfoldable pub proceed :
    Library → Request → FreshIds → Bytes → Bytes → Time → Start → Db → Key → Result (Outcome × Db)
unfolding attempt
proceed lib request ids hash payload now s db (answered report_id) =
    ok (record { report_id = report_id; replay = true; request_hash = [] }, db)
proceed lib request ids hash payload now s db unknown =
    attempt lib request ids hash payload now s db
proceed lib request ids hash payload now s db (taken own rows) =
    attempt lib request ids hash payload now s db
proceed lib request ids hash payload now s db (known idem) =
    attempt lib request ids hash payload now s db

-- The function that `Submit` passes to `Transaction`.
unfoldable pub submit_transaction :
    Library → Request → FreshIds → Bytes → Bytes → Time → Db → Result (Outcome × Db)
unfolding start proceed
submit_transaction lib request ids hash payload now db = do
  s ← start request hash now db
  proceed lib request ids hash payload now s db s.key
