-- ===== src/Governance/Amendment.antt =====
-- `RequestAmendment` and `RejectAmendment` of internal/repository/governance/repository.go.
pub mod Pending
pub mod Reject
use pomkita_be.Prelude.{
  first, select, count, update_where, create, holds, is_set, length, order_by, nil_uuid, ℕ, zero,
  suc, ◌+◌, ◌-◌, ◌*◌, ◌/◌, ◌%◌, ◌^◌, ◌≤◌, ◌<◌, String, ◌≡◌, refl, sym, ap, ◌∙◌, ◌≢◌, ◌↔◌, ◌⊎◌, inl,
  inr, Bool, true, false, not, ◌&&◌, ◌||◌, Option, none, some, List, [], ◌∷◌, ◌++◌, map, arith,
  eq_iff, ltb, leb, ◌==◌, str_eq, if◌then◌else◌, Uuid, Time,
}
use pomkita_be.Prelude.Text.{Bytes}
use pomkita_be.Domain.{
  Error, wrap_error, Result, ok, err, domain, wrapped, plain, record_not_found, refuse_if, found_or,
  ◌>>=◌, ◌>>◌, transaction,
}
use pomkita_be.Store.{Db, RoleRow}
use pomkita_be.Store.Shifts.{ShiftModel}
use pomkita_be.Store.Reports.{
  ShiftReportModel, DispenserReadingModel, SalesDeclaredModel, LossEntryModel,
}
use pomkita_be.Store.Amendments.{AmendmentModel, AmendmentItemModel}
use pomkita_be.Scope.{require_enabled}
use pomkita_be.Canonical
use pomkita_be.Canonical.{Value, object, member, no_members, str, bool, int, pos}
use pomkita_be.Audit
use pomkita_be.Audit.{append_in_transaction}
use pomkita_be.Governance.Types.{
  Library, Amendment, AmendmentItem, AmendmentRequest, RejectAmendmentRequest, is_approver,
  amendment_role_required, amendment_field_forbidden, amendment_separation_required,
  amendment_base_unavailable, amendment_pending_exists, amendment_not_found, amendment_not_pending,
  amendment_reason_required,
}
use pomkita_be.Governance.Acknowledge.{of_station, of_shift, role_count}

-- `repositoryAmendmentFieldAllowed`
unfoldable pub field_allowed : String → String → Bool
field_allowed kind field =
    if str_eq kind "sales_declared"
    then str_eq field "cash_amount" || str_eq field "cashless_amount"
    else if str_eq kind "loss_entry"
    then str_eq field "liters" || str_eq field "cash_amount" || str_eq field "note"
    else if str_eq kind "delivery"
    then str_eq field "reference" || str_eq field "delivery_id"
    else if str_eq kind "dip_reading"
    then str_eq field "reference" || str_eq field "dip_id"
    else false

-- the test of one requested item
abbrev pub is_forbidden : AmendmentItem → Bool
is_forbidden item =
    item.target_logical_id == nil_uuid
    || not (field_allowed item.target_kind item.field)
    || length item.old_value == 0

unfoldable pub check_items : List AmendmentItem → Result (Unit {0})
check_items [] = ok tt
check_items (item ∷ items) =
    refuse_if (is_forbidden item) amendment_field_forbidden >> check_items items

-- `reportSnapshotHash`: the hash of the report and its rows, each kind ordered by its key
unfoldable pub report_snapshot_hash : Library → ShiftReportModel → Db → Bytes
report_snapshot_hash lib report db = lib.audit.encoding.sha256 (
    lib.snapshot_json report
      (order_by (λ r. r.reading_id)
        (select
          (λ r.
            r.org_id == report.org_id
            && r.station_id == report.station_id
            && r.shift_id == report.shift_id
            && r.report_id == report.report_id)
          db.readings))
      (order_by (λ r. r.sales_id)
        (select
          (λ r.
            r.org_id == report.org_id
            && r.station_id == report.station_id
            && r.shift_id == report.shift_id
            && r.report_id == report.report_id)
          db.sales))
      (order_by (λ r. r.row_id)
        (select
          (λ r.
            r.org_id == report.org_id
            && r.station_id == report.station_id
            && r.shift_id == report.shift_id
            && r.report_id == report.report_id)
          db.losses)))

-- `base_report_id = ? and status = 'pending'`, within the station
abbrev pub of_pending : Uuid → Uuid → Uuid → AmendmentModel → Bool
of_pending org station base a =
    a.org_id == org
    && a.station_id == station
    && a.base_report_id == base
    && str_eq a.status "pending"

abbrev pub is_amendable : String → Bool
is_amendable status =
    str_eq status "locked"
    || str_eq status "awaiting_confirmation"
    || str_eq status "needs_correction"

-- Everything that `RequestAmendment` checks before it writes; the result is the report.
unfoldable pub check_request : AmendmentRequest → Db → Result ShiftReportModel
check_request request db = do
  require_enabled db request.org_id request.station_id
  station ←
      found_or amendment_not_found
        (first (of_station request.org_id request.station_id) db.stations)
  shift ←
      found_or amendment_base_unavailable
        (first (of_shift request.org_id request.station_id request.shift_id) db.shifts)
  refuse_if
      (not (holds shift.current_report_id request.base_report_id)
        || not (is_amendable shift.status))
      amendment_base_unavailable
  report ← found_or amendment_base_unavailable (
      first
        (λ x.
          x.org_id == request.org_id
          && x.station_id == request.station_id
          && x.shift_id == request.shift_id
          && x.report_id == request.base_report_id)
        db.reports)
  refuse_if
      (not (role_count request.org_id request.station_id request.requester_id "Supervisor" db == 1))
      amendment_role_required
  refuse_if
      (not (
        count (of_pending request.org_id request.station_id request.base_report_id) db.amendments
        == 0))
      amendment_pending_exists
  check_items request.items
  ok report

unfoldable pub amendment_row : Library → AmendmentRequest → Uuid → Bytes → Time → AmendmentModel
amendment_row lib request amendment_id hash now = record {
  amendment_id = amendment_id;
  org_id = request.org_id;
  station_id = request.station_id;
  shift_id = request.shift_id;
  base_report_id = request.base_report_id;
  reason = lib.audit.trim_space request.reason;
  status = "pending";
  requester_user_id = request.requester_id;
  approver_user_id = none;
  requested_at = now;
  decided_at = none;
  rejection_reason = none;
  applied_report_id = none;
  stale_check_hash = hash;
  is_break_glass = request.is_break_glass;
  break_glass_reason =
      if str_eq (lib.audit.trim_space request.break_glass_reason) ""
      then none
      else some (lib.audit.trim_space request.break_glass_reason);
}

-- The item rows. `item_ids` gives what `uuid.New` returns in the n-th round.
unfoldable pub item_rows :
    AmendmentRequest → Uuid → (ℕ → Uuid) → ℕ → List AmendmentItem → List AmendmentItemModel
item_rows request amendment_id item_ids n [] = []
item_rows request amendment_id item_ids n (item ∷ items) =
    record {
      item_id = item_ids n;
      amendment_id = amendment_id;
      org_id = request.org_id;
      station_id = request.station_id;
      shift_id = request.shift_id;
      target_kind = item.target_kind;
      target_logical_id = item.target_logical_id;
      field = item.field;
      old_value = item.old_value;
      new_value = item.new_value;
    }
    ∷ item_rows request amendment_id item_ids (suc n) items

abbrev pub requested_event : Library → AmendmentRequest → Uuid → Audit.AppendRequest
requested_event lib request amendment_id = record {
  org_id = request.org_id;
  event_id = amendment_id;
  event_type = "amendment.requested";
  payload = lib.json_marshal (
      object (
        member "amendment_id" (str (lib.audit.uuid_string amendment_id)) (
          member "base_report_id" (str (lib.audit.uuid_string request.base_report_id)) (
            member "item_count" (int (pos (length request.items)))
              (member "break_glass" (bool request.is_break_glass) no_members)))));
  outcome = "success";
  outcome_error = "";
}

-- `RequestAmendment`; `amendment_id` and `item_ids` are what `uuid.New` returns
unfoldable pub request_amendment :
    Library → AmendmentRequest → Uuid → (ℕ → Uuid) → Time → Db → Result (Amendment × Db)
request_amendment lib request amendment_id item_ids now db = do
  report ← check_request request db
  let row = amendment_row lib request amendment_id (report_snapshot_hash lib report db) now
  let written = record db {
    amendments = create row db.amendments;
    amendment_items = db.amendment_items ++ item_rows request amendment_id item_ids 0 request.items;
  }
  (event, final) ←
      wrap_error "append amendment audit event"
        (append_in_transaction lib.audit (requested_event lib request amendment_id) now written)
  ok (
    record {
      amendment_id = row.amendment_id;
      base_report_id = row.base_report_id;
      applied_report_id = nil_uuid;
      status = row.status;
      version_no = 0;
      stale_check_hash = row.stale_check_hash;
      requested_at = now;
      decided_at = 0;
      rejection_reason = "";
    },
    final,
  )

abbrev pub of_amendment : RejectAmendmentRequest → AmendmentModel → Bool
of_amendment r a =
    a.org_id == r.org_id && a.station_id == r.station_id && a.amendment_id == r.amendment_id

-- Everything that `RejectAmendment` checks before it writes; the result is the trimmed reason.
unfoldable pub check_reject : Library → RejectAmendmentRequest → Db → Result String
check_reject lib request db = do
  require_enabled db request.org_id request.station_id
  station ←
      found_or amendment_not_found
        (first (of_station request.org_id request.station_id) db.stations)
  amendment ← found_or amendment_not_found (first (of_amendment request) db.amendments)
  refuse_if
      (not (role_count request.org_id request.station_id request.approver_id request.role db == 1)
        || not (is_approver request.role))
      amendment_role_required
  refuse_if (not (str_eq amendment.status "pending")) amendment_not_pending
  refuse_if (amendment.requester_user_id == request.approver_id) amendment_separation_required
  refuse_if (str_eq (lib.audit.trim_space request.rejection_reason) "") amendment_reason_required
  ok (lib.audit.trim_space request.rejection_reason)

-- the columns that `RejectAmendment` writes
unfoldable pub mark_rejected : Uuid → String → Time → AmendmentModel → AmendmentModel
mark_rejected approver reason now a = record a {
  status = "rejected";
  approver_user_id = some approver;
  decided_at = some now;
  rejection_reason = some reason;
}

abbrev pub rejected_event : Library → RejectAmendmentRequest → Uuid → String → Audit.AppendRequest
rejected_event lib request event_id reason = record {
  org_id = request.org_id;
  event_id = event_id;
  event_type = "amendment.rejected";
  payload = lib.json_marshal (
      object (
        member "amendment_id" (str (lib.audit.uuid_string request.amendment_id))
          (member "reason" (str reason) no_members)));
  outcome = "rejected";
  outcome_error = "";
}

-- `RejectAmendment`; `event_id` is what `uuid.New` returns
unfoldable pub reject_amendment :
    Library → RejectAmendmentRequest → Uuid → Time → Db → Result (Unit {0} × Db)
reject_amendment lib request event_id now db = do
  reason ← check_reject lib request db
  let written = record db {
    amendments =
        update_where (of_amendment request) (mark_rejected request.approver_id reason now)
          db.amendments;
  }
  (event, final) ←
      wrap_error "append amendment rejection audit event"
        (append_in_transaction lib.audit (rejected_event lib request event_id reason) now written)
  ok (tt, final)
