-- ===== src/Governance/Approve.antt =====
-- `ApproveAmendment` of internal/repository/governance/repository.go: an approved amendment becomes
-- the next version of its report.
use pomkita_be.Prelude.{
  first, select, update_where, create, holds, length, order_by, ◌+◌, Bool, not, ◌&&◌, ◌||◌, Option,
  none, some, List, ◌==◌, str_eq, Uuid, Time,
}
use pomkita_be.Prelude.Text.{Bytes}
use pomkita_be.Domain.{ok, wrap_error, Result, refuse_if, found_or, ◌>>=◌, ◌>>◌}
use pomkita_be.Scope.{require_enabled}
use pomkita_be.Store.{Db}
use pomkita_be.Store.Shifts.{ShiftModel}
use pomkita_be.Store.Reports.{ShiftReportModel}
use pomkita_be.Store.Acks.{AckHeadModel, AckSupersessionModel}
use pomkita_be.Store.Amendments.{AmendmentModel, AmendmentItemModel}
use pomkita_be.Canonical.{object, member, no_members, str, int, pos}
use pomkita_be.Audit
use pomkita_be.Audit.{append_in_transaction, bytes_eq}
use pomkita_be.Governance.Types.{
  Library, Amendment, ApproveAmendmentRequest, is_approver, amendment_role_required,
  amendment_separation_required, amendment_base_unavailable, amendment_not_found,
  amendment_not_pending, stale_amendment_base,
}
use pomkita_be.Governance.Acknowledge.{of_station, of_shift, role_count}
use pomkita_be.Governance.Amendment.{report_snapshot_hash}
use pomkita_be.Governance.Copy.{FreshIds, validate_amendment_items, copy_amended_report_children}

abbrev pub of_approved : ApproveAmendmentRequest → AmendmentModel → Bool
of_approved r a =
    a.org_id == r.org_id && a.station_id == r.station_id && a.amendment_id == r.amendment_id

-- What `ApproveAmendment` has read when its checks pass.
pub record Base : Type 0 where
  pub amendment : AmendmentModel
  pub shift : ShiftModel
  pub base : ShiftReportModel
  pub current_hash : Bytes
  pub items : List AmendmentItemModel

unfoldable pub check_hash : ApproveAmendmentRequest → AmendmentModel → Bytes → Result (Unit {0})
check_hash request amendment current =
    refuse_if
      (not (length request.stale_check_hash == 32)
        || not (bytes_eq request.stale_check_hash current)
        || not (bytes_eq amendment.stale_check_hash current))
      stale_amendment_base

-- the checks of the shift and the report that the amendment is based on
unfoldable pub check_base : Library → ApproveAmendmentRequest → AmendmentModel → Db → Result Base
unfolding check_hash
check_base lib request amendment db = do
  shift ←
      found_or amendment_base_unavailable
        (first (of_shift amendment.org_id amendment.station_id amendment.shift_id) db.shifts)
  refuse_if (not (holds shift.current_report_id amendment.base_report_id))
      amendment_base_unavailable
  base ← found_or amendment_base_unavailable (
      first
        (λ r.
          r.org_id == amendment.org_id
          && r.station_id == amendment.station_id
          && r.shift_id == amendment.shift_id
          && r.report_id == amendment.base_report_id)
        db.reports)
  refuse_if (not (str_eq base.status "submitted") && not (str_eq base.status "locked"))
      amendment_base_unavailable
  let current = report_snapshot_hash lib base db
  check_hash request amendment current
  let items =
      order_by (λ (i : AmendmentItemModel). i.item_id)
        (select
          (λ i.
            i.org_id == amendment.org_id
            && i.station_id == amendment.station_id
            && i.amendment_id == amendment.amendment_id)
          db.amendment_items)
  validate_amendment_items lib base db items
  ok (record {
    amendment = amendment;
    shift = shift;
    base = base;
    current_hash = current;
    items = items;
  })

-- Everything that `ApproveAmendment` checks before it writes.
unfoldable pub check_approve : Library → ApproveAmendmentRequest → Db → Result Base
unfolding check_base
check_approve lib request db = do
  require_enabled db request.org_id request.station_id
  station ←
      found_or amendment_not_found
        (first (of_station request.org_id request.station_id) db.stations)
  amendment ← found_or amendment_not_found (first (of_approved request) db.amendments)
  refuse_if
      (not (role_count request.org_id request.station_id request.approver_id request.role db == 1)
        || not (is_approver request.role))
      amendment_role_required
  refuse_if (not (str_eq amendment.status "pending")) amendment_not_pending
  refuse_if (amendment.requester_user_id == request.approver_id && not amendment.is_break_glass)
      amendment_separation_required
  check_base lib request amendment db

-- the next version of the report
unfoldable pub next_version : ShiftReportModel → Uuid → Uuid → Time → ShiftReportModel
next_version base report_id approver now = record {
  report_id = report_id;
  org_id = base.org_id;
  station_id = base.station_id;
  shift_id = base.shift_id;
  version_no = base.version_no + 1;
  supersedes_report_id = some base.report_id;
  status = "submitted";
  submitted_by = approver;
  submitted_at = now;
  policy_snapshot_set_id = base.policy_snapshot_set_id;
}

abbrev pub of_version_head : ShiftReportModel → AckHeadModel → Bool
of_version_head r h =
    h.org_id == r.org_id
    && h.station_id == r.station_id
    && h.shift_id == r.shift_id
    && h.report_id == r.report_id
    && h.version_no == r.version_no

unfoldable pub supersession_row :
    ShiftReportModel → ShiftReportModel → Uuid → Uuid → Time → AckSupersessionModel
supersession_row base replacement supersession_id ack_id now = record {
  supersession_id = supersession_id;
  old_org_id = base.org_id;
  old_station_id = base.station_id;
  old_shift_id = base.shift_id;
  old_report_id = base.report_id;
  old_version_no = base.version_no;
  superseded_ack_id = ack_id;
  replacement_org_id = replacement.org_id;
  replacement_station_id = replacement.station_id;
  replacement_shift_id = replacement.shift_id;
  replacement_report_id = replacement.report_id;
  replacement_version_no = replacement.version_no;
  reason = "amendment";
  created_at = now;
}

-- the decision on the base, if there is one, is superseded
unfoldable pub supersede : ShiftReportModel → ShiftReportModel → Uuid → Time → Option Uuid → Db → Db
unfolding supersession_row
supersede base replacement supersession_id now none db = db
supersede base replacement supersession_id now (some ack_id) db = record db {
  supersessions =
      create (supersession_row base replacement supersession_id ack_id now) db.supersessions;
  ack_heads =
      update_where (of_version_head base) (λ h. record h { active_ack_id = none }) db.ack_heads;
}

-- the updates of the shift and of the amendment
unfoldable pub point_to :
    ApproveAmendmentRequest → AmendmentModel → ShiftReportModel → Uuid → Time → Db → Db
point_to request amendment base report_id now db = record db {
  shifts =
      update_where (of_shift base.org_id base.station_id base.shift_id)
        (λ s. record s { current_report_id = some report_id; status = "awaiting_confirmation" })
        db.shifts;
  amendments =
      update_where
        (λ a.
          a.org_id == amendment.org_id
          && a.station_id == amendment.station_id
          && a.amendment_id == amendment.amendment_id)
        (λ a. record a {
          status = "approved";
          approver_user_id = some request.approver_id;
          decided_at = some now;
          applied_report_id = some report_id;
        })
        db.amendments;
}

abbrev pub approved_event :
    Library → AmendmentModel → ShiftReportModel → ShiftReportModel → Audit.AppendRequest
approved_event lib amendment base replacement = record {
  org_id = amendment.org_id;
  event_id = replacement.report_id;
  event_type = "amendment.approved";
  payload = lib.json_marshal (
      object (
        member "amendment_id" (str (lib.audit.uuid_string amendment.amendment_id)) (
          member "base_report_id" (str (lib.audit.uuid_string base.report_id)) (
            member "applied_report_id" (str (lib.audit.uuid_string replacement.report_id))
              (member "version_no" (int (pos replacement.version_no)) no_members)))));
  outcome = "approved";
  outcome_error = "";
}

-- The report, its rows and its head.
unfoldable pub write_version : Library → Base → ShiftReportModel → FreshIds → Time → Db → Result Db
unfolding copy_amended_report_children supersede
write_version lib b replacement ids now db = do
  copied ←
      copy_amended_report_children lib b.base replacement b.items ids
        (record db { reports = create replacement db.reports })
  let headed = record copied {
    ack_heads =
        create
          (record {
            org_id = replacement.org_id;
            station_id = replacement.station_id;
            shift_id = replacement.shift_id;
            report_id = replacement.report_id;
            version_no = replacement.version_no;
            active_ack_id = none;
          })
          copied.ack_heads;
  }
  old_head ← found_or amendment_base_unavailable (first (of_version_head b.base) headed.ack_heads)
  ok (supersede b.base replacement ids.supersession_id now old_head.active_ack_id headed)

-- `ApproveAmendment` after its checks
unfoldable pub apply_approve :
    Library → ApproveAmendmentRequest → Base → FreshIds → Time → Db → Result Db
unfolding write_version point_to next_version
apply_approve lib request b ids now db = do
  let replacement = next_version b.base ids.report_id request.approver_id now
  written ← write_version lib b replacement ids now db
  (event, final) ← wrap_error "append amendment approval audit event" (
      append_in_transaction lib.audit (approved_event lib b.amendment b.base replacement) now
        (point_to request b.amendment b.base ids.report_id now written))
  ok final

-- `ApproveAmendment`
unfoldable pub approve_amendment :
    Library → ApproveAmendmentRequest → FreshIds → Time → Db → Result (Amendment × Db)
unfolding apply_approve
approve_amendment lib request ids now db = do
  b ← check_approve lib request db
  final ← apply_approve lib request b ids now db
  ok (
    record {
      amendment_id = b.amendment.amendment_id;
      base_report_id = b.base.report_id;
      applied_report_id = ids.report_id;
      status = "approved";
      version_no = b.base.version_no + 1;
      stale_check_hash = b.current_hash;
      requested_at = b.amendment.requested_at;
      decided_at = now;
      rejection_reason = "";
    },
    final,
  )
