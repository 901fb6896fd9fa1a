-- ===== src/Governance/Acknowledge.antt =====
-- `Acknowledge` of internal/repository/governance/repository.go: one decision on a report version,
-- which moves the shift on.
pub mod Decision
pub mod Service
use pomkita_be.Prelude.{
  first, select, count, update_where, create, max_of, holds, is_set, ℕ, zero, suc, ◌+◌, ◌-◌, ◌*◌,
  ◌/◌, ◌%◌, ◌^◌, ◌≤◌, ◌<◌, String, ◌≡◌, refl, sym, ap, ◌∙◌, ◌≢◌, ◌↔◌, ◌⊎◌, inl, inr, Bool, true,
  false, not, ◌&&◌, ◌||◌, Option, none, some, List, [], ◌∷◌, ◌++◌, map, arith, eq_iff, ltb, leb,
  ◌==◌, str_eq, if◌then◌else◌, Uuid, Time,
}
use pomkita_be.Prelude.Text.{Bytes}
use pomkita_be.Domain.{
  Error, wrap_error, Result, ok, err, domain, wrapped, plain, record_not_found, refuse_if, found_or,
  ◌>>=◌, ◌>>◌, transaction,
}
use pomkita_be.Store.{Db, RoleRow}
use pomkita_be.Store.Tenants.{StationModel}
use pomkita_be.Store.Shifts.{ShiftModel}
use pomkita_be.Store.Reports.{ShiftReportModel, SalesDeclaredModel, LossEntryModel}
use pomkita_be.Store.Acks.{AckDecisionModel, AckHeadModel}
use pomkita_be.Scope.{require_enabled}
use pomkita_be.Canonical.{Value, object, member, no_members, str}
use pomkita_be.Audit
use pomkita_be.Audit.{append_in_transaction}
use pomkita_be.Governance.Types.{
  Library, AcknowledgeRequest, Acknowledgement, is_approver, is_break_glass_role, ack_role_required,
  ack_separation_required, ack_already_decided, ack_report_not_found, ack_report_unavailable,
  break_glass_reason_required, unexpected_break_glass_reason, rejection_reason_required,
  unexpected_rejection_reason,
}

abbrev pub of_station : Uuid → Uuid → StationModel → Bool
of_station org station s = s.org_id == org && s.station_id == station

abbrev pub of_shift : Uuid → Uuid → Uuid → ShiftModel → Bool
of_shift org station shift s = s.org_id == org && s.station_id == station && s.shift_id == shift

abbrev pub of_head : AcknowledgeRequest → AckHeadModel → Bool
of_head r h =
    h.org_id == r.org_id
    && h.station_id == r.station_id
    && h.shift_id == r.shift_id
    && h.report_id == r.report_id
    && h.version_no == r.version_no

abbrev pub of_report : AcknowledgeRequest → ShiftReportModel → Bool
of_report r x =
    x.org_id == r.org_id
    && x.station_id == r.station_id
    && x.shift_id == r.shift_id
    && x.report_id == r.report_id
    && x.version_no == r.version_no

-- the count of `user_station_roles`
abbrev pub role_count : Uuid → Uuid → Uuid → String → Db → ℕ
role_count org station user role db =
    count
      (λ x. x.org_id == org && x.station_id == station && x.user_id == user && str_eq x.role role)
      db.roles

-- `createdReportDataByActor`
unfoldable pub created_report_data_by_actor : AcknowledgeRequest → Uuid → Db → Bool
created_report_data_by_actor r actor db =
    ltb 0 (
      count
        (λ x.
          x.org_id == r.org_id
          && x.station_id == r.station_id
          && x.shift_id == r.shift_id
          && x.report_id == r.report_id
          && x.created_by == actor)
        db.sales)
    || ltb 0 (
        count
          (λ x.
            x.org_id == r.org_id
            && x.station_id == r.station_id
            && x.shift_id == r.shift_id
            && x.report_id == r.report_id
            && x.created_by == actor)
          db.losses)

-- the first half of `acknowledgementReasons`; `trimmed` is the trimmed text
unfoldable pub rejection_of : String → String → Result (Option String)
rejection_of decision trimmed =
    if str_eq decision "rejected"
    then if str_eq trimmed "" then err rejection_reason_required else ok (some trimmed)
    else if str_eq trimmed ""
    then ok none
    else err unexpected_rejection_reason

-- the second half
unfoldable pub break_glass_of : Bool → String → String → Result (Option String)
break_glass_of true role trimmed = do
  refuse_if (not (is_break_glass_role role)) ack_role_required
  if str_eq trimmed "" then err break_glass_reason_required else ok (some trimmed)
break_glass_of false role trimmed =
    if str_eq trimmed "" then ok none else err unexpected_break_glass_reason

-- `acknowledgementReasons`
unfoldable pub acknowledgement_reasons :
    (String → String) → AcknowledgeRequest → Result (Option String × Option String)
unfolding rejection_of break_glass_of
acknowledgement_reasons trim request = do
  rejection ← rejection_of request.decision (trim request.rejection_reason)
  break_glass ← break_glass_of request.is_break_glass request.role (trim request.break_glass_reason)
  ok (rejection, break_glass)

-- Everything that `Acknowledge` checks before it writes; the result is the two reasons.
unfoldable pub check_acknowledge :
    Library → AcknowledgeRequest → Db → Result (Option String × Option String)
check_acknowledge lib request db = do
  require_enabled db request.org_id request.station_id
  station ←
      found_or (wrapped "lock acknowledgement station" record_not_found)
        (first (of_station request.org_id request.station_id) db.stations)
  shift ←
      found_or ack_report_not_found
        (first (of_shift request.org_id request.station_id request.shift_id) db.shifts)
  refuse_if
      (not (holds shift.current_report_id request.report_id)
        || not (str_eq shift.status "awaiting_confirmation"))
      ack_report_unavailable
  report ← found_or ack_report_not_found (first (of_report request) db.reports)
  head ← found_or ack_report_not_found (first (of_head request) db.ack_heads)
  refuse_if
      (not (role_count request.org_id request.station_id request.actor_id request.role db == 1)
        || not (is_approver request.role))
      ack_role_required
  refuse_if
      (report.submitted_by == request.actor_id
        || created_report_data_by_actor request request.actor_id db)
      ack_separation_required
  refuse_if (is_set head.active_ack_id) ack_already_decided
  acknowledgement_reasons lib.audit.trim_space request

-- the status that a decision gives the shift
abbrev pub decided_status : String → String
decided_status decision = if str_eq decision "acked" then "locked" else "needs_correction"

-- `coalesce(max(ack_seq), 0)` of the report version
unfoldable pub last_seq : AcknowledgeRequest → Db → ℕ
last_seq request db =
    max_of (λ d. d.ack_seq)
      (select
        (λ d.
          d.org_id == request.org_id
          && d.station_id == request.station_id
          && d.shift_id == request.shift_id
          && d.report_id == request.report_id
          && d.version_no == request.version_no)
        db.ack_decisions)

unfoldable pub decision_row :
    AcknowledgeRequest → Uuid → ℕ → Option String × Option String → Time → AckDecisionModel
decision_row request ack_id seq (rejection, break_glass) now = record {
  ack_id = ack_id;
  org_id = request.org_id;
  station_id = request.station_id;
  shift_id = request.shift_id;
  report_id = request.report_id;
  version_no = request.version_no;
  ack_seq = seq;
  decision = request.decision;
  actor_user_id = request.actor_id;
  decided_at = now;
  rejection_reason = rejection;
  is_superadmin = str_eq request.role "Superadmin";
  is_break_glass = request.is_break_glass;
  break_glass_reason = break_glass;
}

-- The rows that `Acknowledge` writes before the audit event.
unfoldable pub apply_acknowledge :
    AcknowledgeRequest → Uuid → Option String × Option String → Time → Db → Db
unfolding decision_row last_seq
apply_acknowledge request ack_id reasons now db = record db {
  ack_decisions =
      create (decision_row request ack_id (last_seq request db + 1) reasons now) db.ack_decisions;
  ack_heads =
      update_where (of_head request) (λ h. record h { active_ack_id = some ack_id }) db.ack_heads;
  shifts =
      update_where (of_shift request.org_id request.station_id request.shift_id)
        (λ s. record s { status = decided_status request.decision }) db.shifts;
}

abbrev pub audit_request : Library → AcknowledgeRequest → Uuid → Audit.AppendRequest
audit_request lib request ack_id = record {
  org_id = request.org_id;
  event_id = ack_id;
  event_type = "report.acknowledged";
  payload = lib.json_marshal (
      object (
        member "ack_id" (str (lib.audit.uuid_string ack_id)) (
          member "report_id" (str (lib.audit.uuid_string request.report_id)) (
            member "decision" (str request.decision)
              (member "shift_status" (str (decided_status request.decision)) no_members)))));
  outcome = request.decision;
  outcome_error = "";
}

-- `Acknowledge`; `ack_id` is what `uuid.New` returns
unfoldable pub acknowledge :
    Library → AcknowledgeRequest → Uuid → Time → Db → Result (Acknowledgement × Db)
unfolding apply_acknowledge
acknowledge lib request ack_id now db = do
  reasons ← check_acknowledge lib request db
  let written = apply_acknowledge request ack_id reasons now db
  (event, final) ←
      wrap_error "append acknowledgement audit event"
        (append_in_transaction lib.audit (audit_request lib request ack_id) now written)
  ok (
    record {
      ack_id = ack_id;
      report_id = request.report_id;
      version_no = request.version_no;
      decision = request.decision;
      shift_status = decided_status request.decision;
      is_break_glass = request.is_break_glass;
    },
    final,
  )
