-- ===== src/Governance/Types.antt =====
-- The requests, results and errors of internal/service/governance, and the library calls.
use pomkita_be.Prelude.{Option, Uuid, ℕ, String, Bool, ◌||◌, List, str_eq, Time}
use pomkita_be.Prelude.Text.{Bytes}
use pomkita_be.Domain.{Error, validation, authorization, conflict, not_found, domain}
use pomkita_be.Canonical.{Value}
use pomkita_be.Audit
use pomkita_be.Store.Reports.{
  ShiftReportModel, DispenserReadingModel, SalesDeclaredModel, LossEntryModel,
}

-- What the package calls beside the audit chain: `json.Marshal` of a map of texts and numbers, and
-- of the report with its rows.
pub record Library : Type 0 where
  pub audit : Audit.Library
  pub json_marshal : Value → Bytes
  pub snapshot_json :
      ShiftReportModel
      → List DispenserReadingModel
      → List SalesDeclaredModel
      → List LossEntryModel
      → Bytes
  -- `json.Unmarshal` into a string, the bytes of a Go string, and `strings.TrimSpace` of bytes
  pub decode_text : Bytes → Option String
  pub utf8 : String → Bytes
  pub trim_bytes : Bytes → Bytes

pub record AcknowledgeRequest : Type 0 where
  pub org_id : Uuid
  pub station_id : Uuid
  pub shift_id : Uuid
  pub report_id : Uuid
  pub actor_id : Uuid
  pub version_no : ℕ
  pub role : String
  pub decision : String
  pub rejection_reason : String
  pub is_break_glass : Bool
  pub break_glass_reason : String

pub record Acknowledgement : Type 0 where
  pub ack_id : Uuid
  pub report_id : Uuid
  pub version_no : ℕ
  pub decision : String
  pub shift_status : String
  pub is_break_glass : Bool

pub record AmendmentItem : Type 0 where
  pub target_kind : String
  pub target_logical_id : Uuid
  pub field : String
  pub old_value : Bytes
  pub new_value : Bytes

pub record AmendmentRequest : Type 0 where
  pub org_id : Uuid
  pub station_id : Uuid
  pub shift_id : Uuid
  pub base_report_id : Uuid
  pub requester_id : Uuid
  pub role : String
  pub reason : String
  pub stale_check_hash : Bytes
  pub is_break_glass : Bool
  pub break_glass_reason : String
  pub items : List AmendmentItem

pub record Amendment : Type 0 where
  pub amendment_id : Uuid
  pub base_report_id : Uuid
  pub applied_report_id : Uuid
  pub status : String
  pub version_no : ℕ
  pub stale_check_hash : Bytes
  pub requested_at : Time
  pub decided_at : Time
  pub rejection_reason : String

pub record RejectAmendmentRequest : Type 0 where
  pub org_id : Uuid
  pub station_id : Uuid
  pub amendment_id : Uuid
  pub approver_id : Uuid
  pub role : String
  pub rejection_reason : String

pub record ApproveAmendmentRequest : Type 0 where
  pub org_id : Uuid
  pub station_id : Uuid
  pub amendment_id : Uuid
  pub approver_id : Uuid
  pub role : String
  pub stale_check_hash : Bytes

-- The roles that may decide on reports and amendments.
abbrev pub is_approver : String → Bool
is_approver role = str_eq role "Station Admin" || str_eq role "Owner" || str_eq role "Superadmin"

abbrev pub is_break_glass_role : String → Bool
is_break_glass_role role = str_eq role "Owner" || str_eq role "Superadmin"

abbrev pub invalid_ack_request : Error
invalid_ack_request = domain validation "invalid_ack_request"

abbrev pub ack_role_required : Error
ack_role_required = domain authorization "ack_role_required"

abbrev pub ack_separation_required : Error
ack_separation_required = domain authorization "ack_separation_required"

abbrev pub ack_already_decided : Error
ack_already_decided = domain conflict "ack_already_decided"

abbrev pub ack_report_not_found : Error
ack_report_not_found = domain not_found "ack_report_not_found"

abbrev pub ack_report_unavailable : Error
ack_report_unavailable = domain conflict "ack_report_unavailable"

abbrev pub break_glass_reason_required : Error
break_glass_reason_required = domain validation "break_glass_reason_required"

abbrev pub unexpected_break_glass_reason : Error
unexpected_break_glass_reason = domain validation "unexpected_break_glass_reason"

abbrev pub rejection_reason_required : Error
rejection_reason_required = domain validation "rejection_reason_required"

abbrev pub unexpected_rejection_reason : Error
unexpected_rejection_reason = domain validation "unexpected_rejection_reason"

abbrev pub invalid_amendment_request : Error
invalid_amendment_request = domain validation "invalid_amendment_request"

abbrev pub amendment_role_required : Error
amendment_role_required = domain authorization "amendment_role_required"

abbrev pub amendment_field_forbidden : Error
amendment_field_forbidden = domain validation "amendment_field_forbidden"

abbrev pub amendment_separation_required : Error
amendment_separation_required = domain authorization "amendment_separation_required"

abbrev pub amendment_base_unavailable : Error
amendment_base_unavailable = domain conflict "amendment_base_unavailable"

abbrev pub amendment_pending_exists : Error
amendment_pending_exists = domain conflict "amendment_pending_exists"

abbrev pub amendment_not_found : Error
amendment_not_found = domain not_found "amendment_not_found"

abbrev pub amendment_not_pending : Error
amendment_not_pending = domain conflict "amendment_not_pending"

abbrev pub amendment_reason_required : Error
amendment_reason_required = domain validation "amendment_reason_required"

abbrev pub stale_amendment_base : Error
stale_amendment_base = domain conflict "stale_amendment_base"

abbrev pub amendment_target_not_found : Error
amendment_target_not_found = domain validation "amendment_target_not_found"
