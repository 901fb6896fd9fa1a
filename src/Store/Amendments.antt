-- ===== src/Store/Amendments.antt =====
-- internal/repository/store/models.go: amendments and their items.
use pomkita_be.Prelude.{Uuid, Time, String, Bool, Option}
use pomkita_be.Prelude.Text.{Bytes}

pub record AmendmentModel : Type 0 where
  pub amendment_id : Uuid
  pub org_id : Uuid
  pub station_id : Uuid
  pub shift_id : Uuid
  pub base_report_id : Uuid
  pub reason : String
  pub status : String
  pub requester_user_id : Uuid
  pub approver_user_id : Option Uuid
  pub requested_at : Time
  pub decided_at : Option Time
  pub rejection_reason : Option String
  pub applied_report_id : Option Uuid
  pub stale_check_hash : Bytes
  pub is_break_glass : Bool
  pub break_glass_reason : Option String

pub record AmendmentItemModel : Type 0 where
  pub item_id : Uuid
  pub amendment_id : Uuid
  pub org_id : Uuid
  pub station_id : Uuid
  pub shift_id : Uuid
  pub target_kind : String
  pub target_logical_id : Uuid
  pub field : String
  pub old_value : Bytes
  pub new_value : Bytes
