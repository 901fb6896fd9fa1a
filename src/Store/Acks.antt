-- ===== src/Store/Acks.antt =====
-- internal/repository/store/models.go: acknowledgement decisions.
use pomkita_be.Prelude.{ℕ, Uuid, Time, String, Bool, Option}

pub record AckDecisionModel : Type 0 where
  pub ack_id : Uuid
  pub org_id : Uuid
  pub station_id : Uuid
  pub shift_id : Uuid
  pub report_id : Uuid
  pub version_no : ℕ
  pub ack_seq : ℕ
  pub decision : String
  pub actor_user_id : Uuid
  pub decided_at : Time
  pub rejection_reason : Option String
  pub is_superadmin : Bool
  pub is_break_glass : Bool
  pub break_glass_reason : Option String

pub record AckHeadModel : Type 0 where
  pub org_id : Uuid
  pub station_id : Uuid
  pub shift_id : Uuid
  pub report_id : Uuid
  pub version_no : ℕ
  pub active_ack_id : Option Uuid

pub record AckSupersessionModel : Type 0 where
  pub supersession_id : Uuid
  pub old_org_id : Uuid
  pub old_station_id : Uuid
  pub old_shift_id : Uuid
  pub old_report_id : Uuid
  pub old_version_no : ℕ
  pub superseded_ack_id : Uuid
  pub replacement_org_id : Uuid
  pub replacement_station_id : Uuid
  pub replacement_shift_id : Uuid
  pub replacement_report_id : Uuid
  pub replacement_version_no : ℕ
  pub reason : String
  pub created_at : Time
