-- ===== src/Store/Shifts.antt =====
-- internal/repository/store/models.go: shifts and their drafts.
use pomkita_be.Prelude.{ℕ, Uuid, Time, String, Bool, Option}
use pomkita_be.Prelude.Text.{Bytes}

pub record ShiftModel : Type 0 where
  pub shift_id : Uuid
  pub org_id : Uuid
  pub station_id : Uuid
  pub station_seq : ℕ
  pub supervisor_id : Uuid
  pub opened_at : Time
  pub closed_at : Option Time
  pub timezone_snapshot : String
  pub business_date : String
  pub status : String
  pub current_report_id : Option Uuid
  pub original_event_date : Option Time
  pub shift_ke : Option ℕ
  pub backfilled : Bool
  pub backfill_approver : Option Uuid
  pub backfill_approved_at : Option Time
  pub backfill_reason : Option String
  pub shift_price_map_snapshot : Bytes
  pub shift_price_map_hash : Bytes
  pub created_at : Time

pub record ShiftDraftModel : Type 0 where
  pub draft_id : Uuid
  pub org_id : Uuid
  pub station_id : Uuid
  pub shift_id : Uuid
  pub owned_by : Option Uuid
  pub claim_token : Option Uuid
  pub claim_expires_at : Option Time
  pub status : String
  pub revision : ℕ
  pub updated_by : Option Uuid
  pub recovery_count : ℕ
  pub updated_at : Time
