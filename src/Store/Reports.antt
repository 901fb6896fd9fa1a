-- ===== src/Store/Reports.antt =====
-- internal/repository/store/models.go: report versions and their rows.
use pomkita_be.Prelude.{ℕ, Uuid, Time, String, Bool, Option}
use pomkita_be.Store.Decimal.{Decimal}

pub record ShiftReportModel : Type 0 where
  pub report_id : Uuid
  pub org_id : Uuid
  pub station_id : Uuid
  pub shift_id : Uuid
  pub version_no : ℕ
  pub supersedes_report_id : Option Uuid
  pub status : String
  pub submitted_by : Uuid
  pub submitted_at : Time
  pub policy_snapshot_set_id : Uuid

pub record DispenserReadingModel : Type 0 where
  pub reading_id : Uuid
  pub org_id : Uuid
  pub station_id : Uuid
  pub shift_id : Uuid
  pub report_id : Uuid
  pub nozzle_id : Uuid
  pub meter_start : Decimal
  pub meter_end : Decimal
  pub price_used : Decimal
  pub expected_sale_rupiah : Decimal
  pub observed : Bool
  pub is_carried_forward : Bool
  pub source_shift_id : Option Uuid
  pub source_report_id : Option Uuid
  pub source_reading_id : Option Uuid

pub record SalesDeclaredModel : Type 0 where
  pub sales_id : Uuid
  pub org_id : Uuid
  pub station_id : Uuid
  pub shift_id : Uuid
  pub report_id : Uuid
  pub dispenser_id : Uuid
  pub cash_amount : Decimal
  pub cashless_amount : Decimal
  pub created_by : Uuid

pub record LossEntryModel : Type 0 where
  pub row_id : Uuid
  pub org_id : Uuid
  pub station_id : Uuid
  pub shift_id : Uuid
  pub report_id : Uuid
  pub version_no : ℕ
  pub loss_id : Uuid
  pub nozzle_id : Uuid
  pub direction : String
  pub reason_code : String
  pub liters : Decimal
  pub cash_amount : Option Decimal
  pub note : Option String
  pub created_by : Uuid
