-- ===== src/Store/Drafts.antt =====
-- internal/repository/store/models.go: the rows of a draft.
use pomkita_be.Prelude.{ℕ, Uuid, String, Option}
use pomkita_be.Prelude.Text.{Bytes}
use pomkita_be.Store.Decimal.{Decimal}

pub record DraftReadingModel : Type 0 where
  pub row_id : Uuid
  pub org_id : Uuid
  pub station_id : Uuid
  pub draft_id : Uuid
  pub nozzle_id : Uuid
  pub meter_start : Decimal
  pub meter_end : Decimal
  pub created_by : Uuid

pub record DraftSalesModel : Type 0 where
  pub row_id : Uuid
  pub org_id : Uuid
  pub station_id : Uuid
  pub draft_id : Uuid
  pub dispenser_id : Uuid
  pub cash_amount : Decimal
  pub cashless_amount : Decimal
  pub created_by : Uuid

pub record DraftLossModel : Type 0 where
  pub row_id : Uuid
  pub org_id : Uuid
  pub station_id : Uuid
  pub draft_id : Uuid
  pub loss_id : Uuid
  pub direction : String
  pub reason_code : String
  pub liters : Decimal
  pub cash_amount : Option Decimal
  pub note : Option String
  pub created_by : Uuid

pub record DraftEvidenceStagingModel : Type 0 where
  pub row_id : Uuid
  pub org_id : Uuid
  pub station_id : Uuid
  pub draft_id : Uuid
  pub loss_row_id : Uuid
  pub evidence_type : String
  pub object_key : String
  pub content_hash : Bytes
  pub size_bytes : ℕ
  pub mime : String
  pub status : String
  pub uploaded_by : Uuid
