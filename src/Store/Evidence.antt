-- ===== src/Store/Evidence.antt =====
-- internal/repository/store/models.go: losses and the evidence of a report.
use pomkita_be.Prelude.{ℕ, Uuid, Time, String}
use pomkita_be.Prelude.Text.{Bytes}

pub record LossIdentityModel : Type 0 where
  pub loss_id : Uuid
  pub org_id : Uuid
  pub station_id : Uuid
  pub created_by : Uuid
  pub created_at : Time

pub record EvidenceEventModel : Type 0 where
  pub evidence_event_id : Uuid
  pub evidence_id : Uuid
  pub org_id : Uuid
  pub station_id : Uuid
  pub shift_id : Uuid
  pub report_id : Uuid
  pub loss_row_id : Uuid
  pub event_seq : ℕ
  pub event_type : String
  pub evidence_type : String
  pub object_key : String
  pub content_hash : Bytes
  pub size_bytes : ℕ
  pub mime : String
  pub actor_user_id : Uuid
  pub at : Time
