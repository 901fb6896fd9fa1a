-- ===== src/Store/Submissions.antt =====
-- internal/repository/store/models.go: the idempotency state of a submission.
use pomkita_be.Prelude.{ℕ, Uuid, Time, String, Option}
use pomkita_be.Prelude.Text.{Bytes}

pub record SubmitIdempotencyModel : Type 0 where
  pub idem_id : Uuid
  pub org_id : Uuid
  pub station_id : Uuid
  pub shift_id : Uuid
  pub idempotency_key : String
  pub request_hash : Bytes
  pub status : String
  pub claim_token : Option Uuid
  pub attempt_count : ℕ
  pub lease_started_at : Option Time
  pub lease_expires_at : Option Time
  pub resulting_report_id : Option Uuid
  pub error_detail : Option String
  pub created_at : Time
  pub updated_at : Time
