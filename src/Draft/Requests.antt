-- ===== src/Draft/Requests.antt =====
-- internal/service/draft/service.go: the requests, results and errors of the draft operations.
use pomkita_be.Prelude.{ℕ, Uuid, Time, String}
use pomkita_be.Prelude.Text.{Bytes}
use pomkita_be.Domain.{Error, domain, validation, conflict, not_found}

abbrev pub invalid_request : Error
invalid_request = domain validation "invalid_draft_request"

abbrev pub claim_expired : Error
claim_expired = domain conflict "draft_claim_expired"

abbrev pub draft_not_found : Error
draft_not_found = domain not_found "draft_not_found"

abbrev pub revision_conflict : Error
revision_conflict = domain conflict "draft_revision_conflict"

pub record ClaimRequest : Type 0 where
  pub draft_id : Uuid
  pub shift_id : Uuid
  pub actor_id : Uuid

pub record ClaimResult : Type 0 where
  pub draft_id : Uuid
  pub claim_token : Uuid
  pub claim_expires_at : Time
  pub revision : ℕ

pub record HeartbeatRequest : Type 0 where
  pub draft_id : Uuid
  pub claim_token : Uuid
  pub actor_id : Uuid

pub record WriteReadingRequest : Type 0 where
  pub draft_id : Uuid
  pub claim_token : Uuid
  pub revision : ℕ
  pub nozzle_id : Uuid
  pub meter_start : String
  pub meter_end : String
  pub actor_id : Uuid

pub record WriteSalesRequest : Type 0 where
  pub draft_id : Uuid
  pub claim_token : Uuid
  pub revision : ℕ
  pub dispenser_id : Uuid
  pub cash_amount : String
  pub cashless_amount : String
  pub actor_id : Uuid

pub record WriteLossRequest : Type 0 where
  pub draft_id : Uuid
  pub claim_token : Uuid
  pub revision : ℕ
  pub loss_id : Uuid
  pub direction : String
  pub reason_code : String
  pub liters : String
  pub cash_amount : String
  pub note : String
  pub actor_id : Uuid

pub record StageEvidenceRequest : Type 0 where
  pub draft_id : Uuid
  pub claim_token : Uuid
  pub revision : ℕ
  pub loss_row_id : Uuid
  pub evidence_type : String
  pub object_key : String
  pub content_hash : Bytes
  pub size_bytes : ℕ
  pub mime : String
  pub actor_id : Uuid
