-- ===== src/Store/AuditRows.antt =====
-- internal/repository/store/models.go: the audit chain, its outbox and the relay state.
use pomkita_be.Prelude.{ℕ, Uuid, Time, String, Option}
use pomkita_be.Prelude.Text.{Bytes}

pub record AuditLogModel : Type 0 where
  pub event_id : Uuid
  pub org_id : Uuid
  pub org_sequence : ℕ
  pub event_type : String
  pub payload : Bytes
  pub outcome : String
  pub outcome_error : Option String
  pub created_at : Time
  pub prev_hash : Bytes
  pub row_hash : Bytes

pub record AuditOutboxModel : Type 0 where
  pub org_id : Uuid
  pub event_id : Uuid
  pub event_type : String
  pub payload : Bytes
  pub created_at : Time

pub record OutboxRelayStateModel : Type 0 where
  pub org_id : Uuid
  pub event_id : Uuid
  pub relay_status : String
  pub attempt_count : ℕ
  pub lease_token : Option Uuid
  pub lease_expires_at : Option Time
  pub last_attempt_at : Option Time
  pub next_attempt_at : Option Time
  pub delivered_at : Option Time
  pub last_error : Option Bytes
