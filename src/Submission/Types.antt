-- ===== src/Submission/Types.antt =====
-- The requests, payloads and errors of internal/service/submission and
-- internal/repository/submission, and the library calls.
use pomkita_be.Prelude.{ℕ, String, Bool, Option, List, Uuid}
use pomkita_be.Prelude.Text.{Bytes}
use pomkita_be.Domain.{validation, conflict, dependency, Error, domain}
use pomkita_be.Canonical.{Value, ℤ}
use pomkita_be.Audit
use pomkita_be.Store.Policies.{EvidencePolicyTypeModel}

abbrev pub invalid_submit_request : Error
invalid_submit_request = domain validation "invalid_submit_request"

abbrev pub idempotency_conflict : Error
idempotency_conflict = domain conflict "idempotency_conflict"

abbrev pub dependency_unavailable : Error
dependency_unavailable = domain dependency "dependency_unavailable"

-- `submission.Request`; the payload is an argument of its own
pub record Request : Type 0 where
  pub org_id : Uuid
  pub station_id : Uuid
  pub shift_id : Uuid
  pub draft_id : Uuid
  pub claim_token : Uuid
  pub expected_revision : ℕ
  pub actor_id : Uuid
  pub idempotency_key : String
  pub payload : Bytes

-- `submission.Result`
pub record Outcome : Type 0 where
  pub report_id : Uuid
  pub replay : Bool
  pub request_hash : Bytes

pub record SubmitReading : Type 0 where
  pub nozzle_id : Uuid
  pub meter_start : Bytes
  pub meter_end : Bytes
  pub observed : Option Bool

pub record SubmitLoss : Type 0 where
  pub loss_id : Uuid
  pub nozzle_id : Uuid

-- `submitPayload`; its sales are not read
pub record SubmitPayload : Type 0 where
  pub readings : List SubmitReading
  pub losses : List SubmitLoss

pub record CatalogSnapshotItem : Type 0 where
  pub nozzle_id : String
  pub modulus : Bytes
  pub price : Bytes

pub record ThresholdSnapshot : Type 0 where
  pub hash_version : ℕ
  pub loss_liter_threshold : Bytes
  pub gain_liter_threshold : Bytes
  pub loss_rupiah_threshold : Bytes
  pub gain_rupiah_threshold : Bytes
  pub variance_rupiah_threshold : Bytes
  pub rollover_threshold : Bytes

pub record EvidenceSnapshotType : Type 0 where
  pub kind : String
  pub minimum_count_per_loss : ℤ
  pub accepted_mime_types : List String

pub record EvidenceSnapshot : Type 0 where
  pub hash_version : ℕ
  pub mode : String
  pub types : List EvidenceSnapshotType

-- A `big.Rat`: (above - below) / units, with units above 0.
pub record Rational : Type 0 where
  pub above : ℕ
  pub below : ℕ
  pub units : ℕ

-- What the package calls beside the audit chain: `json.Unmarshal` of its payloads, which fails as
-- `none`, `json.Marshal` of them, `uuid.Parse` and `uuid.UUID.String`, `sort.Strings`, and
-- `big.Rat.SetString`.
pub record Library : Type 0 where
  pub audit : Audit.Library
  pub json_marshal : Value → Bytes
  pub decode_payload : Bytes → Option SubmitPayload
  pub decode_catalog : Bytes → Option (List CatalogSnapshotItem)
  pub decode_threshold : Bytes → Option ThresholdSnapshot
  pub encode_threshold : ThresholdSnapshot → Bytes
  pub decode_evidence : Bytes → Option EvidenceSnapshot
  pub encode_evidence : EvidenceSnapshot → Bytes
  pub parse_uuid : String → Option Uuid
  pub parse_rational : Bytes → Option Rational
  -- `json.Unmarshal` into an `any` and `json.Marshal` of it; `none` for an error and for `null`
  pub canonical_json : Bytes → Option Bytes
  -- `Order("evidence_type")`, by the collation of the database
  pub order_types : List EvidencePolicyTypeModel → List EvidencePolicyTypeModel
  -- `bytes.TrimSpace`
  pub trim_space : Bytes → Bytes

-- What `uuid.New` returns in one call of `Submit`; in a loop, by the round.
pub record FreshIds : Type 0 where
  pub idem_id : Uuid
  pub failed_idem_id : Uuid
  pub set_id : Uuid
  pub threshold_rev_id : Uuid
  pub threshold_policy_id : Uuid
  pub threshold_item_id : Uuid
  pub evidence_item_id : Uuid
  pub report_id : Uuid
  pub reading_id : ℕ → Uuid
  pub sales_id : ℕ → Uuid
  pub loss_row_id : ℕ → Uuid
  pub evidence_event_id : ℕ → Uuid
  pub alert_event_id : ℕ → Uuid
