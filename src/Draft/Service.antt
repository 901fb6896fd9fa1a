-- ===== src/Draft/Service.antt =====
-- internal/service/draft/service.go: the checks that stand before the repository's operations.
pub mod Accepted
use pomkita_be.Prelude.{
  length, nil_uuid, ℕ, zero, suc, ◌+◌, ◌-◌, ◌*◌, ◌/◌, ◌%◌, ◌^◌, ◌≤◌, ◌<◌, String, ◌≡◌, refl, sym,
  ap, ◌∙◌, ◌≢◌, ◌↔◌, ◌⊎◌, inl, inr, Bool, true, false, not, ◌&&◌, ◌||◌, Option, none, some, List,
  [], ◌∷◌, ◌++◌, map, arith, eq_iff, ltb, leb, ◌==◌, str_eq, if◌then◌else◌, Uuid, Time,
}
use pomkita_be.Prelude.Text.{codes, Bytes}
use pomkita_be.Domain.{
  Result-cases, dependency, Error, Result, ok, err, domain, wrapped, plain, record_not_found,
  refuse_if, found_or, ◌>>=◌, ◌>>◌, transaction,
}
use pomkita_be.Store.{Db}
use pomkita_be.Reconciliation.{split_point, is_whole, is_fraction, parse_decimal, Parsed}
use pomkita_be.Draft.{claim, heartbeat, write_reading, write_sales, write_loss, stage_evidence}
use pomkita_be.Draft.Requests.{
  ClaimRequest, ClaimResult, HeartbeatRequest, WriteReadingRequest, WriteSalesRequest,
  WriteLossRequest, StageEvidenceRequest, invalid_request,
}

abbrev pub dependency_unavailable : Error
dependency_unavailable = domain dependency "dependency_unavailable"

-- `Service`: what is missing is `none`. The repository is the one of the database.
pub record Service : Type 0 where
  pub repository : Option Db
  pub clock : Option Time

unfoldable pub with_dependencies {ℓ} :
    {A : Type ℓ} → Option Service → (Time → Db → Result (A × Db)) → Result (A × Db)
with_dependencies none f = err dependency_unavailable
with_dependencies (some s) f = do
  db ← found_or dependency_unavailable s.repository
  now ← found_or dependency_unavailable s.clock
  f now db

abbrev pub is_nil : Uuid → Bool
is_nil id = id == nil_uuid

abbrev pub is_empty : String → Bool
is_empty s = str_eq s ""

-- `decimalPattern`: `(0|[1-9][0-9]*)(\.[0-9]+)?`
unfoldable pub matches : Bytes × Option Bytes → Bool
matches (whole, none) = is_whole whole
matches (whole, some fraction) = is_whole whole && is_fraction fraction

-- `validDecimal`
unfoldable pub valid_decimal : String → Bool
unfolding matches
valid_decimal value = matches (split_point (codes value))

-- `Service.Claim`
unfoldable pub service_claim : Option Service → ClaimRequest → Uuid → Result (ClaimResult × Db)
unfolding with_dependencies
service_claim s request fresh = with_dependencies s (λ now db. do
  refuse_if (is_nil request.draft_id || is_nil request.shift_id || is_nil request.actor_id)
      invalid_request
  claim request fresh now db)

-- `Service.Heartbeat`
unfoldable pub service_heartbeat : Option Service → HeartbeatRequest → Result (Unit {0} × Db)
unfolding with_dependencies
service_heartbeat s request = with_dependencies s (λ now db. do
  refuse_if (is_nil request.draft_id || is_nil request.claim_token || is_nil request.actor_id)
      invalid_request
  heartbeat request now db)

unfoldable pub bad_reading : WriteReadingRequest → Bool
unfolding valid_decimal
bad_reading r =
    is_nil r.draft_id
    || is_nil r.claim_token
    || is_nil r.nozzle_id
    || ltb r.revision 1
    || is_nil r.actor_id
    || not (valid_decimal r.meter_start)
    || not (valid_decimal r.meter_end)

-- `Service.WriteReading`
unfoldable pub service_write_reading : Option Service → WriteReadingRequest → Uuid → Result (ℕ × Db)
unfolding with_dependencies bad_reading
service_write_reading s request fresh = with_dependencies s (λ now db. do
  refuse_if (bad_reading request) invalid_request
  write_reading request fresh now db)

unfoldable pub bad_sales : WriteSalesRequest → Bool
unfolding valid_decimal
bad_sales r =
    is_nil r.draft_id
    || is_nil r.claim_token
    || is_nil r.dispenser_id
    || ltb r.revision 1
    || is_nil r.actor_id
    || not (valid_decimal r.cash_amount)
    || not (valid_decimal r.cashless_amount)

-- `Service.WriteSales`
unfoldable pub service_write_sales : Option Service → WriteSalesRequest → Uuid → Result (ℕ × Db)
unfolding with_dependencies bad_sales
service_write_sales s request fresh =
    with_dependencies s
      (λ now db. do refuse_if (bad_sales request) invalid_request; write_sales request fresh now db)

unfoldable pub bad_loss : WriteLossRequest → Bool
unfolding valid_decimal
bad_loss r =
    is_nil r.draft_id
    || is_nil r.claim_token
    || is_nil r.loss_id
    || ltb r.revision 1
    || is_nil r.actor_id
    || (not (str_eq r.direction "loss") && not (str_eq r.direction "gain"))
    || is_empty r.reason_code
    || not (valid_decimal r.liters)
    || (not (is_empty r.cash_amount) && not (valid_decimal r.cash_amount))

-- `Service.WriteLoss`
unfoldable pub service_write_loss : Option Service → WriteLossRequest → Uuid → Result (ℕ × Db)
unfolding with_dependencies bad_loss
service_write_loss s request fresh =
    with_dependencies s
      (λ now db. do refuse_if (bad_loss request) invalid_request; write_loss request fresh now db)

unfoldable pub bad_evidence : StageEvidenceRequest → Bool
bad_evidence r =
    is_nil r.draft_id
    || is_nil r.claim_token
    || is_nil r.loss_row_id
    || ltb r.revision 1
    || is_nil r.actor_id
    || is_empty r.evidence_type
    || is_empty r.object_key
    || not (length r.content_hash == 32)
    || leb r.size_bytes 0
    || is_empty r.mime

-- `Service.StageEvidence`
unfoldable pub service_stage_evidence :
    Option Service → StageEvidenceRequest → Uuid → Result (ℕ × Db)
unfolding with_dependencies bad_evidence
service_stage_evidence s request fresh = with_dependencies s (λ now db. do
  refuse_if (bad_evidence request) invalid_request
  stage_evidence request fresh now db)
