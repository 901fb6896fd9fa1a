-- ===== src/Draft.antt =====
-- internal/repository/draft/repository.go: the lease of a draft and its revision-fenced rows.
pub mod Requests
pub mod Service
pub mod Lease
pub mod Writes
pub mod Fencing
mod Samples
use mathlib.Core.Option
use pomkita_be.Prelude.Text.{codes}
use pomkita_be.Prelude.{
  ℕ, Uuid, first, update_where, create, holds, is_after, minute, zero, suc, ◌+◌, ◌-◌, ◌*◌, ◌/◌, ◌%◌,
  ◌^◌, ◌≤◌, ◌<◌, String, ◌≡◌, refl, sym, ap, ◌∙◌, ◌≢◌, ◌↔◌, ◌⊎◌, inl, inr, Bool, true, false, not,
  ◌&&◌, ◌||◌, Option, none, some, List, [], ◌∷◌, ◌++◌, map, arith, eq_iff, ltb, leb, ◌==◌, str_eq,
  if◌then◌else◌, Time, is_set,
}
use pomkita_be.Domain.{Error, Result, ok, err, domain, refuse_if, found_or, ◌>>=◌, ◌>>◌, wrap_error}
use pomkita_be.Store.{Db}
use pomkita_be.Store.Shifts.{ShiftDraftModel}
use pomkita_be.Store.Drafts.{
  DraftReadingModel, DraftSalesModel, DraftLossModel, DraftEvidenceStagingModel,
}
use pomkita_be.Scope.{require_enabled}
use pomkita_be.Draft.Requests.{
  ClaimRequest, ClaimResult, HeartbeatRequest, WriteReadingRequest, WriteSalesRequest,
  WriteLossRequest, StageEvidenceRequest, claim_expired, draft_not_found, revision_conflict,
}

abbrev pub draft_lease_duration : Time
draft_lease_duration = 10 * minute

-- The test of `Claim` that another actor holds the lease.
unfoldable pub held_by_other : ShiftDraftModel → Uuid → Time → Bool
held_by_other draft actor now =
    is_after draft.claim_expires_at now
    && (is_set draft.owned_by && not (holds draft.owned_by actor))

-- the columns that `Claim` writes
unfoldable pub grant : Uuid → Uuid → Time → ShiftDraftModel → ShiftDraftModel
grant actor token now d = record d {
  owned_by = some actor;
  claim_token = some token;
  claim_expires_at = some (now + draft_lease_duration);
  status = "editing";
  updated_by = some actor;
  updated_at = now;
}

-- `Claim`; `token` is what `uuid.New` returns
unfoldable pub claim : ClaimRequest → Uuid → Time → Db → Result (ClaimResult × Db)
unfolding grant held_by_other
claim request token now db = do
  draft ←
      found_or draft_not_found
        (first (λ d. d.draft_id == request.draft_id && d.shift_id == request.shift_id) db.drafts)
  require_enabled db draft.org_id draft.station_id
  refuse_if (held_by_other draft request.actor_id now) claim_expired
  let granted =
      update_where (λ d. d.draft_id == draft.draft_id) (grant request.actor_id token now) db.drafts
  ok (
    record {
      draft_id = draft.draft_id;
      claim_token = token;
      claim_expires_at = now + draft_lease_duration;
      revision = draft.revision;
    },
    record db { drafts = granted },
  )

-- The lease test of every write: its owner, its token, and not expired.
unfoldable pub holds_lease : ShiftDraftModel → Uuid → Uuid → Time → Bool
holds_lease draft token actor now =
    is_after draft.claim_expires_at now
    && holds draft.claim_token token
    && holds draft.owned_by actor

-- `Heartbeat`, whose errors are wrapped once more
unfoldable pub heartbeat : HeartbeatRequest → Time → Db → Result (Unit {0} × Db)
unfolding holds_lease
heartbeat request now db = wrap_error "heartbeat draft" do
  draft ← found_or draft_not_found (first (λ d. d.draft_id == request.draft_id) db.drafts)
  require_enabled db draft.org_id draft.station_id
  refuse_if
      (not (
        holds_lease draft request.claim_token request.actor_id now
        && str_eq draft.status "editing"))
      claim_expired
  let extended =
      update_where (λ d. d.draft_id == request.draft_id)
        (λ d. record d {
          claim_expires_at = some (now + draft_lease_duration);
          updated_by = some request.actor_id;
          updated_at = now;
        })
        db.drafts
  ok (tt, record db { drafts = extended })

-- `lockDraftForMutation`
unfoldable pub lock_draft_for_mutation : Uuid → Uuid → Uuid → ℕ → Time → Db → Result ShiftDraftModel
unfolding holds_lease
lock_draft_for_mutation draft_id token actor revision now db = do
  draft ← found_or draft_not_found (first (λ d. d.draft_id == draft_id) db.drafts)
  require_enabled db draft.org_id draft.station_id
  refuse_if (not (holds_lease draft token actor now)) claim_expired
  refuse_if (not (draft.revision == revision)) revision_conflict
  ok draft

-- `advanceDraft`
unfoldable pub advance_draft : ShiftDraftModel → ℕ → Uuid → Time → Db → Db
advance_draft draft revision actor now db = record db {
  drafts =
      update_where (λ d. d.draft_id == draft.draft_id && d.revision == draft.revision)
        (λ d. record d { revision = revision; updated_by = some actor; updated_at = now })
        db.drafts;
}

-- In the writes `row_id` is what `uuid.New` returns. `WriteReading` writes its lock and its update
-- out; they are those of the two functions above.

-- `WriteReading`
unfoldable pub write_reading : WriteReadingRequest → Uuid → Time → Db → Result (ℕ × Db)
unfolding lock_draft_for_mutation advance_draft
write_reading request row_id now db = do
  draft ←
      lock_draft_for_mutation request.draft_id request.claim_token request.actor_id request.revision
        now db
  let row : DraftReadingModel = record {
    row_id = row_id;
    org_id = draft.org_id;
    station_id = draft.station_id;
    draft_id = draft.draft_id;
    nozzle_id = request.nozzle_id;
    meter_start = db.stored_numeric 1 (codes request.meter_start);
    meter_end = db.stored_numeric 1 (codes request.meter_end);
    created_by = request.actor_id;
  }
  let written = record db { draft_readings = create row db.draft_readings }
  ok (draft.revision + 1, advance_draft draft (draft.revision + 1) request.actor_id now written)

-- `WriteSales`
unfoldable pub write_sales : WriteSalesRequest → Uuid → Time → Db → Result (ℕ × Db)
unfolding lock_draft_for_mutation advance_draft
write_sales request row_id now db = do
  draft ←
      lock_draft_for_mutation request.draft_id request.claim_token request.actor_id request.revision
        now db
  let row : DraftSalesModel = record {
    row_id = row_id;
    org_id = draft.org_id;
    station_id = draft.station_id;
    draft_id = draft.draft_id;
    dispenser_id = request.dispenser_id;
    cash_amount = db.stored_numeric 0 (codes request.cash_amount);
    cashless_amount = db.stored_numeric 0 (codes request.cashless_amount);
    created_by = request.actor_id;
  }
  let written = record db { draft_sales = create row db.draft_sales }
  ok (draft.revision + 1, advance_draft draft (draft.revision + 1) request.actor_id now written)

-- `&value` for a text that is not empty, and else `nil`
unfoldable pub non_empty : String → Option String
non_empty value = if str_eq value "" then none else some value

-- `WriteLoss`
unfoldable pub write_loss : WriteLossRequest → Uuid → Time → Db → Result (ℕ × Db)
unfolding lock_draft_for_mutation advance_draft
write_loss request row_id now db = do
  draft ←
      lock_draft_for_mutation request.draft_id request.claim_token request.actor_id request.revision
        now db
  let row : DraftLossModel = record {
    row_id = row_id;
    org_id = draft.org_id;
    station_id = draft.station_id;
    draft_id = draft.draft_id;
    loss_id = request.loss_id;
    direction = request.direction;
    reason_code = request.reason_code;
    liters = db.stored_numeric 2 (codes request.liters);
    cash_amount =
        Option.map (λ text. db.stored_numeric 0 (codes text)) (non_empty request.cash_amount);
    note = non_empty request.note;
    created_by = request.actor_id;
  }
  let written = record db { draft_losses = create row db.draft_losses }
  ok (draft.revision + 1, advance_draft draft (draft.revision + 1) request.actor_id now written)

-- `StageEvidence`
unfoldable pub stage_evidence : StageEvidenceRequest → Uuid → Time → Db → Result (ℕ × Db)
unfolding lock_draft_for_mutation advance_draft
stage_evidence request row_id now db = do
  draft ←
      lock_draft_for_mutation request.draft_id request.claim_token request.actor_id request.revision
        now db
  let row : DraftEvidenceStagingModel = record {
    row_id = row_id;
    org_id = draft.org_id;
    station_id = draft.station_id;
    draft_id = draft.draft_id;
    loss_row_id = request.loss_row_id;
    evidence_type = request.evidence_type;
    object_key = request.object_key;
    content_hash = request.content_hash;
    size_bytes = request.size_bytes;
    mime = request.mime;
    status = "uploaded";
    uploaded_by = request.actor_id;
  }
  let written = record db { draft_evidence = create row db.draft_evidence }
  ok (draft.revision + 1, advance_draft draft (draft.revision + 1) request.actor_id now written)
