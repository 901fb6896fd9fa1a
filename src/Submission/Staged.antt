-- ===== src/Submission/Staged.antt =====
-- The evidence of a submission: `validateStagedEvidence` and the last loop of
-- `promoteDraftChildren` of internal/repository/submission/repository.go.
use pomkita_be.Prelude.{
  first, count, last_of, ℕ, suc, String, Bool, false, not, ◌&&◌, ◌||◌, Option, none, some, List, [],
  ◌∷◌, ◌==◌, str_eq, Uuid, Time,
}
use pomkita_be.Domain.{
  ok, wrap_error, Result, wrapped, record_not_found, refuse_if, found_or, ◌>>=◌, ◌>>◌,
}
use pomkita_be.Canonical.{pos}
use pomkita_be.Store.Shifts.{ShiftDraftModel}
use pomkita_be.Store.Drafts.{DraftLossModel, DraftEvidenceStagingModel}
use pomkita_be.Store.Reports.{LossEntryModel}
use pomkita_be.Store.Policies.{PolicySnapshotItemModel}
use pomkita_be.Store.Evidence.{EvidenceEventModel}
use pomkita_be.Governance.Evidence.{validate_evidence, evidence_invalid}
use pomkita_be.Submission.Types.{Library, EvidenceSnapshotType, invalid_submit_request}

-- `containsEvidenceMIME`
unfoldable pub contains_mime : List String → String → Bool
contains_mime [] expected = false
contains_mime (value ∷ values) expected = str_eq value expected || contains_mime values expected

-- the two tests of the loop over the staged evidence; `types[kind]` is the last type of that name
unfoldable pub check_staged :
    List EvidenceSnapshotType → List DraftEvidenceStagingModel → Result (Unit {0})
unfolding contains_mime
check_staged types [] = ok tt
check_staged types (e ∷ staged) = do
  policy ←
      found_or (wrapped "evidence type" evidence_invalid)
        (last_of (λ t. str_eq t.kind e.evidence_type) types)
  refuse_if (not (contains_mime policy.accepted_mime_types e.mime))
      (wrapped "evidence MIME" evidence_invalid)
  check_staged types staged

-- `counts[loss][kind]`
unfoldable pub finalized_count : List DraftEvidenceStagingModel → Uuid → String → ℕ
finalized_count staged loss_row_id kind =
    count
      (λ e.
        str_eq e.status "finalized" && e.loss_row_id == loss_row_id && str_eq e.evidence_type kind)
      staged

-- the inner loop, over the types of the policy
unfoldable pub check_types :
    String → List DraftEvidenceStagingModel → Uuid → List EvidenceSnapshotType → Result (Unit {0})
unfolding finalized_count
check_types mode staged loss_row_id [] = ok tt
check_types mode staged loss_row_id (t ∷ types) =
    wrap_error "loss evidence type" (
      validate_evidence (record {
        mode = mode;
        minimum_count = t.minimum_count_per_loss;
        finalized_count = pos (finalized_count staged loss_row_id t.kind);
        has_exception = false;
      }))
    >> check_types mode staged loss_row_id types

-- the loop over the losses
unfoldable pub check_losses :
    String
    → List DraftEvidenceStagingModel
    → List EvidenceSnapshotType
    → List DraftLossModel
    → Result (Unit {0})
unfolding check_types
check_losses mode staged types [] = ok tt
check_losses mode staged types (loss ∷ losses) =
    check_types mode staged loss.row_id types >> check_losses mode staged types losses

-- `validateStagedEvidence` for the snapshot that its query found
unfoldable pub validate_against :
    Library
    → List DraftLossModel
    → List DraftEvidenceStagingModel
    → Option PolicySnapshotItemModel
    → Result (Unit {0})
unfolding check_losses check_staged
validate_against lib losses staged none = ok tt
validate_against lib losses staged (some item) = do
  payload ←
      found_or (wrapped "decode evidence policy snapshot" invalid_submit_request)
        (lib.decode_evidence item.payload)
  refuse_if (str_eq payload.mode "")
      (wrapped "decode evidence policy snapshot" invalid_submit_request)
  check_staged payload.types staged
  check_losses payload.mode staged payload.types losses

-- `validateStagedEvidence`
unfoldable pub validate_staged_evidence :
    Library
    → ShiftDraftModel
    → List PolicySnapshotItemModel
    → List DraftLossModel
    → List DraftEvidenceStagingModel
    → Result (Unit {0})
unfolding validate_against
validate_staged_evidence lib draft items losses staged = validate_against lib losses staged (
    first
      (λ i.
        i.org_id == draft.org_id
        && i.station_id == draft.station_id
        && i.shift_id == draft.shift_id
        && str_eq i.policy_kind "evidence")
      items)

-- the loop over the staged evidence; `draft_losses` and `losses` are the tables
unfoldable pub evidence_events :
    ShiftDraftModel
    → Uuid
    → Uuid
    → (ℕ → Uuid)
    → ℕ
    → Time
    → List DraftLossModel
    → List LossEntryModel
    → List DraftEvidenceStagingModel
    → Result (List EvidenceEventModel)
evidence_events draft shift_id report_id fresh n now draft_losses losses [] = ok []
evidence_events draft shift_id report_id fresh n now draft_losses losses (e ∷ staged) = do
  draft_loss ←
      found_or (wrapped "load staged evidence loss" record_not_found)
        (first (λ l. l.row_id == e.loss_row_id && l.draft_id == draft.draft_id) draft_losses)
  loss ← found_or (wrapped "load report evidence loss" record_not_found) (
      first
        (λ l.
          l.org_id == draft.org_id
          && l.station_id == draft.station_id
          && l.shift_id == shift_id
          && l.report_id == report_id
          && l.loss_id == draft_loss.loss_id)
        losses)
  rest ← evidence_events draft shift_id report_id fresh (suc n) now draft_losses losses staged
  ok (
      record {
        evidence_event_id = fresh n;
        evidence_id = e.row_id;
        org_id = draft.org_id;
        station_id = draft.station_id;
        shift_id = shift_id;
        report_id = report_id;
        loss_row_id = loss.row_id;
        event_seq = 1;
        event_type = e.status;
        evidence_type = e.evidence_type;
        object_key = e.object_key;
        content_hash = e.content_hash;
        size_bytes = e.size_bytes;
        mime = e.mime;
        actor_user_id = e.uploaded_by;
        at = now;
      }
      ∷ rest)
