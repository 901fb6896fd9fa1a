-- ===== src/Recovery.antt =====
-- internal/repository/recovery/repository.go and internal/service/recovery/service.go: drafts whose
-- submission was left in progress are reopened, or completed if their shift has a report.
pub mod Settles
mod Samples
use pomkita_be.Prelude.{
  first, select, update_where, is_set, order_by, ℕ, zero, suc, ◌+◌, ◌-◌, ◌*◌, ◌/◌, ◌%◌, ◌^◌, ◌≤◌,
  ◌<◌, String, ◌≡◌, refl, sym, ap, ◌∙◌, ◌≢◌, ◌↔◌, ◌⊎◌, inl, inr, Bool, true, false, not, ◌&&◌, ◌||◌,
  Option, none, some, List, [], ◌∷◌, ◌++◌, map, arith, eq_iff, ltb, leb, ◌==◌, str_eq,
  if◌then◌else◌, Uuid, Time,
}
use pomkita_be.Prelude.Text.{Bytes}
use pomkita_be.Domain.{
  ok, validation, dependency, wrap_error, Error, Result, err, domain, wrapped, plain,
  record_not_found, refuse_if, found_or, ◌>>=◌, ◌>>◌, transaction,
}
use pomkita_be.Store.{Db}
use pomkita_be.Store.Shifts.{ShiftModel, ShiftDraftModel}
use pomkita_be.Canonical.{Value, object, member, no_members, str, int, pos}
use pomkita_be.Audit
use pomkita_be.Audit.{append_in_transaction}

abbrev pub invalid_recovery_request : Error
invalid_recovery_request = domain validation "invalid_recovery_request"

abbrev pub dependency_unavailable : Error
dependency_unavailable = domain dependency "dependency_unavailable"

-- What the package calls beside the audit chain: `json.Marshal` of its payload.
pub record Library : Type 0 where
  pub audit : Audit.Library
  pub json_marshal : Value → Bytes

-- `recoveryShiftStatus`, `recoveryDraftStatus` and `recoveryOutcome`
abbrev pub recovery_shift_status : Bool → String
recovery_shift_status has_report = if has_report then "awaiting_confirmation" else "open"

abbrev pub recovery_draft_status : Bool → String
recovery_draft_status has_report = if has_report then "submitted" else "editing"

abbrev pub recovery_outcome : Bool → String
recovery_outcome has_report = if has_report then "completed" else "reopened"

-- `status = 'submitting' and updated_at < cutoff`
abbrev pub is_stale : Time → ShiftDraftModel → Bool
is_stale cutoff d = str_eq d.status "submitting" && ltb d.updated_at cutoff

-- `Order("updated_at, draft_id")`
unfoldable pub stale_drafts : Time → List ShiftDraftModel → List ShiftDraftModel
stale_drafts cutoff drafts =
    order_by (λ (d : ShiftDraftModel). d.updated_at)
      (order_by (λ (d : ShiftDraftModel). d.draft_id) (select (is_stale cutoff) drafts))

-- the two updates of the draft
unfoldable pub settle_draft : Time → Bool → Uuid → List ShiftDraftModel → List ShiftDraftModel
settle_draft now has_report draft_id drafts =
    update_where (λ d. d.draft_id == draft_id)
      (λ d. record d { status = recovery_draft_status has_report; updated_at = now })
      (update_where (λ d. d.draft_id == draft_id && str_eq d.status "submitting")
        (λ d. record d {
          status = "recovering";
          recovery_count = d.recovery_count + 1;
          updated_at = now;
        })
        drafts)

-- the update of the shift
abbrev pub settle_shift : Bool → ShiftModel → ShiftModel
settle_shift true s = record s { status = "awaiting_confirmation" }
settle_shift false s = record s { status = "open"; closed_at = none }

abbrev pub recovered_event : Library → ShiftDraftModel → ShiftModel → Bool → Audit.AppendRequest
recovered_event lib draft shift has_report = record {
  org_id = draft.org_id;
  event_id = draft.draft_id;
  event_type = "shift.recovered";
  payload = lib.json_marshal (
      object (
        member "draft_id" (str (lib.audit.uuid_string draft.draft_id)) (
          member "shift_id" (str (lib.audit.uuid_string shift.shift_id)) (
            member "shift_status" (str (recovery_shift_status has_report)) (
              member "draft_status" (str (recovery_draft_status has_report))
                (member "recovery_count" (int (pos (draft.recovery_count + 1))) no_members))))));
  outcome = recovery_outcome has_report;
  outcome_error = "";
}

-- One round of the loop.
unfoldable pub recover_one : Library → Time → ShiftDraftModel → Db → Result Db
unfolding settle_draft
recover_one lib now draft db = do
  shift ←
      found_or (wrapped "load stale shift" record_not_found)
        (first (λ s. s.shift_id == draft.shift_id) db.shifts)
  let has_report = is_set shift.current_report_id
  let settled = record db {
    drafts = settle_draft now has_report draft.draft_id db.drafts;
    shifts =
        update_where (λ s. s.shift_id == shift.shift_id && str_eq s.status "submitting")
          (settle_shift has_report) db.shifts;
  }
  (event, final) ←
      wrap_error "append recovery audit event"
        (append_in_transaction lib.audit (recovered_event lib draft shift has_report) now settled)
  ok final

-- the loop over the stale drafts
unfoldable pub recover_all : Library → Time → ℕ → List ShiftDraftModel → Db → Result (ℕ × Db)
unfolding recover_one
recover_all lib now count [] db = ok (count, db)
recover_all lib now count (draft ∷ drafts) db = do
  db' ← recover_one lib now draft db
  recover_all lib now (count + 1) drafts db'

-- `RecoverStale` of the repository
unfoldable pub recover_stale : Library → Time → Time → Db → Result (ℕ × Db)
unfolding recover_all stale_drafts
recover_stale lib now max_age db = recover_all lib now 0 (stale_drafts (now - max_age) db.drafts) db

-- `Service.RecoverStale`; a service without a repository has `none`
unfoldable pub service_recover_stale : Library → Option Db → Time → Time → Result (ℕ × Db)
unfolding recover_stale
service_recover_stale lib none now max_age = err dependency_unavailable
service_recover_stale lib (some db) now max_age = do
  refuse_if (now == 0 || max_age == 0) invalid_recovery_request
  recover_stale lib now max_age db
