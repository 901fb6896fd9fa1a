-- ===== src/Lifecycle.antt =====
-- The life of a shift across the operations of internal/repository/submission/repository.go and
-- internal/repository/governance/repository.go that decide on it: what its `status` and
-- `current_report_id` may become. It is the abstract view of a shift, with the report it points to.
pub mod Rows
pub mod Refines
mod Samples
use pomkita_be.Prelude.{
  nil_uuid, ℕ, zero, suc, ◌+◌, ◌-◌, ◌*◌, ◌/◌, ◌%◌, ◌^◌, ◌≤◌, ◌<◌, String, ◌≡◌, refl, sym, ap, ◌∙◌,
  ◌≢◌, ◌↔◌, ◌⊎◌, inl, inr, Bool, true, false, not, ◌&&◌, ◌||◌, Option, none, some, List, [], ◌∷◌,
  ◌++◌, map, arith, eq_iff, ltb, leb, ◌==◌, str_eq, if◌then◌else◌, Uuid, Time,
}
use pomkita_be.Prelude.Text.{Bytes}
use pomkita_be.Domain.{
  ok, Error, Result, err, domain, wrapped, plain, record_not_found, refuse_if, found_or, ◌>>=◌,
  ◌>>◌, transaction,
}
use pomkita_be.Store.{Db}
use pomkita_be.Store.Shifts.{ShiftModel}
use pomkita_be.Submission.Types as Filing
use pomkita_be.Submission.Service.{submit}
use pomkita_be.Governance.Types as Deciding
use pomkita_be.Governance.Acknowledge.{acknowledge}
use pomkita_be.Governance.Amendment.{request_amendment, reject_amendment}
use pomkita_be.Governance.Copy.{FreshIds}
use pomkita_be.Governance.Approve.{approve_amendment}

-- Where a shift stands, with the report that it points to once there is one.
pub data Phase : Type 0 where
  opened : Phase
  awaiting locked correcting : Uuid → Phase

-- the phase of a row of the table `shifts`; a row outside the statuses of the code has none
abbrev pub phase_with : String → Option Uuid → Option Phase
phase_with status none = if str_eq status "open" then some opened else none
phase_with status (some r) =
    if str_eq status "awaiting_confirmation"
    then some (awaiting r)
    else if str_eq status "locked"
    then some (locked r)
    else if str_eq status "needs_correction"
    then some (correcting r)
    else none

unfoldable pub phase_of : ShiftModel → Option Phase
phase_of s = phase_with s.status s.current_report_id

-- One call of the repositories, with what it reads from outside.
pub data Call : Type 0 where
  submits : Filing.Library → Filing.Request → Filing.FreshIds → Bytes → Bytes → Time → Call
  decides : Deciding.Library → Deciding.AcknowledgeRequest → Uuid → Time → Call
  requests : Deciding.Library → Deciding.AmendmentRequest → Uuid → (ℕ → Uuid) → Time → Call
  rejects : Deciding.Library → Deciding.RejectAmendmentRequest → Uuid → Time → Call
  approves : Deciding.Library → Deciding.ApproveAmendmentRequest → FreshIds → Time → Call

-- where a decision takes a shift
abbrev pub decided : String → Uuid → Phase
decided decision r = if str_eq decision "acked" then locked r else correcting r

-- What a call may do to the shift with a given key: a submission of it takes it from the start to the
-- confirmation of the new report, a decision on its report from there to the end or to correction,
-- and an approval from any report to the confirmation of the amended one. The other calls do nothing.
abbrev pub Step : Call → Uuid → Phase → Phase → Type 0
Step (submits lib request ids hash payload now) id p q =
    (id ≡ request.shift_id) × (p ≡ opened) × (q ≡ awaiting ids.report_id)
Step (decides lib request ack_id now) id p q =
    (id ≡ request.shift_id)
    × (p ≡ awaiting request.report_id)
    × (q ≡ decided request.decision request.report_id)
Step (requests lib request amendment_id item_ids now) id p q = ⊥
Step (rejects lib request event_id now) id p q = ⊥
Step (approves lib request ids now) id p q =
    (r : Uuid) × ((p ≡ awaiting r) ⊎ (p ≡ locked r) ⊎ (p ≡ correcting r))
    × (q ≡ awaiting ids.report_id)

-- A history of calls, each of which leaves the shift or takes it one of its steps.
pub data Steps : List Call → Uuid → Phase → Phase → Type 0 where
  ends : (id : Uuid) (p : Phase) → Steps [] id p p
  stays :
      (c : Call) (cs : List Call) (id : Uuid) (p q : Phase)
      → Steps cs id p q
      → Steps (c ∷ cs) id p q
  moves :
      (c : Call) (cs : List Call) (id : Uuid) (p m q : Phase)
      → Step c id p m
      → Steps cs id m q
      → Steps (c ∷ cs) id p q

-- the database after a transaction
abbrev pub after {ℓ} : {A : Type ℓ} → Result (A × Db) → Db → Db
after (ok (a, db')) db = db'
after (err e) db = db

unfoldable pub run : Call → Db → Db
run (submits lib request ids hash payload now) db = (submit lib request ids hash payload now db).1
run (decides lib request ack_id now) db = after (acknowledge lib request ack_id now db) db
run (requests lib request id item_ids now) db =
    after (request_amendment lib request id item_ids now db) db
run (rejects lib request id now) db = after (reject_amendment lib request id now db) db
run (approves lib request ids now) db = after (approve_amendment lib request ids now db) db

unfoldable pub run_all : List Call → Db → Db
run_all [] db = db
run_all (c ∷ cs) db = run_all cs (run c db)
