-- ===== src/Lifecycle/Refines.antt =====
-- Each call, and each history of calls, takes every shift along the steps of its life.
use pomkita_be.Prelude.{
  first-holds, holds, Bool-cases, Option-cases, ℕ, String, ◌≡◌, refl, inl, inr, true, Option, none,
  some, List, [], ◌∷◌, arith, eq_iff, ◌==◌, str_eq, Uuid, Time, ap, ◌∙◌, ◌⊎◌,
}
use pomkita_be.Prelude.Text.{Bytes}
use pomkita_be.Domain.{ok, has_code, Result-cases, >>=-ok, Error, err}
use pomkita_be.Store.{Db}
use pomkita_be.Store.Shifts.{ShiftModel}
use pomkita_be.Audit.{append_in_transaction}
use pomkita_be.Submission.Types as Filing
use pomkita_be.Submission.Transaction.{submit_transaction, complete, of_station_shift}
use pomkita_be.Submission.Service.{submit, after_failure}
use pomkita_be.Submission.Once.{Created, submit_transaction-ends, start-reads}
use pomkita_be.Submission.Single.{check_open-facts}
use pomkita_be.Submission.Settled.{submit_of_done, submit_of_err}
use pomkita_be.Governance.Types as Deciding
use pomkita_be.Governance.Acknowledge.{acknowledge, of_shift, apply_acknowledge, decided_status}
use pomkita_be.Governance.Acknowledge.Decision.{acknowledge-steps, check-Permitted}
use pomkita_be.Governance.Amendment.{request_amendment, reject_amendment}
use pomkita_be.Governance.Copy.{FreshIds}
use pomkita_be.Governance.Approve.{approve_amendment, check_approve, apply_approve, point_to}
use pomkita_be.Governance.Applied.{applied-rows, approve-Approvable, base-shift}
use pomkita_be.Lifecycle.{
  Phase, opened, awaiting, locked, correcting, Step, ends, decided, Steps, stays, moves, phase_with,
  phase_of, Call, submits, decides, requests, rejects, approves, run, run_all,
}
use pomkita_be.Lifecycle.Rows.{
  Moves, AllMove, AllMove-refl, AllMove-trans, AllMove-update, Distinct, Distinct-AllMove,
}

-- A call leaves the shift or takes it one of its steps.
abbrev pub May : Call → Uuid → Phase → Phase → Type 0
May c id p q = (p ≡ q) ⊎ Step c id p q

May-rest : (c : Call) (id : Uuid) (p : Phase) → May c id p p
May-rest c id p = inl refl

May-Steps :
    (c : Call) (cs : List Call) (id : Uuid) (p q r : Phase)
    → May c id p q
    → Steps cs id q r
    → Steps (c ∷ cs) id p r
May-Steps c cs id p q r (inl same) rest = stays c cs id p r (rw same rest)
May-Steps c cs id p q r (inr step) rest = moves c cs id p q r step rest

-- An open shift that has a phase is at the start.
open-opened :
    (status : String) (current : Option Uuid) (p : Phase)
    → str_eq status "open" ≡ true
    → phase_with status current ≡ some p
    → p ≡ opened
open-opened status none p h e = ground (arith, h, e)
open-opened status (some r) p h e =
    let same = (eq_iff status "open").0 h in
    let none_ : phase_with "open" (some r) ≡ some p = rw same at e in absurd cc

-- A submission opens the confirmation.
submitted-Moves :
    (lib : Filing.Library) (request : Filing.Request) (ids : Filing.FreshIds) (hash payload : Bytes)
    (now : Time) (s : ShiftModel)
    → str_eq s.status "open" ≡ true
    → s.shift_id ≡ request.shift_id
    → Moves (May (submits lib request ids hash payload now)) s (record s {
      status = "awaiting_confirmation";
      current_report_id = some ids.report_id;
      closed_at = some now;
    })
unfolding phase_of
submitted-Moves lib request ids hash payload now s h own = (
  refl,
  λ p e. (
    awaiting ids.report_id,
    refl,
    inr (own, open-opened s.status s.current_report_id p h e, refl),
  ),
)

awaiting-phase :
    (status : String) (current : Option Uuid) (p : Phase)
    → str_eq status "awaiting_confirmation" ≡ true
    → phase_with status current ≡ some p
    → (r : Uuid) × (current ≡ some r) × (p ≡ awaiting r)
awaiting-phase status none p h e =
    let same = (eq_iff status "awaiting_confirmation").0 h in
    let none_ : phase_with "awaiting_confirmation" none ≡ some p = rw same at e in absurd cc
awaiting-phase status (some r) p h e = (r, refl, ground (arith, h, e))

decided-phase :
    (decision : String) (r : Uuid)
    → phase_with (decided_status decision) (some r) ≡ some (decided decision r)
decided-phase decision r = elim (Bool-cases (str_eq decision "acked")) [
  | inl ack ↦ rw ack refl
  | inr reject ↦ rw reject refl
]

-- A decision closes it.
decided-Moves :
    (lib : Deciding.Library) (request : Deciding.AcknowledgeRequest) (ack_id : Uuid) (now : Time)
    (s : ShiftModel)
    → str_eq s.status "awaiting_confirmation" ≡ true
    → holds s.current_report_id request.report_id ≡ true
    → s.shift_id ≡ request.shift_id
    → Moves
        (May (decides lib request ack_id now))
        s
        (record s { status = decided_status request.decision })
unfolding phase_of
decided-Moves lib request ack_id now s h there own = (
  refl,
  λ p e.
      let (r, current, start) = awaiting-phase s.status s.current_report_id p h e in
      let named : r ≡ request.report_id = ground (arith, current, there) in
      (
        decided request.decision r,
        ap (phase_with (decided_status request.decision)) current
            ∙ decided-phase request.decision r,
        inr (own, start ∙ ap awaiting named, ap (decided request.decision) named),
      ),
)

phase-report :
    (status : String) (r : Uuid) (p : Phase)
    → phase_with status (some r) ≡ some p
    → (p ≡ awaiting r) ⊎ (p ≡ locked r) ⊎ (p ≡ correcting r)
phase-report status r p e = elim (Bool-cases (str_eq status "awaiting_confirmation")) [
  | inl a ↦ inl (ground (arith, a, e))
  | inr x ↦ elim (Bool-cases (str_eq status "locked")) [
    | inl b ↦ inr (inl (ground (arith, x, b, e)))
    | inr y ↦ elim (Bool-cases (str_eq status "needs_correction")) [
      | inl c ↦ inr (inr (ground (arith, x, y, c, e)))
      | inr z ↦ absurd (ground (arith, x, y, z, e))
    ]
  ]
]

-- An approved amendment opens it again.
amended-Moves :
    (lib : Deciding.Library) (request : Deciding.ApproveAmendmentRequest) (ids : FreshIds)
    (now : Time) (s : ShiftModel) (base : Uuid)
    → holds s.current_report_id base ≡ true
    → Moves
        (May (approves lib request ids now))
        s
        (record s { current_report_id = some ids.report_id; status = "awaiting_confirmation" })
unfolding phase_of
amended-Moves lib request ids now s base h = (
  refl,
  λ p e. elim (Option-cases s.current_report_id) [
    | inl missing ↦ absurd (ground (arith, missing, h))
    | inr (r, there) ↦
        let from : phase_with s.status (some r) ≡ some p = rw there at e in
        (awaiting ids.report_id, refl, inr (r, phase-report s.status r p from, refl))
  ],
)

Created-AllMove :
    (lib : Filing.Library) (request : Filing.Request) (hash payload : Bytes) (ids : Filing.FreshIds)
    (now : Time) (db db' : Db) (o : Filing.Outcome)
    → Distinct db.shifts
    → Created request hash ids now db o db'
    → AllMove (May (submits lib request ids hash payload now)) db.shifts db'.shifts
unfolding complete
Created-AllMove lib request hash payload ids now db db' o distinct c =
    let (_, _, found, _, _) = start-reads request hash now db c.s c.started in
    let (open_, _, _) = check_open-facts request now c.s.shift c.s.draft c.opened in
    let held = first-holds (of_station_shift request) db.shifts c.s.shift found in
    rw c.completed.shifts_done (
      AllMove-update (May (submits lib request ids hash payload now))
        (May-rest (submits lib request ids hash payload now)) request.shift_id
        (λ s. s.shift_id == request.shift_id)
        (λ s. record s {
          status = "awaiting_confirmation";
          current_report_id = some ids.report_id;
          closed_at = some now;
        })
        (λ s e. ground (arith, e)) (of_station_shift request) db.shifts c.s.shift distinct found
        (ground (arith, held))
        (submitted-Moves lib request ids hash payload now c.s.shift open_ (ground (arith, held))))

failure-AllMove :
    (lib : Filing.Library) (request : Filing.Request) (ids : Filing.FreshIds) (hash payload : Bytes)
    (now : Time) (db : Db) (e : Error)
    → AllMove
        (May (submits lib request ids hash payload now))
        db.shifts
        (after_failure request ids hash now (err e, db)).1.shifts
unfolding after_failure
failure-AllMove lib request ids hash payload now db e =
    elim (Bool-cases (has_code "idempotency_conflict" e)) [
      | inl kept ↦ rw kept (
          AllMove-refl (May (submits lib request ids hash payload now))
            (May-rest (submits lib request ids hash payload now)) db.shifts)
      | inr marked ↦ rw marked (
          AllMove-refl (May (submits lib request ids hash payload now))
            (May-rest (submits lib request ids hash payload now)) db.shifts)
    ]

submit-AllMove :
    (lib : Filing.Library) (request : Filing.Request) (ids : Filing.FreshIds) (hash payload : Bytes)
    (now : Time) (db : Db)
    → Distinct db.shifts
    → AllMove
        (May (submits lib request ids hash payload now))
        db.shifts
        (submit lib request ids hash payload now db).1.shifts
submit-AllMove lib request ids hash payload now db distinct =
    elim (Result-cases (submit_transaction lib request ids hash payload now db)) [
      | inl (e, failed) ↦
          rw (submit_of_err lib request ids hash payload now db e failed)
            (failure-AllMove lib request ids hash payload now db e)
      | inr ((o, db'), done) ↦
          rw (submit_of_done lib request ids hash payload now db db' o done)
            (elim (submit_transaction-ends lib request ids hash payload now db db' o done) [
              | inl r ↦ rw r.same (
                  AllMove-refl (May (submits lib request ids hash payload now))
                    (May-rest (submits lib request ids hash payload now)) db.shifts)
              | inr c ↦ Created-AllMove lib request hash payload ids now db db' o distinct c
            ])
    ]

acknowledge-AllMove :
    (lib : Deciding.Library) (request : Deciding.AcknowledgeRequest) (ack_id : Uuid) (now : Time)
    (db db' : Db) (a : Deciding.Acknowledgement)
    → Distinct db.shifts
    → acknowledge lib request ack_id now db ≡ ok (a, db')
    → AllMove (May (decides lib request ack_id now)) db.shifts db'.shifts
unfolding apply_acknowledge
acknowledge-AllMove lib request ack_id now db db' a distinct h =
    let (r, checked, shifts, _, _, _, _, _) = acknowledge-steps lib request ack_id now db db' a h in
    let (shift, _, _, found, there, status, _, _, _, _, _, _, _) =
      check-Permitted lib request db r checked in
    let q = of_shift request.org_id request.station_id request.shift_id in
    let held = first-holds q db.shifts shift found in
    rw shifts (
      AllMove-update (May (decides lib request ack_id now))
        (May-rest (decides lib request ack_id now)) request.shift_id q
        (λ s. record s { status = decided_status request.decision }) (λ s e. ground (arith, e)) q
        db.shifts shift distinct found (ground (arith, held))
        (decided-Moves lib request ack_id now shift status there (ground (arith, held))))

request-shifts :
    (lib : Deciding.Library) (request : Deciding.AmendmentRequest) (id : Uuid) (item_ids : ℕ → Uuid)
    (now : Time) (db db' : Db) (a : Deciding.Amendment)
    → request_amendment lib request id item_ids now db ≡ ok (a, db')
    → db'.shifts ≡ db.shifts
unfolding request_amendment append_in_transaction
request-shifts lib request id item_ids now db db' a h = ground (arith, h)

reject-shifts :
    (lib : Deciding.Library) (request : Deciding.RejectAmendmentRequest) (id : Uuid) (now : Time)
    (db db' : Db)
    → reject_amendment lib request id now db ≡ ok (tt, db')
    → db'.shifts ≡ db.shifts
unfolding reject_amendment append_in_transaction
reject-shifts lib request id now db db' h = ground (arith, h)

approve-AllMove :
    (lib : Deciding.Library) (request : Deciding.ApproveAmendmentRequest) (ids : FreshIds)
    (now : Time) (db db' : Db) (a : Deciding.Amendment)
    → Distinct db.shifts
    → approve_amendment lib request ids now db ≡ ok (a, db')
    → AllMove (May (approves lib request ids now)) db.shifts db'.shifts
unfolding approve_amendment point_to
approve-AllMove lib request ids now db db' a distinct h =
    let (b, e, h1) = >>=-ok (check_approve lib request db) _ h in
    let (final, f, h2) = >>=-ok (apply_approve lib request b ids now db) _ h1 in
    let same : final ≡ db' = ground (arith, h2) in
    let (_, _, shifts, _, _) = applied-rows lib request b ids now db final f in
    let able = approve-Approvable lib request db b e in
    let (org, station, shift_id) = base-shift b.base b.amendment able.base_row in
    let p = of_shift b.amendment.org_id b.amendment.station_id b.amendment.shift_id in
    let held = first-holds p db.shifts b.shift able.shift_found in
    rw⁻¹ same (
      rw shifts (
        AllMove-update (May (approves lib request ids now))
          (May-rest (approves lib request ids now)) b.amendment.shift_id
          (of_shift b.base.org_id b.base.station_id b.base.shift_id)
          (λ s. record s {
            current_report_id = some ids.report_id;
            status = "awaiting_confirmation";
          })
          (λ s e. ground (arith, e, shift_id)) p db.shifts b.shift distinct able.shift_found
          (ground (arith, held))
          (amended-Moves lib request ids now b.shift b.amendment.base_report_id able.current)))

-- One call.
run-AllMove :
    (c : Call) (db : Db) → Distinct db.shifts → AllMove (May c) db.shifts (run c db).shifts
unfolding run
run-AllMove (submits lib request ids hash payload now) db distinct =
    submit-AllMove lib request ids hash payload now db distinct
run-AllMove (decides lib request ack_id now) db distinct =
    elim (Result-cases (acknowledge lib request ack_id now db)) [
      | inl (e, failed) ↦ rw failed (
          AllMove-refl (May (decides lib request ack_id now))
            (May-rest (decides lib request ack_id now)) db.shifts)
      | inr ((a, db'), done) ↦
          rw done (acknowledge-AllMove lib request ack_id now db db' a distinct done)
    ]
run-AllMove (requests lib request id item_ids now) db distinct =
    elim (Result-cases (request_amendment lib request id item_ids now db)) [
      | inl (e, failed) ↦ rw failed (
          AllMove-refl (May (requests lib request id item_ids now))
            (May-rest (requests lib request id item_ids now)) db.shifts)
      | inr ((a, db'), done) ↦
          rw (done, request-shifts lib request id item_ids now db db' a done)
            (AllMove-refl (May (requests lib request id item_ids now))
              (May-rest (requests lib request id item_ids now)) db.shifts)
    ]
run-AllMove (rejects lib request id now) db distinct =
    elim (Result-cases (reject_amendment lib request id now db)) [
      | inl (e, failed) ↦ rw failed (
          AllMove-refl (May (rejects lib request id now)) (May-rest (rejects lib request id now))
            db.shifts)
      | inr ((a, db'), done) ↦
          rw (done, reject-shifts lib request id now db db' done)
            (AllMove-refl (May (rejects lib request id now)) (May-rest (rejects lib request id now))
              db.shifts)
    ]
run-AllMove (approves lib request ids now) db distinct =
    elim (Result-cases (approve_amendment lib request ids now db)) [
      | inl (e, failed) ↦ rw failed (
          AllMove-refl (May (approves lib request ids now))
            (May-rest (approves lib request ids now)) db.shifts)
      | inr ((a, db'), done) ↦ rw done (approve-AllMove lib request ids now db db' a distinct done)
    ]

-- A history of submissions, decisions and amendments, whatever the calls are and however each of
-- them ends, refines the life of a shift: if the shifts have distinct keys, their rows stay in their
-- order with their keys, and each row that has a phase goes from it, by one step of `Step` or none for
-- each call in turn, to the phase that it has after the history.
pub run_all-AllMove :
    (cs : List Call) (db : Db)
    → Distinct db.shifts
    → AllMove (Steps cs) db.shifts (run_all cs db).shifts
unfolding run_all
run_all-AllMove [] db distinct = AllMove-refl (Steps []) ends db.shifts
run_all-AllMove (c ∷ cs) db distinct =
    let moved = run-AllMove c db distinct in
    AllMove-trans (May c) (Steps cs) (Steps (c ∷ cs)) (May-Steps c cs) db.shifts (run c db).shifts
      (run_all cs (run c db)).shifts moved
      (run_all-AllMove cs (run c db)
        (Distinct-AllMove (May c) db.shifts (run c db).shifts moved distinct))
