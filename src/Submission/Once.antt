-- ===== src/Submission/Once.antt =====
-- What a successful submission leaves: one report for the shift, and an answered key.
use pomkita_be.Prelude.{
  first, first-holds, first-update_where_keyed, create, ◌≡◌, refl, ap, ◌∙◌, ◌≢◌, ◌⊎◌, inl, inr,
  true, false, ◌&&◌, none, some, arith, ◌==◌, Uuid, Time,
}
use pomkita_be.Prelude.Text.{Bytes}
use pomkita_be.Domain.{ok, >>=-ok}
use pomkita_be.Scope.{require_enabled}
use pomkita_be.Store.{Db}
use pomkita_be.Store.Shifts.{ShiftModel, ShiftDraftModel}
use pomkita_be.Audit.{append_in_transaction}
use pomkita_be.Submission.Types.{Request, Outcome, Library, FreshIds}
use pomkita_be.Submission.Key.{Key, unknown, answered, taken, known, of_key, settle, begin}
use pomkita_be.Submission.Transaction.{
  Start, start, check_open, open_report, promote_draft_children, complete, close_report,
  create_report, attempt, proceed, submit_transaction, of_station_shift, of_request_draft,
  report_row,
}

-- The first phase of the report keeps the tables that the other phases complete.
abbrev pub Kept : Db → Db → Type 0
Kept db db' =
    (db'.organizations ≡ db.organizations)
    × (db'.stations ≡ db.stations)
    × (db'.shifts ≡ db.shifts)
    × (db'.drafts ≡ db.drafts)
    × (db'.idempotencies ≡ db.idempotencies)

Kept-open_report :
    (lib : Library) (request : Request) (ids : FreshIds) (now : Time) (db db' : Db)
    (rollover : Bytes) (set_id : Uuid)
    → open_report lib request ids now db ≡ ok (rollover, set_id, db')
    → Kept db db' × (db'.reports ≡ create (report_row request ids.report_id set_id now) db.reports)
unfolding open_report
Kept-open_report lib request ids now db db' rollover set_id h = ground arith

Kept-promote :
    (lib : Library) (ids : FreshIds) (shift : ShiftModel) (draft : ShiftDraftModel)
    (payload rollover : Bytes) (now : Time) (db db' : Db)
    → promote_draft_children lib ids shift draft payload rollover now db ≡ ok db'
    → Kept db db' × (db'.reports ≡ db.reports)
unfolding promote_draft_children
Kept-promote lib ids shift draft payload rollover now db db' h = ground arith

-- What the last phase leaves, with the rows that it completes.
pub record Completed (request : Request) (report_id idem_id : Uuid) (now : Time) (db db' : Db)
    : Type 0 where
  pub organizations_kept : db'.organizations ≡ db.organizations
  pub stations_kept : db'.stations ≡ db.stations
  pub shifts_done : db'.shifts ≡ (complete request report_id idem_id now db).shifts
  pub drafts_done : db'.drafts ≡ (complete request report_id idem_id now db).drafts
  pub keys_done : db'.idempotencies ≡ (complete request report_id idem_id now db).idempotencies

Completed-close :
    (lib : Library) (request : Request) (ids : FreshIds) (now : Time) (shift : ShiftModel)
    (set_id idem_id : Uuid) (db db' : Db)
    → close_report lib request ids now shift set_id idem_id db ≡ ok db'
    → Completed request ids.report_id idem_id now db db' × (db'.reports ≡ db.reports)
unfolding close_report append_in_transaction
Completed-close lib request ids now shift set_id idem_id db db' h = (
  record {
    organizations_kept = ground (arith, h);
    stations_kept = ground (arith, h);
    shifts_done = ground (arith, h);
    drafts_done = ground (arith, h);
    keys_done = ground (arith, h);
  },
  ground (arith, h),
)

Completed-after :
    (request : Request) (report_id idem_id : Uuid) (now : Time) (db mid db' : Db)
    → Kept db mid
    → Completed request report_id idem_id now mid db'
    → Completed request report_id idem_id now db db'
unfolding complete
Completed-after request report_id idem_id now db mid db' (orgs, stations, shifts, drafts, keys) c =
    record {
      organizations_kept = c.organizations_kept ∙ orgs;
      stations_kept = c.stations_kept ∙ stations;
      shifts_done = c.shifts_done ∙ rw shifts refl;
      drafts_done = c.drafts_done ∙ rw drafts refl;
      keys_done = c.keys_done ∙ rw keys refl;
    }

pub create_report-Completed :
    (lib : Library) (request : Request) (ids : FreshIds) (payload : Bytes) (now : Time)
    (shift : ShiftModel) (draft : ShiftDraftModel) (idem_id : Uuid) (db db' : Db)
    → create_report lib request ids payload now shift draft idem_id db ≡ ok db'
    → Completed request ids.report_id idem_id now db db'
      × (set_id : Uuid) × (db'.reports
          ≡ create (report_row request ids.report_id set_id now) db.reports)
unfolding create_report
create_report-Completed lib request ids payload now shift draft idem_id db db' h =
    let ((rollover, set_id, opened), e, h1) = >>=-ok (open_report lib request ids now db) _ h in
    let (promoted, f, h2) =
      >>=-ok (promote_draft_children lib ids shift draft payload rollover now opened) _ h1 in
    let (kept, reports) = Kept-open_report lib request ids now db opened rollover set_id e in
    let (kept', reports') =
      Kept-promote lib ids shift draft payload rollover now opened promoted f in
    let (done, reports'') =
      Completed-close lib request ids now shift set_id idem_id promoted db' h2 in
    (
      Completed-after request ids.report_id idem_id now db opened db' kept
          (Completed-after request ids.report_id idem_id now opened promoted db' kept' done),
      set_id,
      reports'' ∙ reports' ∙ reports,
    )

-- A transaction that answers from an earlier one changes nothing.
pub record Replayed (request : Request) (hash : Bytes) (now : Time) (db : Db) (o : Outcome)
    (db' : Db) : Type 0 where
  pub s : Start
  pub started : start request hash now db ≡ ok s
  pub answer : s.key ≡ answered o.report_id
  pub same : db' ≡ db
  pub again : o.replay ≡ true

-- A transaction that creates a report completes the rows that it read.
pub record Created (request : Request) (hash : Bytes) (ids : FreshIds) (now : Time) (db : Db)
    (o : Outcome) (db' : Db) : Type 0 where
  pub s : Start
  pub started : start request hash now db ≡ ok s
  pub unanswered : (report_id : Uuid) → s.key ≢ answered report_id
  pub opened : check_open request now s.shift s.draft ≡ ok tt
  pub first_time : o.replay ≡ false
  pub reported : o.report_id ≡ ids.report_id
  pub completed :
      let (idem_id, rows) = begin request hash ids.idem_id now s.key db.idempotencies in
      Completed request ids.report_id idem_id now (record db { idempotencies = rows }) db'
  pub set_id : Uuid
  pub reports_done : db'.reports ≡ create (report_row request ids.report_id set_id now) db.reports

attempt-Created :
    (lib : Library) (request : Request) (ids : FreshIds) (hash payload : Bytes) (now : Time)
    (s : Start) (db db' : Db) (o : Outcome)
    → start request hash now db ≡ ok s
    → ((report_id : Uuid) → s.key ≢ answered report_id)
    → attempt lib request ids hash payload now s db ≡ ok (o, db')
    → Created request hash ids now db o db'
unfolding attempt
attempt-Created lib request ids hash payload now s db db' o started fresh h =
    let (done, e, h1) = >>=-ok (check_open request now s.shift s.draft) _ h in
    let rows = begin request hash ids.idem_id now s.key db.idempotencies in
    let (final, f, h2) =
      >>=-ok
        (create_report lib request ids payload now s.shift s.draft rows.0
          (record db { idempotencies = rows.1 }))
        _ h1 in
    let same : final ≡ db' = ground (arith, h2) in
    let f' : create_report lib request ids payload now s.shift s.draft rows.0
          (record db { idempotencies = rows.1 })
        ≡ ok db' =
      f ∙ ap ok same in
    let (completed, set_id, reports) =
      create_report-Completed lib request ids payload now s.shift s.draft rows.0
        (record db { idempotencies = rows.1 }) db' f' in
    record {
      s = s;
      started = started;
      unanswered = fresh;
      opened = e;
      first_time = ground (arith, h2);
      reported = ground (arith, h2);
      completed = completed;
      set_id = set_id;
      reports_done = reports;
    }

proceed-ends :
    (lib : Library) (request : Request) (ids : FreshIds) (hash payload : Bytes) (now : Time)
    (s : Start) (db db' : Db) (o : Outcome) (key : Key)
    → start request hash now db ≡ ok s
    → s.key ≡ key
    → proceed lib request ids hash payload now s db key ≡ ok (o, db')
    → Replayed request hash now db o db' ⊎ Created request hash ids now db o db'
unfolding proceed
proceed-ends lib request ids hash payload now s db db' o (answered r) started same h =
    let reported : r ≡ o.report_id = ground (arith, h) in
    inl (record {
      s = s;
      started = started;
      answer = same ∙ ap answered reported;
      same = ground (arith, h);
      again = ground (arith, h);
    })
proceed-ends lib request ids hash payload now s db db' o unknown started same h =
    inr (attempt-Created lib request ids hash payload now s db db' o started (λ r e. cc) h)
proceed-ends lib request ids hash payload now s db db' o (taken own rows) started same h =
    inr (attempt-Created lib request ids hash payload now s db db' o started (λ r e. cc) h)
proceed-ends lib request ids hash payload now s db db' o (known idem) started same h =
    inr (attempt-Created lib request ids hash payload now s db db' o started (λ r e. cc) h)

pub submit_transaction-ends :
    (lib : Library) (request : Request) (ids : FreshIds) (hash payload : Bytes) (now : Time)
    (db db' : Db) (o : Outcome)
    → submit_transaction lib request ids hash payload now db ≡ ok (o, db')
    → Replayed request hash now db o db' ⊎ Created request hash ids now db o db'
unfolding submit_transaction
submit_transaction-ends lib request ids hash payload now db db' o h =
    let (s, e, h1) = >>=-ok (start request hash now db) _ h in
    proceed-ends lib request ids hash payload now s db db' o s.key e refl h1

-- What a transaction that ends well has read.
pub start-reads :
    (request : Request) (hash : Bytes) (now : Time) (db : Db) (s : Start)
    → start request hash now db ≡ ok s
    → (require_enabled db request.org_id request.station_id ≡ ok tt)
      × (first (λ x. x.org_id == request.org_id && x.station_id == request.station_id) db.stations
          ≢ none)
      × (first (of_station_shift request) db.shifts ≡ some s.shift)
      × (first (of_request_draft request) db.drafts ≡ some s.draft)
      × (settle request hash now db.idempotencies (first (of_key request) db.idempotencies)
          ≡ ok s.key)
unfolding start
start-reads request hash now db s h = ground (arith, h)

-- The shift's row after the updates at the end.
pub shift-awaits :
    (request : Request) (report_id idem_id : Uuid) (now : Time) (db : Db) (shift : ShiftModel)
    → first (of_station_shift request) db.shifts ≡ some shift
    → first (of_station_shift request) (complete request report_id idem_id now db).shifts
      ≡ some (record shift {
        status = "awaiting_confirmation";
        current_report_id = some report_id;
        closed_at = some now;
      })
unfolding complete
shift-awaits request report_id idem_id now db shift e =
    first-update_where_keyed (of_station_shift request) (λ s. s.shift_id == request.shift_id)
      (λ s. record s {
        status = "awaiting_confirmation";
        current_report_id = some report_id;
        closed_at = some now;
      })
      db.shifts shift (λ y. refl) e
    ∙ (let held = first-holds (of_station_shift request) db.shifts shift e in
        let same : (shift.shift_id == request.shift_id) ≡ true = ground (arith, held) in
        rw same refl)

pub draft-submitted :
    (request : Request) (report_id idem_id : Uuid) (now : Time) (db : Db) (draft : ShiftDraftModel)
    → first (of_request_draft request) db.drafts ≡ some draft
    → first (of_request_draft request) (complete request report_id idem_id now db).drafts
      ≡ some (record draft {
        status = "submitted";
        claim_token = none;
        claim_expires_at = none;
        updated_at = now;
        updated_by = some request.actor_id;
      })
unfolding complete
draft-submitted request report_id idem_id now db draft e =
    first-update_where_keyed (of_request_draft request) (λ d. d.draft_id == request.draft_id)
      (λ d. record d {
        status = "submitted";
        claim_token = none;
        claim_expires_at = none;
        updated_at = now;
        updated_by = some request.actor_id;
      })
      db.drafts draft (λ y. refl) e
    ∙ (let held = first-holds (of_request_draft request) db.drafts draft e in
        let same : (draft.draft_id == request.draft_id) ≡ true = ground (arith, held) in
        rw same refl)
