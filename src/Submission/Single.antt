-- ===== src/Submission/Single.antt =====
-- `Submit` creates one report for a shift, and closes its draft.
use pomkita_be.Prelude.{
  first, ◌≡◌, sym, ap, ◌∙◌, inl, inr, true, false, none, some, [], ◌∷◌, ◌++◌, arith, eq_iff, str_eq,
  Uuid, Time,
}
use pomkita_be.Prelude.Text.{Bytes}
use pomkita_be.Domain.{ok}
use pomkita_be.Store.{Db}
use pomkita_be.Store.Shifts.{ShiftModel, ShiftDraftModel}
use pomkita_be.Submission.Types.{Request, Outcome, Library, FreshIds}
use pomkita_be.Submission.Key.{begin}
use pomkita_be.Submission.Transaction.{
  check_open, of_station_shift, of_request_draft, is_claimed, report_row,
}
use pomkita_be.Submission.Once.{
  Created, submit_transaction-ends, start-reads, shift-awaits, draft-submitted,
}
use pomkita_be.Submission.Answers.{submit-transaction}
use pomkita_be.Submission.Service.{submit}

pub check_open-facts :
    (request : Request) (now : Time) (shift : ShiftModel) (draft : ShiftDraftModel)
    → check_open request now shift draft ≡ ok tt
    → (str_eq shift.status "open" ≡ true)
      × (is_claimed request now draft ≡ true)
      × (draft.revision ≡ request.expected_revision)
unfolding check_open
check_open-facts request now shift draft h = ground (arith, h)

-- a submission that is not a replay
pub submit-Created :
    (lib : Library) (request : Request) (ids : FreshIds) (hash payload : Bytes) (now : Time)
    (db db' : Db) (o : Outcome)
    → submit lib request ids hash payload now db ≡ (ok o, db')
    → o.replay ≡ false
    → Created request hash ids now db o db'
submit-Created lib request ids hash payload now db db' o h first_time =
    elim (submit_transaction-ends lib request ids hash payload now db db' o
      (submit-transaction lib request ids hash payload now db db' o h)) [
        | inl r ↦ absurd (let again = r.again in cc)
        | inr c ↦ c
      ]

-- What a submission that creates a report has found, and what it leaves.
abbrev pub Files : Request → Time → Db → Outcome → Db → Type 0
Files request now db o db' =
    (shift : ShiftModel) × (draft : ShiftDraftModel) × (set_id : Uuid) × (first
        (of_station_shift request) db.shifts
      ≡ some shift)
    × (shift.status ≡ "open")
    × (first (of_request_draft request) db.drafts ≡ some draft)
    × (draft.revision ≡ request.expected_revision)
    × (is_claimed request now draft ≡ true)
    × (db'.reports ≡ db.reports ++ report_row request o.report_id set_id now ∷ [])
    × (first (of_station_shift request) db'.shifts
        ≡ some (record shift {
          status = "awaiting_confirmation";
          current_report_id = some o.report_id;
          closed_at = some now;
        }))
    × (first (of_request_draft request) db'.drafts
        ≡ some (record draft {
          status = "submitted";
          claim_token = none;
          claim_expires_at = none;
          updated_at = now;
          updated_by = some request.actor_id;
        }))

-- A submission that is not a replay succeeds only on an open shift and on the revision of a draft
-- whose lease its actor and token hold. It appends version 1 of one report, submitted by the actor,
-- moves the shift to that report and to its confirmation, and closes the draft with its lease.
pub submit-Files :
    (lib : Library) (request : Request) (ids : FreshIds) (hash payload : Bytes) (now : Time)
    (db db' : Db) (o : Outcome)
    → submit lib request ids hash payload now db ≡ (ok o, db')
    → o.replay ≡ false
    → Files request now db o db'
submit-Files lib request ids hash payload now db db' o h first_time =
    let c = submit-Created lib request ids hash payload now db db' o h first_time in
    let (_, _, shift, draft, _) = start-reads request hash now db c.s c.started in
    let (open_, claimed, revision) = check_open-facts request now c.s.shift c.s.draft c.opened in
    let begun = begin request hash ids.idem_id now c.s.key db.idempotencies in
    let mid : Db = record db { idempotencies = begun.1 } in
    (
      c.s.shift,
      c.s.draft,
      c.set_id,
      shift,
      (eq_iff c.s.shift.status "open").0 open_,
      draft,
      revision,
      claimed,
      rw c.reported c.reports_done,
      rw c.reported (
          ap (first (of_station_shift request)) c.completed.shifts_done
          ∙ shift-awaits request ids.report_id begun.0 now mid c.s.shift shift),
      ap (first (of_request_draft request)) c.completed.drafts_done
          ∙ draft-submitted request ids.report_id begun.0 now mid c.s.draft draft,
    )

-- On the database that a submission leaves that was not a replay, every submission of the same shift
-- that succeeds is a replay and changes nothing, whichever draft, key, actor and time it has.
pub submit-once :
    (lib : Library) (request again : Request) (ids ids' : FreshIds)
    (hash hash' payload payload' : Bytes) (now later : Time) (db db' db'' : Db) (o o' : Outcome)
    → submit lib request ids hash payload now db ≡ (ok o, db')
    → o.replay ≡ false
    → again.org_id ≡ request.org_id
    → again.station_id ≡ request.station_id
    → again.shift_id ≡ request.shift_id
    → submit lib again ids' hash' payload' later db' ≡ (ok o', db'')
    → (o'.replay ≡ true) × (db'' ≡ db')
submit-once lib request again ids ids' hash hash' payload payload' now later db db' db'' o o' h
      first_time org station shift_id h' =
    elim (submit_transaction-ends lib again ids' hash' payload' later db' db'' o'
      (submit-transaction lib again ids' hash' payload' later db' db'' o' h')) [
        | inl r ↦ (r.again, r.same)
        | inr c ↦
            let (shift, draft, set_id, _, _, _, _, _, _, awaits, _) =
              submit-Files lib request ids hash payload now db db' o h first_time in
            let (_, _, found, _, _) = start-reads again hash' later db' c.s c.started in
            let (open_, _, _) = check_open-facts again later c.s.shift c.s.draft c.opened in
            let found' : first (of_station_shift request) db'.shifts ≡ some c.s.shift =
              rw (org, station, shift_id) at found in
            let same : some (record shift {
              status = "awaiting_confirmation";
              current_report_id = some o.report_id;
              closed_at = some now;
            })
                ≡ some c.s.shift =
              sym awaits ∙ found' in
            let status : c.s.shift.status ≡ "awaiting_confirmation" = ground (arith, same) in
            let contrary : str_eq "awaiting_confirmation" "open" ≡ true = rw status at open_ in
            absurd cc
      ]
