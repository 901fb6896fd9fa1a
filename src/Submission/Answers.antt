-- ===== src/Submission/Answers.antt =====
-- The answers of a key: what a later submission under the key of an ended one returns.
use pomkita_be.Prelude.{
  first, first-create_none, first-update_where_keyed, update_where, Bool-cases, Option-cases, count,
  ℕ, ◌≡◌, refl, sym, ap, ◌∙◌, ◌≢◌, inl, inr, Bool, true, false, not, ◌&&◌, ◌||◌, Option, none, some,
  List, [], arith, eq_iff, ◌==◌, str_eq, if◌then◌else◌, Uuid, Time, is_after,
}
use pomkita_be.Prelude.Text.{Bytes}
use pomkita_be.Domain.{has_code, ok, >>=-ok, passed, err, found_or}
use pomkita_be.Scope.{require_enabled, require_enabled-cong}
use pomkita_be.Store.{Db}
use pomkita_be.Store.Shifts.{ShiftModel, ShiftDraftModel}
use pomkita_be.Store.Submissions.{SubmitIdempotencyModel}
use pomkita_be.Audit.{bytes_eq}
use pomkita_be.Audit.Chain.{bytes_eq_refl, bytes_eq_sound}
use pomkita_be.Submission.Types.{Request, Outcome, Library, FreshIds, idempotency_conflict}
use pomkita_be.Submission.Key.{
  Key, is_stale, unknown, answered, taken, known, of_key, of_idem, settle, take_over, or_take_over,
  begin, begin_attempt, new_key, mark_succeeded, report_of,
}
use pomkita_be.Submission.Transaction.{
  Start, start, complete, proceed, submit_transaction, of_station_shift, of_request_draft,
}
use pomkita_be.Submission.Once.{
  Created, Replayed, submit_transaction-ends, start-reads, shift-awaits, draft-submitted,
}
use pomkita_be.Submission.Service.{submit, after_failure}

-- The row of the request's key, which is the one of the attempt.
abbrev pub Found : Request → Bytes → Uuid × List SubmitIdempotencyModel → Type 0
Found request hash (idem_id, rows) =
    (row : SubmitIdempotencyModel) × (first (of_key request) rows ≡ some row)
    × (row.idem_id ≡ idem_id)
    × (bytes_eq row.request_hash hash ≡ true)

-- A takeover returns the table with the attempt of the key's own row.
take_over-taken :
    (request : Request) (now : Time) (rows : List SubmitIdempotencyModel)
    (idem : SubmitIdempotencyModel) (key : Key)
    → take_over request now rows idem ≡ ok key
    → (q : SubmitIdempotencyModel → Bool) × (key
        ≡ taken idem.idem_id (update_where q (begin_attempt request idem.attempt_count now) rows))
unfolding take_over
take_over-taken request now rows idem key h =
    let (_, h1) = passed (is_after idem.lease_expires_at now) idempotency_conflict h in
    let (token, e, h2) = >>=-ok (found_or idempotency_conflict idem.claim_token) _ h1 in
    let (lease, f, h3) = >>=-ok (found_or idempotency_conflict idem.lease_expires_at) _ h2 in
    let expired = λ (r : SubmitIdempotencyModel). of_idem idem.idem_id r && is_stale token now r in
    let (_, h4) = passed (not (count expired rows == 1)) idempotency_conflict h3 in
    (expired, ground (arith, h4))

-- What `settle` may return for a row of the key.
pub settled-row :
    (request : Request) (hash : Bytes) (now : Time) (rows : List SubmitIdempotencyModel)
    (idem : SubmitIdempotencyModel) (key : Key)
    → settle request hash now rows (some idem) ≡ ok key
    → (bytes_eq idem.request_hash hash ≡ true)
      × (str_eq idem.status "failed" ≡ false)
      × (or_take_over (report_of idem) (
            if str_eq idem.status "in_progress"
            then take_over request now rows idem
            else ok (known idem))
          ≡ ok key)
unfolding settle
settled-row request hash now rows idem key h =
    let (checked, h1) =
      passed (not (bytes_eq idem.request_hash hash) || str_eq idem.status "failed")
        idempotency_conflict h in
    (ground (arith, checked), ground (arith, checked), h1)

-- The attempt's update keeps the row of the key in its place.
updated-Found :
    (request : Request) (hash : Bytes) (now : Time) (rows : List SubmitIdempotencyModel)
    (idem : SubmitIdempotencyModel) (q : SubmitIdempotencyModel → Bool)
    → first (of_key request) rows ≡ some idem
    → bytes_eq idem.request_hash hash ≡ true
    → Found request hash
        (idem.idem_id, update_where q (begin_attempt request idem.attempt_count now) rows)
updated-Found request hash now rows idem q e same =
    let row =
      first-update_where_keyed (of_key request) q (begin_attempt request idem.attempt_count now)
        rows idem (λ y. refl) e in
    elim (Bool-cases (q idem)) [
      | inl hit ↦ (begin_attempt request idem.attempt_count now idem, rw hit at row, refl, same)
      | inr miss ↦ (idem, rw miss at row, refl, same)
    ]

row-Found :
    (request : Request) (hash : Bytes) (idem_id : Uuid) (now : Time)
    (rows : List SubmitIdempotencyModel) (idem : SubmitIdempotencyModel) (key : Key)
    → first (of_key request) rows ≡ some idem
    → bytes_eq idem.request_hash hash ≡ true
    → or_take_over none (
        if str_eq idem.status "in_progress"
        then take_over request now rows idem
        else ok (known idem))
      ≡ ok key
    → Found request hash (begin request hash idem_id now key rows)
unfolding begin
row-Found request hash idem_id now rows idem key e same h =
    elim (Bool-cases (str_eq idem.status "in_progress")) [
      | inl progress ↦
          let (q, taken_) = take_over-taken request now rows idem key (rw progress at h) in
          rw taken_ (updated-Found request hash now rows idem q e same)
      | inr other ↦
          let known_ : known idem ≡ key = ground (arith, other, h) in
          rw (sym known_) (updated-Found request hash now rows idem (of_idem idem.idem_id) e same)
    ]

new_key-of_key :
    (request : Request) (hash : Bytes) (idem_id : Uuid) (now : Time)
    → of_key request (new_key request hash idem_id now) ≡ true
unfolding new_key
new_key-of_key request hash idem_id now =
    let same = (eq_iff request.idempotency_key request.idempotency_key).1 refl in
    ground (arith, same)

-- Whatever the key was, the attempt's row is the one that a query for the key finds.
pub begin-Found :
    (request : Request) (hash : Bytes) (idem_id : Uuid) (now : Time)
    (rows : List SubmitIdempotencyModel) (key : Key) (found : Option SubmitIdempotencyModel)
    → first (of_key request) rows ≡ found
    → settle request hash now rows found ≡ ok key
    → ((report_id : Uuid) → key ≢ answered report_id)
    → Found request hash (begin request hash idem_id now key rows)
unfolding begin settle new_key
begin-Found request hash idem_id now rows key none e h fresh =
    let unknown_ : unknown ≡ key = ground (arith, h) in
    rw (sym unknown_) (
      new_key request hash idem_id now,
      first-create_none (of_key request) rows (new_key request hash idem_id now) e
          (new_key-of_key request hash idem_id now),
      refl,
      bytes_eq_refl hash,
    )
begin-Found request hash idem_id now rows key (some idem) e h fresh =
    let (same, _, h1) = settled-row request hash now rows idem key h in
    elim (Option-cases (report_of idem)) [
      | inl none_ ↦ row-Found request hash idem_id now rows idem key e same (rw none_ at h1)
      | inr (r, answer) ↦ absurd (fresh r (ground (arith, answer, h1)))
    ]

-- A settled answer does not depend on the time.
settle-answered :
    (request : Request) (hash : Bytes) (now : Time) (rows : List SubmitIdempotencyModel)
    (found : Option SubmitIdempotencyModel) (report_id : Uuid)
    → settle request hash now rows found ≡ ok (answered report_id)
    → (idem : SubmitIdempotencyModel) × (found ≡ some idem)
      × (bytes_eq idem.request_hash hash ≡ true)
      × (report_of idem ≡ some report_id)
unfolding settle
settle-answered request hash now rows none report_id h = ground (arith, h)
settle-answered request hash now rows (some idem) report_id h =
    let (same, _, h1) = settled-row request hash now rows idem (answered report_id) h in
    elim (Option-cases (report_of idem)) [
      | inl none_ ↦ absurd (elim (Bool-cases (str_eq idem.status "in_progress")) [
        | inl progress ↦
            let (q, e) =
              take_over-taken request now rows idem (answered report_id)
                (rw (none_, progress) at h1) in
            cc
        | inr other ↦ ground (arith, none_, other, h1)
      ])
      | inr (r, answer) ↦
          let same_report : r ≡ report_id = ground (arith, answer, h1) in
          (idem, refl, same, answer ∙ ap some same_report)
    ]

-- A key whose row has succeeded is answered with its report, if the hash is the same.
row-answered :
    (request : Request) (hash : Bytes) (now : Time) (rows : List SubmitIdempotencyModel)
    (idem : SubmitIdempotencyModel) (report_id : Uuid)
    → bytes_eq idem.request_hash hash ≡ true
    → report_of idem ≡ some report_id
    → settle request hash now rows (some idem) ≡ ok (answered report_id)
unfolding settle
row-answered request hash now rows idem report_id same answer =
    elim (Bool-cases (str_eq idem.status "succeeded")) [
      | inl succeeded ↦
          let status = (eq_iff idem.status "succeeded").0 succeeded in
          let fresh : str_eq idem.status "failed" ≡ false = rw status refl in
          ground (arith, fresh, same, answer)
      | inr other ↦ absurd (ground (arith, other, answer))
    ]

-- Everything that a replay reads: the enabled station, the rows of the request, and the answered key.
pub record IsAnswered (request : Request) (hash : Bytes) (db : Db) (report_id : Uuid) : Type 0 where
  pub enabled : require_enabled db request.org_id request.station_id ≡ ok tt
  pub station_there :
      first (λ x. x.org_id == request.org_id && x.station_id == request.station_id) db.stations
      ≢ none
  pub shift : ShiftModel
  pub shift_found : first (of_station_shift request) db.shifts ≡ some shift
  pub draft : ShiftDraftModel
  pub draft_found : first (of_request_draft request) db.drafts ≡ some draft
  pub idem : SubmitIdempotencyModel
  pub idem_found : first (of_key request) db.idempotencies ≡ some idem
  pub same_hash : bytes_eq idem.request_hash hash ≡ true
  pub answer : report_of idem ≡ some report_id

Replayed-IsAnswered :
    (request : Request) (hash : Bytes) (now : Time) (db db' : Db) (o : Outcome)
    → Replayed request hash now db o db'
    → IsAnswered request hash db o.report_id
Replayed-IsAnswered request hash now db db' o r =
    let (enabled, there, shift, draft, key) = start-reads request hash now db r.s r.started in
    let (idem, found, same, answer) =
      settle-answered request hash now db.idempotencies (first (of_key request) db.idempotencies)
        o.report_id (key ∙ ap ok r.answer) in
    record {
      enabled = enabled;
      station_there = there;
      shift = r.s.shift;
      shift_found = shift;
      draft = r.s.draft;
      draft_found = draft;
      idem = idem;
      idem_found = found;
      same_hash = same;
      answer = answer;
    }

-- The key's row after the updates at the end.
key-succeeded :
    (request : Request) (report_id idem_id : Uuid) (now : Time) (db : Db)
    (row : SubmitIdempotencyModel)
    → first (of_key request) db.idempotencies ≡ some row
    → row.idem_id ≡ idem_id
    → first (of_key request) (complete request report_id idem_id now db).idempotencies
      ≡ some (mark_succeeded report_id now row)
unfolding complete
key-succeeded request report_id idem_id now db row e same =
    first-update_where_keyed (of_key request) (of_idem idem_id) (mark_succeeded report_id now)
      db.idempotencies row (λ y. refl) e
    ∙ (let own : of_idem idem_id row ≡ true = ground (arith, same) in rw own refl)

Created-IsAnswered :
    (request : Request) (hash : Bytes) (ids : FreshIds) (now : Time) (db db' : Db) (o : Outcome)
    → Created request hash ids now db o db'
    → IsAnswered request hash db' o.report_id
Created-IsAnswered request hash ids now db db' o c =
    let (enabled, there, shift, draft, key) = start-reads request hash now db c.s c.started in
    let begun = begin request hash ids.idem_id now c.s.key db.idempotencies in
    let (row, found, own, same) =
      begin-Found request hash ids.idem_id now db.idempotencies c.s.key
        (first (of_key request) db.idempotencies) refl key c.unanswered in
    let mid : Db = record db { idempotencies = begun.1 } in
    record {
      enabled =
          require_enabled-cong db db' request.org_id request.station_id
            c.completed.organizations_kept c.completed.stations_kept
          ∙ enabled;
      station_there = rw c.completed.stations_kept there;
      shift = record c.s.shift {
        status = "awaiting_confirmation";
        current_report_id = some ids.report_id;
        closed_at = some now;
      };
      shift_found =
          ap (first (of_station_shift request)) c.completed.shifts_done
          ∙ shift-awaits request ids.report_id begun.0 now mid c.s.shift shift;
      draft = record c.s.draft {
        status = "submitted";
        claim_token = none;
        claim_expires_at = none;
        updated_at = now;
        updated_by = some request.actor_id;
      };
      draft_found =
          ap (first (of_request_draft request)) c.completed.drafts_done
          ∙ draft-submitted request ids.report_id begun.0 now mid c.s.draft draft;
      idem = mark_succeeded ids.report_id now row;
      idem_found =
          ap (first (of_key request)) c.completed.keys_done
          ∙ key-succeeded request ids.report_id begun.0 now mid row found own;
      same_hash = same;
      answer = ap some (sym c.reported);
    }

-- A submission that ends well leaves its key answered.
pub submit_transaction-IsAnswered :
    (lib : Library) (request : Request) (ids : FreshIds) (hash payload : Bytes) (now : Time)
    (db db' : Db) (o : Outcome)
    → submit_transaction lib request ids hash payload now db ≡ ok (o, db')
    → IsAnswered request hash db' o.report_id
submit_transaction-IsAnswered lib request ids hash payload now db db' o h =
    elim (submit_transaction-ends lib request ids hash payload now db db' o h) [
      | inl r ↦ rw r.same (Replayed-IsAnswered request hash now db db' o r)
      | inr c ↦ Created-IsAnswered request hash ids now db db' o c
    ]

-- `submit` returns what its transaction returns.
pub submit-transaction :
    (lib : Library) (request : Request) (ids : FreshIds) (hash payload : Bytes) (now : Time)
    (db db' : Db) (o : Outcome)
    → submit lib request ids hash payload now db ≡ (ok o, db')
    → submit_transaction lib request ids hash payload now db ≡ ok (o, db')
unfolding submit after_failure
submit-transaction lib request ids hash payload now db db' o h = ground (arith, h)

-- a submission of the same key by another claim
abbrev pub retry : Request → Uuid → Uuid → ℕ → Request
retry request token actor revision = record request {
  claim_token = token;
  actor_id = actor;
  expected_revision = revision;
}

submit_of_ok :
    (lib : Library) (request : Request) (ids : FreshIds) (hash payload : Bytes) (now : Time)
    (db db' : Db) (o : Outcome) (s : Start)
    → start request hash now db ≡ ok s
    → proceed lib request ids hash payload now s db s.key ≡ ok (o, db')
    → submit lib request ids hash payload now db ≡ (ok o, db')
unfolding submit after_failure submit_transaction
submit_of_ok lib request ids hash payload now db db' o s e f =
    let ended : submit_transaction lib request ids hash payload now db ≡ ok (o, db') =
      rw (e, f) refl in
    ground (arith, ended)

submit_of_conflict :
    (lib : Library) (request : Request) (ids : FreshIds) (hash payload : Bytes) (now : Time)
    (db : Db)
    → start request hash now db ≡ err idempotency_conflict
    → submit lib request ids hash payload now db ≡ (err idempotency_conflict, db)
unfolding submit after_failure submit_transaction has_code
submit_of_conflict lib request ids hash payload now db e =
    let ended : submit_transaction lib request ids hash payload now db ≡ err idempotency_conflict =
      rw e refl in
    ground (arith, ended)

answered-start :
    (request : Request) (hash : Bytes) (db : Db) (report_id : Uuid) (later : Time)
    (token actor : Uuid) (revision : ℕ) (a : IsAnswered request hash db report_id)
    → start (retry request token actor revision) hash later db
      ≡ ok (record { shift = a.shift; draft = a.draft; key = answered report_id })
unfolding start
answered-start request hash db report_id later token actor revision a =
    let again = retry request token actor revision in
    let key =
      ap (settle again hash later db.idempotencies) a.idem_found
      ∙ row-answered again hash later db.idempotencies a.idem report_id a.same_hash a.answer in
    elim (Option-cases
      (first (λ x. x.org_id == request.org_id && x.station_id == request.station_id) db.stations)) [
        | inl missing ↦ absurd (a.station_there missing)
        | inr (station, there) ↦ rw (a.enabled, there, a.shift_found, a.draft_found, key) refl
      ]

-- After a submission has succeeded, whether it created its report or answered from an earlier one,
-- a submission under the same key and with the same request hash, by whichever actor, claim and
-- revision, at any time, returns the same report as a replay and changes nothing.
pub submit-replay :
    (lib : Library) (request : Request) (ids ids' : FreshIds) (hash payload payload' : Bytes)
    (now later : Time) (db db' : Db) (o : Outcome) (token actor : Uuid) (revision : ℕ)
    → submit lib request ids hash payload now db ≡ (ok o, db')
    → submit lib (retry request token actor revision) ids' hash payload' later db'
      ≡ (ok (record { report_id = o.report_id; replay = true; request_hash = [] }), db')
unfolding proceed
submit-replay lib request ids ids' hash payload payload' now later db db' o token actor revision h =
    let a =
      submit_transaction-IsAnswered lib request ids hash payload now db db' o
        (submit-transaction lib request ids hash payload now db db' o h) in
    submit_of_ok lib (retry request token actor revision) ids' hash payload' later db' db'
      (record { report_id = o.report_id; replay = true; request_hash = [] })
      (record { shift = a.shift; draft = a.draft; key = answered o.report_id })
      (answered-start request hash db' o.report_id later token actor revision a) refl

other-refused :
    (request : Request) (hash other : Bytes) (db : Db) (report_id : Uuid) (later : Time)
    (token actor : Uuid) (revision : ℕ)
    → IsAnswered request hash db report_id
    → other ≢ hash
    → start (retry request token actor revision) other later db ≡ err idempotency_conflict
unfolding start settle
other-refused request hash other db report_id later token actor revision a differs =
    let idem_hash = bytes_eq_sound a.idem.request_hash hash a.same_hash in
    elim (Bool-cases (bytes_eq a.idem.request_hash other)) [
      | inl same ↦
          absurd (differs (sym (bytes_eq_sound a.idem.request_hash other same) ∙ idem_hash))
      | inr differs_ ↦
          elim (Option-cases (
            first (λ x. x.org_id == request.org_id && x.station_id == request.station_id)
              db.stations)) [
                | inl missing ↦ absurd (a.station_there missing)
                | inr (station, there) ↦
                    rw (a.enabled, there, a.shift_found, a.draft_found, a.idem_found, differs_) refl
              ]
    ]

-- After a submission has succeeded, a submission under the same key with another request hash, by
-- whichever actor, claim and revision, at any time, is refused as a conflict and changes nothing.
pub submit-reuse :
    (lib : Library) (request : Request) (ids ids' : FreshIds) (hash other payload payload' : Bytes)
    (now later : Time) (db db' : Db) (o : Outcome) (token actor : Uuid) (revision : ℕ)
    → submit lib request ids hash payload now db ≡ (ok o, db')
    → other ≢ hash
    → submit lib (retry request token actor revision) ids' other payload' later db'
      ≡ (err idempotency_conflict, db')
submit-reuse lib request ids ids' hash other payload payload' now later db db' o token actor
      revision h differs =
    let a =
      submit_transaction-IsAnswered lib request ids hash payload now db db' o
        (submit-transaction lib request ids hash payload now db db' o h) in
    submit_of_conflict lib (retry request token actor revision) ids' other payload' later db'
      (other-refused request hash other db' o.report_id later token actor revision a differs)
