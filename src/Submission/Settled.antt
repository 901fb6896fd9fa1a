-- ===== src/Submission/Settled.antt =====
-- The rows of the keys between submissions, and the keys of failed submissions.
use pomkita_be.Prelude.{
  first, first-create_none, create, update_where, Bool-cases, Option-cases, All, is_set, ◌≡◌, refl,
  sym, ap, ◌∙◌, ◌≢◌, inl, inr, Bool, true, false, not, ◌&&◌, ◌||◌, Option, none, some, List, [],
  ◌∷◌, arith, eq_iff, str_eq, Uuid, Time,
}
use pomkita_be.Prelude.Text.{Bytes}
use pomkita_be.Domain.{ok, has_code, Result-cases, transaction, Error, Result, err}
use pomkita_be.Audit.{bytes_eq}
use pomkita_be.Store.{Db}
use pomkita_be.Store.Submissions.{SubmitIdempotencyModel}
use pomkita_be.Submission.Types.{Request, Outcome, Library, FreshIds}
use pomkita_be.Submission.Key.{
  Key, unknown, answered, of_key, of_idem, settle, begin, new_key, failed_key, mark_succeeded,
  mark_failed, mark_row, mark_submit_failed, report_of,
}
use pomkita_be.Submission.Transaction.{Start, start, complete, submit_transaction}
use pomkita_be.Submission.Once.{Created, submit_transaction-ends, start-reads}
use pomkita_be.Submission.Answers.{settled-row, submit-transaction}
use pomkita_be.Submission.Service.{submit, after_failure}

-- A key that has failed, or has succeeded with a report.
abbrev pub IsSettled : SubmitIdempotencyModel → Type 0
IsSettled r =
    (str_eq r.status "failed" || (str_eq r.status "succeeded" && is_set r.resulting_report_id))
    ≡ true

module _ {ℓ κ} {A : Type ℓ} (P : A → Type κ) where
  pub All-update_where :
      (p : A → Bool) (f : A → A) (xs : List A)
      → ((x : A) → P x → P (f x))
      → All P xs
      → All P (update_where p f xs)
  unfolding update_where
  All-update_where p f [] keep h = tt
  All-update_where p f (x ∷ xs) keep h = elim (Bool-cases (p x)) [
    | inl hit ↦ rw hit (keep x h.0, All-update_where p f xs keep h.1)
    | inr miss ↦ rw miss (h.0, All-update_where p f xs keep h.1)
  ]

  pub All-create : (xs : List A) (x : A) → All P xs → P x → All P (create x xs)
  All-create [] x h p = (p, tt)
  All-create (y ∷ xs) x h p = (h.0, All-create xs x h.1 p)

  pub All-first : (p : A → Bool) (xs : List A) (x : A) → All P xs → first p xs ≡ some x → P x
  unfolding first
  All-first p [] x h e = absurd (ground arith)
  All-first p (y ∷ xs) x h e = elim (Bool-cases (p y)) [
    | inl hit ↦ let same : y ≡ x = ground (arith, hit, e) in rw (sym same) h.0
    | inr miss ↦ All-first p xs x h.1 (ground (arith, miss, e))
  ]

  -- An update that repairs the one row that a table lacks.
  pub All-repaired :
      (p : A → Bool) (f : A → A) (xs : List A) (x : A)
      → ((y : A) → P (f y))
      → p x ≡ true
      → All P xs
      → All P (update_where p f (create x xs))
  unfolding update_where
  All-repaired p f [] x done own h = rw own (done x, tt)
  All-repaired p f (y ∷ xs) x done own h = elim (Bool-cases (p y)) [
    | inl hit ↦ rw hit (done y, All-repaired p f xs x done own h.1)
    | inr miss ↦ rw miss (h.0, All-repaired p f xs x done own h.1)
  ]

succeeded-IsSettled :
    (report_id : Uuid) (now : Time) (r : SubmitIdempotencyModel)
    → IsSettled (mark_succeeded report_id now r)
succeeded-IsSettled report_id now r = refl

-- Between submissions no key is in progress, so a settled row of the key is answered.
settled-answers :
    (request : Request) (hash : Bytes) (now : Time) (rows : List SubmitIdempotencyModel)
    (idem : SubmitIdempotencyModel) (key : Key)
    → IsSettled idem
    → settle request hash now rows (some idem) ≡ ok key
    → (report_id : Uuid) × (key ≡ answered report_id)
settled-answers request hash now rows idem key settled h =
    let (_, fresh, h1) = settled-row request hash now rows idem key h in
    elim (Option-cases (report_of idem)) [
      | inl none_ ↦ absurd (elim (Option-cases idem.resulting_report_id) [
        | inl missing ↦ ground (arith, settled, fresh, none_, missing)
        | inr (r, there) ↦ ground (arith, settled, fresh, none_, there)
      ])
      | inr (r, answer) ↦ (r, ground (arith, answer, h1))
    ]

Created-IsSettled :
    (request : Request) (hash : Bytes) (ids : FreshIds) (now : Time) (db db' : Db) (o : Outcome)
    (found : Option SubmitIdempotencyModel) (c : Created request hash ids now db o db')
    → All IsSettled db.idempotencies
    → first (of_key request) db.idempotencies ≡ found
    → settle request hash now db.idempotencies found ≡ ok c.s.key
    → All IsSettled db'.idempotencies
unfolding complete settle begin new_key
Created-IsSettled request hash ids now db db' o none c settled e h =
    let key : c.s.key ≡ unknown = ground (arith, h) in
    let done : db'.idempotencies
        ≡ update_where (of_idem ids.idem_id) (mark_succeeded ids.report_id now)
            (create (new_key request hash ids.idem_id now) db.idempotencies) =
      rw key at c.completed.keys_done in
    let own : of_idem ids.idem_id (new_key request hash ids.idem_id now) ≡ true = ground arith in
    rw done (
      All-repaired IsSettled (of_idem ids.idem_id) (mark_succeeded ids.report_id now)
        db.idempotencies (new_key request hash ids.idem_id now)
        (succeeded-IsSettled ids.report_id now) own settled)
Created-IsSettled request hash ids now db db' o (some idem) c settled e h =
    let (r, answer) =
      settled-answers request hash now db.idempotencies idem c.s.key
        (All-first IsSettled (of_key request) db.idempotencies idem settled e) h in
    absurd (c.unanswered r answer)

mark-IsSettled :
    (request : Request) (hash : Bytes) (idem_id : Uuid) (now : Time)
    (rows : List SubmitIdempotencyModel) (found : Option SubmitIdempotencyModel)
    → All IsSettled rows
    → All IsSettled (mark_row request hash idem_id now rows found)
unfolding mark_row failed_key
mark-IsSettled request hash idem_id now rows none settled =
    All-create IsSettled rows (failed_key request hash idem_id now) settled refl
mark-IsSettled request hash idem_id now rows (some idem) settled =
    elim (Bool-cases (not (bytes_eq idem.request_hash hash) || str_eq idem.status "succeeded")) [
      | inl kept ↦ rw kept settled
      | inr marked ↦ rw marked (
          All-update_where IsSettled (of_idem idem.idem_id) (mark_failed now) rows (λ x h. refl)
            settled)
    ]

failure-IsSettled :
    (request : Request) (ids : FreshIds) (hash : Bytes) (now : Time) (db : Db) (e : Error)
    → All IsSettled db.idempotencies
    → All IsSettled (after_failure request ids hash now (err e, db)).1.idempotencies
unfolding after_failure mark_submit_failed
failure-IsSettled request ids hash now db e settled =
    elim (Bool-cases (has_code "idempotency_conflict" e)) [
      | inl kept ↦ rw kept settled
      | inr marked ↦ rw marked (
          mark-IsSettled request hash ids.failed_idem_id now db.idempotencies
            (first (of_key request) db.idempotencies) settled)
    ]

-- `submit` after its transaction, in both cases.
pub submit_of_done :
    (lib : Library) (request : Request) (ids : FreshIds) (hash payload : Bytes) (now : Time)
    (db db' : Db) (o : Outcome)
    → submit_transaction lib request ids hash payload now db ≡ ok (o, db')
    → submit lib request ids hash payload now db ≡ (ok o, db')
unfolding submit after_failure
submit_of_done lib request ids hash payload now db db' o h = ground (arith, h)

pub submit_of_err :
    (lib : Library) (request : Request) (ids : FreshIds) (hash payload : Bytes) (now : Time)
    (db : Db) (e : Error)
    → submit_transaction lib request ids hash payload now db ≡ err e
    → submit lib request ids hash payload now db ≡ after_failure request ids hash now (err e, db)
unfolding submit
submit_of_err lib request ids hash payload now db e h =
    ap
      (λ (x : Result (Outcome × Db)).
        after_failure request ids hash now (transaction (λ (d : Db). x) db))
      h

-- Every submission, however it ends, leaves each key settled if it finds each key settled: a key
-- that is in progress is never seen after it.
pub submit-IsSettled :
    (lib : Library) (request : Request) (ids : FreshIds) (hash payload : Bytes) (now : Time)
    (db : Db)
    → All IsSettled db.idempotencies
    → All IsSettled (submit lib request ids hash payload now db).1.idempotencies
submit-IsSettled lib request ids hash payload now db settled =
    elim (Result-cases (submit_transaction lib request ids hash payload now db)) [
      | inl (e, failed) ↦
          rw (submit_of_err lib request ids hash payload now db e failed)
            (failure-IsSettled request ids hash now db e settled)
      | inr ((o, db'), done) ↦
          rw (submit_of_done lib request ids hash payload now db db' o done)
            (elim (submit_transaction-ends lib request ids hash payload now db db' o done) [
              | inl r ↦ rw r.same settled
              | inr c ↦
                  let (_, _, _, _, key) = start-reads request hash now db c.s c.started in
                  Created-IsSettled request hash ids now db db' o
                    (first (of_key request) db.idempotencies) c settled refl key
            ])
    ]

-- No submission starts under a key that has failed.
failed-starts :
    (again : Request) (hash : Bytes) (later : Time) (db : Db) (row : SubmitIdempotencyModel)
    (s : Start)
    → first (of_key again) db.idempotencies ≡ some row
    → str_eq row.status "failed" ≡ true
    → start again hash later db ≢ ok s
failed-starts again hash later db row s found failed started =
    let (_, _, _, _, key) = start-reads again hash later db s started in
    let (_, fresh, _) = settled-row again hash later db.idempotencies row s.key (rw found at key) in
    cc

failed-refuses :
    (lib : Library) (again : Request) (ids : FreshIds) (hash payload : Bytes) (later : Time)
    (db db' : Db) (o : Outcome) (row : SubmitIdempotencyModel)
    → first (of_key again) db.idempotencies ≡ some row
    → str_eq row.status "failed" ≡ true
    → submit lib again ids hash payload later db ≢ (ok o, db')
failed-refuses lib again ids hash payload later db db' o row found failed h =
    elim (submit_transaction-ends lib again ids hash payload later db db' o
      (submit-transaction lib again ids hash payload later db db' o h)) [
        | inl r ↦ failed-starts again hash later db row r.s found failed r.started
        | inr c ↦ failed-starts again hash later db row c.s found failed c.started
      ]

after-marks :
    (request : Request) (ids : FreshIds) (hash : Bytes) (now : Time) (db db' : Db) (e e' : Error)
    → first (of_key request) db.idempotencies ≡ none
    → after_failure request ids hash now (err e', db) ≡ (err e, db')
    → has_code "idempotency_conflict" e ≡ false
    → db' ≡ record db {
      idempotencies = create (failed_key request hash ids.failed_idem_id now) db.idempotencies;
    }
unfolding after_failure mark_submit_failed mark_row
after-marks request ids hash now db db' e e' new h other =
    elim (Bool-cases (has_code "idempotency_conflict" e')) [
      | inl conflict_ ↦
          let h' : ◌≡◌ {A = Result Outcome × Db} (err e', db) (err e, db') = rw conflict_ at h in
          let results : ◌≡◌ {A = Result Outcome} (err e') (err e) =
            ap (λ (x : Result Outcome × Db). x.0) h' in
          let same : e' ≡ e = ground (arith, results) in
          let again : has_code "idempotency_conflict" e ≡ true = rw same at conflict_ in absurd cc
      | inr marked ↦
          let h' : ◌≡◌ {A = Result Outcome × Db}
              (
                err e',
                record db {
                  idempotencies =
                      create (failed_key request hash ids.failed_idem_id now) db.idempotencies;
                },
              )
              (err e, db') =
            rw (marked, new) at h in
          sym (ap (λ (x : Result Outcome × Db). x.1) h')
    ]

first-marks :
    (lib : Library) (request : Request) (ids : FreshIds) (hash payload : Bytes) (now : Time)
    (db db' : Db) (e : Error)
    → first (of_key request) db.idempotencies ≡ none
    → submit lib request ids hash payload now db ≡ (err e, db')
    → has_code "idempotency_conflict" e ≡ false
    → db' ≡ record db {
      idempotencies = create (failed_key request hash ids.failed_idem_id now) db.idempotencies;
    }
first-marks lib request ids hash payload now db db' e new h other =
    elim (Result-cases (submit_transaction lib request ids hash payload now db)) [
      | inl (e', failed) ↦
          after-marks request ids hash now db db' e e' new
            (sym (submit_of_err lib request ids hash payload now db e' failed) ∙ h) other
      | inr ((o, d), done) ↦
          let results : ◌≡◌ {A = Result Outcome} (ok o) (err e) =
            ap (λ (x : Result Outcome × Db). x.0)
              (sym (submit_of_done lib request ids hash payload now db d o done) ∙ h) in
          absurd cc
    ]

failed_key-of_key :
    (request : Request) (hash : Bytes) (idem_id : Uuid) (now : Time)
    → of_key request (failed_key request hash idem_id now) ≡ true
unfolding failed_key
failed_key-of_key request hash idem_id now =
    let same = (eq_iff request.idempotency_key request.idempotency_key).1 refl in
    ground (arith, same)

failed_key-failed :
    (request : Request) (hash : Bytes) (idem_id : Uuid) (now : Time)
    → str_eq (failed_key request hash idem_id now).status "failed" ≡ true
unfolding failed_key
failed_key-failed request hash idem_id now = refl

-- A submission under a key that the shift has not used, which fails with an error other than the
-- conflict, marks the key as failed and changes nothing else: under that key no submission of the
-- shift succeeds on the resulting database, whichever draft, payload, actor and time it has.
pub submit-failed :
    (lib lib' : Library) (request again : Request) (ids ids' : FreshIds)
    (hash hash' payload payload' : Bytes) (now later : Time) (db db' db'' : Db) (e : Error)
    (o : Outcome)
    → first (of_key request) db.idempotencies ≡ none
    → submit lib request ids hash payload now db ≡ (err e, db')
    → has_code "idempotency_conflict" e ≡ false
    → again.org_id ≡ request.org_id
    → again.station_id ≡ request.station_id
    → again.shift_id ≡ request.shift_id
    → again.idempotency_key ≡ request.idempotency_key
    → (db' ≡ record db {
      idempotencies = create (failed_key request hash ids.failed_idem_id now) db.idempotencies;
    })
      × (submit lib' again ids' hash' payload' later db' ≢ (ok o, db''))
submit-failed lib lib' request again ids ids' hash hash' payload payload' now later db db' db'' e o
      new h other org station shift_id key =
    let marked = first-marks lib request ids hash payload now db db' e new h other in
    let row = failed_key request hash ids.failed_idem_id now in
    let found : first (of_key again) db'.idempotencies ≡ some row =
      rw (marked, org, station, shift_id, key)
        (first-create_none (of_key request) db.idempotencies row new
          (failed_key-of_key request hash ids.failed_idem_id now)) in
    (
      marked,
      failed-refuses lib' again ids' hash' payload' later db' db'' o row found
          (failed_key-failed request hash ids.failed_idem_id now),
    )
