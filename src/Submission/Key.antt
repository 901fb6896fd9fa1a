-- ===== src/Submission/Key.antt =====
-- The idempotency key of `Submit` and `markSubmitFailed` of
-- internal/repository/submission/repository.go: one row for each key of a shift.
use pomkita_be.Prelude.{
  first, count, update_where, create, holds, is_after, minute, ℕ, ◌+◌, ◌*◌, Bool, false, not, ◌&&◌,
  ◌||◌, Option, none, some, List, ltb, ◌==◌, str_eq, if◌then◌else◌, Uuid, Time,
}
use pomkita_be.Prelude.Text.{Bytes}
use pomkita_be.Domain.{ok, Result, refuse_if, found_or, ◌>>=◌, ◌>>◌}
use pomkita_be.Audit.{bytes_eq}
use pomkita_be.Store.Submissions.{SubmitIdempotencyModel}
use pomkita_be.Submission.Types.{Request, idempotency_conflict}

-- the row of a request's key
abbrev pub of_key : Request → SubmitIdempotencyModel → Bool
of_key request r =
    r.org_id == request.org_id
    && r.station_id == request.station_id
    && r.shift_id == request.shift_id
    && str_eq r.idempotency_key request.idempotency_key

abbrev pub of_idem : Uuid → SubmitIdempotencyModel → Bool
of_idem idem_id r = r.idem_id == idem_id

-- `now.Add(10 * time.Minute)`
abbrev pub lease_end : Time → Time
lease_end now = now + 10 * minute

-- the update that gives an attempt the key
abbrev pub begin_attempt : Request → ℕ → Time → SubmitIdempotencyModel → SubmitIdempotencyModel
begin_attempt request attempts now r = record r {
  status = "in_progress";
  claim_token = some request.claim_token;
  attempt_count = attempts + 1;
  lease_started_at = some now;
  lease_expires_at = some (lease_end now);
  updated_at = now;
  error_detail = none;
}

-- What the transaction finds under the key: no row, the report of an earlier submission, the row of
-- an expired attempt with the table after its takeover, or another row.
pub data Key : Type 0 where
  unknown : Key
  answered : Uuid → Key
  taken : Uuid → List SubmitIdempotencyModel → Key
  known : SubmitIdempotencyModel → Key

-- `claim_token = ? and lease_expires_at < ?`
abbrev pub is_stale : Uuid → Time → SubmitIdempotencyModel → Bool
is_stale token now r =
    holds r.claim_token token && elim r.lease_expires_at [ some t ↦ ltb t now | none ↦ false ]

-- the takeover of a key whose attempt is in progress
unfoldable pub take_over :
    Request → Time → List SubmitIdempotencyModel → SubmitIdempotencyModel → Result Key
take_over request now rows idem = do
  refuse_if (is_after idem.lease_expires_at now) idempotency_conflict
  token ← found_or idempotency_conflict idem.claim_token
  lease ← found_or idempotency_conflict idem.lease_expires_at
  let expired = λ (r : SubmitIdempotencyModel). of_idem idem.idem_id r && is_stale token now r
  refuse_if (not (count expired rows == 1)) idempotency_conflict
  ok (taken idem.idem_id (update_where expired (begin_attempt request idem.attempt_count now) rows))

abbrev pub or_take_over : Option Uuid → Result Key → Result Key
or_take_over (some report_id) next = ok (answered report_id)
or_take_over none next = next

abbrev pub report_of : SubmitIdempotencyModel → Option Uuid
report_of idem = if str_eq idem.status "succeeded" then idem.resulting_report_id else none

-- the branches for the row that the query found
unfoldable pub settle :
    Request
    → Bytes
    → Time
    → List SubmitIdempotencyModel
    → Option SubmitIdempotencyModel
    → Result Key
unfolding take_over
settle request hash now rows none = ok unknown
settle request hash now rows (some idem) = do
  refuse_if (not (bytes_eq idem.request_hash hash) || str_eq idem.status "failed")
      idempotency_conflict
  or_take_over (report_of idem) (
      if str_eq idem.status "in_progress" then take_over request now rows idem else ok (known idem))

-- the row of an unknown key
unfoldable pub new_key : Request → Bytes → Uuid → Time → SubmitIdempotencyModel
new_key request hash idem_id now = record {
  idem_id = idem_id;
  org_id = request.org_id;
  station_id = request.station_id;
  shift_id = request.shift_id;
  idempotency_key = request.idempotency_key;
  request_hash = hash;
  status = "in_progress";
  claim_token = some request.claim_token;
  attempt_count = 1;
  lease_started_at = some now;
  lease_expires_at = some (lease_end now);
  resulting_report_id = none;
  error_detail = none;
  created_at = now;
  updated_at = now;
}

-- The attempt's row, and the table with it.
unfoldable pub begin :
    Request
    → Bytes
    → Uuid
    → Time
    → Key
    → List SubmitIdempotencyModel
    → Uuid × List SubmitIdempotencyModel
unfolding new_key
begin request hash idem_id now unknown rows =
    (idem_id, create (new_key request hash idem_id now) rows)
begin request hash idem_id now (answered report_id) rows = (idem_id, rows)
begin request hash idem_id now (taken own after) rows = (own, after)
begin request hash idem_id now (known idem) rows = (
  idem.idem_id,
  update_where (of_idem idem.idem_id) (begin_attempt request idem.attempt_count now) rows,
)

-- the update at the end of the transaction
abbrev pub mark_succeeded : Uuid → Time → SubmitIdempotencyModel → SubmitIdempotencyModel
mark_succeeded report_id now r = record r {
  status = "succeeded";
  resulting_report_id = some report_id;
  lease_expires_at = none;
  updated_at = now;
}

abbrev pub mark_failed : Time → SubmitIdempotencyModel → SubmitIdempotencyModel
mark_failed now r = record r {
  status = "failed";
  error_detail = some "submit_failed";
  lease_expires_at = none;
  updated_at = now;
}

-- the row that `markSubmitFailed` creates
unfoldable pub failed_key : Request → Bytes → Uuid → Time → SubmitIdempotencyModel
failed_key request hash idem_id now = record {
  idem_id = idem_id;
  org_id = request.org_id;
  station_id = request.station_id;
  shift_id = request.shift_id;
  idempotency_key = request.idempotency_key;
  request_hash = hash;
  status = "failed";
  claim_token = none;
  attempt_count = 1;
  lease_started_at = none;
  lease_expires_at = none;
  resulting_report_id = none;
  error_detail = none;
  created_at = now;
  updated_at = now;
}

-- `markSubmitFailed` after its query
unfoldable pub mark_row :
    Request
    → Bytes
    → Uuid
    → Time
    → List SubmitIdempotencyModel
    → Option SubmitIdempotencyModel
    → List SubmitIdempotencyModel
unfolding failed_key
mark_row request hash idem_id now rows none = create (failed_key request hash idem_id now) rows
mark_row request hash idem_id now rows (some idem) =
    if not (bytes_eq idem.request_hash hash) || str_eq idem.status "succeeded"
    then rows
    else update_where (of_idem idem.idem_id) (mark_failed now) rows

-- `markSubmitFailed`
unfoldable pub mark_submit_failed :
    Request → Bytes → Uuid → Time → List SubmitIdempotencyModel → List SubmitIdempotencyModel
unfolding mark_row
mark_submit_failed request hash idem_id now rows =
    mark_row request hash idem_id now rows (first (of_key request) rows)
