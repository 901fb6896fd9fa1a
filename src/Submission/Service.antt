-- ===== src/Submission/Service.antt =====
-- `Submit` of internal/repository/submission/repository.go with its second transaction, and
-- `Service.Submit` of internal/service/submission/service.go.
use pomkita_be.Prelude.{
  length, nil_uuid, Bool, ◌||◌, Option, none, some, ltb, ◌==◌, if◌then◌else◌, Time,
}
use pomkita_be.Prelude.Text.{Bytes, codes}
use pomkita_be.Domain.{ok, transaction, has_code, Result, err}
use pomkita_be.Store.{Db}
use pomkita_be.Submission.Types.{Request, Outcome, Library, FreshIds, invalid_submit_request}
use pomkita_be.Submission.Key.{mark_submit_failed}
use pomkita_be.Submission.Transaction.{submit_transaction}

-- `Submit` once its transaction has ended
unfoldable pub after_failure :
    Request → FreshIds → Bytes → Time → Result Outcome × Db → Result Outcome × Db
unfolding has_code mark_submit_failed
after_failure request ids hash now (ok outcome, db) = (ok outcome, db)
after_failure request ids hash now (err e, db) =
    if has_code "idempotency_conflict" e then (err e, db) else (
      err e,
      record db {
        idempotencies = mark_submit_failed request hash ids.failed_idem_id now db.idempotencies;
      },
    )

-- `Submit`; the database is the one after both transactions
unfoldable pub submit :
    Library → Request → FreshIds → Bytes → Bytes → Time → Db → Result Outcome × Db
unfolding submit_transaction after_failure
submit lib request ids hash payload now db =
    after_failure request ids hash now
      (transaction (submit_transaction lib request ids hash payload now) db)

-- what a request lacks
unfoldable pub is_incomplete : Library → Request → Bool
is_incomplete lib r =
    r.org_id == nil_uuid
    || r.station_id == nil_uuid
    || r.shift_id == nil_uuid
    || r.draft_id == nil_uuid
    || r.claim_token == nil_uuid
    || r.actor_id == nil_uuid
    || ltb r.expected_revision 1
    || length (lib.trim_space r.payload) == 0
    || length (lib.trim_space (codes r.idempotency_key)) == 0

-- the result with the hash of the request
abbrev pub with_hash : Bytes → Result Outcome × Db → Result Outcome × Db
with_hash hash (ok outcome, db) = (ok (record outcome { request_hash = hash }), db)
with_hash hash (err e, db) = (err e, db)

-- `Service.Submit` once the payload is canonical
unfoldable pub submit_canonical :
    Library → Request → FreshIds → Time → Db → Option Bytes → Result Outcome × Db
unfolding submit
submit_canonical lib request ids now db none = (err invalid_submit_request, db)
submit_canonical lib request ids now db (some payload) =
    let hash = lib.audit.encoding.sha256 payload in
    with_hash hash (submit lib request ids hash payload now db)

-- `Service.Submit` of a service that has a repository and a clock
unfoldable pub service_submit : Library → Request → FreshIds → Time → Db → Result Outcome × Db
unfolding is_incomplete submit_canonical
service_submit lib request ids now db =
    if is_incomplete lib request
    then (err invalid_submit_request, db)
    else submit_canonical lib request ids now db (lib.canonical_json request.payload)
