-- ===== src/Governance/Amendment/Pending.antt =====
-- `RequestAmendment` and the pending amendments of a report.
use pomkita_be.Prelude.{
  count, count-append, create, ℕ, ◌≡◌, sym, ap, ◌∙◌, ◌≢◌, inl, inr, true, [], ◌∷◌, ◌++◌, arith,
  Uuid, Time,
}
use pomkita_be.Prelude.Text.{Bytes}
use pomkita_be.Domain.{Result-cases, ok}
use pomkita_be.Store.{Db}
use pomkita_be.Store.Reports.{ShiftReportModel}
use pomkita_be.Audit.{append_in_transaction}
use pomkita_be.Audit.Append.{append-frame}
use pomkita_be.Governance.Types.{Library, Amendment, AmendmentRequest}
use pomkita_be.Governance.Acknowledge.{role_count}
use pomkita_be.Governance.Amendment.{
  of_pending, check_request, check_items, report_snapshot_hash, amendment_row, item_rows,
  requested_event, request_amendment,
}

check_request-free :
    (request : AmendmentRequest) (db : Db) (report : ShiftReportModel)
    → check_request request db ≡ ok report
    → (count (of_pending request.org_id request.station_id request.base_report_id) db.amendments
        ≡ 0)
      × (role_count request.org_id request.station_id request.requester_id "Supervisor" db ≡ 1)
      × (check_items request.items ≡ ok tt)
unfolding check_request
check_request-free request db report h = ground arith

request-steps :
    (lib : Library) (request : AmendmentRequest) (id : Uuid) (item_ids : ℕ → Uuid) (now : Time)
    (db db' : Db) (a : Amendment)
    → request_amendment lib request id item_ids now db ≡ ok (a, db')
    → (report : ShiftReportModel) × (check_request request db ≡ ok report)
      × (a.stale_check_hash ≡ report_snapshot_hash lib report db)
      × (db'.amendments
          ≡ db.amendments
            ++ amendment_row lib request id (report_snapshot_hash lib report db) now ∷ [])
      × (db'.amendment_items ≡ db.amendment_items ++ item_rows request id item_ids 0 request.items)
unfolding request_amendment amendment_row
request-steps lib request id item_ids now db db' a h =
    elim (Result-cases (check_request request db)) [
      | inl (f, e) ↦ absurd (ground (arith, e))
      | inr (report, e) ↦
          let row = amendment_row lib request id (report_snapshot_hash lib report db) now in
          let written : Db = record db {
            amendments = create row db.amendments;
            amendment_items = db.amendment_items ++ item_rows request id item_ids 0 request.items;
          } in
          elim (Result-cases
            (append_in_transaction lib.audit (requested_event lib request id) now written)) [
              | inl (f, q) ↦ absurd (ground (arith, e, q))
              | inr ((event, final), q) ↦
                  let same : final ≡ db' = ground (arith, e, q) in
                  let (_, _, _, _, _, amendments, items, _) =
                    append-frame lib.audit (requested_event lib request id) now written final event
                      q in
                  (
                    report,
                    e,
                    ground (arith, e, q),
                    ap (λ (x : Db). x.amendments) (sym same) ∙ amendments,
                    ap (λ (x : Db). x.amendment_items) (sym same) ∙ items,
                  )
            ]
    ]

row-pending :
    (lib : Library) (request : AmendmentRequest) (id : Uuid) (hash : Bytes) (now : Time)
    → of_pending request.org_id request.station_id request.base_report_id
        (amendment_row lib request id hash now)
      ≡ true
unfolding amendment_row
row-pending lib request id hash now = ground arith

-- After a successful request exactly one amendment of its base report at the station is pending.
pub request-one_pending :
    (lib : Library) (request : AmendmentRequest) (id : Uuid) (item_ids : ℕ → Uuid) (now : Time)
    (db db' : Db) (a : Amendment)
    → request_amendment lib request id item_ids now db ≡ ok (a, db')
    → count (of_pending request.org_id request.station_id request.base_report_id) db'.amendments ≡ 1
request-one_pending lib request id item_ids now db db' a h =
    let p = of_pending request.org_id request.station_id request.base_report_id in
    let (report, checked, _, amendments, _) =
      request-steps lib request id item_ids now db db' a h in
    let (free, _, _) = check_request-free request db report checked in
    let row = amendment_row lib request id (report_snapshot_hash lib report db) now in
    let pending = row-pending lib request id (report_snapshot_hash lib report db) now in
    rw amendments (ground (arith, count-append p db.amendments row, free, pending))

-- On the database that a successful request leaves, every request for the same base report of the
-- station fails.
pub request-exclusive :
    (lib : Library) (request other : AmendmentRequest) (id id' : Uuid)
    (item_ids item_ids' : ℕ → Uuid) (now later : Time) (db db' db'' : Db) (a b : Amendment)
    → request_amendment lib request id item_ids now db ≡ ok (a, db')
    → other.org_id ≡ request.org_id
    → other.station_id ≡ request.station_id
    → other.base_report_id ≡ request.base_report_id
    → request_amendment lib other id' item_ids' later db' ≢ ok (b, db'')
request-exclusive lib request other id id' item_ids item_ids' now later db db' db'' a b h o s r
      done =
    let one = request-one_pending lib request id item_ids now db db' a h in
    let (report, checked, _, _, _) = request-steps lib other id' item_ids' later db' db'' b done in
    let (free, _, _) = check_request-free other db' report checked in
    let zero_left : count (of_pending request.org_id request.station_id request.base_report_id)
          db'.amendments
        ≡ 0 =
      rw (o, s, r) at free in
    omega (arith, one, zero_left)
