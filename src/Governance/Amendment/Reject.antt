-- ===== src/Governance/Amendment/Reject.antt =====
-- `RejectAmendment`: the checks and what it changes.
use pomkita_be.Prelude.{
  first, first-holds, first-update_where, update_where, Option-cases, String, ◌≡◌, sym, ap, ◌∙◌,
  ◌≢◌, inl, inr, true, false, some, arith, str_eq, Uuid, Time,
}
use pomkita_be.Domain.{Result-cases, ok}
use pomkita_be.Store.{Db}
use pomkita_be.Store.Amendments.{AmendmentModel}
use pomkita_be.Audit.{append_in_transaction}
use pomkita_be.Audit.Append.{append-frame}
use pomkita_be.Governance.Types.{Library, RejectAmendmentRequest, is_approver}
use pomkita_be.Governance.Acknowledge.{role_count}
use pomkita_be.Governance.Amendment.{
  of_amendment, check_reject, mark_rejected, rejected_event, reject_amendment,
}

check-pending :
    (lib : Library) (request : RejectAmendmentRequest) (db : Db) (reason : String)
    → check_reject lib request db ≡ ok reason
    → (a : AmendmentModel) × (first (of_amendment request) db.amendments ≡ some a)
      × (str_eq a.status "pending" ≡ true)
      × (a.requester_user_id ≢ request.approver_id)
      × (is_approver request.role ≡ true)
      × (role_count request.org_id request.station_id request.approver_id request.role db ≡ 1)
      × (str_eq reason "" ≡ false)
unfolding check_reject
check-pending lib request db reason h =
    elim (Option-cases (first (of_amendment request) db.amendments)) [
      | inl e ↦ absurd (ground (arith, e))
      | inr (a, e) ↦ (
        a,
        e,
        ground (arith, e),
        ground (arith, e),
        ground (arith, e),
        ground (arith, e),
        ground (arith, e),
      )
    ]

reject-steps :
    (lib : Library) (request : RejectAmendmentRequest) (event_id : Uuid) (now : Time) (db db' : Db)
    → reject_amendment lib request event_id now db ≡ ok (tt, db')
    → (reason : String) × (check_reject lib request db ≡ ok reason)
      × (db'.amendments
          ≡ update_where
              (of_amendment request)
              (mark_rejected request.approver_id reason now)
              db.amendments)
unfolding reject_amendment
reject-steps lib request event_id now db db' h = elim (Result-cases (check_reject lib request db)) [
  | inl (f, e) ↦ absurd (ground (arith, e))
  | inr (reason, e) ↦
      let written : Db = record db {
        amendments =
            update_where (of_amendment request) (mark_rejected request.approver_id reason now)
              db.amendments;
      } in
      elim (Result-cases (
        append_in_transaction lib.audit (rejected_event lib request event_id reason) now written)) [
          | inl (f, q) ↦ absurd (ground (arith, e, q))
          | inr ((event, final), q) ↦
              let same : final ≡ db' = ground (arith, e, q) in
              let (_, _, _, _, _, amendments, _, _) =
                append-frame lib.audit (rejected_event lib request event_id reason) now written
                  final event q in
              (reason, e, ap (λ (x : Db). x.amendments) (sym same) ∙ amendments)
        ]
]

-- A rejection succeeds only for an approver with that role at the station who did not request the
-- amendment, on a pending amendment; it becomes rejected by that approver at that time, with a reason
-- that is not empty.
pub reject-effect :
    (lib : Library) (request : RejectAmendmentRequest) (event_id : Uuid) (now : Time) (db db' : Db)
    → reject_amendment lib request event_id now db ≡ ok (tt, db')
    → (a : AmendmentModel) × (reason : String) × (first (of_amendment request) db.amendments
        ≡ some a)
      × (str_eq a.status "pending" ≡ true)
      × (a.requester_user_id ≢ request.approver_id)
      × (is_approver request.role ≡ true)
      × (role_count request.org_id request.station_id request.approver_id request.role db ≡ 1)
      × (str_eq reason "" ≡ false)
      × (first (of_amendment request) db'.amendments
          ≡ some (mark_rejected request.approver_id reason now a))
unfolding mark_rejected
reject-effect lib request event_id now db db' h =
    let (reason, checked, amendments) = reject-steps lib request event_id now db db' h in
    let (a, e, pending, differs, role, member, named) =
      check-pending lib request db reason checked in
    (
      a,
      reason,
      e,
      pending,
      differs,
      role,
      member,
      named,
      ap (first (of_amendment request)) amendments
          ∙ first-update_where (of_amendment request) (mark_rejected request.approver_id reason now)
              db.amendments a e (first-holds (of_amendment request) db.amendments a e),
    )

-- On the database that a successful rejection leaves, rejecting the same amendment fails.
pub reject-once :
    (lib : Library) (request again : RejectAmendmentRequest) (event_id event_id' : Uuid)
    (now later : Time) (db db' db'' : Db)
    → reject_amendment lib request event_id now db ≡ ok (tt, db')
    → again.org_id ≡ request.org_id
    → again.station_id ≡ request.station_id
    → again.amendment_id ≡ request.amendment_id
    → reject_amendment lib again event_id' later db' ≢ ok (tt, db'')
unfolding mark_rejected
reject-once lib request again event_id event_id' now later db db' db'' h o s t done =
    let (a, reason, _, _, _, _, _, _, row) = reject-effect lib request event_id now db db' h in
    let (b, _, row', pending, _, _, _, _, _) =
      reject-effect lib again event_id' later db' db'' done in
    let there : first (of_amendment request) db'.amendments ≡ some b = rw (o, s, t) at row' in
    let same : b ≡ mark_rejected request.approver_id reason now a = cc (there, row) in
    ground (arith, pending, ap (λ (x : AmendmentModel). str_eq x.status "pending") same)
