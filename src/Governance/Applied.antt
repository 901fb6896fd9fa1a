-- ===== src/Governance/Applied.antt =====
-- What an approval of an amendment has checked and what it leaves.
use mathlib.Core.Path.{subst}
use pomkita_be.Prelude.{
  order_by, select, first, first-holds, first-update_where_keyed, create, first-update_where, holds,
  ◌≡◌, refl, ap, ◌∙◌, Bool, true, false, not, ◌&&◌, ◌||◌, Option, none, some, List, [], ◌∷◌, ◌++◌,
  arith, ◌==◌, str_eq, Uuid, Time,
}
use pomkita_be.Prelude.Text.{Bytes}
use pomkita_be.Domain.{ok, >>=-ok, found-some, passed, found_or}
use pomkita_be.Scope.{require_enabled}
use pomkita_be.Store.{Db}
use pomkita_be.Store.Reports.{ShiftReportModel}
use pomkita_be.Store.Amendments.{AmendmentModel, AmendmentItemModel}
use pomkita_be.Audit.{append_in_transaction}
use pomkita_be.Audit.Chain.{bytes_eq_sound}
use pomkita_be.Governance.Types.{Library, Amendment, ApproveAmendmentRequest, is_approver}
use pomkita_be.Governance.Acknowledge.{of_station, of_shift, role_count}
use pomkita_be.Governance.Amendment.{report_snapshot_hash}
use pomkita_be.Governance.Copy.{FreshIds, validate_amendment_items, copy_amended_report_children}
use pomkita_be.Governance.Approve.{
  Base, of_approved, check_base, check_approve, check_hash, next_version, supersede,
  of_version_head, point_to, write_version, apply_approve, approve_amendment,
}

-- What the checks of an approval establish.
pub record Approvable (lib : Library) (request : ApproveAmendmentRequest) (db : Db) (b : Base)
    : Type 0 where
  pub found : first (of_approved request) db.amendments ≡ some b.amendment
  pub pending : str_eq b.amendment.status "pending" ≡ true
  pub approver : is_approver request.role ≡ true
  pub separate :
      (b.amendment.requester_user_id == request.approver_id && not b.amendment.is_break_glass)
      ≡ false
  pub shift_found :
      first (of_shift b.amendment.org_id b.amendment.station_id b.amendment.shift_id) db.shifts
      ≡ some b.shift
  pub current : holds b.shift.current_report_id b.amendment.base_report_id ≡ true
  pub unchanged : request.stale_check_hash ≡ report_snapshot_hash lib b.base db
  pub unchanged_since : b.amendment.stale_check_hash ≡ report_snapshot_hash lib b.base db
  pub valid : validate_amendment_items lib b.base db b.items ≡ ok tt
  pub base_row :
      ((b.base.org_id == b.amendment.org_id
        && b.base.station_id == b.amendment.station_id
        && b.base.shift_id == b.amendment.shift_id
        && b.base.report_id == b.amendment.base_report_id))
      ≡ true

check_hash-facts :
    (request : ApproveAmendmentRequest) (amendment : AmendmentModel) (current : Bytes)
    → check_hash request amendment current ≡ ok tt
    → (request.stale_check_hash ≡ current) × (amendment.stale_check_hash ≡ current)
unfolding check_hash
check_hash-facts request amendment current h = (
  bytes_eq_sound request.stale_check_hash current (ground (arith, h)),
  bytes_eq_sound amendment.stale_check_hash current (ground (arith, h)),
)

base-Approvable :
    (lib : Library) (request : ApproveAmendmentRequest) (amendment : AmendmentModel) (db : Db)
    (b : Base)
    → first (of_approved request) db.amendments ≡ some amendment
    → str_eq amendment.status "pending" ≡ true
    → is_approver request.role ≡ true
    → (amendment.requester_user_id == request.approver_id && not amendment.is_break_glass) ≡ false
    → check_base lib request amendment db ≡ ok b
    → Approvable lib request db b
unfolding check_base
base-Approvable lib request amendment db b found pending approver separate h =
    let (shift, e, h1) =
      >>=-ok
        (found_or _
          (first (of_shift amendment.org_id amendment.station_id amendment.shift_id) db.shifts))
        _ h in
    let (current, h2) =
      passed (not (holds shift.current_report_id amendment.base_report_id)) _ h1 in
    let q = λ (r : ShiftReportModel).
      r.org_id == amendment.org_id
      && r.station_id == amendment.station_id
      && r.shift_id == amendment.shift_id
      && r.report_id == amendment.base_report_id in
    let (base, f, h3) = >>=-ok (found_or _ (first q db.reports)) _ h2 in
    let (_, h4) =
      passed (not (str_eq base.status "submitted") && not (str_eq base.status "locked")) _ h3 in
    let (_, g, h5) =
      >>=-ok (check_hash request amendment (report_snapshot_hash lib base db)) _ h4 in
    let items : List AmendmentItemModel =
      order_by (λ (i : AmendmentItemModel). i.item_id)
        (select
          (λ i.
            i.org_id == amendment.org_id
            && i.station_id == amendment.station_id
            && i.amendment_id == amendment.amendment_id)
          db.amendment_items) in
    let (_, v, h6) = >>=-ok (validate_amendment_items lib base db items) _ h5 in
    let (asked, since) = check_hash-facts request amendment (report_snapshot_hash lib base db) g in
    let read : Base = record {
      amendment = amendment;
      shift = shift;
      base = base;
      current_hash = report_snapshot_hash lib base db;
      items = items;
    } in
    let same : read ≡ b = ground (arith, h6) in
    subst (λ (x : Base). Approvable lib request db x) same
      (record {
        found = found;
        pending = pending;
        approver = approver;
        separate = separate;
        shift_found =
            found-some _
              (first (of_shift amendment.org_id amendment.station_id amendment.shift_id) db.shifts)
              shift e;
        current = ground (arith, current);
        unchanged = asked;
        unchanged_since = since;
        valid = v;
        base_row = first-holds q db.reports base (found-some _ (first q db.reports) base f);
      })

pub approve-Approvable :
    (lib : Library) (request : ApproveAmendmentRequest) (db : Db) (b : Base)
    → check_approve lib request db ≡ ok b
    → Approvable lib request db b
unfolding check_approve
approve-Approvable lib request db b h =
    let (_, _, h1) = >>=-ok (require_enabled db request.org_id request.station_id) _ h in
    let (_, _, h2) =
      >>=-ok (found_or _ (first (of_station request.org_id request.station_id) db.stations)) _ h1 in
    let (amendment, f, h3) = >>=-ok (found_or _ (first (of_approved request) db.amendments)) _ h2 in
    let (role, h4) =
      passed
        (not (role_count request.org_id request.station_id request.approver_id request.role db == 1)
          || not (is_approver request.role))
        _ h3 in
    let (status, h5) = passed (not (str_eq amendment.status "pending")) _ h4 in
    let (separate, h6) =
      passed (amendment.requester_user_id == request.approver_id && not amendment.is_break_glass) _
        h5 in
    base-Approvable lib request amendment db b
      (found-some _ (first (of_approved request) db.amendments) amendment f)
      (ground (arith, status)) (ground (arith, role)) separate h6

-- The tables that the writes of a version keep.
abbrev pub Same : Db → Db → Type 0
Same db db' =
    (db'.organizations ≡ db.organizations)
    × (db'.stations ≡ db.stations)
    × (db'.shifts ≡ db.shifts)
    × (db'.amendments ≡ db.amendments)
    × (db'.reports ≡ db.reports)

Same-copy :
    (lib : Library) (base replacement : ShiftReportModel) (items : List AmendmentItemModel)
    (ids : FreshIds) (db db' : Db)
    → copy_amended_report_children lib base replacement items ids db ≡ ok db'
    → Same db db'
unfolding copy_amended_report_children
Same-copy lib base replacement items ids db db' h = ground arith

Same-supersede :
    (base replacement : ShiftReportModel) (id : Uuid) (now : Time) (ack : Option Uuid) (db : Db)
    → Same db (supersede base replacement id now ack db)
unfolding supersede
Same-supersede base replacement id now none db = (refl, refl, refl, refl, refl)
Same-supersede base replacement id now (some a) db = (refl, refl, refl, refl, refl)

-- A new version and its rows leave the shifts and the amendments as they are.
version-frame :
    (lib : Library) (b : Base) (replacement : ShiftReportModel) (ids : FreshIds) (now : Time)
    (db db' : Db)
    → write_version lib b replacement ids now db ≡ ok db'
    → (db'.organizations ≡ db.organizations)
      × (db'.stations ≡ db.stations)
      × (db'.shifts ≡ db.shifts)
      × (db'.amendments ≡ db.amendments)
      × (db'.reports ≡ create replacement db.reports)
unfolding write_version
version-frame lib b replacement ids now db db' h =
    let start : Db = record db { reports = create replacement db.reports } in
    let (copied, e, h1) =
      >>=-ok (copy_amended_report_children lib b.base replacement b.items ids start) _ h in
    let (orgs, stations, shifts, amendments, reports) =
      Same-copy lib b.base replacement b.items ids start copied e in
    let (head, f, h2) = >>=-ok (found_or _ (first (of_version_head b.base) _)) _ h1 in
    let headed : Db = record copied {
      ack_heads =
          create
            (record {
              org_id = replacement.org_id;
              station_id = replacement.station_id;
              shift_id = replacement.shift_id;
              report_id = replacement.report_id;
              version_no = replacement.version_no;
              active_ack_id = none;
            })
            copied.ack_heads;
    } in
    let (orgs', stations', shifts', amendments', reports') =
      Same-supersede b.base replacement ids.supersession_id now head.active_ack_id headed in
    let same : supersede b.base replacement ids.supersession_id now head.active_ack_id headed
        ≡ db' =
      ground (arith, h2) in
    rw⁻¹ same (
      orgs' ∙ orgs,
      stations' ∙ stations,
      shifts' ∙ shifts,
      amendments' ∙ amendments,
      reports' ∙ reports,
    )

pub applied-rows :
    (lib : Library) (request : ApproveAmendmentRequest) (b : Base) (ids : FreshIds) (now : Time)
    (db db' : Db)
    → apply_approve lib request b ids now db ≡ ok db'
    → (db'.organizations ≡ db.organizations)
      × (db'.stations ≡ db.stations)
      × (db'.shifts ≡ (point_to request b.amendment b.base ids.report_id now db).shifts)
      × (db'.amendments ≡ (point_to request b.amendment b.base ids.report_id now db).amendments)
      × (db'.reports
          ≡ create (next_version b.base ids.report_id request.approver_id now) db.reports)
unfolding apply_approve point_to append_in_transaction
applied-rows lib request b ids now db db' h =
    let replacement = next_version b.base ids.report_id request.approver_id now in
    let (written, e, h1) = >>=-ok (write_version lib b replacement ids now db) _ h in
    let (orgs, stations, shifts, amendments, reports) =
      version-frame lib b replacement ids now db written e in
    (
      ground (arith, h1, orgs),
      ground (arith, h1, stations),
      ground (arith, h1, shifts),
      ground (arith, h1, amendments),
      ground (arith, h1, reports),
    )

-- the amendment's row after the approval
abbrev pub mark_approved : Uuid → Uuid → Time → AmendmentModel → AmendmentModel
mark_approved approver report_id now a = record a {
  status = "approved";
  approver_user_id = some approver;
  decided_at = some now;
  applied_report_id = some report_id;
}

-- The amendment, the report that it is based on and the shift before the approval, and after it the
-- next version, the shift that points to it, and the approved amendment.
abbrev pub IsApplied : Library → ApproveAmendmentRequest → Uuid → Time → Db → Db → Type 0
IsApplied lib request report_id now db db' =
    (b : Base) × Approvable lib request db b
    × (db'.reports ≡ db.reports ++ next_version b.base report_id request.approver_id now ∷ [])
    × (first (of_shift b.amendment.org_id b.amendment.station_id b.amendment.shift_id) db'.shifts
        ≡ some (record b.shift {
          current_report_id = some report_id;
          status = "awaiting_confirmation";
        }))
    × (first (of_approved request) db'.amendments
        ≡ some (mark_approved request.approver_id report_id now b.amendment))

pub base-shift :
    (base : ShiftReportModel) (a : AmendmentModel)
    → (base.org_id == a.org_id
        && base.station_id == a.station_id
        && base.shift_id == a.shift_id
        && base.report_id == a.base_report_id)
      ≡ true
    → (base.org_id ≡ a.org_id) × (base.station_id ≡ a.station_id) × (base.shift_id ≡ a.shift_id)
base-shift base a h = (ground arith, ground arith, ground arith)

shift-pointed :
    (request : ApproveAmendmentRequest) (b : Base) (report_id : Uuid) (now : Time) (db : Db)
    → (b.base.org_id ≡ b.amendment.org_id)
      × (b.base.station_id ≡ b.amendment.station_id)
      × (b.base.shift_id ≡ b.amendment.shift_id)
    → first (of_shift b.amendment.org_id b.amendment.station_id b.amendment.shift_id) db.shifts
      ≡ some b.shift
    → first
        (of_shift b.amendment.org_id b.amendment.station_id b.amendment.shift_id)
        (point_to request b.amendment b.base report_id now db).shifts
      ≡ some
          (record b.shift { current_report_id = some report_id; status = "awaiting_confirmation" })
unfolding point_to
shift-pointed request b report_id now db (org, station, shift_id) e =
    let p = of_shift b.amendment.org_id b.amendment.station_id b.amendment.shift_id in
    rw (org, station, shift_id)
      (first-update_where p
        (λ s. record s { current_report_id = some report_id; status = "awaiting_confirmation" })
        db.shifts b.shift e (first-holds p db.shifts b.shift e))

amendment-approved :
    (request : ApproveAmendmentRequest) (b : Base) (report_id : Uuid) (now : Time) (db : Db)
    → first (of_approved request) db.amendments ≡ some b.amendment
    → first (of_approved request) (point_to request b.amendment b.base report_id now db).amendments
      ≡ some (mark_approved request.approver_id report_id now b.amendment)
unfolding point_to
amendment-approved request b report_id now db e =
    let q : AmendmentModel → Bool = λ a.
      a.org_id == b.amendment.org_id
      && a.station_id == b.amendment.station_id
      && a.amendment_id == b.amendment.amendment_id in
    let own : q b.amendment ≡ true = ground arith in
    first-update_where_keyed (of_approved request) q
      (mark_approved request.approver_id report_id now) db.amendments b.amendment (λ y. refl) e
    ∙ rw own refl

-- An amendment is approved only while it is pending, by an approver other than its requester unless
-- it breaks the glass, on the report that its shift points to, with the hash of that report both in
-- the approval and in the request. Its report gets the next version, which supersedes it, the shift
-- points to that version and awaits its confirmation, and the amendment names it.
pub approve-IsApplied :
    (lib : Library) (request : ApproveAmendmentRequest) (ids : FreshIds) (now : Time) (db db' : Db)
    (a : Amendment)
    → approve_amendment lib request ids now db ≡ ok (a, db')
    → IsApplied lib request ids.report_id now db db'
unfolding approve_amendment
approve-IsApplied lib request ids now db db' a h =
    let (b, e, h1) = >>=-ok (check_approve lib request db) _ h in
    let (final, f, h2) = >>=-ok (apply_approve lib request b ids now db) _ h1 in
    let same : final ≡ db' = ground (arith, h2) in
    let (_, _, shifts, amendments, reports) = applied-rows lib request b ids now db final f in
    let able = approve-Approvable lib request db b e in
    rw⁻¹ same (
      b,
      able,
      reports,
      ap (first (of_shift b.amendment.org_id b.amendment.station_id b.amendment.shift_id)) shifts
          ∙ shift-pointed request b ids.report_id now db
              (base-shift b.base b.amendment able.base_row) able.shift_found,
      ap (first (of_approved request)) amendments
          ∙ amendment-approved request b ids.report_id now db able.found,
    )
