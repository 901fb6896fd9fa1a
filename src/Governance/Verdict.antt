-- ===== src/Governance/Verdict.antt =====
-- The two decisions on an amendment as one, and that they are final.
use pomkita_be.Prelude.{
  first, ◌≡◌, refl, ◌≢◌, Bool, true, false, ◌&&◌, some, arith, ◌==◌, str_eq, Uuid, Time,
}
use pomkita_be.Domain.{ok, >>=-ok, Result, ◌>>=◌}
use pomkita_be.Store.{Db}
use pomkita_be.Store.Amendments.{AmendmentModel}
use pomkita_be.Governance.Types.{Library, ApproveAmendmentRequest, RejectAmendmentRequest}
use pomkita_be.Governance.Amendment.{reject_amendment, mark_rejected}
use pomkita_be.Governance.Amendment.Reject.{reject-effect}
use pomkita_be.Governance.Copy.{FreshIds}
use pomkita_be.Governance.Approve.{approve_amendment}
use pomkita_be.Governance.Applied.{approve-IsApplied}

-- An approval or a rejection, with what `uuid.New` returns.
pub data Verdict : Type 0 where
  approval : ApproveAmendmentRequest → FreshIds → Verdict
  rejection : RejectAmendmentRequest → Uuid → Verdict

abbrev pub org_of : Verdict → Uuid
org_of (approval r ids) = r.org_id
org_of (rejection r id) = r.org_id

abbrev pub station_of : Verdict → Uuid
station_of (approval r ids) = r.station_id
station_of (rejection r id) = r.station_id

abbrev pub amendment_of : Verdict → Uuid
amendment_of (approval r ids) = r.amendment_id
amendment_of (rejection r id) = r.amendment_id

unfoldable pub give : Library → Verdict → Time → Db → Result Db
give lib (approval r ids) now db = do (amendment, db') ← approve_amendment lib r ids now db; ok db'
give lib (rejection r id) now db = do (done, db') ← reject_amendment lib r id now db; ok db'

abbrev pub of_id : Uuid → Uuid → Uuid → AmendmentModel → Bool
of_id org station id a = a.org_id == org && a.station_id == station && a.amendment_id == id

-- A verdict finds its amendment pending, and leaves it otherwise.
given-pending :
    (lib : Library) (v : Verdict) (now : Time) (db db' : Db)
    → give lib v now db ≡ ok db'
    → ((a : AmendmentModel) × (first
            (of_id (org_of v) (station_of v) (amendment_of v))
            db.amendments
          ≡ some a)
        × (str_eq a.status "pending" ≡ true))
      × ((a : AmendmentModel) × (first
              (of_id (org_of v) (station_of v) (amendment_of v))
              db'.amendments
            ≡ some a)
          × (str_eq a.status "pending" ≡ false))
unfolding give mark_rejected
given-pending lib (approval r ids) now db db' h =
    let ((amendment, final), e, h1) = >>=-ok (approve_amendment lib r ids now db) _ h in
    let same : final ≡ db' = ground (arith, h1) in
    let (b, able, _, _, left) = approve-IsApplied lib r ids now db final amendment e in
    ((b.amendment, able.found, able.pending), rw⁻¹ same (_, left, refl))
given-pending lib (rejection r id) now db db' h =
    let ((done, final), e, h1) = >>=-ok (reject_amendment lib r id now db) _ h in
    let same : final ≡ db' = ground (arith, h1) in
    let (a, reason, found, pending, _, _, _, _, left) = reject-effect lib r id now db final e in
    ((a, found, pending), rw⁻¹ same (_, left, refl))

-- A decision on an amendment is final: after an approval or a rejection no approval and no rejection
-- of the same amendment succeeds on the resulting database, by whomever and whenever.
pub verdict-once :
    (lib : Library) (v v' : Verdict) (now later : Time) (db db' db'' : Db)
    → give lib v now db ≡ ok db'
    → org_of v' ≡ org_of v
    → station_of v' ≡ station_of v
    → amendment_of v' ≡ amendment_of v
    → give lib v' later db' ≢ ok db''
verdict-once lib v v' now later db db' db'' h org station id again =
    let (_, (a, left, decided)) = given-pending lib v now db db' h in
    let ((a', found, pending), _) = given-pending lib v' later db' db'' again in
    let found' : first (of_id (org_of v) (station_of v) (amendment_of v)) db'.amendments ≡ some a' =
      rw (org, station, id) at found in
    ground (arith, left, found', decided, pending)
