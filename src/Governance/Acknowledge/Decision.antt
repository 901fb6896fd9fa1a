-- ===== src/Governance/Acknowledge/Decision.antt =====
-- `Acknowledge`: the checks, the decision, and what it changes.
use pomkita_be.Prelude.{
  All, All-weaken, count, count-none, max_of-bounds, eq_iff, ltb, List, first, holds,
  first-update_where_keyed, first-update_where, first-holds, Bool-cases, Option-cases, ◌+◌, String,
  ◌≡◌, refl, sym, ap, ◌∙◌, ◌≢◌, inl, inr, true, false, Option, none, some, [], ◌∷◌, ◌++◌, arith,
  str_eq, if◌then◌else◌, Uuid, Time, ◌<◌, ◌⊎◌, ◌&&◌, ◌==◌,
}
use pomkita_be.Domain.{Result-cases, ok, err}
use pomkita_be.Store.{Db}
use pomkita_be.Store.Shifts.{ShiftModel}
use pomkita_be.Store.Reports.{ShiftReportModel, SalesDeclaredModel, LossEntryModel}
use pomkita_be.Store.Acks.{AckHeadModel, AckDecisionModel}
use pomkita_be.Scope.{require_enabled, require_enabled-cong}
use pomkita_be.Audit.{append_in_transaction}
use pomkita_be.Audit.Append.{append-frame}
use pomkita_be.Governance.Types.{
  Library, AcknowledgeRequest, Acknowledgement, is_approver, ack_report_unavailable,
}
use pomkita_be.Governance.Acknowledge.{
  audit_request, of_station, of_shift, of_head, of_report, role_count, created_report_data_by_actor,
  check_acknowledge, apply_acknowledge, acknowledge, decision_row, decided_status, last_seq,
}

-- a row of the report that the request names
abbrev pub IsReport : AcknowledgeRequest → Uuid → Uuid → Uuid → Uuid → Type 0
IsReport request org station shift report =
    (org ≡ request.org_id)
    × (station ≡ request.station_id)
    × (shift ≡ request.shift_id)
    × (report ≡ request.report_id)

not_entered :
    {A : Type 0} (request : AcknowledgeRequest) (org station shift report created : A → Uuid)
    (xs : List A)
    → ltb 0 (
        count
          (λ x.
            org x == request.org_id
            && station x == request.station_id
            && shift x == request.shift_id
            && report x == request.report_id
            && created x == request.actor_id)
          xs)
      ≡ false
    → All
        (λ x.
          IsReport request (org x) (station x) (shift x) (report x) → created x ≢ request.actor_id)
        xs
not_entered request org station shift report created xs h =
    All-weaken
      (λ x.
        (org x == request.org_id
          && station x == request.station_id
          && shift x == request.shift_id
          && report x == request.report_id
          && created x == request.actor_id)
        ≡ false)
      (λ x.
        IsReport request (org x) (station x) (shift x) (report x) → created x ≢ request.actor_id)
      xs (λ x miss (o, s, t, r) own. absurd (ground (arith, miss, o, s, t, r, own)))
      (count-none _ xs h)

approver-role :
    (role : String)
    → is_approver role ≡ true
    → (role ≡ "Station Admin") ⊎ (role ≡ "Owner") ⊎ (role ≡ "Superadmin")
approver-role role h = elim (Bool-cases (str_eq role "Station Admin")) [
  | inl a ↦ inl ((eq_iff role "Station Admin").0 a)
  | inr x ↦ elim (Bool-cases (str_eq role "Owner")) [
    | inl b ↦ inr (inl ((eq_iff role "Owner").0 b))
    | inr y ↦ inr (inr ((eq_iff role "Superadmin").0 (ground (arith, h, x, y))))
  ]
]

data-separate :
    (request : AcknowledgeRequest) (db : Db)
    → created_report_data_by_actor request request.actor_id db ≡ false
    → All
        (λ (x : SalesDeclaredModel).
          IsReport request x.org_id x.station_id x.shift_id x.report_id
          → x.created_by ≢ request.actor_id)
        db.sales
      × All
          (λ (x : LossEntryModel).
            IsReport request x.org_id x.station_id x.shift_id x.report_id
            → x.created_by ≢ request.actor_id)
          db.losses
unfolding created_report_data_by_actor
data-separate request db h = (
  not_entered request (λ (x : SalesDeclaredModel). x.org_id) (λ x. x.station_id) (λ x. x.shift_id)
      (λ x. x.report_id) (λ x. x.created_by) db.sales (ground (arith, h)),
  not_entered request (λ (x : LossEntryModel). x.org_id) (λ x. x.station_id) (λ x. x.shift_id)
      (λ x. x.report_id) (λ x. x.created_by) db.losses (ground (arith, h)),
)

-- What the checks establish about the database before the decision.
abbrev pub Permitted : AcknowledgeRequest → Db → Type 0
Permitted request db =
    (shift : ShiftModel) × (report : ShiftReportModel) × (head : AckHeadModel) × (first
        (of_shift request.org_id request.station_id request.shift_id) db.shifts
      ≡ some shift)
    × (holds shift.current_report_id request.report_id ≡ true)
    × (str_eq shift.status "awaiting_confirmation" ≡ true)
    × (first (of_head request) db.ack_heads ≡ some head)
    × (head.active_ack_id ≡ none)
    × (first (of_report request) db.reports ≡ some report)
    × (report.submitted_by ≢ request.actor_id)
    × (All
          (λ (x : SalesDeclaredModel).
            IsReport request x.org_id x.station_id x.shift_id x.report_id
            → x.created_by ≢ request.actor_id)
          db.sales
        × All
            (λ (x : LossEntryModel).
              IsReport request x.org_id x.station_id x.shift_id x.report_id
              → x.created_by ≢ request.actor_id)
            db.losses)
    × ((request.role ≡ "Station Admin") ⊎ (request.role ≡ "Owner") ⊎ (request.role ≡ "Superadmin"))
    × (role_count request.org_id request.station_id request.actor_id request.role db ≡ 1)

pub check-Permitted :
    (lib : Library) (request : AcknowledgeRequest) (db : Db) (r : Option String × Option String)
    → check_acknowledge lib request db ≡ ok r
    → Permitted request db
unfolding check_acknowledge
check-Permitted lib request db r h =
    elim (Option-cases
      (first (of_shift request.org_id request.station_id request.shift_id) db.shifts)) [
        | inl e ↦ absurd (ground (arith, e))
        | inr (shift, e) ↦ elim (Option-cases (first (of_report request) db.reports)) [
          | inl f ↦ absurd (ground (arith, e, f))
          | inr (report, f) ↦ elim (Option-cases (first (of_head request) db.ack_heads)) [
            | inl g ↦ absurd (ground (arith, e, f, g))
            | inr (head, g) ↦ (
              shift,
              report,
              head,
              e,
              ground (arith, e, f, g),
              ground (arith, e, f, g),
              g,
              ground (arith, e, f, g),
              f,
              ground (arith, e, f, g),
              data-separate request db (ground (arith, e, f, g)),
              approver-role request.role (ground (arith, e, f, g)),
              ground (arith, e, f, g),
            )
          ]
        ]
      ]

-- A successful acknowledgement: its checks, its rows and its audit event.
pub acknowledge-steps :
    (lib : Library) (request : AcknowledgeRequest) (ack_id : Uuid) (now : Time) (db db' : Db)
    (a : Acknowledgement)
    → acknowledge lib request ack_id now db ≡ ok (a, db')
    → (r : Option String × Option String) × (check_acknowledge lib request db ≡ ok r)
      × (db'.shifts ≡ (apply_acknowledge request ack_id r now db).shifts)
      × (db'.ack_heads ≡ (apply_acknowledge request ack_id r now db).ack_heads)
      × (db'.ack_decisions ≡ (apply_acknowledge request ack_id r now db).ack_decisions)
      × (db'.organizations ≡ db.organizations)
      × (db'.stations ≡ db.stations)
      × (a.shift_status ≡ decided_status request.decision)
unfolding acknowledge
acknowledge-steps lib request ack_id now db db' a h =
    elim (Result-cases (check_acknowledge lib request db)) [
      | inl (f, e) ↦ absurd (ground (arith, e))
      | inr (r, e) ↦
          let written = apply_acknowledge request ack_id r now db in
          elim (Result-cases
            (append_in_transaction lib.audit (audit_request lib request ack_id) now written)) [
              | inl (f, q) ↦ absurd (ground (arith, e, q))
              | inr ((event, final), q) ↦
                  let same : final ≡ db' = ground (arith, e, q) in
                  let (orgs, stations, shifts, heads, decisions, _, _, _) =
                    append-frame lib.audit (audit_request lib request ack_id) now written final
                      event q in
                  (
                    r,
                    e,
                    ap (λ (x : Db). x.shifts) (sym same) ∙ shifts,
                    ap (λ (x : Db). x.ack_heads) (sym same) ∙ heads,
                    ap (λ (x : Db). x.ack_decisions) (sym same) ∙ decisions,
                    ap (λ (x : Db). x.organizations) (sym same) ∙ orgs,
                    ap (λ (x : Db). x.stations) (sym same) ∙ stations,
                    ground (arith, e, q),
                  )
            ]
    ]

-- An acknowledgement succeeds only for a Station Admin, an Owner or a Superadmin with that role at
-- the station, who neither submitted the report nor entered one of its rows of sales or losses (its
-- meter readings are not looked at), on the current report of a shift that awaits
-- confirmation and whose version has no active decision.
pub acknowledge-Permitted :
    (lib : Library) (request : AcknowledgeRequest) (ack_id : Uuid) (now : Time) (db db' : Db)
    (a : Acknowledgement)
    → acknowledge lib request ack_id now db ≡ ok (a, db')
    → Permitted request db
acknowledge-Permitted lib request ack_id now db db' a h =
    let (r, checked, _, _, _, _, _, _) = acknowledge-steps lib request ack_id now db db' a h in
    check-Permitted lib request db r checked

shift-decided :
    (request : AcknowledgeRequest) (ack_id : Uuid) (r : Option String × Option String) (now : Time)
    (db : Db) (shift : ShiftModel)
    → first (of_shift request.org_id request.station_id request.shift_id) db.shifts ≡ some shift
    → first
        (of_shift request.org_id request.station_id request.shift_id)
        (apply_acknowledge request ack_id r now db).shifts
      ≡ some (record shift { status = decided_status request.decision })
unfolding apply_acknowledge
shift-decided request ack_id r now db shift e =
    let p = of_shift request.org_id request.station_id request.shift_id in
    first-update_where_keyed p p (λ s. record s { status = decided_status request.decision })
      db.shifts shift (λ y. refl) e
    ∙ (let held = first-holds p db.shifts shift e in rw held refl)

head-decided :
    (request : AcknowledgeRequest) (ack_id : Uuid) (r : Option String × Option String) (now : Time)
    (db : Db) (head : AckHeadModel)
    → first (of_head request) db.ack_heads ≡ some head
    → first (of_head request) (apply_acknowledge request ack_id r now db).ack_heads
      ≡ some (record head { active_ack_id = some ack_id })
unfolding apply_acknowledge
head-decided request ack_id r now db head g =
    first-update_where (of_head request) (λ h. record h { active_ack_id = some ack_id })
      db.ack_heads head g (first-holds (of_head request) db.ack_heads head g)

decision-appended :
    (request : AcknowledgeRequest) (ack_id : Uuid) (r : Option String × Option String) (now : Time)
    (db : Db)
    → (apply_acknowledge request ack_id r now db).ack_decisions
      ≡ db.ack_decisions ++ decision_row request ack_id (last_seq request db + 1) r now ∷ []
unfolding apply_acknowledge
decision-appended request ack_id r now db = refl

check-enabled :
    (lib : Library) (request : AcknowledgeRequest) (db : Db) (r : Option String × Option String)
    → check_acknowledge lib request db ≡ ok r
    → (require_enabled db request.org_id request.station_id ≡ ok tt)
      × (first (of_station request.org_id request.station_id) db.stations ≢ none)
unfolding check_acknowledge
check-enabled lib request db r h = (ground arith, ground arith)

decided-not-awaiting :
    (decision : String) → str_eq (decided_status decision) "awaiting_confirmation" ≡ false
decided-not-awaiting decision = elim (Bool-cases (str_eq decision "acked")) [
  | inl e ↦ rw e refl
  | inr e ↦ rw e refl
]

refused-unavailable :
    (lib : Library) (request : AcknowledgeRequest) (db : Db) (shift : ShiftModel)
    → require_enabled db request.org_id request.station_id ≡ ok tt
    → first (of_station request.org_id request.station_id) db.stations ≢ none
    → first (of_shift request.org_id request.station_id request.shift_id) db.shifts ≡ some shift
    → str_eq shift.status "awaiting_confirmation" ≡ false
    → check_acknowledge lib request db ≡ err ack_report_unavailable
unfolding check_acknowledge
refused-unavailable lib request db shift enabled there e status = ground (arith, enabled, e)

-- a decision on the report version that the request names
abbrev pub IsVersion : AcknowledgeRequest → AckDecisionModel → Type 0
IsVersion request d =
    (d.org_id ≡ request.org_id)
    × (d.station_id ≡ request.station_id)
    × (d.shift_id ≡ request.shift_id)
    × (d.report_id ≡ request.report_id)
    × (d.version_no ≡ request.version_no)

-- a decision as the request states it
abbrev pub IsDecisionOf : AcknowledgeRequest → Uuid → Time → AckDecisionModel → Type 0
IsDecisionOf request ack_id now d =
    (d.ack_id ≡ ack_id)
    × IsVersion request d
    × (d.decision ≡ request.decision)
    × (d.actor_user_id ≡ request.actor_id)
    × (d.decided_at ≡ now)

earlier-below :
    (request : AcknowledgeRequest) (db : Db)
    → All
        (λ (d : AckDecisionModel). IsVersion request d → d.ack_seq < last_seq request db + 1)
        db.ack_decisions
unfolding last_seq
earlier-below request db =
    All-weaken _ _ db.ack_decisions
      (λ d below (o, s, t, r, v). below (ground (arith, o, s, t, r, v)))
      (max_of-bounds (λ (d : AckDecisionModel). d.ack_seq)
        (λ d.
          d.org_id == request.org_id
          && d.station_id == request.station_id
          && d.shift_id == request.shift_id
          && d.report_id == request.report_id
          && d.version_no == request.version_no)
        db.ack_decisions (last_seq request db + 1) (omega arith))

-- A successful acknowledgement locks the shift if the decision is "acked", and else sends it back for
-- correction. It appends one decision, which has the request's decision, actor, time and report version,
-- is the active one of the version, and has a greater number than all earlier decisions on it.
pub acknowledge-effect :
    (lib : Library) (request : AcknowledgeRequest) (ack_id : Uuid) (now : Time) (db db' : Db)
    (a : Acknowledgement)
    → acknowledge lib request ack_id now db ≡ ok (a, db')
    → (shift : ShiftModel) × (head : AckHeadModel) × (decided : AckDecisionModel) × (first
          (of_shift request.org_id request.station_id request.shift_id)
          db'.shifts
        ≡ some (record shift {
          status = if str_eq request.decision "acked" then "locked" else "needs_correction";
        }))
      × (first (of_head request) db'.ack_heads ≡ some (record head { active_ack_id = some ack_id }))
      × (db'.ack_decisions ≡ db.ack_decisions ++ decided ∷ [])
      × IsDecisionOf request ack_id now decided
      × All
          (λ (d : AckDecisionModel). IsVersion request d → d.ack_seq < decided.ack_seq)
          db.ack_decisions
unfolding decision_row
acknowledge-effect lib request ack_id now db db' a h =
    let (r, checked, shifts, heads, decisions, _, _, _) =
      acknowledge-steps lib request ack_id now db db' a h in
    let (shift, report, head, e, _, _, g, _, _, _, _, _, _) =
      check-Permitted lib request db r checked in
    (
      shift,
      head,
      decision_row request ack_id (last_seq request db + 1) r now,
      ap (first (of_shift request.org_id request.station_id request.shift_id)) shifts
          ∙ shift-decided request ack_id r now db shift e,
      ap (first (of_head request)) heads ∙ head-decided request ack_id r now db head g,
      decisions ∙ decision-appended request ack_id r now db,
      (refl, (refl, refl, refl, refl, refl), refl, refl, refl),
      earlier-below request db,
    )

-- On the database that a successful acknowledgement leaves, every acknowledgement of the same
-- shift, by whomever, of whichever report and whenever, is refused with `ack_report_unavailable`.
pub acknowledge-once :
    (lib : Library) (request again : AcknowledgeRequest) (ack_id ack_id' : Uuid) (now later : Time)
    (db db' : Db) (a : Acknowledgement)
    → acknowledge lib request ack_id now db ≡ ok (a, db')
    → again.org_id ≡ request.org_id
    → again.station_id ≡ request.station_id
    → again.shift_id ≡ request.shift_id
    → acknowledge lib again ack_id' later db' ≡ err ack_report_unavailable
unfolding acknowledge
acknowledge-once lib request again ack_id ack_id' now later db db' a h o s t =
    let (r, checked, shifts, _, _, orgs, stations, _) =
      acknowledge-steps lib request ack_id now db db' a h in
    let (shift, _, _, e, _, _, _, _, _, _, _, _, _) = check-Permitted lib request db r checked in
    let (enabled, there) = check-enabled lib request db r checked in
    let row =
      ap (first (of_shift request.org_id request.station_id request.shift_id)) shifts
      ∙ shift-decided request ack_id r now db shift e in
    let refused =
      refused-unavailable lib again db' (record shift { status = decided_status request.decision })
        (rw (o, s)
          (require_enabled-cong db db' request.org_id request.station_id orgs stations ∙ enabled))
        (rw (o, s, stations) there) (rw (o, s, t) row) (decided-not-awaiting request.decision) in
    rw refused refl
