-- ===== src/Policy/Overlap.antt =====
-- What the creation of a revision for a station leaves to the next one.
use pomkita_be.Prelude.{
  nil_uuid, count-append, ◌≡◌, refl, ap, ◌≢◌, inl, inr, true, false, not, ◌||◌, arith, ◌==◌, str_eq,
  Uuid, Time, Bool-cases,
}
use pomkita_be.Domain.{ok, passed, >>=-ok}
use pomkita_be.Store.{Db}
use pomkita_be.Audit.{append_in_transaction}
use pomkita_be.Policy.{
  Library, PolicyRevisionRequest, PolicyRevision, is_threshold, is_scope, is_revision_at,
  duplicates, check_revision, check_station, check_superseded, write_revision, threshold_row,
  evidence_row, create_revision, policy_roles, is_policy_role, policy_role_required, optional_uuid,
  nil_uuid,
}

-- The scope of a new row is the scope of its request.
own_scope :
    (r r' : PolicyRevisionRequest)
    → r'.station_id ≡ r.station_id
    → is_scope r' (optional_uuid r.station_id) ≡ true
own_scope r r' same = elim (Bool-cases (r.station_id == nil_uuid)) [
  | inl none_named ↦ rw (same, none_named) refl
  | inr named ↦ rw (same, named) (ground arith)
]

-- the requests name the same policy, kind, scope and time
abbrev pub IsSamePlace : PolicyRevisionRequest → PolicyRevisionRequest → Type 0
IsSamePlace r r' =
    (r'.org_id ≡ r.org_id)
    × (r'.station_id ≡ r.station_id)
    × (r'.policy_id ≡ r.policy_id)
    × (r'.valid_from ≡ r.valid_from)
    × (r'.policy_kind ≡ r.policy_kind)

own_place :
    (r r' : PolicyRevisionRequest)
    → IsSamePlace r r'
    → is_revision_at r' r.org_id r.policy_id r.valid_from (optional_uuid r.station_id) ≡ true
own_place r r' (org, station, policy, from, kind) =
    let scope = own_scope r r' station in ground (arith, org, policy, from, scope)

write_revision-duplicates :
    (r r' : PolicyRevisionRequest) (id : Uuid) (now : Time) (db : Db)
    → IsSamePlace r r'
    → (duplicates r' (write_revision r id now db) == 0) ≡ false
unfolding duplicates write_revision threshold_row evidence_row
write_revision-duplicates r r' id now db same =
    let place = own_place r r' same in
    let kind : is_threshold r' ≡ is_threshold r = ap (λ k. str_eq k "threshold") same.4 in
    elim (Bool-cases (is_threshold r)) [
      | inl is ↦
          let grown =
            count-append (λ x. is_revision_at r' x.org_id x.policy_id x.valid_from x.station_id)
              db.threshold_revisions (threshold_row db.stored_numeric r id now) in
          rw (kind, is) (ground (arith, grown, place))
      | inr other ↦
          let grown =
            count-append (λ x. is_revision_at r' x.org_id x.policy_id x.valid_from x.station_id)
              db.evidence_revisions (evidence_row r id now) in
          rw (kind, other) (ground (arith, grown, place))
    ]

created-duplicates :
    (lib : Library) (r r' : PolicyRevisionRequest) (id : Uuid) (now : Time) (db db' : Db)
    (v : PolicyRevision)
    → create_revision lib r id now db ≡ ok (v, db')
    → duplicates r' db' ≡ duplicates r' (write_revision r id now db)
unfolding create_revision append_in_transaction duplicates
created-duplicates lib r r' id now db db' v h =
    let (_, _, h1) = >>=-ok (check_revision r db) _ h in
    let state : (db'.threshold_revisions ≡ (write_revision r id now db).threshold_revisions)
        × (db'.evidence_revisions ≡ (write_revision r id now db).evidence_revisions) =
      ground (arith, h1) in
    rw (state.0, state.1) refl

-- On the database that the creation of a revision of a station leaves, no revision of the same kind,
-- policy, station and time is created, by whomever and whenever. The station's row is locked, so
-- that no other creation for the station comes between the test and the write; nothing is said of
-- the revisions of a whole organization, for which the code takes no lock.
pub create_revision-once :
    (lib : Library) (r r' : PolicyRevisionRequest) (id id' : Uuid) (now later : Time)
    (db db' db'' : Db) (v v' : PolicyRevision)
    → create_revision lib r id now db ≡ ok (v, db')
    → r.station_id ≢ nil_uuid
    → IsSamePlace r r'
    → create_revision lib r' id' later db' ≢ ok (v', db'')
unfolding create_revision check_revision
create_revision-once lib r r' id id' now later db db' db'' v v' h named same again =
    let (_, checked, _) = >>=-ok (check_revision r' db') _ again in
    let (_, _, c1) = >>=-ok (check_station r' db') _ checked in
    let (_, c2) =
      passed (policy_roles r' db' == 0 || not (is_policy_role r'.role)) policy_role_required c1 in
    let (_, _, c3) = >>=-ok (check_superseded r' db' r'.supersedes_revision_id) _ c2 in
    let found = write_revision-duplicates r r' id now db same in
    let left = created-duplicates lib r r' id now db db' v h in ground (arith, c3, found, left)
