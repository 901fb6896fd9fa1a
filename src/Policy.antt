-- ===== src/Policy.antt =====
-- `CreateRevision` of internal/repository/policy/repository.go and internal/service/policy/service.go:
-- revisions of the policies, which are never changed once they are created.
pub mod Overlap
mod Samples
use pomkita_be.Prelude.{
  first, ℕ, zero, suc, ◌+◌, ◌-◌, ◌*◌, ◌/◌, ◌%◌, ◌^◌, ◌≤◌, ◌<◌, String, ◌≡◌, refl, sym, ap, ◌∙◌, ◌≢◌,
  ◌↔◌, ◌⊎◌, inl, inr, Bool, true, false, not, ◌&&◌, ◌||◌, Option, none, some, List, [], ◌∷◌, ◌++◌,
  map, arith, eq_iff, ltb, leb, ◌==◌, str_eq, if◌then◌else◌, Uuid, Time, nil_uuid, count, is_set,
  create, holds,
}
use pomkita_be.Prelude.Text.{Bytes}
use pomkita_be.Domain.{
  ok, Error, Result, err, domain, wrapped, plain, record_not_found, refuse_if, found_or, ◌>>=◌,
  ◌>>◌, transaction, validation, authorization, conflict, wrap_error,
}
use pomkita_be.Store.{Db}
use pomkita_be.Store.Decimal.{Decimal}
use pomkita_be.Store.Policies.{ThresholdPolicyRevisionModel, EvidencePolicyRevisionModel}
use pomkita_be.Canonical.{Value, object, member, no_members, str, bool}
use pomkita_be.Audit
use pomkita_be.Audit.{append_in_transaction}
use pomkita_be.Submission.Types.{Rational}
use pomkita_be.Submission.Variance.{is_negative}
use pomkita_be.Governance.Copy.{is_unsigned}
use pomkita_be.Reconciliation.{split_point, is_whole}

abbrev pub invalid_policy_request : Error
invalid_policy_request = domain validation "invalid_policy_revision_request"

abbrev pub policy_role_required : Error
policy_role_required = domain authorization "policy_role_required"

abbrev pub tombstone_reason_required : Error
tombstone_reason_required = domain validation "tombstone_reason_required"

abbrev pub policy_overlap : Error
policy_overlap = domain conflict "policy_revision_overlap"

-- What the packages call: `json.Marshal` of a payload, and `big.Rat.SetString`.
pub record Library : Type 0 where
  pub audit : Audit.Library
  pub json_marshal : Value → Bytes
  pub parse_rational : Bytes → Option Rational

pub record PolicyRevisionRequest : Type 0 where
  pub org_id : Uuid
  pub station_id : Uuid
  pub actor_id : Uuid
  pub role : String
  pub policy_kind : String
  pub policy_id : Uuid
  pub supersedes_revision_id : Option Uuid
  pub valid_from : Time
  pub disabled : Bool
  pub tombstone_reason : String
  pub loss_liter_threshold : Decimal
  pub gain_liter_threshold : Decimal
  pub loss_rupiah_threshold : Decimal
  pub gain_rupiah_threshold : Decimal
  pub variance_rupiah_threshold : Decimal
  pub rollover_threshold : Decimal
  pub evidence_mode : String

pub record PolicyRevision : Type 0 where
  pub revision_id : Uuid
  pub policy_id : Uuid
  pub policy_kind : String
  pub valid_from : Time
  pub disabled : Bool

abbrev pub optional_uuid : Uuid → Option Uuid
optional_uuid value = if value == nil_uuid then none else some value

abbrev pub optional_string : String → Option String
optional_string value = if str_eq value "" then none else some value

abbrev pub is_threshold : PolicyRevisionRequest → Bool
is_threshold r = str_eq r.policy_kind "threshold"

-- the station, if the request names one
unfoldable pub check_station : PolicyRevisionRequest → Db → Result (Unit {0})
check_station r db = if r.station_id == nil_uuid then ok tt else (do
  station ←
      found_or invalid_policy_request
        (first (λ s. s.org_id == r.org_id && s.station_id == r.station_id) db.stations)
  ok tt)

-- the query of the actor's roles
abbrev pub policy_roles : PolicyRevisionRequest → Db → ℕ
policy_roles r db =
    count
      (λ x.
        x.org_id == r.org_id
        && x.user_id == r.actor_id
        && str_eq x.role r.role
        && (r.station_id == nil_uuid || x.station_id == r.station_id))
      db.roles

abbrev pub is_policy_role : String → Bool
is_policy_role role = str_eq role "Owner" || str_eq role "Superadmin"

-- `supersededValidFrom`
unfoldable pub superseded_valid_from : PolicyRevisionRequest → Uuid → Db → Result Time
superseded_valid_from r revision_id db =
    if is_threshold r
    then (do
      revision ←
          found_or invalid_policy_request
            (first (λ x. x.org_id == r.org_id && x.rev_id == revision_id) db.threshold_revisions)
      ok revision.valid_from)
    else (do
      revision ←
          found_or invalid_policy_request
            (first (λ x. x.org_id == r.org_id && x.rev_id == revision_id) db.evidence_revisions)
      ok revision.valid_from)

unfoldable pub check_superseded : PolicyRevisionRequest → Db → Option Uuid → Result (Unit {0})
unfolding superseded_valid_from
check_superseded r db none = ok tt
check_superseded r db (some revision_id) = do
  valid_from ← superseded_valid_from r revision_id db
  refuse_if (not (ltb valid_from r.valid_from)) policy_overlap

-- `station_id is null`, or the station of the request
abbrev pub is_scope : PolicyRevisionRequest → Option Uuid → Bool
is_scope r station =
    if r.station_id == nil_uuid then not (is_set station) else holds station r.station_id

abbrev pub is_revision_at : PolicyRevisionRequest → Uuid → Uuid → Time → Option Uuid → Bool
is_revision_at r org policy valid_from station =
    org == r.org_id && policy == r.policy_id && valid_from == r.valid_from && is_scope r station

unfoldable pub duplicates : PolicyRevisionRequest → Db → ℕ
duplicates r db =
    if is_threshold r
    then count (λ x. is_revision_at r x.org_id x.policy_id x.valid_from x.station_id)
        db.threshold_revisions
    else count (λ x. is_revision_at r x.org_id x.policy_id x.valid_from x.station_id)
        db.evidence_revisions

-- What `CreateRevision` tests.
unfoldable pub check_revision : PolicyRevisionRequest → Db → Result (Unit {0})
unfolding check_station check_superseded duplicates
check_revision r db = do
  check_station r db
  refuse_if (policy_roles r db == 0 || not (is_policy_role r.role)) policy_role_required
  check_superseded r db r.supersedes_revision_id
  refuse_if (not (duplicates r db == 0)) policy_overlap

abbrev pub supersedes_org : PolicyRevisionRequest → Option Uuid
supersedes_org r = if is_set r.supersedes_revision_id then some r.org_id else none

unfoldable pub threshold_row :
    (ℕ → Bytes → Bytes) → PolicyRevisionRequest → Uuid → Time → ThresholdPolicyRevisionModel
threshold_row stored r id now = record {
  rev_id = id;
  policy_id = r.policy_id;
  org_id = r.org_id;
  station_id = optional_uuid r.station_id;
  valid_from = r.valid_from;
  supersedes_org_id = supersedes_org r;
  supersedes_rev_id = r.supersedes_revision_id;
  disabled = r.disabled;
  tombstone_reason = optional_string r.tombstone_reason;
  loss_liter_threshold = stored 2 r.loss_liter_threshold;
  gain_liter_threshold = stored 2 r.gain_liter_threshold;
  loss_rupiah_threshold = stored 0 r.loss_rupiah_threshold;
  gain_rupiah_threshold = stored 0 r.gain_rupiah_threshold;
  variance_rupiah_threshold = stored 0 r.variance_rupiah_threshold;
  rollover_threshold = stored 1 r.rollover_threshold;
  created_by = r.actor_id;
  created_at = now;
}

unfoldable pub evidence_row : PolicyRevisionRequest → Uuid → Time → EvidencePolicyRevisionModel
evidence_row r id now = record {
  rev_id = id;
  policy_id = r.policy_id;
  org_id = r.org_id;
  station_id = optional_uuid r.station_id;
  valid_from = r.valid_from;
  supersedes_org_id = supersedes_org r;
  supersedes_rev_id = r.supersedes_revision_id;
  mode = r.evidence_mode;
  disabled = r.disabled;
  tombstone_reason = optional_string r.tombstone_reason;
  created_by = r.actor_id;
  created_at = now;
}

-- the row of the kind
unfoldable pub write_revision : PolicyRevisionRequest → Uuid → Time → Db → Db
unfolding threshold_row evidence_row
write_revision r id now db =
    if is_threshold r
    then record db {
      threshold_revisions =
          create (threshold_row db.stored_numeric r id now) db.threshold_revisions;
    }
    else record db { evidence_revisions = create (evidence_row r id now) db.evidence_revisions }

abbrev pub created_event : Library → PolicyRevisionRequest → Uuid → Audit.AppendRequest
created_event lib r id = record {
  org_id = r.org_id;
  event_id = id;
  event_type = "policy.revision.created";
  payload = lib.json_marshal (
      object (
        member "revision_id" (str (lib.audit.uuid_string id)) (
          member "policy_id" (str (lib.audit.uuid_string r.policy_id)) (
            member "policy_kind" (str r.policy_kind) (
              member "station_id"
                (str (if r.station_id == nil_uuid then "" else lib.audit.uuid_string r.station_id))
                (member "disabled" (bool r.disabled) no_members))))));
  outcome = "success";
  outcome_error = "";
}

-- `CreateRevision` of the repository. With a station its row is locked from the first check on. A
-- request without one takes no lock: this is its course when no other call comes between.
unfoldable pub create_revision :
    Library → PolicyRevisionRequest → Uuid → Time → Db → Result (PolicyRevision × Db)
unfolding check_revision write_revision
create_revision lib r id now db = do
  check_revision r db
  (event, final) ←
      wrap_error "append policy audit event"
        (append_in_transaction lib.audit (created_event lib r id) now (write_revision r id now db))
  ok (
    record {
      revision_id = id;
      policy_id = r.policy_id;
      policy_kind = r.policy_kind;
      valid_from = r.valid_from;
      disabled = r.disabled;
    },
    final,
  )

-- a number that is read and is not negative
abbrev pub is_positive_or_zero : Option Rational → Bool
is_positive_or_zero none = false
is_positive_or_zero (some n) = not (is_negative n)

-- `nonNegativeDecimal`; its pattern refuses a blank text
unfoldable pub non_negative_decimal : Library → Decimal → Bool
unfolding split_point is_whole
non_negative_decimal lib value =
    is_unsigned (split_point value) && is_positive_or_zero (lib.parse_rational value)

-- the switch on the kind
unfoldable pub check_kind : Library → PolicyRevisionRequest → Result (Unit {0})
unfolding non_negative_decimal
check_kind lib r =
    if is_threshold r
    then refuse_if
        (not (non_negative_decimal lib r.loss_liter_threshold)
          || not (non_negative_decimal lib r.gain_liter_threshold)
          || not (non_negative_decimal lib r.loss_rupiah_threshold)
          || not (non_negative_decimal lib r.gain_rupiah_threshold)
          || not (non_negative_decimal lib r.variance_rupiah_threshold)
          || not (non_negative_decimal lib r.rollover_threshold))
        invalid_policy_request
    else if str_eq r.policy_kind "evidence"
    then refuse_if (not (str_eq r.evidence_mode "wajib") && not (str_eq r.evidence_mode "opsional"))
        invalid_policy_request
    else err invalid_policy_request

abbrev pub has_reason : Library → PolicyRevisionRequest → Bool
has_reason lib r = not (str_eq (lib.audit.trim_space r.tombstone_reason) "")

-- What `CreateRevision` of the service tests.
unfoldable pub validate_revision : Library → PolicyRevisionRequest → Result (Unit {0})
unfolding check_kind
validate_revision lib r = do
  refuse_if
      (r.org_id == nil_uuid
        || r.policy_id == nil_uuid
        || r.valid_from == 0
        || str_eq r.policy_kind "")
      invalid_policy_request
  refuse_if (not (is_policy_role r.role)) policy_role_required
  refuse_if (r.disabled && not (has_reason lib r)) tombstone_reason_required
  refuse_if (not r.disabled && has_reason lib r) invalid_policy_request
  check_kind lib r

-- `CreateRevision` of the service, whose repository and clock may be missing
unfoldable pub service_create_revision :
    Library → Option Db → Option Time → PolicyRevisionRequest → Uuid → Result (PolicyRevision × Db)
unfolding validate_revision create_revision
service_create_revision lib repository clock r id = do
  db ← found_or invalid_policy_request repository
  now ← found_or invalid_policy_request clock
  validate_revision lib r
  create_revision lib r id now db
