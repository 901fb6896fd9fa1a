-- ===== src/Submission/Policy.antt =====
-- The policies of a submission: `ensureThresholdSnapshot` and `ensureEvidenceSnapshot` of
-- internal/repository/submission/repository.go keep the policy that applies as an item of the shift.
use pomkita_be.Prelude.{
  length, first, select, pick, create, is_set, String, Bool, true, false, not, ◌&&◌, ◌||◌, Option,
  none, some, List, [], ◌∷◌, ltb, leb, ◌==◌, str_eq, if◌then◌else◌, Uuid, Time, holds,
}
use pomkita_be.Prelude.Text.{Bytes, codes}
use pomkita_be.Domain.{ok, Result, wrapped, refuse_if, found_or, ◌>>=◌, ◌>>◌}
use pomkita_be.Canonical.{pos}
use pomkita_be.Store.Policies.{
  PolicySnapshotItemModel, ThresholdPolicyRevisionModel, EvidencePolicyRevisionModel,
  EvidencePolicyTypeModel,
}
use pomkita_be.Submission.Types.{
  Request, Library, FreshIds, ThresholdSnapshot, EvidenceSnapshotType, invalid_submit_request,
}

-- the snapshot of one kind in the set of the shift
abbrev pub of_kind : Request → Uuid → String → PolicySnapshotItemModel → Bool
of_kind request set_id kind item =
    item.org_id == request.org_id
    && item.station_id == request.station_id
    && item.shift_id == request.shift_id
    && item.set_id == set_id
    && str_eq item.policy_kind kind

-- `disabled = false and valid_from <= now and (station_id = ? or station_id is null)`
abbrev pub applies : Request → Time → Uuid → Bool → Time → Option Uuid → Bool
applies request now org_id disabled valid_from station_id =
    org_id == request.org_id
    && not disabled
    && leb valid_from now
    && (holds station_id request.station_id || not (is_set station_id))

-- `Order("station_id is not null desc").Order("valid_from desc")`, and then by the key
abbrev pub goes_first : Option Uuid → Time → Uuid → Option Uuid → Time → Uuid → Bool
goes_first station valid_from id station' valid_from' id' =
    if is_set station && not (is_set station')
    then true
    else if is_set station' && not (is_set station)
    then false
    else if valid_from == valid_from'
    then ltb id id'
    else ltb valid_from' valid_from

unfoldable pub threshold_policy :
    Request → Time → List ThresholdPolicyRevisionModel → Option ThresholdPolicyRevisionModel
threshold_policy request now revisions =
    pick (λ a b. goes_first a.station_id a.valid_from a.rev_id b.station_id b.valid_from b.rev_id)
      (select (λ r. applies request now r.org_id r.disabled r.valid_from r.station_id) revisions)

-- the revision that is created where no policy applies
abbrev pub default_threshold_policy : Request → FreshIds → Time → ThresholdPolicyRevisionModel
default_threshold_policy request ids now = record {
  rev_id = ids.threshold_rev_id;
  policy_id = ids.threshold_policy_id;
  org_id = request.org_id;
  station_id = none;
  valid_from = now;
  supersedes_org_id = none;
  supersedes_rev_id = none;
  disabled = false;
  tombstone_reason = none;
  loss_liter_threshold = codes "10.00";
  gain_liter_threshold = codes "0.00";
  loss_rupiah_threshold = codes "0";
  gain_rupiah_threshold = codes "0";
  variance_rupiah_threshold = codes "0";
  rollover_threshold = codes "10.0";
  created_by = request.actor_id;
  created_at = now;
}

-- `payload` of `ensureThresholdSnapshot`
abbrev pub threshold_snapshot : ThresholdPolicyRevisionModel → ThresholdSnapshot
threshold_snapshot r = record {
  hash_version = 1;
  loss_liter_threshold = r.loss_liter_threshold;
  gain_liter_threshold = r.gain_liter_threshold;
  loss_rupiah_threshold = r.loss_rupiah_threshold;
  gain_rupiah_threshold = r.gain_rupiah_threshold;
  variance_rupiah_threshold = r.variance_rupiah_threshold;
  rollover_threshold = r.rollover_threshold;
}

abbrev pub scope_of : Option Uuid → String
scope_of station_id = if is_set station_id then "station" else "organization"

unfoldable pub snapshot_item :
    Library
    → Request
    → Uuid
    → Uuid
    → String
    → Uuid
    → Uuid
    → Option Uuid
    → Bytes
    → PolicySnapshotItemModel
snapshot_item lib request item_id set_id kind policy_id rev_id station_id encoded = record {
  item_id = item_id;
  org_id = request.org_id;
  station_id = request.station_id;
  shift_id = request.shift_id;
  set_id = set_id;
  policy_kind = kind;
  policy_id = policy_id;
  rev_id = rev_id;
  scope = scope_of station_id;
  payload = encoded;
  payload_hash = lib.audit.encoding.sha256 encoded;
}

-- The policy tables that a submission writes.
pub record PolicyTables : Type 0 where
  pub items : List PolicySnapshotItemModel
  pub threshold_revisions : List ThresholdPolicyRevisionModel

-- the policy that was found, or the default one, which is created
abbrev pub resolve_threshold :
    Request
    → FreshIds
    → Time
    → List ThresholdPolicyRevisionModel
    → Option ThresholdPolicyRevisionModel
    → ThresholdPolicyRevisionModel × List ThresholdPolicyRevisionModel
resolve_threshold request ids now revisions (some r) = (r, revisions)
resolve_threshold request ids now revisions none =
    let r = default_threshold_policy request ids now in (r, create r revisions)

-- `ensureThresholdSnapshot` after its first query; the result has the rollover threshold
unfoldable pub threshold_of :
    Library
    → Request
    → Uuid
    → FreshIds
    → Time
    → PolicyTables
    → Option PolicySnapshotItemModel
    → Result (Bytes × PolicyTables)
unfolding threshold_policy snapshot_item
threshold_of lib request set_id ids now tables (some item) = do
  payload ←
      found_or (wrapped "decode threshold policy snapshot" invalid_submit_request)
        (lib.decode_threshold item.payload)
  refuse_if (length payload.rollover_threshold == 0)
      (wrapped "decode threshold policy snapshot" invalid_submit_request)
  ok (payload.rollover_threshold, tables)
threshold_of lib request set_id ids now tables none =
    let (r, revisions) =
      resolve_threshold request ids now tables.threshold_revisions
        (threshold_policy request now tables.threshold_revisions) in
    let item =
      snapshot_item lib request ids.threshold_item_id set_id "threshold" r.policy_id r.rev_id
        r.station_id (lib.encode_threshold (threshold_snapshot r)) in
    ok (
      r.rollover_threshold,
      record { items = create item tables.items; threshold_revisions = revisions },
    )

-- `ensureThresholdSnapshot`
unfoldable pub ensure_threshold_snapshot :
    Library → Request → Uuid → FreshIds → Time → PolicyTables → Result (Bytes × PolicyTables)
unfolding threshold_of
ensure_threshold_snapshot lib request set_id ids now tables =
    threshold_of lib request set_id ids now tables
      (first (of_kind request set_id "threshold") tables.items)

unfoldable pub evidence_policy :
    Request → Time → List EvidencePolicyRevisionModel → Option EvidencePolicyRevisionModel
evidence_policy request now revisions =
    pick (λ a b. goes_first a.station_id a.valid_from a.rev_id b.station_id b.valid_from b.rev_id)
      (select (λ r. applies request now r.org_id r.disabled r.valid_from r.station_id) revisions)

-- the loop over the types of a policy
abbrev pub snapshot_types : Library → List EvidencePolicyTypeModel → List EvidenceSnapshotType
snapshot_types lib [] = []
snapshot_types lib (t ∷ ts) =
    record {
      kind = t.evidence_type;
      minimum_count_per_loss = pos t.minimum_count_per_loss;
      accepted_mime_types = lib.audit.encoding.sort_strings t.accepted_mime_types;
    }
    ∷ snapshot_types lib ts

-- `ensureEvidenceSnapshot` once no snapshot was found
unfoldable pub evidence_of :
    Library
    → Request
    → Uuid
    → FreshIds
    → List EvidencePolicyTypeModel
    → List PolicySnapshotItemModel
    → Option EvidencePolicyRevisionModel
    → Result (List PolicySnapshotItemModel)
unfolding snapshot_item
evidence_of lib request set_id ids types items none = ok items
evidence_of lib request set_id ids types items (some r) = do
  let own = select (λ t. t.org_id == r.org_id && t.rev_id == r.rev_id) types
  refuse_if (length own == 0) (wrapped "evidence policy has no types" invalid_submit_request)
  let encoded =
      lib.encode_evidence (record {
        hash_version = 1;
        mode = r.mode;
        types = snapshot_types lib (lib.order_types own);
      })
  ok (
      create
        (snapshot_item lib request ids.evidence_item_id set_id "evidence" r.policy_id r.rev_id
          r.station_id encoded)
        items)

-- `ensureEvidenceSnapshot`
unfoldable pub ensure_evidence_snapshot :
    Library
    → Request
    → Uuid
    → FreshIds
    → Time
    → List EvidencePolicyRevisionModel
    → List EvidencePolicyTypeModel
    → List PolicySnapshotItemModel
    → Result (List PolicySnapshotItemModel)
unfolding evidence_of evidence_policy
ensure_evidence_snapshot lib request set_id ids now revisions types items =
    if is_set (first (of_kind request set_id "evidence") items)
    then ok items
    else evidence_of lib request set_id ids types items (evidence_policy request now revisions)
