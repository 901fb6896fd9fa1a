-- ===== src/Store/Policies.antt =====
-- internal/repository/store/models.go: policy revisions, and their snapshots in a shift.
use pomkita_be.Prelude.{ℕ, Uuid, Time, String, Bool, Option, List}
use pomkita_be.Prelude.Text.{Bytes}
use pomkita_be.Store.Decimal.{Decimal}

pub record PolicySnapshotSetModel : Type 0 where
  pub set_id : Uuid
  pub org_id : Uuid
  pub station_id : Uuid
  pub shift_id : Option Uuid
  pub created_at : Time

pub record PolicySnapshotItemModel : Type 0 where
  pub item_id : Uuid
  pub org_id : Uuid
  pub station_id : Uuid
  pub shift_id : Uuid
  pub set_id : Uuid
  pub policy_kind : String
  pub policy_id : Uuid
  pub rev_id : Uuid
  pub scope : String
  pub payload : Bytes
  pub payload_hash : Bytes

pub record ThresholdPolicyRevisionModel : Type 0 where
  pub rev_id : Uuid
  pub policy_id : Uuid
  pub org_id : Uuid
  pub station_id : Option Uuid
  pub valid_from : Time
  pub supersedes_org_id : Option Uuid
  pub supersedes_rev_id : Option Uuid
  pub disabled : Bool
  pub tombstone_reason : Option String
  pub loss_liter_threshold : Decimal
  pub gain_liter_threshold : Decimal
  pub loss_rupiah_threshold : Decimal
  pub gain_rupiah_threshold : Decimal
  pub variance_rupiah_threshold : Decimal
  pub rollover_threshold : Decimal
  pub created_by : Uuid
  pub created_at : Time

pub record EvidencePolicyRevisionModel : Type 0 where
  pub rev_id : Uuid
  pub policy_id : Uuid
  pub org_id : Uuid
  pub station_id : Option Uuid
  pub valid_from : Time
  pub supersedes_org_id : Option Uuid
  pub supersedes_rev_id : Option Uuid
  pub mode : String
  pub disabled : Bool
  pub tombstone_reason : Option String
  pub created_by : Uuid
  pub created_at : Time

pub record EvidencePolicyTypeModel : Type 0 where
  pub org_id : Uuid
  pub rev_id : Uuid
  pub evidence_type : String
  pub minimum_count_per_loss : ℕ
  pub accepted_mime_types : List String
