-- ===== src/Store.antt =====
-- internal/repository/store: the rows of the database, and the database as one value.
pub mod Decimal
pub mod Tenants
pub mod Shifts
pub mod Reports
pub mod Drafts
pub mod Acks
pub mod Amendments
pub mod Alerts
pub mod AuditRows
pub mod Submissions
pub mod Policies
pub mod Evidence
pub mod Meters
use pomkita_be.Prelude.Text.{Bytes}
use pomkita_be.Prelude.{ℕ, Uuid, String, List}
use pomkita_be.Store.Tenants.{OrganizationModel, StationModel}
use pomkita_be.Store.Shifts.{ShiftModel, ShiftDraftModel}
use pomkita_be.Store.Reports.{
  ShiftReportModel, DispenserReadingModel, SalesDeclaredModel, LossEntryModel,
}
use pomkita_be.Store.Drafts.{
  DraftReadingModel, DraftSalesModel, DraftLossModel, DraftEvidenceStagingModel,
}
use pomkita_be.Store.Acks.{AckDecisionModel, AckHeadModel, AckSupersessionModel}
use pomkita_be.Store.Amendments.{AmendmentModel, AmendmentItemModel}
use pomkita_be.Store.Alerts.{AlertRuleModel, AlertEventModel}
use pomkita_be.Store.AuditRows.{AuditLogModel, AuditOutboxModel, OutboxRelayStateModel}
use pomkita_be.Store.Submissions.{SubmitIdempotencyModel}
use pomkita_be.Store.Policies.{
  PolicySnapshotSetModel, PolicySnapshotItemModel, ThresholdPolicyRevisionModel,
  EvidencePolicyRevisionModel, EvidencePolicyTypeModel,
}
use pomkita_be.Store.Evidence.{LossIdentityModel, EvidenceEventModel}
use pomkita_be.Store.Meters.{
  MeterResetEventModel, NozzleBaselineRevisionModel, NozzleBaselineCurrentModel,
}

-- A row of the table `user_station_roles`.
pub record RoleRow : Type 0 where
  pub org_id : Uuid
  pub station_id : Uuid
  pub user_id : Uuid
  pub role : String

-- The tables that the modelled operations read and write, and what a column of the type
-- numeric(_, k) gives back for a decimal that is written to it, which it rounds to k digits.
pub record Db : Type 0 where
  pub organizations : List OrganizationModel
  pub stations : List StationModel
  pub roles : List RoleRow
  pub shifts : List ShiftModel
  pub drafts : List ShiftDraftModel
  pub draft_readings : List DraftReadingModel
  pub draft_sales : List DraftSalesModel
  pub draft_losses : List DraftLossModel
  pub draft_evidence : List DraftEvidenceStagingModel
  pub reports : List ShiftReportModel
  pub readings : List DispenserReadingModel
  pub sales : List SalesDeclaredModel
  pub losses : List LossEntryModel
  pub ack_heads : List AckHeadModel
  pub ack_decisions : List AckDecisionModel
  pub supersessions : List AckSupersessionModel
  pub amendments : List AmendmentModel
  pub amendment_items : List AmendmentItemModel
  pub alert_rules : List AlertRuleModel
  pub alert_events : List AlertEventModel
  pub audit_log : List AuditLogModel
  pub audit_outbox : List AuditOutboxModel
  pub relay_states : List OutboxRelayStateModel
  pub idempotencies : List SubmitIdempotencyModel
  pub policy_sets : List PolicySnapshotSetModel
  pub policy_items : List PolicySnapshotItemModel
  pub threshold_revisions : List ThresholdPolicyRevisionModel
  pub evidence_revisions : List EvidencePolicyRevisionModel
  pub evidence_types : List EvidencePolicyTypeModel
  pub loss_identities : List LossIdentityModel
  pub evidence_events : List EvidenceEventModel
  pub meter_resets : List MeterResetEventModel
  pub baselines : List NozzleBaselineRevisionModel
  pub current_baselines : List NozzleBaselineCurrentModel
  pub stored_numeric : ℕ → Bytes → Bytes
