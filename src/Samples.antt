-- ===== src/Samples.antt =====
-- A small database for the tests: one organization with one station.
use pomkita_be.Prelude.{true, none, [], ◌∷◌}
use pomkita_be.Domain.{ok, Result, err}
use pomkita_be.Store.{Db}
use pomkita_be.Store.Tenants.{OrganizationModel, StationModel}

-- The state and the value of a result, with what stands for them after an error.
abbrev pub state_of {ℓ} : {A S : Type ℓ} → Result (A × S) → S → S
state_of (ok (a, s)) d = s
state_of (err e) d = d

abbrev pub value_of {ℓ} : {A S : Type ℓ} → Result (A × S) → A → A
value_of (ok (a, s)) d = a
value_of (err e) d = d

abbrev pub sample_organization : OrganizationModel
sample_organization = record {
  org_id = 1;
  name = "Pomkita";
  legal_name = none;
  address = none;
  contact_email = none;
  timezone = none;
  enabled = true;
  updated_at = none;
  created_at = 0;
}

abbrev pub sample_station : StationModel
sample_station = record {
  org_id = 1;
  station_id = 2;
  name = "Station";
  code = none;
  address = none;
  enabled = true;
  updated_at = none;
  timezone = "Asia/Jakarta";
  created_at = 0;
}

abbrev pub sample_db : Db
sample_db = record {
  organizations = sample_organization ∷ [];
  stations = sample_station ∷ [];
  roles = [];
  shifts = [];
  drafts = [];
  draft_readings = [];
  draft_sales = [];
  draft_losses = [];
  draft_evidence = [];
  reports = [];
  readings = [];
  sales = [];
  losses = [];
  ack_heads = [];
  ack_decisions = [];
  supersessions = [];
  amendments = [];
  amendment_items = [];
  alert_rules = [];
  alert_events = [];
  audit_log = [];
  audit_outbox = [];
  relay_states = [];
  idempotencies = [];
  policy_sets = [];
  policy_items = [];
  threshold_revisions = [];
  evidence_revisions = [];
  evidence_types = [];
  loss_identities = [];
  evidence_events = [];
  meter_resets = [];
  baselines = [];
  current_baselines = [];
  stored_numeric = λ k text. text;
}
