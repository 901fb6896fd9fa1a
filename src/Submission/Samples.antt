-- ===== src/Submission/Samples.antt =====
-- The theorems about submissions at a concrete draft.
use pomkita_be.Prelude.{
  All, first, pick, select, last_of, update_where, max_of, ◌+◌, ◌≡◌, refl, ◌≢◌, true, false, none,
  some, [], ◌∷◌, arith,
}
use pomkita_be.Prelude.Text.{codes}
use pomkita_be.Domain.{ok, err, wrapped, has_code}
use pomkita_be.Samples.{sample_db}
use pomkita_be.Audit.Samples.{sample_library}
use pomkita_be.Store.{Db}
use pomkita_be.Store.Shifts.{ShiftModel, ShiftDraftModel}
use pomkita_be.Store.Drafts.{DraftReadingModel}
use pomkita_be.Submission.Types.{
  invalid_submit_request, Request, Outcome, Library, FreshIds, ThresholdSnapshot,
  idempotency_conflict,
}
use pomkita_be.Scope.{require_enabled}
use pomkita_be.Canonical.{marshal}
use pomkita_be.Audit.{append_in_transaction, audit_row_hash}
use pomkita_be.Reconciliation.{
  validate_meter_start, calculate_meter_delta, calculate_expected_sale_rupiah, parse_decimal,
}
use pomkita_be.Submission.Key.{settle, begin}
use pomkita_be.Submission.Policy.{ensure_threshold_snapshot, ensure_evidence_snapshot}
use pomkita_be.Submission.Promote.{
  report_readings, reset_value, baseline_value, predecessor_end, report_losses, report_sales,
}
use pomkita_be.Submission.Staged.{validate_staged_evidence, evidence_events}
use pomkita_be.Submission.Variance.{variance_alerts}
use pomkita_be.Submission.Service.{submit}
use pomkita_be.Submission.Key.{failed_key}
use pomkita_be.Submission.Transaction.{promote_draft_children}
use pomkita_be.Submission.Answers.{retry, submit-replay, submit-reuse}
use pomkita_be.Submission.Single.{Files, submit-Files, submit-once}
use pomkita_be.Submission.Settled.{IsSettled, submit-IsSettled, submit-failed}

abbrev thresholds : ThresholdSnapshot
thresholds = record {
  hash_version = 1;
  loss_liter_threshold = codes "10.00";
  gain_liter_threshold = codes "0.00";
  loss_rupiah_threshold = codes "0";
  gain_rupiah_threshold = codes "0";
  variance_rupiah_threshold = codes "0";
  rollover_threshold = codes "10.0";
}

abbrev pub library : Library
library = record {
  audit = sample_library;
  json_marshal = λ v. codes "{}";
  decode_payload = λ b. some (record { readings = []; losses = [] });
  decode_catalog =
      λ b. some (record { nozzle_id = "uuid"; modulus = codes "1000"; price = codes "7" } ∷ []);
  decode_threshold = λ b. some thresholds;
  encode_threshold = λ t. codes "{}";
  decode_evidence = λ b. none;
  encode_evidence = λ e. codes "{}";
  parse_uuid = λ s. none;
  parse_rational = λ b. some (record { above = 0; below = 0; units = 1 });
  canonical_json = λ b. some b;
  order_types = λ l. l;
  trim_space = λ b. b;
}

abbrev pub fresh : FreshIds
fresh = record {
  idem_id = 100;
  failed_idem_id = 101;
  set_id = 102;
  threshold_rev_id = 103;
  threshold_policy_id = 104;
  threshold_item_id = 105;
  evidence_item_id = 106;
  report_id = 107;
  reading_id = λ n. 200 + n;
  sales_id = λ n. 300 + n;
  loss_row_id = λ n. 400 + n;
  evidence_event_id = λ n. 500 + n;
  alert_event_id = λ n. 600 + n;
}

abbrev pub request : Request
request = record {
  org_id = 1;
  station_id = 2;
  shift_id = 3;
  draft_id = 4;
  claim_token = 5;
  expected_revision = 1;
  actor_id = 6;
  idempotency_key = "key";
  payload = codes "{}";
}

abbrev pub shift : ShiftModel
shift = record {
  shift_id = 3;
  org_id = 1;
  station_id = 2;
  station_seq = 1;
  supervisor_id = 9;
  opened_at = 10;
  closed_at = none;
  timezone_snapshot = "Asia/Jakarta";
  business_date = "2026-01-01";
  status = "open";
  current_report_id = none;
  original_event_date = none;
  shift_ke = none;
  backfilled = false;
  backfill_approver = none;
  backfill_approved_at = none;
  backfill_reason = none;
  shift_price_map_snapshot = [];
  shift_price_map_hash = [];
  created_at = 10;
}

abbrev pub draft : ShiftDraftModel
draft = record {
  draft_id = 4;
  org_id = 1;
  station_id = 2;
  shift_id = 3;
  owned_by = some 6;
  claim_token = some 5;
  claim_expires_at = some 100;
  status = "editing";
  revision = 1;
  updated_by = none;
  recovery_count = 0;
  updated_at = 11;
}

abbrev row : DraftReadingModel
row = record {
  row_id = 30;
  org_id = 1;
  station_id = 2;
  draft_id = 4;
  nozzle_id = 40;
  meter_start = codes "10";
  meter_end = codes "12";
  created_by = 6;
}

abbrev pub ready : Db
ready = record sample_db { shifts = shift ∷ []; drafts = draft ∷ []; draft_readings = row ∷ [] }

abbrev outcome : Outcome
outcome = record { report_id = 107; replay = false; request_hash = [] }

-- the database after the first submission
abbrev filed : Db
unfolding submit
filed = (submit library request fresh (codes "h") (codes "{}") 20 ready).1

filed_is : submit library request fresh (codes "h") (codes "{}") 20 ready ≡ (ok outcome, filed)
unfolding submit require_enabled first settle ensure_threshold_snapshot ensure_evidence_snapshot
    pick select report_readings validate_meter_start last_of reset_value baseline_value
    predecessor_end calculate_meter_delta calculate_expected_sale_rupiah report_losses
    validate_staged_evidence variance_alerts report_sales evidence_events append_in_transaction
    audit_row_hash marshal begin update_where max_of parse_decimal
filed_is = refl

submit-replay_example :
    submit library (retry request 50 60 9) fresh (codes "h") (codes "x") 90 filed
    ≡ (ok (record { report_id = 107; replay = true; request_hash = [] }), filed)
submit-replay_example =
    submit-replay library request fresh fresh (codes "h") (codes "{}") (codes "x") 20 90 ready filed
      outcome 50 60 9 filed_is

submit-reuse_example :
    submit library (retry request 50 60 9) fresh (codes "g") (codes "x") 90 filed
    ≡ (err idempotency_conflict, filed)
submit-reuse_example =
    submit-reuse library request fresh fresh (codes "h") (codes "g") (codes "{}") (codes "x") 20 90
      ready filed outcome 50 60 9 filed_is (λ e. ground (arith, e))

submit-Files_example : Files request 20 ready outcome filed
submit-Files_example =
    submit-Files library request fresh (codes "h") (codes "{}") 20 ready filed outcome filed_is refl

abbrev replay : Outcome
replay = record { report_id = 107; replay = true; request_hash = [] }

replay_is : submit library request fresh (codes "h") (codes "{}") 90 filed ≡ (ok replay, filed)
replay_is =
    submit-replay library request fresh fresh (codes "h") (codes "{}") (codes "{}") 20 90 ready
      filed outcome 5 6 1 filed_is

submit-once_example : (replay.replay ≡ true) × (filed ≡ filed)
submit-once_example =
    submit-once library request request fresh fresh (codes "h") (codes "h") (codes "{}")
      (codes "{}") 20 90 ready filed filed outcome replay filed_is refl refl refl refl replay_is

submit-IsSettled_example :
    All IsSettled (submit library request fresh (codes "h") (codes "{}") 20 ready).1.idempotencies
submit-IsSettled_example =
    submit-IsSettled library request fresh (codes "h") (codes "{}") 20 ready tt

-- a library that cannot decode the payload
abbrev broken : Library
broken = record library { decode_payload = λ b. none }

abbrev refused : Db
refused = record ready { idempotencies = failed_key request (codes "h") 101 20 ∷ [] }

refused_is :
    submit broken request fresh (codes "h") (codes "{}") 20 ready
    ≡ (err (wrapped "decode submit payload" invalid_submit_request), refused)
unfolding submit require_enabled first settle ensure_threshold_snapshot ensure_evidence_snapshot
    pick select report_readings validate_meter_start last_of reset_value baseline_value
    predecessor_end calculate_meter_delta calculate_expected_sale_rupiah report_losses
    validate_staged_evidence variance_alerts report_sales evidence_events append_in_transaction
    audit_row_hash marshal begin update_where max_of parse_decimal
refused_is = refl

submit-failed_example :
    (refused ≡ refused)
    × (submit library request fresh (codes "h") (codes "{}") 90 refused ≢ (ok outcome, filed))
unfolding first has_code
submit-failed_example =
    submit-failed broken library request request fresh fresh (codes "h") (codes "h") (codes "{}")
      (codes "{}") 20 90 ready refused filed
      (wrapped "decode submit payload" invalid_submit_request) outcome refl refused_is refl refl
      refl refl refl

abbrev promoted : Db
unfolding promote_draft_children
promoted =
    elim (promote_draft_children library fresh shift draft (codes "{}") (codes "10.0") 20 ready) [
      | ok db ↦ db
      | err e ↦ ready
    ]
