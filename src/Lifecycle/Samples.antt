-- ===== src/Lifecycle/Samples.antt =====
-- A history of one shift: its submission, and the decision on its report.
use pomkita_be.Prelude.{
  pick, select, last_of, update_where, count, first, ◌≡◌, refl, some, List, [], ◌∷◌, map,
}
use pomkita_be.Prelude.Text.{codes}
use pomkita_be.Store.{Db}
use pomkita_be.Scope.{require_enabled}
use pomkita_be.Canonical.{marshal}
use pomkita_be.Audit.{append_in_transaction, audit_row_hash}
use pomkita_be.Reconciliation.{
  validate_meter_start, calculate_meter_delta, calculate_expected_sale_rupiah, parse_decimal,
}
use pomkita_be.Submission.Key.{settle, begin}
use pomkita_be.Submission.Policy.{ensure_threshold_snapshot, ensure_evidence_snapshot}
use pomkita_be.Submission.Promote.{
  report_readings, reset_value, baseline_value, predecessor_end, report_losses, report_sales,
}
use pomkita_be.Submission.Staged.{validate_staged_evidence, evidence_events}
use pomkita_be.Submission.Variance.{variance_alerts}
use pomkita_be.Submission.Service.{submit}
use pomkita_be.Governance.Acknowledge.{
  acknowledge, check_acknowledge, created_report_data_by_actor, acknowledgement_reasons,
}
use pomkita_be.Submission.Samples as Filed
use pomkita_be.Submission.Samples.{ready}
use pomkita_be.Governance.Samples as Decided
use pomkita_be.Governance.Types.{AcknowledgeRequest}
use pomkita_be.Lifecycle.{Steps, Call, submits, decides, run, run_all, phase_of, locked}
use pomkita_be.Lifecycle.Rows.{AllMove}
use pomkita_be.Lifecycle.Refines.{run_all-AllMove}

abbrev before : Db
before = record ready {
  roles = record { org_id = 1; station_id = 2; user_id = 8; role = "Station Admin" } ∷ [];
}

abbrev decision : AcknowledgeRequest
decision = record Decided.accept { report_id = 107 }

abbrev history : List Call
history =
    submits Filed.library Filed.request Filed.fresh (codes "h") (codes "{}") 20
    ∷ decides Decided.library decision 70 30
    ∷ []

abbrev done : Db
unfolding run_all
done = run_all history before

-- the shift ends locked, with the report of the submission
done_is : map phase_of done.shifts ≡ some (locked 107) ∷ []
unfolding done run_all run phase_of submit require_enabled first settle ensure_threshold_snapshot
    ensure_evidence_snapshot pick select report_readings validate_meter_start last_of reset_value
    baseline_value predecessor_end calculate_meter_delta calculate_expected_sale_rupiah
    report_losses validate_staged_evidence variance_alerts report_sales evidence_events
    append_in_transaction audit_row_hash marshal begin update_where parse_decimal acknowledge
    check_acknowledge count created_report_data_by_actor acknowledgement_reasons
done_is = refl

run_all-AllMove_example : AllMove (Steps history) before.shifts (run_all history before).shifts
run_all-AllMove_example = run_all-AllMove history before (tt, tt)
