-- ===== src/Governance/Trials.antt =====
-- The theorems about the decisions on amendments at a concrete report.
use pomkita_be.Prelude.{
  replicate, select, first, count, order_by, ◌+◌, ◌≡◌, refl, ◌≢◌, false, none, [], ◌∷◌, map,
}
use pomkita_be.Prelude.Text.{codes}
use pomkita_be.Domain.{ok}
use pomkita_be.Samples.{state_of}
use pomkita_be.Scope.{require_enabled}
use pomkita_be.Canonical.{marshal}
use pomkita_be.Audit.{append_in_transaction, audit_row_hash}
use pomkita_be.Store.{Db}
use pomkita_be.Store.Reports.{SalesDeclaredModel}
use pomkita_be.Governance.Types.{Amendment, ApproveAmendmentRequest}
use pomkita_be.Governance.Amendment.{field_allowed, report_snapshot_hash}
use pomkita_be.Governance.Copy.{
  FreshIds, validate_amendment_items, amend_sale, amend_sale_all, copy_sales,
}
use pomkita_be.Governance.Approve.{approve_amendment, check_approve, write_version, apply_approve}
use pomkita_be.Governance.Applied.{IsApplied, approve-IsApplied}
use pomkita_be.Governance.Verdict.{approval, rejection, give, verdict-once}
use pomkita_be.Governance.Samples.{library, submitted, requested, refusal, rejected, rejected_is}

given_is : give library (rejection refusal 95) 50 requested ≡ ok rejected
unfolding give
given_is = rw rejected_is refl

abbrev approve : ApproveAmendmentRequest
approve = record {
  org_id = 1;
  station_id = 2;
  amendment_id = 80;
  approver_id = 8;
  role = "Station Admin";
  stale_check_hash = replicate 32 7;
}

abbrev fresh : FreshIds
fresh = record {
  report_id = 51;
  reading_id = λ n. 200 + n;
  sales_id = λ n. 300 + n;
  row_id = λ n. 400 + n;
  supersession_id = 52;
}

verdict-once_example : give library (approval approve fresh) 60 rejected ≢ ok rejected
verdict-once_example =
    verdict-once library (rejection refusal 95) (approval approve fresh) 50 60 requested rejected
      rejected given_is refl refl refl

-- the report with the sale that the amendment corrects
abbrev sold : Db
sold = record submitted {
  amendments =
      record {
        amendment_id = 80;
        org_id = 1;
        station_id = 2;
        shift_id = 3;
        base_report_id = 50;
        reason = "typo";
        status = "pending";
        requester_user_id = 9;
        approver_user_id = none;
        requested_at = 40;
        decided_at = none;
        rejection_reason = none;
        applied_report_id = none;
        stale_check_hash = replicate 32 7;
        is_break_glass = false;
        break_glass_reason = none;
      }
      ∷ [];
  amendment_items =
      record {
        item_id = 81;
        amendment_id = 80;
        org_id = 1;
        station_id = 2;
        shift_id = 3;
        target_kind = "sales_declared";
        target_logical_id = 12;
        field = "cash_amount";
        old_value = codes "1000";
        new_value = codes "1100";
      }
      ∷ [];
  sales =
      record {
        sales_id = 12;
        org_id = 1;
        station_id = 2;
        shift_id = 3;
        report_id = 50;
        dispenser_id = 13;
        cash_amount = codes "1000";
        cashless_amount = codes "0";
        created_by = 9;
      }
      ∷ [];
}

abbrev applied : Db
unfolding approve_amendment
applied = state_of (approve_amendment library approve fresh 50 sold) sold

abbrev approval_answer : Amendment
approval_answer = record {
  amendment_id = 80;
  base_report_id = 50;
  applied_report_id = 51;
  status = "approved";
  version_no = 2;
  stale_check_hash = replicate 32 7;
  requested_at = 40;
  decided_at = 50;
  rejection_reason = "";
}

applied_is : approve_amendment library approve fresh 50 sold ≡ ok (approval_answer, applied)
unfolding approve_amendment check_approve require_enabled first count field_allowed
    append_in_transaction audit_row_hash marshal report_snapshot_hash validate_amendment_items
    order_by select amend_sale amend_sale_all copy_sales write_version apply_approve
applied_is = refl

-- the copy of the sale has the new amount
corrected :
    map (λ (s : SalesDeclaredModel). s.cash_amount) applied.sales ≡ codes "1000" ∷ codes "1100" ∷ []
unfolding applied approve_amendment check_approve require_enabled first count field_allowed
    append_in_transaction audit_row_hash marshal report_snapshot_hash validate_amendment_items
    order_by select amend_sale amend_sale_all copy_sales write_version apply_approve
corrected = refl

approve-IsApplied_example : IsApplied library approve 51 50 sold applied
approve-IsApplied_example =
    approve-IsApplied library approve fresh 50 sold applied approval_answer applied_is
