-- ===== src/Submission/Variance.antt =====
-- `evaluateVarianceAlerts` of internal/repository/submission/repository.go: an alert event for each
-- rule that the difference between expected and declared sales exceeds.
use pomkita_be.Prelude.{
  length, first, select, order_by, ℕ, suc, ◌+◌, ◌*◌, Bool, ◌&&◌, some, List, [], ◌∷◌, ltb, leb,
  ◌==◌, str_eq, if◌then◌else◌, Uuid, Time,
}
use pomkita_be.Domain.{ok, Result, wrapped, record_not_found, refuse_if, found_or, ◌>>=◌, ◌>>◌}
use pomkita_be.Store.Reports.{ShiftReportModel, DispenserReadingModel, SalesDeclaredModel}
use pomkita_be.Store.Alerts.{AlertRuleModel, AlertEventModel, bucket_of}
use pomkita_be.Store.Policies.{PolicySnapshotItemModel}
use pomkita_be.Submission.Types.{Library, Rational, invalid_submit_request}

-- `Add`, `Sub` and `Abs` of `big.Rat`
abbrev pub plus : Rational → Rational → Rational
plus a b = record {
  above = a.above * b.units + b.above * a.units;
  below = a.below * b.units + b.below * a.units;
  units = a.units * b.units;
}

abbrev pub minus : Rational → Rational → Rational
minus a b = record {
  above = a.above * b.units + b.below * a.units;
  below = a.below * b.units + b.above * a.units;
  units = a.units * b.units;
}

abbrev pub absolute : Rational → Rational
absolute a =
    if ltb a.above a.below then record { above = a.below; below = a.above; units = a.units } else a

-- `a.Cmp(b) <= 0`, and `a.Sign() < 0`
abbrev pub is_at_most : Rational → Rational → Bool
is_at_most a b = leb (a.above * b.units + b.below * a.units) (b.above * a.units + a.below * b.units)

abbrev pub is_negative : Rational → Bool
is_negative a = ltb a.above a.below

abbrev pub zero_rational : Rational
zero_rational = record { above = 0; below = 0; units = 1 }

-- the loop over the readings
unfoldable pub expected_total : Library → Rational → List DispenserReadingModel → Result Rational
expected_total lib sum [] = ok sum
expected_total lib sum (r ∷ readings) = do
  value ←
      found_or (wrapped "invalid expected sale" invalid_submit_request)
        (lib.parse_rational r.expected_sale_rupiah)
  expected_total lib (plus sum value) readings

-- the loop over the sales
unfoldable pub declared_total : Library → Rational → List SalesDeclaredModel → Result Rational
declared_total lib sum [] = ok sum
declared_total lib sum (s ∷ sales) = do
  cash ←
      found_or (wrapped "invalid cash amount" invalid_submit_request)
        (lib.parse_rational s.cash_amount)
  cashless ←
      found_or (wrapped "invalid cashless amount" invalid_submit_request)
        (lib.parse_rational s.cashless_amount)
  declared_total lib (plus sum (plus cash cashless)) sales

unfoldable pub fired_event : ShiftReportModel → Uuid → Time → AlertRuleModel → AlertEventModel
fired_event report event_id now rule = record {
  event_id = event_id;
  org_id = report.org_id;
  station_id = report.station_id;
  rule_id = rule.rule_id;
  subject_kind = "report";
  subject_id = report.report_id;
  event_type = "fired";
  period_start = now;
  period_bucket = bucket_of now;
  related_fired_event_id = some event_id;
  source_kind = "report";
  source_id = report.report_id;
  source_version_no = some report.version_no;
  source_at = now;
  created_by = some report.submitted_by;
  created_at = now;
}

-- the loop over the rules
unfoldable pub fire_rules :
    Library
    → ShiftReportModel
    → Rational
    → (ℕ → Uuid)
    → ℕ
    → Time
    → List AlertRuleModel
    → Result (List AlertEventModel)
unfolding fired_event
fire_rules lib report difference fresh n now [] = ok []
fire_rules lib report difference fresh n now (rule ∷ rules) = do
  threshold ←
      found_or (wrapped "invalid alert threshold" invalid_submit_request)
        (lib.parse_rational rule.threshold)
  refuse_if (is_negative threshold) (wrapped "invalid alert threshold" invalid_submit_request)
  rest ← fire_rules lib report difference fresh (suc n) now rules
  ok (
      if is_at_most difference threshold
      then rest
      else fired_event report (fresh n) now rule ∷ rest)

-- a row of the report
abbrev pub of_version : ShiftReportModel → Uuid → Uuid → Uuid → Uuid → Bool
of_version report org station shift report_id =
    org == report.org_id
    && station == report.station_id
    && shift == report.shift_id
    && report_id == report.report_id

-- `evaluateVarianceAlerts`; the result are the events that it creates
unfoldable pub variance_alerts :
    Library
    → ShiftReportModel
    → Uuid
    → (ℕ → Uuid)
    → Time
    → List PolicySnapshotItemModel
    → List DispenserReadingModel
    → List SalesDeclaredModel
    → List AlertRuleModel
    → Result (List AlertEventModel)
unfolding expected_total declared_total fire_rules
variance_alerts lib report set_id fresh now items readings sales rules = do
  snapshot ← found_or (wrapped "load variance policy snapshot" record_not_found) (
      first
        (λ i.
          i.org_id == report.org_id
          && i.station_id == report.station_id
          && i.shift_id == report.shift_id
          && i.set_id == set_id
          && str_eq i.policy_kind "threshold")
        items)
  policy ←
      found_or (wrapped "decode variance policy snapshot" invalid_submit_request)
        (lib.decode_threshold snapshot.payload)
  refuse_if (length policy.variance_rupiah_threshold == 0)
      (wrapped "decode variance policy snapshot" invalid_submit_request)
  threshold ←
      found_or (wrapped "invalid variance threshold" invalid_submit_request)
        (lib.parse_rational policy.variance_rupiah_threshold)
  refuse_if (is_negative threshold) (wrapped "invalid variance threshold" invalid_submit_request)
  expected ←
      expected_total lib zero_rational
        (select (λ r. of_version report r.org_id r.station_id r.shift_id r.report_id) readings)
  declared ←
      declared_total lib zero_rational
        (select (λ s. of_version report s.org_id s.station_id s.shift_id s.report_id) sales)
  let difference = absolute (minus expected declared)
  if is_at_most difference threshold
      then ok []
      else fire_rules lib report difference fresh 0 now (
          order_by (λ r. r.rule_id)
            (select
              (λ r.
                r.org_id == report.org_id
                && r.station_id == report.station_id
                && str_eq r.rule_type "variance"
                && r.enabled)
              rules))
