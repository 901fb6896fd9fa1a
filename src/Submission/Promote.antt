-- ===== src/Submission/Promote.antt =====
-- `promoteDraftChildren` of internal/repository/submission/repository.go: the rows of a draft become
-- rows of the report.
use pomkita_be.Prelude.{
  length, first, select, pick, last_of, create, is_set, nil_uuid, ℕ, suc, Bool, true, false, not,
  ◌&&◌, Option, none, some, List, [], ◌∷◌, ltb, leb, ◌==◌, str_eq, if◌then◌else◌, Uuid, Time,
}
use pomkita_be.Prelude.Text.{Bytes}
use pomkita_be.Domain.{ok, wrap_error, Result, wrapped, refuse_if, found_or, ◌>>=◌, ◌>>◌}
use pomkita_be.Store.{Db}
use pomkita_be.Store.Shifts.{ShiftModel, ShiftDraftModel}
use pomkita_be.Store.Drafts.{DraftReadingModel, DraftSalesModel, DraftLossModel}
use pomkita_be.Store.Reports.{DispenserReadingModel, SalesDeclaredModel, LossEntryModel}
use pomkita_be.Store.Evidence.{LossIdentityModel}
use pomkita_be.Store.Meters.{NozzleBaselineRevisionModel, NozzleBaselineCurrentModel}
use pomkita_be.Reconciliation.{
  validate_meter_start, calculate_meter_delta, calculate_expected_sale_rupiah,
}
use pomkita_be.Submission.Types.{
  Library, SubmitPayload, SubmitReading, SubmitLoss, CatalogSnapshotItem, invalid_submit_request,
}

abbrev pub is_blank : Bytes → Bool
is_blank text = length text == 0

-- `readingInput[nozzle]`
abbrev pub reading_input : SubmitPayload → Uuid → Option SubmitReading
reading_input input nozzle =
    last_of (λ r. not (r.nozzle_id == nil_uuid) && r.nozzle_id == nozzle) input.readings

-- `lossInput[loss]`
abbrev pub loss_input : SubmitPayload → Uuid → Option SubmitLoss
loss_input input loss = last_of (λ l. not (l.loss_id == nil_uuid) && l.loss_id == loss) input.losses

-- `snapshotItem`
unfoldable pub snapshot_item_of :
    Library → List CatalogSnapshotItem → Uuid → Option CatalogSnapshotItem
snapshot_item_of lib items nozzle =
    first (λ i. str_eq i.nozzle_id (lib.audit.uuid_string nozzle)) items

-- the locked shifts before a shift, the latest first
abbrev pub precedes : ShiftModel → ShiftModel → Bool
precedes shift s =
    s.org_id == shift.org_id
    && s.station_id == shift.station_id
    && ltb s.station_seq shift.station_seq
    && str_eq s.status "locked"

abbrev pub is_later : ShiftModel → ShiftModel → Bool
is_later a b =
    if a.station_seq == b.station_seq
    then ltb a.shift_id b.shift_id
    else ltb b.station_seq a.station_seq

unfoldable pub predecessor : ShiftModel → List ShiftModel → Option ShiftModel
predecessor shift shifts = pick is_later (select (precedes shift) shifts)

-- a nozzle's reading in a report of the shift's station
abbrev pub of_nozzle : ShiftModel → Uuid → Uuid → Uuid → DispenserReadingModel → Bool
of_nozzle shift shift_id report_id nozzle r =
    r.org_id == shift.org_id
    && r.station_id == shift.station_id
    && r.shift_id == shift_id
    && r.report_id == report_id
    && r.nozzle_id == nozzle

-- `resetValue` of `meterContinuity`
unfoldable pub reset_value : Db → ShiftModel → Uuid → Bytes
reset_value db shift nozzle =
    elim (first
      (λ r.
        r.org_id == shift.org_id
        && r.station_id == shift.station_id
        && r.nozzle_id == nozzle
        && r.effective_shift_id == shift.shift_id
        && str_eq r.status "approved")
      db.meter_resets) [ some r ↦ r.new_value | none ↦ [] ]

-- the row of `nozzle_baseline_current` that a baseline joins with
abbrev pub is_current : NozzleBaselineRevisionModel → NozzleBaselineCurrentModel → Bool
is_current r c =
    c.org_id == r.org_id
    && c.station_id == r.station_id
    && c.nozzle_id == r.nozzle_id
    && c.current_baseline_rev_id == r.baseline_rev_id

-- `baselineValue` of `meterContinuity`
unfoldable pub baseline_value : Db → ShiftModel → Uuid → Bytes
baseline_value db shift nozzle =
    elim (pick (λ a b. ltb b.effective_station_seq a.effective_station_seq)
      (select
        (λ r.
          r.org_id == shift.org_id
          && r.station_id == shift.station_id
          && r.nozzle_id == nozzle
          && leb r.effective_station_seq shift.station_seq
          && is_set (first (is_current r) db.current_baselines))
        db.baselines)) [ some r ↦ r.initial_meter_value | none ↦ [] ]

-- the end of the nozzle's meter in the current report of a shift
abbrev pub end_in :
    ShiftModel → Uuid → List DispenserReadingModel → ShiftModel → Option Uuid → Bytes
end_in shift nozzle readings previous none = []
end_in shift nozzle readings previous (some report_id) =
    elim (first (of_nozzle shift previous.shift_id report_id nozzle) readings) [
      | some r ↦ r.meter_end
      | none ↦ []
    ]

-- `predecessorEnd` of `meterContinuity`
unfoldable pub predecessor_end : Db → ShiftModel → Uuid → List DispenserReadingModel → Bytes
unfolding predecessor
predecessor_end db shift nozzle readings = elim (predecessor shift db.shifts) [
  | some previous ↦ end_in shift nozzle readings previous previous.current_report_id
  | none ↦ []
]

-- a submitted value if there is one, and else the draft's
abbrev pub submitted_or : Option SubmitReading → (SubmitReading → Bytes) → Bytes → Bytes
submitted_or none field own = own
submitted_or (some r) field own = if is_blank (field r) then own else field r

abbrev pub observed_of : Option SubmitReading → Bool
observed_of none = true
observed_of (some r) = elim r.observed [ some b ↦ b | none ↦ true ]

-- the row that a round of the loop over the draft's readings creates, as the table has it
abbrev pub reading_row :
    (ℕ → Bytes → Bytes)
    → ShiftModel
    → ShiftDraftModel
    → Uuid
    → Option SubmitReading
    → Uuid
    → DraftReadingModel
    → CatalogSnapshotItem
    → Bytes
    → Bytes
    → Bytes
    → DispenserReadingModel
reading_row stored shift draft report_id submitted reading_id row item start end expected = record {
  reading_id = reading_id;
  org_id = draft.org_id;
  station_id = draft.station_id;
  shift_id = shift.shift_id;
  report_id = report_id;
  nozzle_id = row.nozzle_id;
  meter_start = stored 1 start;
  meter_end = stored 1 end;
  price_used = stored 0 item.price;
  expected_sale_rupiah = stored 0 expected;
  observed = observed_of submitted;
  is_carried_forward = false;
  source_shift_id = none;
  source_report_id = none;
  source_reading_id = none;
}

-- One round of the loop over the draft's readings: the row that it creates.
unfoldable pub report_reading :
    Library
    → Db
    → ShiftModel
    → ShiftDraftModel
    → Uuid
    → SubmitPayload
    → List CatalogSnapshotItem
    → Bytes
    → List DispenserReadingModel
    → Uuid
    → DraftReadingModel
    → Result DispenserReadingModel
unfolding snapshot_item_of
report_reading lib db shift draft report_id input catalog rollover readings reading_id row = do
  item ←
      found_or (wrapped "catalog snapshot nozzle" invalid_submit_request)
        (snapshot_item_of lib catalog row.nozzle_id)
  let submitted = reading_input input row.nozzle_id
  let start = submitted_or submitted (λ r. r.meter_start) row.meter_start
  let end = submitted_or submitted (λ r. r.meter_end) row.meter_end
  wrap_error "validate nozzle meter start" (
      validate_meter_start start (predecessor_end db shift row.nozzle_id readings)
        (reset_value db shift row.nozzle_id) (baseline_value db shift row.nozzle_id))
  delta ←
      wrap_error "calculate nozzle delta" (calculate_meter_delta start end item.modulus rollover)
  expected ← wrap_error "calculate nozzle sale" (calculate_expected_sale_rupiah delta item.price)
  ok (
      reading_row db.stored_numeric shift draft report_id submitted reading_id row item start end
        expected)

-- the loop over the draft's readings, from round n on
unfoldable pub report_readings :
    Library
    → Db
    → ShiftModel
    → ShiftDraftModel
    → Uuid
    → SubmitPayload
    → List CatalogSnapshotItem
    → Bytes
    → (ℕ → Uuid)
    → ℕ
    → List DispenserReadingModel
    → List DraftReadingModel
    → Result (List DispenserReadingModel)
unfolding report_reading
report_readings lib db shift draft report_id input catalog rollover fresh n readings [] =
    ok readings
report_readings lib db shift draft report_id input catalog rollover fresh n readings (row ∷ rows) =
    do
      model ←
          report_reading lib db shift draft report_id input catalog rollover readings (fresh n) row
      report_readings lib db shift draft report_id input catalog rollover fresh (suc n)
          (create model readings) rows

-- One round of the loop over the catalog of a backfilled shift.
unfoldable pub carried_reading :
    Library
    → Db
    → ShiftModel
    → Uuid
    → List DispenserReadingModel
    → Uuid
    → CatalogSnapshotItem
    → Result DispenserReadingModel
carried_reading lib db shift report_id readings reading_id item = do
  nozzle ←
      found_or (wrapped "backfill nozzle ID" invalid_submit_request) (lib.parse_uuid item.nozzle_id)
  previous ←
      found_or (wrapped "backfill meter source shift" invalid_submit_request)
        (pick is_later (select (λ s. precedes shift s && is_set s.current_report_id) db.shifts))
  source_report ←
      found_or (wrapped "backfill meter source shift" invalid_submit_request)
        previous.current_report_id
  source ←
      found_or (wrapped "backfill meter source reading" invalid_submit_request)
        (first (of_nozzle shift previous.shift_id source_report nozzle) readings)
  ok (record {
    reading_id = reading_id;
    org_id = shift.org_id;
    station_id = shift.station_id;
    shift_id = shift.shift_id;
    report_id = report_id;
    nozzle_id = source.nozzle_id;
    meter_start = source.meter_start;
    meter_end = source.meter_end;
    price_used = source.price_used;
    expected_sale_rupiah = source.expected_sale_rupiah;
    observed = false;
    is_carried_forward = true;
    source_shift_id = some source.shift_id;
    source_report_id = some source.report_id;
    source_reading_id = some source.reading_id;
  })

unfoldable pub carried_readings :
    Library
    → Db
    → ShiftModel
    → Uuid
    → (ℕ → Uuid)
    → ℕ
    → List DispenserReadingModel
    → List CatalogSnapshotItem
    → Result (List DispenserReadingModel)
unfolding carried_reading
carried_readings lib db shift report_id fresh n readings [] = ok readings
carried_readings lib db shift report_id fresh n readings (item ∷ items) = do
  model ← carried_reading lib db shift report_id readings (fresh n) item
  carried_readings lib db shift report_id fresh (suc n) (create model readings) items

-- the loop over the draft's sales
unfoldable pub report_sales :
    ShiftDraftModel → Uuid → Uuid → (ℕ → Uuid) → ℕ → List DraftSalesModel → List SalesDeclaredModel
report_sales draft shift_id report_id fresh n [] = []
report_sales draft shift_id report_id fresh n (row ∷ rows) =
    record {
      sales_id = fresh n;
      org_id = draft.org_id;
      station_id = draft.station_id;
      shift_id = shift_id;
      report_id = report_id;
      dispenser_id = row.dispenser_id;
      cash_amount = row.cash_amount;
      cashless_amount = row.cashless_amount;
      created_by = row.created_by;
    }
    ∷ report_sales draft shift_id report_id fresh (suc n) rows

abbrev pub nozzle_of : Option SubmitLoss → Uuid
nozzle_of none = nil_uuid
nozzle_of (some l) = l.nozzle_id

-- the loop over the draft's losses: the identities and the entries that it creates
unfoldable pub report_losses :
    ShiftDraftModel
    → Uuid
    → Uuid
    → SubmitPayload
    → (ℕ → Uuid)
    → ℕ
    → Time
    → List DraftLossModel
    → Result (List LossIdentityModel × List LossEntryModel)
report_losses draft shift_id report_id input fresh n now [] = ok ([], [])
report_losses draft shift_id report_id input fresh n now (row ∷ rows) = do
  let nozzle = nozzle_of (loss_input input row.loss_id)
  refuse_if (nozzle == nil_uuid) (wrapped "loss nozzle" invalid_submit_request)
  (identities, entries) ← report_losses draft shift_id report_id input fresh (suc n) now rows
  ok (
    record {
      loss_id = row.loss_id;
      org_id = draft.org_id;
      station_id = draft.station_id;
      created_by = row.created_by;
      created_at = now;
    }
        ∷ identities,
    record {
      row_id = fresh n;
      org_id = draft.org_id;
      station_id = draft.station_id;
      shift_id = shift_id;
      report_id = report_id;
      version_no = 1;
      loss_id = row.loss_id;
      nozzle_id = nozzle;
      direction = row.direction;
      reason_code = row.reason_code;
      liters = row.liters;
      cash_amount = row.cash_amount;
      note = row.note;
      created_by = row.created_by;
    }
        ∷ entries,
  )
