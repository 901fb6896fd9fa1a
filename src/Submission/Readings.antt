-- ===== src/Submission/Readings.antt =====
-- The readings that a report takes from its draft.
use Prim.Native.Nat.{max}
use mathlib.Core.Path.{subst}
use pomkita_be.Prelude.{
  select, create, ℕ, suc, ◌≡◌, refl, sym, ap, ◌∙◌, inl, inr, false, some, List, [], ◌∷◌, ◌++◌, map,
  arith, Uuid, ◌≢◌, ◌⊎◌,
}
use pomkita_be.Prelude.Text.{Bytes}
use pomkita_be.Domain.{ok, >>=-ok, found-some, unwrapped, wrap_error, found_or}
use pomkita_be.Store.{Db}
use pomkita_be.Store.Shifts.{ShiftModel, ShiftDraftModel}
use pomkita_be.Store.Drafts.{DraftReadingModel}
use pomkita_be.Store.Reports.{DispenserReadingModel}
use pomkita_be.Reconciliation.{
  Parsed, parse_decimal, units, compare_start, validate_meter_start, calculate_meter_delta,
  calculate_expected_sale_rupiah,
}
use pomkita_be.Reconciliation.Delta.{IsMeterDelta, calculate_meter_delta-IsMeterDelta}
use pomkita_be.Reconciliation.Sale.{IsPrice, calculate_expected_sale-IsPrice}
use pomkita_be.Submission.Transaction.{of_draft}
use pomkita_be.Submission.Types.{Library, SubmitPayload, CatalogSnapshotItem}
use pomkita_be.Submission.Promote.{
  report_reading, report_readings, reading_row, snapshot_item_of, predecessor_end, reset_value,
  baseline_value, reading_input, submitted_or,
}

append_nil : (xs : List DispenserReadingModel) → xs ++ [] ≡ xs
append_nil [] = refl
append_nil (x ∷ xs) = ap (λ ys. x ∷ ys) (append_nil xs)

append_cons :
    (xs : List DispenserReadingModel) (x : DispenserReadingModel) (ys : List DispenserReadingModel)
    → (xs ++ x ∷ []) ++ ys ≡ xs ++ x ∷ ys
append_cons [] x ys = refl
append_cons (z ∷ xs) x ys = ap (λ zs. z ∷ zs) (append_cons xs x ys)

-- Two decimals have the same value, in common units.
abbrev pub SameValue : Bytes → Bytes → Type 0
SameValue a b =
    (p : Parsed) × (q : Parsed) × (parse_decimal a ≡ ok p)
    × (parse_decimal b ≡ ok q)
    × (units (max p.scale q.scale) p ≡ units (max p.scale q.scale) q)

-- A meter start has the value of the reset if there is one, else of the baseline if there is one, else
-- of the end that the preceding shift left if there is one; without any of them it is free.
abbrev pub Continues : Bytes → Bytes → Bytes → Bytes → Type 0
Continues start reset baseline predecessor =
    ((reset ≢ []) × SameValue start reset)
    ⊎ ((reset ≡ []) × (baseline ≢ []) × SameValue start baseline)
    ⊎ ((reset ≡ []) × (baseline ≡ []) × (predecessor ≢ []) × SameValue start predecessor)
    ⊎ ((reset ≡ []) × (baseline ≡ []) × (predecessor ≡ []))

compared :
    (start : Bytes) (p : Parsed) (b : ℕ) (bs : Bytes)
    → parse_decimal start ≡ ok p
    → compare_start p (b ∷ bs) ≡ ok tt
    → SameValue start (b ∷ bs)
compared start p b bs e h =
    let (q, f, h1) = >>=-ok (parse_decimal (b ∷ bs)) _ h in (p, q, e, f, ground (arith, h1))

start-Continues :
    (start p r b : Bytes) → validate_meter_start start p r b ≡ ok tt → Continues start r b p
unfolding validate_meter_start
start-Continues start p (c ∷ r) b h =
    let (v, e, h1) = >>=-ok (parse_decimal start) _ h in inl ((λ x. cc), compared start v c r e h1)
start-Continues start p [] (c ∷ b) h =
    let (v, e, h1) = >>=-ok (parse_decimal start) _ h in
    inr (inl (refl, (λ x. cc), compared start v c b e h1))
start-Continues start (c ∷ p) [] [] h =
    let (v, e, h1) = >>=-ok (parse_decimal start) _ h in
    inr (inr (inl (refl, refl, (λ x. cc), compared start v c p e h1)))
start-Continues start [] [] [] h = inr (inr (inr (refl, refl, refl)))

module _ (lib : Library) (db : Db) (shift : ShiftModel) (report_id : Uuid)
    (catalog : List CatalogSnapshotItem) (rollover : Bytes) where
  -- A reading of the report: its start continues the nozzle's meter, its sale is the price of its
  -- delta at the catalog's price, and the columns keep these numbers.
  pub record IsReconciled (readings : List DispenserReadingModel) (r : DispenserReadingModel)
      : Type 0 where
    pub item : CatalogSnapshotItem
    pub listed : snapshot_item_of lib catalog r.nozzle_id ≡ some item
    pub start : Bytes
    pub end : Bytes
    pub delta : Bytes
    pub sale : Bytes
    pub continues :
        Continues start
          (reset_value db shift r.nozzle_id)
          (baseline_value db shift r.nozzle_id)
          (predecessor_end db shift r.nozzle_id readings)
    pub delta_right : IsMeterDelta start end item.modulus rollover delta
    pub sale_right : IsPrice delta item.price sale
    pub start_kept : r.meter_start ≡ db.stored_numeric 1 start
    pub end_kept : r.meter_end ≡ db.stored_numeric 1 end
    pub sale_kept : r.expected_sale_rupiah ≡ db.stored_numeric 0 sale
    pub priced : r.price_used ≡ db.stored_numeric 0 item.price
    pub reported : r.report_id ≡ report_id
    pub measured : r.is_carried_forward ≡ false

  -- Each reading is reconciled with the table that stands before it.
  abbrev pub AllReconciled : List DispenserReadingModel → List DispenserReadingModel → Type 0
  AllReconciled readings [] = Unit
  AllReconciled readings (r ∷ rs) = IsReconciled readings r × AllReconciled (create r readings) rs

module _ (lib : Library) (db : Db) (shift : ShiftModel) (draft : ShiftDraftModel) (report_id : Uuid)
    (input : SubmitPayload) (catalog : List CatalogSnapshotItem) (rollover : Bytes) where
  reading-IsReconciled :
      (readings : List DispenserReadingModel) (reading_id : Uuid) (row : DraftReadingModel)
      (r : DispenserReadingModel)
      → report_reading lib db shift draft report_id input catalog rollover readings reading_id row
        ≡ ok r
      → IsReconciled lib db shift report_id catalog rollover readings r
        × (r.nozzle_id ≡ row.nozzle_id)
  unfolding report_reading
  reading-IsReconciled readings reading_id row r h =
      let start =
        submitted_or (reading_input input row.nozzle_id) (λ r. r.meter_start) row.meter_start in
      let end = submitted_or (reading_input input row.nozzle_id) (λ r. r.meter_end) row.meter_end in
      let (item, listed, h1) =
        >>=-ok (found_or _ (snapshot_item_of lib catalog row.nozzle_id)) _ h in
      let (_, valid, h2) = >>=-ok (wrap_error _ (validate_meter_start start _ _ _)) _ h1 in
      let (delta, d, h3) =
        >>=-ok (wrap_error _ (calculate_meter_delta start end item.modulus rollover)) _ h2 in
      let (sale, s, h4) =
        >>=-ok (wrap_error _ (calculate_expected_sale_rupiah delta item.price)) _ h3 in
      let same : reading_row db.stored_numeric shift draft report_id
            (reading_input input row.nozzle_id) reading_id row item start end sale
          ≡ r =
        ground (arith, h4) in
      let listed' : snapshot_item_of lib catalog row.nozzle_id ≡ some item =
        found-some _ (snapshot_item_of lib catalog row.nozzle_id) item listed in
      subst
        (λ (x : DispenserReadingModel).
          IsReconciled lib db shift report_id catalog rollover readings x
          × (x.nozzle_id ≡ row.nozzle_id))
        same
        (
          record {
            item = item;
            listed = listed';
            start = start;
            end = end;
            delta = delta;
            sale = sale;
            continues =
                start-Continues start _ _ _
                  (unwrapped _ (validate_meter_start start _ _ _) tt valid);
            start_kept = refl;
            end_kept = refl;
            sale_kept = refl;
            delta_right =
                calculate_meter_delta-IsMeterDelta start end item.modulus rollover delta
                  (unwrapped _ (calculate_meter_delta start end item.modulus rollover) delta d);
            sale_right =
                calculate_expected_sale-IsPrice delta item.price sale
                  (unwrapped _ (calculate_expected_sale_rupiah delta item.price) sale s);
            priced = refl;
            reported = refl;
            measured = refl;
          },
          refl,
        )

  -- the loop over the draft's readings, by the rows
  pub report_readings-AllReconciled :
      (fresh : ℕ → Uuid) (n : ℕ) (readings : List DispenserReadingModel)
      (rows : List DraftReadingModel) (readings' : List DispenserReadingModel)
      → report_readings lib db shift draft report_id input catalog rollover fresh n readings rows
        ≡ ok readings'
      → (added : List DispenserReadingModel) × (readings' ≡ readings ++ added)
        × AllReconciled lib db shift report_id catalog rollover readings added
        × (map (λ r. r.nozzle_id) added ≡ map (λ r. r.nozzle_id) rows)
  unfolding report_readings
  report_readings-AllReconciled fresh n readings [] readings' h = (
    [],
    (let same : readings ≡ readings' = ground (arith, h) in sym same ∙ sym (append_nil readings)),
    tt,
    refl,
  )
  report_readings-AllReconciled fresh n readings (row ∷ rows) readings' h =
      let (r, e, h1) =
        >>=-ok
          (report_reading lib db shift draft report_id input catalog rollover readings (fresh n)
            row)
          _ h in
      let (good, own) = reading-IsReconciled readings (fresh n) row r e in
      let (added, same, rest, order) =
        report_readings-AllReconciled fresh (suc n) (create r readings) rows readings' h1 in
      (r ∷ added, same ∙ append_cons readings r added, (good, rest), rw (own, order) refl)

-- The readings that a draft's submission adds, with the catalog of its shift.
abbrev pub Reconciles : Library → ShiftModel → ShiftDraftModel → Uuid → Bytes → Db → Db → Type 0
Reconciles lib shift draft report_id rollover db db' =
    (catalog : List CatalogSnapshotItem) × (added : List DispenserReadingModel)
    × (lib.decode_catalog shift.shift_price_map_snapshot ≡ some catalog)
    × (db'.readings ≡ db.readings ++ added)
    × AllReconciled lib db shift report_id catalog rollover db.readings added
    × (map (λ r. r.nozzle_id) added
        ≡ map (λ r. r.nozzle_id)
            (select (λ r. of_draft draft r.org_id r.station_id r.draft_id) db.draft_readings))
