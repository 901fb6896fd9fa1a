-- ===== src/Governance/Copy.antt =====
-- The items of an amendment: `validateAmendmentItems` and `copyAmendedReportChildren` of
-- internal/repository/governance/repository.go, and `NewDecimal` of
-- internal/repository/store/decimal.go.
use pomkita_be.Prelude.{map}
use pomkita_be.Prelude.{
  first, select, ℕ, suc, String, Bool, not, ◌&&◌, ◌||◌, Option, none, some, List, [], ◌∷◌, ◌++◌,
  ◌==◌, str_eq, if◌then◌else◌, Uuid,
}
use pomkita_be.Prelude.Text.{Bytes, codes}
use pomkita_be.Domain.{ok, Result, err, refuse_if, found_or, ◌>>=◌, ◌>>◌}
use pomkita_be.Audit.{bytes_eq}
use pomkita_be.Reconciliation.{is_whole, is_fraction, split_point}
use pomkita_be.Store.{Db}
use pomkita_be.Store.Decimal.{Decimal}
use pomkita_be.Store.Reports.{
  ShiftReportModel, DispenserReadingModel, SalesDeclaredModel, LossEntryModel,
}
use pomkita_be.Store.Amendments.{AmendmentItemModel}
use pomkita_be.Governance.Types.{
  Library, amendment_field_forbidden, amendment_target_not_found, stale_amendment_base,
}
use pomkita_be.Governance.Amendment.{field_allowed}

-- a row of a report
abbrev pub of_base : ShiftReportModel → Uuid → Uuid → Uuid → Uuid → Bool
of_base report org station shift report_id =
    org == report.org_id
    && station == report.station_id
    && shift == report.shift_id
    && report_id == report.report_id

-- `jsonValueEquals`
unfoldable pub json_value_equals : Library → Bytes → Bytes → Bool
json_value_equals lib raw value = elim (lib.decode_text raw) [
  | some text ↦ bytes_eq (lib.utf8 text) value
  | none ↦ bytes_eq raw value
]

-- what an item finds in the field of a sale, of a loss
abbrev pub sale_value : String → SalesDeclaredModel → Bytes
sale_value field sale =
    if str_eq field "cashless_amount" then sale.cashless_amount else sale.cash_amount

abbrev pub text_or_empty {ℓ} : {A : Type ℓ} → (A → Bytes) → Option A → Bytes
text_or_empty f none = []
text_or_empty f (some a) = f a

abbrev pub loss_value : Library → String → LossEntryModel → Bytes
loss_value lib field loss =
    if str_eq field "liters"
    then loss.liters
    else if str_eq field "cash_amount"
    then text_or_empty (λ v. v) loss.cash_amount
    else if str_eq field "note"
    then text_or_empty lib.utf8 loss.note
    else []

-- the two cases of the switch on the kind of an item
unfoldable pub check_sale : Library → ShiftReportModel → AmendmentItemModel → Db → Result (Unit {0})
unfolding json_value_equals
check_sale lib report item db = do
  sale ← found_or amendment_target_not_found (
      first
        (λ s.
          of_base report s.org_id s.station_id s.shift_id s.report_id
          && s.sales_id == item.target_logical_id)
        db.sales)
  refuse_if (not (json_value_equals lib item.old_value (sale_value item.field sale)))
      stale_amendment_base

unfoldable pub check_loss : Library → ShiftReportModel → AmendmentItemModel → Db → Result (Unit {0})
unfolding json_value_equals
check_loss lib report item db = do
  loss ← found_or amendment_target_not_found (
      first
        (λ l.
          of_base report l.org_id l.station_id l.shift_id l.report_id
          && l.row_id == item.target_logical_id)
        db.losses)
  refuse_if (not (json_value_equals lib item.old_value (loss_value lib item.field loss)))
      stale_amendment_base

abbrev pub check_target : Library → ShiftReportModel → AmendmentItemModel → Db → Result (Unit {0})
check_target lib report item db =
    if str_eq item.target_kind "sales_declared"
    then check_sale lib report item db
    else if str_eq item.target_kind "loss_entry"
    then check_loss lib report item db
    else ok tt

-- `validateAmendmentItems`
unfoldable pub validate_amendment_items :
    Library → ShiftReportModel → Db → List AmendmentItemModel → Result (Unit {0})
unfolding check_sale check_loss
validate_amendment_items lib report db [] = ok tt
validate_amendment_items lib report db (item ∷ items) = do
  refuse_if (not (field_allowed item.target_kind item.field)) amendment_field_forbidden
  check_target lib report item db
  validate_amendment_items lib report db items

-- `decimalTextPattern`: `-?(0|[1-9][0-9]*)(\.[0-9]+)?`
abbrev pub is_unsigned : Bytes × Option Bytes → Bool
is_unsigned (whole, none) = is_whole whole
is_unsigned (whole, some fraction) = is_whole whole && is_fraction fraction

abbrev pub without_sign : Bytes → Bytes
without_sign [] = []
without_sign (c ∷ rest) = if c == b'-' then rest else c ∷ rest

-- `NewDecimal`
unfoldable pub new_decimal : Bytes → Option Decimal
unfolding is_whole split_point
new_decimal value = if is_unsigned (split_point (without_sign value)) then some value else none

-- `amendmentDecimalValue`
unfoldable pub amendment_decimal_value : Library → Bytes → Option Decimal
unfolding new_decimal
amendment_decimal_value lib raw = elim (lib.decode_text raw) [
  | some text ↦ new_decimal (lib.utf8 text)
  | none ↦ new_decimal (lib.trim_bytes raw)
]

-- the changes of one item to a sale
unfoldable pub amend_sale :
    Library → AmendmentItemModel → SalesDeclaredModel → Result SalesDeclaredModel
unfolding amendment_decimal_value
amend_sale lib item sale = do
  value ← found_or amendment_field_forbidden (amendment_decimal_value lib item.new_value)
  ok (
      if str_eq item.field "cash_amount"
      then record sale { cash_amount = value }
      else if str_eq item.field "cashless_amount"
      then record sale { cashless_amount = value }
      else sale)

-- the loop over the items, for a sale whose key is `id`
unfoldable pub amend_sale_all :
    Library → Uuid → List AmendmentItemModel → SalesDeclaredModel → Result SalesDeclaredModel
amend_sale_all lib id [] sale = ok sale
amend_sale_all lib id (item ∷ items) sale = do
  sale' ←
      if not (str_eq item.target_kind "sales_declared") || not (item.target_logical_id == id)
      then ok sale
      else amend_sale lib item sale
  amend_sale_all lib id items sale'

-- `item.NewValue` as a note
unfoldable pub note_value : Library → Bytes → Result (Option String)
note_value lib raw = if bytes_eq raw (codes "null") then ok none else elim (lib.decode_text raw) [
  | some text ↦ ok (some text)
  | none ↦ err amendment_field_forbidden
]

-- the changes of one item to a loss
unfoldable pub amend_loss : Library → AmendmentItemModel → LossEntryModel → Result LossEntryModel
unfolding amendment_decimal_value note_value
amend_loss lib item loss =
    if str_eq item.field "liters"
    then (do
      value ← found_or amendment_field_forbidden (amendment_decimal_value lib item.new_value)
      ok (record loss { liters = value }))
    else if str_eq item.field "cash_amount"
    then (do
      value ← found_or amendment_field_forbidden (amendment_decimal_value lib item.new_value)
      ok (record loss { cash_amount = some value }))
    else if str_eq item.field "note"
    then (do value ← note_value lib item.new_value; ok (record loss { note = value }))
    else ok loss

unfoldable pub amend_loss_all :
    Library → Uuid → List AmendmentItemModel → LossEntryModel → Result LossEntryModel
amend_loss_all lib id [] loss = ok loss
amend_loss_all lib id (item ∷ items) loss = do
  loss' ←
      if not (str_eq item.target_kind "loss_entry") || not (item.target_logical_id == id)
      then ok loss
      else amend_loss lib item loss
  amend_loss_all lib id items loss'

-- The three loops over the rows of the base; `fresh` gives what `uuid.New` returns in the n-th round.
unfoldable pub copy_readings :
    ShiftReportModel → (ℕ → Uuid) → ℕ → List DispenserReadingModel → List DispenserReadingModel
copy_readings replacement fresh n [] = []
copy_readings replacement fresh n (r ∷ rows) =
    record r { reading_id = fresh n; report_id = replacement.report_id }
    ∷ copy_readings replacement fresh (suc n) rows

unfoldable pub copy_sales :
    Library
    → ShiftReportModel
    → List AmendmentItemModel
    → (ℕ → Uuid)
    → ℕ
    → List SalesDeclaredModel
    → Result (List SalesDeclaredModel)
unfolding amend_sale_all
copy_sales lib replacement items fresh n [] = ok []
copy_sales lib replacement items fresh n (s ∷ rows) = do
  s' ← amend_sale_all lib s.sales_id items s
  rest ← copy_sales lib replacement items fresh (suc n) rows
  ok (record s' { sales_id = fresh n; report_id = replacement.report_id } ∷ rest)

unfoldable pub copy_losses :
    Library
    → ShiftReportModel
    → List AmendmentItemModel
    → (ℕ → Uuid)
    → ℕ
    → List LossEntryModel
    → Result (List LossEntryModel)
unfolding amend_loss_all
copy_losses lib replacement items fresh n [] = ok []
copy_losses lib replacement items fresh n (l ∷ rows) = do
  l' ← amend_loss_all lib l.row_id items l
  rest ← copy_losses lib replacement items fresh (suc n) rows
  ok (
      record l' {
        row_id = fresh n;
        report_id = replacement.report_id;
        version_no = replacement.version_no;
      }
      ∷ rest)

-- What `uuid.New` returns in one approval.
pub record FreshIds : Type 0 where
  pub report_id : Uuid
  pub reading_id : ℕ → Uuid
  pub sales_id : ℕ → Uuid
  pub row_id : ℕ → Uuid
  pub supersession_id : Uuid

abbrev stored_amount : (ℕ → Bytes → Bytes) → Option Decimal → Option Decimal
stored_amount stored none = none
stored_amount stored (some amount) = some (stored 0 amount)

-- the columns of a row that is created again
abbrev pub stored_sale : (ℕ → Bytes → Bytes) → SalesDeclaredModel → SalesDeclaredModel
stored_sale stored s = record s {
  cash_amount = stored 0 s.cash_amount;
  cashless_amount = stored 0 s.cashless_amount;
}

abbrev pub stored_loss : (ℕ → Bytes → Bytes) → LossEntryModel → LossEntryModel
stored_loss stored l = record l {
  liters = stored 2 l.liters;
  cash_amount = stored_amount stored l.cash_amount;
}

-- `copyAmendedReportChildren`
unfoldable pub copy_amended_report_children :
    Library
    → ShiftReportModel
    → ShiftReportModel
    → List AmendmentItemModel
    → FreshIds
    → Db
    → Result Db
unfolding copy_readings copy_sales copy_losses
copy_amended_report_children lib base replacement items ids db = do
  sales ←
      copy_sales lib replacement items ids.sales_id 0
        (select (λ s. of_base base s.org_id s.station_id s.shift_id s.report_id) db.sales)
  losses ←
      copy_losses lib replacement items ids.row_id 0
        (select (λ l. of_base base l.org_id l.station_id l.shift_id l.report_id) db.losses)
  ok (record db {
    readings =
        db.readings
        ++ copy_readings replacement ids.reading_id 0
            (select (λ r. of_base base r.org_id r.station_id r.shift_id r.report_id) db.readings);
    sales = db.sales ++ map (stored_sale db.stored_numeric) sales;
    losses = db.losses ++ map (stored_loss db.stored_numeric) losses;
  })
