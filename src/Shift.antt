-- ===== src/Shift.antt =====
-- internal/repository/shift/repository.go and internal/service/shift/service.go: a shift is opened
-- with the next number of its station, the prices of the time and a draft.
pub mod Sequence
mod Samples
use mathlib.Core.Option
use pomkita_be.Prelude.{
  first, ℕ, zero, suc, ◌+◌, ◌-◌, ◌*◌, ◌/◌, ◌%◌, ◌^◌, ◌≤◌, ◌<◌, String, ◌≡◌, refl, sym, ap, ◌∙◌, ◌≢◌,
  ◌↔◌, ◌⊎◌, inl, inr, Bool, true, false, not, ◌&&◌, ◌||◌, Option, none, some, List, [], ◌∷◌, ◌++◌,
  map, arith, eq_iff, ltb, leb, ◌==◌, str_eq, if◌then◌else◌, Uuid, Time, length, select, order_by,
  max_of, count, nil_uuid, create, holds,
}
use pomkita_be.Prelude.Text.{Bytes}
use pomkita_be.Domain.{
  ok, Error, Result, err, domain, wrapped, plain, record_not_found, refuse_if, found_or, ◌>>=◌,
  ◌>>◌, transaction, validation, dependency, authorization, conflict, wrap_error,
}
use pomkita_be.Scope.{require_enabled}
use pomkita_be.Store.{Db}
use pomkita_be.Store.Decimal.{Decimal}
use pomkita_be.Store.Shifts.{ShiftModel, ShiftDraftModel}
use pomkita_be.Store.Tenants.{StationModel}
use pomkita_be.Canonical.{Value, object, member, no_members, str, int, pos}
use pomkita_be.Audit
use pomkita_be.Audit.{append_in_transaction}
use pomkita_be.Reconciliation.{split_point}
use pomkita_be.Reconciliation.Digits.{is_digits, value_of, digits}

abbrev pub invalid_shift_request : Error
invalid_shift_request = domain validation "invalid_shift_request"

abbrev pub dependency_unavailable : Error
dependency_unavailable = domain dependency "dependency_unavailable"

abbrev pub shift_open_forbidden : Error
shift_open_forbidden = domain authorization "shift_open_forbidden"

abbrev pub backfill_approval_required : Error
backfill_approval_required = domain validation "backfill_approval_required"

abbrev pub backfill_out_of_order : Error
backfill_out_of_order = domain conflict "backfill_out_of_order"

pub record OpenRequest : Type 0 where
  pub org_id : Uuid
  pub station_id : Uuid
  pub actor_id : Uuid
  pub role : String
  pub opened_at : Time
  pub backfilled : Bool
  pub original_event_date : String
  pub shift_ke : ℕ
  pub backfill_approver : Uuid
  pub backfill_reason : String

-- `Shift`
pub record Opened : Type 0 where
  pub shift_id : Uuid
  pub org_id : Uuid
  pub station_id : Uuid
  pub station_seq : ℕ
  pub supervisor_id : Uuid
  pub opened_at : Time
  pub timezone_snapshot : String
  pub business_date : String
  pub status : String
  pub price_map_snapshot : Bytes
  pub price_map_hash : Bytes

-- a row of `nozzles`, and one of a table of what holds for a nozzle during a period
pub record NozzleRow : Type 0 where
  pub org_id : Uuid
  pub station_id : Uuid
  pub nozzle_id : Uuid
  pub dispenser_id : Uuid
  pub meter_max : Decimal

-- `dispenser_prices`, `dispenser_nozzle_map` and `nozzle_tank_map`: `valid_period @> t` as a test of
-- t, and the price of a row of `dispenser_prices`
pub record PeriodRow : Type 0 where
  pub row_id : Uuid
  pub org_id : Uuid
  pub station_id : Uuid
  pub nozzle_id : Uuid
  pub valid_at : Time → Bool
  pub price : Decimal

-- the tables that only the catalog reads
pub record Catalog : Type 0 where
  pub nozzles : List NozzleRow
  pub dispenser_prices : List PeriodRow
  pub dispenser_nozzle_map : List PeriodRow
  pub nozzle_tank_map : List PeriodRow

pub record CatalogSnapshotItem : Type 0 where
  pub dispenser_id : String
  pub nozzle_id : String
  pub meter_max : Decimal
  pub modulus : Decimal
  pub price : Decimal
  pub price_id : String
  pub dispenser_nozzle_map_id : String
  pub nozzle_tank_map_id : Option String

-- What the packages call: `json.Marshal`, `sha256.Sum256`, and the dates of the package `time`.
pub record Library : Type 0 where
  pub audit : Audit.Library
  pub json_marshal : Value → Bytes
  pub catalog_json : List CatalogSnapshotItem → Bytes
  pub sum256 : Bytes → Bytes
  pub parse_date : String → Option Time
  pub format_date : Time → String
  pub date_after : String → String → Bool
  pub local_date : String → Option (Time → String)

unfoldable pub flat_map {ℓ κ} : {A : Type ℓ} {B : Type κ} → (A → List B) → List A → List B
flat_map f [] = []
flat_map f (x ∷ xs) = f x ++ flat_map f xs

abbrev drop_minus : Bytes → Bytes
drop_minus [] = []
drop_minus (c ∷ rest) = if c == b'-' then rest else c ∷ rest

-- the first digit of the fraction, or 0
abbrev tenths : Option Bytes → ℕ
tenths none = 0
tenths (some []) = 0
tenths (some (c ∷ rest)) = c - b'0'

abbrev with_point : Bytes → Bytes
with_point [] = []
with_point (c ∷ []) = b'.' ∷ c ∷ []
with_point (c ∷ d ∷ rest) = c ∷ with_point (d ∷ rest)

-- a number of tenths as text
unfoldable pub tenths_text : Bytes → Bytes
tenths_text text = if length text == 1 then b'0' ∷ b'.' ∷ text else with_point text

-- `decimalAddTenth`, on the text of a number of the database: a fraction has digits
unfoldable pub decimal_add_tenth : Bytes → Bytes
unfolding split_point is_digits value_of digits tenths_text
decimal_add_tenth value =
    let (whole, fraction) = split_point value in
    let number = drop_minus whole in
    if length number == 0 || not (is_digits number)
    then value
    else tenths_text (digits (value_of 0 number * 10 + tenths fraction + 1))

abbrev pub is_row_of : NozzleRow → Time → PeriodRow → Bool
is_row_of n t p =
    p.org_id == n.org_id
    && p.station_id == n.station_id
    && p.nozzle_id == n.nozzle_id
    && p.valid_at t

abbrev pub catalog_item :
    Library → NozzleRow → PeriodRow → PeriodRow → Option String → CatalogSnapshotItem
catalog_item lib n p m tank = record {
  dispenser_id = lib.audit.uuid_string n.dispenser_id;
  nozzle_id = lib.audit.uuid_string n.nozzle_id;
  meter_max = n.meter_max;
  modulus = decimal_add_tenth n.meter_max;
  price = p.price;
  price_id = lib.audit.uuid_string p.row_id;
  dispenser_nozzle_map_id = lib.audit.uuid_string m.row_id;
  nozzle_tank_map_id = tank;
}

-- the left join with the tanks
abbrev pub tanks_of : Library → List PeriodRow → List (Option String)
tanks_of lib [] = none ∷ []
tanks_of lib (t ∷ rest) = map (λ x. some (lib.audit.uuid_string x.row_id)) (t ∷ rest)

-- the joins of the catalog for a nozzle
unfoldable pub nozzle_items : Library → Catalog → Time → NozzleRow → List CatalogSnapshotItem
unfolding flat_map
nozzle_items lib catalog t n =
    flat_map
      (λ p.
        flat_map
          (λ m.
            map (catalog_item lib n p m)
              (tanks_of lib (select (is_row_of n t) catalog.nozzle_tank_map)))
          (select (is_row_of n t) catalog.dispenser_nozzle_map))
      (select (is_row_of n t) catalog.dispenser_prices)

-- `catalogSnapshot`
unfoldable pub catalog_snapshot : Library → Catalog → OpenRequest → Result (Bytes × Bytes)
unfolding nozzle_items
catalog_snapshot lib catalog r =
    let items = flat_map (nozzle_items lib catalog r.opened_at) (
      order_by (λ n. n.nozzle_id)
        (select (λ n. n.org_id == r.org_id && n.station_id == r.station_id) catalog.nozzles)) in
    let payload = lib.catalog_json items in
    if length items == 0
    then err (plain "catalog snapshot is incomplete")
    else ok (payload, lib.sum256 payload)

abbrev pub of_station : OpenRequest → ShiftModel → Bool
of_station r s = s.org_id == r.org_id && s.station_id == r.station_id

-- `coalesce(max(station_seq), 0) + 1`
abbrev pub next_sequence : OpenRequest → Db → ℕ
next_sequence r db = max_of (λ s. s.station_seq) (select (of_station r) db.shifts) + 1

-- the count of the readings that later locked shifts carry forward
unfoldable pub later_chained_readings : Library → OpenRequest → String → Db → ℕ
unfolding flat_map
later_chained_readings lib r date db = length (
    flat_map
      (λ s.
        flat_map
          (λ p.
            select
              (λ d.
                d.org_id == p.org_id
                && d.station_id == p.station_id
                && d.shift_id == p.shift_id
                && d.report_id == p.report_id
                && d.is_carried_forward)
              db.readings)
          (select
            (λ p.
              p.org_id == s.org_id
              && p.station_id == s.station_id
              && p.shift_id == s.shift_id
              && holds s.current_report_id p.report_id)
            db.reports))
      (select
        (λ s. of_station r s && str_eq s.status "locked" && lib.date_after s.business_date date)
        db.shifts))

-- the columns of a backfilled shift
pub record Backfill : Type 0 where
  pub event_date : Time
  pub number : ℕ
  pub approver : Uuid
  pub reason : String
  pub approved_at : Time

abbrev pub approvers : OpenRequest → Db → ℕ
approvers r db =
    count
      (λ x.
        x.org_id == r.org_id
        && x.station_id == r.station_id
        && x.user_id == r.backfill_approver
        && (str_eq x.role "Owner" || str_eq x.role "Superadmin"))
      db.roles

abbrev pub lacks_backfill_data : Library → OpenRequest → Bool
lacks_backfill_data lib r =
    r.backfill_approver == nil_uuid
    || ltb r.shift_ke 1
    || str_eq (lib.audit.trim_space r.backfill_reason) ""

abbrev pub has_backfill_data : Library → OpenRequest → Bool
has_backfill_data lib r =
    not (str_eq r.original_event_date "")
    || not (r.shift_ke == 0)
    || not (r.backfill_approver == nil_uuid)
    || not (str_eq (lib.audit.trim_space r.backfill_reason) "")

-- the part of `OpenShift` on backfilled shifts
unfoldable pub check_backfill : Library → OpenRequest → Db → Result (Option Backfill)
unfolding later_chained_readings
check_backfill lib r db =
    if r.backfilled
    then (do
      date ← found_or backfill_approval_required (lib.parse_date r.original_event_date)
      refuse_if (lacks_backfill_data lib r) backfill_approval_required
      refuse_if (not (approvers r db == 1)) backfill_approval_required
      refuse_if (ltb 0 (later_chained_readings lib r (lib.format_date date) db))
          backfill_out_of_order
      ok (
          some (record {
            event_date = date;
            number = r.shift_ke;
            approver = r.backfill_approver;
            reason = lib.audit.trim_space r.backfill_reason;
            approved_at = r.opened_at;
          })))
    else (do refuse_if (has_backfill_data lib r) backfill_approval_required; ok none)

-- what `uuid.New` returns for the shift and the draft, and the time that gorm gives the new row
pub record FreshIds : Type 0 where
  pub shift_id : Uuid
  pub draft_id : Uuid
  pub created_at : Time

-- What `OpenShift` reads before it writes.
pub record Basis : Type 0 where
  pub station : StationModel
  pub backfill : Option Backfill
  pub snapshot : Bytes
  pub hash : Bytes
  pub date : String

unfoldable pub read_basis : Library → Catalog → OpenRequest → Db → Result Basis
unfolding check_backfill catalog_snapshot
read_basis lib catalog r db = do
  require_enabled db r.org_id r.station_id
  station ←
      found_or (wrapped "lock station" record_not_found)
        (first (λ s. s.org_id == r.org_id && s.station_id == r.station_id) db.stations)
  backfill ← check_backfill lib r db
  (snapshot, hash) ← catalog_snapshot lib catalog r
  local ← found_or (plain "load station timezone") (lib.local_date station.timezone)
  ok (record {
    station = station;
    backfill = backfill;
    snapshot = snapshot;
    hash = hash;
    date = local r.opened_at;
  })

unfoldable pub shift_row : OpenRequest → FreshIds → ℕ → Basis → ShiftModel
shift_row r ids sequence b = record {
  shift_id = ids.shift_id;
  org_id = r.org_id;
  station_id = r.station_id;
  station_seq = sequence;
  supervisor_id = r.actor_id;
  opened_at = r.opened_at;
  closed_at = none;
  timezone_snapshot = b.station.timezone;
  business_date = b.date;
  status = "open";
  current_report_id = none;
  original_event_date = Option.map (λ x. x.event_date) b.backfill;
  shift_ke = Option.map (λ x. x.number) b.backfill;
  backfilled = r.backfilled;
  backfill_approver = Option.map (λ x. x.approver) b.backfill;
  backfill_approved_at = Option.map (λ x. x.approved_at) b.backfill;
  backfill_reason = Option.map (λ x. x.reason) b.backfill;
  shift_price_map_snapshot = b.snapshot;
  shift_price_map_hash = b.hash;
  created_at = ids.created_at;
}

unfoldable pub draft_row : OpenRequest → FreshIds → ShiftDraftModel
draft_row r ids = record {
  draft_id = ids.draft_id;
  org_id = r.org_id;
  station_id = r.station_id;
  shift_id = ids.shift_id;
  owned_by = some r.actor_id;
  claim_token = none;
  claim_expires_at = none;
  status = "editing";
  revision = 1;
  updated_by = some r.actor_id;
  recovery_count = 0;
  updated_at = r.opened_at;
}

abbrev pub opened_event : Library → OpenRequest → FreshIds → ℕ → Audit.AppendRequest
opened_event lib r ids sequence = record {
  org_id = r.org_id;
  event_id = ids.shift_id;
  event_type = "shift.opened";
  payload = lib.json_marshal (
      object (
        member "shift_id" (str (lib.audit.uuid_string ids.shift_id)) (
          member "station_id" (str (lib.audit.uuid_string r.station_id))
            (member "station_seq" (int (pos sequence)) no_members))));
  outcome = "success";
  outcome_error = "";
}

unfoldable pub opened : OpenRequest → FreshIds → ℕ → Basis → Opened
opened r ids sequence b = record {
  shift_id = ids.shift_id;
  org_id = r.org_id;
  station_id = r.station_id;
  station_seq = sequence;
  supervisor_id = r.actor_id;
  opened_at = r.opened_at;
  timezone_snapshot = b.station.timezone;
  business_date = b.date;
  status = "open";
  price_map_snapshot = b.snapshot;
  price_map_hash = b.hash;
}

unfoldable pub write_open : Library → OpenRequest → FreshIds → ℕ → Basis → Db → Result (Opened × Db)
unfolding shift_row draft_row opened
write_open lib r ids sequence b db = do
  let filled = record db {
    shifts = create (shift_row r ids sequence b) db.shifts;
    drafts = create (draft_row r ids) db.drafts;
  }
  (event, final) ←
      wrap_error "append shift audit event"
        (append_in_transaction lib.audit (opened_event lib r ids sequence) r.opened_at filled)
  ok (opened r ids sequence b, final)

-- `OpenShift` of the repository
unfoldable pub open_shift : Library → Catalog → OpenRequest → FreshIds → Db → Result (Opened × Db)
unfolding read_basis write_open
open_shift lib catalog r ids db = do
  basis ← read_basis lib catalog r db
  write_open lib r ids (next_sequence r db) basis db

abbrev pub at_clock : Time → OpenRequest → OpenRequest
at_clock now r = if r.opened_at == 0 then record r { opened_at = now } else r

-- What `OpenShift` of the service tests.
unfoldable pub validate_open : Library → OpenRequest → Result (Unit {0})
validate_open lib r = do
  refuse_if (r.org_id == nil_uuid || r.station_id == nil_uuid || r.actor_id == nil_uuid)
      invalid_shift_request
  refuse_if (not (str_eq r.role "Supervisor")) shift_open_forbidden
  refuse_if
      (if r.backfilled
        then str_eq r.original_event_date "" || lacks_backfill_data lib r
        else has_backfill_data lib r)
      backfill_approval_required

-- `OpenShift` of the service, whose repository and clock may be missing
unfoldable pub service_open_shift :
    Library → Catalog → Option Db → Option Time → OpenRequest → FreshIds → Result (Opened × Db)
unfolding validate_open open_shift
service_open_shift lib catalog repository clock r ids = do
  db ← found_or dependency_unavailable repository
  now ← found_or dependency_unavailable clock
  validate_open lib r
  (result, final) ← open_shift lib catalog (at_clock now r) ids db
  refuse_if
      (not (str_eq result.status "open") || result.shift_id == nil_uuid || ltb result.station_seq 1)
      (plain "shift repository returned an invalid open shift")
  ok (result, final)
