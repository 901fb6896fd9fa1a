-- ===== src/Shift/Samples.antt =====
-- The theorem about the numbers of shifts at a station with one nozzle.
use pomkita_be.Prelude.{
  max_of, count, select, first, ◌<◌, ◌≡◌, refl, true, false, none, some, [], ◌∷◌, order_by, All,
}
use pomkita_be.Prelude.Text.{codes}
use pomkita_be.Domain.{ok}
use pomkita_be.Samples.{state_of, sample_db}
use pomkita_be.Audit.Samples.{sample_library}
use pomkita_be.Scope.{require_enabled}
use pomkita_be.Canonical.{marshal}
use pomkita_be.Audit.{append_in_transaction, audit_row_hash}
use pomkita_be.Store.{Db}
use pomkita_be.Shift.{
  Library, Catalog, OpenRequest, Opened, FreshIds, open_shift, decimal_add_tenth, of_station,
}
use pomkita_be.Shift.Sequence.{IsNumbered, open_shift-IsNumbered}

first_tenth : decimal_add_tenth (codes "0.0") ≡ codes "0.1"
unfolding decimal_add_tenth
first_tenth = refl

next_tenth : decimal_add_tenth (codes "99999.9") ≡ codes "100000.0"
unfolding decimal_add_tenth
next_tenth = refl

abbrev library : Library
library = record {
  audit = sample_library;
  json_marshal = λ v. codes "{}";
  catalog_json = λ items. codes "[]";
  sum256 = λ t. t;
  parse_date = λ t. none;
  format_date = λ t. "";
  date_after = λ a b. false;
  local_date = λ zone. some (λ t. "2024-01-01");
}

abbrev catalog : Catalog
catalog = record {
  nozzles =
      record {
        org_id = 1;
        station_id = 2;
        nozzle_id = 5;
        dispenser_id = 6;
        meter_max = codes "999.9";
      }
      ∷ [];
  dispenser_prices =
      record {
        row_id = 61;
        org_id = 1;
        station_id = 2;
        nozzle_id = 5;
        valid_at = λ t. true;
        price = codes "10000";
      }
      ∷ [];
  dispenser_nozzle_map =
      record {
        row_id = 62;
        org_id = 1;
        station_id = 2;
        nozzle_id = 5;
        valid_at = λ t. true;
        price = [];
      }
      ∷ [];
  nozzle_tank_map = [];
}

abbrev request : OpenRequest
request = record {
  org_id = 1;
  station_id = 2;
  actor_id = 9;
  role = "Supervisor";
  opened_at = 40;
  backfilled = false;
  original_event_date = "";
  shift_ke = 0;
  backfill_approver = 0;
  backfill_reason = "";
}

abbrev ids : FreshIds
ids = record { shift_id = 3; draft_id = 4; created_at = 41 }

abbrev later : FreshIds
later = record { shift_id = 13; draft_id = 14; created_at = 51 }

abbrev opened_once : Db
unfolding open_shift
opened_once = state_of (open_shift library catalog request ids sample_db) sample_db

abbrev opened_twice : Db
unfolding open_shift
opened_twice = state_of (open_shift library catalog request later opened_once) sample_db

abbrev second_shift : Opened
second_shift = record {
  shift_id = 13;
  org_id = 1;
  station_id = 2;
  station_seq = 2;
  supervisor_id = 9;
  opened_at = 40;
  timezone_snapshot = "Asia/Jakarta";
  business_date = "2024-01-01";
  status = "open";
  price_map_snapshot = codes "[]";
  price_map_hash = codes "[]";
}

second_is : open_shift library catalog request later opened_once ≡ ok (second_shift, opened_twice)
unfolding open_shift count select first order_by append_in_transaction audit_row_hash marshal
    require_enabled max_of
second_is = refl

once-IsNumbered : IsNumbered opened_once.shifts
unfolding opened_once open_shift count select first order_by append_in_transaction audit_row_hash
    marshal require_enabled max_of
once-IsNumbered = (tt, tt)

open_shift-IsNumbered_example :
    IsNumbered opened_twice.shifts
    × All (λ s. of_station request s ≡ true → s.station_seq < 2) opened_once.shifts
open_shift-IsNumbered_example =
    open_shift-IsNumbered library catalog request later opened_once opened_twice second_shift
      second_is once-IsNumbered
