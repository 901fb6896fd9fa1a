-- ===== src/Draft/Samples.antt =====
-- The theorems about drafts at a concrete draft.
use pomkita_be.Scope.{require_enabled}
use pomkita_be.Reconciliation.{is_whole, split_point}
use pomkita_be.Prelude.{first, ◌+◌, ◌≡◌, refl, ◌≢◌, none, some, [], ◌∷◌, arith, count, update_where}
use pomkita_be.Domain.{ok, err}
use pomkita_be.Samples.{sample_db, state_of}
use pomkita_be.Store.{Db}
use pomkita_be.Store.Shifts.{ShiftDraftModel}
use pomkita_be.Draft.{claim, draft_lease_duration, write_reading}
use pomkita_be.Draft.Requests.{
  ClaimRequest, ClaimResult, WriteReadingRequest, WriteSalesRequest, claim_expired,
}
use pomkita_be.Draft.Lease.{claim-exclusive}
use pomkita_be.Draft.Writes.{reading, sale, write, rows_of}
use pomkita_be.Draft.Fencing.{of_id, write-once, claim-fences, write-counted}
use pomkita_be.Draft.Service.{Service, service_write_reading}
use pomkita_be.Draft.Service.Accepted.{Accepted, service_write_reading-Accepted}

abbrev draft : ShiftDraftModel
draft = record {
  draft_id = 5;
  org_id = 1;
  station_id = 2;
  shift_id = 3;
  owned_by = none;
  claim_token = none;
  claim_expires_at = none;
  status = "open";
  revision = 1;
  updated_by = none;
  recovery_count = 0;
  updated_at = 0;
}

abbrev opened : Db
opened = record sample_db { drafts = draft ∷ [] }

abbrev by_nine : ClaimRequest
by_nine = record { draft_id = 5; shift_id = 3; actor_id = 9 }

abbrev by_eight : ClaimRequest
by_eight = record { draft_id = 5; shift_id = 3; actor_id = 8 }

abbrev granted : ClaimResult
granted = record {
  draft_id = 5;
  claim_token = 40;
  claim_expires_at = 100 + draft_lease_duration;
  revision = 1;
}

abbrev claimed : Db
unfolding claim
claimed = state_of (claim by_nine 40 100 opened) opened

claimed_is : claim by_nine 40 100 opened ≡ ok (granted, claimed)
unfolding claim first require_enabled
claimed_is = refl

claim-exclusive_example : claim by_eight 41 200 claimed ≡ err claim_expired
claim-exclusive_example =
    claim-exclusive by_nine by_eight 40 41 100 200 opened claimed granted claimed_is refl refl
      (omega arith) (omega arith)

abbrev a_reading : WriteReadingRequest
a_reading = record {
  draft_id = 5;
  claim_token = 40;
  revision = 1;
  nozzle_id = 11;
  meter_start = "10.5";
  meter_end = "12";
  actor_id = 9;
}

abbrev a_sale : WriteSalesRequest
a_sale = record {
  draft_id = 5;
  claim_token = 40;
  revision = 1;
  dispenser_id = 12;
  cash_amount = "1000";
  cashless_amount = "0";
  actor_id = 9;
}

abbrev late_sale : WriteSalesRequest
late_sale = record a_sale { claim_token = 39 }

abbrev read : Db
unfolding write
read = state_of (write (reading a_reading) 60 200 claimed) claimed

read_is : write (reading a_reading) 60 200 claimed ≡ ok (2, read)
unfolding write write_reading first claimed require_enabled update_where
read_is = refl

write-once_example : write (sale a_sale) 61 300 read ≢ ok (3, read)
write-once_example =
    write-once (reading a_reading) (sale a_sale) 60 61 200 300 claimed 2 read read_is refl refl 3
      read

claim-fences_example : write (sale late_sale) 61 300 claimed ≢ ok (2, read)
claim-fences_example =
    claim-fences by_nine 40 100 opened claimed granted claimed_is (sale late_sale) 61 300 refl
      (omega arith) 2 read

abbrev claimed_draft : ShiftDraftModel
claimed_draft = record draft {
  owned_by = some 9;
  claim_token = some 40;
  claim_expires_at = some (100 + draft_lease_duration);
  status = "editing";
  updated_by = some 9;
  updated_at = 100;
}

claimed_draft_is : first (of_id 5) claimed.drafts ≡ some claimed_draft
unfolding claim first require_enabled update_where
claimed_draft_is = refl

one_more : claimed_draft.revision ≡ rows_of 5 claimed + 1
unfolding rows_of count claimed first require_enabled
one_more = refl

write-counted_example :
    (d' : ShiftDraftModel) × (first (of_id 5) read.drafts ≡ some d')
    × (d'.revision ≡ rows_of 5 read + 1)
write-counted_example =
    write-counted (reading a_reading) 60 200 claimed 2 read claimed_draft claimed_draft_is one_more
      read_is

abbrev service : Service
service = record { repository = some claimed; clock = some 200 }

served_is : service_write_reading (some service) a_reading 60 ≡ ok (2, read)
unfolding service_write_reading split_point is_whole write_reading first claimed require_enabled
    update_where read
served_is = refl

service_write_reading-Accepted_example : Accepted service a_reading 2 read
service_write_reading-Accepted_example =
    service_write_reading-Accepted service a_reading 60 2 read served_is
