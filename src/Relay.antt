-- ===== src/Relay.antt =====
-- internal/repository/relay/repository.go and internal/service/relay/service.go: one audit event
-- is delivered to a sink under a lease, with a growing delay between failed attempts.
pub mod Lease
pub mod Delivery
mod Samples
use Prim.Native.Nat.{min}
use pomkita_be.Prelude.{
  Uuid, Time, String, ℕ, ◌+◌, ◌*◌, ◌^◌, Bool, true, false, ◌&&◌, ◌||◌, not, Option, none, some,
  List, ◌==◌, ltb, str_eq, is_after, holds, if◌then◌else◌, first, update_where, length, take,
  minute, second, [],
}
use pomkita_be.Prelude.Text.{Bytes}
use pomkita_be.Domain.{
  Error, Result, ok, err, plain, refuse_if, found_or, wrapped, transaction, record_not_found, ◌>>=◌,
  ◌>>◌,
}
use pomkita_be.Store.{Db}
use pomkita_be.Store.AuditRows.{OutboxRelayStateModel, AuditOutboxModel}

-- `relay.Event`
pub record Event : Type 0 where
  pub event_id : Uuid
  pub event_type : String
  pub payload : Bytes

-- `org_id = ? and event_id = ?`
abbrev pub of_event : Uuid → Uuid → OutboxRelayStateModel → Bool
of_event org_id event_id s = s.org_id == org_id && s.event_id == event_id

-- `org_id = ? and event_id = ? and lease_token = ? and relay_status = 'in_flight'`
abbrev pub of_lease : Uuid → Uuid → Uuid → OutboxRelayStateModel → Bool
of_lease org_id event_id lease s =
    of_event org_id event_id s && holds s.lease_token lease && str_eq s.relay_status "in_flight"

-- The states that `ClaimAt` leaves alone.
unfoldable pub is_busy : OutboxRelayStateModel → Time → Bool
is_busy state now =
    str_eq state.relay_status "delivered"
    || (str_eq state.relay_status "in_flight" && is_after state.lease_expires_at now)
    || (str_eq state.relay_status "failed" && is_after state.next_attempt_at now)

abbrev pub lease_duration : Time
lease_duration = 5 * minute

-- the columns that a claim writes
unfoldable pub mark_in_flight : ℕ → Uuid → Time → OutboxRelayStateModel → OutboxRelayStateModel
mark_in_flight attempt_count lease now s = record s {
  relay_status = "in_flight";
  attempt_count = attempt_count;
  lease_token = some lease;
  lease_expires_at = some (now + lease_duration);
  last_attempt_at = some now;
  last_error = none;
}

-- `ClaimAt`; `lease` is what `uuid.New` returns. `none` is the result with `claimed == false`.
unfoldable pub claim_at : Uuid → Uuid → Uuid → Time → Db → Result (Option (Event × Uuid) × Db)
unfolding mark_in_flight is_busy
claim_at org_id event_id lease now db = do
  state ←
      found_or (wrapped "load relay state" record_not_found)
        (first (of_event org_id event_id) db.relay_states)
  if is_busy state now then ok (none, db) else do
    outbox ←
        found_or (wrapped "load relay outbox" record_not_found)
          (first (λ o. o.org_id == org_id && o.event_id == event_id) db.audit_outbox)
    let marked =
        update_where (of_event org_id event_id) (mark_in_flight (state.attempt_count + 1) lease now)
          db.relay_states
    ok (
      some (
        record {
          event_id = outbox.event_id;
          event_type = outbox.event_type;
          payload = outbox.payload;
        },
        lease,
      ),
      record db { relay_states = marked },
    )

-- `attempt > 12` is cut to 12 before the shift.
unfoldable pub retry_delay : ℕ → Time
retry_delay attempt = 2 ^ (if ltb 12 attempt then 12 else attempt) * second

unfoldable pub truncate_relay_error : Bytes → Bytes
truncate_relay_error value = if ltb 1000 (length value) then take 1000 value else value

-- the columns that `FinishAt` writes
unfoldable pub mark_finished :
    Bool → Bytes → ℕ → Time → OutboxRelayStateModel → OutboxRelayStateModel
unfolding retry_delay truncate_relay_error
mark_finished true failure attempt now s = record s {
  relay_status = "delivered";
  lease_token = none;
  lease_expires_at = none;
  next_attempt_at = none;
  delivered_at = some now;
  last_error = none;
}
mark_finished false failure attempt now s = record s {
  relay_status = "failed";
  lease_token = none;
  lease_expires_at = none;
  next_attempt_at = some (now + retry_delay attempt);
  last_error = some (truncate_relay_error failure);
}

-- `FinishAt`
unfoldable pub finish_at : Uuid → Uuid → Uuid → Bool → Bytes → Time → Db → Result (Unit {0} × Db)
unfolding mark_finished
finish_at org_id event_id lease success failure now db = do
  state ←
      found_or (wrapped "load relay lease" record_not_found)
        (first (of_lease org_id event_id lease) db.relay_states)
  refuse_if (not (is_after state.lease_expires_at now)) (plain "relay lease expired")
  let marked =
      update_where (of_event org_id event_id)
        (mark_finished success failure state.attempt_count now) db.relay_states
  ok (tt, record db { relay_states = marked })

-- `Worker.Deliver` after `Finish`, which returned `r`, with the result when that is no error
unfoldable pub finished :
    String → Option Error → Result (Unit {0}) × Db → (Bool × Option Error) × Db
finished text outcome (ok _, db) = ((true, outcome), db)
finished text outcome (err e, db) = ((true, some (wrapped text e)), db)

-- `Worker.Deliver` from the answer of `Sink.Send` on; `none` is success.
unfoldable pub settle :
    Option (Error × Bytes) → Uuid → Uuid → Uuid → Time → Db → (Bool × Option Error) × Db
unfolding finish_at finished
settle none org_id event_id lease now db =
    finished "finish delivered relay event" none
      (transaction (finish_at org_id event_id lease true [] now) db)
settle (some (e, text)) org_id event_id lease now db =
    finished "finish failed relay event" (some e)
      (transaction (finish_at org_id event_id lease false text now) db)

unfoldable pub claimed :
    (Event → Option (Error × Bytes))
    → Uuid
    → Uuid
    → Time
    → Result (Option (Event × Uuid)) × Db
    → (Bool × Option Error) × Db
unfolding settle
claimed send org_id event_id now (err e, db) = ((false, some e), db)
claimed send org_id event_id now (ok none, db) = ((false, none), db)
claimed send org_id event_id now (ok (some (event, lease)), db) =
    settle (send event) org_id event_id lease now db

-- `Worker.Deliver`: `send` is the sink, and gives the error with its text, or `none` for success.
-- `lease` is what `uuid.New` returns; the two times are those that the two transactions read.
unfoldable pub deliver :
    (Event → Option (Error × Bytes))
    → Uuid
    → Uuid
    → Uuid
    → Time
    → Time
    → Db
    → (Bool × Option Error) × Db
unfolding claim_at claimed
deliver send org_id event_id lease claimed_at finished_at db =
    claimed send org_id event_id finished_at
      (transaction (claim_at org_id event_id lease claimed_at) db)
