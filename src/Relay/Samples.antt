-- ===== src/Relay/Samples.antt =====
-- The theorems about the relay at concrete events.
use pomkita_be.Prelude.{
  first, second, ◌*◌, ◌^◌, ◌≤◌, ◌<◌, ◌≡◌, refl, ◌⊎◌, true, false, none, some, [], ◌∷◌, arith,
  str_eq, update_where,
}
use pomkita_be.Domain.{ok, err, wrapped, record_not_found}
use pomkita_be.Samples.{sample_db, state_of}
use pomkita_be.Store.{Db}
use pomkita_be.Store.AuditRows.{OutboxRelayStateModel, AuditOutboxModel}
use pomkita_be.Relay.{
  Event, claim_at, mark_in_flight, of_lease, of_event, is_busy, finish_at, deliver, retry_delay,
}
use pomkita_be.Relay.Lease.{claim_at-exclusive, finish-fenced, retry_delay_bounds}
use pomkita_be.Relay.Delivery.{deliver-once, deliver-delivers}

abbrev pending : OutboxRelayStateModel
pending = record {
  org_id = 1;
  event_id = 7;
  relay_status = "pending";
  attempt_count = 0;
  lease_token = none;
  lease_expires_at = none;
  last_attempt_at = none;
  next_attempt_at = some 0;
  delivered_at = none;
  last_error = none;
}

abbrev outbox : AuditOutboxModel
outbox = record {
  org_id = 1;
  event_id = 7;
  event_type = "draft.claimed";
  payload = b'{' ∷ b'}' ∷ [];
  created_at = 0;
}

abbrev waiting : Db
waiting = record sample_db { relay_states = pending ∷ []; audit_outbox = outbox ∷ [] }

abbrev the_event : Event
the_event = record { event_id = 7; event_type = "draft.claimed"; payload = b'{' ∷ b'}' ∷ [] }

abbrev leased : Db
unfolding claim_at
leased = state_of (claim_at 1 7 40 5 waiting) waiting

leased_is : claim_at 1 7 40 5 waiting ≡ ok (some (the_event, 40), leased)
unfolding claim_at first
leased_is = refl

claim_at-exclusive_example : claim_at 1 7 41 6 leased ≡ ok (none, leased)
claim_at-exclusive_example = claim_at-exclusive 1 7 40 41 5 6 waiting leased leased_is (omega arith)

finish-fenced_example :
    finish_at 1 7 41 true [] 6 leased ≡ err (wrapped "load relay lease" record_not_found)
finish-fenced_example = finish-fenced 1 7 40 41 5 6 true [] waiting leased leased_is (omega arith)

abbrev delivered : Db
unfolding finish_at
delivered = state_of (finish_at 1 7 40 true [] 6 leased) leased

delivered_is : finish_at 1 7 40 true [] 6 leased ≡ ok (tt, delivered)
unfolding finish_at first leased update_where
delivered_is = refl

abbrev failed : Db
unfolding finish_at
failed = state_of (finish_at 1 7 40 false (b'x' ∷ []) 6 leased) leased

failed_is : finish_at 1 7 40 false (b'x' ∷ []) 6 leased ≡ ok (tt, failed)
unfolding finish_at first leased update_where
failed_is = refl

abbrev leased_row : OutboxRelayStateModel
leased_row = mark_in_flight 1 40 5 pending

leased_row_is : first (of_lease 1 7 40) leased.relay_states ≡ some leased_row
unfolding mark_in_flight first leased update_where
leased_row_is = refl

retry_delay_bounds_example :
    (retry_delay 13 ≤ 4096 * second) × ((retry_delay 13 ≡ 2 ^ 13 * second) ⊎ (12 < 13))
retry_delay_bounds_example = retry_delay_bounds 13

abbrev once : Db
unfolding deliver
once = (deliver (λ e. none) 1 7 40 5 6 waiting).1

once_is : deliver (λ e. none) 1 7 40 5 6 waiting ≡ ((true, none), once)
unfolding deliver first update_where
once_is = refl

deliver-once_example : deliver (λ e. none) 1 7 41 8 9 once ≡ ((false, none), once)
deliver-once_example = deliver-once (λ e. none) (λ e. none) 1 7 40 41 5 6 8 9 waiting once once_is

deliver-delivers_example :
    (db' : Db) × (t : OutboxRelayStateModel) × (deliver (λ e. none) 1 7 40 5 6 waiting
      ≡ ((true, none), db'))
    × (first (of_event 1 7) db'.relay_states ≡ some t)
    × (str_eq t.relay_status "delivered" ≡ true)
unfolding is_busy first
deliver-delivers_example =
    deliver-delivers (λ e. none) 1 7 40 5 6 waiting pending outbox refl refl refl (λ e. refl)
      (omega arith)
