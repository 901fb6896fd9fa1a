-- ===== src/Relay/Delivery.antt =====
-- `Worker.Deliver` over the lease of the event.
use pomkita_be.Prelude.{
  first, update_where, first-holds, first-update_where, first_of_stronger, is_after, ◌+◌, ◌<◌, ◌≡◌,
  refl, inl, inr, true, false, ◌&&◌, Option, none, some, [], arith, ◌==◌, str_eq, Uuid, Time,
}
use pomkita_be.Prelude.Text.{Bytes}
use pomkita_be.Domain.{Result-cases, Error, ok}
use pomkita_be.Store.{Db}
use pomkita_be.Store.AuditRows.{OutboxRelayStateModel, AuditOutboxModel}
use pomkita_be.Relay.{
  Event, of_event, is_busy, lease_duration, claim_at, finish_at, deliver, claimed, settle, finished,
  mark_finished, mark_in_flight, of_lease,
}
use pomkita_be.Relay.Lease.{finish-terminal, finish-row}

-- A delivery without an error marks the event as delivered.
settle-finished :
    (answer : Option (Error × Bytes)) (org ev lease : Uuid) (now : Time) (db db' : Db)
    → settle answer org ev lease now db ≡ ((true, none), db')
    → finish_at org ev lease true [] now db ≡ ok (tt, db')
unfolding settle finished
settle-finished none org ev lease now db db' h =
    elim (Result-cases (finish_at org ev lease true [] now db)) [
      | inl (e, q) ↦ ground (arith, q, h)
      | inr ((u, final), q) ↦ ground (arith, q, h)
    ]
settle-finished (some (e, text)) org ev lease now db db' h =
    elim (Result-cases (finish_at org ev lease false text now db)) [
      | inl (f, q) ↦ ground (arith, q, h)
      | inr ((u, final), q) ↦ ground (arith, q, h)
    ]

-- Once `Deliver` has answered that the event was claimed and without an error, a call on the
-- resulting database answers that there is nothing to claim and changes nothing, whatever its sink
-- and its times.
pub deliver-once :
    (send again : Event → Option (Error × Bytes)) (org ev lease other : Uuid)
    (claimed_at finished_at later last : Time) (db db' : Db)
    → deliver send org ev lease claimed_at finished_at db ≡ ((true, none), db')
    → deliver again org ev other later last db' ≡ ((false, none), db')
unfolding deliver claimed
deliver-once send again org ev lease other claimed_at finished_at later last db db' h =
    elim (Result-cases (claim_at org ev lease claimed_at db)) [
      | inl (e, q) ↦ absurd (ground (arith, q, h))
      | inr ((none, held), q) ↦ absurd (ground (arith, q, h))
      | inr ((some (event, token), held), q) ↦
          let settled : settle (send event) org ev token finished_at held ≡ ((true, none), db') =
            ground (arith, q, h) in
          let done = settle-finished (send event) org ev token finished_at held db' settled in
          let nothing = finish-terminal org ev token other finished_at later [] held db' done in
          ground (arith, nothing)
    ]

-- The rows of the relay states after a claim.
abbrev pub claimed_rows : Uuid → Uuid → Uuid → Time → OutboxRelayStateModel → Db → Db
claimed_rows org ev lease now s db = record db {
  relay_states =
      update_where (of_event org ev) (mark_in_flight (s.attempt_count + 1) lease now)
        db.relay_states;
}

claim-idle :
    (org ev lease : Uuid) (now : Time) (db : Db) (s : OutboxRelayStateModel) (o : AuditOutboxModel)
    → first (of_event org ev) db.relay_states ≡ some s
    → is_busy s now ≡ false
    → first (λ x. x.org_id == org && x.event_id == ev) db.audit_outbox ≡ some o
    → claim_at org ev lease now db
      ≡ ok (
        some (
          record { event_id = o.event_id; event_type = o.event_type; payload = o.payload },
          lease,
        ),
        claimed_rows org ev lease now s db,
      )
unfolding claim_at
claim-idle org ev lease now db s o e busy row = rw (e, busy, row) refl

-- The holder of a fresh lease can report its outcome in time.
finish-claimed :
    (org ev lease : Uuid) (now later : Time) (db : Db) (s : OutboxRelayStateModel)
    → first (of_event org ev) db.relay_states ≡ some s
    → later < now + lease_duration
    → (db' : Db) × (finish_at org ev lease true [] later (claimed_rows org ev lease now s db)
        ≡ ok (tt, db'))
unfolding finish_at mark_in_flight
finish-claimed org ev lease now later db s e early =
    let marked = mark_in_flight (s.attempt_count + 1) lease now s in
    let held = first-holds (of_event org ev) db.relay_states s e in
    let found =
      first-update_where (of_event org ev) (mark_in_flight (s.attempt_count + 1) lease now)
        db.relay_states s e held in
    let mine : of_lease org ev lease marked ≡ true = ground arith in
    let row =
      first_of_stronger (of_event org ev) (of_lease org ev lease)
        (claimed_rows org ev lease now s db).relay_states marked (λ y k. ground arith) mine found in
    let live : is_after marked.lease_expires_at later ≡ true = ground arith in
    (
      record (claimed_rows org ev lease now s db) {
        relay_states =
            update_where (of_event org ev) (mark_finished true [] (s.attempt_count + 1) later)
              (claimed_rows org ev lease now s db).relay_states;
      },
      ground (arith, row, live),
    )

-- An event with an outbox row whose state is not busy is delivered in one call, with no error and
-- the status "delivered", if the sink takes every event and the outcome is recorded before the
-- lease expires.
pub deliver-delivers :
    (send : Event → Option (Error × Bytes)) (org ev lease : Uuid) (claimed_at finished_at : Time)
    (db : Db) (s : OutboxRelayStateModel) (o : AuditOutboxModel)
    → first (of_event org ev) db.relay_states ≡ some s
    → is_busy s claimed_at ≡ false
    → first (λ x. x.org_id == org && x.event_id == ev) db.audit_outbox ≡ some o
    → ((e : Event) → send e ≡ none)
    → finished_at < claimed_at + lease_duration
    → (db' : Db) × (t : OutboxRelayStateModel) × (deliver send org ev lease claimed_at finished_at
          db
        ≡ ((true, none), db'))
      × (first (of_event org ev) db'.relay_states ≡ some t)
      × (str_eq t.relay_status "delivered" ≡ true)
unfolding deliver claimed settle finished mark_finished
deliver-delivers send org ev lease claimed_at finished_at db s o e busy row accepts early =
    let (db', done) = finish-claimed org ev lease claimed_at finished_at db s e early in
    let (_, t, _, state) =
      finish-row org ev lease finished_at true [] (claimed_rows org ev lease claimed_at s db) db'
        done in
    let taken =
      accepts (record { event_id = o.event_id; event_type = o.event_type; payload = o.payload }) in
    (
      db',
      _,
      let grant = claim-idle org ev lease claimed_at db s o e busy row in
          ground (arith, grant, taken, done),
      state,
      refl,
    )
