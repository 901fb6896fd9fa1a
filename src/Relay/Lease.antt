-- ===== src/Relay/Lease.antt =====
-- `ClaimAt` and `FinishAt`: the lease of an event, and the delay between attempts.
use pomkita_be.Prelude.{
  Uuid, Time, ◌+◌, ◌≡◌, false, some, arith, first, update_where, first-holds, ◌<◌,
  first-update_where, none, Bool, ◌≢◌, is_after, true, first-update_where-none, ℕ, ◌*◌, ◌^◌, ◌≤◌,
  refl, ap, ◌⊎◌, inl, inr, ◌&&◌, ltb, str_eq, holds, Option-cases, first_of_weaker, second,
  Bool-cases,
}
use pomkita_be.Domain.{ok, err, wrapped, record_not_found}
use native.Mathlib.Nat.{pow-le-pow_right}
use pomkita_be.Store.{Db}
use pomkita_be.Store.AuditRows.{OutboxRelayStateModel}
use pomkita_be.Relay.{
  Event, of_event, is_busy, mark_in_flight, claim_at, lease_duration, finish_at, Bytes,
  mark_finished, of_lease, retry_delay,
}

-- A granted claim found a row that was not busy, and marked every row of the event.
pub claim_at-granted :
    (org ev lease : Uuid) (now : Time) (db db' : Db) {e : Event} {token : Uuid}
    → claim_at org ev lease now db ≡ ok (some (e, token), db')
    → (s : OutboxRelayStateModel) × (first (of_event org ev) db.relay_states ≡ some s)
      × (is_busy s now ≡ false)
      × (token ≡ lease)
      × (db'.relay_states
          ≡ update_where
              (of_event org ev)
              (mark_in_flight (s.attempt_count + 1) lease now)
              db.relay_states)
unfolding claim_at
claim_at-granted org ev lease now db db' h = ground arith

-- The row of the event after a granted claim.
abbrev pub Claimed : Uuid → Uuid → Uuid → Time → Db → OutboxRelayStateModel → Type 0
Claimed org ev lease now db s =
    (first (of_event org ev) db.relay_states
      ≡ some (mark_in_flight (s.attempt_count + 1) lease now s))

claim_at-Claimed :
    (org ev lease : Uuid) (now : Time) (db db' : Db) {e : Event} {token : Uuid}
    → claim_at org ev lease now db ≡ ok (some (e, token), db')
    → (s : OutboxRelayStateModel) × Claimed org ev lease now db' s
claim_at-Claimed org ev lease now db db' h =
    let (s, f, busy, tok, marked) = claim_at-granted org ev lease now db db' h in
    let held = first-holds (of_event org ev) db.relay_states s f in
    (
      s,
      rw marked (
          first-update_where (of_event org ev) _ db.relay_states s f
            (unfold mark_in_flight in held)),
    )

-- On the database that a granted claim leaves, every claim of the event before the lease expires
-- is refused and changes nothing.
pub claim_at-exclusive :
    (org ev lease other : Uuid) (now later : Time) (db db' : Db) {e : Event} {token : Uuid}
    → claim_at org ev lease now db ≡ ok (some (e, token), db')
    → later < now + lease_duration
    → claim_at org ev other later db' ≡ ok (none, db')
unfolding claim_at
claim_at-exclusive org ev lease other now later db db' h early =
    let (s, f) = claim_at-Claimed org ev lease now db db' h in rw f (ground arith)

-- On the database that a granted claim leaves, reporting an outcome of the event with a token
-- other than the granted one is refused.
pub finish-fenced :
    (org ev lease stale : Uuid) (now later : Time) (success : Bool) (text : Bytes) (db db' : Db)
    {e : Event} {token : Uuid}
    → claim_at org ev lease now db ≡ ok (some (e, token), db')
    → stale ≢ lease
    → finish_at org ev stale success text later db'
      ≡ err (wrapped "load relay lease" record_not_found)
unfolding finish_at mark_in_flight
finish-fenced org ev lease stale now later success text db db' h other =
    let (s, f, busy, tok, marked) = claim_at-granted org ev lease now db db' h in
    let nobody =
      first-update_where-none (of_event org ev)
        (λ r. of_event org ev r && holds r.lease_token stale && str_eq r.relay_status "in_flight")
        (mark_in_flight (s.attempt_count + 1) lease now) db.relay_states (λ r. ground arith) in
    rw marked (rw nobody refl)

-- A finished delivery held an unexpired lease, and marked every row of the event.
pub finish-marked :
    (org ev lease : Uuid) (now : Time) (success : Bool) (text : Bytes) (db db' : Db)
    → finish_at org ev lease success text now db ≡ ok (tt, db')
    → (s : OutboxRelayStateModel) × (first (of_lease org ev lease) db.relay_states ≡ some s)
      × (is_after s.lease_expires_at now ≡ true)
      × (db'.relay_states
          ≡ update_where
              (of_event org ev)
              (mark_finished success text s.attempt_count now)
              db.relay_states)
unfolding finish_at
finish-marked org ev lease now success text db db' h =
    elim (Option-cases (first (of_lease org ev lease) db.relay_states)) [
      | inl nobody ↦ absurd (ground (arith, nobody))
      | inr (s, e) ↦ (s, e, ground (arith, e), ground (arith, e))
    ]

mark_finished-of_event :
    (org ev : Uuid) (success : Bool) (text : Bytes) (n : ℕ) (now : Time) (s : OutboxRelayStateModel)
    → of_event org ev s ≡ true
    → of_event org ev (mark_finished success text n now s) ≡ true
unfolding mark_finished
mark_finished-of_event org ev true text n now s h = h
mark_finished-of_event org ev false text n now s h = h

-- The row of the event after a finished delivery.
pub finish-row :
    (org ev lease : Uuid) (now : Time) (success : Bool) (text : Bytes) (db db' : Db)
    → finish_at org ev lease success text now db ≡ ok (tt, db')
    → (s t : OutboxRelayStateModel) × (first (of_lease org ev lease) db.relay_states ≡ some s)
      × (first (of_event org ev) db'.relay_states
          ≡ some (mark_finished success text s.attempt_count now t))
finish-row org ev lease now success text db db' h =
    let (s, e, _, marked) = finish-marked org ev lease now success text db db' h in
    let (t, f) =
      first_of_weaker (of_lease org ev lease) (of_event org ev) db.relay_states s
        (λ y k. ground arith) e in
    let held = first-holds (of_event org ev) db.relay_states t f in
    (
      s,
      t,
      e,
      rw marked (
          first-update_where (of_event org ev) (mark_finished success text s.attempt_count now)
            db.relay_states t f
            (mark_finished-of_event org ev success text s.attempt_count now t held)),
    )

-- On the database that a successful `FinishAt` of a delivered event leaves, every claim of the
-- event, at whatever time, is refused and changes nothing.
pub finish-terminal :
    (org ev lease other : Uuid) (now later : Time) (text : Bytes) (db db' : Db)
    → finish_at org ev lease true text now db ≡ ok (tt, db')
    → claim_at org ev other later db' ≡ ok (none, db')
unfolding claim_at mark_finished
finish-terminal org ev lease other now later text db db' h =
    let (s, t, _, f) = finish-row org ev lease now true text db db' h in rw f refl

-- On the database that `FinishAt` of a failed attempt leaves, every claim of the event before the
-- delay for the attempt count of the leased row has passed is refused and changes nothing.
pub finish-backoff :
    (org ev lease other : Uuid) (now later : Time) (text : Bytes) (db db' : Db)
    (s : OutboxRelayStateModel)
    → first (of_lease org ev lease) db.relay_states ≡ some s
    → finish_at org ev lease false text now db ≡ ok (tt, db')
    → later < now + retry_delay s.attempt_count
    → claim_at org ev other later db' ≡ ok (none, db')
unfolding claim_at mark_finished
finish-backoff org ev lease other now later text db db' s e h early =
    let (r, t, e', f) = finish-row org ev lease now false text db db' h in
    let same : r ≡ s = cc in
    rw f (ground (arith, ap (λ (x : OutboxRelayStateModel). x.attempt_count) same))

pow_le_4096 : (n : ℕ) → n ≤ 12 → 2 ^ n ≤ 4096
pow_le_4096 n h = pow-le-pow_right {n = 2} (omega arith) {i = n} {j = 12} h

-- The delay after attempt n is at most 4096 seconds, and it is 2 ^ n seconds unless n is above 12.
pub retry_delay_bounds :
    (n : ℕ) → (retry_delay n ≤ 4096 * second) × ((retry_delay n ≡ 2 ^ n * second) ⊎ (12 < n))
unfolding retry_delay
retry_delay_bounds n = elim (Bool-cases (ltb 12 n)) [
  | inl many ↦ rw many (omega arith, inr (ground arith))
  | inr few ↦ rw few (omega (arith, pow_le_4096 n (ground arith)), inl refl)
]
