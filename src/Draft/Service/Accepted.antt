-- ===== src/Draft/Service/Accepted.antt =====
-- The writes through the service, and the decimals that it lets through.
use pomkita_be.Prelude.{
  first, ℕ, ◌+◌, String, ◌≡◌, inl, inr, true, Option, none, some, arith, Uuid, Time,
}
use pomkita_be.Prelude.Text.{codes}
use pomkita_be.Domain.{passed, Result-cases, >>=-ok, Error, ok, found_or}
use pomkita_be.Store.{Db}
use pomkita_be.Store.Shifts.{ShiftDraftModel}
use pomkita_be.Reconciliation.{parse_decimal, Parsed}
use pomkita_be.Draft.{holds_lease}
use pomkita_be.Draft.Requests.{WriteReadingRequest, invalid_request}
use pomkita_be.Draft.Writes.{reading, write}
use pomkita_be.Draft.Fencing.{write-row, of_id}
use pomkita_be.Draft.Service.{
  Service, service_write_reading, valid_decimal, bad_reading, dependency_unavailable,
}

pub parse_decimal_total :
    (value : String)
    → valid_decimal value ≡ true
    → (d : Parsed) × (parse_decimal (codes value) ≡ ok d)
unfolding valid_decimal parse_decimal
parse_decimal_total value h = elim (Result-cases (parse_decimal (codes value))) [
  | inl (error, e) ↦ ground (arith, e, h)
  | inr (d, e) ↦ (d, e)
]

-- A reading that was accepted: both meter readings are decimals, and the draft's row, whose lease the
-- actor holds and whose revision the request names, gets the next revision.
abbrev pub Accepted : Service → WriteReadingRequest → ℕ → Db → Type 0
Accepted s r n db' =
    (db : Db) × (now : Time) × (d : ShiftDraftModel) × (start : Parsed) × (end : Parsed)
    × (s.repository ≡ some db)
    × (s.clock ≡ some now)
    × (parse_decimal (codes r.meter_start) ≡ ok start)
    × (parse_decimal (codes r.meter_end) ≡ ok end)
    × (first (of_id r.draft_id) db.drafts ≡ some d)
    × (holds_lease d r.claim_token r.actor_id now ≡ true)
    × (d.revision ≡ r.revision)
    × (n ≡ r.revision + 1)
    × (first (of_id r.draft_id) db'.drafts
        ≡ some (record d { revision = n; updated_by = some r.actor_id; updated_at = now }))

found_or_ok : {A : Type 0} (e : Error) (o : Option A) (a : A) → found_or e o ≡ ok a → o ≡ some a
found_or_ok e (some b) a h = cc
found_or_ok e none a h = cc

-- A reading that the service answers with a revision is accepted: the reconciliation can read both of
-- its decimals, and the draft it names was leased to the actor at the revision it names and has the
-- next one now.
pub service_write_reading-Accepted :
    (s : Service) (r : WriteReadingRequest) (fresh : Uuid) (n : ℕ) (db' : Db)
    → service_write_reading (some s) r fresh ≡ ok (n, db')
    → Accepted s r n db'
unfolding service_write_reading bad_reading write
service_write_reading-Accepted s r fresh n db' h =
    let (db, e, h1) = >>=-ok (found_or dependency_unavailable s.repository) _ h in
    let (now, f, h2) = >>=-ok (found_or dependency_unavailable s.clock) _ h1 in
    let (fine, h3) = passed (bad_reading r) invalid_request h2 in
    let (start, es) = parse_decimal_total r.meter_start (ground (arith, fine)) in
    let (end, ee) = parse_decimal_total r.meter_end (ground (arith, fine)) in
    let (d, row, rev, lease, next, row') = write-row (reading r) fresh now db n db' h3 in
    (
      db,
      now,
      d,
      start,
      end,
      found_or_ok dependency_unavailable s.repository db e,
      found_or_ok dependency_unavailable s.clock now f,
      es,
      ee,
      row,
      lease,
      rev,
      next,
      row',
    )
