-- ===== src/Draft/Writes.antt =====
-- The four row writes of a draft as one, with what they have in common.
use pomkita_be.Prelude.{count, ℕ, ◌+◌, ◌≡◌, arith, ◌==◌, Uuid, Time}
use pomkita_be.Domain.{Result, ok}
use pomkita_be.Store.{Db}
use pomkita_be.Store.Shifts.{ShiftDraftModel}
use pomkita_be.Draft.Requests.{
  WriteReadingRequest, WriteSalesRequest, WriteLossRequest, StageEvidenceRequest,
}
use pomkita_be.Draft.{
  lock_draft_for_mutation, advance_draft, write_reading, write_sales, write_loss, stage_evidence,
}

pub data Write : Type 0 where
  reading : WriteReadingRequest → Write
  sale : WriteSalesRequest → Write
  loss : WriteLossRequest → Write
  evidence : StageEvidenceRequest → Write

abbrev pub draft_of : Write → Uuid
draft_of (reading r) = r.draft_id
draft_of (sale r) = r.draft_id
draft_of (loss r) = r.draft_id
draft_of (evidence r) = r.draft_id

abbrev pub token_of : Write → Uuid
token_of (reading r) = r.claim_token
token_of (sale r) = r.claim_token
token_of (loss r) = r.claim_token
token_of (evidence r) = r.claim_token

abbrev pub actor_of : Write → Uuid
actor_of (reading r) = r.actor_id
actor_of (sale r) = r.actor_id
actor_of (loss r) = r.actor_id
actor_of (evidence r) = r.actor_id

abbrev pub revision_of : Write → ℕ
revision_of (reading r) = r.revision
revision_of (sale r) = r.revision
revision_of (loss r) = r.revision
revision_of (evidence r) = r.revision

unfoldable pub write : Write → Uuid → Time → Db → Result (ℕ × Db)
write (reading r) = write_reading r
write (sale r) = write_sales r
write (loss r) = write_loss r
write (evidence r) = stage_evidence r

-- the lock that a write takes
abbrev pub lock_of : Write → Time → Db → Result ShiftDraftModel
lock_of w now db =
    lock_draft_for_mutation (draft_of w) (token_of w) (actor_of w) (revision_of w) now db

-- the number of rows that belong to a draft
unfoldable pub rows_of : Uuid → Db → ℕ
rows_of draft_id db =
    count (λ r. r.draft_id == draft_id) db.draft_readings
    + count (λ r. r.draft_id == draft_id) db.draft_sales
    + count (λ r. r.draft_id == draft_id) db.draft_losses
    + count (λ r. r.draft_id == draft_id) db.draft_evidence

-- What a write does beside its row.
abbrev pub Wrote : Write → Time → Db → ℕ → Db → Type 0
Wrote w now db n db' =
    (d : ShiftDraftModel) × (lock_of w now db ≡ ok d)
    × (n ≡ d.revision + 1)
    × (db'.drafts ≡ (advance_draft d (d.revision + 1) (actor_of w) now db).drafts)
    × (db'.organizations ≡ db.organizations)
    × (db'.stations ≡ db.stations)

pub write-Wrote :
    (w : Write) (row_id : Uuid) (now : Time) (db : Db) (n : ℕ) (db' : Db)
    → write w row_id now db ≡ ok (n, db')
    → Wrote w now db n db'
unfolding write write_reading write_sales write_loss stage_evidence
write-Wrote (reading r) row_id now db n db' h = ground arith
write-Wrote (sale r) row_id now db n db' h = ground arith
write-Wrote (loss r) row_id now db n db' h = ground arith
write-Wrote (evidence r) row_id now db n db' h = ground arith
