-- ===== src/Draft/Fencing.antt =====
-- The lock of the writes: the lease and the revision of a draft.
use pomkita_be.Prelude.{
  first, first-holds, count, create, first-update_where_keyed, first_of_weaker, count-append, ℕ,
  ◌+◌, ◌≡◌, refl, ap, ◌∙◌, ◌≢◌, Bool, true, ◌&&◌, some, List, arith, ◌==◌, Uuid, Time,
}
use pomkita_be.Domain.{ok}
use pomkita_be.Store.{Db}
use pomkita_be.Store.Shifts.{ShiftDraftModel}
use pomkita_be.Scope.{require_enabled}
use pomkita_be.Draft.Requests.{ClaimRequest, ClaimResult}
use pomkita_be.Draft.{
  claim, grant, holds_lease, lock_draft_for_mutation, advance_draft, write_reading, write_sales,
  write_loss, stage_evidence,
}
use pomkita_be.Draft.Lease.{claim-granted}
use pomkita_be.Draft.Writes.{
  Write, reading, sale, loss, evidence, draft_of, token_of, actor_of, revision_of, write, rows_of,
  write-Wrote,
}

abbrev pub of_id : Uuid → ShiftDraftModel → Bool
of_id draft_id d = d.draft_id == draft_id

-- The lock of a write reads the draft's row, tests the lease and compares the revision.
pub lock-holds :
    (id token actor : Uuid) (revision : ℕ) (now : Time) (db : Db) (d : ShiftDraftModel)
    → lock_draft_for_mutation id token actor revision now db ≡ ok d
    → (first (of_id id) db.drafts ≡ some d)
      × (require_enabled db d.org_id d.station_id ≡ ok tt)
      × (holds_lease d token actor now ≡ true)
      × (d.revision ≡ revision)
unfolding lock_draft_for_mutation
lock-holds id token actor revision now db d h = ground arith

-- The draft's row after a write: the same row with the next revision.
pub write-row :
    (w : Write) (row_id : Uuid) (now : Time) (db : Db) (n : ℕ) (db' : Db)
    → write w row_id now db ≡ ok (n, db')
    → (d : ShiftDraftModel) × (first (of_id (draft_of w)) db.drafts ≡ some d)
      × (d.revision ≡ revision_of w)
      × (holds_lease d (token_of w) (actor_of w) now ≡ true)
      × (n ≡ revision_of w + 1)
      × (first (of_id (draft_of w)) db'.drafts
          ≡ some (record d { revision = n; updated_by = some (actor_of w); updated_at = now }))
unfolding advance_draft
write-row w row_id now db n db' h =
    let (d, locked, next, drafts, _, _) = write-Wrote w row_id now db n db' h in
    let (e, enabled, lease, rev) =
      lock-holds (draft_of w) (token_of w) (actor_of w) (revision_of w) now db d locked in
    let row =
      first-update_where_keyed (of_id (draft_of w))
        (λ x. x.draft_id == d.draft_id && x.revision == d.revision)
        (λ x. record x {
          revision = d.revision + 1;
          updated_by = some (actor_of w);
          updated_at = now;
        })
        db.drafts d (λ y. refl) e in
    (d, e, rev, lease, ground arith, rw drafts (ground (arith, row)))

-- After a write of a draft succeeds, a write on the resulting database that names the same draft
-- and revision fails, whichever of the four writes it is, whoever makes it and whatever its row
-- is.
pub write-once :
    (w w' : Write) (row_id row_id' : Uuid) (now later : Time) (db : Db) (n : ℕ) (db' : Db)
    → write w row_id now db ≡ ok (n, db')
    → draft_of w' ≡ draft_of w
    → revision_of w' ≡ revision_of w
    → (m : ℕ) (db'' : Db) → write w' row_id' later db' ≢ ok (m, db'')
write-once w w' row_id row_id' now later db n db' h same_draft same_revision m db'' again =
    let (d, _, _, _, next, row) = write-row w row_id now db n db' h in
    let (d', row', rev', _, _, _) = write-row w' row_id' later db' m db'' again in
    let there : first (of_id (draft_of w)) db'.drafts ≡ some d' = rw same_draft at row' in
    ground (arith, there, row)

-- On the database that a granted claim leaves, a write of the claimed draft with a token other
-- than the granted one fails, whichever of the four writes it is.
pub claim-fences :
    (request : ClaimRequest) (token : Uuid) (now : Time) (db db' : Db) (r : ClaimResult)
    → claim request token now db ≡ ok (r, db')
    → (w : Write) (row_id : Uuid) (later : Time) → draft_of w ≡ request.draft_id
    → token_of w ≢ token
    → (n : ℕ) (db'' : Db) → write w row_id later db' ≢ ok (n, db'')
unfolding grant holds_lease
claim-fences request token now db db' r h w row_id later same stale n db'' done =
    let (d, e, _, _, _, shape) = claim-granted request token now db db' r h in
    let (t, f) = first_of_weaker _ (of_id request.draft_id) db.drafts d (λ y k. ground arith) e in
    let after =
      first-update_where_keyed (of_id request.draft_id) (of_id request.draft_id)
        (grant request.actor_id token now) db.drafts t (λ y. refl) f in
    let held = first-holds (of_id request.draft_id) db.drafts t f in
    let (d', row, _, lease, _, _) = write-row w row_id later db' n db'' done in
    let there : first (of_id request.draft_id) db'.drafts ≡ some d' = rw same at row in
    let seen : first (of_id request.draft_id) db'.drafts
        ≡ some (grant request.actor_id token now t) =
      rw shape (ground (arith, after, held)) in
    ground (arith, there, seen, lease)

count-create {ℓ} :
    {A : Type ℓ} (p : A → Bool) (xs ys : List A) (x : A)
    → ys ≡ create x xs
    → p x ≡ true
    → count p ys ≡ count p xs + 1
count-create p xs ys x e h = rw e (count-append p xs x ∙ rw h refl)

write-rows_of :
    (w : Write) (row_id : Uuid) (now : Time) (db : Db) (n : ℕ) (db' : Db)
    → write w row_id now db ≡ ok (n, db')
    → rows_of (draft_of w) db' ≡ rows_of (draft_of w) db + 1
unfolding write rows_of write_reading write_sales write_loss stage_evidence lock_draft_for_mutation
write-rows_of (reading r) row_id now db n db' h =
    let (d, e, _, _, _, _) = write-row (reading r) row_id now db n db' h in
    let held = first-holds (of_id r.draft_id) db.drafts d e in grind (arith, count-create)
write-rows_of (sale r) row_id now db n db' h =
    let (d, e, _, _, _, _) = write-row (sale r) row_id now db n db' h in
    let held = first-holds (of_id r.draft_id) db.drafts d e in grind (arith, count-create)
write-rows_of (loss r) row_id now db n db' h =
    let (d, e, _, _, _, _) = write-row (loss r) row_id now db n db' h in
    let held = first-holds (of_id r.draft_id) db.drafts d e in grind (arith, count-create)
write-rows_of (evidence r) row_id now db n db' h =
    let (d, e, _, _, _, _) = write-row (evidence r) row_id now db n db' h in
    let held = first-holds (of_id r.draft_id) db.drafts d e in grind (arith, count-create)

-- If the revision of a draft is one more than the number of its rows, then after a successful
-- write of the draft it is so again.
pub write-counted :
    (w : Write) (row_id : Uuid) (now : Time) (db : Db) (n : ℕ) (db' : Db) (d : ShiftDraftModel)
    → first (of_id (draft_of w)) db.drafts ≡ some d
    → d.revision ≡ rows_of (draft_of w) db + 1
    → write w row_id now db ≡ ok (n, db')
    → (d' : ShiftDraftModel) × (first (of_id (draft_of w)) db'.drafts ≡ some d')
      × (d'.revision ≡ rows_of (draft_of w) db' + 1)
write-counted w row_id now db n db' d e counted h =
    let (x, f, rev, _, next, row) = write-row w row_id now db n db' h in
    let same : x ≡ d = cc in
    (
      _,
      row,
      omega (
        arith,
        write-rows_of w row_id now db n db' h,
        ap (λ (y : ShiftDraftModel). y.revision) same,
      ),
    )
