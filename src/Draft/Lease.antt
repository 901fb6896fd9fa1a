-- ===== src/Draft/Lease.antt =====
-- `Claim`: the lease of a draft.
use pomkita_be.Prelude.{
  Option-cases, first, first-holds, ◌+◌, ◌<◌, ◌≡◌, refl, ◌∙◌, ◌≢◌, inl, inr, Bool, false, ◌&&◌,
  some, List, arith, ◌==◌, Uuid, Time, first-update_where_keyed,
}
use pomkita_be.Domain.{ok, err}
use pomkita_be.Store.{Db}
use pomkita_be.Store.Shifts.{ShiftDraftModel}
use pomkita_be.Scope.{require_enabled}
use pomkita_be.Draft.Requests.{ClaimRequest, ClaimResult, claim_expired}
use pomkita_be.Draft.{claim, grant, held_by_other, draft_lease_duration, update_where}

-- `draft_id = ? and shift_id = ?`
abbrev pub of_request : Uuid → Uuid → ShiftDraftModel → Bool
of_request draft_id shift_id d = d.draft_id == draft_id && d.shift_id == shift_id

-- What a granted claim found and did.
pub claim-granted :
    (request : ClaimRequest) (token : Uuid) (now : Time) (db db' : Db) (r : ClaimResult)
    → claim request token now db ≡ ok (r, db')
    → (d : ShiftDraftModel) × (first (of_request request.draft_id request.shift_id) db.drafts
        ≡ some d)
      × (d.draft_id ≡ request.draft_id)
      × (require_enabled db d.org_id d.station_id ≡ ok tt)
      × (held_by_other d request.actor_id now ≡ false)
      × (db' ≡ record db {
        drafts =
            update_where
              (λ x. x.draft_id == request.draft_id)
              (grant request.actor_id token now)
              db.drafts;
      })
unfolding claim
claim-granted request token now db db' r h =
    elim (Option-cases (first (of_request request.draft_id request.shift_id) db.drafts)) [
      | inl nothing ↦ absurd (ground (arith, nothing))
      | inr (d, e) ↦
          let held = first-holds (of_request request.draft_id request.shift_id) db.drafts d e in
          let same : d.draft_id ≡ request.draft_id = ground (arith, held) in
          (d, e, same, ground (arith, e), ground (arith, e), ground (arith, e, same))
    ]

require_enabled_frame :
    (db : Db) (drafts : List ShiftDraftModel) (org station : Uuid)
    → require_enabled (record db { drafts = drafts }) org station ≡ require_enabled db org station
unfolding require_enabled
require_enabled_frame db drafts org station = refl

grant-of_request :
    (draft_id shift_id actor token : Uuid) (now : Time) (y : ShiftDraftModel)
    → of_request draft_id shift_id (grant actor token now y) ≡ of_request draft_id shift_id y
unfolding grant
grant-of_request draft_id shift_id actor token now y = refl

-- The draft after a granted claim, as the next claim of it finds it.
claim-row :
    (request : ClaimRequest) (token : Uuid) (now : Time) (db db' : Db) (r : ClaimResult)
    → claim request token now db ≡ ok (r, db')
    → (d : ShiftDraftModel) × (first (of_request request.draft_id request.shift_id) db'.drafts
        ≡ some (grant request.actor_id token now d))
      × (require_enabled db' d.org_id d.station_id ≡ ok tt)
claim-row request token now db db' r h =
    let (d, e, same, enabled, _, shape) = claim-granted request token now db db' r h in
    let row =
      first-update_where_keyed (of_request request.draft_id request.shift_id)
        (λ x. x.draft_id == request.draft_id) (grant request.actor_id token now) db.drafts d
        (grant-of_request request.draft_id request.shift_id request.actor_id token now) e in
    (
      d,
      rw shape (ground (arith, row, same)),
      rw shape (require_enabled_frame db _ d.org_id d.station_id ∙ enabled),
    )

-- On the database that a granted claim leaves, a claim of the same draft by another actor before
-- the lease expires is refused with `claim_expired`.
pub claim-exclusive :
    (request other : ClaimRequest) (token token' : Uuid) (now later : Time) (db db' : Db)
    (r : ClaimResult)
    → claim request token now db ≡ ok (r, db')
    → other.draft_id ≡ request.draft_id
    → other.shift_id ≡ request.shift_id
    → other.actor_id ≢ request.actor_id
    → later < now + draft_lease_duration
    → claim other token' later db' ≡ err claim_expired
unfolding claim
claim-exclusive request other token token' now later db db' r h same_draft same_shift differs
      early =
    let (d, row, enabled) = claim-row request token now db db' r h in
    rw (same_draft, same_shift, row) (ground (arith, enabled))
