-- ===== src/Recovery/Settles.antt =====
-- What a recovery leaves of the stale drafts.
use mathlib.Core.Path.{subst}
use pomkita_be.Prelude.{
  count, ==_iff, first, select, update_where, order_by, insert_by, Bool-cases, All, is_set, length,
  ℕ, suc, ◌+◌, ◌-◌, ◌≡◌, refl, sym, ap, ◌∙◌, inl, inr, Bool, true, false, not, ◌||◌, List, [], ◌∷◌,
  arith, ◌==◌, str_eq, Uuid, Time,
}
use pomkita_be.Domain.{ok, >>=-ok, found_or}
use pomkita_be.Store.{Db}
use pomkita_be.Store.Shifts.{ShiftDraftModel}
use pomkita_be.Audit.{append_in_transaction}
use pomkita_be.Recovery.{
  Library, recovery_draft_status, is_stale, stale_drafts, settle_draft, recover_one, recover_all,
  recover_stale,
}

-- the keys of the drafts that the loop still has to take
abbrev pub listed : Uuid → List ShiftDraftModel → Bool
listed id [] = false
listed id (d ∷ ds) = d.draft_id == id || listed id ds

-- Each stale draft of the table is still to be taken.
abbrev pub IsCovered : Time → List ShiftDraftModel → ShiftDraftModel → Type 0
IsCovered cutoff todo d = (not (is_stale cutoff d) || listed d.draft_id todo) ≡ true

listed-insert :
    (key : ShiftDraftModel → ℕ) (id : Uuid) (d : ShiftDraftModel) (ds : List ShiftDraftModel)
    → listed id (insert_by key d ds) ≡ listed id (d ∷ ds)
unfolding insert_by
listed-insert key id d [] = refl
listed-insert key id d (x ∷ ds) = ground (arith, listed-insert key id d ds)

length-insert :
    (key : ShiftDraftModel → ℕ) (d : ShiftDraftModel) (ds : List ShiftDraftModel)
    → length (insert_by key d ds) ≡ suc (length ds)
unfolding insert_by
length-insert key d [] = refl
length-insert key d (x ∷ ds) = ground (arith, length-insert key d ds)

length-order :
    (key : ShiftDraftModel → ℕ) (ds : List ShiftDraftModel) → length (order_by key ds) ≡ length ds
unfolding order_by
length-order key [] = refl
length-order key (d ∷ ds) = length-insert key d (order_by key ds) ∙ ap suc (length-order key ds)

listed-order :
    (key : ShiftDraftModel → ℕ) (id : Uuid) (ds : List ShiftDraftModel)
    → listed id (order_by key ds) ≡ listed id ds
unfolding order_by
listed-order key id [] = refl
listed-order key id (d ∷ ds) =
    listed-insert key id d (order_by key ds) ∙ rw (listed-order key id ds) refl

IsCovered-rest :
    (cutoff : Time) (id : Uuid) (todo : List ShiftDraftModel) (head d : ShiftDraftModel)
    → head.draft_id ≡ id
    → IsCovered cutoff (head ∷ todo) d
    → (d.draft_id == id) ≡ false
    → IsCovered cutoff todo d
IsCovered-rest cutoff id todo head d own h miss = ground (arith, own, h, miss)

IsCovered-more :
    (cutoff : Time) (head : ShiftDraftModel) (todo ds : List ShiftDraftModel)
    → All (IsCovered cutoff todo) ds
    → All (IsCovered cutoff (head ∷ todo)) ds
IsCovered-more cutoff head todo [] h = tt
IsCovered-more cutoff head todo (d ∷ ds) h =
    (ground (arith, h.0), IsCovered-more cutoff head todo ds h.1)

IsCovered-head :
    (cutoff : Time) (d : ShiftDraftModel) (ds : List ShiftDraftModel) → IsCovered cutoff (d ∷ ds) d
IsCovered-head cutoff d ds =
    let same = (==_iff d.draft_id d.draft_id).1 refl in ground (arith, same)

select-covers :
    (cutoff : Time) (ds : List ShiftDraftModel)
    → All (IsCovered cutoff (select (is_stale cutoff) ds)) ds
unfolding select
select-covers cutoff [] = tt
select-covers cutoff (d ∷ ds) = elim (Bool-cases (is_stale cutoff d)) [
  | inl stale ↦
      let both : select (is_stale cutoff) (d ∷ ds) ≡ d ∷ select (is_stale cutoff) ds =
        rw stale refl in
      subst (λ (todo : List ShiftDraftModel). All (IsCovered cutoff todo) (d ∷ ds)) (sym both)
        (
          IsCovered-head cutoff d (select (is_stale cutoff) ds),
          IsCovered-more cutoff d (select (is_stale cutoff) ds) ds (select-covers cutoff ds),
        )
  | inr fresh ↦
      let rest : select (is_stale cutoff) (d ∷ ds) ≡ select (is_stale cutoff) ds = rw fresh refl in
      subst (λ (todo : List ShiftDraftModel). All (IsCovered cutoff todo) (d ∷ ds)) (sym rest)
        (ground (arith, fresh), select-covers cutoff ds)
]

IsCovered-order :
    (key : ShiftDraftModel → ℕ) (cutoff : Time) (todo ds : List ShiftDraftModel)
    → All (IsCovered cutoff todo) ds
    → All (IsCovered cutoff (order_by key todo)) ds
IsCovered-order key cutoff todo [] h = tt
IsCovered-order key cutoff todo (d ∷ ds) h =
    (rw (listed-order key d.draft_id todo) h.0, IsCovered-order key cutoff todo ds h.1)

settled_status : (b : Bool) → str_eq (recovery_draft_status b) "submitting" ≡ false
settled_status true = refl
settled_status false = refl

-- A row that the update of a round touches is not stale, and the others are left.
settled-IsCovered :
    (cutoff now : Time) (has_report : Bool) (id : Uuid) (todo : List ShiftDraftModel)
    (head : ShiftDraftModel) (drafts : List ShiftDraftModel)
    → head.draft_id ≡ id
    → All (IsCovered cutoff (head ∷ todo)) drafts
    → All (IsCovered cutoff todo) (settle_draft now has_report id drafts)
unfolding settle_draft update_where
settled-IsCovered cutoff now has_report id todo head [] own h = tt
settled-IsCovered cutoff now has_report id todo head (d ∷ drafts) own h = (
  elim (Bool-cases (d.draft_id == id)) [
    | inl hit ↦ elim (Bool-cases (str_eq d.status "submitting")) [
      | inl left ↦ rw (hit, left, hit, settled_status has_report) refl
      | inr other ↦ rw (hit, other, hit, settled_status has_report) refl
    ]
    | inr miss ↦ rw (miss, miss) (IsCovered-rest cutoff id todo head d own h.0 miss)
  ],
  settled-IsCovered cutoff now has_report id todo head drafts own h.1,
)

round-drafts :
    (lib : Library) (now : Time) (draft : ShiftDraftModel) (db db' : Db)
    → recover_one lib now draft db ≡ ok db'
    → (b : Bool) × (db'.drafts ≡ settle_draft now b draft.draft_id db.drafts)
unfolding recover_one append_in_transaction
round-drafts lib now draft db db' h =
    let (shift, e, h1) =
      >>=-ok (found_or _ (first (λ s. s.shift_id == draft.shift_id) db.shifts)) _ h in
    (is_set shift.current_report_id, ground (arith, h1))

loop-IsCovered :
    (lib : Library) (cutoff now : Time) (start : ℕ) (todo : List ShiftDraftModel) (db db' : Db)
    (n : ℕ)
    → recover_all lib now start todo db ≡ ok (n, db')
    → All (IsCovered cutoff todo) db.drafts
    → All (IsCovered cutoff []) db'.drafts × (n ≡ start + length todo)
unfolding recover_all
loop-IsCovered lib cutoff now start [] db db' n h covered =
    let same : db ≡ db' = ground (arith, h) in (rw⁻¹ same covered, ground (arith, h))
loop-IsCovered lib cutoff now start (d ∷ todo) db db' n h covered =
    let (mid, e, h1) = >>=-ok (recover_one lib now d db) _ h in
    let (b, drafts) = round-drafts lib now d db mid e in
    let (rest, number) =
      loop-IsCovered lib cutoff now (start + 1) todo mid db' n h1
        (rw drafts (settled-IsCovered cutoff now b d.draft_id todo d db.drafts refl covered)) in
    (rest, omega (arith, number))

none_stale :
    (cutoff : Time) (ds : List ShiftDraftModel)
    → All (IsCovered cutoff []) ds
    → select (is_stale cutoff) ds ≡ []
unfolding select
none_stale cutoff [] h = refl
none_stale cutoff (d ∷ ds) h =
    let fresh : is_stale cutoff d ≡ false = ground (arith, h.0) in
    rw (fresh, none_stale cutoff ds h.1) refl

-- A recovery that succeeds leaves no draft whose submission is in progress since before the cutoff,
-- and the number that it returns is the number of the drafts that were.
pub recover_stale-settles :
    (lib : Library) (now max_age : Time) (db db' : Db) (n : ℕ)
    → recover_stale lib now max_age db ≡ ok (n, db')
    → (select (is_stale (now - max_age)) db'.drafts ≡ [])
      × (n ≡ count (is_stale (now - max_age)) db.drafts)
unfolding recover_stale stale_drafts count
recover_stale-settles lib now max_age db db' n h =
    let cutoff = now - max_age in
    let stale = select (is_stale cutoff) db.drafts in
    let by_id = order_by (λ (d : ShiftDraftModel). d.draft_id) stale in
    let covered =
      IsCovered-order (λ d. d.updated_at) cutoff by_id db.drafts
        (IsCovered-order (λ d. d.draft_id) cutoff stale db.drafts
          (select-covers cutoff db.drafts)) in
    let (left, number) =
      loop-IsCovered lib cutoff now 0 (order_by (λ (d : ShiftDraftModel). d.updated_at) by_id) db
        db' n h covered in
    let all = length-order (λ (d : ShiftDraftModel). d.updated_at) by_id in
    let ordered = length-order (λ (d : ShiftDraftModel). d.draft_id) stale in
    (none_stale cutoff db'.drafts left, omega (arith, number, all, ordered))
