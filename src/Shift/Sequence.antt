-- ===== src/Shift/Sequence.antt =====
-- The numbers that a station gives its shifts.
use pomkita_be.Prelude.{max_of-bounds, All, ◌<◌, ◌≡◌, refl, ◌≢◌, true, List, [], ◌∷◌, ◌++◌, arith}
use pomkita_be.Domain.{ok, >>=-ok}
use pomkita_be.Store.{Db}
use pomkita_be.Store.Shifts.{ShiftModel}
use pomkita_be.Audit.{append_in_transaction}
use pomkita_be.Shift.{
  Library, Catalog, OpenRequest, Opened, FreshIds, Basis, of_station, next_sequence, read_basis,
  shift_row, write_open, open_shift,
}

-- two shifts of one station have different numbers
abbrev pub IsApart : ShiftModel → ShiftModel → Type 0
IsApart s t = s.org_id ≡ t.org_id → s.station_id ≡ t.station_id → s.station_seq ≢ t.station_seq

-- the shifts of each station have different numbers
abbrev pub IsNumbered : List ShiftModel → Type 0
IsNumbered [] = Unit
IsNumbered (s ∷ rest) = All (IsApart s) rest × IsNumbered rest

All-create {ℓ κ} :
    {A : Type ℓ} (P : A → Type κ) (xs : List A) (x : A) → All P xs → P x → All P (xs ++ x ∷ [])
All-create P [] x h px = (px, tt)
All-create P (y ∷ xs) x h px = (h.0, All-create P xs x h.1 px)

create-IsNumbered :
    (r : OpenRequest) (row : ShiftModel) (shifts : List ShiftModel)
    → row.org_id ≡ r.org_id
    → row.station_id ≡ r.station_id
    → All (λ s. of_station r s ≡ true → s.station_seq < row.station_seq) shifts
    → IsNumbered shifts
    → IsNumbered (shifts ++ row ∷ [])
create-IsNumbered r row [] org station below h = (tt, tt)
create-IsNumbered r row (s ∷ shifts) org station below h = (
  All-create (IsApart s) shifts row h.0 (λ same_org same_station same_seq.
      let own : of_station r s ≡ true = ground (arith, org, station, same_org, same_station) in
      let less = below.0 own in omega (arith, less, same_seq)),
  create-IsNumbered r row shifts org station below.1 h.1,
)

opened-rows :
    (lib : Library) (catalog : Catalog) (r : OpenRequest) (ids : FreshIds) (db db' : Db)
    (v : Opened)
    → open_shift lib catalog r ids db ≡ ok (v, db')
    → (b : Basis) × (db'.shifts ≡ db.shifts ++ shift_row r ids (next_sequence r db) b ∷ [])
      × (v.station_seq ≡ next_sequence r db)
unfolding open_shift write_open append_in_transaction
opened-rows lib catalog r ids db db' v h =
    let (b, _, h1) = >>=-ok (read_basis lib catalog r db) _ h in
    (b, ground (arith, h1), ground (arith, h1))

-- If the shifts of each station have different numbers, they have after a shift was opened, and its
-- number is greater than those of all shifts that its station had.
pub open_shift-IsNumbered :
    (lib : Library) (catalog : Catalog) (r : OpenRequest) (ids : FreshIds) (db db' : Db)
    (v : Opened)
    → open_shift lib catalog r ids db ≡ ok (v, db')
    → IsNumbered db.shifts
    → IsNumbered db'.shifts
      × All (λ s. of_station r s ≡ true → s.station_seq < v.station_seq) db.shifts
unfolding shift_row
open_shift-IsNumbered lib catalog r ids db db' v h numbered =
    let (b, rows, seq) = opened-rows lib catalog r ids db db' v h in
    let below =
      max_of-bounds (λ (s : ShiftModel). s.station_seq) (of_station r) db.shifts
        (next_sequence r db) (omega arith) in
    (
      rw rows (
          create-IsNumbered r (shift_row r ids (next_sequence r db) b) db.shifts refl refl below
            numbered),
      rw seq below,
    )
