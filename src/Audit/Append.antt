-- ===== src/Audit/Append.antt =====
-- `AppendInTransaction` and the chains of a log.
use pomkita_be.Prelude.{
  Option, length, All, last?, select, order_by, order_by-append, All-order_by, select-create_hit,
  select-create_miss, create, ==_iff, ◌+◌, ◌≤◌, ◌≡◌, refl, sym, ap, ◌∙◌, ◌≢◌, List, [], ◌∷◌, ◌++◌,
  arith, ◌==◌, Uuid, Time,
}
use native.Mathlib.Decide.{ℕ_discrete}
use mathlib.Core.Path.{subst}
use pomkita_be.Domain.{Result, ok, err, transaction}
use pomkita_be.Store.{Db}
use pomkita_be.Store.AuditRows.{AuditLogModel}
use pomkita_be.Audit.{
  Library, AppendRequest, Event, zero_hash, expected_hash, audit_row_hash, next_row, chain_of,
  append_in_transaction, verify,
}
use pomkita_be.Audit.Chain.{
  IsChain, IsHashed, IsChain-append, IsChain-below, chain_end, verify_rows_exact,
}

-- The chain of an organization links up, and each of its rows has a 32-byte hash.
pub record IsSound (lib : Library) (org_id : Uuid) (db : Db) : Type 0 where
  pub linked : IsChain lib zero_hash 1 (chain_of org_id db)
  pub hashed : IsHashed (chain_of org_id db)

-- The column of the payload gives back the same JSON value, its numbers written as they were.
abbrev pub IsKept : Library → AppendRequest → Type 0
IsKept lib request = lib.decode (lib.stored_json request.payload) ≡ lib.decode request.payload

-- The hash of the new row is the one that it should have.
next_row-hash :
    (lib : Library) (request : AppendRequest) (now : Time) (last : Option AuditLogModel)
    → IsKept lib request
    → (next_row lib request now last).row_hash ≡ expected_hash lib (next_row lib request now last)
unfolding next_row audit_row_hash
next_row-hash lib request now last kept = rw kept refl

-- What a successful append did.
append-created :
    (lib : Library) (request : AppendRequest) (now : Time) (db db' : Db) (e : Event)
    → append_in_transaction lib request now db ≡ ok (e, db')
    → let row = next_row lib request now (last? (chain_of request.org_id db)) in
      (db'.audit_log ≡ create row db.audit_log)
      × (length row.row_hash ≡ 32)
      × (e.org_sequence ≡ row.org_sequence)
unfolding append_in_transaction
append-created lib request now db db' e h = ground arith

-- An append writes the audit tables alone.
pub append-frame :
    (lib : Library) (request : AppendRequest) (now : Time) (db db' : Db) (e : Event)
    → append_in_transaction lib request now db ≡ ok (e, db')
    → (db'.organizations ≡ db.organizations)
      × (db'.stations ≡ db.stations)
      × (db'.shifts ≡ db.shifts)
      × (db'.ack_heads ≡ db.ack_heads)
      × (db'.ack_decisions ≡ db.ack_decisions)
      × (db'.amendments ≡ db.amendments)
      × (db'.amendment_items ≡ db.amendment_items)
      × (db'.drafts ≡ db.drafts)
unfolding append_in_transaction
append-frame lib request now db db' e h = ground arith

All-append {ℓ κ} :
    {A : Type ℓ} (P : A → Type κ) (xs : List A) (x : A) → All P xs → P x → All P (xs ++ x ∷ [])
All-append P [] x h p = (p, tt)
All-append P (y ∷ xs) x h p = (h.0, All-append P xs x h.1 p)

-- The chain of the organization that an event was appended for is the old one with the new row.
chain_of-append :
    (lib : Library) (request : AppendRequest) (now : Time) (db db' : Db) (e : Event)
    → IsSound lib request.org_id db
    → append_in_transaction lib request now db ≡ ok (e, db')
    → chain_of request.org_id db'
      ≡ chain_of request.org_id db
        ++ next_row lib request now (last? (chain_of request.org_id db)) ∷ []
unfolding chain_of next_row
chain_of-append lib request now db db' e s h =
    let rows = select (λ (r : AuditLogModel). r.org_id == request.org_id) db.audit_log in
    let last = last? (chain_of request.org_id db) in
    let row = next_row lib request now last in
    let (log, _, _) = append-created lib request now db db' e h in
    let (sequence, _) = chain_end lib (chain_of request.org_id db) s.linked s.hashed in
    let below =
      All-order_by (λ (r : AuditLogModel). r.org_sequence) (λ r. r.org_sequence ≤ row.org_sequence)
        rows
        (IsChain-below lib zero_hash 1 row.org_sequence (chain_of request.org_id db) s.linked
          (omega (arith, sequence))) in
    ap (order_by (λ r. r.org_sequence)) (
      ap (select (λ r. r.org_id == request.org_id)) log
      ∙ select-create_hit (λ r. r.org_id == request.org_id) db.audit_log row
          ((==_iff request.org_id request.org_id).1 refl))
    ∙ order_by-append (λ r. r.org_sequence) rows row below

-- The chain of every other organization is the same.
chain_of-append_ne :
    (lib : Library) (request : AppendRequest) (now : Time) (db db' : Db) (e : Event) (org_id : Uuid)
    → append_in_transaction lib request now db ≡ ok (e, db')
    → org_id ≢ request.org_id
    → chain_of org_id db' ≡ chain_of org_id db
unfolding chain_of next_row
chain_of-append_ne lib request now db db' e org_id h differs =
    let row = next_row lib request now (last? (chain_of request.org_id db)) in
    let (log, _, _) = append-created lib request now db db' e h in
    ap (order_by (λ r. r.org_sequence)) (
      ap (select (λ r. r.org_id == org_id)) log
      ∙ select-create_miss (λ r. r.org_id == org_id) db.audit_log row (ground arith))

-- The new row continues the chain, with a hash of 32 bytes.
append-own :
    (lib : Library) (request : AppendRequest) (now : Time) (db db' : Db) (e : Event)
    → IsSound lib request.org_id db
    → IsKept lib request
    → append_in_transaction lib request now db ≡ ok (e, db')
    → IsSound lib request.org_id db'
unfolding next_row
append-own lib request now db db' e s kept h =
    let chain = chain_of request.org_id db in
    let row = next_row lib request now (last? chain) in
    let (log, size, _) = append-created lib request now db db' e h in
    let (sequence, link) = chain_end lib chain s.linked s.hashed in
    let grown = chain_of-append lib request now db db' e s h in
    record {
      linked = subst (IsChain lib zero_hash 1) (sym grown) (
          IsChain-append lib zero_hash 1 chain row s.linked (omega (arith, sequence)) link
            (next_row-hash lib request now (last? chain) kept));
      hashed =
          subst IsHashed (sym grown)
            (All-append (λ r. length r.row_hash ≡ 32) chain row s.hashed size);
    }

-- If the chain of an organization and the chain of the request's organization are sound, a
-- successful append of a payload that the jsonb column gives back with the same value keeps the
-- former sound, and its event has the sequence number after the length of the latter.
pub append-IsSound :
    (lib : Library) (request : AppendRequest) (now : Time) (db db' : Db) (e : Event) (org_id : Uuid)
    → IsSound lib request.org_id db
    → IsSound lib org_id db
    → IsKept lib request
    → append_in_transaction lib request now db ≡ ok (e, db')
    → IsSound lib org_id db' × (e.org_sequence ≡ length (chain_of request.org_id db) + 1)
unfolding next_row
append-IsSound lib request now db db' e org_id own s kept h =
    let (_, _, next) = append-created lib request now db db' e h in
    let (sequence, _) = chain_end lib (chain_of request.org_id db) own.linked own.hashed in
    (
      elim (ℕ_discrete org_id request.org_id) [
        | yes same ↦
            subst (λ o. IsSound lib o db') (sym same)
              (append-own lib request now db db' e own kept h)
        | no differs ↦
            let same_chain = chain_of-append_ne lib request now db db' e org_id h differs in
            record {
              linked = subst (IsChain lib zero_hash 1) (sym same_chain) s.linked;
              hashed = subst IsHashed (sym same_chain) s.hashed;
            }
      ],
      omega (arith, sequence, next),
    )

pub empty-IsSound :
    (lib : Library) (db : Db) → db.audit_log ≡ [] → (org_id : Uuid) → IsSound lib org_id db
unfolding chain_of select order_by
empty-IsSound lib db empty org_id = record { linked = rw empty tt; hashed = rw empty tt }

-- `Append` is one transaction. A history of them, failed ones included.
unfoldable pub append_all : Library → List (AppendRequest × Time) → Db → Db
append_all lib [] db = db
append_all lib ((request, now) ∷ rest) db =
    append_all lib rest (transaction (append_in_transaction lib request now) db).1

append_all-IsSound :
    (lib : Library) (requests : List (AppendRequest × Time)) (db : Db)
    → ((org_id : Uuid) → IsSound lib org_id db)
    → All (λ (r : AppendRequest × Time). IsKept lib r.0) requests
    → (org_id : Uuid) → IsSound lib org_id (append_all lib requests db)
unfolding append_all
append_all-IsSound lib [] db s kept = s
append_all-IsSound lib ((request, now) ∷ rest) db s kept =
    append_all-IsSound lib rest (transaction (append_in_transaction lib request now) db).1
      (λ org_id. step org_id (append_in_transaction lib request now db) refl) kept.1
  where
    step :
        (org_id : Uuid) (r : Result (Event × Db))
        → append_in_transaction lib request now db ≡ r
        → IsSound lib org_id (transaction (λ _. r) db).1
    step org_id (ok (e, db')) eq =
        (append-IsSound lib request now db db' e org_id (s request.org_id) (s org_id) kept.0 eq).0
    step org_id (err f) eq = s org_id

-- After any history of appends to an empty log whose payloads the jsonb column gives back with the
-- same values, failed appends included, `Verify` accepts the chain of every organization.
pub append_all-verify :
    (lib : Library) (requests : List (AppendRequest × Time)) (db : Db) (org_id : Uuid)
    → All (λ (r : AppendRequest × Time). IsKept lib r.0) requests
    → db.audit_log ≡ []
    → verify lib org_id (append_all lib requests db) ≡ ok tt
unfolding verify
append_all-verify lib requests db org_id kept empty =
    let sound = append_all-IsSound lib requests db (empty-IsSound lib db empty) kept org_id in
    (verify_rows_exact lib zero_hash 1 (chain_of org_id (append_all lib requests db))).0.1
      sound.linked
