-- ===== src/Audit/Chain.antt =====
-- The loop of `Verify` and the rows of a chain.
use pomkita_be.Prelude.{
  length, All, last?, ℕ, ◌+◌, ◌≤◌, ◌≡◌, refl, ◌↔◌, ◌⊎◌, inl, true, List, [], ◌∷◌, ◌++◌, arith,
}
use pomkita_be.Prelude.Text.{Bytes}
use pomkita_be.Domain.{ok, err}
use pomkita_be.Store.AuditRows.{AuditLogModel}
use pomkita_be.Audit.{
  Library, hash_or_zero, expected_hash, zero_hash, bytes_eq, verify_rows, sequence_of, prev_hash_of,
  chain_tampered,
}

-- The rows continue a chain whose last hash is `prev`, from the sequence number `n` on.
abbrev pub IsChain : Library → Bytes → ℕ → List AuditLogModel → Type 0
IsChain lib prev n [] = Unit {0}
IsChain lib prev n (r ∷ rs) =
    (r.org_sequence ≡ n)
    × (r.prev_hash ≡ prev)
    × (r.row_hash ≡ expected_hash lib r)
    × IsChain lib r.row_hash (n + 1) rs

pub bytes_eq_sound : (a b : Bytes) → bytes_eq a b ≡ true → a ≡ b
bytes_eq_sound [] [] h = refl
bytes_eq_sound [] (c ∷ b) h = cc
bytes_eq_sound (c ∷ a) [] h = cc
bytes_eq_sound (c ∷ a) (d ∷ b) h = ground (arith, bytes_eq_sound a b)

pub bytes_eq_refl : (a : Bytes) → bytes_eq a a ≡ true
bytes_eq_refl [] = refl
bytes_eq_refl (c ∷ a) = ground (arith, bytes_eq_refl a)

bytes_eq_complete : (a b : Bytes) → a ≡ b → bytes_eq a b ≡ true
bytes_eq_complete a b e = rw e (bytes_eq_refl b)

verify_rows_sound :
    (lib : Library) (prev : Bytes) (n : ℕ) (rows : List AuditLogModel)
    → verify_rows lib prev n rows ≡ ok tt
    → IsChain lib prev n rows
unfolding verify_rows
verify_rows_sound lib prev n [] h = tt
verify_rows_sound lib prev n (r ∷ rs) h =
    let same_prev = bytes_eq_sound r.prev_hash prev in
    let same_hash = bytes_eq_sound r.row_hash (expected_hash lib r) in
    (
      ground arith,
      ground (arith, same_prev),
      ground (arith, same_hash),
      verify_rows_sound lib r.row_hash (n + 1) rs (ground arith),
    )

verify_rows_complete :
    (lib : Library) (prev : Bytes) (n : ℕ) (rows : List AuditLogModel)
    → IsChain lib prev n rows
    → verify_rows lib prev n rows ≡ ok tt
unfolding verify_rows
verify_rows_complete lib prev n [] h = refl
verify_rows_complete lib prev n (r ∷ rs) h = ground (
  arith,
  bytes_eq_complete r.prev_hash prev h.1,
  bytes_eq_complete r.row_hash (expected_hash lib r) h.2,
  verify_rows_complete lib r.row_hash (n + 1) rs h.3,
)

verify_rows-answers :
    (lib : Library) (prev : Bytes) (n : ℕ) (rows : List AuditLogModel)
    → (verify_rows lib prev n rows ≡ ok tt) ⊎ (verify_rows lib prev n rows ≡ err chain_tampered)
unfolding verify_rows
verify_rows-answers lib prev n [] = inl refl
verify_rows-answers lib prev n (r ∷ rs) =
    ground (arith, verify_rows-answers lib r.row_hash (n + 1) rs)

-- The loop of `Verify` accepts exactly the chains, and answers everything else with
-- `audit_chain_tampered`.
pub verify_rows_exact :
    (lib : Library) (prev : Bytes) (n : ℕ) (rows : List AuditLogModel)
    → ((verify_rows lib prev n rows ≡ ok tt) ↔ IsChain lib prev n rows)
      × ((verify_rows lib prev n rows ≡ ok tt) ⊎ (verify_rows lib prev n rows ≡ err chain_tampered))
verify_rows_exact lib prev n rows = (
  (verify_rows_sound lib prev n rows, verify_rows_complete lib prev n rows),
  verify_rows-answers lib prev n rows,
)

abbrev pub end_hash : Bytes → List AuditLogModel → Bytes
end_hash prev [] = prev
end_hash prev (r ∷ rs) = end_hash r.row_hash rs

pub IsChain-append :
    (lib : Library) (prev : Bytes) (n : ℕ) (rows : List AuditLogModel) (x : AuditLogModel)
    → IsChain lib prev n rows
    → x.org_sequence ≡ n + length rows
    → x.prev_hash ≡ end_hash prev rows
    → x.row_hash ≡ expected_hash lib x
    → IsChain lib prev n (rows ++ x ∷ [])
IsChain-append lib prev n [] x c seq link hash = (omega arith, link, hash, tt)
IsChain-append lib prev n (r ∷ rs) x c seq link hash =
    (c.0, c.1, c.2, IsChain-append lib r.row_hash (n + 1) rs x c.3 (omega arith) link hash)

-- Every row has a 32-byte hash, as `AppendInTransaction` sees to.
abbrev pub IsHashed : List AuditLogModel → Type 0
IsHashed = All (λ r. length r.row_hash ≡ 32)

pub IsChain-below :
    (lib : Library) (prev : Bytes) (n k : ℕ) (rows : List AuditLogModel)
    → IsChain lib prev n rows
    → n + length rows ≤ k
    → All (λ r. r.org_sequence ≤ k) rows
IsChain-below lib prev n k [] c h = tt
IsChain-below lib prev n k (r ∷ rs) c h =
    (omega (arith, c.0), IsChain-below lib r.row_hash (n + 1) k rs c.3 (omega arith))

sequence_of-last :
    (lib : Library) (prev : Bytes) (n : ℕ) (r : AuditLogModel) (rs : List AuditLogModel)
    → IsChain lib prev n (r ∷ rs)
    → sequence_of (last? (r ∷ rs)) ≡ n + length rs
unfolding last?
sequence_of-last lib prev n r [] c = omega (arith, c.0)
sequence_of-last lib prev n r (x ∷ rs) c =
    omega (arith, sequence_of-last lib r.row_hash (n + 1) x rs c.3)

hash_or_zero-hashed : (h : Bytes) → length h ≡ 32 → hash_or_zero h ≡ h
hash_or_zero-hashed [] e = absurd (omega (arith, e))
hash_or_zero-hashed (b ∷ bs) e = refl

prev_hash_of-last :
    (r : AuditLogModel) (rs : List AuditLogModel) (prev : Bytes)
    → IsHashed (r ∷ rs)
    → prev_hash_of (last? (r ∷ rs)) ≡ end_hash prev (r ∷ rs)
unfolding last?
prev_hash_of-last r [] prev h = hash_or_zero-hashed r.row_hash h.0
prev_hash_of-last r (x ∷ rs) prev h = prev_hash_of-last x rs r.row_hash h.1

-- What the next row takes from the last one of a chain.
pub chain_end :
    (lib : Library) (rows : List AuditLogModel)
    → IsChain lib zero_hash 1 rows
    → IsHashed rows
    → (sequence_of (last? rows) ≡ length rows)
      × (prev_hash_of (last? rows) ≡ end_hash zero_hash rows)
unfolding last?
chain_end lib [] c h = (refl, refl)
chain_end lib (r ∷ rs) c h =
    (omega (arith, sequence_of-last lib zero_hash 1 r rs c), prev_hash_of-last r rs zero_hash h)
