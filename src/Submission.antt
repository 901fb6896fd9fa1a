-- ===== src/Submission.antt =====
-- internal/repository/submission/repository.go: `Submit` turns a draft into the first version of a
-- shift report, once for each idempotency key.
pub mod Types
pub mod Policy
pub mod Promote
pub mod Staged
pub mod Variance
pub mod Key
pub mod Transaction
pub mod Service
pub mod Once
pub mod Answers
pub mod Single
pub mod Settled
pub mod Readings
pub mod Samples
