-- ===== src/Lib.antt =====
-- pomkita-be: the backend that keeps the shift reports of fuel stations. A supervisor claims the
-- draft of a shift and writes readings, sales, losses and evidence under a lease and a revision;
-- the report that is made of them is acknowledged or rejected by someone else, and may be amended;
-- every such decision is an event in a hash chain per organization, and a relay delivers the
-- events to an outside sink. Sessions are JSON web tokens that a store of keys and sessions backs.
--
-- The files and the code they model:
-- - Domain: internal/domain/errors.go, with the result type that all operations share.
--   `transaction` is `gorm`'s: the changes of an operation that returns an error are undone.
-- - Store and its children: the rows of internal/repository/store/models.go and decimal.go, and
--   the database as one record of tables, each the list of its rows in the order of creation.
-- - Scope: internal/repository/scope/scope.go.
-- - Draft: internal/repository/draft/repository.go; Draft/Requests and Draft/Service:
--   internal/service/draft/service.go. Draft/Writes joins the four writes, Draft/Lease and
--   Draft/Fencing have the theorems on the repository, Draft/Service/Accepted the one on the
--   service.
-- - Audit: `AppendInTransaction` and `Verify` of internal/repository/audit/repository.go, with the
--   requests of internal/service/audit. Audit/Chain and Audit/Append have the theorems.
-- - Relay: internal/repository/relay/repository.go and internal/service/relay/service.go;
--   Relay/Lease and Relay/Delivery have the theorems.
-- - Canonical: internal/canonical/canonical.go; Canonical/Order has the theorem.
-- - Jwt: `Issue`, `Verify` and `Logout` of internal/jwt/service.go; Jwt/Types has its types and
--   errors, Jwt/Sound and Jwt/Lifecycle the theorems; Jwt/Repository: the store of the keys and
--   sessions in internal/repository/auth/repository.go, with the laws that the theorems ask of a
--   store.
-- - Submission: `Submit` of internal/repository/submission/repository.go and
--   internal/service/submission/service.go. Types has the requests, payloads and errors, Key the
--   idempotency key, Policy the snapshots of the policies, Promote the rows of the report, Staged
--   the evidence, Variance the alerts, Transaction the transaction that calls them, Service the
--   second transaction and the service. Once, Answers, Single, Settled and Readings have the
--   theorems.
-- - Recovery: internal/repository/recovery/repository.go and internal/service/recovery/service.go;
--   Recovery/Settles has the theorem.
-- - Lifecycle: the abstract life of a shift, in which each call of Submission and Governance has
--   its own step; Lifecycle/Refines has the refinement, Lifecycle/Rows its lemmas on rows.
-- - Governance/Acknowledge: `Acknowledge` of internal/repository/governance/repository.go, and in
--   its child Service the one of internal/service/governance/service.go; Governance/Amendment:
--   `RequestAmendment` and `RejectAmendment` of the repository; Governance/Approve: its
--   `ApproveAmendment`, with the checks and copies of Governance/Copy, and Governance/Applied and
--   Governance/Verdict with the theorems; Governance/Requests:
--   internal/service/governance/amendment_service.go; Governance/Evidence:
--   internal/service/governance/evidence_service.go; Governance/Alerts: `RecordAlertOccurrence`
--   and internal/service/governance/alert_service.go, and Governance/Occurrence with its theorem;
--   Governance/Starvation: `EvaluateStarvation` and
--   internal/service/governance/alert_scheduler.go, and Governance/Overdue with its theorem;
--   Governance/Types: the requests, results and errors.
-- - Transport: `domainHTTPError` of internal/httpapi/transport/middleware.go.
-- - Reconciliation: internal/service/reconciliation/reconciliation.go, with the digits of a number
--   in Reconciliation/Digits.
-- - Prelude: tests, queries and updates of tables, and texts. Samples and the modules named
--   Samples: concrete data and the theorems at it.
-- - Policy: `CreateRevision` of internal/repository/policy/repository.go and
--   internal/service/policy/service.go, and in its child Overlap the theorem; the history of the
--   revisions, which changes nothing, is left out.
-- - Shift: `OpenShift` of internal/repository/shift/repository.go and
--   internal/service/shift/service.go, and in its child Sequence the theorem. The tables of
--   nozzles, prices and maps, which only the catalog reads, are an argument. The queries of the
--   list and the detail are left out.
--
-- How the code is modelled:
-- - An operation of a repository takes the database and returns its result with the new database,
--   or an error. A query is the first row, the selected rows or the number of rows that meet the
--   code's condition; an update changes all rows that meet it.
-- - Identifiers that `uuid.New` returns and the times that the clock gives are arguments. A UUID
--   is a number, and `uuid.Nil` is 0. A time is a number of nanoseconds, and the zero time is 0;
--   times before it do not occur, and the times that the database keeps are whole microseconds.
-- - The integers of the code that count or number rows are natural numbers without a largest one:
--   they start at 0 or 1 and grow by one. The counts of the evidence policy may be negative.
-- - A text whose bytes matter is the list of its bytes, and else a string.
-- - A decimal that is written to a column of the type numeric is kept as the database gives it
--   back: `stored_numeric k` of the database, a function without assumptions, stands for the
--   rounding to k digits. Likewise `stored_json` of the audit library is what a jsonb column gives
--   back for a text; the theorems on the chain ask that it keeps the value of the payload.
-- - The decimals of the reconciliation, `big.Rat` in the code, are whole numbers of units of a
--   power of ten, which is exact for the sums, differences, products and comparisons that the code
--   takes of them.
-- - The sums and comparisons of the variance alerts, also `big.Rat` in the code, are fractions of
--   natural numbers with the negative part kept apart.
-- - A loop that creates rows takes what `uuid.New` returns in each round as a function of the
--   round.
-- - The loop that writes the digits of a number n has fuel n + 1, which is enough, since each
--   round divides by ten.
-- - Go's standard library and the packages for tokens and UUIDs are records of functions that the
--   definitions take, and what a theorem relies on of them is a hypothesis of it.
--
-- Not modelled: failures of the database itself, its constraints and triggers (migrations), row
-- locks (an operation is one step, as the locks of the code make it; the creation of a policy
-- revision for a whole organization takes none, and no theorem is about it), contexts and nil
-- receivers of the repositories, the rest of the HTTP layer, and the packages of accounts,
-- identities, organizations, stations and reporting. The texts of the errors of a submission leave
-- out the identifiers that the code formats into them.
pub mod Prelude
pub mod Samples
pub mod Domain
pub mod Store
pub mod Scope
pub mod Relay
pub mod Draft
pub mod Canonical
pub mod Audit
pub mod Jwt
pub mod Governance
pub mod Reconciliation
pub mod Transport
pub mod Submission
pub mod Lifecycle
pub mod Recovery
pub mod Shift
pub mod Policy
