-- ===== src/Governance.antt =====
-- internal/repository/governance and internal/service/governance: decisions on shift reports.
pub mod Types
pub mod Acknowledge
pub mod Amendment
pub mod Copy
pub mod Approve
pub mod Applied
pub mod Verdict
pub mod Requests
pub mod Alerts
pub mod Starvation
pub mod Overdue
pub mod Occurrence
pub mod Evidence
pub mod Samples
mod Trials
mod AlertSamples
