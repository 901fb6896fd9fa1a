-- ===== src/Governance/Acknowledge/Service.antt =====
-- `Service.Acknowledge` of internal/service/governance/service.go: what the request alone must meet.
use pomkita_be.Prelude.{
  nil_uuid, String, Bool, true, false, not, ◌&&◌, ◌||◌, Option, none, some, ltb, ◌==◌, str_eq, Uuid,
  Time,
}
use pomkita_be.Domain.{dependency, Error, Result, err, domain, refuse_if, found_or, ◌>>=◌, ◌>>◌}
use pomkita_be.Store.{Db}
use pomkita_be.Governance.Types.{
  Library, AcknowledgeRequest, Acknowledgement, ack_role_required, break_glass_reason_required,
  unexpected_break_glass_reason, invalid_ack_request, rejection_reason_required,
  unexpected_rejection_reason,
}
use pomkita_be.Governance.Acknowledge.{acknowledge}

abbrev pub dependency_unavailable : Error
dependency_unavailable = domain dependency "dependency_unavailable"

-- `Service`: what is missing is `none`. The repository is the one of the database.
pub record Service : Type 0 where
  pub repository : Option Db
  pub clock : Option Time

abbrev pub is_nil : Uuid → Bool
is_nil id = id == nil_uuid

abbrev pub is_empty : String → Bool
is_empty s = str_eq s ""

-- The break-glass rules; `trimmed` is the trimmed reason.
unfoldable pub check_break_glass : Bool → String → String → Result (Unit {0})
check_break_glass true role trimmed = do
  refuse_if (not (str_eq role "Owner") && not (str_eq role "Superadmin")) ack_role_required
  refuse_if (is_empty trimmed) break_glass_reason_required
check_break_glass false role trimmed =
    refuse_if (not (is_empty trimmed)) unexpected_break_glass_reason

abbrev pub is_incomplete : AcknowledgeRequest → Bool
is_incomplete r =
    is_nil r.org_id
    || is_nil r.station_id
    || is_nil r.shift_id
    || is_nil r.report_id
    || is_nil r.actor_id
    || ltb r.version_no 1

abbrev pub lacks_role : AcknowledgeRequest → Bool
lacks_role r =
    not (str_eq r.role "Station Admin")
    && not (str_eq r.role "Owner")
    && not (str_eq r.role "Superadmin")

abbrev pub is_undecided : String → Bool
is_undecided decision = not (str_eq decision "acked") && not (str_eq decision "rejected")

abbrev pub lacks_reason : String → String → Bool
lacks_reason decision trimmed = str_eq decision "rejected" && is_empty trimmed

abbrev pub has_reason : String → String → Bool
has_reason decision trimmed = str_eq decision "acked" && not (is_empty trimmed)

-- What `Service.Acknowledge` tests before it calls the repository.
unfoldable pub validate : (String → String) → AcknowledgeRequest → Result (Unit {0})
validate trim r = do
  refuse_if (is_incomplete r) invalid_ack_request
  refuse_if (lacks_role r) ack_role_required
  refuse_if (is_undecided r.decision) invalid_ack_request
  refuse_if (lacks_reason r.decision (trim r.rejection_reason)) rejection_reason_required
  refuse_if (has_reason r.decision (trim r.rejection_reason)) unexpected_rejection_reason
  check_break_glass r.is_break_glass r.role (trim r.break_glass_reason)

-- `Service.Acknowledge`
unfoldable pub service_acknowledge :
    Library → Option Service → AcknowledgeRequest → Uuid → Result (Acknowledgement × Db)
unfolding validate
service_acknowledge lib none request ack_id = err dependency_unavailable
service_acknowledge lib (some s) request ack_id = do
  db ← found_or dependency_unavailable s.repository
  now ← found_or dependency_unavailable s.clock
  validate lib.audit.trim_space request
  acknowledge lib request ack_id now db
