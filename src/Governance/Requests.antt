-- ===== src/Governance/Requests.antt =====
-- internal/service/governance/amendment_service.go: the checks of `Request`, `Approve`, `Reject` and
-- `ListQueue` that stand before the repository.
use pomkita_be.Prelude.{
  length, nil_uuid, ℕ, String, Bool, true, false, not, ◌&&◌, ◌||◌, Option, none, some, List, [],
  ◌∷◌, ◌==◌, str_eq, if◌then◌else◌, Uuid, Time,
}
use pomkita_be.Domain.{ok, Result, err, refuse_if, found_or, ◌>>=◌, ◌>>◌}
use pomkita_be.Store.{Db}
use pomkita_be.Governance.Types.{
  Library, Amendment, AmendmentItem, AmendmentRequest, ApproveAmendmentRequest,
  RejectAmendmentRequest, is_approver, invalid_amendment_request, amendment_role_required,
  amendment_reason_required, amendment_field_forbidden,
}
use pomkita_be.Governance.Acknowledge.Service.{Service, dependency_unavailable}
use pomkita_be.Governance.Amendment.{request_amendment, reject_amendment}
use pomkita_be.Governance.Copy.{FreshIds}
use pomkita_be.Governance.Approve.{approve_amendment}

abbrev pub is_nil : Uuid → Bool
is_nil id = id == nil_uuid

-- `amendmentFieldAllowed`
unfoldable pub amendment_field_allowed : String → String → Bool
amendment_field_allowed kind field =
    if str_eq kind "sales_declared"
    then str_eq field "cash_amount" || str_eq field "cashless_amount"
    else if str_eq kind "loss_entry"
    then str_eq field "liters" || str_eq field "cash_amount" || str_eq field "note"
    else if str_eq kind "delivery" || str_eq kind "dip_reading"
    then str_eq field "reference" || str_eq field "delivery_id" || str_eq field "dip_id"
    else false

-- the loop over the items of a request
unfoldable pub validate_items : List AmendmentItem → Result (Unit {0})
validate_items [] = ok tt
validate_items (item ∷ items) = do
  refuse_if
      (not (amendment_field_allowed item.target_kind item.field)
        || is_nil item.target_logical_id
        || length item.old_value == 0)
      amendment_field_forbidden
  validate_items items

abbrev pub is_incomplete : (String → String) → AmendmentRequest → Bool
is_incomplete trim r =
    is_nil r.org_id
    || is_nil r.station_id
    || is_nil r.shift_id
    || is_nil r.base_report_id
    || is_nil r.requester_id
    || not (str_eq r.role "Supervisor")
    || str_eq (trim r.reason) ""
    || not (length r.stale_check_hash == 32)
    || length r.items == 0

-- the reason of a request that breaks the glass, and of one that does not
unfoldable pub check_break_reason : Bool → String → Result (Unit {0})
check_break_reason true trimmed = refuse_if (str_eq trimmed "") amendment_reason_required
check_break_reason false trimmed = refuse_if (not (str_eq trimmed "")) invalid_amendment_request

-- What `Request` tests before it calls the repository.
unfoldable pub validate_request : (String → String) → AmendmentRequest → Result (Unit {0})
unfolding validate_items check_break_reason
validate_request trim r = do
  refuse_if (is_incomplete trim r && not (str_eq r.role "Supervisor")) amendment_role_required
  refuse_if (is_incomplete trim r) invalid_amendment_request
  check_break_reason r.is_break_glass (trim r.break_glass_reason)
  validate_items r.items

unfoldable pub validate_approve : ApproveAmendmentRequest → Result (Unit {0})
validate_approve r = do
  refuse_if
      (is_nil r.org_id
        || is_nil r.station_id
        || is_nil r.amendment_id
        || is_nil r.approver_id
        || not (length r.stale_check_hash == 32))
      invalid_amendment_request
  refuse_if (not (is_approver r.role)) amendment_role_required

unfoldable pub validate_reject : (String → String) → RejectAmendmentRequest → Result (Unit {0})
validate_reject trim r = do
  refuse_if
      (is_nil r.org_id
        || is_nil r.station_id
        || is_nil r.amendment_id
        || is_nil r.approver_id
        || str_eq (trim r.rejection_reason) "")
      invalid_amendment_request
  refuse_if (not (is_approver r.role)) amendment_role_required

-- the repository and the clock of a service
unfoldable pub with_service {ℓ} : {A : Type ℓ} → Option Service → (Time → Db → Result A) → Result A
with_service none f = err dependency_unavailable
with_service (some s) f = do
  db ← found_or dependency_unavailable s.repository
  now ← found_or dependency_unavailable s.clock
  f now db

-- `AmendmentService.Request`
unfoldable pub service_request :
    Library → Option Service → AmendmentRequest → Uuid → (ℕ → Uuid) → Result (Amendment × Db)
unfolding with_service validate_request
service_request lib service request id item_ids = with_service service (λ now db. do
  validate_request lib.audit.trim_space request
  request_amendment lib request id item_ids now db)

-- `AmendmentService.Approve`
unfoldable pub service_approve :
    Library → Option Service → ApproveAmendmentRequest → FreshIds → Result (Amendment × Db)
unfolding with_service validate_approve
service_approve lib service request ids =
    with_service service
      (λ now db. do validate_approve request; approve_amendment lib request ids now db)

-- `AmendmentService.Reject`
unfoldable pub service_reject :
    Library → Option Service → RejectAmendmentRequest → Uuid → Result (Unit {0} × Db)
unfolding with_service validate_reject
service_reject lib service request id = with_service service (λ now db. do
  validate_reject lib.audit.trim_space request
  reject_amendment lib request id now db)
