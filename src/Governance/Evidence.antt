-- ===== src/Governance/Evidence.antt =====
-- internal/service/governance/evidence_service.go: the evidence that the policy asks of one loss.
use pomkita_be.Prelude.{
  ℕ, ◌≤◌, ◌<◌, String, ◌≡◌, refl, ◌↔◌, ◌⊎◌, Bool, true, false, not, ◌&&◌, ◌||◌, arith, ltb, ◌==◌,
  str_eq, if◌then◌else◌,
}
use pomkita_be.Domain.{validation, Error, Result, ok, err, domain, refuse_if, ◌>>◌}
use pomkita_be.Canonical.{ℤ, pos, negsuc}

abbrev pub evidence_invalid : Error
evidence_invalid = domain validation "invalid_evidence_request"

abbrev pub evidence_required : Error
evidence_required = domain validation "evidence_required"

abbrev pub evidence_exception_required : Error
evidence_exception_required = domain validation "evidence_exception_required"

abbrev pub evidence_exception_forbidden : Error
evidence_exception_forbidden = domain validation "evidence_exception_forbidden"

-- `EvidenceValidationRequest`
pub record EvidenceValidationRequest : Type 0 where
  pub mode : String
  pub minimum_count : ℤ
  pub finalized_count : ℤ
  pub has_exception : Bool

-- The case "wajib": evidence is mandatory.
unfoldable pub validate_mandatory : ℕ → ℕ → Bool → Result (Unit {0})
validate_mandatory minimum finalized has_exception = do
  refuse_if has_exception evidence_exception_forbidden
  refuse_if (ltb finalized minimum || minimum == 0) evidence_required

-- The case "opsional": evidence or an exception.
unfoldable pub validate_optional : ℕ → Bool → Result (Unit {0})
validate_optional finalized has_exception = do
  refuse_if (finalized == 0 && not has_exception) evidence_exception_required
  refuse_if (ltb 0 finalized && has_exception) evidence_exception_forbidden

unfoldable pub validate_mode : String → ℤ → ℤ → Bool → Result (Unit {0})
unfolding validate_mandatory validate_optional
validate_mode mode (pos minimum) (pos finalized) has_exception =
    if str_eq mode "wajib"
    then validate_mandatory minimum finalized has_exception
    else if str_eq mode "opsional"
    then validate_optional finalized has_exception
    else err evidence_invalid
validate_mode mode (pos minimum) (negsuc n) has_exception = err evidence_invalid
validate_mode mode (negsuc m) finalized has_exception = err evidence_invalid

-- `ValidateEvidence`
unfoldable pub validate_evidence : EvidenceValidationRequest → Result (Unit {0})
unfolding validate_mode
validate_evidence r = validate_mode r.mode r.minimum_count r.finalized_count r.has_exception

-- The counts and the exception meet the policy: mandatory evidence needs a positive minimum that is
-- reached, and allows no exception; optional evidence needs a file or an exception, and not both.
abbrev pub Meets : String → ℤ → ℤ → Bool → Type 0
Meets mode minimum finalized has_exception =
    (m : ℕ) × (n : ℕ) × (minimum ≡ pos m)
    × (finalized ≡ pos n)
    × (((str_eq mode "wajib" ≡ true) × (has_exception ≡ false) × (0 < m) × (m ≤ n))
        ⊎ ((str_eq mode "wajib" ≡ false)
            × (str_eq mode "opsional" ≡ true)
            × (((0 < n) × (has_exception ≡ false)) ⊎ ((n ≡ 0) × (has_exception ≡ true)))))

Meets-of_mode :
    (mode : String) (minimum finalized : ℤ) (has_exception : Bool)
    → validate_mode mode minimum finalized has_exception ≡ ok tt
    → Meets mode minimum finalized has_exception
unfolding validate_mode
Meets-of_mode mode (pos m) (pos n) x h = (m, n, refl, refl, ground (arith, h))
Meets-of_mode mode (pos m) (negsuc n) x h = ground (arith, h)
Meets-of_mode mode (negsuc m) finalized x h = ground (arith, h)

mode_of_Meets :
    (mode : String) (minimum finalized : ℤ) (has_exception : Bool)
    → Meets mode minimum finalized has_exception
    → validate_mode mode minimum finalized has_exception ≡ ok tt
unfolding validate_mode
mode_of_Meets mode minimum finalized x (m, n, e, f, h) = rw (e, f) (ground (arith, h))

-- `ValidateEvidence` accepts a request if and only if its counts and its exception meet the policy
-- of its mode.
pub validate_evidence-Meets :
    (r : EvidenceValidationRequest)
    → (validate_evidence r ≡ ok tt) ↔ Meets r.mode r.minimum_count r.finalized_count r.has_exception
unfolding validate_evidence
validate_evidence-Meets r = (
  Meets-of_mode r.mode r.minimum_count r.finalized_count r.has_exception,
  mode_of_Meets r.mode r.minimum_count r.finalized_count r.has_exception,
)
