-- ===== src/Transport/Samples.antt =====
-- The status of the errors of some operations, as they arrive at the transport.
use pomkita_be.Prelude.{List, String, ◌≡◌, [], ◌∷◌}
use pomkita_be.Domain.{
  authentication, authorization, validation, conflict, not_found, dependency, domain,
}
use pomkita_be.Jwt.Types.{invalid_issuer, session_not_found, session_expired, revoked_jti}
use pomkita_be.Transport.{domain_http_error, wrap_all, domain_http_error-wrap_all}

abbrev texts : List String
texts = "load" ∷ "verify" ∷ []

domain_http_error-wrap_all_example :
    (domain_http_error (wrap_all texts invalid_issuer) ≡ domain_http_error invalid_issuer)
    × (domain_http_error (wrap_all texts (domain authentication "late")) ≡ (401, "late"))
    × (domain_http_error (wrap_all texts (domain authorization "late")) ≡ (403, "late"))
    × (domain_http_error (wrap_all texts (domain validation "late")) ≡ (422, "late"))
    × (domain_http_error (wrap_all texts (domain conflict "late")) ≡ (409, "late"))
    × (domain_http_error (wrap_all texts (domain not_found "late")) ≡ (404, "late"))
    × (domain_http_error (wrap_all texts (domain dependency "late")) ≡ (503, "late"))
    × (domain_http_error (wrap_all texts session_not_found) ≡ (401, "invalid_session"))
    × (domain_http_error (wrap_all texts session_expired) ≡ (401, "invalid_session"))
    × (domain_http_error (wrap_all texts revoked_jti) ≡ (401, "invalid_session"))
domain_http_error-wrap_all_example = domain_http_error-wrap_all texts invalid_issuer "late"
