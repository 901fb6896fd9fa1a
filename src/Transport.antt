-- ===== src/Transport.antt =====
-- `domainHTTPError` of internal/httpapi/transport/middleware.go: the status and the code of an error
-- that a service returned. Status 0 stands for an error that is none of the domain's.
mod Samples
use pomkita_be.Prelude.{
  ℕ, zero, suc, ◌+◌, ◌-◌, ◌*◌, ◌/◌, ◌%◌, ◌^◌, ◌≤◌, ◌<◌, String, ◌≡◌, refl, sym, ap, ◌∙◌, ◌≢◌, ◌↔◌,
  ◌⊎◌, inl, inr, Bool, true, false, not, ◌&&◌, ◌||◌, Option, none, some, List, [], ◌∷◌, ◌++◌, map,
  arith, eq_iff, ltb, leb, ◌==◌, str_eq, if◌then◌else◌, Uuid, Time,
}
use pomkita_be.Domain.{
  Category, authentication, dependency, validation, conflict, not_found, authorization, as_domain,
  ok, Error, Result, err, domain, wrapped, plain, record_not_found, refuse_if, found_or, ◌>>=◌,
  ◌>>◌, transaction,
}
use pomkita_be.Jwt.Types.{is_plain, session_not_found, session_expired, revoked_jti}

-- the statuses of the categories
abbrev pub status_of : Category → ℕ
status_of authentication = 401
status_of authorization = 403
status_of validation = 422
status_of conflict = 409
status_of not_found = 404
status_of dependency = 503

-- `errors.Is` of the three errors of a session that cannot be used
unfoldable pub is_lost_session : Error → Bool
unfolding is_plain
is_lost_session e =
    is_plain "jwt_session_not_found" e
    || is_plain "jwt_session_expired" e
    || is_plain "jwt_revoked_jti" e

abbrev pub status_and_code : Option (Category × String) → ℕ × String
status_and_code none = (0, "")
status_and_code (some (category, code)) = (status_of category, code)

-- `domainHTTPError`
unfoldable pub domain_http_error : Error → ℕ × String
unfolding is_lost_session as_domain
domain_http_error e =
    if is_lost_session e then (401, "invalid_session") else status_and_code (as_domain e)

-- `fmt.Errorf("text: %w", err)` once for each text
abbrev pub wrap_all : List String → Error → Error
wrap_all [] e = e
wrap_all (text ∷ texts) e = wrapped text (wrap_all texts e)

is_plain-wrap_all :
    (target : String) (texts : List String) (e : Error)
    → is_plain target (wrap_all texts e) ≡ is_plain target e
unfolding is_plain
is_plain-wrap_all target [] e = refl
is_plain-wrap_all target (text ∷ texts) e = is_plain-wrap_all target texts e

as_domain-wrap_all : (texts : List String) (e : Error) → as_domain (wrap_all texts e) ≡ as_domain e
unfolding as_domain
as_domain-wrap_all [] e = refl
as_domain-wrap_all (text ∷ texts) e = as_domain-wrap_all texts e

-- However often an error was wrapped on its way up, it has the status and the code of the error
-- beneath: a domain error has its own code with 401, 403, 422, 409, 404 or 503 for its category, and
-- the three errors of a lost session have 401 and "invalid_session".
pub domain_http_error-wrap_all :
    (texts : List String) (e : Error) (code : String)
    → (domain_http_error (wrap_all texts e) ≡ domain_http_error e)
      × (domain_http_error (wrap_all texts (domain authentication code)) ≡ (401, code))
      × (domain_http_error (wrap_all texts (domain authorization code)) ≡ (403, code))
      × (domain_http_error (wrap_all texts (domain validation code)) ≡ (422, code))
      × (domain_http_error (wrap_all texts (domain conflict code)) ≡ (409, code))
      × (domain_http_error (wrap_all texts (domain not_found code)) ≡ (404, code))
      × (domain_http_error (wrap_all texts (domain dependency code)) ≡ (503, code))
      × (domain_http_error (wrap_all texts session_not_found) ≡ (401, "invalid_session"))
      × (domain_http_error (wrap_all texts session_expired) ≡ (401, "invalid_session"))
      × (domain_http_error (wrap_all texts revoked_jti) ≡ (401, "invalid_session"))
unfolding domain_http_error
domain_http_error-wrap_all texts e code = (
  under e,
  under (domain authentication code),
  under (domain authorization code),
  under (domain validation code),
  under (domain conflict code),
  under (domain not_found code),
  under (domain dependency code),
  under session_not_found,
  under session_expired,
  under revoked_jti,
)
  where
    under : (x : Error) → domain_http_error (wrap_all texts x) ≡ domain_http_error x
    under x =
        rw
          (
            is_plain-wrap_all "jwt_session_not_found" texts x,
            is_plain-wrap_all "jwt_session_expired" texts x,
            is_plain-wrap_all "jwt_revoked_jti" texts x,
            as_domain-wrap_all texts x,
          )
          refl
