-- ===== src/Jwt/Types.antt =====
-- The records and errors of internal/jwt/service.go, and what the service calls.
use pomkita_be.Prelude.{Uuid, String, Bool, false, Option, List, str_eq, if◌then◌else◌, Time}
use pomkita_be.Prelude.Text.{Bytes}
use pomkita_be.Domain.{Error, Result, ok, err, domain, wrapped, plain, record_not_found}

-- `status` is "active", "previous" or "retired".
pub record Key : Type 0 where
  pub kid : String
  pub secret : String
  pub status : String
  pub activated_at : Time
  pub max_token_expiry : Time

pub record Session : Type 0 where
  pub jti : Uuid
  pub user_id : Uuid
  pub kid : String
  pub issued_at : Time
  pub expires_at : Time
  pub last_active_at : Time
  pub revoked_at : Option Time

pub record Claims : Type 0 where
  pub issuer : String
  pub audience : String
  pub subject : Uuid
  pub jti : Uuid
  pub issued_at : Time
  pub expires_at : Time
  pub kid : String

-- `wireClaims`
pub record WireClaims : Type 0 where
  pub issuer : String
  pub audience : List String
  pub subject : String
  pub id : String
  pub issued_at : Option Time
  pub expires_at : Option Time

-- What `ParseUnverified` returns: the algorithm, the claims, and the header's `kid` if it is a text.
pub record Token : Type 0 where
  pub alg : String
  pub claims : WireClaims
  pub kid : Option String

-- `Store`, over the state `S` that it keeps. The query of a session may change the state, also when it
-- fails; its time is what the store's own clock gives.
pub record Store (S : Type 0) : Type 0 where
  pub active_key : S → Result Key
  pub key : String → S → Result Key
  pub create_session : Session → S → Result S
  pub session : Uuid → Time → S → Result Session × S
  pub revoke_session : Uuid → Time → S → Result S

-- The libraries: jwt (`ParseUnverified`, `SignedString` with HS256 and the header's `kid`, and
-- `SigningMethod.Verify`), base64, uuid and strings.
pub record Library : Type 0 where
  pub parse_unverified : String → Result Token
  pub sign : WireClaims → String → String → Result String
  pub verify_signature : String → Bytes → String → Bool
  pub decode_base64 : String → Option Bytes
  pub parse_uuid : String → Option Uuid
  pub uuid_string : Uuid → String
  -- `strings.Split(raw, ".")`, and `a + "." + b`
  pub split_dot : String → List String
  pub join_dot : String → String → String

abbrev pub invalid_algorithm : Error
invalid_algorithm = plain "jwt_invalid_algorithm"

abbrev pub invalid_issuer : Error
invalid_issuer = plain "jwt_invalid_issuer"

abbrev pub invalid_audience : Error
invalid_audience = plain "jwt_invalid_audience"

abbrev pub expired : Error
expired = plain "jwt_expired"

abbrev pub future_issued_at : Error
future_issued_at = plain "jwt_future_issued_at"

abbrev pub revoked_jti : Error
revoked_jti = plain "jwt_revoked_jti"

abbrev pub unknown_kid : Error
unknown_kid = plain "jwt_unknown_kid"

abbrev pub retired_key : Error
retired_key = plain "jwt_retired_key"

abbrev pub invalid_signature : Error
invalid_signature = plain "jwt_invalid_signature"

abbrev pub session_not_found : Error
session_not_found = plain "jwt_session_not_found"

abbrev pub session_expired : Error
session_expired = plain "jwt_session_expired"

abbrev pub session_idle : Error
session_idle = plain "session_idle"

-- `errors.Is(err, target)` for a target made by `errors.New`
unfoldable pub is_plain : String → Error → Bool
is_plain text (plain t) = str_eq t text
is_plain text (wrapped t e) = is_plain text e
is_plain text record_not_found = false
is_plain text (domain c code) = false

-- `if errors.Is(err, target) { return target }; return fmt.Errorf("text: %w", err)`
abbrev pub or_wrap {ℓ} : {A : Type ℓ} → String → String → Result A → Result A
or_wrap target text (ok a) = ok a
or_wrap target text (err e) = err (if is_plain target e then plain target else wrapped text e)
