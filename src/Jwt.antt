-- ===== src/Jwt.antt =====
-- internal/jwt/service.go: session tokens. The service stands on a store of keys and sessions, and
-- on libraries for tokens, base64, uuids and texts: all are parameters.
pub mod Types
pub mod Sound
pub mod Lifecycle
pub mod Repository
mod Samples
use pomkita_be.Prelude.{
  second, minute, nil_uuid, is_set, ℕ, zero, suc, ◌+◌, ◌-◌, ◌*◌, ◌/◌, ◌%◌, ◌^◌, ◌≤◌, ◌<◌, String,
  ◌≡◌, refl, sym, ap, ◌∙◌, ◌≢◌, ◌↔◌, ◌⊎◌, inl, inr, Bool, true, false, not, ◌&&◌, ◌||◌, Option,
  none, some, List, [], ◌∷◌, ◌++◌, map, arith, eq_iff, ltb, leb, ◌==◌, str_eq, if◌then◌else◌, Uuid,
  Time,
}
use pomkita_be.Prelude.Text.{Bytes}
use pomkita_be.Domain.{
  Error, wrap_error, Result, ok, err, domain, wrapped, plain, record_not_found, refuse_if, found_or,
  ◌>>=◌, ◌>>◌, transaction,
}
use pomkita_be.Jwt.Types.{
  Key, Session, Claims, WireClaims, Token, Store, Library, or_wrap, invalid_algorithm,
  invalid_issuer, invalid_audience, expired, future_issued_at, revoked_jti, unknown_kid,
  retired_key, invalid_signature, session_not_found, session_expired, session_idle,
}

-- `Service`, with the current time of `now` as an argument of the methods
pub record Service : Type 0 where
  pub issuer : String
  pub audience : String

-- `NewService`: the names default to "pomkita"
abbrev pub or_default : String → String
or_default name = if str_eq name "" then "pomkita" else name

unfoldable pub new_service : String → String → Service
new_service issuer audience = record { issuer = or_default issuer; audience = or_default audience }

-- `t.Truncate(time.Second)`
abbrev pub truncate_second : Time → Time
truncate_second t = t - t % second

abbrev pub before : Time → Time → Bool
before a b = ltb a b

-- the expiry that `Issue` gives
unfoldable pub issue_expiry : Key → Time → Time
issue_expiry key now =
    if not (key.max_token_expiry == 0) && before key.max_token_expiry (now + 15 * minute)
    then truncate_second key.max_token_expiry
    else now + 15 * minute

-- the status test of `Verify`
unfoldable pub is_retired : Key → Time → Bool
is_retired key now =
    str_eq key.status "retired"
    || (str_eq key.status "previous" && not (before now key.max_token_expiry))

-- the expiry that `Verify` reports: 15 minutes after the last activity, and not after the key's
unfoldable pub reissued_expiry : Session → Key → Time
reissued_expiry session key =
    if before key.max_token_expiry (session.last_active_at + 15 * minute)
    then key.max_token_expiry
    else session.last_active_at + 15 * minute

-- `len(audience) == 1 && audience[0] == expected`
abbrev pub is_only : String → List String → Bool
is_only expected [] = false
is_only expected (a ∷ []) = str_eq a expected
is_only expected (a ∷ b ∷ rest) = false

abbrev pub verify_decoded : Library → String → String → Option Bytes → Bool
verify_decoded lib signed secret none = false
verify_decoded lib signed secret (some signature) = lib.verify_signature signed signature secret

-- `verifyHMAC`, for the parts of the raw token between its dots
unfoldable pub verify_hmac : Library → String → List String → String → Bool
verify_hmac lib alg (header ∷ payload ∷ signature ∷ []) secret =
    str_eq alg "HS256"
    && verify_decoded lib (lib.join_dot header payload) secret (lib.decode_base64 signature)
verify_hmac lib alg _ secret = false

-- what `Verify` knows of a token before it asks for the session
pub record Admitted : Type 0 where
  pub token : Token
  pub issued_at : Time
  pub subject : Uuid
  pub jti : Uuid
  pub kid : String
  pub key : Key

module _ {S : Type 0} (lib : Library) (store : Store S) (s : Service) where
  -- `Issue`; `jti` is what `uuid.New` returns
  unfoldable pub issue : Uuid → Uuid → Time → S → Result ((String × Claims) × S)
  issue subject jti clock state = do
    key ← wrap_error "load active JWT key" (store.active_key state)
    refuse_if (not (str_eq key.status "active")) unknown_kid
    let now = truncate_second clock
    let expires = issue_expiry key now
    refuse_if (not (ltb now expires)) retired_key
    signed ← wrap_error "sign JWT" (
        lib.sign
          (record {
            issuer = s.issuer;
            audience = s.audience ∷ [];
            subject = lib.uuid_string subject;
            id = lib.uuid_string jti;
            issued_at = some now;
            expires_at = some expires;
          })
          key.kid key.secret)
    state' ← wrap_error "create JWT session" (
        store.create_session
          (record {
            jti = jti;
            user_id = subject;
            kid = key.kid;
            issued_at = now;
            expires_at = expires;
            last_active_at = now;
            revoked_at = none;
          })
          state)
    ok (
      (
        signed,
        record {
          issuer = s.issuer;
          audience = s.audience;
          subject = subject;
          jti = jti;
          issued_at = now;
          expires_at = expires;
          kid = key.kid;
        },
      ),
      state',
    )

  -- The tests of `Verify` on the claims alone; the result is the issue time and the identifiers.
  unfoldable pub check_claims : Token → Time → Result (Time × Uuid × Uuid × String)
  check_claims token now = do
    refuse_if (not (str_eq token.alg "HS256")) invalid_algorithm
    refuse_if (not (str_eq token.claims.issuer s.issuer)) invalid_issuer
    refuse_if (not (is_only s.audience token.claims.audience)) invalid_audience
    issued_at ← found_or expired token.claims.issued_at
    expires_at ← found_or expired token.claims.expires_at
    refuse_if (ltb (expires_at + 60 * second) now) expired
    refuse_if (ltb now issued_at) future_issued_at
    subject ← found_or (plain "invalid subject") (lib.parse_uuid token.claims.subject)
    jti ← found_or (plain "invalid jti") (lib.parse_uuid token.claims.id)
    kid ← found_or unknown_kid token.kid
    refuse_if (str_eq kid "") unknown_kid
    ok (issued_at, subject, jti, kid)

  -- The tests of `Verify` on the session.
  unfoldable pub check_session : Session → String → Uuid → Time → Result (Unit {0})
  check_session session kid subject now = do
    refuse_if (is_set session.revoked_at) revoked_jti
    refuse_if (not (session.expires_at == 0) && ltb (session.expires_at + 60 * second) now)
        session_expired
    refuse_if (not (str_eq session.kid kid)) session_not_found
    refuse_if (not (session.user_id == nil_uuid) && not (session.user_id == subject))
        session_not_found
    refuse_if (session.last_active_at == 0 || ltb (session.last_active_at + 15 * minute) now)
        session_idle

  -- `Verify` up to the query of the session
  unfoldable pub admit : String → Time → S → Result Admitted
  admit raw now state = do
    token ← wrap_error "parse JWT" (lib.parse_unverified raw)
    (issued_at, subject, jti, kid) ← check_claims token now
    key ← or_wrap "jwt_unknown_kid" "load JWT key" (store.key kid state)
    refuse_if (is_retired key now) retired_key
    refuse_if (not (verify_hmac lib token.alg (lib.split_dot raw) key.secret)) invalid_signature
    ok (record {
      token = token;
      issued_at = issued_at;
      subject = subject;
      jti = jti;
      kid = kid;
      key = key;
    })

  -- `Verify` from the answer of that query on
  unfoldable pub accept : Admitted → Time → Result Session → Result Claims
  accept a now found = do
    session ← or_wrap "jwt_session_not_found" "load JWT session" found
    check_session session a.kid a.subject now
    let reissued = reissued_expiry session a.key
    refuse_if (not (ltb now reissued)) retired_key
    ok (record {
      issuer = a.token.claims.issuer;
      audience = s.audience;
      subject = a.subject;
      jti = a.jti;
      issued_at = a.issued_at;
      expires_at = reissued;
      kid = a.kid;
    })

  -- the second half after the first; `at_time` is the time of the store
  unfoldable pub conclude : Time → Time → S → Result Admitted → Result Claims × S
  unfolding accept
  conclude now at_time state (err e) = (err e, state)
  conclude now at_time state (ok a) =
      let (found, state') = store.session a.jti at_time state in (accept a now found, state')

  -- `Verify`
  unfoldable pub verify : String → Time → Time → S → Result Claims × S
  unfolding admit conclude
  verify raw now at_time state = conclude now at_time state (admit raw now state)

  -- `Logout`
  unfoldable pub logout : Uuid → Time → S → Result S
  logout jti now state = wrap_error "revoke JWT session" (store.revoke_session jti now state)
