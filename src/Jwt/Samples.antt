-- ===== src/Jwt/Samples.antt =====
-- The theorems about tokens with a small store, a list of sessions, and a library that knows one token.
use pomkita_be.Prelude.{
  first, second, minute, ==_iff, holds, ℕ, zero, suc, ◌+◌, ◌*◌, ◌≤◌, ◌<◌, String, ◌≡◌, refl, sym,
  ap, ◌≢◌, Bool, true, false, ◌&&◌, Option, none, some, List, [], ◌∷◌, arith, eq_iff, str_eq,
  if◌then◌else◌, Uuid, update_where,
}
use pomkita_be.Domain.{ok, err}
use pomkita_be.Jwt.{
  Service, new_service, issue, verify, logout, is_only, verify_hmac, is_retired, issue_expiry,
  check_claims, reissued_expiry, check_session,
}
use pomkita_be.Jwt.Types.{Key, Session, Claims, WireClaims, Token, Library, unknown_kid}
use pomkita_be.Jwt.Sound.{AreClaims, IsLive, verify_sound}
use pomkita_be.Jwt.Repository.{
  Auth, JwtKeyModel, active_key, key_by_kid, create_session, session, revoke_session, auth_store,
  auth_store_laws,
}
use pomkita_be.Jwt.Lifecycle.{IsFaithful, logout-verify, issue-verify}

abbrev key : Key
key = record {
  kid = "k1";
  secret = "sesame";
  status = "active";
  activated_at = 0;
  max_token_expiry = 10_000 * second;
}

abbrev row : JwtKeyModel
row = record {
  kid = "k1";
  secret_ref = "signing";
  status = "active";
  activated_at = 0;
  max_token_expiry = 10_000 * second;
}

abbrev empty : Auth
empty = record { keys = row ∷ []; sessions = []; secrets = λ name. "sesame" }

active_is : active_key empty ≡ ok key
unfolding active_key first
active_is = refl

-- an identifier in unary
abbrev unary : Uuid → String
unary zero = ""
unary (suc n) = String.◌∷◌ "i" (unary n)

abbrev size : String → Uuid
size String.[] = 0
size (String.◌∷◌ c s) = suc (size s)

size-unary : (u : Uuid) → size (unary u) ≡ u
size-unary zero = refl
size-unary (suc n) = ap suc (size-unary n)

abbrev wire : WireClaims
wire = record {
  issuer = "pomkita";
  audience = "pomkita" ∷ [];
  subject = unary 9;
  id = unary 8;
  issued_at = some (1000 * second);
  expires_at = some (1900 * second);
}

-- The library signs these claims alone.
abbrev fits : WireClaims → String → String → Bool
fits w kid secret =
    str_eq w.issuer "pomkita"
    && is_only "pomkita" w.audience
    && str_eq w.subject (unary 9)
    && str_eq w.id (unary 8)
    && holds w.issued_at (1000 * second)
    && holds w.expires_at (1900 * second)
    && str_eq kid "k1"
    && str_eq secret "sesame"

abbrev library : Library
library = record {
  parse_unverified = λ raw. ok (record { alg = "HS256"; claims = wire; kid = some "k1" });
  sign = λ w kid secret. if fits w kid secret then ok "h.p.s" else err unknown_kid;
  verify_signature = λ signed signature secret. str_eq signed "h.p" && str_eq secret "sesame";
  decode_base64 = λ text. some [];
  parse_uuid = λ text. some (size text);
  uuid_string = unary;
  split_dot = λ raw. "h" ∷ "p" ∷ "s" ∷ [];
  join_dot = λ a b. "h.p";
}

only_is : (l : List String) → is_only "pomkita" l ≡ true → l ≡ "pomkita" ∷ []
only_is [] h = cc
only_is (a ∷ []) h = ap (λ x. x ∷ []) ((eq_iff a "pomkita").0 h)
only_is (a ∷ b ∷ l) h = cc

holds_is : (o : Option ℕ) (n : ℕ) → holds o n ≡ true → o ≡ some n
holds_is none n h = cc
holds_is (some m) n h = ap some ((==_iff m n).0 h)

fits-wire :
    (w : WireClaims) (kid secret : String)
    → fits w kid secret ≡ true
    → (w ≡ wire) × (kid ≡ "k1") × (secret ≡ "sesame")
fits-wire w kid secret h =
    let i = (eq_iff w.issuer "pomkita").0 (ground (arith, h)) in
    let a = only_is w.audience (ground (arith, h)) in
    let s = (eq_iff w.subject (unary 9)).0 (ground (arith, h)) in
    let d = (eq_iff w.id (unary 8)).0 (ground (arith, h)) in
    let t = holds_is w.issued_at (1000 * second) (ground (arith, h)) in
    let x = holds_is w.expires_at (1900 * second) (ground (arith, h)) in
    (
      λ j. record {
        issuer = i j;
        audience = a j;
        subject = s j;
        id = d j;
        issued_at = t j;
        expires_at = x j;
      },
      (eq_iff kid "k1").0 (ground (arith, h)),
      (eq_iff secret "sesame").0 (ground (arith, h)),
    )

sign-fits :
    (w : WireClaims) (kid secret raw : String)
    → library.sign w kid secret ≡ ok raw
    → (w ≡ wire) × (kid ≡ "k1") × (secret ≡ "sesame")
sign-fits w kid secret raw h = fits-wire w kid secret (signed (fits w kid secret) h)
  where
    signed : (b : Bool) → (if b then ok "h.p.s" else err unknown_kid) ≡ ok raw → b ≡ true
    signed true e = refl
    signed false e = cc

hmac_of_secret :
    (secret : String)
    → secret ≡ "sesame"
    → verify_hmac library "HS256" ("h" ∷ "p" ∷ "s" ∷ []) secret ≡ true
unfolding verify_hmac
hmac_of_secret secret known = rw known refl

library-IsFaithful : IsFaithful library
library-IsFaithful = record {
  parse_sign = λ w kid secret raw h.
      let (same, named, _) = sign-fits w kid secret raw h in
      λ j. ok (record { alg = "HS256"; claims = sym same j; kid = some (sym named j) });
  verify_sign = λ w kid secret raw h.
      let (_, _, known) = sign-fits w kid secret raw h in hmac_of_secret secret known;
  parse_uuid_string = λ u. ap some (size-unary u);
}

abbrev service : Service
service = new_service "" ""

abbrev opened : Session
opened = record {
  jti = 8;
  user_id = 9;
  kid = "k1";
  issued_at = 1000 * second;
  expires_at = 1900 * second;
  last_active_at = 1000 * second;
  revoked_at = none;
}

abbrev claims : Claims
claims = record {
  issuer = "pomkita";
  audience = "pomkita";
  subject = 9;
  jti = 8;
  issued_at = 1000 * second;
  expires_at = 1900 * second;
  kid = "k1";
}

abbrev issued : Auth
issued = record empty { sessions = opened ∷ [] }

issued_is :
    issue library auth_store service 9 8 (1000 * second) empty ≡ ok (("h.p.s", claims), issued)
unfolding issue new_service issue_expiry active_key create_session first
issued_is = refl

issue-verify_example :
    (d : Claims) × ((verify library auth_store service "h.p.s"
        (1100 * second)
        (1101 * second)
        issued).0
      ≡ ok d)
    × (d.subject ≡ 9)
    × (d.jti ≡ 8)
    × (d.issued_at ≡ 1000 * second)
    × (d.kid ≡ "k1")
issue-verify_example =
    issue-verify library auth_store service library-IsFaithful auth_store_laws 9 8 (1000 * second)
      (1100 * second) (1101 * second) empty issued "h.p.s" claims key (tt, tt) active_is issued_is
      refl (omega arith) (omega arith) (omega arith) (omega arith) (omega arith)

-- what the claims say after the session was touched
abbrev accepted : Claims
accepted = record claims { expires_at = 2001 * second }

accepted_is :
    (verify library auth_store service "h.p.s" (1100 * second) (1101 * second) issued).0
    ≡ ok accepted
unfolding verify new_service check_claims is_retired verify_hmac first check_session reissued_expiry
    key_by_kid session
accepted_is = refl

verify_sound_example :
    (token : Token) × (k : Key) × (found : Session) × (library.parse_unverified "h.p.s" ≡ ok token)
    × AreClaims library auth_store service token (1100 * second) (1000 * second) 9 8 "k1"
    × (key_by_kid "k1" issued ≡ ok k)
    × (is_retired k (1100 * second) ≡ false)
    × (verify_hmac library token.alg (library.split_dot "h.p.s") k.secret ≡ true)
    × ((session 8 (1101 * second) issued).0 ≡ ok found)
    × IsLive library auth_store service found "k1" 9 (1100 * second)
    × (1100 * second < accepted.expires_at)
    × (accepted.expires_at ≤ found.last_active_at + 15 * minute)
    × (accepted.expires_at ≤ k.max_token_expiry)
verify_sound_example =
    verify_sound library auth_store service "h.p.s" (1100 * second) (1101 * second) issued accepted
      accepted_is

-- A second session of the user, whose token stays good when the first one logs out.
abbrev both : Auth
both = record issued { sessions = record opened { jti = 7 } ∷ opened ∷ [] }

abbrev left : Auth
left = record issued {
  sessions = record opened { jti = 7; revoked_at = some (1050 * second) } ∷ opened ∷ [];
}

left_is : logout library auth_store service 7 (1050 * second) both ≡ ok left
unfolding logout revoke_session first update_where
left_is = refl

still_accepted :
    (verify library auth_store service "h.p.s" (1100 * second) (1101 * second) left).0 ≡ ok accepted
unfolding verify new_service check_claims is_retired verify_hmac first check_session reissued_expiry
    key_by_kid session
still_accepted = refl

logout-verify_example : accepted.jti ≢ 7
logout-verify_example =
    logout-verify library auth_store service auth_store_laws 7 (1050 * second) (1100 * second)
      (1101 * second) both left "h.p.s" accepted left_is still_accepted
