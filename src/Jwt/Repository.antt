-- ===== src/Jwt/Repository.antt =====
-- The store of the tokens in internal/repository/auth/repository.go: the tables of keys and sessions.
use pomkita_be.Prelude.{
  first, update_where, create, All, ◌+◌, ◌*◌, String, ◌≡◌, refl, ap, ◌∙◌, ◌⊎◌, inl, inr, Bool, true,
  false, not, ◌&&◌, ◌||◌, Option, none, some, List, [], ◌∷◌, arith, eq_iff, ltb, ◌==◌, str_eq,
  if◌then◌else◌, Uuid, Time, is_set, nil_uuid, Bool-cases, Option-cases, second, first-create_none,
  ==_iff,
}
use pomkita_be.Domain.{
  found-some, >>=-ok, passed, ok, Result, err, wrapped, plain, refuse_if, found_or, ◌>>=◌, ◌>>◌,
}
use pomkita_be.Submission.Settled.{All-first}
use pomkita_be.Jwt.Types.{Key, Session, Store, unknown_kid, session_not_found, invalid_signature}
use pomkita_be.Jwt.Lifecycle.{IsStore}

-- `JWTKeyModel`
pub record JwtKeyModel : Type 0 where
  pub kid : String
  pub secret_ref : String
  pub status : String
  pub activated_at : Time
  pub max_token_expiry : Time

-- The tables, and `secrets`, which has no empty secret but for a reference that is missing. A row of
-- the sessions has the fields of `Session`.
pub record Auth : Type 0 where
  pub keys : List JwtKeyModel
  pub sessions : List Session
  pub secrets : String → String

-- `key`
unfoldable pub key_of : Auth → JwtKeyModel → Result Key
key_of a model = do
  refuse_if (str_eq (a.secrets model.secret_ref) "") invalid_signature
  ok (record {
    kid = model.kid;
    secret = a.secrets model.secret_ref;
    status = model.status;
    activated_at = model.activated_at;
    max_token_expiry = model.max_token_expiry;
  })

-- `ActiveKey`
unfoldable pub active_key : Auth → Result Key
unfolding key_of
active_key a = do
  model ← found_or unknown_kid (first (λ k. str_eq k.status "active") a.keys)
  key_of a model

-- `Key`
unfoldable pub key_by_kid : String → Auth → Result Key
unfolding key_of
key_by_kid kid a = do
  model ← found_or unknown_kid (first (λ k. str_eq k.kid kid) a.keys)
  key_of a model

abbrev pub of_jti : Uuid → Session → Bool
of_jti jti x = x.jti == jti

abbrev pub of_live : Uuid → Session → Bool
of_live jti x = x.jti == jti && not (is_set x.revoked_at)

-- `CreateSession`; the `jti` is the key of the table
unfoldable pub create_session : Session → Auth → Result Auth
create_session x a = do
  refuse_if (x.user_id == nil_uuid) (plain "session user ID is required")
  refuse_if (is_set (first (of_jti x.jti) a.sessions))
      (wrapped "create JWT session" (plain "duplicate key"))
  ok (record a { sessions = create x a.sessions })

-- the test before the update of the last activity
abbrev pub may_touch : Session → Time → Bool
may_touch x now =
    not (is_set x.revoked_at) && (x.expires_at == 0 || not (ltb (x.expires_at + 60 * second) now))

abbrev pub touched : Time → Session → Session
touched now x = record x { last_active_at = now }

abbrev pub revoked : Time → Session → Session
revoked now x = record x { revoked_at = some now }

-- what `Session` does with the row that it found
unfoldable pub found_session : Uuid → Time → Auth → Option Session → Result Session × Auth
found_session jti now a none = (err session_not_found, a)
found_session jti now a (some x) =
    if may_touch x now
    then (
      ok (touched now x),
      record a { sessions = update_where (of_live jti) (touched now) a.sessions },
    )
    else (ok x, a)

-- `Session`
unfoldable pub session : Uuid → Time → Auth → Result Session × Auth
unfolding found_session
session jti now a = found_session jti now a (first (of_jti jti) a.sessions)

-- `RevokeSession`
unfoldable pub revoke_session : Uuid → Time → Auth → Result Auth
revoke_session jti now a = do
  refuse_if (not (is_set (first (of_live jti) a.sessions))) session_not_found
  ok (record a { sessions = update_where (of_live jti) (revoked now) a.sessions })

-- `AuthRepository` as the store of the service
abbrev pub auth_store : Store Auth
auth_store = record {
  active_key = active_key;
  key = key_by_kid;
  create_session = create_session;
  session = session;
  revoke_session = revoke_session;
}

-- No two keys have the same name, which is the key of the table.
abbrev pub IsKeyed : List JwtKeyModel → Type 0
IsKeyed [] = Unit
IsKeyed (k ∷ ks) = All (λ (j : JwtKeyModel). str_eq k.kid j.kid ≡ false) ks × IsKeyed ks

named-first :
    (p : JwtKeyModel → Bool) (ks : List JwtKeyModel) (k : JwtKeyModel)
    → IsKeyed ks
    → first p ks ≡ some k
    → first (λ j. str_eq j.kid k.kid) ks ≡ some k
unfolding first
named-first p [] k d e = absurd (ground arith)
named-first p (j ∷ ks) k d e = elim (Bool-cases (p j)) [
  | inl hit ↦
      let same : j ≡ k = ground (arith, hit, e) in
      let own = (eq_iff k.kid k.kid).1 refl in rw (same, own) refl
  | inr miss ↦
      let rest : first p ks ≡ some k = ground (arith, miss, e) in
      let other = All-first (λ (i : JwtKeyModel). str_eq j.kid i.kid ≡ false) p ks k d.0 rest in
      rw (other, named-first p ks k d.1 rest) refl
]

found-kept :
    (x : Session) (at_time : Time) (a : Auth)
    → (t : Time) × ((found_session x.jti at_time a (some x)).0
        ≡ ok (record x { last_active_at = t }))
      × ((t ≡ x.last_active_at) ⊎ (t ≡ at_time))
unfolding found_session
found-kept x at_time a = elim (Bool-cases (may_touch x at_time)) [
  | inl yes_ ↦ (at_time, rw yes_ refl, inr refl)
  | inr no_ ↦ (x.last_active_at, rw no_ refl, inl refl)
]

created-first :
    (x : Session) (a a' : Auth)
    → create_session x a ≡ ok a'
    → (first (of_jti x.jti) a'.sessions ≡ some x) × (a'.keys ≡ a.keys) × (a'.secrets ≡ a.secrets)
unfolding create_session
created-first x a a' h = elim (Option-cases (first (of_jti x.jti) a.sessions)) [
  | inl absent ↦
      let rows : a'.sessions ≡ create x a.sessions = ground (arith, h, absent) in
      (
        rw rows
            (first-create_none (of_jti x.jti) a.sessions x absent ((==_iff x.jti x.jti).1 refl)),
        ground (arith, h, absent),
        ground (arith, h, absent),
      )
  | inr (y, there) ↦ absurd (ground (arith, h, there))
]

pub session-created :
    (x : Session) (at_time : Time) (a a' : Auth)
    → create_session x a ≡ ok a'
    → (t : Time) × ((session x.jti at_time a').0 ≡ ok (record x { last_active_at = t }))
      × ((t ≡ x.last_active_at) ⊎ (t ≡ at_time))
unfolding session
session-created x at_time a a' h =
    let (found, _, _) = created-first x a a' h in rw found (found-kept x at_time a')

key_of-secrets : (a a' : Auth) (m : JwtKeyModel) → a'.secrets ≡ a.secrets → key_of a' m ≡ key_of a m
unfolding key_of
key_of-secrets a a' m same = rw same refl

pub key-kept :
    (x : Session) (k : Key) (a a' : Auth)
    → IsKeyed a.keys
    → active_key a ≡ ok k
    → create_session x a ≡ ok a'
    → key_by_kid k.kid a' ≡ ok k
unfolding active_key key_by_kid key_of
key-kept x k a a' keyed h c =
    let (m, e, h1) =
      >>=-ok (found_or unknown_kid (first (λ j. str_eq j.status "active") a.keys)) _ h in
    let (_, keys, secrets) = created-first x a a' c in
    let there = found-some unknown_kid (first (λ j. str_eq j.status "active") a.keys) m e in
    let named = named-first (λ j. str_eq j.status "active") a.keys m keyed there in
    let same : k.kid ≡ m.kid = ground (arith, h1) in
    let lookup : first (λ j. str_eq j.kid k.kid) a'.keys ≡ some m =
      ap (first (λ j. str_eq j.kid k.kid)) keys
      ∙ (ap (λ n. first (λ j. str_eq j.kid n) a.keys) same ∙ named) in
    ap (λ o. found_or unknown_kid o >>= key_of a') lookup ∙ (key_of-secrets a a' m secrets ∙ h1)

revoked-first :
    (jti : Uuid) (revoked_at : Time) (xs : List Session)
    → is_set (first (of_live jti) xs) ≡ true
    → (y : Session) × (first (of_jti jti) (update_where (of_live jti) (revoked revoked_at) xs)
        ≡ some y)
      × (is_set y.revoked_at ≡ true)
unfolding first update_where
revoked-first jti revoked_at [] h = absurd (ground (arith, h))
revoked-first jti revoked_at (x ∷ xs) h = elim (Bool-cases (x.jti == jti)) [
  | inl hit ↦ elim (Bool-cases (is_set x.revoked_at)) [
    | inl done ↦ (x, rw (hit, done, hit) refl, done)
    | inr live ↦ (revoked revoked_at x, rw (hit, live, hit) refl, refl)
  ]
  | inr miss ↦
      let (y, found, done) = revoked-first jti revoked_at xs (ground (arith, h, miss)) in
      (y, rw (miss, miss) found, done)
]

revoked-untouched :
    (jti : Uuid) (at_time : Time) (a : Auth) (y : Session)
    → is_set y.revoked_at ≡ true
    → (found_session jti at_time a (some y)).0 ≡ ok y
unfolding found_session
revoked-untouched jti at_time a y done = rw done refl

pub session-revoked :
    (jti : Uuid) (revoked_at at_time : Time) (a a' : Auth)
    → revoke_session jti revoked_at a ≡ ok a'
    → (x : Session) × ((session jti at_time a').0 ≡ ok x) × (is_set x.revoked_at ≡ true)
unfolding session revoke_session
session-revoked jti revoked_at at_time a a' h =
    let (live, h1) = passed (not (is_set (first (of_live jti) a.sessions))) session_not_found h in
    let rows : a'.sessions ≡ update_where (of_live jti) (revoked revoked_at) a.sessions =
      ground (arith, h1) in
    let (y, found, done) = revoked-first jti revoked_at a.sessions (ground (arith, live)) in
    (
      y,
      ap (λ o. (found_session jti at_time a' o).0) (ap (first (of_jti jti)) rows ∙ found)
          ∙ revoked-untouched jti at_time a' y done,
      done,
    )

-- The repository is a store that the service may rely on.
abbrev pub auth_store_laws : IsStore auth_store
auth_store_laws = record {
  valid = λ a. IsKeyed a.keys;
  session_created = session-created;
  key_kept = key-kept;
  session_revoked = session-revoked;
}
